-- ===== src/Fuse.antt =====
-- ai4/constrain/semantic_fuse.py: deterministic scores tightened by the findings of an examiner. A
-- policy is what `_index_policy_map` makes of the packaged map: routes, penalties and caps, which it
-- has checked to be nonnegative and finite. Scores and penalties are whole ten-thousandths.
pub mod Dedupe
pub mod Scores
pub mod Findings
pub mod Rebuild
mod Examples
use ai4_constrain.Prelude.{
  ℕ, ◌+◌, ◌≤◌, min, Bool, true, false, not, ◌&&◌, ◌||◌, Option, none, some, List, [], ◌∷◌, ◌++◌,
  map, String, str_eq, leb, ltb, if◌then◌else◌, every, is_nil,
}
use ai4_constrain.Prelude.Int.{ℤ, pos, negsuc, ltb_ℤ, ◌-ℤ◌}
use ai4_constrain.Prelude.Result.{Result, ok, err, ◌>>=◌, ◌>>◌, guard}
use ai4_constrain.Prelude.Text.{member}
use ai4_constrain.Abort.{RawNumber, finite, not_finite, not_number}

-- `SemanticFuseError`, and the `KeyError` of a dictionary.
pub data FuseError : Type 0 where
  semantic_fuse_error key_error : FuseError

-- A `dict` whose keys are texts.
module _ {ℓ} {V : Type ℓ} where
  unfoldable pub get : String → List (String × V) → Option V
  get key [] = none
  get key ((k, value) ∷ rest) =
      let later = get key rest in if str_eq key k then some value else later

  abbrev pub found : Option V → Bool
  found none = false
  found (some value) = true

  pub item_of : Option V → Result FuseError V
  item_of none = err key_error
  item_of (some value) = ok value

  -- `d[key]`
  pub item : String → List (String × V) → Result FuseError V
  item key d = item_of (get key d)

abbrev pub required_shard_ids : List String
required_shard_ids = "truth" ∷ "compassion" ∷ "autonomy" ∷ "privacy" ∷ "harm_aversion" ∷ []

-- The score 1.
abbrev pub one : ℕ
one = 10000

pub finite_number : RawNumber → Result FuseError ℤ
finite_number (finite n) = ok n
finite_number not_finite = err semantic_fuse_error
finite_number not_number = err semantic_fuse_error

pub nonnegative : ℤ → Result FuseError ℕ
nonnegative (pos n) = ok n
nonnegative (negsuc n) = err semantic_fuse_error

abbrev pub within : Option ℕ → ℕ → Bool
within none value = true
within (some maximum) value = leb value maximum

pub score_given : Option ℕ → Option RawNumber → Result FuseError ℕ
score_given maximum entry = do
  given ← item_of entry
  number ← finite_number given
  value ← nonnegative number
  guard (within maximum value) semantic_fuse_error
  ok value

pub score_of : Option ℕ → List (String × RawNumber) → String → Result FuseError ℕ
score_of maximum raw shard = score_given maximum (get shard raw)

-- A loop over the required shards that makes a dictionary.
pub collect : (String → Result FuseError ℕ) → List String → Result FuseError (List (String × ℕ))
collect f [] = ok []
collect f (shard ∷ shards) = do value ← f shard; rest ← collect f shards; ok ((shard, value) ∷ rest)

-- `_score_map`
pub score_map :
    List String → Option ℕ → List (String × RawNumber) → Result FuseError (List (String × ℕ))
score_map required maximum raw = do
  guard (every (λ entry. member entry.0 required) raw) semantic_fuse_error
  guard (every (λ shard. found (get shard raw)) required) semantic_fuse_error
  collect (score_of maximum raw) required

-- `_clamp`
pub clamp : ℤ → ℤ → ℤ → Result FuseError ℤ
clamp value lo hi =
    if ltb_ℤ hi lo
    then err semantic_fuse_error
    else ok (if ltb_ℤ value lo then lo else if ltb_ℤ hi value then hi else value)

pub fuse_one : ℕ → ℕ → Result FuseError ℕ
fuse_one det over = do
  clamped ← clamp (pos det -ℤ pos over) (pos 0) (pos det)
  fused ← nonnegative clamped
  guard (leb fused det) semantic_fuse_error
  ok fused

pub fuse_shard : List (String × ℕ) → List (String × ℕ) → String → Result FuseError ℕ
fuse_shard det over shard = do d ← item shard det; o ← item shard over; fuse_one d o

-- Every keyword argument is refused.
pub packaged_fuse_v2 :
    List String
    → List (String × RawNumber)
    → List (String × RawNumber)
    → Result FuseError (List (String × ℕ))
packaged_fuse_v2 kwargs det_scores overlay = do
  guard (is_nil kwargs) semantic_fuse_error
  det ← score_map required_shard_ids (some one) det_scores
  over ← score_map required_shard_ids none overlay
  collect (fuse_shard det over) required_shard_ids

-- A `BoundFinding` with the fields of its finding that the fusion reads.
pub record BoundFinding : Type 0 where
  pub finding_id : String
  pub class_id : String
  pub confidence_bin : String
  pub claim_fingerprint : String

pub record Policy : Type 0 where
  pub route : List (String × List String)
  pub overlays : List (String × List (String × List (String × ℕ)))
  pub caps : List (String × ℕ)

pub record ConsumedFindingRecord : Type 0 where
  pub finding_id : String
  pub class_id : String
  pub confidence_bin : String
  pub claim_fingerprint : String
  pub mapped_shards : List String
  pub mapped_deltas : List (String × ℕ)
  pub suppressed : Bool

pub record PackagedFuseResult : Type 0 where
  pub det_scores : List (String × ℕ)
  pub overlay : List (String × ℕ)
  pub fused_scores : List (String × ℕ)
  pub findings_consumed : List ConsumedFindingRecord
  pub findings_suppressed : List ConsumedFindingRecord

-- `deltas.get(shard, 0)`
pub or_zero : Option ℕ → ℕ
or_zero none = 0
or_zero (some n) = n

pub add_penalties : List (String × ℕ) → List (String × ℕ) → List (String × ℕ)
unfolding or_zero
add_penalties deltas [] = []
add_penalties deltas ((shard, total) ∷ rest) =
    (shard, total + or_zero (get shard deltas)) ∷ add_penalties deltas rest

pub known {ℓ} : {V : Type ℓ} → Option V → Result FuseError V
known none = err semantic_fuse_error
known (some value) = ok value

pub deltas_of : Policy → BoundFinding → Result FuseError (List (String × ℕ))
deltas_of policy finding = do
  guard (found (get finding.class_id policy.route)) semantic_fuse_error
  bins ← known (get finding.class_id policy.overlays)
  deltas ← known (get finding.confidence_bin bins)
  guard (every (λ entry. member entry.0 required_shard_ids) deltas) semantic_fuse_error
  ok deltas

-- The loop over the survivors.
pub aggregate :
    Policy → List BoundFinding → List (String × ℕ) → Result FuseError (List (String × ℕ))
aggregate policy [] totals = ok totals
aggregate policy (finding ∷ rest) totals = do
  deltas ← deltas_of policy finding
  aggregate policy rest (add_penalties deltas totals)

pub capped : Policy → List (String × ℕ) → String → Result FuseError ℕ
capped policy totals shard = do
  total ← item shard totals
  cap ← item shard policy.caps
  ok (min total cap)

abbrev pub raw_of : List (String × ℕ) → List (String × RawNumber)
raw_of = map λ entry. (entry.0, finite (pos entry.1))
