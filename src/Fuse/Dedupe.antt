-- ===== src/Fuse/Dedupe.antt =====
-- ai4/constrain/semantic_fuse.py, `_dedupe_findings`: one survivor of each group of equivalent findings.
pub mod Survivors
use ai4_constrain.Prelude.{
  ℕ, Bool, true, false, not, ◌&&◌, Option, none, some, List, [], ◌∷◌, ◌++◌, String, str_eq, ltb,
  ◌==◌, if◌then◌else◌,
}
use ai4_constrain.Prelude.Result.{Result, ok, ◌>>◌, guard}
use ai4_constrain.Prelude.Sort.{sort}
use ai4_constrain.Prelude.Text.{member, text_leb}
use ai4_constrain.Fuse.{FuseError, semantic_fuse_error, BoundFinding}

-- `_CONFIDENCE_RANK`
unfoldable pub confidence_rank : String → Option ℕ
confidence_rank bin =
    if str_eq bin "low"
    then some 0
    else if str_eq bin "medium"
    then some 1
    else if str_eq bin "high"
    then some 2
    else none

abbrev pub rank_of : String → ℕ
rank_of bin = elim (confidence_rank bin) [ none ↦ 0 | some rank ↦ rank ]

abbrev pub known_bin : String → Bool
known_bin bin = elim (confidence_rank bin) [ none ↦ false | some _ ↦ true ]

-- `is_sha256` is the match of the regular expression.
unfoldable pub require_bound_finding :
    (is_sha256 : String → Bool) → BoundFinding → Result FuseError (Unit {0})
require_bound_finding is_sha256 finding = do
  guard (is_sha256 finding.claim_fingerprint) semantic_fuse_error
  guard (not (str_eq finding.finding_id "")) semantic_fuse_error
  guard (not (str_eq finding.class_id "")) semantic_fuse_error
  guard (known_bin finding.confidence_bin) semantic_fuse_error
  ok tt

-- The loop that validates, with the identifiers seen so far.
unfoldable pub validate_findings :
    (String → Bool) → List String → List BoundFinding → Result FuseError (Unit {0})
validate_findings is_sha256 seen [] = ok tt
validate_findings is_sha256 seen (finding ∷ rest) = do
  require_bound_finding is_sha256 finding
  guard (not (member finding.finding_id seen)) semantic_fuse_error
  validate_findings is_sha256 (finding.finding_id ∷ seen) rest

-- The identity of a finding: its class and its fingerprint.
abbrev pub equivalent : BoundFinding → BoundFinding → Bool
equivalent a b = str_eq a.class_id b.class_id && str_eq a.claim_fingerprint b.claim_fingerprint

-- A group that is not empty.
pub record Group : Type 0 where
  pub first : BoundFinding
  pub rest : List BoundFinding

abbrev pub members : Group → List BoundFinding
members g = g.first ∷ g.rest

-- `groups.setdefault(key, []).append(item)`
unfoldable pub append_to : BoundFinding → List Group → List Group
append_to finding [] = record { first = finding; rest = [] } ∷ []
append_to finding (g ∷ gs) =
    let later = append_to finding gs in
    if equivalent g.first finding
    then record g { rest = g.rest ++ finding ∷ [] } ∷ gs
    else g ∷ later

unfoldable pub group_all : List BoundFinding → List Group → List Group
group_all [] groups = groups
group_all (finding ∷ rest) groups = group_all rest (append_to finding groups)

-- The orders on tuples: of the keys, of the ranks in a group, and of the results.
abbrev pub then_leb : String → String → Bool → Bool
then_leb a b rest = if str_eq a b then rest else text_leb a b

abbrev pub key_leb : Group → Group → Bool
key_leb a b =
    then_leb a.first.class_id b.first.class_id
      (text_leb a.first.claim_fingerprint b.first.claim_fingerprint)

abbrev pub rank_leb : BoundFinding → BoundFinding → Bool
rank_leb a b =
    if rank_of a.confidence_bin == rank_of b.confidence_bin
    then text_leb a.finding_id b.finding_id
    else ltb (rank_of b.confidence_bin) (rank_of a.confidence_bin)

abbrev pub result_leb : BoundFinding → BoundFinding → Bool
result_leb a b =
    then_leb a.class_id b.class_id
      (then_leb a.claim_fingerprint b.claim_fingerprint (text_leb a.finding_id b.finding_id))

abbrev pub heads : List BoundFinding → List BoundFinding
heads [] = []
heads (x ∷ xs) = x ∷ []

abbrev pub tails : List BoundFinding → List BoundFinding
tails [] = []
tails (x ∷ xs) = xs

-- The loop over the sorted groups: the best of each, and the others.
unfoldable pub survivors_of : List Group → List BoundFinding
survivors_of [] = []
survivors_of (g ∷ gs) = heads (sort rank_leb (members g)) ++ survivors_of gs

unfoldable pub suppressed_of : List Group → List BoundFinding
suppressed_of [] = []
suppressed_of (g ∷ gs) = tails (sort rank_leb (members g)) ++ suppressed_of gs

-- `_dedupe_findings`
unfoldable pub dedupe_findings :
    (String → Bool) → List BoundFinding → Result FuseError (List BoundFinding × List BoundFinding)
dedupe_findings is_sha256 findings = do
  validate_findings is_sha256 [] findings
  let groups = sort key_leb (group_all findings []) in
      ok (sort result_leb (survivors_of groups), sort result_leb (suppressed_of groups))
