-- ===== src/Fuse/Findings.antt =====
-- ai4/constrain/semantic_fuse.py, `_fuse_bound_findings`: what the findings of an examiner may do to the
-- deterministic scores. The identity tests on the digest of the policy are not modelled.
use ai4_constrain.Prelude.{
  ℕ, ◌-◌, ◌≤◌, ◌≡◌, min, refl, Bool, true, false, Option, none, some, List, [], ◌∷◌, map, String,
  if◌then◌else◌, subst, sym, ap, ◌∙◌, arith,
}
use ai4_constrain.Prelude.Int.{pos}
use ai4_constrain.Prelude.Result.{Result, ok, ◌>>=◌, Returns, returned, Returns-bind}
use ai4_constrain.Prelude.Text.{member}
use ai4_constrain.Abort.{RawNumber, finite}
use ai4_constrain.Fuse.{
  FuseError, get, item, item_of, required_shard_ids, one, collect, score_map, packaged_fuse_v2,
  BoundFinding, Policy, ConsumedFindingRecord, PackagedFuseResult, aggregate, capped, raw_of,
}
use ai4_constrain.Fuse.Dedupe.{
  dedupe_findings, validate_findings, group_all, survivors_of, suppressed_of,
}
use ai4_constrain.Prelude.Sort.{sort}
use ai4_constrain.Fuse.Scores.{collect-Holds, score_map-MapOf, packaged_fuse_v2-Fused}

abbrev or_nil {ℓ} : {A : Type ℓ} → Option (List A) → List A
or_nil none = []
or_nil (some xs) = xs

-- `(shard, deltas[shard]) for shard in shards if shard in deltas`
unfoldable pub mapped : List (String × ℕ) → List String → List (String × ℕ)
mapped deltas [] = []
mapped deltas (shard ∷ shards) =
    let rest = mapped deltas shards in
    elim (get shard deltas) [ none ↦ rest | some delta ↦ (shard, delta) ∷ rest ]

-- `_record_for`
unfoldable pub record_for : Policy → Bool → BoundFinding → ConsumedFindingRecord
record_for policy suppressed finding =
    let shards = or_nil (get finding.class_id policy.route) in
    let bins = or_nil (get finding.class_id policy.overlays) in
    let deltas = or_nil (get finding.confidence_bin bins) in
    record {
      finding_id = finding.finding_id;
      class_id = finding.class_id;
      confidence_bin = finding.confidence_bin;
      claim_fingerprint = finding.claim_fingerprint;
      mapped_shards = shards;
      mapped_deltas = if suppressed then [] else mapped deltas shards;
      suppressed = suppressed;
    }

unfoldable pub zero_totals : List (String × ℕ)
zero_totals = map (λ shard. (shard, 0)) required_shard_ids

-- `_fuse_bound_findings`
unfoldable pub fuse_bound_findings :
    (is_sha256 : String → Bool)
    → Policy
    → List (String × RawNumber)
    → List BoundFinding
    → Result FuseError PackagedFuseResult
fuse_bound_findings is_sha256 policy det_scores findings = do
  det ← score_map required_shard_ids (some one) det_scores
  split ← dedupe_findings is_sha256 findings
  totals ← aggregate policy split.0 zero_totals
  overlay ← collect (capped policy totals) required_shard_ids
  fused ← packaged_fuse_v2 [] (raw_of det) (raw_of overlay)
  ok (record {
    det_scores = det;
    overlay = overlay;
    fused_scores = fused;
    findings_consumed = map (record_for policy false) split.0;
    findings_suppressed = map (record_for policy true) split.1;
  })

get-raw_of :
    (shard : String) (d : List (String × ℕ)) (n : ℕ)
    → get shard (raw_of d) ≡ some (finite (pos n))
    → get shard d ≡ some n
unfolding get
get-raw_of shard [] n h = cc
get-raw_of shard (entry ∷ rest) n h = ground (arith, get-raw_of shard rest n)

some_eq : (t : ℕ) → some t ≡ some 0 → t ≡ 0
some_eq t e = cc

min_le : (a b : ℕ) → min a b ≤ b
min_le a b = omega arith

min_given :
    (total cap : Option ℕ)
    → Returns
        (λ o. (c : ℕ) × (cap ≡ some c) × (o ≤ c))
        (item_of total >>= λ t. item_of cap >>= λ c. ok (min t c))
unfolding item_of
min_given none cap = tt
min_given (some t) none = tt
min_given (some t) (some c) = (c, refl, min_le t c)

capped_le :
    (policy : Policy) (totals : List (String × ℕ)) (shard : String)
    → Returns
        (λ o. (cap : ℕ) × (get shard policy.caps ≡ some cap) × (o ≤ cap))
        (capped policy totals shard)
unfolding capped item item_of
capped_le policy totals shard = min_given (get shard totals) (get shard policy.caps)

-- For each required shard: the scores, and how far the findings may tighten them.
abbrev pub Tightens : Policy → List (String × RawNumber) → PackagedFuseResult → Type 0
Tightens policy det_scores r =
    (shard : String)
    → member shard required_shard_ids ≡ true
    → (d : ℕ) × (o : ℕ) × (cap : ℕ) × (get shard det_scores ≡ some (finite (pos d)))
      × (get shard r.overlay ≡ some o)
      × (get shard policy.caps ≡ some cap)
      × (get shard r.fused_scores ≡ some (d - o))
      × (o ≤ cap)
      × (d ≤ one)

-- Whatever the findings are, a result gives every required shard its deterministic score less an
-- overlay that the packaged cap of the shard bounds: a score is never raised, and is lowered by at
-- most the cap.
pub fuse_bound_findings-Tightens :
    (is_sha256 : String → Bool) (policy : Policy) (det_scores : List (String × RawNumber))
    (findings : List BoundFinding)
    → Returns
        (Tightens policy det_scores)
        (fuse_bound_findings is_sha256 policy det_scores findings)
unfolding fuse_bound_findings
fuse_bound_findings-Tightens is_sha256 policy det_scores findings =
    let P = Tightens policy det_scores in
    Returns-bind P (score_map required_shard_ids (some one) det_scores) _ λ det det_made.
      Returns-bind P (dedupe_findings is_sha256 findings) _ λ split _.
        Returns-bind P (aggregate policy split.0 zero_totals) _ λ totals _.
          Returns-bind P (collect (capped policy totals) required_shard_ids) _ λ overlay over_made.
            Returns-bind P (packaged_fuse_v2 [] (raw_of det) (raw_of overlay)) _
              λ fused made shard h.
                let scores =
                  returned _ _ (score_map-MapOf (some one) det_scores) det_made shard h in
                let over =
                  returned _ _ (collect-Holds (capped policy totals) required_shard_ids) over_made
                    shard h in
                let most = returned _ _ (capped_le policy totals shard) over.1 in
                let result =
                  returned _ _ (packaged_fuse_v2-Fused [] (raw_of det) (raw_of overlay)) made shard
                    h in
                let det_again = get-raw_of shard det result.0 result.2 in
                let over_again = get-raw_of shard overlay result.1 result.3 in
                let same_d : scores.0 ≡ result.0 = cc in
                let same_o : over.0 ≡ result.1 = cc in
                (
                  result.0,
                  result.1,
                  most.0,
                  scores.1.0 ∙ ap (λ n. some (finite (pos n))) same_d,
                  over_again,
                  most.1,
                  result.5,
                  subst (λ n. n ≤ most.0) same_o most.2,
                  result.4,
                )

get-zeros :
    (shard : String) (shards : List String)
    → member shard shards ≡ true
    → get {V = ℕ} shard (map (λ s. (s, 0)) shards) ≡ some 0
unfolding get
get-zeros shard [] h = cc
get-zeros shard (s ∷ shards) h = ground (arith, get-zeros shard shards)

min_zero :
    (total cap : Option ℕ)
    → total ≡ some 0
    → Returns (λ o. o ≡ 0) (item_of total >>= λ t. item_of cap >>= λ c. ok (min t c))
unfolding item_of
min_zero none cap e = tt
min_zero (some t) none e = tt
min_zero (some t) (some c) e = omega (arith, some_eq t e)

capped-zeros :
    (policy : Policy) (shard : String)
    → member shard required_shard_ids ≡ true
    → Returns (λ o. o ≡ 0) (capped policy zero_totals shard)
unfolding capped item zero_totals
capped-zeros policy shard h =
    min_zero (get shard zero_totals) (get shard policy.caps) (get-zeros shard required_shard_ids h)

abbrev pub Untouched : PackagedFuseResult → Type 0
Untouched r =
    ((shard : String)
      → member shard required_shard_ids ≡ true
      → get shard r.fused_scores ≡ get shard r.det_scores)
    × (r.findings_consumed ≡ [])
    × (r.findings_suppressed ≡ [])

-- With no findings, every required shard keeps its deterministic score, and nothing is consumed or
-- suppressed.
pub fuse_bound_findings-Untouched :
    (is_sha256 : String → Bool) (policy : Policy) (det_scores : List (String × RawNumber))
    → Returns Untouched (fuse_bound_findings is_sha256 policy det_scores [])
unfolding fuse_bound_findings dedupe_findings validate_findings group_all survivors_of suppressed_of
    sort aggregate
fuse_bound_findings-Untouched is_sha256 policy det_scores =
    let P = Untouched in
    Returns-bind P (score_map required_shard_ids (some one) det_scores) _ λ det det_made.
      Returns-bind P (collect (capped policy zero_totals) required_shard_ids) _ λ overlay over_made.
        Returns-bind P (packaged_fuse_v2 [] (raw_of det) (raw_of overlay)) _
          λ fused made. (fused_same det overlay fused over_made made, refl, refl)
  where
    fused_same :
        (det overlay fused : List (String × ℕ))
        → collect (capped policy zero_totals) required_shard_ids ≡ ok overlay
        → packaged_fuse_v2 [] (raw_of det) (raw_of overlay) ≡ ok fused
        → (shard : String) → member shard required_shard_ids ≡ true
        → get shard fused ≡ get shard det
    fused_same det overlay fused over_made made shard h =
        let over =
          returned _ _ (collect-Holds (capped policy zero_totals) required_shard_ids) over_made
            shard h in
        let none_over = returned _ _ (capped-zeros policy shard h) over.1 in
        let result =
          returned _ _ (packaged_fuse_v2-Fused [] (raw_of det) (raw_of overlay)) made shard h in
        let over_again = get-raw_of shard overlay result.1 result.3 in
        let no_overlay : result.1 ≡ 0 = cc in
        let left : result.0 - result.1 ≡ result.0 = omega arith in
        result.5 ∙ ap some left ∙ sym (get-raw_of shard det result.0 result.2)
