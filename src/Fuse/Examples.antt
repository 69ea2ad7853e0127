-- ===== src/Fuse/Examples.antt =====
-- The fusion of scores: a run with three findings, two of them equivalent, and the theorems at it.
use ai4_constrain.Prelude.{map, Bool, false, ℕ, ◌≡◌, refl, true, List, [], ◌∷◌, String}
use ai4_constrain.Prelude.Int.{◌-ℤ◌}
use ai4_constrain.Prelude.Result.{Result, ok, err, Returns}
use ai4_constrain.Prelude.Sort.{sort, insert}
use ai4_constrain.Prelude.Text.{text_leb}
use ai4_constrain.Abort.{Abort, reject_authority_kwargs, RawNumber}
use ai4_constrain.Fuse.{
  FuseError, packaged_fuse_v2, BoundFinding, Policy, PackagedFuseResult, raw_of, clamp, nonnegative,
  fuse_one, fuse_shard, collect, score_map, score_of, score_given, finite_number, item, item_of,
  get, aggregate, deltas_of, known, add_penalties, or_zero, capped,
}
use ai4_constrain.Fuse.Dedupe.{
  dedupe_findings, validate_findings, require_bound_finding, confidence_rank, append_to, group_all,
  survivors_of, suppressed_of,
}
use ai4_constrain.Fuse.Dedupe.Survivors.{OncePerIdentity, dedupe_findings-OncePerIdentity}
use ai4_constrain.Shards.{Evaluation, ShardScore}
use ai4_constrain.Fuse.Rebuild.{
  rebuild_fused_evaluation, score_map_from_eval, score_map_from_pairs, distinct, check_all,
  check_shard,
}
use ai4_constrain.Fuse.Rebuild.Scored.{Rebuilt, rebuild_fused_evaluation-Rebuilt}
use ai4_constrain.Fuse.Scores.{Fused, packaged_fuse_v2-Fused}
use ai4_constrain.Fuse.Findings.{
  fuse_bound_findings, Tightens, fuse_bound_findings-Tightens, Untouched,
  fuse_bound_findings-Untouched, zero_totals, record_for, mapped,
}

abbrev scores : List (String × ℕ)
scores =
    ("truth", 9000)
    ∷ ("compassion", 10000)
    ∷ ("autonomy", 10000)
    ∷ ("privacy", 1000)
    ∷ ("harm_aversion", 10000)
    ∷ []

abbrev det_scores : List (String × RawNumber)
det_scores = raw_of scores

abbrev overlay : List (String × RawNumber)
overlay = raw_of (
    ("truth", 2500)
    ∷ ("compassion", 0)
    ∷ ("autonomy", 0)
    ∷ ("privacy", 2000)
    ∷ ("harm_aversion", 0)
    ∷ [])

abbrev policy : Policy
policy = record {
  route = ("fabrication", "truth" ∷ []) ∷ ("leak", "privacy" ∷ []) ∷ [];
  overlays =
      ("fabrication", ("low", ("truth", 500) ∷ []) ∷ ("high", ("truth", 2500) ∷ []) ∷ [])
      ∷ ("leak", ("high", ("privacy", 4000) ∷ []) ∷ [])
      ∷ [];
  caps =
      ("truth", 3000)
      ∷ ("compassion", 3000)
      ∷ ("autonomy", 3000)
      ∷ ("privacy", 2000)
      ∷ ("harm_aversion", 3000)
      ∷ [];
}

abbrev finding : String → String → String → BoundFinding
finding id class bin = record {
  finding_id = id;
  class_id = class;
  confidence_bin = bin;
  claim_fingerprint = "f";
}

abbrev findings : List BoundFinding
findings =
    finding "1" "fabrication" "low"
    ∷ finding "2" "leak" "high"
    ∷ finding "3" "fabrication" "high"
    ∷ []

abbrev fused_of : Result FuseError PackagedFuseResult → List (String × ℕ)
fused_of (ok r) = r.fused_scores
fused_of (err e) = []

-- The weaker of the two equivalent findings is suppressed, and the penalty on privacy is capped.
fusion : Unit {0}
unfolding packaged_fuse_v2 clamp nonnegative fuse_one fuse_shard collect score_map score_of
    score_given finite_number item item_of get aggregate deltas_of known add_penalties or_zero
    capped dedupe_findings validate_findings require_bound_finding confidence_rank append_to
    group_all survivors_of suppressed_of fuse_bound_findings zero_totals record_for mapped sort
    insert text_leb ◌-ℤ◌
fusion =
    let split : dedupe_findings (λ _. true) findings
        ≡ ok (
          finding "3" "fabrication" "high" ∷ finding "2" "leak" "high" ∷ [],
          finding "1" "fabrication" "low" ∷ [],
        ) =
      refl in
    let fused : packaged_fuse_v2 [] det_scores overlay
        ≡ ok (
            ("truth", 6500)
            ∷ ("compassion", 10000)
            ∷ ("autonomy", 10000)
            ∷ ("privacy", 0)
            ∷ ("harm_aversion", 10000)
            ∷ []) =
      refl in
    tt

packaged_fuse_v2_example :
    Returns (Fused det_scores overlay) (packaged_fuse_v2 [] det_scores overlay)
packaged_fuse_v2_example = packaged_fuse_v2-Fused [] det_scores overlay

fuse_bound_findings_example :
    Returns
      (Tightens policy det_scores)
      (fuse_bound_findings (λ _. true) policy det_scores findings)
fuse_bound_findings_example = fuse_bound_findings-Tightens (λ _. true) policy det_scores findings

no_findings_example : Returns Untouched (fuse_bound_findings (λ _. true) policy det_scores [])
no_findings_example = fuse_bound_findings-Untouched (λ _. true) policy det_scores

dedupe_findings_example : Returns (OncePerIdentity findings) (dedupe_findings (λ _. true) findings)
dedupe_findings_example = dedupe_findings-OncePerIdentity (λ _. true) findings

abbrev shard_score : String × ℕ → ShardScore
shard_score entry = record {
  shard_id = entry.0;
  version = "0.1.0";
  kind = "hard";
  priority = 1;
  score = entry.1;
  passed = true;
  threshold = 7000;
  results = [];
  notes = [];
}

abbrev det_eval : Evaluation
det_eval = record {
  text = "draft";
  shard_scores = map shard_score scores;
  rubric_set_version = "0.1.0";
}

abbrev fuse_result : PackagedFuseResult
fuse_result = record {
  det_scores = scores;
  overlay = [];
  fused_scores =
      ("truth", 6500)
      ∷ ("compassion", 10000)
      ∷ ("autonomy", 10000)
      ∷ ("privacy", 0)
      ∷ ("harm_aversion", 10000)
      ∷ [];
  findings_consumed = [];
  findings_suppressed = [];
}

abbrev is_ok : Result Abort Evaluation → Bool
is_ok (ok e) = true
is_ok (err e) = false

rebuilds : is_ok (rebuild_fused_evaluation [] det_eval fuse_result) ≡ true
unfolding rebuild_fused_evaluation score_map_from_eval score_map_from_pairs distinct check_all
    check_shard get reject_authority_kwargs
rebuilds = refl

rebuild_fused_evaluation_example :
    Returns (Rebuilt det_eval fuse_result) (rebuild_fused_evaluation [] det_eval fuse_result)
rebuild_fused_evaluation_example = rebuild_fused_evaluation-Rebuilt [] det_eval fuse_result
