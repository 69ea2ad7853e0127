-- ===== src/Fuse/Rebuild.antt =====
-- ai4/constrain/_v07_3a/rebuild.py: the deterministic evaluation with its scores replaced by fused ones.
-- Scores are finite here, so the tests for that are left out.
pub mod Scored
use ai4_constrain.Prelude.{
  ℕ, ◌≡◌, ◌≤◌, refl, Bool, true, false, not, ◌&&◌, ◌||◌, Option, none, some, List, [], ◌∷◌, map,
  String, str_eq, eq_iff, if◌then◌else◌, every, length, ◌==◌, ==_iff, leb, leb→le, arith, subst,
  sym, ap, ◌∙◌,
}
use ai4_constrain.Prelude.Result.{
  Result, ok, err, ◌>>=◌, ◌>>◌, guard, Returns, returned, Returns-bind, Returns-guard, Returns-then,
}
use ai4_constrain.Prelude.Text.{member}
use ai4_constrain.Abort.{
  Abort, schema_invalid, fuse_failure, identity_drift, reject_authority_kwargs,
}
use ai4_constrain.Shards.{Evaluation, ShardScore}
use ai4_constrain.Fuse.{get, found, required_shard_ids, PackagedFuseResult}

abbrev pub pairs_of : List ShardScore → List (String × ℕ)
pairs_of [] = []
pairs_of (s ∷ rest) = (s.shard_id, s.score) ∷ pairs_of rest

abbrev pub is_required : String → Bool
is_required shard = member shard required_shard_ids

unfoldable pub distinct : List (String × ℕ) → Bool
distinct [] = true
distinct ((shard, _) ∷ rest) = not (found (get shard rest)) && distinct rest

-- `_score_map_from_eval`: five entries, with the five required identifiers and no other.
unfoldable pub score_map_from_eval : List ShardScore → Result Abort (List (String × ℕ))
score_map_from_eval scores = do
  guard
      (every (λ entry. is_required entry.0) (pairs_of scores)
        && every (λ shard. found (get shard (pairs_of scores))) required_shard_ids
        && (length scores == length required_shard_ids))
      schema_invalid
  ok (pairs_of scores)

-- `_score_map_from_pairs`
unfoldable pub score_map_from_pairs : List (String × ℕ) → Result Abort (List (String × ℕ))
score_map_from_pairs pairs = do
  guard (distinct pairs) schema_invalid
  guard
      (every (λ entry. is_required entry.0) pairs
        && every (λ shard. found (get shard pairs)) required_shard_ids)
      schema_invalid
  ok pairs

abbrev pub or_zero : Option ℕ → ℕ
or_zero none = 0
or_zero (some n) = n

-- The tests of one shard; a required shard is in the three maps. A natural number is not negative.
unfoldable pub check_shard :
    (det_from_fuse det_from_eval fused : List (String × ℕ)) → String → Result Abort (Unit {0})
check_shard det_from_fuse det_from_eval fused shard = do
  guard (or_zero (get shard det_from_fuse) == or_zero (get shard det_from_eval)) identity_drift
  guard (leb (or_zero (get shard fused)) (or_zero (get shard det_from_eval))) fuse_failure
  ok tt

unfoldable pub check_all :
    (det_from_fuse det_from_eval fused : List (String × ℕ)) → List String → Result Abort (Unit {0})
check_all det_from_fuse det_from_eval fused [] = ok tt
check_all det_from_fuse det_from_eval fused (shard ∷ shards) = do
  check_shard det_from_fuse det_from_eval fused shard
  check_all det_from_fuse det_from_eval fused shards

-- `by_id[shard_id]`: the dictionary of the scores, and what is copied from the one found.
pub source_of : String → List ShardScore → Option ShardScore
source_of shard [] = none
source_of shard (s ∷ rest) =
    let later = source_of shard rest in if str_eq shard s.shard_id then some s else later

pub rebuilt : ℕ → ShardScore → ShardScore
rebuilt score source = record {
  shard_id = source.shard_id;
  version = source.version;
  kind = source.kind;
  priority = source.priority;
  score = score;
  passed = false;
  threshold = source.threshold;
  results = [];
  notes = [];
}

-- A missing shard would be a `KeyError`; after the tests none is missing.
abbrev pub add_rebuilt : ℕ → Option ShardScore → List ShardScore → List ShardScore
add_rebuilt score none rest = rest
add_rebuilt score (some source) rest = rebuilt score source ∷ rest

pub rebuild_all : List (String × ℕ) → List ShardScore → List String → List ShardScore
rebuild_all fused scores [] = []
rebuild_all fused scores (shard ∷ shards) =
    add_rebuilt (or_zero (get shard fused)) (source_of shard scores)
      (rebuild_all fused scores shards)

unfoldable pub rebuild_fused_evaluation :
    List String → Evaluation → PackagedFuseResult → Result Abort Evaluation
rebuild_fused_evaluation kwargs det_eval fuse_result = do
  reject_authority_kwargs kwargs
  det_from_eval ← score_map_from_eval det_eval.shard_scores
  det_from_fuse ← score_map_from_pairs fuse_result.det_scores
  fused ← score_map_from_pairs fuse_result.fused_scores
  check_all det_from_fuse det_from_eval fused required_shard_ids
  ok (record {
    text = det_eval.text;
    shard_scores = rebuild_all fused det_eval.shard_scores required_shard_ids;
    rubric_set_version = det_eval.rubric_set_version;
  })
