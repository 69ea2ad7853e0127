-- ===== src/Shards/Wall.antt =====
-- ai4/constrain/evaluator_wall.py: an evaluator scores, the packaged rubrics decide. A score of an
-- evaluator is a number, which is finite or not, or another object. Finite scores and thresholds are
-- whole numbers of parts, `unit` of which are 1; `unit` is any number, so each finite float is such a
-- score for some unit. The sum of a score and the epsilon is exact.
pub mod Policy
pub mod Total
pub mod Exposed
mod Examples
use ai4_constrain.Prelude.{
  ◌*◌, ◌+◌, ◌^◌, ℕ, ◌≤◌, ◌≡◌, Bool, true, false, not, ◌&&◌, ◌||◌, Option, none, some, List, [], ◌∷◌,
  map, String, str_eq, any, every, length, ◌==◌, leb, if◌then◌else◌,
}
use mathlib.Core.List.{◌++◌ as append}
use ai4_constrain.Prelude.Int.{ℤ, pos, negsuc}
use ai4_constrain.Prelude.Result.{Result, ok, err, ◌>>=◌, ◌>>◌, guard}
use ai4_constrain.Prelude.Sort.{sort}
use ai4_constrain.Prelude.Text.{member, text_leb}
use ai4_constrain.Abort.{RawNumber, finite, not_finite, not_number}
use ai4_constrain.Fuse.{required_shard_ids}
use ai4_constrain.Shards.{one, Criterion, Rubric, CriterionResult, ShardScore, Evaluation}

-- `ConstraintExecutionError`, and the `KeyError` of a dictionary.
pub data WallError : Type 0 where
  constraint_execution_error wall_key_error : WallError

-- What the wall reads of an entry of `shard_scores`.
pub record RawShardScore : Type 0 where
  pub shard_id : String
  pub score : RawNumber
  pub results : List CriterionResult
  pub notes : List String

pub data RawEntry : Type 0 where
  shard_score : RawShardScore → RawEntry
  other_entry : RawEntry

pub data RawScores : Type 0 where
  score_tuple : List RawEntry → RawScores
  not_a_tuple : RawScores

pub record RawEvaluation : Type 0 where
  pub text : String
  pub shard_scores : RawScores
  pub rubric_set_version : String

-- What an evaluator returns.
pub data Returned : Type 0 where
  an_evaluation : RawEvaluation → Returned
  nothing not_an_evaluation : Returned

-- `_finite_unit_interval`
unfoldable pub finite_unit_interval : (unit : ℕ) → RawNumber → Result WallError ℕ
finite_unit_interval unit (finite (pos n)) =
    if leb n unit then ok n else err constraint_execution_error
finite_unit_interval unit (finite (negsuc n)) = err constraint_execution_error
finite_unit_interval unit not_finite = err constraint_execution_error
finite_unit_interval unit not_number = err constraint_execution_error

-- `score + _PASS_EPSILON >= threshold`, of which the epsilon is 10^-9: with every side times 10^9.
unfoldable pub reaches : (unit score threshold : ℕ) → Bool
reaches unit score threshold = leb (threshold * 10 ^ 9) (score * 10 ^ 9 + unit)

unfoldable pub entry_of : String → List RawShardScore → Option RawShardScore
entry_of shard [] = none
entry_of shard (s ∷ rest) =
    let later = entry_of shard rest in if str_eq shard s.shard_id then some s else later

-- The loop that fills `by_id`, in which no key is written twice.
unfoldable pub collect_scores : List RawEntry → List String → Result WallError (List RawShardScore)
collect_scores [] seen = ok []
collect_scores (other_entry ∷ rest) seen = err constraint_execution_error
collect_scores (shard_score s ∷ rest) seen = do
  guard (not (member s.shard_id seen)) constraint_execution_error
  later ← collect_scores rest (s.shard_id ∷ seen)
  ok (s ∷ later)

abbrev pub is_entry : Option RawShardScore → Bool
is_entry none = false
is_entry (some s) = true

-- No shard is extra, and none is missing.
unfoldable pub require_exact : List RawShardScore → Result WallError (Unit {0})
require_exact scores = do
  guard
      (every (λ s. member s.shard_id required_shard_ids) scores
        && every (λ shard. is_entry (entry_of shard scores)) required_shard_ids
        && (length scores == length required_shard_ids))
      constraint_execution_error
  ok tt

abbrev pub entry_found : Option RawShardScore → Result WallError RawShardScore
entry_found none = err wall_key_error
entry_found (some s) = ok s

abbrev pub overlaid : (unit : ℕ) → Rubric → ℕ → RawShardScore → ShardScore
overlaid unit rubric score raw = record {
  shard_id = rubric.id;
  version = rubric.version;
  kind = rubric.kind;
  priority = rubric.priority;
  score = score;
  passed = reaches unit score rubric.pass_threshold;
  threshold = rubric.pass_threshold;
  results = raw.results;
  notes = raw.notes;
}

-- The body of the loop over the policy.
unfoldable pub overlay_one : (unit : ℕ) → List RawShardScore → Rubric → Result WallError ShardScore
overlay_one unit scores rubric = do
  raw ← entry_found (entry_of rubric.id scores)
  score ← finite_unit_interval unit raw.score
  ok (overlaid unit rubric score raw)

unfoldable pub overlay_all :
    (unit : ℕ) → List RawShardScore → List Rubric → Result WallError (List ShardScore)
overlay_all unit scores [] = ok []
overlay_all unit scores (rubric ∷ rest) = do
  first ← overlay_one unit scores rubric
  later ← overlay_all unit scores rest
  ok (first ∷ later)

unfoldable pub scores_given : RawScores → Result WallError (List RawEntry)
scores_given (score_tuple entries) = ok entries
scores_given not_a_tuple = err constraint_execution_error

unfoldable pub evaluation_given : Returned → Result WallError RawEvaluation
evaluation_given (an_evaluation e) = ok e
evaluation_given nothing = err constraint_execution_error
evaluation_given not_an_evaluation = err constraint_execution_error

unfoldable pub overlay_packaged_policy :
    (unit : ℕ) → List Rubric → Returned → Result WallError Evaluation
overlay_packaged_policy unit policy returned = do
  evaluation ← evaluation_given returned
  entries ← scores_given evaluation.shard_scores
  scores ← collect_scores entries []
  require_exact scores
  walled ← overlay_all unit scores policy
  ok (record {
    text = evaluation.text;
    shard_scores = walled;
    rubric_set_version = evaluation.rubric_set_version;
  })

-- The evaluation of typed scores, as the wall takes it.
abbrev pub raw_score : ShardScore → RawShardScore
raw_score s = record {
  shard_id = s.shard_id;
  score = finite (pos s.score);
  results = s.results;
  notes = s.notes;
}

abbrev pub raw_evaluation : Evaluation → Returned
raw_evaluation e = an_evaluation (record {
  text = e.text;
  shard_scores = score_tuple (map (λ s. shard_score (raw_score s)) e.shard_scores);
  rubric_set_version = e.rubric_set_version;
})
