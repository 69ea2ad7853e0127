-- ===== src/Shards.antt =====
-- src/shards/models.py: the shared data of the shard rubrics. Weights, thresholds and scores are
-- whole numbers of ten-thousandths (the rubrics have two decimals, and scores are rounded to four),
-- and arithmetic on them is exact. A priority is a natural number.
pub mod Evaluator
pub mod Arbitration
pub mod Wall
mod Examples
use ai4_constrain.Prelude.{
  ℕ, Bool, true, false, not, String, List, [], ◌∷◌, Option, none, some, if◌then◌else◌, select,
  str_eq,
}

-- 1.0
abbrev pub one : ℕ
one = 10000

pub record Criterion : Type 0 where
  pub id : String
  pub weight : ℕ
  pub description : String
  pub fail_if_regex : List String
  pub pass_if_regex : List String
  pub conflicts_with : List String

pub record Rubric : Type 0 where
  pub id : String
  pub version : String
  pub title : String
  pub kind : String
  pub priority : ℕ
  pub pass_threshold : ℕ
  pub description : String
  pub criteria : List Criterion

pub record CriterionResult : Type 0 where
  pub criterion_id : String
  pub passed : Bool
  pub score : ℕ
  pub evidence : String

pub record ShardScore : Type 0 where
  pub shard_id : String
  pub version : String
  pub kind : String
  pub priority : ℕ
  pub score : ℕ
  pub passed : Bool
  pub threshold : ℕ
  pub results : List CriterionResult
  pub notes : List String

pub record Evaluation : Type 0 where
  pub text : String
  pub shard_scores : List ShardScore
  pub rubric_set_version : String

-- `by_id().get(shard_id)`: the dictionary keeps the last score under an id.
unfoldable pub last_with : String → List ShardScore → Option ShardScore
last_with k [] = none
last_with k (s ∷ rest) = elim (last_with k rest) [
  | some t ↦ some t
  | none ↦ if str_eq s.shard_id k then some s else none
]

unfoldable pub by_id : Evaluation → String → Option ShardScore
unfolding last_with
by_id e k = last_with k e.shard_scores

abbrev pub failing : Evaluation → List ShardScore
failing e = select (λ s. not s.passed) e.shard_scores

pub data Verdict : Type 0 where
  pass fail : Verdict

pub record ArbitrationResult : Type 0 where
  pub verdict : Verdict
  pub veto : Bool
  pub irreconcilable : Bool
  pub revision_targets : List String
  pub notes : List String
  pub scores : List ShardScore
