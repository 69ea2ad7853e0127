-- ===== src/Shards/Wall/Exposed.antt =====
-- ai4/constrain/evaluator_wall.py: the rubrics that an evaluator exposes, which the packaged rubrics
-- decide on.
use ai4_constrain.Prelude.{
  Bool, true, false, ◌&&◌, Option, none, some, List, [], ◌∷◌, map, String, str_eq, every, length,
  ◌==◌, if◌then◌else◌,
}
use mathlib.Core.List.{◌++◌ as append}
use ai4_constrain.Prelude.Result.{Result, ok, err, ◌>>◌, guard}
use ai4_constrain.Prelude.Sort.{sort}
use ai4_constrain.Prelude.Text.{member, text_leb}
use ai4_constrain.Fuse.{required_shard_ids}
use ai4_constrain.Shards.{Criterion, Rubric}
use ai4_constrain.Shards.Wall.{WallError, constraint_execution_error, wall_key_error}

-- `_policy_signature`: a set of conflicts is equal to another if each is part of the other.
abbrev all_conflicts : List Criterion → List String
all_conflicts [] = []
all_conflicts (c ∷ rest) = append c.conflicts_with (all_conflicts rest)

abbrev subset : List String → List String → Bool
subset xs ys = every (λ x. member x ys) xs

unfoldable pub same_signature : Rubric → Rubric → Bool
same_signature a b =
    str_eq a.id b.id
    && str_eq a.version b.version
    && str_eq a.kind b.kind
    && a.priority == b.priority
    && a.pass_threshold == b.pass_threshold
    && subset (all_conflicts a.criteria) (all_conflicts b.criteria)
    && subset (all_conflicts b.criteria) (all_conflicts a.criteria)

-- The dictionary keeps the last rubric under an id.
unfoldable pub rubric_by_id : String → List Rubric → Option Rubric
rubric_by_id id [] = none
rubric_by_id id (r ∷ rest) = elim (rubric_by_id id rest) [
  | some later ↦ some later
  | none ↦ if str_eq id r.id then some r else none
]

abbrev matches_packaged : Rubric → Option Rubric → Result WallError (Unit {0})
matches_packaged rubric none = err wall_key_error
matches_packaged rubric (some got) = guard (same_signature got rubric) constraint_execution_error

unfoldable pub all_match : List Rubric → List Rubric → Result WallError (Unit {0})
all_match exposed [] = ok tt
all_match exposed (rubric ∷ rest) = do
  matches_packaged rubric (rubric_by_id rubric.id exposed)
  all_match exposed rest

unfoldable pub same_texts : List String → List String → Bool
same_texts [] [] = true
same_texts (x ∷ xs) (y ∷ ys) = str_eq x y && same_texts xs ys
same_texts _ _ = false

unfoldable pub assert_rubrics_match_packaged :
    List Rubric → List Rubric → Result WallError (Unit {0})
assert_rubrics_match_packaged packaged rubrics = do
  guard
      (same_texts (sort text_leb (map (λ r. r.id) rubrics)) (sort text_leb required_shard_ids)
        && (length rubrics == length required_shard_ids))
      constraint_execution_error
  all_match rubrics packaged

-- The attribute `rubrics` of an evaluator.
pub data ExposedRubrics : Type 0 where
  no_attribute rubrics_none not_a_sequence : ExposedRubrics
  rubric_sequence : List Rubric → ExposedRubrics

unfoldable pub assert_evaluator_rubrics : List Rubric → ExposedRubrics → Result WallError (Unit {0})
assert_evaluator_rubrics packaged no_attribute = ok tt
assert_evaluator_rubrics packaged rubrics_none = ok tt
assert_evaluator_rubrics packaged not_a_sequence = err constraint_execution_error
assert_evaluator_rubrics packaged (rubric_sequence []) = ok tt
assert_evaluator_rubrics packaged (rubric_sequence (rubric ∷ rest)) =
    assert_rubrics_match_packaged packaged (rubric ∷ rest)
