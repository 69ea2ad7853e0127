-- ===== src/Shards/Arbitration.antt =====
-- src/shards/arbitration.py: `arbitrate`, the deterministic rules for disagreeing shards.
pub mod Conflicts
use Prim.Native.String.{◌++◌ as append}
use mathlib.Core.List.{Perm}
use mathlib.Core.List.Perm
use ai4_constrain.Prelude.{
  ℕ, ◌+◌, ◌≤◌, ◌≡◌, refl, ◌⊎◌, inl, inr, Bool, true, false, not, ◌&&◌, ◌||◌, String, Option, none,
  some, List, [], ◌∷◌, ◌++◌, map, arith, leb, ltb, ◌==◌, str_eq, if◌then◌else◌, select, length, any,
  every, is_nil, is_nil-select, any-select, any-append, ap, ◌∙◌, Bool-cases,
}
use ai4_constrain.Prelude.Sort.{
  sort, sort-perm, IsSorted, sort-IsSorted, any-sort, is_nil-sort, length-select-sort,
}
use ai4_constrain.Prelude.Text.{text_leb, text_leb-total, member, join}
use ai4_constrain.Shards.{
  Criterion, Rubric, ShardScore, Evaluation, Verdict, pass, fail, ArbitrationResult, failing,
}

-- The key `(priority, shard_id)`, compared as a tuple.
abbrev pub before : ShardScore → ShardScore → Bool
before s t =
    if ltb s.priority t.priority
    then true
    else if ltb t.priority s.priority
    then false
    else text_leb s.shard_id t.shard_id

-- `tuple(sorted((left, right)))`
abbrev ordered_pair : String → String → String × String
ordered_pair a b = if text_leb a b then (a, b) else (b, a)

abbrev pair_member : String × String → List (String × String) → Bool
pair_member p [] = false
pair_member p (q ∷ qs) = (str_eq p.0 q.0 && str_eq p.1 q.1) || pair_member p qs

-- `pairs.add(p)`. The order in which the set is iterated is that of the first insertions.
add_pair : String × String → List (String × String) → List (String × String)
add_pair p ps = if pair_member p ps then ps else ps ++ p ∷ []

pairs_of_criterion : String → List String → List (String × String) → List (String × String)
pairs_of_criterion id [] ps = ps
pairs_of_criterion id (other ∷ rest) ps =
    pairs_of_criterion id rest (add_pair (ordered_pair id other) ps)

pairs_of_criteria : String → List Criterion → List (String × String) → List (String × String)
pairs_of_criteria id [] ps = ps
pairs_of_criteria id (c ∷ rest) ps =
    pairs_of_criteria id rest (pairs_of_criterion id c.conflicts_with ps)

conflict_pairs_from : List Rubric → List (String × String) → List (String × String)
conflict_pairs_from [] ps = ps
conflict_pairs_from (r ∷ rest) ps = conflict_pairs_from rest (pairs_of_criteria r.id r.criteria ps)

unfoldable pub conflict_pairs : List Rubric → List (String × String)
unfolding conflict_pairs_from pairs_of_criteria pairs_of_criterion add_pair
conflict_pairs rubrics = conflict_pairs_from rubrics []

abbrev pub is_hard : ShardScore → Bool
is_hard s = str_eq s.kind "hard"

abbrev pub ids : List ShardScore → List String
ids = map (λ s. s.shard_id)

-- The pairs whose two shards both failed, in the order of the loop.
abbrev pub failed_pairs : List String → List (String × String) → List (String × String)
failed_pairs failed_ids = select (λ p. member p.0 failed_ids && member p.1 failed_ids)

abbrev pair_note : String × String → String
pair_note p = append "irreconcilable hard pair: " (append p.0 (append " vs " p.1))

-- `failing` of the function, in its order.
unfoldable pub sorted_failing : Evaluation → List ShardScore
sorted_failing e = sort before (failing e)

unfoldable pub hard_failing : Evaluation → List ShardScore
unfolding sorted_failing
hard_failing e = select is_hard (sorted_failing e)

-- The irreconcilable pairs; none where fewer than two hard shards fail. `None` for the rubrics is
-- as an empty list.
unfoldable pub irreconcilable_pairs : Evaluation → List Rubric → List (String × String)
irreconcilable_pairs e rubrics =
    if leb 2 (length (hard_failing e)) && not (is_nil rubrics)
    then failed_pairs (ids (hard_failing e)) (conflict_pairs rubrics)
    else []

unfoldable pub arbitrate : Evaluation → List Rubric → ArbitrationResult
arbitrate e rubrics =
    if is_nil (sorted_failing e)
    then record {
      verdict = pass;
      veto = false;
      irreconcilable = false;
      revision_targets = [];
      notes = "all shards passed" ∷ [];
      scores = e.shard_scores;
    }
    else if not (is_nil (hard_failing e))
    then record {
      verdict = fail;
      veto = true;
      irreconcilable = not (is_nil (irreconcilable_pairs e rubrics));
      revision_targets = ids (sorted_failing e);
      notes =
          map pair_note (irreconcilable_pairs e rubrics)
          ++ append "hard veto: " (join ", " (ids (hard_failing e))) ∷ [];
      scores = e.shard_scores;
    }
    else record {
      verdict = fail;
      veto = false;
      irreconcilable = false;
      revision_targets = ids (sorted_failing e);
      notes =
          map pair_note (irreconcilable_pairs e rubrics)
          ++ append "soft fails: " (join ", " (ids (sorted_failing e))) ∷ [];
      scores = e.shard_scores;
    }

-- Independent of the order in which `arbitrate` goes through the scores.
abbrev pub all_passed : Evaluation → Bool
all_passed e = not (any (λ s. not s.passed) e.shard_scores)

abbrev pub failed_hard : ShardScore → Bool
failed_hard s = not s.passed && is_hard s

abbrev pub any_hard_failed : Evaluation → Bool
any_hard_failed e = any failed_hard e.shard_scores

is_nil-sorted_failing : (e : Evaluation) → is_nil (sorted_failing e) ≡ all_passed e
unfolding sorted_failing
is_nil-sorted_failing e = is_nil-sort before (failing e) ∙ is_nil-select _ e.shard_scores

is_nil-hard_failing : (e : Evaluation) → is_nil (hard_failing e) ≡ not (any_hard_failed e)
unfolding hard_failing
is_nil-hard_failing e =
    is_nil-select is_hard (sorted_failing e)
    ∙ ap not (any-sort before is_hard (failing e) ∙ any-select is_hard _ e.shard_scores)

pub any-failed_hard :
    (xs : List ShardScore) → any failed_hard xs ≡ true → any (λ s. not s.passed) xs ≡ true
any-failed_hard [] h = h
any-failed_hard (x ∷ xs) h = ground (arith, any-failed_hard xs)

-- The verdict is a pass exactly if every shard passed, there is a veto exactly if some hard shard
-- failed, the scores are handed on, and an irreconcilable result is always a veto.
pub arbitrate-verdict :
    (e : Evaluation) (rubrics : List Rubric)
    → ((arbitrate e rubrics).verdict ≡ (if all_passed e then pass else fail))
      × ((arbitrate e rubrics).veto ≡ any_hard_failed e)
      × ((arbitrate e rubrics).scores ≡ e.shard_scores)
      × ((arbitrate e rubrics).irreconcilable ≡ true → (arbitrate e rubrics).veto ≡ true)
unfolding arbitrate
arbitrate-verdict e rubrics =
    let a = is_nil-sorted_failing e in
    let b = is_nil-hard_failing e in
    let c = any-failed_hard e.shard_scores in
    (ground (arith, a), ground (arith, a, b, c), ground arith, ground arith)

ids-nil : (xs : List ShardScore) → is_nil xs ≡ true → ids xs ≡ []
ids-nil [] h = refl
ids-nil (x ∷ xs) h = cc

arbitrate-revision_targets :
    (e : Evaluation) (rubrics : List Rubric)
    → (arbitrate e rubrics).revision_targets ≡ ids (sorted_failing e)
unfolding arbitrate
arbitrate-revision_targets e rubrics = ground (arith, ids-nil (sorted_failing e))

before-total : (s t : ShardScore) → before s t ≡ false → before t s ≡ true
before-total s t h = ground (arith, text_leb-total s.shard_id t.shard_id)

-- The revision targets are the ids of the failing shards, each as often as it failed, in the order
-- of priority and then of id.
pub arbitrate-targets :
    (e : Evaluation) (rubrics : List Rubric)
    → (order : List ShardScore) × ((arbitrate e rubrics).revision_targets ≡ ids order)
      × Perm order (failing e)
      × IsSorted before order
unfolding sorted_failing
arbitrate-targets e rubrics = (
  sorted_failing e,
  arbitrate-revision_targets e rubrics,
  sort-perm before (failing e),
  sort-IsSorted before before-total (failing e),
)
