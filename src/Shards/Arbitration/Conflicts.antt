-- ===== src/Shards/Arbitration/Conflicts.antt =====
-- src/shards/arbitration.py: when `arbitrate` finds the shards irreconcilable.
use mathlib.Core.Path.{fun_ext}
use ai4_constrain.Prelude.{
  suc, ◌≡◌, refl, Bool, true, false, not, ◌&&◌, ◌||◌, String, List, [], ◌∷◌, arith, leb, ap, ◌∙◌,
  sym, str_eq, eq_iff, select, length, any, is_nil, is_nil-select, any-select, any-append,
}
use ai4_constrain.Prelude.Sort.{any-sort, length-select-sort}
use ai4_constrain.Prelude.Text.{member}
use ai4_constrain.Shards.{Criterion, Rubric, ShardScore, Evaluation, failing}
use ai4_constrain.Shards.Arbitration.{
  ordered_pair, pair_member, add_pair, pairs_of_criterion, pairs_of_criteria, conflict_pairs_from,
  conflict_pairs, before, is_hard, ids, failed_pairs, sorted_failing, hard_failing,
  irreconcilable_pairs, arbitrate, failed_hard, is_nil-hard_failing, is_nil-sorted_failing,
  any-failed_hard,
}

-- Some criterion of some rubric names, as a shard that it conflicts with, one of which `m` holds
-- together with the rubric's own.
abbrev pub conflict_declared : (String → Bool) → List Rubric → Bool
conflict_declared m =
    any (λ r. any (λ c. any (λ other. m r.id && m other) c.conflicts_with) r.criteria)

module _ (m : String → Bool) where
  abbrev both : String × String → Bool
  both p = m p.0 && m p.1

  both-ordered_pair : (a b : String) → both (ordered_pair a b) ≡ (m a && m b)
  both-ordered_pair a b = ground arith

  both-pair_member :
      (p : String × String) (ps : List (String × String))
      → pair_member p ps ≡ true
      → both p ≡ true
      → any both ps ≡ true
  both-pair_member p [] h b = cc
  both-pair_member p (q ∷ qs) h b =
      ground (arith, eq_iff p.0 q.0, eq_iff p.1 q.1, both-pair_member p qs)

  any-add_pair :
      (p : String × String) (ps : List (String × String))
      → any both (add_pair p ps) ≡ (any both ps || both p)
  unfolding add_pair
  any-add_pair p ps = ground (arith, both-pair_member p ps, any-append both ps (p ∷ []))

  any-pairs_of_criterion :
      (id : String) (others : List String) (ps : List (String × String))
      → any both (pairs_of_criterion id others ps)
        ≡ (any both ps || any (λ other. m id && m other) others)
  unfolding pairs_of_criterion
  any-pairs_of_criterion id [] ps = ground arith
  any-pairs_of_criterion id (other ∷ rest) ps = ground (
    arith,
    any-pairs_of_criterion id rest (add_pair (ordered_pair id other) ps),
    any-add_pair (ordered_pair id other) ps,
    both-ordered_pair id other,
  )

  any-pairs_of_criteria :
      (id : String) (cs : List Criterion) (ps : List (String × String))
      → any both (pairs_of_criteria id cs ps)
        ≡ (any both ps || any (λ c. any (λ other. m id && m other) c.conflicts_with) cs)
  unfolding pairs_of_criteria
  any-pairs_of_criteria id [] ps = ground arith
  any-pairs_of_criteria id (c ∷ rest) ps = ground (
    arith,
    any-pairs_of_criteria id rest (pairs_of_criterion id c.conflicts_with ps),
    any-pairs_of_criterion id c.conflicts_with ps,
  )

  any-conflict_pairs_from :
      (rubrics : List Rubric) (ps : List (String × String))
      → any both (conflict_pairs_from rubrics ps) ≡ (any both ps || conflict_declared m rubrics)
  unfolding conflict_pairs_from
  any-conflict_pairs_from [] ps = ground arith
  any-conflict_pairs_from (r ∷ rest) ps = ground (
    arith,
    any-conflict_pairs_from rest (pairs_of_criteria r.id r.criteria ps),
    any-pairs_of_criteria r.id r.criteria ps,
  )

  any-conflict_pairs :
      (rubrics : List Rubric) → any both (conflict_pairs rubrics) ≡ conflict_declared m rubrics
  unfolding conflict_pairs
  any-conflict_pairs rubrics = any-conflict_pairs_from rubrics []

-- The hard shards that failed, in the order of the evaluation.
abbrev pub hard_failed_ids : Evaluation → List String
hard_failed_ids e = ids (select failed_hard e.shard_scores)

member-ids :
    (x : String) (xs : List ShardScore) → member x (ids xs) ≡ any (λ s. str_eq x s.shard_id) xs
member-ids x [] = refl
member-ids x (s ∷ xs) = ap (λ b. str_eq x s.shard_id || b) (member-ids x xs)

any-regroup :
    (p : ShardScore → Bool) (xs : List ShardScore)
    → any (λ s. not s.passed && (is_hard s && p s)) xs ≡ any (λ s. failed_hard s && p s) xs
any-regroup p [] = refl
any-regroup p (s ∷ xs) = ground (arith, any-regroup p xs)

select-select :
    (xs : List ShardScore) → select is_hard (select (λ s. not s.passed) xs) ≡ select failed_hard xs
select-select [] = refl
select-select (s ∷ xs) = ground (arith, select-select xs)

length-ids : (xs : List ShardScore) → length (ids xs) ≡ length xs
length-ids [] = refl
length-ids (s ∷ xs) = ap suc (length-ids xs)

member-hard_failing :
    (e : Evaluation) (x : String) → member x (ids (hard_failing e)) ≡ member x (hard_failed_ids e)
unfolding hard_failing sorted_failing
member-hard_failing e x =
    let p : ShardScore → Bool = λ s. str_eq x s.shard_id in
    member-ids x (hard_failing e)
    ∙ any-select p is_hard (sorted_failing e)
    ∙ any-sort before (λ s. is_hard s && p s) (failing e)
    ∙ any-select (λ s. is_hard s && p s) (λ s. not s.passed) e.shard_scores
    ∙ any-regroup p e.shard_scores
    ∙ sym
        (member-ids x (select failed_hard e.shard_scores) ∙ any-select p failed_hard e.shard_scores)

length-hard_failing :
    (e : Evaluation) → length (hard_failing e) ≡ length (select failed_hard e.shard_scores)
unfolding hard_failing sorted_failing
length-hard_failing e =
    length-select-sort before is_hard (failing e) ∙ ap length (select-select e.shard_scores)

not-is_nil-failed_pairs :
    (failed : List String) (ps : List (String × String))
    → not (is_nil (failed_pairs failed ps)) ≡ any (both (λ x. member x failed)) ps
not-is_nil-failed_pairs failed ps = ground (arith, is_nil-select (both (λ x. member x failed)) ps)

not-is_nil-irreconcilable_pairs :
    (e : Evaluation) (rubrics : List Rubric)
    → not (is_nil (irreconcilable_pairs e rubrics)) ≡ (
        leb 2 (length (hard_failing e))
        && conflict_declared (λ x. member x (ids (hard_failing e))) rubrics)
unfolding irreconcilable_pairs
not-is_nil-irreconcilable_pairs e [] = ground arith
not-is_nil-irreconcilable_pairs e (r ∷ rs) = ground (
  arith,
  not-is_nil-failed_pairs (ids (hard_failing e)) (conflict_pairs (r ∷ rs)),
  any-conflict_pairs (λ x. member x (ids (hard_failing e))) (r ∷ rs),
)

is_nil-length {ℓ} : {A : Type ℓ} (xs : List A) → is_nil xs ≡ true → leb 2 (length xs) ≡ false
is_nil-length [] h = refl
is_nil-length (x ∷ xs) h = cc

irreconcilable_lem :
    (e : Evaluation) (rubrics : List Rubric)
    → (arbitrate e rubrics).irreconcilable ≡ (
        leb 2 (length (hard_failing e))
        && conflict_declared (λ x. member x (ids (hard_failing e))) rubrics)
unfolding arbitrate
irreconcilable_lem e rubrics = ground (
  arith,
  not-is_nil-irreconcilable_pairs e rubrics,
  is_nil-length (hard_failing e),
  is_nil-hard_failing e,
  is_nil-sorted_failing e,
  any-failed_hard e.shard_scores,
)

-- A result is irreconcilable exactly if at least two hard shards failed and some criterion of some
-- rubric, whether or not that criterion failed, declares a conflict between two shards that are both
-- among the hard ones that failed.
pub arbitrate-irreconcilable :
    (e : Evaluation) (rubrics : List Rubric)
    → (arbitrate e rubrics).irreconcilable ≡ (
        leb 2 (length (hard_failed_ids e))
        && conflict_declared (λ x. member x (hard_failed_ids e)) rubrics)
arbitrate-irreconcilable e rubrics =
    let same : (λ x. member x (ids (hard_failing e))) ≡ (λ x. member x (hard_failed_ids e)) =
      fun_ext (member-hard_failing e) in
    irreconcilable_lem e rubrics
    ∙ ap (λ n. leb 2 n && conflict_declared (λ x. member x (ids (hard_failing e))) rubrics)
        (length-hard_failing e ∙ sym (length-ids (select failed_hard e.shard_scores)))
    ∙ ap (λ m. leb 2 (length (hard_failed_ids e)) && conflict_declared m rubrics) same
