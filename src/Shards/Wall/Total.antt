-- ===== src/Shards/Wall/Total.antt =====
-- ai4/constrain/evaluator_wall.py: the wall lets every complete evaluation in the unit interval pass.
use ai4_constrain.Prelude.{
  ℕ, ◌≤◌, ◌≡◌, refl, ap, sym, ◌∙◌, subst, Bool, true, not, ◌&&◌, some, List, [], ◌∷◌, map, String,
  str_eq, every, length, ◌==◌, leb, Bool-cases, inl, inr, All, arith,
}
use ai4_constrain.Prelude.Result.{ok, ◌>>◌, guard}
use ai4_constrain.Prelude.Text.{member}
use ai4_constrain.Fuse.{required_shard_ids}
use ai4_constrain.Shards.{Rubric, ShardScore, Evaluation}
use ai4_constrain.Shards.Wall.{
  RawShardScore, RawEntry, shard_score, finite_unit_interval, entry_of, collect_scores, is_entry,
  require_exact, overlay_one, overlay_all, scores_given, evaluation_given, overlay_packaged_policy,
  raw_score, raw_evaluation, overlaid, constraint_execution_error,
}

-- No identifier occurs twice, or among the ones seen.
abbrev fresh : List String → List String → Bool
fresh [] seen = true
fresh (id ∷ ids) seen = not (member id seen) && fresh ids (id ∷ seen)

abbrev ids_of : List ShardScore → List String
ids_of scores = map (λ s. s.shard_id) scores

abbrev raws_of : List ShardScore → List RawShardScore
raws_of scores = map raw_score scores

abbrev entries_of : List ShardScore → List RawEntry
entries_of scores = map (λ s. shard_score (raw_score s)) scores

collect_scores-entries_of :
    (scores : List ShardScore) (seen : List String)
    → fresh (ids_of scores) seen ≡ true
    → collect_scores (entries_of scores) seen ≡ ok (raws_of scores)
unfolding collect_scores
collect_scores-entries_of [] seen h = refl
collect_scores-entries_of (s ∷ scores) seen h =
    let (new, rest) : (not (member s.shard_id seen) ≡ true)
        × (fresh (ids_of scores) (s.shard_id ∷ seen) ≡ true) =
      ground arith in
    rw (new) (rw (collect_scores-entries_of scores (s.shard_id ∷ seen) rest) refl)

every-raws_of :
    (p : String → Bool) (scores : List ShardScore)
    → every (λ r. p r.shard_id) (raws_of scores) ≡ every p (ids_of scores)
every-raws_of p [] = refl
every-raws_of p (s ∷ scores) = ap (λ b. p s.shard_id && b) (every-raws_of p scores)

is_entry-entry_of :
    (id : String) (scores : List ShardScore)
    → is_entry (entry_of id (raws_of scores)) ≡ member id (ids_of scores)
unfolding entry_of
is_entry-entry_of id [] = refl
is_entry-entry_of id (s ∷ scores) = ground (arith, is_entry-entry_of id scores)

length-ids_of : (scores : List ShardScore) → length (raws_of scores) ≡ length (ids_of scores)
length-ids_of [] = refl
length-ids_of (s ∷ scores) = omega (arith, length-ids_of scores)

-- A shard that is there is found, with its score.
entry_of-bounded :
    (unit : ℕ) (id : String) (scores : List ShardScore)
    → All (λ s. s.score ≤ unit) scores
    → member id (ids_of scores) ≡ true
    → (s : ShardScore) × (entry_of id (raws_of scores) ≡ some (raw_score s)) × (s.score ≤ unit)
unfolding entry_of
entry_of-bounded unit id [] all h = cc
entry_of-bounded unit id (s ∷ scores) (small, all) h = elim (Bool-cases (str_eq id s.shard_id)) [
  | inl same ↦ (s, rw (same) refl, small)
  | inr other ↦
      let (t, found, bound) = entry_of-bounded unit id scores all (ground (arith, other)) in
      (t, rw (other) found, bound)
]

every-is_entry :
    (shards : List String) (scores : List ShardScore)
    → every (λ shard. is_entry (entry_of shard (raws_of scores))) shards
      ≡ every (λ shard. member shard (ids_of scores)) shards
every-is_entry [] scores = refl
every-is_entry (shard ∷ shards) scores =
    ap (λ b. b && every (λ s. is_entry (entry_of s (raws_of scores))) shards)
      (is_entry-entry_of shard scores)
    ∙ ap (λ b. member shard (ids_of scores) && b) (every-is_entry shards scores)

-- The test of `require_exact`, by the identifiers alone.
abbrev exact : List String → Bool
exact ids =
    every (λ id. member id required_shard_ids) ids
    && every (λ shard. member shard ids) required_shard_ids
    && (length ids == length required_shard_ids)

require_exact-ids_of :
    (scores : List ShardScore)
    → ids_of scores ≡ required_shard_ids
    → require_exact (raws_of scores) ≡ ok tt
unfolding require_exact
require_exact-ids_of scores same =
    let known = every-raws_of (λ id. member id required_shard_ids) scores in
    let there = every-is_entry required_shard_ids scores in
    let size = length-ids_of scores in
    let test : (every (λ r. member r.shard_id required_shard_ids) (raws_of scores)
          && every (λ shard. is_entry (entry_of shard (raws_of scores))) required_shard_ids
          && (length (raws_of scores) == length required_shard_ids))
        ≡ exact (ids_of scores) =
      λ i. known i && there i && (size i == length required_shard_ids) in
    ap (λ b. guard b constraint_execution_error >> ok tt) (test ∙ ap exact same)

abbrev WithinUnit : ℕ → List ShardScore → Type 0
WithinUnit unit scores = All (λ s. s.score ≤ unit) scores

overlay_one-total :
    (unit : ℕ) (scores : List ShardScore) (rubric : Rubric)
    → WithinUnit unit scores
    → member rubric.id (ids_of scores) ≡ true
    → (s : ShardScore) × (overlay_one unit (raws_of scores) rubric ≡ ok s)
unfolding overlay_one finite_unit_interval
overlay_one-total unit scores rubric small there =
    let (s, found, bound) = entry_of-bounded unit rubric.id scores small there in
    let fits : leb s.score unit ≡ true = ground arith in
    (overlaid unit rubric s.score (raw_score s), rw (found, fits) refl)

overlay_all-total :
    (unit : ℕ) (scores : List ShardScore) (policy : List Rubric)
    → WithinUnit unit scores
    → every (λ r. member r.id (ids_of scores)) policy ≡ true
    → (walled : List ShardScore) × (overlay_all unit (raws_of scores) policy ≡ ok walled)
unfolding overlay_all
overlay_all-total unit scores [] small there = ([], refl)
overlay_all-total unit scores (rubric ∷ policy) small there =
    let (s, here) = overlay_one-total unit scores rubric small (ground arith) in
    let (rest, later) = overlay_all-total unit scores policy small (ground arith) in
    (s ∷ rest, rw (here, later) refl)

-- An evaluation with exactly the required shards, in their order, and scores in the unit interval
-- passes through the wall of every policy that names only these shards.
pub overlay_packaged_policy-total :
    (unit : ℕ) (policy : List Rubric) (e : Evaluation)
    → map (λ s. s.shard_id) e.shard_scores ≡ required_shard_ids
    → All (λ s. s.score ≤ unit) e.shard_scores
    → every (λ r. member r.id required_shard_ids) policy ≡ true
    → (walled : Evaluation) × (overlay_packaged_policy unit policy (raw_evaluation e) ≡ ok walled)
unfolding overlay_packaged_policy evaluation_given scores_given
overlay_packaged_policy-total unit policy e same small named =
    let scores = e.shard_scores in
    let distinct : fresh (ids_of scores) [] ≡ true = ap (λ ids. fresh ids []) same in
    let collected = collect_scores-entries_of scores [] distinct in
    let there = subst (λ ids. every (λ r. member r.id ids) policy ≡ true) (sym same) named in
    let (walled, made) = overlay_all-total unit scores policy small there in
    let result : Evaluation = record {
      text = e.text;
      shard_scores = walled;
      rubric_set_version = e.rubric_set_version;
    } in
    (result, rw (collected, require_exact-ids_of scores same, made) refl)
