-- ===== src/Shards/Wall/Policy.antt =====
-- ai4/constrain/evaluator_wall.py: what comes out of the wall.
use ai4_constrain.Prelude.{
  ◌+◌, ◌*◌, ◌^◌, ◌↔◌, true, arith, ℕ, ◌≤◌, ◌≡◌, refl, ap, ◌∙◌, not, Option, none, some, List, [],
  ◌∷◌, map, String, leb, leb→le, if-intro,
}
use ai4_constrain.Prelude.Int.{pos}
use ai4_constrain.Prelude.Result.{ok, Returns, returned, Returns-bind, Returns-then, Returns-guard}
use ai4_constrain.Prelude.Text.{member}
use ai4_constrain.Abort.{RawNumber, finite}
use ai4_constrain.Shards.{Rubric, ShardScore, Evaluation}
use ai4_constrain.Shards.Wall.{
  RawShardScore, RawEntry, shard_score, score_tuple, RawEvaluation, an_evaluation, nothing,
  not_an_evaluation, other_entry, not_a_tuple, RawScores, Returned, finite_unit_interval, reaches,
  entry_of, collect_scores, require_exact, entry_found, overlay_one, overlay_all, scores_given,
  evaluation_given, overlay_packaged_policy,
}

-- A score of the policy: everything but the number, the results and the notes is the rubric's.
abbrev pub Overlaid : ℕ → Rubric → ShardScore → Type 0
Overlaid unit rubric s =
    (s.shard_id ≡ rubric.id)
    × (s.version ≡ rubric.version)
    × (s.kind ≡ rubric.kind)
    × (s.priority ≡ rubric.priority)
    × (s.threshold ≡ rubric.pass_threshold)
    × ((s.passed ≡ true) ↔ (rubric.pass_threshold * 10 ^ 9 ≤ s.score * 10 ^ 9 + unit))
    × (s.score ≤ unit)

reaches_lem :
    (unit score threshold : ℕ)
    → (reaches unit score threshold ≡ true) ↔ (threshold * 10 ^ 9 ≤ score * 10 ^ 9 + unit)
unfolding reaches
reaches_lem unit score threshold =
    (leb→le (threshold * 10 ^ 9) (score * 10 ^ 9 + unit), λ enough. ground arith)

abbrev pub OverlaidAll : ℕ → List RawShardScore → List Rubric → List ShardScore → Type 0
OverlaidAll unit raw [] [] = Unit
OverlaidAll unit raw (rubric ∷ policy) (s ∷ scores) =
    Overlaid unit rubric s
    × ((r : RawShardScore) × (entry_of rubric.id raw ≡ some r)
        × (r.score ≡ finite (pos s.score))
        × (r.results ≡ s.results)
        × (r.notes ≡ s.notes))
    × OverlaidAll unit raw policy scores
OverlaidAll unit raw _ _ = ⊥

finite_unit_interval_le :
    (unit : ℕ) (raw : RawNumber)
    → Returns (λ n. (raw ≡ finite (pos n)) × (n ≤ unit)) (finite_unit_interval unit raw)
unfolding finite_unit_interval
finite_unit_interval_le unit (finite (pos n)) =
    if-intro (Returns (λ m. (finite (pos n) ≡ finite (pos m)) × (m ≤ unit))) (leb n unit) (ok n) _
      (λ small. (refl, leb→le n unit small)) λ _. tt
finite_unit_interval_le unit _ = tt

entry_found-some : (o : Option RawShardScore) → Returns (λ r. o ≡ some r) (entry_found o)
entry_found-some none = tt
entry_found-some (some r) = refl

abbrev OverlaidFrom : ℕ → List RawShardScore → Rubric → ShardScore → Type 0
OverlaidFrom unit raw rubric s =
    Overlaid unit rubric s
    × ((r : RawShardScore) × (entry_of rubric.id raw ≡ some r)
        × (r.score ≡ finite (pos s.score))
        × (r.results ≡ s.results)
        × (r.notes ≡ s.notes))

overlay_one-OverlaidFrom :
    (unit : ℕ) (raw : List RawShardScore) (rubric : Rubric)
    → Returns (OverlaidFrom unit raw rubric) (overlay_one unit raw rubric)
unfolding overlay_one
overlay_one-OverlaidFrom unit raw rubric =
    let P = OverlaidFrom unit raw rubric in
    Returns-bind P (entry_found (entry_of rubric.id raw)) _ λ entry found.
      Returns-bind P (finite_unit_interval unit entry.score) _ λ score valid.
        let (number, small) = returned _ _ (finite_unit_interval_le unit entry.score) valid in
        let here = returned _ _ (entry_found-some (entry_of rubric.id raw)) found in
        (
          (refl, refl, refl, refl, refl, reaches_lem unit score rubric.pass_threshold, small),
          (entry, here, number, refl, refl),
        )

overlay_all-OverlaidAll :
    (unit : ℕ) (raw : List RawShardScore) (policy : List Rubric)
    → Returns (OverlaidAll unit raw policy) (overlay_all unit raw policy)
unfolding overlay_all
overlay_all-OverlaidAll unit raw [] = tt
overlay_all-OverlaidAll unit raw (rubric ∷ policy) =
    let P = OverlaidAll unit raw (rubric ∷ policy) in
    Returns-bind P (overlay_one unit raw rubric) _ λ s made.
      Returns-bind P (overlay_all unit raw policy) _ λ scores made_rest.
        let (here, source) = returned _ _ (overlay_one-OverlaidFrom unit raw rubric) made in
        (here, source, returned _ _ (overlay_all-OverlaidAll unit raw policy) made_rest)

-- The scores that were collected are all the entries.
collect_scores-entries :
    (entries : List RawEntry) (seen : List String)
    → Returns (λ raw. entries ≡ map shard_score raw) (collect_scores entries seen)
unfolding collect_scores
collect_scores-entries [] seen = refl
collect_scores-entries (other_entry ∷ rest) seen = tt
collect_scores-entries (shard_score s ∷ rest) seen =
    let P : List RawShardScore → Type 0 = λ raw. shard_score s ∷ rest ≡ map shard_score raw in
    Returns-guard P (not (member s.shard_id seen)) _ _ λ _.
      Returns-bind P (collect_scores rest (s.shard_id ∷ seen)) _ λ later collected.
        ap (λ xs. shard_score s ∷ xs)
          (returned _ _ (collect_scores-entries rest (s.shard_id ∷ seen)) collected)

evaluation_given_some :
    (result : Returned) → Returns (λ e. result ≡ an_evaluation e) (evaluation_given result)
unfolding evaluation_given
evaluation_given_some (an_evaluation e) = refl
evaluation_given_some nothing = tt
evaluation_given_some not_an_evaluation = tt

scores_given_some :
    (scores : RawScores) → Returns (λ entries. scores ≡ score_tuple entries) (scores_given scores)
unfolding scores_given
scores_given_some (score_tuple entries) = refl
scores_given_some not_a_tuple = tt

-- What was returned was an evaluation of shard scores, and they went through the policy.
abbrev pub Walled : ℕ → List Rubric → Returned → Evaluation → Type 0
Walled unit policy result e =
    (given : RawEvaluation) × (raw : List RawShardScore) × (result ≡ an_evaluation given)
    × (given.shard_scores ≡ score_tuple (map shard_score raw))
    × (e.text ≡ given.text)
    × OverlaidAll unit raw policy e.shard_scores

-- Whatever an evaluator returns, an evaluation that leaves the wall has one score for each rubric of
-- the policy, in its order, with the rubric's identity, version, kind, priority and threshold; the
-- score is the evaluator's for that shard and lies in the unit interval, and the shard passes exactly
-- if the score and the epsilon of 10^-9 together reach the threshold. The results and the
-- notes are the evaluator's. This holds for scores and thresholds of any unit.
pub overlay_packaged_policy-Walled :
    (unit : ℕ) (policy : List Rubric) (result : Returned)
    → Returns (Walled unit policy result) (overlay_packaged_policy unit policy result)
unfolding overlay_packaged_policy
overlay_packaged_policy-Walled unit policy result =
    let P = Walled unit policy result in
    Returns-bind P (evaluation_given result) _ λ given is_given.
      Returns-bind P (scores_given given.shard_scores) _ λ entries is_tuple.
        Returns-bind P (collect_scores entries []) _ λ raw collected.
          Returns-then P (require_exact raw) _ λ _.
            Returns-bind P (overlay_all unit raw policy) _ λ walled made. (
              given,
              raw,
              returned _ _ (evaluation_given_some result) is_given,
              returned _ _ (scores_given_some given.shard_scores) is_tuple
                  ∙ ap score_tuple (returned _ _ (collect_scores-entries entries []) collected),
              refl,
              returned _ _ (overlay_all-OverlaidAll unit raw policy) made,
            )
