-- ===== src/Shards/Evaluator.antt =====
-- src/shards/shard_evaluator.py: `ShardEvaluator`, the deterministic scorer. `search` is `re.search`
-- (a pattern and a text to the matched part), and `repr` Python's quoting of a text in a note.
use Prim.Native.String.{◌++◌}
use ai4_constrain.Prelude.{
  ℕ, ◌+◌, ◌-◌, ◌≡◌, refl, Bool, true, false, String, Option, none, some, List, [], ◌∷◌, arith, leb,
  str_eq, if◌then◌else◌, min, map,
}
use mathlib.Core.List.{◌++◌ as append}
use ai4_constrain.Prelude.Int.{ℤ, pos, ◌-ℤ◌, pos_part, neg_part, -ℤ_parts}
use ai4_constrain.Shards.{one, Criterion, Rubric, CriterionResult, ShardScore, Evaluation}

module _ (search : String → String → Option String) (repr : String → String) where
  -- The first loop of `_run_criterion`, with the value that follows it.
  fail_patterns : String → List String → Bool × String → Bool × String
  fail_patterns text [] after = after
  fail_patterns text (pattern ∷ rest) after = elim (search pattern text) [
    | some found ↦ (false, "matched " ++ (repr pattern ++ (" at " ++ repr found)))
    | none ↦ fail_patterns text rest after
  ]

  pass_patterns : String → List String → Bool × String
  pass_patterns text [] = (false, "required positive pattern missing")
  pass_patterns text (pattern ∷ rest) = elim (search pattern text) [
    | some found ↦ (true, "matched required " ++ repr pattern)
    | none ↦ pass_patterns text rest
  ]

  after_fail_patterns : String → List String → Bool × String
  unfolding pass_patterns
  after_fail_patterns text [] = (true, "")
  after_fail_patterns text (pattern ∷ rest) = pass_patterns text (pattern ∷ rest)

  unfoldable pub run_criterion : String → List String → List String → Bool × String
  unfolding fail_patterns after_fail_patterns
  run_criterion text fail_if_regex pass_if_regex =
      fail_patterns text fail_if_regex (after_fail_patterns text pass_if_regex)

  record Tally : Type 0 where
    results : List CriterionResult
    score : ℤ
    notes : List String

  -- One round of the loop of `_score_rubric`, and the loop.
  tally : String → Criterion → Tally → Tally
  tally text criterion t =
      let outcome = run_criterion text criterion.fail_if_regex criterion.pass_if_regex in
      let result : CriterionResult = record {
        criterion_id = criterion.id;
        passed = outcome.0;
        score = if outcome.0 then one else 0;
        evidence = outcome.1;
      } in
      let note =
        criterion.id
        ++ (": " ++ (if str_eq outcome.1 "" then criterion.description else outcome.1)) in
      record {
        results = append t.results (result ∷ []);
        score = if outcome.0 then t.score else t.score -ℤ pos criterion.weight;
        notes = if outcome.0 then t.notes else append t.notes (note ∷ []);
      }

  score_criteria : String → List Criterion → Tally → Tally
  unfolding tally
  score_criteria text [] t = t
  score_criteria text (criterion ∷ rest) t = score_criteria text rest (tally text criterion t)

  -- `max(0.0, min(1.0, score))`
  abbrev pub clamp_score : ℤ → ℕ
  clamp_score z = min one (pos_part z)

  unfoldable pub score_rubric : String → Rubric → ShardScore
  unfolding score_criteria
  score_rubric text rubric =
      let t =
        score_criteria text rubric.criteria
          (record { results = []; score = pos one; notes = [] }) in
      let score = clamp_score t.score in
      record {
        shard_id = rubric.id;
        version = rubric.version;
        kind = rubric.kind;
        priority = rubric.priority;
        score = score;
        passed = leb rubric.pass_threshold score;
        threshold = rubric.pass_threshold;
        results = t.results;
        notes = t.notes;
      }

  unfoldable pub evaluate : List Rubric → String → Evaluation
  unfolding score_rubric
  evaluate rubrics text = record {
    text = text;
    shard_scores = map (score_rubric text) rubrics;
    rubric_set_version = "0.1.0";
  }

  -- The weight of the criteria that a text fails, counted apart from the scoring loop.
  unfoldable pub failed_weight : String → List Criterion → ℕ
  failed_weight text [] = 0
  failed_weight text (c ∷ rest) =
      (if (run_criterion text c.fail_if_regex c.pass_if_regex).0 then 0 else c.weight)
      + failed_weight text rest

  -- What one criterion takes off.
  abbrev penalty : String → Criterion → ℕ
  penalty text c = if (run_criterion text c.fail_if_regex c.pass_if_regex).0 then 0 else c.weight

  tally-score :
      (text : String) (c : Criterion) (t : Tally)
      → pos_part (tally text c t).score + neg_part t.score + penalty text c
        ≡ neg_part (tally text c t).score + pos_part t.score
  unfolding tally
  tally-score text c t = ground (arith, -ℤ_parts t.score (pos c.weight))

  score_criteria-score :
      (text : String) (cs : List Criterion) (t : Tally)
      → pos_part (score_criteria text cs t).score + neg_part t.score + failed_weight text cs
        ≡ neg_part (score_criteria text cs t).score + pos_part t.score
  unfolding score_criteria failed_weight
  score_criteria-score text [] t = omega arith
  score_criteria-score text (c ∷ rest) t =
      omega (arith, tally-score text c t, score_criteria-score text rest (tally text c t))

  clamp_lem : (z : ℤ) (w : ℕ) → pos_part z + w ≡ neg_part z + one → clamp_score z ≡ one - w
  clamp_lem z w h = ground arith

  -- A shard's score is one less the weights of the criteria that the text fails, and no less than
  -- zero; the shard passes exactly if that reaches the rubric's threshold; and the score carries the
  -- rubric's identity.
  pub score_rubric_lem :
      (text : String) (r : Rubric)
      → ((score_rubric text r).score ≡ one - failed_weight text r.criteria)
        × ((score_rubric text r).passed
            ≡ leb r.pass_threshold (one - failed_weight text r.criteria))
        × ((score_rubric text r).shard_id ≡ r.id)
        × ((score_rubric text r).kind ≡ r.kind)
        × ((score_rubric text r).priority ≡ r.priority)
  unfolding score_rubric
  score_rubric_lem text r =
      let start : Tally = record { results = []; score = pos one; notes = [] } in
      let e =
        clamp_lem (score_criteria text r.criteria start).score (failed_weight text r.criteria)
          (omega (arith, score_criteria-score text r.criteria start)) in
      (e, rw e refl, refl, refl, refl)
