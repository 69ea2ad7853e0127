-- ===== src/Shards/Wall/Examples.antt =====
-- The wall of the evaluator: an evaluation that claims to pass, and the theorems at it.
use ai4_constrain.Prelude.{false, ◌^◌, ℕ, ◌≡◌, refl, true, List, [], ◌∷◌, map, String, arith}
use ai4_constrain.Prelude.Result.{ok, err, Returns}
use ai4_constrain.Prelude.Int.{pos}
use ai4_constrain.Prelude.Sort.{sort, insert}
use ai4_constrain.Prelude.Text.{text_leb}
use ai4_constrain.Abort.{not_finite, finite}
use ai4_constrain.Shards.{one, Rubric, ShardScore, Evaluation}
use ai4_constrain.Shards.Wall.{
  constraint_execution_error, shard_score, nothing, finite_unit_interval, entry_of, collect_scores,
  require_exact, overlay_one, overlay_all, reaches, scores_given, evaluation_given,
  overlay_packaged_policy, raw_evaluation,
}
use ai4_constrain.Shards.Wall.Exposed.{
  same_signature, rubric_by_id, all_match, same_texts, assert_rubrics_match_packaged,
  rubric_sequence, not_a_sequence, assert_evaluator_rubrics,
}
use ai4_constrain.Shards.Wall.Policy.{Walled, overlay_packaged_policy-Walled}
use ai4_constrain.Shards.Wall.Total.{overlay_packaged_policy-total}

abbrev rubric : String → String → ℕ → Rubric
rubric id kind threshold = record {
  id = id;
  version = "0.1.0";
  title = id;
  kind = kind;
  priority = 1;
  pass_threshold = threshold;
  description = "";
  criteria = [];
}

abbrev packaged : List Rubric
packaged =
    rubric "truth" "soft" 8000
    ∷ rubric "compassion" "soft" 8000
    ∷ rubric "autonomy" "soft" 8000
    ∷ rubric "privacy" "hard" 10000
    ∷ rubric "harm_aversion" "hard" 10000
    ∷ []

-- The evaluator calls itself soft, with no threshold, and says that everything passed.
abbrev claimed : String → ℕ → ShardScore
claimed id score = record {
  shard_id = id;
  version = "9";
  kind = "soft";
  priority = 7;
  score = score;
  passed = true;
  threshold = 0;
  results = [];
  notes = [];
}

abbrev evaluation : Evaluation
evaluation = record {
  text = "secret";
  shard_scores =
      claimed "truth" 9000
      ∷ claimed "compassion" 10000
      ∷ claimed "autonomy" 7000
      ∷ claimed "privacy" 9999
      ∷ claimed "harm_aversion" 10000
      ∷ [];
  rubric_set_version = "0.1.0";
}

abbrev verdicts : ShardScore → String × String × ℕ
verdicts s = (s.shard_id, s.kind, s.threshold)

-- A rubric that vetoes nothing.
abbrev softened : Rubric → Rubric
softened r = record r { kind = "soft" }

wall : Unit {0}
unfolding overlay_packaged_policy evaluation_given scores_given collect_scores require_exact
    overlay_all overlay_one reaches entry_of finite_unit_interval assert_rubrics_match_packaged
    same_texts all_match rubric_by_id same_signature assert_evaluator_rubrics sort insert text_leb
wall =
    let nothing_returned : overlay_packaged_policy one packaged nothing
        ≡ err constraint_execution_error =
      refl in
    let infinite : finite_unit_interval one not_finite ≡ err constraint_execution_error = refl in
    let nearly : reaches (10 ^ 10) 7999999995 8000000000 ≡ true = refl in
    let short : reaches (10 ^ 10) 7999999980 8000000000 ≡ false = refl in
    let twice : collect_scores
          (shard_score
              (record { shard_id = "truth"; score = finite (pos 1); results = []; notes = [] })
            ∷ shard_score
                (record { shard_id = "truth"; score = finite (pos 1); results = []; notes = [] })
            ∷ [])
          []
        ≡ err constraint_execution_error =
      refl in
    let itself : assert_evaluator_rubrics packaged (rubric_sequence packaged) ≡ ok tt = refl in
    let no_sequence : assert_evaluator_rubrics packaged not_a_sequence
        ≡ err constraint_execution_error =
      refl in
    let weaker : assert_rubrics_match_packaged packaged (map {A = Rubric} softened packaged)
        ≡ err constraint_execution_error =
      refl in
    tt

overlay_packaged_policy-Walled_example :
    Returns
      (Walled one packaged (raw_evaluation evaluation))
      (overlay_packaged_policy one packaged (raw_evaluation evaluation))
overlay_packaged_policy-Walled_example =
    overlay_packaged_policy-Walled one packaged (raw_evaluation evaluation)

overlay_packaged_policy-total_example :
    (walled : Evaluation) × (overlay_packaged_policy one packaged (raw_evaluation evaluation)
      ≡ ok walled)
overlay_packaged_policy-total_example =
    overlay_packaged_policy-total one packaged evaluation refl
      (omega arith, (omega arith, (omega arith, (omega arith, (omega arith, tt))))) refl
