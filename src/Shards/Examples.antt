-- ===== src/Shards/Examples.antt =====
-- The shard rubrics: small evaluations, and the theorems at them.
use mathlib.Core.List.{Perm}
use ai4_constrain.Prelude.{
  ℕ, ◌-◌, ◌≡◌, refl, true, false, String, Option, none, some, List, [], ◌∷◌, leb, str_eq,
  if◌then◌else◌,
}
use ai4_constrain.Prelude.Sort.{IsSorted, sort}
use ai4_constrain.Prelude.Int.{◌-ℤ◌}
use ai4_constrain.Prelude.Text.{text_leb, join}
use ai4_constrain.Shards.{one, Criterion, Rubric, ShardScore, Evaluation, fail, failing}
use ai4_constrain.Shards.Evaluator.{score_rubric, failed_weight, score_rubric_lem, run_criterion}
use ai4_constrain.Shards.Arbitration.{
  arbitrate, arbitrate-verdict, arbitrate-targets, before, ids, sorted_failing, hard_failing,
  irreconcilable_pairs, conflict_pairs,
}
use ai4_constrain.Shards.Arbitration.Conflicts.{arbitrate-irreconcilable}

-- A pattern is found if it is the whole text.
abbrev whole : String → String → Option String
whole pattern text = if str_eq pattern text then some text else none

abbrev quote : String → String
quote s = s

abbrev no_secret : Criterion
no_secret = record {
  id = "no_secret";
  weight = 4000;
  description = "Do not emit secrets.";
  fail_if_regex = "secret" ∷ [];
  pass_if_regex = [];
  conflicts_with = "harm_aversion" ∷ [];
}

abbrev privacy : Rubric
privacy = record {
  id = "privacy";
  version = "0.1.0";
  title = "Privacy";
  kind = "hard";
  priority = 2;
  pass_threshold = 10000;
  description = "";
  criteria = no_secret ∷ [];
}

score_rubric_example :
    ((score_rubric whole quote "secret" privacy).score
      ≡ one - failed_weight whole quote "secret" (no_secret ∷ []))
    × ((score_rubric whole quote "secret" privacy).passed
        ≡ leb 10000 (one - failed_weight whole quote "secret" (no_secret ∷ [])))
    × ((score_rubric whole quote "secret" privacy).shard_id ≡ "privacy")
    × ((score_rubric whole quote "secret" privacy).kind ≡ "hard")
    × ((score_rubric whole quote "secret" privacy).priority ≡ 2)
score_rubric_example = score_rubric_lem whole quote "secret" privacy

score_rubric-secret : (score_rubric whole quote "secret" privacy).score ≡ 6000
unfolding score_rubric run_criterion ◌-ℤ◌
score_rubric-secret = refl

abbrev failed : String → String → ℕ → ShardScore
failed id kind priority = record {
  shard_id = id;
  version = "0.1.0";
  kind = kind;
  priority = priority;
  score = 6000;
  passed = false;
  threshold = 10000;
  results = [];
  notes = [];
}

abbrev two_hard : Evaluation
two_hard = record {
  text = "secret";
  shard_scores =
      failed "truth" "soft" 3 ∷ failed "privacy" "hard" 2 ∷ failed "harm_aversion" "hard" 1 ∷ [];
  rubric_set_version = "0.1.0";
}

arbitrate-two_hard :
    ((arbitrate two_hard (privacy ∷ [])).irreconcilable ≡ true)
    × ((arbitrate two_hard (privacy ∷ [])).revision_targets
        ≡ "harm_aversion" ∷ "privacy" ∷ "truth" ∷ [])
    × ((arbitrate two_hard (privacy ∷ [])).notes
        ≡ "irreconcilable hard pair: harm_aversion vs privacy" ∷ "hard veto: harm_aversion, privacy"
          ∷ [])
unfolding arbitrate sorted_failing hard_failing irreconcilable_pairs conflict_pairs text_leb join
    sort
arbitrate-two_hard = (refl, refl, refl)

-- The criterion that declares the conflict passed, and the two shards failed by others.
abbrev by_other_criteria : Evaluation
by_other_criteria = record two_hard {
  shard_scores =
      record (failed "privacy" "hard" 2) {
        results =
            record { criterion_id = "no_secret"; passed = true; score = 10000; evidence = "" }
            ∷ record { criterion_id = "no_address"; passed = false; score = 6000; evidence = "" }
            ∷ [];
      }
      ∷ failed "harm_aversion" "hard" 1
      ∷ [];
}

arbitrate-by_other_criteria : (arbitrate by_other_criteria (privacy ∷ [])).irreconcilable ≡ true
unfolding arbitrate sorted_failing hard_failing irreconcilable_pairs conflict_pairs text_leb sort
arbitrate-by_other_criteria = refl

arbitrate-verdict_example :
    ((arbitrate two_hard (privacy ∷ [])).verdict ≡ fail)
    × ((arbitrate two_hard (privacy ∷ [])).veto ≡ true)
    × ((arbitrate two_hard (privacy ∷ [])).scores ≡ two_hard.shard_scores)
    × ((arbitrate two_hard (privacy ∷ [])).irreconcilable ≡ true
        → (arbitrate two_hard (privacy ∷ [])).veto ≡ true)
arbitrate-verdict_example = arbitrate-verdict two_hard (privacy ∷ [])

arbitrate-targets_example :
    (order : List ShardScore) × ((arbitrate two_hard (privacy ∷ [])).revision_targets ≡ ids order)
    × Perm order (failing two_hard)
    × IsSorted before order
arbitrate-targets_example = arbitrate-targets two_hard (privacy ∷ [])

arbitrate-irreconcilable_example : (arbitrate two_hard (privacy ∷ [])).irreconcilable ≡ true
arbitrate-irreconcilable_example = arbitrate-irreconcilable two_hard (privacy ∷ [])
