-- ===== src/Control/Examples.antt =====
-- The control loop: runs of the agent against a scripted provider, and the theorems at them.
use ai4_constrain.Prelude.{
  ℕ, ◌+◌, ◌≤◌, ◌<◌, ◌≡◌, refl, true, false, ◌||◌, String, some, [], ◌∷◌, arith, str_eq,
  if◌then◌else◌,
}
use ai4_constrain.Prelude.Result.{Result, ok, err}
use ai4_constrain.Prelude.Sort.{sort}
use ai4_constrain.Prelude.Text.{text_leb, join}
use ai4_constrain.Semantic.{string, boolean, Members, no_members, pair, keys, value_of}
use ai4_constrain.Shards.{Evaluation}
use ai4_constrain.Shards.Arbitration.{
  all_passed, any_hard_failed, arbitrate, sorted_failing, hard_failing, irreconcilable_pairs,
  conflict_pairs,
}
use ai4_constrain.Control.{
  accept, revise, refuse, m_revise_call, LoopDecision, next_loop_action, CReader, c_action,
  lower_keys, set_key, leaks_shard_control, has_banned_key, parse_c_decision, parse_d_decision,
  ConstraintMiddleware, decide, is_revise, format_feedback,
}
use ai4_constrain.Control.Decisions.{
  decide_lem, parse_d_decision-decide, next_loop_action-revise_call,
}
use ai4_constrain.Control.Agent.{
  Task, World, RunResult, RunError, cond_d, run, finish, loop_decision, settle, after_revision, act,
  loop, control, after_first,
}
use ai4_constrain.Control.Agent.Bounds.{Bounded, run-Bounded}
use ai4_constrain.Control.Agent.Safety.{Safe, run-Safe}

-- One hard shard, which fails exactly the text "bad".
abbrev judge : String → Evaluation
judge text = record {
  text = text;
  shard_scores =
      (record {
        shard_id = "privacy";
        version = "0.1.0";
        kind = "hard";
        priority = 2;
        score = if str_eq text "bad" then 0 else 10000;
        passed = if str_eq text "bad" then false else true;
        threshold = 10000;
        results = [];
        notes = [];
      })
      ∷ [];
  rubric_set_version = "0.1.0";
}

abbrev middleware : ConstraintMiddleware
middleware = record { rubrics = []; max_revision_rounds = 2 }

decide_example :
    ((decide middleware (judge "bad") 2 false false).action ≡ accept
      → (all_passed (judge "bad") ≡ true) × (false ≡ false) × (false ≡ false))
    × (all_passed (judge "bad") ≡ true
        → (false || false) ≡ false
        → (decide middleware (judge "bad") 2 false false).action ≡ accept)
    × (2 ≤ 2
        → (false || false) ≡ false
        → any_hard_failed (judge "bad") ≡ true
        → (decide middleware (judge "bad") 2 false false).action ≡ refuse)
    × ((decide middleware (judge "bad") 2 false false).action ≡ refuse
        → any_hard_failed (judge "bad") ≡ true)
decide_example = decide_lem middleware (judge "bad") 2 false false

parse_d_decision_example :
    let decision = decide middleware (judge "bad") 0 false false in
    parse_d_decision decision.action decision.reason "Shard scores"
    ≡ ok (record {
      action = decision.action;
      feedback = if is_revise decision.action then "Shard scores" else "";
      reason = decision.reason;
      requested_revision = is_revise decision.action;
    })
parse_d_decision_example =
    parse_d_decision-decide middleware (judge "bad") 0 false false "Shard scores"

abbrev asks : LoopDecision
asks = record { action = revise; feedback = "f"; reason = "r"; requested_revision = true }

next_loop_action-asks : next_loop_action asks 1 2 true false ≡ m_revise_call
unfolding next_loop_action
next_loop_action-asks = refl

next_loop_action_example :
    (asks.action ≡ revise)
    × (asks.requested_revision ≡ true)
    × (1 < 2)
    × (true ≡ true)
    × (false ≡ false)
next_loop_action_example = next_loop_action-revise_call asks 1 2 true false next_loop_action-asks

abbrev reader : CReader
reader = record {
  lower = λ text. if str_eq text "Action" then "action" else text;
  strip = λ text. text;
  str = λ value. elim value [ string text ↦ text | _ ↦ "" ];
  dumps = λ _. "{action: revise}";
}

abbrev critique : Members
critique = pair "Action" (string "accept") (
    pair "critique" (string "be careful")
      (pair "requested_revision" (boolean true) (pair "action" (string "revise") no_members)))

abbrev parsed : LoopDecision
parsed = record {
  action = revise;
  feedback = "be careful";
  reason = "revision warranted after principle critique";
  requested_revision = true;
}

-- Of two keys that become one, the later counts.
parse_c_decision-critique : parse_c_decision reader (some critique) ≡ ok parsed
unfolding parse_c_decision leaks_shard_control has_banned_key c_action lower_keys set_key value_of
    keys
parse_c_decision-critique = refl

-- A provider that says "bad" first, and then what it is given; the clock counts its readings.
abbrev scripted : String → World ℕ String
scripted second = record {
  now = λ t. (t, t + 1);
  complete = λ t _ _. (ok (record { text = "bad"; model = "mock" }), t);
  revise = λ t _ _ _ _. (ok (record { text = second; model = "mock" }), t);
}

abbrev task : String → Task ℕ String
task second = record {
  world = scripted second;
  evaluate = judge;
  reader = reader;
  critic = λ _. some critique;
  middleware = middleware;
  format_score = λ _. "0.00";
  config = record {
    max_revision_rounds = 2;
    timeout_s = 30;
    max_completions = 3;
    condition = cond_d;
  };
  principles_system = "";
  standard_system = "Answer the user. Be concise.";
  prompt = "hello";
  prompt_id = "";
  specified_shards = [];
}

-- Unfolding this opens the whole of a run.
agent : Unit {0}
unfolding run finish loop_decision settle after_revision act loop control after_first decide
    arbitrate sorted_failing hard_failing irreconcilable_pairs conflict_pairs text_leb join
    next_loop_action parse_d_decision format_feedback sort
agent = tt

abbrev state_of : {E : Type 0} → Result (RunError E) RunResult → String × ℕ
state_of (ok r) = (r.text, r.revision_rounds_used)
state_of (err _) = ("error", 0)

run-revised : state_of (run (task "good") 0).0 ≡ ("good", 1)
unfolding agent
run-revised = refl

-- A provider that repeats itself has its draft handed out, under the state `repeated`.
run-repeated : state_of (run (task "bad") 0).0 ≡ ("bad", 1)
unfolding agent
run-repeated = refl

run-Bounded_example : Bounded (task "good").config (run (task "good") 0).0
run-Bounded_example = run-Bounded (task "good") 0

run-Safe_example : Safe (task "good") (run (task "good") 0).0
run-Safe_example = run-Safe (task "good") (omega arith) refl 0
