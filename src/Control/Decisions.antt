-- ===== src/Control/Decisions.antt =====
-- src/control_contract.py and src/constraints/constraint_middleware.py: what the decisions promise.
use ai4_constrain.Prelude.{
  ℕ, ◌≤◌, ◌<◌, ◌≡◌, ◌⊎◌, Bool, true, false, ◌||◌, String, arith, if◌then◌else◌,
}
use ai4_constrain.Prelude.Result.{ok}
use ai4_constrain.Shards.{Evaluation}
use ai4_constrain.Shards.Arbitration.{
  all_passed, any_hard_failed, arbitrate-verdict, any-failed_hard,
}
use ai4_constrain.Control.{
  accept, revise, refuse, m_accept, m_revise_call, LoopDecision, next_loop_action, parse_d_decision,
  ConstraintMiddleware, decide, is_revise,
}

-- The middleware accepts exactly the evaluations in which every shard passed, in time and within
-- budget; and after the last revision round it refuses exactly those in which a hard shard failed.
pub decide_lem :
    (middleware : ConstraintMiddleware) (e : Evaluation) (round : ℕ) (timed_out exhausted : Bool)
    → (((decide middleware e round timed_out exhausted).action ≡ accept)
        → (all_passed e ≡ true) × (timed_out ≡ false) × (exhausted ≡ false))
      × (all_passed e ≡ true
          → (timed_out || exhausted) ≡ false
          → (decide middleware e round timed_out exhausted).action ≡ accept)
      × (middleware.max_revision_rounds ≤ round
          → (timed_out || exhausted) ≡ false
          → any_hard_failed e ≡ true
          → (decide middleware e round timed_out exhausted).action ≡ refuse)
      × ((decide middleware e round timed_out exhausted).action ≡ refuse → any_hard_failed e ≡ true)
unfolding decide
decide_lem middleware e round timed_out exhausted =
    let a = arbitrate-verdict e middleware.rubrics in
    let b = any-failed_hard e.shard_scores in
    (ground (arith, a, b), ground (arith, a, b), ground (arith, a, b), ground (arith, a, b))

-- D's parser takes every decision of the middleware, keeps its action and its reason, asks for a
-- revision exactly if the action is to revise, and drops the feedback otherwise.
pub parse_d_decision-decide :
    (middleware : ConstraintMiddleware) (e : Evaluation) (round : ℕ) (timed_out exhausted : Bool)
    (feedback : String)
    → let decision = decide middleware e round timed_out exhausted in
      parse_d_decision decision.action decision.reason feedback
      ≡ ok (record {
        action = decision.action;
        feedback = if is_revise decision.action then feedback else "";
        reason = decision.reason;
        requested_revision = is_revise decision.action;
      })
unfolding decide parse_d_decision
parse_d_decision-decide middleware e round timed_out exhausted feedback = ground arith

-- The loop calls for a revision only if one was asked for by the decision, in time, within the
-- completion budget, and with a revision round left.
pub next_loop_action-revise_call :
    (d : LoopDecision) (used max_rounds : ℕ) (budget_left timed_out : Bool)
    → next_loop_action d used max_rounds budget_left timed_out ≡ m_revise_call
    → (d.action ≡ revise)
      × (d.requested_revision ≡ true)
      × (used < max_rounds)
      × (budget_left ≡ true)
      × (timed_out ≡ false)
unfolding next_loop_action
next_loop_action-revise_call d used max_rounds budget_left timed_out h = ground arith

pub next_loop_action-accept :
    (d : LoopDecision) (used max_rounds : ℕ) (budget_left timed_out : Bool)
    → next_loop_action d used max_rounds budget_left timed_out ≡ m_accept
    → (timed_out ≡ false) × ((d.action ≡ accept) ⊎ (d.requested_revision ≡ false))
unfolding next_loop_action
next_loop_action-accept d used max_rounds budget_left timed_out h = ground arith
