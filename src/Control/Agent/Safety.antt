-- ===== src/Control/Agent/Safety.antt =====
-- src/agents/recursive_agent.py: what a run under condition D lets out.
use ai4_constrain.Prelude.{
  ℕ, zero, suc, ◌+◌, ◌≤◌, ◌≡◌, refl, Bool, true, false, not, String, Option, some, List, [], arith,
  leb, if◌then◌else◌, if-intro, str_eq,
}
use ai4_constrain.Prelude.Result.{Result, ok, err}
use ai4_constrain.Shards.{Evaluation}
use ai4_constrain.Shards.Arbitration.{all_passed, any_hard_failed, arbitrate-verdict}
use ai4_constrain.Control.{
  accept, revise, Machine, m_accept, m_revise_call, m_refuse, m_timeout, m_emit_exhausted,
  ControlError, LoopDecision, next_loop_action, decide, format_feedback, is_revise, in_loop_actions,
  safe_refusal,
}
use ai4_constrain.Control.Decisions.{decide_lem, parse_d_decision-decide}
use ai4_constrain.Control.Agent.{
  Task, Step, accepted, revised, refused, finish, budget_left, loop_decision, settle,
  after_revision, act, loop, control, after_first, run, Completion, RunResult, RunError, cond_d,
  Condition, is_revise_call, is_supported,
}

module _ {W E : Type 0} (a : Task W E) where
  -- What is asked of a result by its terminal state.
  pub record IsSafe (r : RunResult) : Type 0 where
    pub accepting :
        r.state ≡ accepted
        → (r.evaluation ≡ a.evaluate r.text) × (all_passed (a.evaluate r.text) ≡ true)
    pub revising : r.state ≡ revised → any_hard_failed (a.evaluate r.text) ≡ false
    pub refusing : r.state ≡ refused → r.text ≡ safe_refusal

  abbrev pub Safe : Result (RunError E) RunResult → Type 0
  Safe (ok r) = IsSafe r
  Safe (err _) = Unit

  abbrev Leaves : Step W E → Type 0
  Leaves o = Safe o.0

  -- What D's decision on a text knows of it.
  record Knows (current : String) (used : ℕ) (d : LoopDecision) (e : Option Evaluation)
      : Type 0 where
    judged : e ≡ some (a.evaluate current)
    known : in_loop_actions d.action ≡ true
    requested : d.requested_revision ≡ is_revise d.action
    passed : d.action ≡ accept → all_passed (a.evaluate current) ≡ true
    soft :
        d.action ≡ revise
        → a.middleware.max_revision_rounds ≤ used
        → any_hard_failed (a.evaluate current) ≡ false

  decide-soft :
      (e : Evaluation) (used : ℕ) (late : Bool)
      → (decide a.middleware e used late false).action ≡ revise
      → a.middleware.max_revision_rounds ≤ used
      → any_hard_failed e ≡ false
  unfolding decide
  decide-soft e used late r m = ground (arith, arbitrate-verdict e a.middleware.rubrics)

  decide-known :
      (e : Evaluation) (used : ℕ) (late : Bool)
      → in_loop_actions (decide a.middleware e used late false).action ≡ true
  unfolding decide
  decide-known e used late = ground arith

  loop_decision-Knows :
      a.config.condition ≡ cond_d
      → (current : String) (used : ℕ) (late : Bool) (d : LoopDecision) (e : Option Evaluation)
      → loop_decision a current used late ≡ ok (d, e)
      → Knows current used d e
  unfolding loop_decision
  loop_decision-Knows is_d current used late d e h =
      let judge = a.evaluate current in
      let raw = decide a.middleware judge used late false in
      let feedback =
        if is_revise raw.action then format_feedback a.format_score raw judge else "" in
      ground (
        arith,
        parse_d_decision-decide a.middleware judge used late false feedback,
        decide-soft judge used late,
        decide-known judge used late,
        (decide_lem a.middleware judge used late false).0,
      )

  module _ (same_rounds : a.middleware.max_revision_rounds ≤ a.config.max_revision_rounds)
      (is_d : a.config.condition ≡ cond_d) where
    settle-Safe :
        (move : Machine) (d : LoopDecision) (e : Option Evaluation) (completions : List Completion)
        (current : String) (used : ℕ) (left late : Bool)
        → next_loop_action d used a.config.max_revision_rounds left late ≡ move
        → is_revise_call move ≡ false
        → Knows current used d e
        → IsSafe (settle a move d e completions current used)
    unfolding settle finish next_loop_action
    settle-Safe m_timeout d e completions current used left late q m k = ground arith
    settle-Safe m_accept d e completions current used left late q m k = ground arith
    settle-Safe m_refuse d e completions current used left late q m k = ground arith
    settle-Safe m_revise_call d e completions current used left late q m k = cc
    settle-Safe m_emit_exhausted d e completions current used left late q m k = ground arith

    after_revision-Safe :
        (again : List Completion → String → ℕ → W → Step W E) (e : Option Evaluation)
        (completions : List Completion) (current : String) (used : ℕ) (o : Result E Completion × W)
        → ((cs : List Completion) (text : String) (n : ℕ) (w : W) → Leaves (again cs text n w))
        → Leaves (after_revision a again e completions current used o)
    unfolding after_revision finish
    after_revision-Safe again e completions current used (err x, w) on = tt
    after_revision-Safe again e completions current used (ok answer, w) on =
        if-intro Leaves (str_eq answer.text current) _ _ (λ _. ground arith) λ _. on _ _ _ _

    act-Safe :
        (again : List Completion → String → ℕ → W → Step W E) (deadline : ℕ) (system : String)
        (completions : List Completion) (current : String) (used : ℕ) (late : Bool)
        (decided : Result ControlError (LoopDecision × Option Evaluation)) (w : W)
        → loop_decision a current used late ≡ decided
        → ((cs : List Completion) (text : String) (n : ℕ) (w : W) → Leaves (again cs text n w))
        → Leaves (act a again deadline system completions current used decided w)
    unfolding act
    act-Safe again deadline system completions current used late (err x) w h on = tt
    act-Safe again deadline system completions current used late (ok (d, e)) w h on =
        let (t, w') = a.world.now w in
        let left = budget_left a completions in
        let move = next_loop_action d used a.config.max_revision_rounds left (leb deadline t) in
        if-intro Leaves (is_revise_call move) _ _
          (λ _. after_revision-Safe again e completions current used _ on)
          λ m.
            settle-Safe move d e completions current used left (leb deadline t) refl m
              (loop_decision-Knows is_d current used late d e h)

    loop-Safe :
        (fuel deadline : ℕ) (system : String) (completions : List Completion) (current : String)
        (used : ℕ) (w : W)
        → Leaves (loop a fuel deadline system completions current used w)
    unfolding loop
    loop-Safe zero deadline system completions current used w = tt
    loop-Safe (suc fuel) deadline system completions current used w =
        let (t, w') = a.world.now w in
        act-Safe (loop a fuel deadline system) deadline system completions current used
          (leb deadline t) _ w' refl (loop-Safe fuel deadline system)

    control-Safe :
        (c : Condition) (deadline : ℕ) (system : String) (first : Completion) (w : W)
        → c ≡ cond_d
        → Leaves (control a c deadline system first w)
    unfolding control
    control-Safe cond_d deadline system first w h = loop-Safe _ deadline system _ _ 0 w
    control-Safe _ deadline system first w h = absurd (ground arith)

    after_first-Safe :
        (deadline : ℕ) (o : Result E Completion × W) → Leaves (after_first a deadline o)
    unfolding after_first
    after_first-Safe deadline (err x, w) = tt
    after_first-Safe deadline (ok first, w) =
        control-Safe a.config.condition deadline _ first w is_d

    run-Safe_step : (w : W) → Safe (run a w).0
    unfolding run finish
    run-Safe_step w =
        if-intro Leaves (not (is_supported a.config.condition)) _ _ (λ _. tt)
          λ _.
            let (t, w') = a.world.now w in
            let (t', w'') = a.world.now w' in
            if-intro Leaves (leb (t + a.config.timeout_s) t') _ _ (λ _. ground arith)
              λ _.
                if-intro Leaves (not (budget_left a [])) _ _ (λ _. ground arith)
                  λ _. after_first-Safe (t + a.config.timeout_s) _

  -- Under condition D, with a middleware that allows no more rounds than the agent: an accepted
  -- text passes every shard in its own evaluation; a text that is handed out as a last revision fails
  -- no hard shard; and a refusal hands out the fixed refusal text.
  pub run-Safe :
      a.middleware.max_revision_rounds ≤ a.config.max_revision_rounds
      → a.config.condition ≡ cond_d
      → (w : W) → Safe (run a w).0
  run-Safe same_rounds is_d w = run-Safe_step same_rounds is_d w
