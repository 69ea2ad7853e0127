-- ===== src/Control/Agent/Bounds.antt =====
-- src/agents/recursive_agent.py: `ConstrainedAgent.run` always ends, within its two budgets.
use ai4_constrain.Prelude.{
  ℕ, zero, suc, ◌+◌, ◌≤◌, ◌<◌, ◌≡◌, refl, true, not, String, Option, List, [], ◌∷◌, ◌++◌, arith,
  length, length-append, leb, if-intro, str_eq,
}
use ai4_constrain.Prelude.Result.{Result, ok, err}
use ai4_constrain.Shards.{Evaluation}
use ai4_constrain.Control.{
  Machine, m_accept, m_revise_call, m_refuse, m_timeout, m_emit_exhausted, ControlError,
  LoopDecision, next_loop_action,
}
use ai4_constrain.Control.Decisions.{next_loop_action-revise_call}
use ai4_constrain.Control.Agent.{
  Task, Step, finish, budget_left, loop_decision, settle, after_revision, act, loop, control,
  after_first, run, AgentConfig, Completion, RunResult, RunError, out_of_fuel, cond_a, cond_b,
  cond_c, cond_d, unsupported, Condition, is_revise_call, is_supported,
}

-- The counts of a result, or an error that the program itself raises.
abbrev pub Bounded : {E : Type 0} → AgentConfig → Result (RunError E) RunResult → Type 0
Bounded config (ok r) =
    (r.revision_rounds_used ≤ config.max_revision_rounds)
    × (length r.completions ≤ config.max_completions)
    × (length r.completions ≤ r.revision_rounds_used + 1)
Bounded config (err out_of_fuel) = ⊥
Bounded config (err _) = Unit

pub is_revise_call_lem : (move : Machine) → is_revise_call move ≡ true → move ≡ m_revise_call
is_revise_call_lem m_revise_call h = refl
is_revise_call_lem m_accept h = cc
is_revise_call_lem m_refuse h = cc
is_revise_call_lem m_timeout h = cc
is_revise_call_lem m_emit_exhausted h = cc

module _ {W E : Type 0} (a : Task W E) where
  abbrev Ends : Step W E → Type 0
  Ends o = Bounded a.config o.0

  -- The completions so far, with `used` revisions among them.
  record Within (completions : List Completion) (used : ℕ) : Type 0 where
    counted : length completions ≡ used + 1
    rounds : used ≤ a.config.max_revision_rounds
    calls : length completions ≤ a.config.max_completions

  GoesOn : (List Completion → String → ℕ → W → Step W E) → ℕ → Type 0
  GoesOn again used =
      (completions : List Completion) (text : String) (w : W)
      → Within completions used
      → Ends (again completions text used w)

  settle-Bounded :
      (move : Machine) (d : LoopDecision) (e : Option Evaluation) (completions : List Completion)
      (current : String) (used : ℕ)
      → Within completions used
      → Bounded {E = E} a.config (ok (settle a move d e completions current used))
  unfolding settle finish
  settle-Bounded m_timeout d e completions current used p = omega (arith, p)
  settle-Bounded m_accept d e completions current used p = omega (arith, p)
  settle-Bounded m_refuse d e completions current used p = omega (arith, p)
  settle-Bounded m_revise_call d e completions current used p = omega (arith, p)
  settle-Bounded m_emit_exhausted d e completions current used p = omega (arith, p)

  after_revision-Ends :
      (again : List Completion → String → ℕ → W → Step W E) (e : Option Evaluation)
      (completions : List Completion) (current : String) (used : ℕ) (o : Result E Completion × W)
      → Within completions used
      → used < a.config.max_revision_rounds
      → length completions < a.config.max_completions
      → GoesOn again (used + 1)
      → Ends (after_revision a again e completions current used o)
  unfolding after_revision finish GoesOn
  after_revision-Ends again e completions current used (err x, w) p r c on = tt
  after_revision-Ends again e completions current used (ok answer, w) p r c on =
      let more = length-append completions (answer ∷ []) in
      if-intro Ends (str_eq answer.text current) _ _ (λ _. omega (arith, p, more))
        λ _. on (completions ++ answer ∷ []) answer.text w (omega (arith, p, more))

  act-Ends :
      (again : List Completion → String → ℕ → W → Step W E) (deadline : ℕ) (system : String)
      (completions : List Completion) (current : String) (used : ℕ)
      (decided : Result ControlError (LoopDecision × Option Evaluation)) (w : W)
      → Within completions used
      → GoesOn again (used + 1)
      → Ends (act a again deadline system completions current used decided w)
  unfolding act
  act-Ends again deadline system completions current used (err x) w p on = tt
  act-Ends again deadline system completions current used (ok (d, e)) w p on =
      let (t, w') = a.world.now w in
      let left = budget_left a completions in
      let move = next_loop_action d used a.config.max_revision_rounds left (leb deadline t) in
      if-intro Ends (is_revise_call move) _ _
        (λ h.
          let g =
            next_loop_action-revise_call d used a.config.max_revision_rounds left (leb deadline t)
              (is_revise_call_lem move h) in
          after_revision-Ends again e completions current used _ p g.2 (ground (arith, g.3)) on)
        λ h. settle-Bounded move d e completions current used p

  loop-Ends :
      (fuel deadline : ℕ) (system : String) (completions : List Completion) (current : String)
      (used : ℕ) (w : W)
      → Within completions used
      → a.config.max_revision_rounds < used + fuel
      → Ends (loop a fuel deadline system completions current used w)
  unfolding loop GoesOn
  loop-Ends zero deadline system completions current used w p f = omega (arith, p)
  loop-Ends (suc fuel) deadline system completions current used w p f =
      let (t, w') = a.world.now w in
      act-Ends (loop a fuel deadline system) deadline system completions current used
        (loop_decision a current used (leb deadline t)) w' p
        λ completions' text w'' q.
          loop-Ends fuel deadline system completions' text (used + 1) w'' q (omega arith)

  control-Ends :
      (c : Condition) (deadline : ℕ) (system : String) (first : Completion) (w : W)
      → 0 < a.config.max_completions
      → Ends (control a c deadline system first w)
  unfolding control finish
  control-Ends cond_a deadline system first w h = omega arith
  control-Ends cond_b deadline system first w h = omega arith
  control-Ends cond_c deadline system first w h =
      loop-Ends (suc a.config.max_revision_rounds) deadline system (first ∷ []) first.text 0 w
        (omega arith) (omega arith)
  control-Ends cond_d deadline system first w h =
      loop-Ends (suc a.config.max_revision_rounds) deadline system (first ∷ []) first.text 0 w
        (omega arith) (omega arith)
  control-Ends unsupported deadline system first w h = tt

  after_first-Ends :
      (deadline : ℕ) (o : Result E Completion × W)
      → 0 < a.config.max_completions
      → Ends (after_first a deadline o)
  unfolding after_first
  after_first-Ends deadline (err x, w) h = tt
  after_first-Ends deadline (ok first, w) h = control-Ends a.config.condition deadline _ first w h

  -- A run of the agent always ends, with a result or with an error that the program raises itself.
  -- A result has used at most `max_revision_rounds` revisions and `max_completions` completions, and
  -- at most one completion more than revisions.
  pub run-Bounded : (w : W) → Bounded a.config (run a w).0
  unfolding run finish
  run-Bounded w =
      if-intro Ends (not (is_supported a.config.condition)) _ _ (λ _. tt)
        λ _.
          let (t, w') = a.world.now w in
          let (t', w'') = a.world.now w' in
          if-intro Ends (leb (t + a.config.timeout_s) t') _ _ (λ _. omega arith)
            λ _.
              if-intro Ends (not (budget_left a [])) _ _ (λ _. omega arith)
                λ left. after_first-Ends (t + a.config.timeout_s) _ (ground arith)
