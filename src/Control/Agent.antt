-- ===== src/Control/Agent.antt =====
-- src/agents/base_agent.py and src/agents/recursive_agent.py: `ConstrainedAgent.run`, the bounded
-- revision loop. The provider and the clock are a `World`: each call takes the state of the outside
-- and returns it changed, and a provider may raise. The evaluator, the critic and the middleware are
-- what the constructor is given; the critic's answer is what `_as_mapping` makes of it, if that does
-- not raise. A completion is modelled by its text and its model; times are
-- natural numbers.
pub mod Bounds
pub mod Safety
use ai4_constrain.Prelude.{
  ℕ, zero, suc, ◌+◌, Bool, true, false, not, ◌&&◌, String, Option, none, some, List, [], ◌∷◌, ◌++◌,
  length, ltb, leb, if◌then◌else◌, str_eq,
}
use ai4_constrain.Prelude.Result.{Result, ok, err}
use ai4_constrain.Semantic.{Members}
use ai4_constrain.Shards.{Evaluation}
use ai4_constrain.Control.{
  Action, timeout, Machine, m_accept, m_revise_call, m_refuse, m_timeout, m_emit_exhausted,
  ControlError, LoopDecision, next_loop_action, CReader, parse_c_decision, parse_d_decision,
  ConstraintMiddleware, decide, format_feedback, is_revise, safe_refusal,
}

pub data TerminalState : Type 0 where
  accepted revised refused timed_out repeated : TerminalState

-- `condition.upper()`; `unsupported` is anything outside `VALID_CONDITIONS`.
pub data Condition : Type 0 where
  cond_a cond_b cond_c cond_d unsupported : Condition

pub record AgentConfig : Type 0 where
  pub max_revision_rounds : ℕ
  pub timeout_s : ℕ
  pub max_completions : ℕ
  pub condition : Condition

pub record Completion : Type 0 where
  pub text : String
  pub model : String

pub record RunResult : Type 0 where
  pub text : String
  pub state : TerminalState
  pub condition : Condition
  pub evaluation : Evaluation
  pub completions : List Completion
  pub revision_rounds_used : ℕ
  pub reason : String
  pub specified_shards : List String
  pub prompt_id : String
  pub failed_evaluation : Option Evaluation

-- `provider_error` is an exception of the provider; `out_of_fuel` marks a bound of the model.
pub data RunError (E : Type 0) : Type 0 where
  unsupported_condition : RunError E
  control_error : ControlError → RunError E
  provider_error : E → RunError E
  out_of_fuel : RunError E

pub record World (W E : Type 0) : Type 0 where
  pub now : W → ℕ × W
  pub complete : W → String → String → Result E Completion × W
  pub revise : W → String → String → String → String → Result E Completion × W

abbrev pub is_c : Condition → Bool
is_c cond_c = true
is_c _ = false

abbrev pub is_revise_call : Machine → Bool
is_revise_call m_revise_call = true
is_revise_call _ = false

abbrev pub is_supported : Condition → Bool
is_supported unsupported = false
is_supported _ = true

-- The agent and the arguments of one `run`.
pub record Task (W E : Type 0) : Type 0 where
  pub world : World W E
  pub evaluate : String → Evaluation
  pub reader : CReader
  pub critic : String → Option Members
  pub middleware : ConstraintMiddleware
  pub format_score : ℕ → String
  pub config : AgentConfig
  pub principles_system : String
  pub standard_system : String
  pub prompt : String
  pub prompt_id : String
  pub specified_shards : List String

abbrev pub Step : Type 0 → Type 0 → Type 0
Step W E = Result (RunError E) RunResult × W

module _ {W E : Type 0} (a : Task W E) where
  open a use {
    world, evaluate, reader, critic, middleware, format_score, config, principles_system,
    standard_system, prompt, prompt_id, specified_shards,
  }

  -- `finish`; the evaluation is made afresh where none is given.
  unfoldable pub finish :
      List Completion
      → String
      → TerminalState
      → String
      → ℕ
      → Option Evaluation
      → Option Evaluation
      → RunResult
  finish completions text state reason used evaluation failed = record {
    text = text;
    state = state;
    condition = config.condition;
    evaluation = elim evaluation [ none ↦ evaluate text | some e ↦ e ];
    completions = completions;
    revision_rounds_used = used;
    reason = reason;
    specified_shards = a.specified_shards;
    prompt_id = a.prompt_id;
    failed_evaluation = failed;
  }

  abbrev pub budget_left : List Completion → Bool
  budget_left completions = ltb (length completions) config.max_completions

  -- `_loop_decision`
  unfoldable pub loop_decision :
      String → ℕ → Bool → Result ControlError (LoopDecision × Option Evaluation)
  loop_decision text used late =
      if is_c config.condition
      then (if late
          then ok (
            record {
              action = timeout;
              feedback = "";
              reason = "timeout during self-refine";
              requested_revision = false;
            },
            none,
          )
          else elim (parse_c_decision reader (critic text)) [ ok d ↦ ok (d, none) | err e ↦ err e ])
      else let evaluation = evaluate text in
        let raw = decide middleware evaluation used late false in
        let feedback =
          if is_revise raw.action then format_feedback format_score raw evaluation else "" in
        elim (parse_d_decision raw.action raw.reason feedback) [
          | ok d ↦ ok (d, some evaluation)
          | err e ↦ err e
        ]

  -- What the loop returns at once for each move but a revision.
  unfoldable pub settle :
      Machine → LoopDecision → Option Evaluation → List Completion → String → ℕ → RunResult
  settle m_timeout decision evaluation completions current used =
      let reason =
        if not (budget_left completions) && is_revise decision.action
        then "completion budget exhausted"
        else decision.reason in
      finish completions current timed_out reason used evaluation none
  settle m_accept decision evaluation completions current used =
      finish completions current accepted decision.reason used evaluation none
  settle m_refuse decision evaluation completions current used =
      finish completions safe_refusal refused decision.reason used none evaluation
  settle _ decision evaluation completions current used =
      finish completions current revised decision.reason used evaluation none

  -- After a revision: stop on a repeated candidate, or go round again by `again`.
  unfoldable pub after_revision :
      (List Completion → String → ℕ → W → Step W E)
      → Option Evaluation
      → List Completion
      → String
      → ℕ
      → Result E Completion × W
      → Step W E
  after_revision again evaluation completions current used (err e, w) = (err (provider_error e), w)
  after_revision again evaluation completions current used (ok answer, w) =
      let completions' = completions ++ answer ∷ [] in
      if str_eq answer.text current
      then (
        ok (finish completions' current repeated "repeated candidate" (used + 1) evaluation none),
        w,
      )
      else again completions' answer.text (used + 1) w

  -- One round of the `while True` loop, from a decision on.
  unfoldable pub act :
      (List Completion → String → ℕ → W → Step W E)
      → ℕ
      → String
      → List Completion
      → String
      → ℕ
      → Result ControlError (LoopDecision × Option Evaluation)
      → W
      → Step W E
  act again deadline system completions current used (err e) w = (err (control_error e), w)
  act again deadline system completions current used (ok (decision, evaluation)) w =
      let (t, w') = world.now w in
      let move =
        next_loop_action decision used config.max_revision_rounds (budget_left completions)
          (leb deadline t) in
      if is_revise_call move
      then after_revision again evaluation completions current used
          (world.revise w' system prompt current decision.feedback)
      else (ok (settle move decision evaluation completions current used), w')

  unfoldable pub loop : ℕ → ℕ → String → List Completion → String → ℕ → W → Step W E
  loop zero deadline system completions current used w = (err out_of_fuel, w)
  loop (suc fuel) deadline system completions current used w =
      let (t, w') = world.now w in
      act (loop fuel deadline system) deadline system completions current used
        (loop_decision current used (leb deadline t)) w'

  -- The first completion is there. One round more than the revisions is enough fuel.
  unfoldable pub control : Condition → ℕ → String → Completion → W → Step W E
  control cond_a deadline system first w =
      (ok (finish (first ∷ []) first.text accepted "one-shot emit" 0 none none), w)
  control cond_b deadline system first w =
      (ok (finish (first ∷ []) first.text accepted "one-shot emit" 0 none none), w)
  control cond_c deadline system first w =
      loop (suc config.max_revision_rounds) deadline system (first ∷ []) first.text 0 w
  control cond_d deadline system first w =
      loop (suc config.max_revision_rounds) deadline system (first ∷ []) first.text 0 w
  control unsupported deadline system first w = (err unsupported_condition, w)

  abbrev pub system_for : Condition → String
  system_for cond_b = principles_system
  system_for _ = standard_system

  unfoldable pub after_first : ℕ → Result E Completion × W → Step W E
  after_first deadline (err e, w) = (err (provider_error e), w)
  after_first deadline (ok first, w) =
      control config.condition deadline (system_for config.condition) first w

  unfoldable pub run : W → Step W E
  run w =
      if not (is_supported config.condition)
      then (err unsupported_condition, w)
      else let (t, w') = world.now w in
        let deadline = t + config.timeout_s in
        let (t', w'') = world.now w' in
        if leb deadline t'
        then (ok (finish [] "" timed_out "timeout before first completion" 0 none none), w'')
        else if not (budget_left [])
        then (ok (finish [] "" timed_out "timeout before first completion" 0 none none), w'')
        else after_first deadline (world.complete w'' (system_for config.condition) prompt)
