-- ===== src/Hybrid/Loop/Step.antt =====
-- ai4/constrain/_v07_3c/loop.py: `run_governing_loop`, by rounds.
use ai4_constrain.Prelude.{
  ℕ, zero, suc, ◌+◌, ◌*◌, Bool, true, false, Option, none, some, List, [], ◌∷◌, ◌++◌, String,
  str_eq, ltb, if◌then◌else◌,
}
use ai4_constrain.Prelude.Int.{pos}
use ai4_constrain.Prelude.Result.{Result, ok, err, ◌>>◌}
use ai4_constrain.Abort.{
  Abort, schema_invalid, identity_drift, backend_error, proposal_completion_exhausted, finite,
}
use ai4_constrain.Budget.{Authority}
use ai4_constrain.Budget.Adapter.{Reply, aborted, provider_failed, Called, call}
use ai4_constrain.Control.{
  Machine, m_accept, m_revise_call, m_refuse, m_timeout, m_emit_exhausted, ControlError,
  LoopDecision, next_loop_action, parse_d_decision, is_revise,
}
use ai4_constrain.Control.Agent.{TerminalState, accepted, revised, refused, repeated}
use ai4_constrain.Hybrid.{
  detect_identity_drift, assert_served_model_matches, InstalledHybrid, recheck_runtime_provenance,
  Snapshot,
}
use ai4_constrain.Hybrid.Examine.{Examined, observe_semantic}
use ai4_constrain.Hybrid.Loop.{
  RoundResult, RevisionStep, Governed, LoopError, abort, control_error, out_of_fuel, Outside, Setup,
}
use ai4_constrain.Hybrid.Loop.Judge.{judge}

abbrev pub Loop : Type 0 → Type 0
Loop A = Result LoopError A × Authority

abbrev pub snapshot_of : Option InstalledHybrid → Option Snapshot
snapshot_of none = none
snapshot_of (some installed) = some installed.identity_snapshot

module _ {E : Type 0} (setup : Setup) (outside : Outside E) where
  -- `_assert_installed_identity` and `_recheck_runtime_provenance`, at one check.
  unfoldable pub check : ℕ → Result Abort (Unit {0})
  check moment = do
    detect_identity_drift [] (snapshot_of setup.installed) setup.context_snapshot
    recheck_runtime_provenance setup.installed (outside.proposer moment) (outside.examiner moment)

  unfoldable pub after_examination : ℕ → String → Reply → Examined → Loop RoundResult
  after_examination used current completion (err class, s) = (err (abort class), s)
  after_examination used current completion (ok bound, s) =
      (judge setup used current completion bound, s)

  unfoldable pub checked_round :
      ℕ → String → Reply → Result Abort (Unit {0}) → Authority → Loop RoundResult
  checked_round used current completion (err class) s = (err (abort class), s)
  checked_round used current completion (ok _) s = after_examination used current completion (
      observe_semantic setup.lower setup.locked_prompt setup.reserve_usd_examiner
        (outside.examination used current) (outside.clock (4 * used + 2))
        (outside.clock (4 * used + 3)) s)

  -- The round as far as its decision.
  unfoldable pub round : ℕ → String → Reply → Authority → Loop RoundResult
  round used current completion s = checked_round used current completion (check (used + 2)) s

  -- What the loop has so far.
  abbrev pub Progress : Type 0
  Progress = List Reply × List RevisionStep

  unfoldable pub finish :
      Progress → ℕ → RoundResult → TerminalState → String → Result LoopError Governed
  finish progress used last state reason = ok (record {
    last = last;
    completions = progress.0;
    steps = progress.1;
    used = used;
    state = state;
    reason = reason;
  })

  -- A move that stops the loop.
  unfoldable pub stop : Machine → Progress → ℕ → RoundResult → Result LoopError Governed
  stop m_accept progress used last = finish progress used last accepted last.decision.reason
  stop m_refuse progress used last = finish progress used last refused last.decision.reason
  stop m_emit_exhausted progress used last =
      if is_revise last.decision.action
      then finish progress used last revised last.decision.reason
      else err (abort proposal_completion_exhausted)
  stop m_timeout progress used last =
      if is_revise last.decision.action
      then err (abort schema_invalid)
      else err (abort proposal_completion_exhausted)
  stop m_revise_call progress used last = err (abort schema_invalid)

  abbrev pub revision_step : ℕ → RoundResult → Reply → RevisionStep
  revision_step used last revised_reply = record {
    round = used + 1;
    input_text = last.text;
    output_text = revised_reply.text;
    action = last.decision.action;
    reason = last.decision.reason;
    feedback = last.feedback;
  }

  -- After the revision call of a round.
  unfoldable pub after_revision :
      (Progress → ℕ → String → Reply → Authority → Loop Governed)
      → Progress
      → ℕ
      → RoundResult
      → Called E
      → Loop Governed
  after_revision again progress used last (err (aborted class), s) = (err (abort class), s)
  after_revision again progress used last (err (provider_failed e), s) =
      (err (abort backend_error), s)
  after_revision again progress used last (ok answer, s) =
      let more : Progress =
        (progress.0 ++ answer ∷ [], progress.1 ++ revision_step used last answer ∷ []) in
      if str_eq answer.text last.text
      then (finish more (used + 1) last repeated "repeated candidate", s)
      else if ltb setup.max_revision_rounds (used + 1)
      then (err (abort identity_drift), s)
      else again more (used + 1) answer.text answer s

  abbrev pub is_revise_call : Machine → Bool
  is_revise_call m_revise_call = true
  is_revise_call _ = false

  unfoldable pub move :
      (Progress → ℕ → String → Reply → Authority → Loop Governed)
      → Progress
      → ℕ
      → RoundResult
      → Result ControlError LoopDecision
      → Authority
      → Loop Governed
  move again progress used last (err e) s = (err (control_error e), s)
  move again progress used last (ok decision) s =
      let machine = next_loop_action decision used setup.max_revision_rounds true false in
      if is_revise_call machine
      then after_revision again progress used last (
          call setup.reserve_usd_proposal (outside.reply used last.text last.feedback)
            (outside.clock (4 * used + 4)) (outside.clock (4 * used + 5)) s)
      else (stop machine progress used last, s)

  unfoldable pub act :
      (Progress → ℕ → String → Reply → Authority → Loop Governed)
      → Progress
      → ℕ
      → Loop RoundResult
      → Loop Governed
  act again progress used (err e, s) = (err e, s)
  act again progress used (ok last, s) =
      move again progress used last
        (parse_d_decision last.decision.action last.decision.reason last.feedback) s

  -- The `while True` loop.
  unfoldable pub loop : ℕ → Progress → ℕ → String → Reply → Authority → Loop Governed
  loop zero progress used current completion s = (err out_of_fuel, s)
  loop (suc fuel) progress used current completion s =
      act (loop fuel) progress used (round used current completion s)

  -- A supplied draft goes through the same calls of the ledger as a reply that costs nothing.
  unfoldable pub propose_first : Option String → Authority → Called E
  propose_first none s =
      call setup.reserve_usd_proposal outside.first_reply (outside.clock 0) (outside.clock 1) s
  propose_first (some text) s =
      call 0
        (ok (record {
          text = text;
          model = setup.supplied_model;
          estimated_usd = some (finite (pos 0));
        }))
        (outside.clock 0) (outside.clock 1) s

  -- The checks between the first proposal and the loop.
  unfoldable pub check_first : Reply → Result Abort (Unit {0})
  check_first first = do
    (if str_eq first.model ""
        then ok tt
        else assert_served_model_matches [] setup.served_model first.model)
    recheck_runtime_provenance setup.installed (outside.proposer 1) (outside.examiner 1)

  unfoldable pub enter : Reply → Result Abort (Unit {0}) → Authority → Loop Governed
  enter first (err class) s = (err (abort class), s)
  enter first (ok _) s = loop (suc setup.max_revision_rounds) (first ∷ [], []) 0 first.text first s

  unfoldable pub after_first : Called E → Loop Governed
  after_first (err (aborted class), s) = (err (abort class), s)
  after_first (err (provider_failed e), s) = (err (abort backend_error), s)
  after_first (ok first, s) = enter first (check_first first) s

  unfoldable pub start : Result Abort (Unit {0}) → Authority → Loop Governed
  start (err class) s = (err (abort class), s)
  start (ok _) s = after_first (propose_first setup.proposal s)

  abbrev pub installed_given : Option InstalledHybrid → Result Abort (Unit {0})
  installed_given none = err schema_invalid
  installed_given (some _) = ok tt

  -- `run_governing_loop`. One round more than the revisions is enough fuel.
  unfoldable pub run_governing_loop : Authority → Loop Governed
  run_governing_loop s = start (installed_given setup.installed >> check 0) s
