-- ===== src/Hybrid/Loop/Safety.antt =====
-- ai4/constrain/_v07_3c/loop.py: what a governing loop lets out.
use ai4_constrain.Prelude.{
  ℕ, zero, suc, ◌+◌, ◌≤◌, ◌≡◌, refl, true, false, String, str_eq, ltb, if-intro, sym, ap, ◌∙◌,
}
use ai4_constrain.Prelude.Result.{Result, ok, err, Returns}
use ai4_constrain.Abort.{Abort}
use ai4_constrain.Budget.{Authority}
use ai4_constrain.Budget.Adapter.{Reply, aborted, provider_failed, Called}
use ai4_constrain.Shards.Arbitration.{all_passed, any_hard_failed}
use ai4_constrain.Control.{
  Machine, m_accept, m_revise_call, m_refuse, m_timeout, m_emit_exhausted, ControlError,
  LoopDecision, next_loop_action, is_revise, decide, in_loop_actions,
}
use ai4_constrain.Control.Decisions.{decide_lem}
use ai4_constrain.Control.Agent.{accepted, revised, refused}
use ai4_constrain.Hybrid.Examine.{Examined}
use ai4_constrain.Hybrid.Loop.{RoundResult, Governed, LoopError, Outside, Setup}
use ai4_constrain.Hybrid.Loop.Step.{
  Loop, check, after_examination, checked_round, round, Progress, finish, stop, after_revision,
  is_revise_call, move, act, loop, propose_first, check_first, enter, after_first, start,
  run_governing_loop,
}
use ai4_constrain.Hybrid.Loop.Judged.{
  Judged, judge-Judged, moves_accept, moves_refuse, is_revise_lem, Decided, decide-soft,
  decide-known, parsed-Decided,
}

module _ {E : Type 0} (setup : Setup) (outside : Outside E) where
  -- What is asked of a result by its terminal state.
  pub record IsGoverned (g : Governed) : Type 0 where
    pub judged : Judged setup g.last
    pub accepting : g.state ≡ accepted → all_passed g.last.walled ≡ true
    pub refusing : g.state ≡ refused → any_hard_failed g.last.walled ≡ true
    pub returning :
        g.state ≡ revised
        → setup.middleware.max_revision_rounds ≤ g.used
        → any_hard_failed g.last.walled ≡ false

  abbrev pub Safe : Result LoopError Governed → Type 0
  Safe (ok g) = IsGoverned g
  Safe (err _) = Unit

  abbrev Leaves : Loop Governed → Type 0
  Leaves o = Safe o.0

  stop-Safe :
      (machine : Machine) (progress : Progress setup outside) (used : ℕ) (last : RoundResult)
      (d : LoopDecision)
      → (Decided setup) used last d
      → next_loop_action d used setup.max_revision_rounds true false ≡ machine
      → Safe (stop setup outside machine progress used last)
  unfolding stop finish
  stop-Safe m_accept progress used last d (judged, made, action, requested) e =
      let same : last.decision.action
          ≡ (decide setup.middleware last.walled used false false).action =
        ap (λ c. c.action) made in
      let known = (decide-known setup) last.walled used in
      let accepts =
        moves_accept d used setup.max_revision_rounds (requested ∙ ap is_revise (sym action))
          (ap in_loop_actions (action ∙ same) ∙ known) e in
      record {
        judged = judged;
        accepting = λ _.
            ((decide_lem setup.middleware last.walled used false false).0
              (sym (action ∙ same) ∙ accepts)).0;
        refusing = λ h. absurd cc;
        returning = λ h. absurd cc;
      }
  stop-Safe m_refuse progress used last d (judged, made, action, requested) e =
      let same : last.decision.action
          ≡ (decide setup.middleware last.walled used false false).action =
        ap (λ c. c.action) made in
      let refuses = moves_refuse d used setup.max_revision_rounds e in
      record {
        judged = judged;
        accepting = λ h. absurd cc;
        refusing = λ _.
            (decide_lem setup.middleware last.walled used false false).3
              (sym (action ∙ same) ∙ refuses);
        returning = λ h. absurd cc;
      }
  stop-Safe m_emit_exhausted progress used last d (judged, made, action, requested) e =
      let same : last.decision.action
          ≡ (decide setup.middleware last.walled used false false).action =
        ap (λ c. c.action) made in
      if-intro Safe (is_revise last.decision.action) _ _
        (λ revising. record {
          judged = judged;
          accepting = λ h. absurd cc;
          refusing = λ h. absurd cc;
          returning = λ _ late.
              (decide-soft setup) last.walled used
                (sym same ∙ is_revise_lem last.decision.action revising) late;
        })
        λ _. tt
  stop-Safe m_timeout progress used last d decided e =
      if-intro Safe (is_revise last.decision.action) _ _ (λ _. tt) λ _. tt
  stop-Safe m_revise_call progress used last d decided e = tt

  -- What the rounds that follow do.
  abbrev GoOn : (Progress setup outside → ℕ → String → Reply → Authority → Loop Governed) → Type 0
  GoOn again =
      (progress : Progress setup outside) (used : ℕ) (current : String) (completion : Reply)
      (s : Authority)
      → Leaves (again progress used current completion s)

  after_revision-Leaves :
      (again : Progress setup outside → ℕ → String → Reply → Authority → Loop Governed)
      (progress : Progress setup outside) (used : ℕ) (last : RoundResult) (done : Called E)
      → Judged setup last
      → GoOn again
      → Leaves (after_revision setup outside again progress used last done)
  unfolding after_revision finish
  after_revision-Leaves again progress used last (err (aborted class), s) judged on = tt
  after_revision-Leaves again progress used last (err (provider_failed e), s) judged on = tt
  after_revision-Leaves again progress used last (ok answer, s) judged on =
      if-intro Leaves (str_eq answer.text last.text) _ _
        (λ _. record {
          judged = judged;
          accepting = λ h. absurd cc;
          refusing = λ h. absurd cc;
          returning = λ h. absurd cc;
        })
        λ _.
          if-intro Leaves (ltb setup.max_revision_rounds (used + 1)) _ _ (λ _. tt) λ _. on _ _ _ _ _

  move-Leaves :
      (again : Progress setup outside → ℕ → String → Reply → Authority → Loop Governed)
      (progress : Progress setup outside) (used : ℕ) (last : RoundResult) (s : Authority)
      (parsed : Result ControlError LoopDecision)
      → ((d : LoopDecision) → parsed ≡ ok d → (Decided setup) used last d)
      → Judged setup last
      → GoOn again
      → Leaves (move setup outside again progress used last parsed s)
  unfolding move
  move-Leaves again progress used last s (err e) decided judged on = tt
  move-Leaves again progress used last s (ok d) decided judged on =
      let machine = next_loop_action d used setup.max_revision_rounds true false in
      if-intro Leaves (is_revise_call setup outside machine) _ _
        (λ _. after_revision-Leaves again progress used last _ judged on)
        λ _. stop-Safe machine progress used last d (decided d refl) refl

  -- What every result of a round satisfies.
  abbrev Rounds : ℕ → Loop RoundResult → Type 0
  Rounds used o =
      Returns
        (λ last.
          Judged setup last
          × (last.decision ≡ decide setup.middleware last.walled used false false))
        o.0

  checked_round-Rounds :
      (used : ℕ) (current : String) (completion : Reply) (checked : Result Abort (Unit {0}))
      (s : Authority)
      → Rounds used (checked_round setup outside used current completion checked s)
  unfolding checked_round after_examination
  checked_round-Rounds used current completion (err class) s = tt
  checked_round-Rounds used current completion (ok tt) s = examined-Rounds _
    where
      examined-Rounds :
          (done : Examined)
          → Rounds used (after_examination setup outside used current completion done)
      examined-Rounds (err class, t) = tt
      examined-Rounds (ok bound, t) = judge-Judged setup used current completion bound

  act-Leaves :
      (again : Progress setup outside → ℕ → String → Reply → Authority → Loop Governed)
      (progress : Progress setup outside) (used : ℕ) (o : Loop RoundResult)
      → Rounds used o
      → GoOn again
      → Leaves (act setup outside again progress used o)
  unfolding act
  act-Leaves again progress used (err e, s) rounds on = tt
  act-Leaves again progress used (ok last, s) (judged, made) on =
      move-Leaves again progress used last s _ ((parsed-Decided setup) used last judged made) judged
        on

  loop-Leaves : (fuel : ℕ) → GoOn (loop setup outside fuel)
  unfolding loop round
  loop-Leaves zero progress used current completion s = tt
  loop-Leaves (suc n) progress used current completion s =
      act-Leaves (loop setup outside n) progress used _
        (checked_round-Rounds used current completion (check setup outside (used + 2)) s)
        (loop-Leaves n)

  enter-Leaves :
      (first : Reply) (checked : Result Abort (Unit {0})) (s : Authority)
      → Leaves (enter setup outside first checked s)
  unfolding enter
  enter-Leaves first (err class) s = tt
  enter-Leaves first (ok tt) s = loop-Leaves _ _ _ _ _ _

  after_first-Leaves : (done : Called E) → Leaves (after_first setup outside done)
  unfolding after_first
  after_first-Leaves (err (aborted class), s) = tt
  after_first-Leaves (err (provider_failed e), s) = tt
  after_first-Leaves (ok first, s) = enter-Leaves first (check_first setup outside first) s

  start-Leaves :
      (checked : Result Abort (Unit {0})) (s : Authority) → Leaves (start setup outside checked s)
  unfolding start
  start-Leaves (err class) s = tt
  start-Leaves (ok tt) s = after_first-Leaves (propose_first setup outside setup.proposal s)

-- If a governing loop returns, the evaluation of its last result is the deterministic evaluation of
-- the text, fused with the bound findings, whose quotes match the text, rebuilt and walled by the
-- packaged rubrics, and the decision is the middleware's on it. The loop says accepted only if every
-- shard of that evaluation passed, refused only if a hard shard failed, and it returns a last
-- candidate as revised, with the middleware's rounds used up, only if no hard shard failed.
pub run_governing_loop-Governed :
    {E : Type 0} (setup : Setup) (outside : Outside E) (s : Authority)
    → Safe setup outside (run_governing_loop setup outside s).0
unfolding run_governing_loop
run_governing_loop-Governed setup outside s = start-Leaves setup outside _ s
