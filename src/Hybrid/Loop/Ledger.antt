-- ===== src/Hybrid/Loop/Ledger.antt =====
-- ai4/constrain/_v07_3c/loop.py: a governing loop ends, and what it leaves in the ledger.
use ai4_constrain.Prelude.{
  ℕ, zero, suc, ◌+◌, ◌*◌, ◌≤◌, ◌<◌, ◌≡◌, refl, inl, inr, true, false, Option, none, some, [], ◌∷◌,
  length, length-append, String, str_eq, ltb, if-intro, subst, arith,
}
use ai4_constrain.Prelude.Result.{Result, ok, err}
use ai4_constrain.Abort.{Abort, identity_drift, backend_error}
use ai4_constrain.Budget.{Authority}
use ai4_constrain.Budget.Lane.{Moved}
use ai4_constrain.Budget.Adapter.{Reply, aborted, provider_failed, Called}
use ai4_constrain.Control.{
  Machine, m_accept, m_revise_call, m_refuse, m_timeout, m_emit_exhausted, ControlError,
  LoopDecision, next_loop_action,
}
use ai4_constrain.Control.Agent.{repeated}
use ai4_constrain.Control.Decisions.{next_loop_action-revise_call}
use ai4_constrain.Hybrid.Loop.{RoundResult, Governed, LoopError, control_error, Outside, Setup}
use ai4_constrain.Hybrid.Loop.Step.{
  Loop, check, round, Progress, after_revision, is_revise_call, move, act, loop, propose_first,
  check_first, enter, after_first, start, run_governing_loop, revision_step,
}
use ai4_constrain.Hybrid.Loop.Raised.{Raises}
use ai4_constrain.Hybrid.Loop.Calls.{CalledMoves, call-CalledMoves}
use ai4_constrain.Hybrid.Loop.Accounts.{
  Accounted, At, Rounded, Done, raised-Done, aborted-Done, finish-Done, stop-Done,
  checked_round-Rounded,
}

module _ {E : Type 0} (setup : Setup) (outside : Outside E) (s : Authority) where
  -- What the rounds that follow do from where they stand.
  GoesOn : (Progress setup outside → ℕ → String → Reply → Authority → Loop Governed) → ℕ → Type 0
  GoesOn again used =
      (progress : Progress setup outside) (current : String) (completion : Reply) (t : Authority)
      → (At setup outside s) progress used t
      → (Done setup outside s) (again progress used current completion t)

  after_revision-Done :
      (again : Progress setup outside → ℕ → String → Reply → Authority → Loop Governed)
      (progress : Progress setup outside) (used : ℕ) (last : RoundResult) (t : Authority)
      (done : Called E)
      → length progress.0 ≡ used + 1
      → length progress.1 ≡ used
      → used < setup.max_revision_rounds
      → Moved (used + 1) (used + 1) s t
      → CalledMoves t done
      → GoesOn again (used + 1)
      → (Done setup outside s) (after_revision setup outside again progress used last done)
  unfolding after_revision GoesOn
  after_revision-Done again progress used last t (err (aborted class), u) p r w moved (inl (f, m))
        on =
      (aborted-Done setup outside s) (used + 1) (used + 1) class u (omega arith) (omega arith)
        (omega arith)
  after_revision-Done again progress used last t (err (aborted class), u) p r w moved (inr m) on =
      (aborted-Done setup outside s) (used + 2) (used + 1) class u (omega arith) (omega arith)
        (omega arith)
  after_revision-Done again progress used last t (err (provider_failed x), u) p r w moved
        (inl (f, m)) on =
      (aborted-Done setup outside s) (used + 1) (used + 1) backend_error u (omega arith)
        (omega arith) (omega arith)
  after_revision-Done again progress used last t (err (provider_failed x), u) p r w moved (inr m)
        on =
      (aborted-Done setup outside s) (used + 2) (used + 1) backend_error u (omega arith)
        (omega arith) (omega arith)
  after_revision-Done again progress used last t (ok answer, u) p r w moved (inl (f, m)) on =
      absurd cc
  after_revision-Done again progress used last t (ok answer, u) p r w moved (inr m) on =
      let proposals = length-append progress.0 (answer ∷ []) in
      let revisions =
        length-append progress.1 (revision_step setup outside used last answer ∷ []) in
      let now : Moved (used + 1 + 1) (used + 1) s u = omega arith in
      if-intro (Done setup outside s) (str_eq answer.text last.text) _ _
        (λ _.
          (finish-Done setup outside s) _ (used + 1) last repeated "repeated candidate" u (used + 1)
            (omega (arith, proposals)) (omega (arith, revisions)) (omega arith) refl now)
        λ _.
          if-intro (Done setup outside s) (ltb setup.max_revision_rounds (used + 1)) _ _
            (λ over.
              (aborted-Done setup outside s) (used + 2) (used + 1) identity_drift u (omega arith)
                (omega arith) (omega arith))
            λ _. on _ answer.text answer u (record {
              proposals = omega (arith, proposals);
              revisions = omega (arith, revisions);
              within = omega arith;
              moved = now;
            })

  move-Done :
      (again : Progress setup outside → ℕ → String → Reply → Authority → Loop Governed)
      (progress : Progress setup outside) (used : ℕ) (last : RoundResult)
      (parsed : Result ControlError LoopDecision) (t : Authority)
      → length progress.0 ≡ used + 1
      → length progress.1 ≡ used
      → used ≤ setup.max_revision_rounds
      → Moved (used + 1) (used + 1) s t
      → (used < setup.max_revision_rounds → GoesOn again (used + 1))
      → (Done setup outside s) (move setup outside again progress used last parsed t)
  unfolding move
  move-Done again progress used last (err e) t p r w moved on =
      (raised-Done setup outside s) (used + 1) (used + 1) (control_error e) t tt (omega arith)
        (omega arith) moved
  move-Done again progress used last (ok decision) t p r w moved on =
      let machine = next_loop_action decision used setup.max_revision_rounds true false in
      if-intro (Done setup outside s) (is_revise_call setup outside machine) _ _
        (λ revising.
          let less =
            (next_loop_action-revise_call decision used setup.max_revision_rounds true false
              (is_revise_call_lem machine revising)).2 in
          after_revision-Done again progress used last t _ p r less moved
            (call-CalledMoves setup.reserve_usd_proposal
              (outside.reply used last.text last.feedback) (outside.clock (4 * used + 4))
              (outside.clock (4 * used + 5)) t)
            (on less))
        λ _. (stop-Done setup outside s) machine progress used last t p r w moved
    where
      is_revise_call_lem :
          (machine : Machine)
          → is_revise_call setup outside machine ≡ true
          → machine ≡ m_revise_call
      is_revise_call_lem m_revise_call h = refl
      is_revise_call_lem m_accept h = cc
      is_revise_call_lem m_refuse h = cc
      is_revise_call_lem m_timeout h = cc
      is_revise_call_lem m_emit_exhausted h = cc

  act-Done :
      (again : Progress setup outside → ℕ → String → Reply → Authority → Loop Governed)
      (progress : Progress setup outside) (used : ℕ) (o : Loop RoundResult) (t : Authority)
      → (At setup outside s) progress used t
      → (Rounded setup outside s) used o
      → (used < setup.max_revision_rounds → GoesOn again (used + 1))
      → (Done setup outside s) (act setup outside again progress used o)
  unfolding act
  act-Done again progress used (ok last, u) t at (inl (l, same, moved)) on =
      move-Done again progress used last _ u at.proposals at.revisions at.within moved on
  act-Done again progress used (ok last, u) t at (inr (e, k, same, raises, few, moved)) on =
      absurd cc
  act-Done again progress used (err e, u) t at (inl (l, same, moved)) on = absurd cc
  act-Done again progress used (err e, u) t at (inr (error, k, same, raises, few, moved)) on =
      (raised-Done setup outside s) (used + 1) k e u (subst Raises (error_same same) raises)
        (omega (arith, at)) few moved
    where
      error_same :
          {e error : LoopError}
          → ◌≡◌ {A = Result LoopError RoundResult} (err e) (err error)
          → error ≡ e
      error_same same = cc

  -- Fuel for the rounds that are left.
  loop-Done :
      (fuel : ℕ) (progress : Progress setup outside) (used : ℕ) (current : String)
      (completion : Reply) (t : Authority)
      → (At setup outside s) progress used t
      → fuel + used ≡ suc setup.max_revision_rounds
      → (Done setup outside s) (loop setup outside fuel progress used current completion t)
  unfolding loop round GoesOn
  loop-Done zero progress used current completion t at fuel = absurd (omega (arith, at))
  loop-Done (suc n) progress used current completion t at fuel =
      act-Done (loop setup outside n) progress used _ t at
        ((checked_round-Rounded setup outside s) used current completion
          (check setup outside (used + 2)) t at.moved)
        λ less progress' current' completion' t' at'.
          loop-Done n progress' (used + 1) current' completion' t' at' (omega arith)

  enter-Done :
      (first : Reply) (checked : Result Abort (Unit {0})) (t : Authority)
      → Moved 1 0 s t
      → (Done setup outside s) (enter setup outside first checked t)
  unfolding enter
  enter-Done first (err class) t moved =
      (aborted-Done setup outside s) 1 0 class t (omega arith) (omega arith) moved
  enter-Done first (ok tt) t moved =
      loop-Done (suc setup.max_revision_rounds) (first ∷ [], []) 0 first.text first t
        (record { proposals = refl; revisions = refl; within = omega arith; moved = moved })
        (omega arith)

  after_first-Done :
      (done : Called E)
      → CalledMoves s done
      → (Done setup outside s) (after_first setup outside done)
  unfolding after_first
  after_first-Done (err (aborted class), t) (inl (f, m)) =
      (aborted-Done setup outside s) 0 0 class t (omega arith) (omega arith) m
  after_first-Done (err (aborted class), t) (inr m) =
      (aborted-Done setup outside s) 1 0 class t (omega arith) (omega arith) m
  after_first-Done (err (provider_failed x), t) (inl (f, m)) =
      (aborted-Done setup outside s) 0 0 backend_error t (omega arith) (omega arith) m
  after_first-Done (err (provider_failed x), t) (inr m) =
      (aborted-Done setup outside s) 1 0 backend_error t (omega arith) (omega arith) m
  after_first-Done (ok first, t) (inl (f, m)) = absurd cc
  after_first-Done (ok first, t) (inr m) = enter-Done first (check_first setup outside first) t m

  propose_first-CalledMoves :
      (proposal : Option String) → CalledMoves s (propose_first setup outside proposal s)
  unfolding propose_first
  propose_first-CalledMoves none =
      call-CalledMoves setup.reserve_usd_proposal outside.first_reply (outside.clock 0)
        (outside.clock 1) s
  propose_first-CalledMoves (some text) = call-CalledMoves 0 _ (outside.clock 0) (outside.clock 1) s

  start-Done :
      (checked : Result Abort (Unit {0})) → (Done setup outside s) (start setup outside checked s)
  unfolding start
  start-Done (err class) =
      (aborted-Done setup outside s) 0 0 class s (omega arith) (omega arith)
        (refl, refl, refl, omega arith, omega arith)
  start-Done (ok tt) = after_first-Done _ (propose_first-CalledMoves setup.proposal)

-- A governing loop always ends, whatever the provider and the examiner do: the model's fuel is
-- enough. However it ends, nothing of its own is left reserved. If it returns, it made one proposal
-- more than the revisions it used, which are at most the rounds allowed, and booked exactly these
-- proposals, and one examination for each candidate but one that only repeats the last; if it raises,
-- it booked no more proposals than that, and no more examinations than proposals.
pub run_governing_loop-Accounted :
    {E : Type 0} (setup : Setup) (outside : Outside E) (s : Authority)
    → Accounted setup.max_revision_rounds s (run_governing_loop setup outside s)
unfolding run_governing_loop
run_governing_loop-Accounted setup outside s = start-Done setup outside s _
