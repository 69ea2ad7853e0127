-- ===== src/Hybrid/Loop/Accounts.antt =====
-- ai4/constrain/_v07_3c/loop.py: the account of a run, through a round and where the loop stops.
use ai4_constrain.Prelude.{
  ℕ, ◌+◌, ◌*◌, ◌≤◌, ◌≡◌, refl, ◌⊎◌, inl, inr, length, String, if-intro, arith,
}
use ai4_constrain.Prelude.Result.{Result, ok, err}
use ai4_constrain.Abort.{Abort, schema_invalid, proposal_completion_exhausted}
use ai4_constrain.Budget.{Authority}
use ai4_constrain.Budget.Lane.{Moved}
use ai4_constrain.Budget.Adapter.{Reply}
use ai4_constrain.Control.{
  Machine, m_accept, m_revise_call, m_refuse, m_timeout, m_emit_exhausted, is_revise,
}
use ai4_constrain.Control.Agent.{TerminalState, accepted, revised, refused, repeated}
use ai4_constrain.Hybrid.Examine.{Examined}
use ai4_constrain.Hybrid.Loop.{
  RoundResult, Governed, LoopError, abort, wall_error, control_error, dict_key_error, out_of_fuel,
  Outside, Setup,
}
use ai4_constrain.Hybrid.Loop.Step.{Loop, after_examination, checked_round, Progress, finish, stop}
use ai4_constrain.Hybrid.Loop.Raised.{Raises, Raised, judge-Raised}
use ai4_constrain.Hybrid.Loop.Calls.{ExaminedMoves, observe_semantic-moves}

-- How many examinations a run of so many revisions has made: the candidate that is repeated is not
-- examined again.
abbrev pub examined : TerminalState → ℕ → ℕ
examined repeated used = used
examined _ used = used + 1

-- What a run has booked, by how it ended; the model never runs out of fuel.
abbrev pub Counts : ℕ → ℕ → ℕ → Result LoopError Governed → Type 0
Counts max proposals examinations (ok g) =
    (length g.completions ≡ proposals)
    × (proposals ≡ g.used + 1)
    × (length g.steps ≡ g.used)
    × (g.used ≤ max)
    × (examinations ≡ examined g.state g.used)
Counts max proposals examinations (err out_of_fuel) = ⊥
Counts max proposals examinations (err _) = (proposals ≤ max + 1) × (examinations ≤ proposals)

-- Nothing is left reserved, and the calls committed are the ones that were made.
abbrev pub Accounted : ℕ → Authority → Loop Governed → Type 0
Accounted max s o =
    (proposals : ℕ) × (examinations : ℕ) × Moved proposals examinations s o.1
    × Counts max proposals examinations o.0

failed-Counts :
    (max p e : ℕ) (error : LoopError)
    → Raises error
    → p ≤ max + 1
    → e ≤ p
    → Counts max p e (err error)
failed-Counts max p e (abort class) r h k = (h, k)
failed-Counts max p e (wall_error w) r h k = (h, k)
failed-Counts max p e (control_error c) r h k = (h, k)
failed-Counts max p e dict_key_error r h k = (h, k)
failed-Counts max p e out_of_fuel r h k = absurd r

module _ {E : Type 0} (setup : Setup) (outside : Outside E) (s : Authority) where
  abbrev pub max : ℕ
  max = setup.max_revision_rounds

  -- Where the loop stands before a round: `used` revisions, one proposal more.
  pub record At (progress : Progress setup outside) (used : ℕ) (t : Authority) : Type 0 where
    pub proposals : length progress.0 ≡ used + 1
    pub revisions : length progress.1 ≡ used
    pub within : used ≤ max
    pub moved : Moved (used + 1) used s t

  -- What a round leaves: it raises, or it has booked one examination.
  abbrev pub Rounded : ℕ → Loop RoundResult → Type 0
  Rounded used o =
      ((last : RoundResult) × (o.0 ≡ ok last) × Moved (used + 1) (used + 1) s o.1)
      ⊎ ((error : LoopError) × (examinations : ℕ) × (o.0 ≡ err error)
          × Raises error
          × (examinations ≤ used + 1)
          × Moved (used + 1) examinations s o.1)

  judged :
      (used : ℕ) (r : Result LoopError RoundResult) (t : Authority)
      → Raised r
      → Moved (used + 1) (used + 1) s t
      → Rounded used (r, t)
  judged used (ok last) t raises moved = inl (last, refl, moved)
  judged used (err error) t raises moved = inr (error, used + 1, refl, raises, omega arith, moved)

  after_examination-Rounded :
      (used : ℕ) (current : String) (completion : Reply) (t : Authority) (done : Examined)
      → Moved (used + 1) used s t
      → ExaminedMoves t done
      → Rounded used (after_examination setup outside used current completion done)
  unfolding after_examination
  after_examination-Rounded used current completion t (err class, u) moved (inl (failed, more)) =
      inr (abort class, used, refl, tt, omega arith, omega arith)
  after_examination-Rounded used current completion t (err class, u) moved (inr more) =
      inr (abort class, used + 1, refl, tt, omega arith, omega arith)
  after_examination-Rounded used current completion t (ok bound, u) moved (inl (failed, more)) =
      absurd cc
  after_examination-Rounded used current completion t (ok bound, u) moved (inr more) =
      judged used _ u (judge-Raised setup used current completion bound) (omega arith)

  pub checked_round-Rounded :
      (used : ℕ) (current : String) (completion : Reply) (checked : Result Abort (Unit {0}))
      (t : Authority)
      → Moved (used + 1) used s t
      → Rounded used (checked_round setup outside used current completion checked t)
  unfolding checked_round
  checked_round-Rounded used current completion (err class) t moved =
      inr (abort class, used, refl, tt, omega arith, moved)
  checked_round-Rounded used current completion (ok tt) t moved =
      after_examination-Rounded used current completion t _ moved (
        observe_semantic-moves setup.lower setup.locked_prompt setup.reserve_usd_examiner
          (outside.examination used current) (outside.clock (4 * used + 2))
          (outside.clock (4 * used + 3)) t)

  abbrev pub Done : Loop Governed → Type 0
  Done o = Accounted max s o

  pub raised-Done :
      (p e : ℕ) (error : LoopError) (t : Authority)
      → Raises error
      → p ≤ max + 1
      → e ≤ p
      → Moved p e s t
      → Done (err error, t)
  raised-Done p e error t raises h k moved = (p, e, moved, failed-Counts max p e error raises h k)

  pub aborted-Done :
      (p e : ℕ) (class : Abort) (t : Authority)
      → p ≤ max + 1
      → e ≤ p
      → Moved p e s t
      → Done (err (abort class), t)
  aborted-Done p e class t h k moved = raised-Done p e (abort class) t tt h k moved

  pub finish-Done :
      (progress : Progress setup outside) (used : ℕ) (last : RoundResult) (state : TerminalState)
      (reason : String) (t : Authority) (e : ℕ)
      → length progress.0 ≡ used + 1
      → length progress.1 ≡ used
      → used ≤ max
      → e ≡ examined state used
      → Moved (used + 1) e s t
      → Done (finish setup outside progress used last state reason, t)
  unfolding finish
  finish-Done progress used last state reason t e proposals revisions within rounds moved =
      (used + 1, e, moved, (proposals, refl, revisions, within, rounds))

  pub stop-Done :
      (machine : Machine) (progress : Progress setup outside) (used : ℕ) (last : RoundResult)
      (t : Authority)
      → length progress.0 ≡ used + 1
      → length progress.1 ≡ used
      → used ≤ max
      → Moved (used + 1) (used + 1) s t
      → Done (stop setup outside machine progress used last, t)
  unfolding stop
  stop-Done m_accept progress used last t p r w moved =
      finish-Done progress used last accepted _ t (used + 1) p r w refl moved
  stop-Done m_refuse progress used last t p r w moved =
      finish-Done progress used last refused _ t (used + 1) p r w refl moved
  stop-Done m_emit_exhausted progress used last t p r w moved =
      if-intro (λ g. Done (g, t)) (is_revise last.decision.action) _ _
        (λ _. finish-Done progress used last revised _ t (used + 1) p r w refl moved)
        λ _.
          aborted-Done (used + 1) (used + 1) proposal_completion_exhausted t (omega arith)
            (omega arith) moved
  stop-Done m_timeout progress used last t p r w moved =
      if-intro (λ g. Done (g, t)) (is_revise last.decision.action) _ _
        (λ _. aborted-Done (used + 1) (used + 1) schema_invalid t (omega arith) (omega arith) moved)
        λ _.
          aborted-Done (used + 1) (used + 1) proposal_completion_exhausted t (omega arith)
            (omega arith) moved
  stop-Done m_revise_call progress used last t p r w moved =
      aborted-Done (used + 1) (used + 1) schema_invalid t (omega arith) (omega arith) moved
