-- ===== src/Hybrid/Examine/Settled.antt =====
-- ai4/constrain/_v07_3c/loop.py, `_observe_semantic`: what an examination leaves in the ledger.
use ai4_constrain.Prelude.{
  ℕ, ◌≡◌, ◌⊎◌, arith, inl, inr, refl, some, [], String, lookup, subst, sym, ap, ◌∙◌, true, false,
}
use ai4_constrain.Prelude.Int.{ℤ}
use ai4_constrain.Prelude.Result.{Result, ok, err}
use ai4_constrain.Abort.{Abort, RawNumber, spend_reservation_rejection}
use ai4_constrain.Budget.{
  examiner_call, new_handle, open_reservation, begin_execute, reserve_examiner_call, Reservation,
  Authority, Outcome, release,
}
use ai4_constrain.Budget.Lane.{
  Restored, Charged, handle_in, handle_in_parts, Running, release-Restored, Marked, CommitOutcome,
  commit-CommitOutcome, Opened, reserve_examiner_call-Opened, Begun, begin_execute-Begun,
}
use ai4_constrain.Semantic.Findings.{BoundSemanticFindings}
use ai4_constrain.Hybrid.Examine.{
  ExaminerFailure, Examined, Examination, known_answer, translate_examiner_failure, release_entry,
  release_unless_committed, failed_after, after_commit, after_answer, after_begin, after_reserve,
  observe_semantic, is_committed,
}

abbrev pub Answer : Type 0
Answer = Result ExaminerFailure (BoundSemanticFindings × ℕ)

-- The answer was good, and its known cost was booked, whether or not that broke the cap.
abbrev pub Spent : Answer → Authority → Examined → Type 0
Spent answer s done =
    (bound : BoundSemanticFindings) × (actual : ℕ) × (answer ≡ ok (bound, actual))
    × Charged actual s done.1
    × ((done.0 ≡ ok bound) ⊎ (done.0 ≡ err spend_reservation_rejection))

-- The call was reserved and begun.
abbrev pub Started : Outcome → ℤ → Type 0
Started reserved later =
    (handle : Reservation) × (started : Reservation) × (reserved.0 ≡ ok handle)
    × ((begin_execute [] (some handle) later reserved.1).0 ≡ ok started)

-- Why an examination is turned away: it was not reserved, it was not begun, or, once begun, its answer
-- failed, which is translated.
abbrev pub Refused : (String → String) → Answer → Outcome → ℤ → Abort → Type 0
Refused lower answer reserved later class =
    (reserved.0 ≡ err class)
    ⊎ (((handle : Reservation) × (reserved.0 ≡ ok handle)
          × ((begin_execute [] (some handle) later reserved.1).0 ≡ err class))
        ⊎ (Started reserved later
            × ((failure : ExaminerFailure) × (answer ≡ err failure)
                × (class ≡ translate_examiner_failure lower failure))))

abbrev pub Settled : (String → String) → Answer → Outcome → ℤ → Authority → Examined → Type 0
Settled lower answer reserved later s done =
    ((class : Abort) × (done.0 ≡ err class)
      × Restored s done.1
      × Refused lower answer reserved later class)
    ⊎ (Started reserved later × Spent answer s done)

release_unless_committed_live :
    (handle : Reservation) (t : Authority) (r : Reservation)
    → lookup handle.reservation_id t.reservations ≡ some r
    → is_committed r.state ≡ false
    → is_committed handle.state ≡ false
    → release_unless_committed handle t ≡ (release [] (some handle) t).1
unfolding release_unless_committed release_entry
release_unless_committed_live handle t r found live mine =
    ap (λ o. release_entry o handle t) found ∙ rw (live, mine) refl

release_unless_committed_done :
    (handle : Reservation) (t : Authority) (r : Reservation)
    → lookup handle.reservation_id t.reservations ≡ some r
    → is_committed r.state ≡ true
    → release_unless_committed handle t ≡ t
unfolding release_unless_committed release_entry
release_unless_committed_done handle t r found done =
    ap (λ o. release_entry o handle t) found ∙ rw (done) refl

module _ (lower : String → String) (answer : Answer) (reserved : Outcome) (later : ℤ) (amount : ℕ)
    (s t : Authority) (running : Running amount s t) (ran : Started reserved later) where
  release_unless_committed-Restored : Restored s (release_unless_committed (handle_in amount s) t)
  release_unless_committed-Restored =
      let (id, state) = handle_in_parts amount s in
      subst (Restored s)
        (sym (
          release_unless_committed_live (handle_in amount s) t _
            (ap (λ k. lookup k t.reservations) id ∙ running.0) refl (ap is_committed state)))
        (release-Restored amount s t running)

  failed_after-Settled :
      (failure : ExaminerFailure)
      → answer ≡ err failure
      → Settled lower answer reserved later s
          (failed_after (translate_examiner_failure lower failure) (handle_in amount s) t)
  unfolding failed_after
  failed_after-Settled failure same = inl (
    translate_examiner_failure lower failure,
    refl,
    release_unless_committed-Restored,
    inr (inr (ran, (failure, same, refl))),
  )

  release_unless_committed-Marked :
      (s' : Authority)
      → Marked amount s t running s'
      → release_unless_committed (handle_in amount s) s' ≡ s'
  release_unless_committed-Marked s' (r, found, state) =
      release_unless_committed_done (handle_in amount s) s' r
        (ap (λ k. lookup k s'.reservations) (handle_in_parts amount s).0 ∙ found)
        (ap is_committed state)

  after_commit-Settled :
      (bound : BoundSemanticFindings) (actual : ℕ) (o : Outcome)
      → answer ≡ ok (bound, actual)
      → CommitOutcome amount s t running actual o
      → Settled lower answer reserved later s (after_commit (handle_in amount s) bound o)
  unfolding after_commit failed_after
  after_commit-Settled bound actual (ok r, s') good (charged, marked, how) =
      inr (ran, (bound, actual, good, charged, inl refl))
  after_commit-Settled bound actual (err class, s') good (charged, marked, inl (r, h)) = absurd cc
  after_commit-Settled bound actual (err class, s') good (charged, marked, inr h) = inr (
    ran,
    (
      bound,
      actual,
      good,
      subst (Charged actual s) (sym (release_unless_committed-Marked s' marked)) charged,
      inr (cc),
    ),
  )

  after_answer-Settled :
      (given : Answer)
      → answer ≡ given
      → Settled lower answer reserved later s (after_answer lower (handle_in amount s) given t)
  unfolding after_answer
  after_answer-Settled (err failure) same = failed_after-Settled failure same
  after_answer-Settled (ok (bound, actual)) same =
      after_commit-Settled bound actual _ same (commit-CommitOutcome amount s t running actual)

module _ (lower : String → String) (answer : Answer) (later : ℤ) (s : Authority) where
  -- The handle and the ledger of a reservation that was granted.
  abbrev handle_new : ℕ → Reservation
  handle_new amount = new_handle examiner_call amount s

  abbrev granted : ℕ → Outcome
  granted amount = (ok (handle_new amount), open_reservation (handle_new amount) s)

  after_begin-Settled :
      (amount : ℕ) (o : Outcome)
      → begin_execute [] (some (handle_new amount)) later (granted amount).1 ≡ o
      → Begun amount s o
      → Settled lower answer (granted amount) later s (after_begin lower answer o)
  unfolding after_begin
  after_begin-Settled amount o is (inl (e, t, same, restored)) =
      subst (λ z. Settled lower answer (granted amount) later s (after_begin lower answer z))
        (sym same)
        (inl (e, refl, restored, inr (inl (handle_new amount, refl, ap (λ z. z.0) (is ∙ same)))))
  after_begin-Settled amount o is (inr (t, same, running)) =
      subst (λ z. Settled lower answer (granted amount) later s (after_begin lower answer z))
        (sym same)
        (after_answer-Settled lower answer (granted amount) later amount s t running
          (handle_new amount, handle_in amount s, refl, ap (λ z. z.0) (is ∙ same)) answer refl)

  after_reserve-Settled :
      (o : Outcome)
      → Opened s o
      → Settled lower answer o later s (after_reserve lower answer later o)
  unfolding after_reserve
  after_reserve-Settled o (inl (e, same)) =
      subst (λ z. Settled lower answer z later s (after_reserve lower answer later z)) (sym same)
        (inl (e, refl, ((refl, refl, refl, omega arith, omega arith), refl), inl refl))
  after_reserve-Settled o (inr (amount, same)) =
      subst (λ z. Settled lower answer z later s (after_reserve lower answer later z)) (sym same)
        (after_begin-Settled amount _ refl (begin_execute-Begun amount s later))

pub observe_semantic-Settled :
    (lower : String → String) (locked_prompt : String) (usd : RawNumber) (x : Examination)
    (now later : ℤ) (s : Authority)
    → Settled lower
        (known_answer locked_prompt x)
        (reserve_examiner_call [] usd now s)
        later
        s
        (observe_semantic lower locked_prompt usd x now later s)
unfolding observe_semantic
observe_semantic-Settled lower locked_prompt usd x now later s =
    after_reserve-Settled lower (known_answer locked_prompt x) later s _
      (reserve_examiner_call-Opened usd now s)
