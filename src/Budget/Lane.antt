-- ===== src/Budget/Lane.antt =====
-- ai4/constrain/_v07_3a/budget.py: the life of one examiner call in the ledger, from its reservation
-- to its commit or its release, with no other call in between.
use ai4_constrain.Prelude.{
  ℕ, ◌+◌, ◌≡◌, ◌⊎◌, inl, inr, refl, not, some, [], arith, lookup, put, lookup-put, if-intro, ==_iff,
  ltb, subst, sym, ◌∙◌,
}
use ai4_constrain.Prelude.Int.{ℤ, pos, ltb_ℤ}
use ai4_constrain.Prelude.Result.{Result, ok, err}
use ai4_constrain.Abort.{
  Abort, RawNumber, finite, reject_authority_kwargs, require_finite_number, require_nonnegative,
  spend_reservation_rejection, wall_deadline_exhausted,
}
use ai4_constrain.Budget.{
  examiner_call, executing, committed, Reservation, Authority, Outcome, reserve_examiner_call,
  reserve, reserve_locked, new_handle, amount_of, open_reservation, begin_execute, execute_locked,
  start_reservation, commit, commit_locked, settle_reservation, release, release_locked,
  require_handle, handle_of, take_lane, free_lane, settle_lane, store, lane_full, available,
}

-- Nothing more is reserved than before, and some proposals and examinations more are committed.
abbrev pub Moved : ℕ → ℕ → Authority → Authority → Type 0
Moved proposals examinations s s' =
    (s'.usd_reserved ≡ s.usd_reserved)
    × (s'.proposal_reserved ≡ s.proposal_reserved)
    × (s'.examiner_reserved ≡ s.examiner_reserved)
    × (s'.proposal_committed ≡ s.proposal_committed + proposals)
    × (s'.examiner_committed ≡ s.examiner_committed + examinations)

-- As if there had been no call.
abbrev pub Restored : Authority → Authority → Type 0
Restored s s' = Moved 0 0 s s' × (s'.usd_committed ≡ s.usd_committed)

-- One examination of that cost was booked.
abbrev pub Charged : ℕ → Authority → Authority → Type 0
Charged actual s s' = Moved 0 1 s s' × (s'.usd_committed ≡ s.usd_committed + actual)

pub handle_in : ℕ → Authority → Reservation
handle_in amount s = record (new_handle examiner_call amount s) { state = executing }

-- The authority while the examiner runs.
abbrev pub Running : ℕ → Authority → Authority → Type 0
Running amount s t =
    (lookup s.next_id t.reservations
      ≡ some (record {
        reservation_id = s.next_id;
        kind = examiner_call;
        reserved_usd = amount;
        state = executing;
      }))
    × (t.usd_reserved ≡ s.usd_reserved + amount)
    × (t.proposal_reserved ≡ s.proposal_reserved)
    × (t.usd_committed ≡ s.usd_committed)
    × (t.proposal_committed ≡ s.proposal_committed)
    × (t.examiner_reserved ≡ s.examiner_reserved + 1)
    × (t.examiner_committed ≡ s.examiner_committed)

pub handle_in_parts :
    (amount : ℕ) (s : Authority)
    → ((handle_in amount s).reservation_id ≡ s.next_id) × ((handle_in amount s).state ≡ executing)
unfolding handle_in new_handle
handle_in_parts amount s = (refl, refl)

module _ (amount : ℕ) (s t : Authority) (running : Running amount s t) where
  handle_of-running : handle_of [] (some (handle_in amount s)) t ≡ ok (handle_in amount s)
  unfolding handle_in handle_of require_handle reject_authority_kwargs new_handle
  handle_of-running = ground (arith, running.0)

  release_locked-Restored : Restored s (release_locked (handle_in amount s) t)
  unfolding handle_in release_locked free_lane store new_handle
  release_locked-Restored =
      ((omega arith, omega arith, omega arith, omega arith, omega arith), omega arith)

  release-running :
      (release [] (some (handle_in amount s)) t).1 ≡ release_locked (handle_in amount s) t
  unfolding handle_in release new_handle
  release-running = rw (handle_of-running, release) refl

  pub release-Restored : Restored s (release [] (some (handle_in amount s)) t).1
  release-Restored = subst (Restored s) (sym release-running) release_locked-Restored

  abbrev settled : ℕ → Authority
  settled actual = settle_reservation (handle_in amount s) actual t

  settled-Charged : (actual : ℕ) → Charged actual s (settled actual)
  unfolding handle_in settle_reservation settle_lane store new_handle
  settled-Charged actual =
      ((omega arith, omega arith, omega arith, omega arith, omega arith), omega arith)

  -- The entry says that the call is committed.
  abbrev pub Marked : Authority → Type 0
  Marked s' =
      (r : Reservation) × (lookup s.next_id s'.reservations ≡ some r) × (r.state ≡ committed)

  settled-Marked : (actual : ℕ) → Marked (settled actual)
  unfolding handle_in settle_reservation settle_lane store new_handle
  settled-Marked actual =
      let r : Reservation = record {
        reservation_id = s.next_id;
        kind = examiner_call;
        reserved_usd = actual;
        state = committed;
      } in
      (
        r,
        lookup-put s.next_id s.next_id r t.reservations
            ∙ rw ((==_iff s.next_id s.next_id).1 refl) refl,
        refl,
      )

  -- The charge is booked, and if it breaks the cap the call raises as well.
  abbrev pub CommitOutcome : ℕ → Outcome → Type 0
  CommitOutcome actual o =
      Charged actual s o.1
      × Marked o.1
      × (((r : Reservation) × (o.0 ≡ ok r)) ⊎ (o.0 ≡ err spend_reservation_rejection))

  pub commit-CommitOutcome :
      (actual : ℕ)
      → CommitOutcome actual (commit [] (some (handle_in amount s)) (finite (pos actual)) t)
  unfolding handle_in commit commit_locked amount_of require_finite_number require_nonnegative
      new_handle
  commit-CommitOutcome actual =
      rw (handle_of-running, commit)
        (if-intro (CommitOutcome actual)
          (ltb (settled actual).max_usd (settled actual).usd_committed) _ _
          (λ _. (settled-Charged actual, settled-Marked actual, inr refl))
          λ _. (settled-Charged actual, settled-Marked actual, inl (_, refl)))

-- A call that is turned away leaves the ledger as it was, or a reservation is opened.
abbrev pub Opened : Authority → Outcome → Type 0
Opened s o =
    ((e : Abort) × (o ≡ (err e, s)))
    ⊎ ((amount : ℕ) × (o ≡ (
      ok (new_handle examiner_call amount s),
      open_reservation (new_handle examiner_call amount s) s,
    )))

reserve_locked-Opened :
    (amount : ℕ) (now : ℤ) (s : Authority) → Opened s (reserve_locked examiner_call amount now s)
unfolding reserve_locked
reserve_locked-Opened amount now s =
    if-intro (Opened s) (not (ltb_ℤ now s.deadline)) _ _ (λ _. inl (_, refl))
      λ _.
        if-intro (Opened s) (lane_full examiner_call s) _ _ (λ _. inl (_, refl))
          λ _.
            if-intro (Opened s) (ltb_ℤ (available s) (pos amount)) _ _ (λ _. inl (_, refl))
              λ _. inr (amount, refl)

pub reserve_examiner_call-Opened :
    (usd : RawNumber) (now : ℤ) (s : Authority) → Opened s (reserve_examiner_call [] usd now s)
unfolding reserve_examiner_call reject_authority_kwargs reserve
reserve_examiner_call-Opened usd now s = given (amount_of usd) refl
  where
    given : (r : Result Abort ℕ) → amount_of usd ≡ r → Opened s (reserve_examiner_call [] usd now s)
    given (err e) same = inl (e, rw (same) refl)
    given (ok amount) same = subst (Opened s) (rw (same) refl) (reserve_locked-Opened amount now s)

module _ (amount : ℕ) (s : Authority) where
  abbrev opened : Authority
  opened = open_reservation (new_handle examiner_call amount s) s

  handle_of-opened :
      handle_of [] (some (new_handle examiner_call amount s)) opened
      ≡ ok (new_handle examiner_call amount s)
  unfolding handle_of require_handle reject_authority_kwargs new_handle open_reservation take_lane
      store lookup put
  handle_of-opened = ground (
    arith,
    lookup-put s.next_id s.next_id (new_handle examiner_call amount s) s.reservations,
    ==_iff s.next_id s.next_id,
  )

  late-Restored : Restored s (release_locked (new_handle examiner_call amount s) opened)
  unfolding release_locked free_lane store new_handle open_reservation take_lane
  late-Restored = ((omega arith, omega arith, omega arith, omega arith, omega arith), refl)

  started : Authority
  started = start_reservation (new_handle examiner_call amount s) opened

  started-Running : Running amount s started
  unfolding started start_reservation new_handle open_reservation take_lane store
  started-Running =
      let r : Reservation = record (new_handle examiner_call amount s) { state = executing } in
      (
        lookup-put s.next_id s.next_id r opened.reservations
            ∙ rw ((==_iff s.next_id s.next_id).1 refl) refl,
        refl,
        refl,
        refl,
        refl,
        refl,
        refl,
      )

  -- The examiner starts, or the deadline has passed and the reservation is given back.
  abbrev pub Begun : Outcome → Type 0
  Begun o =
      ((e : Abort) × (t : Authority) × (o ≡ (err e, t)) × Restored s t)
      ⊎ ((t : Authority) × (o ≡ (ok (handle_in amount s), t)) × Running amount s t)

  pub begin_execute-Begun :
      (later : ℤ)
      → Begun (
          begin_execute []
            (some (new_handle examiner_call amount s))
            later
            (open_reservation (new_handle examiner_call amount s) s))
  unfolding begin_execute execute_locked new_handle handle_in started
  begin_execute-Begun later =
      rw (handle_of-opened, begin_execute)
        (if-intro Begun (not (ltb_ℤ later opened.deadline)) _ _
          (λ _. inl (wall_deadline_exhausted, _, refl, late-Restored))
          λ _. inr (started, refl, started-Running))
