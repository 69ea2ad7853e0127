-- ===== src/Budget/Adapter.antt =====
-- ai4/constrain/_v07_3b/budget.py: the adapter that runs a provider's call against the ledger. A call
-- of the provider is given by what comes of it; the calls of other threads in between are left out.
use ai4_constrain.Prelude.{
  ℕ, ◌+◌, ◌≡◌, ◌⊎◌, inl, inr, refl, not, Option, none, some, List, [], String, arith, lookup, put,
  lookup-put, if-intro, ==_iff, ltb, subst, sym, ◌∙◌,
}
use ai4_constrain.Prelude.Int.{ℤ, pos, ltb_ℤ}
use ai4_constrain.Prelude.Result.{Result, ok, err, ◌>>◌}
use ai4_constrain.Abort.{
  wall_deadline_exhausted, Abort, schema_invalid, RawNumber, finite, reject_authority_kwargs,
  require_finite_number, require_nonnegative,
}
use ai4_constrain.Budget.{
  proposal_completion, executing, Reservation, Authority, Outcome, reserve_proposal_completion,
  reserve_examiner_call, reserve, reserve_locked, new_handle, amount_of, open_reservation,
  begin_execute, execute_locked, start_reservation, commit, commit_locked, settle_reservation,
  release, release_locked, require_handle, handle_of, take_lane, free_lane, settle_lane, store,
  RawInt, init, lane_full, available,
}

-- A completion: its cost is there if it has that attribute and it is not `None`.
pub record Reply : Type 0 where
  pub text : String
  pub model : String
  pub estimated_usd : Option RawNumber

pub data CallError (E : Type 0) : Type 0 where
  aborted : Abort → CallError E
  provider_failed : E → CallError E

unfoldable pub require_known_actual_usd : Option RawNumber → Result Abort ℕ
require_known_actual_usd none = err schema_invalid
require_known_actual_usd (some raw) = amount_of raw

abbrev pub Called : Type 0 → Type 0
Called E = Result (CallError E) Reply × Authority

module _ {E : Type 0} where
  -- `self._budget.release(executing)` and `raise`
  pub released_after : CallError E → Outcome → Called E
  released_after error (ok _, s) = (err error, s)
  released_after error (err e, s) = (err (aborted e), s)

  pub release_and_raise : CallError E → Reservation → Authority → Called E
  release_and_raise error handle s = released_after error (release [] (some handle) s)

  unfoldable pub committed_after : Reply → Outcome → Called E
  committed_after reply (ok _, s) = (ok reply, s)
  committed_after reply (err e, s) = (err (aborted e), s)

  unfoldable pub after_cost : Reservation → Reply → Result Abort ℕ → Authority → Called E
  after_cost handle reply (err e) s = release_and_raise (aborted e) handle s
  after_cost handle reply (ok actual) s =
      committed_after reply (commit [] (some handle) (finite (pos actual)) s)

  unfoldable pub after_reply : Reservation → Result E Reply → Authority → Called E
  after_reply handle (err e) s = release_and_raise (provider_failed e) handle s
  after_reply handle (ok reply) s =
      after_cost handle reply (require_known_actual_usd reply.estimated_usd) s

  unfoldable pub after_begin : Result E Reply → Outcome → Called E
  after_begin answer (err e, s) = (err (aborted e), s)
  after_begin answer (ok handle, s) = after_reply handle answer s

  unfoldable pub after_reserve : Result E Reply → ℤ → Outcome → Called E
  after_reserve answer now (err e, s) = (err (aborted e), s)
  after_reserve answer now (ok handle, s) =
      after_begin answer (begin_execute [] (some handle) now s)

  -- `_call` with a budget bound: `reserve_usd` was checked by `__init__`, and the clock is read twice.
  unfoldable pub call : (reserve_usd : ℕ) → Result E Reply → ℤ → ℤ → Authority → Called E
  call reserve_usd answer now later s =
      after_reserve answer later (reserve_proposal_completion [] (finite (pos reserve_usd)) now s)

  pub unbound_answer : Result E Reply → Result (CallError E) Reply
  unbound_answer (ok reply) = ok reply
  unbound_answer (err e) = err (provider_failed e)

  -- `_call`: with no budget bound the provider is called as it is.
  pub adapter_call :
      (reserve_usd : ℕ)
      → Result E Reply
      → ℤ
      → ℤ
      → Option Authority
      → Result (CallError E) Reply × Option Authority
  adapter_call reserve_usd answer now later none = (unbound_answer answer, none)
  adapter_call reserve_usd answer now later (some s) =
      let done = call reserve_usd answer now later s in (done.0, some done.1)

pub bind_shared_budget :
    List String → RawNumber → RawInt → RawInt → RawNumber → Result Abort Authority
bind_shared_budget kwargs deadline_monotonic max_proposal max_examiner max_usd = do
  reject_authority_kwargs kwargs
  init [] deadline_monotonic max_proposal max_examiner max_usd

-- The authority is `none` where the argument is no `RunBudgetAuthority`.
pub reserve_examiner_lane :
    List String → RawNumber → ℤ → Option Authority → Result Abort Reservation × Option Authority
reserve_examiner_lane kwargs usd now budget = elim (reject_authority_kwargs kwargs) [
  | err e ↦ (err e, budget)
  | ok _ ↦ elim budget [
    | none ↦ (err schema_invalid, none)
    | some s ↦ let done = reserve_examiner_call [] usd now s in (done.0, some done.1)
  ]
]

-- The counters other than the dollars and calls committed.
abbrev pub SameReserved : Authority → Authority → Type 0
SameReserved s s' =
    (s'.usd_reserved ≡ s.usd_reserved)
    × (s'.proposal_reserved ≡ s.proposal_reserved)
    × (s'.examiner_reserved ≡ s.examiner_reserved)
    × (s'.examiner_committed ≡ s.examiner_committed)

-- Neither dollars nor calls moved.
abbrev pub Undone : Authority → Authority → Type 0
Undone s s' =
    SameReserved s s'
    × (s'.usd_committed ≡ s.usd_committed)
    × (s'.proposal_committed ≡ s.proposal_committed)

-- The known cost of the reply was booked, and one completion.
abbrev pub Booked : {E : Type 0} → Result E Reply → Authority → Authority → Type 0
Booked answer s s' =
    SameReserved s s'
    × ((reply : Reply) × (actual : ℕ) × (answer ≡ ok reply)
        × (require_known_actual_usd reply.estimated_usd ≡ ok actual)
        × (s'.usd_committed ≡ s.usd_committed + actual)
        × (s'.proposal_committed ≡ s.proposal_committed + 1))

abbrev pub Settled : {E : Type 0} → Result E Reply → Authority → Called E → Type 0
Settled {E} answer s done =
    ((e : CallError E) × (done.0 ≡ err e) × Undone s done.1) ⊎ Booked answer s done.1

-- The authority while the call runs.
abbrev Running : ℕ → Authority → Authority → Type 0
Running amount s t =
    (lookup s.next_id t.reservations
      ≡ some (record {
        reservation_id = s.next_id;
        kind = proposal_completion;
        reserved_usd = amount;
        state = executing;
      }))
    × (t.usd_reserved ≡ s.usd_reserved + amount)
    × (t.proposal_reserved ≡ s.proposal_reserved + 1)
    × (t.usd_committed ≡ s.usd_committed)
    × (t.proposal_committed ≡ s.proposal_committed)
    × (t.examiner_reserved ≡ s.examiner_reserved)
    × (t.examiner_committed ≡ s.examiner_committed)

module _ {E : Type 0} (answer : Result E Reply) (amount : ℕ) (s t : Authority)
    (running : Running amount s t) where
  abbrev handle : Reservation
  handle = record (new_handle proposal_completion amount s) { state = executing }

  handle_of-running : handle_of [] (some handle) t ≡ ok handle
  unfolding handle_of require_handle reject_authority_kwargs new_handle
  handle_of-running = ground (arith, running.0)

  released-Undone : Undone s (release_locked handle t)
  unfolding release_locked free_lane store new_handle
  released-Undone = ((omega arith, omega arith, omega arith, omega arith), omega arith, omega arith)

  release-running : (release [] (some handle) t).1 ≡ release_locked handle t
  unfolding release new_handle
  release-running = rw (handle_of-running, release) refl

  released_after-Settled :
      (error : CallError E) (o : Outcome) → Undone s o.1 → Settled answer s (released_after error o)
  unfolding released_after
  released_after-Settled error (ok r, s') undone = inl (error, refl, undone)
  released_after-Settled error (err e, s') undone = inl (aborted e, refl, undone)

  release-Settled : (error : CallError E) → Settled answer s (release_and_raise error handle t)
  unfolding release_and_raise
  release-Settled error =
      released_after-Settled error (release [] (some handle) t)
        (subst (Undone s) (sym release-running) released-Undone)

  committed-state :
      (actual : ℕ)
      → (commit [] (some handle) (finite (pos actual)) t).1 ≡ settle_reservation handle actual t
  unfolding commit commit_locked amount_of require_finite_number require_nonnegative new_handle
  committed-state actual =
      rw (handle_of-running, commit)
        (if-intro (λ (o : Outcome). o.1 ≡ settle_reservation handle actual t)
          (ltb (settle_reservation handle actual t).max_usd
            (settle_reservation handle actual t).usd_committed)
          _ _ (λ _. refl) λ _. refl)

  committed_after-Settled :
      (reply : Reply) (o : Outcome)
      → Booked answer s o.1
      → Settled answer s (committed_after {E = E} reply o)
  unfolding committed_after
  committed_after-Settled reply (ok r, s') booked = inr booked
  committed_after-Settled reply (err e, s') booked = inr booked

  settle_reservation-Booked :
      (reply : Reply) (actual : ℕ)
      → answer ≡ ok reply
      → require_known_actual_usd reply.estimated_usd ≡ ok actual
      → Booked answer s (settle_reservation handle actual t)
  unfolding settle_reservation settle_lane store new_handle
  settle_reservation-Booked reply actual e cost = (
    (omega arith, omega arith, omega arith, omega arith),
    (reply, actual, e, cost, omega arith, omega arith),
  )

  after_cost-Settled :
      (reply : Reply) (cost : Result Abort ℕ)
      → answer ≡ ok reply
      → require_known_actual_usd reply.estimated_usd ≡ cost
      → Settled answer s (after_cost {E = E} handle reply cost t)
  unfolding after_cost
  after_cost-Settled reply (err e) given known = release-Settled (aborted e)
  after_cost-Settled reply (ok actual) given known =
      committed_after-Settled reply (commit [] (some handle) (finite (pos actual)) t) (
        subst (Booked answer s) (sym (committed-state actual))
          (settle_reservation-Booked reply actual given known))

  after_reply-Settled :
      (given : Result E Reply) → answer ≡ given → Settled answer s (after_reply handle given t)
  unfolding after_reply
  after_reply-Settled (err e) same = release-Settled (provider_failed e)
  after_reply-Settled (ok reply) same = after_cost-Settled reply _ same refl

-- Nothing moved.
unmoved : (s : Authority) → Undone s s
unmoved s = ((refl, refl, refl, refl), refl, refl)

module _ {E : Type 0} (answer : Result E Reply) (amount : ℕ) (s : Authority) where
  abbrev opened : Authority
  opened = open_reservation (new_handle proposal_completion amount s) s

  handle_of-opened :
      handle_of [] (some (new_handle proposal_completion amount s)) opened
      ≡ ok (new_handle proposal_completion amount s)
  unfolding handle_of require_handle reject_authority_kwargs new_handle open_reservation take_lane
      store lookup put
  handle_of-opened = ground (
    arith,
    lookup-put s.next_id s.next_id (new_handle proposal_completion amount s) s.reservations,
    ==_iff s.next_id s.next_id,
  )

  late-Undone : Undone s (release_locked (new_handle proposal_completion amount s) opened)
  unfolding release_locked free_lane store new_handle open_reservation take_lane
  late-Undone = ((omega arith, omega arith, refl, refl), refl, refl)

  started : Authority
  started = start_reservation (new_handle proposal_completion amount s) opened

  started-Running : Running amount s started
  unfolding started start_reservation new_handle open_reservation take_lane store
  started-Running =
      let r : Reservation = record (new_handle proposal_completion amount s) {
        state = executing;
      } in
      (
        lookup-put s.next_id s.next_id r opened.reservations
            ∙ rw ((==_iff s.next_id s.next_id).1 refl) refl,
        refl,
        refl,
        refl,
        refl,
        refl,
        refl,
      )

  begun-Settled :
      (later : ℤ)
      → Settled answer s (
          after_begin answer
            (begin_execute [] (some (new_handle proposal_completion amount s)) later opened))
  unfolding begin_execute execute_locked new_handle after_begin started
  begun-Settled later =
      rw (handle_of-opened, begin_execute)
        (if-intro (λ (o : Outcome). Settled answer s (after_begin answer o))
          (not (ltb_ℤ later opened.deadline)) _ _
          (λ _. inl (aborted wall_deadline_exhausted, refl, late-Undone))
          λ _. after_reply-Settled answer amount s started started-Running answer refl)

-- A call against the ledger, however it ends, leaves nothing of its own reserved: the dollars and
-- calls reserved are the ones of before, and so is the other lane. Either the call raises and nothing
-- is booked, or the provider answered with a known cost, and exactly that cost and one completion
-- are booked; so a call that returns has booked its cost.
pub call-Settled :
    {E : Type 0} (amount : ℕ) (answer : Result E Reply) (now later : ℤ) (s : Authority)
    → Settled answer s (call amount answer now later s)
unfolding call after_reserve reserve_proposal_completion reject_authority_kwargs reserve amount_of
    require_finite_number require_nonnegative reserve_locked
call-Settled {E} amount answer now later s =
    let P : Outcome → Type 0 = λ o. Settled answer s (after_reserve answer later o) in
    if-intro P (not (ltb_ℤ now s.deadline)) _ _ (λ _. inl (_, refl, unmoved s))
      λ _.
        if-intro P (lane_full proposal_completion s) _ _ (λ _. inl (_, refl, unmoved s))
          λ _.
            if-intro P (ltb_ℤ (available s) (pos amount)) _ _ (λ _. inl (_, refl, unmoved s))
              λ _. begun-Settled answer amount s later
