-- ===== src/Budget/Ledger.antt =====
-- RunBudgetAuthority: the counters agree with the table of reservations after any run of calls.
use ai4_constrain.Prelude.{
  ℕ, ◌+◌, ◌≤◌, ◌≡◌, refl, Bool, true, false, not, Option, none, some, List, [], ◌∷◌, arith, lookup,
  put, total, lookup-put, total-put_new, total-put_old, ◌-◌, String, inl, inr,
}
use ai4_constrain.Prelude.Int.{ℤ}
use ai4_constrain.Prelude.Result.{ok, Result-cases}
use ai4_constrain.Abort.{RawNumber}
use ai4_constrain.Budget.{
  State, reserved, executing, committed, released, Kind, proposal_completion, examiner_call,
  other_kind, Reservation, Authority, RawInt, init, is_proposal, is_live, open_reservation,
  start_reservation, settle_reservation, release_locked, require_handle, reserve_locked, reserve,
  reserve_proposal_completion, reserve_examiner_call, begin_execute, commit, release, new_handle,
  Call, reserve_call, execute_call, commit_call, release_call, step, run, execute_locked,
  commit_locked, handle_of, amount_of,
}

-- What one entry of the table adds to each counter.
abbrev pub weigh : Bool → ℕ → ℕ
weigh true n = n
weigh false n = 0

abbrev pub is_committed : State → Bool
is_committed committed = true
is_committed _ = false

abbrev pub live_usd : Reservation → ℕ
live_usd r = weigh (is_live r.state) r.reserved_usd

abbrev pub spent_usd : Reservation → ℕ
spent_usd r = weigh (is_committed r.state) r.reserved_usd

abbrev pub live_proposal : Reservation → ℕ
live_proposal r = weigh (is_live r.state) (weigh (is_proposal r.kind) 1)

abbrev pub live_examiner : Reservation → ℕ
live_examiner r = weigh (is_live r.state) (weigh (not (is_proposal r.kind)) 1)

abbrev pub spent_proposal : Reservation → ℕ
spent_proposal r = weigh (is_committed r.state) (weigh (is_proposal r.kind) 1)

abbrev pub spent_examiner : Reservation → ℕ
spent_examiner r = weigh (is_committed r.state) (weigh (not (is_proposal r.kind)) 1)

pub record IsConsistent (s : Authority) : Type 0 where
  pub usd_reserved : s.usd_reserved ≡ total live_usd s.reservations
  pub usd_committed : s.usd_committed ≡ total spent_usd s.reservations
  pub proposal_reserved : s.proposal_reserved ≡ total live_proposal s.reservations
  pub proposal_committed : s.proposal_committed ≡ total spent_proposal s.reservations
  pub examiner_reserved : s.examiner_reserved ≡ total live_examiner s.reservations
  pub examiner_committed : s.examiner_committed ≡ total spent_examiner s.reservations
  pub fresh : (k : ℕ) → s.next_id ≤ k → lookup k s.reservations ≡ none
  pub keyed : (k : ℕ) (r : Reservation) → lookup k s.reservations ≡ some r → r.reservation_id ≡ k

abbrev pub IsCurrent : Reservation → Authority → Type 0
IsCurrent r s = lookup r.reservation_id s.reservations ≡ some r

-- What a write of a fresh entry, and of one in place of another, does to a sum over the table.
total-fresh :
    (f : Reservation → ℕ) (r : Reservation) (s : Authority)
    → IsConsistent s
    → r.reservation_id ≡ s.next_id
    → total f (put r.reservation_id r s.reservations) ≡ total f s.reservations + f r
total-fresh f r s h e =
    total-put_new f r.reservation_id r s.reservations (h.fresh r.reservation_id (omega arith))

-- A write in place of the entry `r` that stands under its id.
pub total-current :
    (f : Reservation → ℕ) (r r' : Reservation) (s : Authority)
    → IsCurrent r s
    → total f (put r.reservation_id r' s.reservations) + f r ≡ total f s.reservations + f r'
total-current f r r' s c = total-put_old f r.reservation_id r' r s.reservations c

pub open_reservation-IsConsistent :
    (kind : Kind) (amount : ℕ) (s : Authority)
    → IsConsistent s
    → IsConsistent (open_reservation (new_handle kind amount s) s)
unfolding open_reservation new_handle
open_reservation-IsConsistent kind amount s h =
    let r : Reservation = record {
      reservation_id = s.next_id;
      kind = kind;
      reserved_usd = amount;
      state = reserved;
    } in
    record {
      usd_reserved = ground (arith, h, total-fresh live_usd r s h refl);
      usd_committed = ground (arith, h, total-fresh spent_usd r s h refl);
      proposal_reserved = ground (arith, h, total-fresh live_proposal r s h refl);
      proposal_committed = ground (arith, h, total-fresh spent_proposal r s h refl);
      examiner_reserved = ground (arith, h, total-fresh live_examiner r s h refl);
      examiner_committed = ground (arith, h, total-fresh spent_examiner r s h refl);
      fresh = λ k le. ground (arith, lookup-put s.next_id k r s.reservations, h.fresh k);
      keyed = λ k v e. ground (arith, lookup-put s.next_id k r s.reservations, h.keyed k v);
    }

-- `s'` is `s` with the entry `r` replaced by `r'`, and the counters moved accordingly.
record Replaces (r r' : Reservation) (s s' : Authority) : Type 0 where
  table : s'.reservations ≡ put r.reservation_id r' s.reservations
  same_id : r'.reservation_id ≡ r.reservation_id
  same_next : s'.next_id ≡ s.next_id
  usd_reserved : s'.usd_reserved ≡ s.usd_reserved + live_usd r' - live_usd r
  usd_committed : s'.usd_committed ≡ s.usd_committed + spent_usd r' - spent_usd r
  proposal_reserved :
      s'.proposal_reserved ≡ s.proposal_reserved + live_proposal r' - live_proposal r
  proposal_committed :
      s'.proposal_committed ≡ s.proposal_committed + spent_proposal r' - spent_proposal r
  examiner_reserved :
      s'.examiner_reserved ≡ s.examiner_reserved + live_examiner r' - live_examiner r
  examiner_committed :
      s'.examiner_committed ≡ s.examiner_committed + spent_examiner r' - spent_examiner r

module _ (r r' : Reservation) (s s' : Authority) (h : IsConsistent s) (c : IsCurrent r s) where
  total-replaced :
      (f : Reservation → ℕ)
      → s'.reservations ≡ put r.reservation_id r' s.reservations
      → total f s'.reservations ≡ total f s.reservations + f r' - f r
  total-replaced f e = rw e (omega (arith, total-current f r r' s c))

  Replaces-IsConsistent : Replaces r r' s s' → IsConsistent s'
  Replaces-IsConsistent d = record {
    usd_reserved = omega (arith, h, d, total-replaced live_usd d.table);
    usd_committed = omega (arith, h, d, total-replaced spent_usd d.table);
    proposal_reserved = omega (arith, h, d, total-replaced live_proposal d.table);
    proposal_committed = omega (arith, h, d, total-replaced spent_proposal d.table);
    examiner_reserved = omega (arith, h, d, total-replaced live_examiner d.table);
    examiner_committed = omega (arith, h, d, total-replaced spent_examiner d.table);
    fresh = λ k le. rw d.table (
        ground (
          arith,
          lookup-put r.reservation_id k r' s.reservations,
          h.fresh k,
          h.fresh r.reservation_id,
          d,
        ));
    keyed = λ k v.
        rw d.table
          (ground (arith, lookup-put r.reservation_id k r' s.reservations, h.keyed k v, d));
  }

module _ (r : Reservation) (s : Authority) (h : IsConsistent s) (c : IsCurrent r s) where
  start_reservation-IsConsistent : r.state ≡ reserved → IsConsistent (start_reservation r s)
  unfolding start_reservation
  start_reservation-IsConsistent p =
      Replaces-IsConsistent r (record r { state = executing }) s _ h c (ground arith)

  settle_reservation-IsConsistent :
      (actual : ℕ) → r.state ≡ executing → IsConsistent (settle_reservation r actual s)
  unfolding settle_reservation
  settle_reservation-IsConsistent actual p =
      Replaces-IsConsistent r (record r { reserved_usd = actual; state = committed }) s _ h c
        (ground arith)

  release_locked-IsConsistent : is_live r.state ≡ true → IsConsistent (release_locked r s)
  unfolding release_locked
  release_locked-IsConsistent p =
      Replaces-IsConsistent r (record r { reserved_usd = 0; state = released }) s _ h c
        (ground arith)

  execute_locked-IsConsistent : (now : ℤ) → IsConsistent (execute_locked r now s).1
  unfolding execute_locked
  execute_locked-IsConsistent now =
      ground (arith, release_locked-IsConsistent, start_reservation-IsConsistent)

  commit_locked-IsConsistent : (actual : ℕ) → IsConsistent (commit_locked r actual s).1
  unfolding commit_locked
  commit_locked-IsConsistent actual = ground (arith, settle_reservation-IsConsistent actual)

reserve_locked-IsConsistent :
    (kind : Kind) (amount : ℕ) (now : ℤ) (s : Authority)
    → IsConsistent s
    → IsConsistent (reserve_locked kind amount now s).1
unfolding reserve_locked
reserve_locked-IsConsistent kind amount now s h =
    ground (arith, open_reservation-IsConsistent kind amount s h)

reserve-IsConsistent :
    (kind : Kind) (usd : RawNumber) (now : ℤ) (s : Authority)
    → IsConsistent s
    → IsConsistent (reserve kind usd now s).1
unfolding reserve
reserve-IsConsistent kind usd now s h = elim (Result-cases (amount_of usd)) [
  | inl (n, e) ↦ rw e (ground (arith, reserve_locked-IsConsistent kind n now s h))
  | inr (x, e) ↦ rw e (ground arith)
]

-- A handle that passes `_require_handle` names the entry under its id.
pub handle_of-IsCurrent :
    (kwargs : List String) (handle : Option Reservation) (s : Authority) {r : Reservation}
    → IsConsistent s
    → handle_of kwargs handle s ≡ ok r
    → IsCurrent r s
unfolding handle_of require_handle
handle_of-IsCurrent kwargs none s h e = ground arith
handle_of-IsCurrent kwargs (some handle) s {r} h e = ground (arith, h.keyed handle.reservation_id r)

begin_execute-IsConsistent :
    (kwargs : List String) (handle : Option Reservation) (now : ℤ) (s : Authority)
    → IsConsistent s
    → IsConsistent (begin_execute kwargs handle now s).1
unfolding begin_execute
begin_execute-IsConsistent kwargs handle now s h = elim (Result-cases (handle_of kwargs handle s)) [
  | inl (r, e) ↦
      rw (e, begin_execute)
        (execute_locked-IsConsistent r s h (handle_of-IsCurrent kwargs handle s h e) now)
  | inr (x, e) ↦ rw (e, begin_execute) h
]

commit-IsConsistent :
    (kwargs : List String) (handle : Option Reservation) (actual_usd : RawNumber) (s : Authority)
    → IsConsistent s
    → IsConsistent (commit kwargs handle actual_usd s).1
unfolding commit
commit-IsConsistent kwargs handle actual_usd s h = elim (Result-cases (handle_of kwargs handle s)) [
  | inl (r, e) ↦
      rw (e, commit)
        (elim (Result-cases (amount_of actual_usd)) [
          | inl (n, d) ↦
              rw d (commit_locked-IsConsistent r s h (handle_of-IsCurrent kwargs handle s h e) n)
          | inr (x, d) ↦ rw d h
        ])
  | inr (x, e) ↦ rw (e, commit) h
]

release-IsConsistent :
    (kwargs : List String) (handle : Option Reservation) (s : Authority)
    → IsConsistent s
    → IsConsistent (release kwargs handle s).1
unfolding release
release-IsConsistent kwargs handle s h = elim (Result-cases (handle_of kwargs handle s)) [
  | inl (r, e) ↦
      rw (e, release)
        (ground
          (arith, release_locked-IsConsistent r s h (handle_of-IsCurrent kwargs handle s h e)))
  | inr (x, e) ↦ rw (e, release) h
]

pub step-IsConsistent : (c : Call) (s : Authority) → IsConsistent s → IsConsistent (step c s).1
unfolding step reserve_proposal_completion reserve_examiner_call
step-IsConsistent (reserve_call proposal_completion kwargs usd now) s h =
    ground (arith, reserve-IsConsistent proposal_completion usd now s h)
step-IsConsistent (reserve_call examiner_call kwargs usd now) s h =
    ground (arith, reserve-IsConsistent examiner_call usd now s h)
step-IsConsistent (reserve_call (other_kind k) kwargs usd now) s h =
    reserve-IsConsistent (other_kind k) usd now s h
step-IsConsistent (execute_call kwargs handle now) s h =
    begin_execute-IsConsistent kwargs handle now s h
step-IsConsistent (commit_call kwargs handle actual) s h =
    commit-IsConsistent kwargs handle actual s h
step-IsConsistent (release_call kwargs handle) s h = release-IsConsistent kwargs handle s h

-- After any run of calls from a consistent authority, returning or raising, each counter is the
-- sum over the table of reservations that it stands for, each entry stands under its own id, and no
-- id from `next_id` on is taken.
pub run-IsConsistent : (cs : List Call) (s : Authority) → IsConsistent s → IsConsistent (run cs s)
unfolding run
run-IsConsistent [] s h = h
run-IsConsistent (c ∷ cs) s h = run-IsConsistent cs (step c s).1 (step-IsConsistent c s h)

-- A new authority is consistent.
pub init-IsConsistent :
    (kwargs : List String) (deadline : RawNumber) (proposals examiners : RawInt) (usd : RawNumber)
    {s : Authority}
    → init kwargs deadline proposals examiners usd ≡ ok s
    → IsConsistent s
unfolding init lookup total
init-IsConsistent kwargs deadline proposals examiners usd e = ground arith
