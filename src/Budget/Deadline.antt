-- ===== src/Budget/Deadline.antt =====
-- RunBudgetAuthority: nothing starts once the wall-clock deadline has passed.
use ai4_constrain.Prelude.{
  ℕ, ◌+◌, ◌≤◌, ◌≡◌, refl, String, Option, some, List, arith, lookup, lookup-put, total,
}
use ai4_constrain.Prelude.Int.{ℤ, ◌≤ℤ◌}
use ai4_constrain.Prelude.Result.{ok, err}
use ai4_constrain.Abort.{wall_deadline_exhausted}
use ai4_constrain.Budget.{
  State, reserved, released, Kind, Reservation, Authority, is_executing, settle_reservation,
  release_locked, reserve_locked, Call, run, begin_execute, execute_locked, commit_locked,
  handle_of,
}
use ai4_constrain.Budget.Ledger.{IsConsistent, IsCurrent, weigh, total-current, handle_of-IsCurrent}
use ai4_constrain.Budget.Bounds.{live-le}
use ai4_constrain.Budget.Rules.{Keeps, AllObey, run_keeps}

-- 1 for an entry whose call has begun.
abbrev pub begun : Reservation → ℕ
begun r = weigh (is_executing r.state) 1

-- Compared with `s`, the authority has made no reservation and begun no call.
pub record NothingStarted (s t : Authority) : Type 0 where
  pub same_deadline : t.deadline ≡ s.deadline
  pub same_ids : t.next_id ≡ s.next_id
  pub no_more_reserved : t.usd_reserved ≤ s.usd_reserved
  pub no_more_begun : total begun t.reservations ≤ total begun s.reservations

module _ (s₀ : Authority) where
  abbrev Late : ℤ → Type 0
  Late now = s₀.deadline ≤ℤ now

  reserve_locked-NothingStarted :
      (kind : Kind) (amount : ℕ) (now : ℤ) (s : Authority)
      → Late now
      → NothingStarted s₀ s
      → NothingStarted s₀ (reserve_locked kind amount now s).1
  unfolding reserve_locked
  reserve_locked-NothingStarted kind amount now s late p = ground arith

  module _ (r : Reservation) (s : Authority) (c : IsCurrent r s) (p : NothingStarted s₀ s) where
    release_locked-NothingStarted : NothingStarted s₀ (release_locked r s)
    unfolding release_locked
    release_locked-NothingStarted =
        let r' : Reservation = record r { reserved_usd = 0; state = released } in
        ground (arith, total-current begun r r' s c)

    execute_locked-NothingStarted :
        (now : ℤ) → Late now → NothingStarted s₀ (execute_locked r now s).1
    unfolding execute_locked
    execute_locked-NothingStarted now late = ground (arith, release_locked-NothingStarted)

    commit_locked-NothingStarted : (actual : ℕ) → NothingStarted s₀ (commit_locked r actual s).1
    unfolding commit_locked settle_reservation
    commit_locked-NothingStarted actual =
        let r' : Reservation = record r { reserved_usd = actual; state = State.committed } in
        ground (arith, total-current begun r r' s c)

  Keeps-NothingStarted : Keeps (NothingStarted s₀) Late (λ _ _. Unit)
  Keeps-NothingStarted = record {
    reserving = λ kind amount now s late p. reserve_locked-NothingStarted kind amount now s late p;
    executing = λ r now s h c late p. execute_locked-NothingStarted r s c p now late;
    committing = λ r actual s h c _ p. commit_locked-NothingStarted r s c p actual;
    releasing = λ r s h c _ p. release_locked-NothingStarted r s c p;
  }

-- Where every clock reading of a run is at or past the deadline, the run makes no reservation,
-- reserves no further dollars and begins no further call; calls already begun may still commit.
pub run-NothingStarted :
    (cs : List Call) (s : Authority)
    → IsConsistent s
    → AllObey (λ now. s.deadline ≤ℤ now) (λ _ _. Unit) cs s
    → NothingStarted s (run cs s)
run-NothingStarted cs s h o =
    run_keeps (Keeps-NothingStarted s) cs s h
      (record {
        same_deadline = refl;
        same_ids = refl;
        no_more_reserved = omega arith;
        no_more_begun = omega arith;
      })
      o

execute_locked_late :
    (r : Reservation) (s : Authority)
    → IsConsistent s
    → IsCurrent r s
    → (now : ℤ) → r.state ≡ reserved
    → s.deadline ≤ℤ now
    → ((execute_locked r now s).0 ≡ err wall_deadline_exhausted)
      × ((execute_locked r now s).1.usd_reserved + r.reserved_usd ≡ s.usd_reserved)
      × (lookup r.reservation_id (execute_locked r now s).1.reservations
          ≡ some (record r { reserved_usd = 0; state = released }))
unfolding execute_locked release_locked
execute_locked_late r s h c now p late =
    let r' : Reservation = record r { reserved_usd = 0; state = released } in
    let held = live-le r s h c in
    let kept = lookup-put r.reservation_id r.reservation_id r' s.reservations in
    (ground arith, ground (arith, held), ground (arith, kept))

-- Beginning a reserved call at or past the deadline raises `wall_deadline_exhausted` and releases
-- the reservation: it holds no dollars any more, and what it held is available again.
pub begin_execute_late :
    (kwargs : List String) (handle : Option Reservation) (now : ℤ) (s : Authority) (r : Reservation)
    → IsConsistent s
    → handle_of kwargs handle s ≡ ok r
    → r.state ≡ reserved
    → s.deadline ≤ℤ now
    → ((begin_execute kwargs handle now s).0 ≡ err wall_deadline_exhausted)
      × ((begin_execute kwargs handle now s).1.usd_reserved + r.reserved_usd ≡ s.usd_reserved)
      × (lookup r.reservation_id (begin_execute kwargs handle now s).1.reservations
          ≡ some (record r { reserved_usd = 0; state = released }))
unfolding begin_execute
begin_execute_late kwargs handle now s r h e p late =
    rw (e, begin_execute)
      (execute_locked_late r s h (handle_of-IsCurrent kwargs handle s h e) now p late)
