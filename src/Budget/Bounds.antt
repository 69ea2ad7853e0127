-- ===== src/Budget/Bounds.antt =====
-- RunBudgetAuthority: what the ledger never passes, and what a commit records.
use ai4_constrain.Prelude.{
  ℕ, ◌+◌, ◌≤◌, ◌≡◌, String, Option, some, List, arith, ltb, if◌then◌else◌, le-total, lookup,
  lookup-put,
}
use ai4_constrain.Prelude.Int.{ℤ, ◌-ℤ◌}
use ai4_constrain.Prelude.Result.{ok, err}
use ai4_constrain.Abort.{RawNumber, spend_reservation_rejection}
use ai4_constrain.Budget.{
  executing, committed, Kind, Reservation, Authority, RawInt, init, open_reservation,
  start_reservation, settle_reservation, release_locked, reserve_locked, commit, new_handle, Call,
  run, execute_locked, commit_locked, handle_of, amount_of,
}
use ai4_constrain.Budget.Rules.{Keeps, AllObey, run_keeps, obey_anything}
use ai4_constrain.Budget.Ledger.{
  IsConsistent, IsCurrent, handle_of-IsCurrent, init-IsConsistent, live_usd, live_proposal,
  live_examiner,
}

pub record WithinCounts (s : Authority) : Type 0 where
  pub proposals : s.proposal_reserved + s.proposal_committed ≤ s.max_proposal
  pub examiners : s.examiner_reserved + s.examiner_committed ≤ s.max_examiner

module _ (r : Reservation) (s : Authority) (h : IsConsistent s) (c : IsCurrent r s) where
  pub live-le :
      (live_usd r ≤ s.usd_reserved)
      × (live_proposal r ≤ s.proposal_reserved)
      × (live_examiner r ≤ s.examiner_reserved)
  live-le = omega (
    arith,
    h,
    le-total live_usd r.reservation_id r s.reservations c,
    le-total live_proposal r.reservation_id r s.reservations c,
    le-total live_examiner r.reservation_id r s.reservations c,
  )

  module _ (w : WithinCounts s) where
    execute_locked-WithinCounts : (now : ℤ) → WithinCounts (execute_locked r now s).1
    unfolding execute_locked release_locked start_reservation
    execute_locked-WithinCounts now = ground arith

    commit_locked-WithinCounts : (actual : ℕ) → WithinCounts (commit_locked r actual s).1
    unfolding commit_locked settle_reservation
    commit_locked-WithinCounts actual = ground (arith, live-le)

    release_locked-WithinCounts : WithinCounts (release_locked r s)
    unfolding release_locked
    release_locked-WithinCounts = ground arith

reserve_locked-WithinCounts :
    (kind : Kind) (amount : ℕ) (now : ℤ) (s : Authority)
    → WithinCounts s
    → WithinCounts (reserve_locked kind amount now s).1
unfolding reserve_locked open_reservation new_handle
reserve_locked-WithinCounts kind amount now s w = ground arith

Keeps-WithinCounts : Keeps WithinCounts (λ _. Unit) (λ _ _. Unit)
Keeps-WithinCounts = record {
  reserving = λ kind amount now s _ w. reserve_locked-WithinCounts kind amount now s w;
  executing = λ r now s h c _ w. execute_locked-WithinCounts r s h c w now;
  committing = λ r actual s h c _ w. commit_locked-WithinCounts r s h c w actual;
  releasing = λ r s h c _ w. release_locked-WithinCounts r s h c w;
}

-- From a new authority, after any run of calls, the proposal completions and the examiner calls
-- that are reserved or committed are at most their maxima.
pub run-WithinCounts :
    (kwargs : List String) (deadline : RawNumber) (proposals examiners : RawInt) (usd : RawNumber)
    (s : Authority) (cs : List Call)
    → init kwargs deadline proposals examiners usd ≡ ok s
    → WithinCounts (run cs s)
unfolding init
run-WithinCounts kwargs deadline proposals examiners usd s cs e =
    run_keeps Keeps-WithinCounts cs s (init-IsConsistent kwargs deadline proposals examiners usd e)
      (ground arith) (obey_anything cs s)

-- The dollars reserved and committed are within the cap.
abbrev pub WithinBudget : Authority → Type 0
WithinBudget s = s.usd_committed + s.usd_reserved ≤ s.max_usd

-- No commit charges more than its reservation holds.
abbrev pub IsCovered : Reservation → ℕ → Type 0
IsCovered r actual = actual ≤ r.reserved_usd

reserve_locked-WithinBudget :
    (kind : Kind) (amount : ℕ) (now : ℤ) (s : Authority)
    → WithinBudget s
    → WithinBudget (reserve_locked kind amount now s).1
unfolding reserve_locked open_reservation new_handle ◌-ℤ◌
reserve_locked-WithinBudget kind amount now s w = ground arith

module _ (r : Reservation) (s : Authority) (h : IsConsistent s) (c : IsCurrent r s)
    (w : WithinBudget s) where
  execute_locked-WithinBudget : (now : ℤ) → WithinBudget (execute_locked r now s).1
  unfolding execute_locked release_locked start_reservation
  execute_locked-WithinBudget now = ground arith

  commit_locked-WithinBudget :
      (actual : ℕ) → IsCovered r actual → WithinBudget (commit_locked r actual s).1
  unfolding commit_locked settle_reservation
  commit_locked-WithinBudget actual a = ground (arith, live-le r s h c)

  release_locked-WithinBudget : WithinBudget (release_locked r s)
  unfolding release_locked
  release_locked-WithinBudget = ground arith

Keeps-WithinBudget : Keeps WithinBudget (λ _. Unit) IsCovered
Keeps-WithinBudget = record {
  reserving = λ kind amount now s _ w. reserve_locked-WithinBudget kind amount now s w;
  executing = λ r now s h c _ w. execute_locked-WithinBudget r s h c w now;
  committing = λ r actual s h c a w. commit_locked-WithinBudget r s h c w actual a;
  releasing = λ r s h c _ w. release_locked-WithinBudget r s h c w;
}

-- From a consistent authority within its budget, after any run of calls in which no commit charges
-- more than its reservation holds, the dollars committed and reserved are still at most `max_usd`.
pub run-WithinBudget :
    (cs : List Call) (s : Authority)
    → IsConsistent s
    → WithinBudget s
    → AllObey (λ _. Unit) IsCovered cs s
    → WithinBudget (run cs s)
run-WithinBudget cs s h w o = run_keeps Keeps-WithinBudget cs s h w o

commit_locked_records :
    (r : Reservation) (s : Authority) (actual : ℕ)
    → IsConsistent s
    → IsCurrent r s
    → r.state ≡ executing
    → ((commit_locked r actual s).0 ≡ (
        if ltb s.max_usd (s.usd_committed + actual)
        then err spend_reservation_rejection
        else ok (record r { reserved_usd = actual; state = committed })))
      × ((commit_locked r actual s).1.usd_committed ≡ s.usd_committed + actual)
      × ((commit_locked r actual s).1.usd_reserved + r.reserved_usd ≡ s.usd_reserved)
      × (lookup r.reservation_id (commit_locked r actual s).1.reservations
          ≡ some (record r { reserved_usd = actual; state = committed }))
unfolding commit_locked settle_reservation
commit_locked_records r s actual h c p =
    let r' : Reservation = record r { reserved_usd = actual; state = committed } in
    let kept = lookup-put r.reservation_id r.reservation_id r' s.reservations in
    (ground arith, ground arith, ground (arith, live-le r s h c), ground (arith, kept))

-- A commit of an executing reservation always records the charge: the dollars committed grow by it,
-- the reserved ones fall by what the reservation held, and the entry is committed at that charge.
-- It raises `spend_reservation_rejection`, with the same ledger, exactly if the total then passes
-- `max_usd`, and returns the committed handle if not.
pub commit_records :
    (kwargs : List String) (handle : Option Reservation) (usd : RawNumber) (s : Authority)
    (r : Reservation) (actual : ℕ)
    → IsConsistent s
    → handle_of kwargs handle s ≡ ok r
    → amount_of usd ≡ ok actual
    → r.state ≡ executing
    → ((commit kwargs handle usd s).0 ≡ (
        if ltb s.max_usd (s.usd_committed + actual)
        then err spend_reservation_rejection
        else ok (record r { reserved_usd = actual; state = committed })))
      × ((commit kwargs handle usd s).1.usd_committed ≡ s.usd_committed + actual)
      × ((commit kwargs handle usd s).1.usd_reserved + r.reserved_usd ≡ s.usd_reserved)
      × (lookup r.reservation_id (commit kwargs handle usd s).1.reservations
          ≡ some (record r { reserved_usd = actual; state = committed }))
unfolding commit
commit_records kwargs handle usd s r actual h e d p =
    rw (e, commit)
      (rw d (commit_locked_records r s actual h (handle_of-IsCurrent kwargs handle s h e) p))
