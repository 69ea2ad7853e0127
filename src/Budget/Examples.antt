-- ===== src/Budget/Examples.antt =====
-- RunBudgetAuthority: runs of the ledger, and the theorems at them.
use ai4_constrain.Prelude.{
  ℕ, ◌+◌, ◌≤◌, ◌≡◌, refl, inl, some, List, [], ◌∷◌, arith, lookup, put, String,
}
use ai4_constrain.Prelude.Int.{pos, ◌-ℤ◌}
use ai4_constrain.Prelude.Result.{Result, ok, err}
use ai4_constrain.Abort.{
  finite, not_finite, spend_reservation_rejection, wall_deadline_exhausted, schema_invalid,
  reject_authority_kwargs, require_finite_number, require_nonnegative,
}
use ai4_constrain.Budget.{
  State, reserved, executing, committed, released, proposal_completion, examiner_call, Reservation,
  Authority, int, init, require_handle, reserve_locked, reserve, reserve_proposal_completion,
  reserve_examiner_call, begin_execute, commit, new_handle, open_reservation, start_reservation,
  settle_reservation, release_locked, Call, reserve_call, execute_call, commit_call, release_call,
  step, run, execute_locked, commit_locked, handle_of, amount_of,
}
use ai4_constrain.Budget.Adapter.{
  Reply, Settled, call, call-Settled, after_reserve, after_begin, after_reply, after_cost,
  committed_after, require_known_actual_usd,
}
use ai4_constrain.Budget.Ledger.{IsConsistent, run-IsConsistent, init-IsConsistent}
use ai4_constrain.Budget.Bounds.{
  WithinCounts, run-WithinCounts, WithinBudget, run-WithinBudget, commit_records,
}
use ai4_constrain.Budget.Handles.{◌⟶*◌, run-⟶*, settled_frozen, require_handle_stable}
use ai4_constrain.Budget.Deadline.{NothingStarted, run-NothingStarted, begin_execute_late}

-- A deadline of 100, two proposal completions, one examiner call, and 10 units of money.
abbrev start : Authority
start = record {
  deadline = pos 100;
  max_proposal = 2;
  max_examiner = 1;
  max_usd = 10;
  next_id = 1;
  usd_committed = 0;
  usd_reserved = 0;
  proposal_reserved = 0;
  proposal_committed = 0;
  examiner_reserved = 0;
  examiner_committed = 0;
  reservations = [];
}

start_lem : init [] (finite (pos 100)) (int (pos 2)) (int (pos 1)) (finite (pos 10)) ≡ ok start
unfolding init reject_authority_kwargs require_finite_number require_nonnegative
start_lem = refl

init_refuses : init [] not_finite (int (pos 2)) (int (pos 1)) (finite (pos 10)) ≡ err schema_invalid
unfolding init reject_authority_kwargs require_finite_number
init_refuses = refl

start-IsConsistent : IsConsistent start
start-IsConsistent =
    init-IsConsistent [] (finite (pos 100)) (int (pos 2)) (int (pos 1)) (finite (pos 10)) start_lem

-- What a caller holds of the first reservation, and the ledger when it has been reserved and begun.
abbrev first : State → Reservation
first state = record {
  reservation_id = 1;
  kind = proposal_completion;
  reserved_usd = 5;
  state = state;
}

abbrev begun_calls : List Call
begun_calls =
    reserve_call proposal_completion [] (finite (pos 5)) (pos 1)
    ∷ execute_call [] (some (first reserved)) (pos 2)
    ∷ []

abbrev opened : Authority
opened = record start {
  next_id = 2;
  usd_reserved = 5;
  proposal_reserved = 1;
  reservations = (1, first reserved) ∷ [];
}

abbrev begun : Authority
begun = record opened { reservations = (1, first executing) ∷ [] }

-- A run to the end: the call costs 4 of the 5 units, and another reservation is released.
abbrev whole_run : List Call
whole_run =
    commit_call [] (some (first executing)) (finite (pos 4))
    ∷ reserve_call examiner_call [] (finite (pos 6)) (pos 3)
    ∷ reserve_call examiner_call [] (finite (pos 1)) (pos 3)
    ∷ []

-- Unfolding this opens the whole ledger.
ledger : Unit {0}
unfolding run step reserve_proposal_completion reserve_examiner_call reserve reserve_locked
    amount_of new_handle open_reservation begin_execute commit commit_locked settle_reservation
    release_locked handle_of require_handle execute_locked start_reservation reject_authority_kwargs
    require_finite_number require_nonnegative lookup put ◌-ℤ◌
ledger = tt

run-begun_calls : run begun_calls start ≡ begun
unfolding ledger
run-begun_calls = refl

begun-IsConsistent : IsConsistent begun
unfolding ledger
begun-IsConsistent = run-IsConsistent begun_calls start start-IsConsistent

-- The second examiner call finds its lane full; the money left is 0.
run-whole_run :
    ((run whole_run begun).usd_committed ≡ 4)
    × ((run whole_run begun).usd_reserved ≡ 6)
    × ((run whole_run begun).examiner_reserved ≡ 1)
unfolding ledger
run-whole_run = (refl, refl, refl)

run-IsConsistent_example : IsConsistent (run whole_run begun)
run-IsConsistent_example = run-IsConsistent whole_run begun begun-IsConsistent

run-WithinCounts_example : WithinCounts (run whole_run start)
run-WithinCounts_example =
    run-WithinCounts [] (finite (pos 100)) (int (pos 2)) (int (pos 1)) (finite (pos 10)) start
      whole_run start_lem

covered :
    (r : Reservation) (n : ℕ)
    → handle_of [] (some (first executing)) begun ≡ ok r
    → amount_of (finite (pos 4)) ≡ ok n
    → n ≤ r.reserved_usd
unfolding ledger
covered r n e d = ground arith

run-WithinBudget_example : WithinBudget (run whole_run begun)
run-WithinBudget_example =
    run-WithinBudget whole_run begun begun-IsConsistent (omega arith) (covered, (tt, (tt, tt)))

handle_of-begun : handle_of [] (some (first executing)) begun ≡ ok (first executing)
unfolding ledger
handle_of-begun = refl

amount_of-twelve : amount_of (finite (pos 12)) ≡ ok 12
unfolding ledger
amount_of-twelve = refl

-- A charge of 12 passes the cap of 10: it is recorded, and the commit raises.
commit_records_example :
    ((commit [] (some (first executing)) (finite (pos 12)) begun).0
      ≡ err spend_reservation_rejection)
    × ((commit [] (some (first executing)) (finite (pos 12)) begun).1.usd_committed ≡ 12)
    × ((commit [] (some (first executing)) (finite (pos 12)) begun).1.usd_reserved + 5 ≡ 5)
    × (lookup 1 (commit [] (some (first executing)) (finite (pos 12)) begun).1.reservations
        ≡ some (record (first committed) { reserved_usd = 12 }))
commit_records_example =
    commit_records [] (some (first executing)) (finite (pos 12)) begun (first executing) 12
      begun-IsConsistent handle_of-begun amount_of-twelve refl

lookup-begun : lookup 1 begun.reservations ≡ some (first executing)
unfolding ledger
lookup-begun = refl

run-⟶*_example :
    (last : Reservation) × (lookup 1 (run whole_run begun).reservations ≡ some last)
    × (last.kind ≡ proposal_completion)
    × (executing ⟶* last.state)
run-⟶*_example = run-⟶* whole_run begun 1 (first executing) begun-IsConsistent lookup-begun

-- The ledger with the first reservation committed.
abbrev settled : Authority
settled = run (commit_call [] (some (first executing)) (finite (pos 4)) ∷ []) begun

settled-IsConsistent : IsConsistent settled
settled-IsConsistent = run-IsConsistent _ begun begun-IsConsistent

abbrev charged : Reservation
charged = record (first committed) { reserved_usd = 4 }

lookup-settled : lookup 1 settled.reservations ≡ some charged
unfolding ledger
lookup-settled = refl

settled_frozen_example :
    lookup 1 (run (release_call [] (some charged) ∷ whole_run) settled).reservations ≡ some charged
settled_frozen_example =
    settled_frozen (release_call [] (some charged) ∷ whole_run) settled 1 charged
      settled-IsConsistent lookup-settled (inl refl)

require_handle-begun : require_handle (some (first reserved)) begun ≡ ok (first executing)
unfolding ledger
require_handle-begun = refl

require_handle_stable_example :
    (last : Reservation) × (require_handle (some (first reserved)) (run whole_run begun) ≡ ok last)
    × (last.kind ≡ proposal_completion)
    × (last.reservation_id ≡ 1)
require_handle_stable_example =
    require_handle_stable whole_run begun (first reserved) (first executing) begun-IsConsistent
      require_handle-begun

-- Calls that come at the deadline or later.
abbrev late_calls : List Call
late_calls =
    reserve_call examiner_call [] (finite (pos 1)) (pos 100)
    ∷ commit_call [] (some (first executing)) (finite (pos 4))
    ∷ []

run-NothingStarted_example : NothingStarted begun (run late_calls begun)
run-NothingStarted_example =
    run-NothingStarted late_calls begun begun-IsConsistent (omega arith, ((λ _ _ _ _. tt), tt))

opened-IsConsistent : IsConsistent opened
unfolding ledger
opened-IsConsistent =
    run-IsConsistent (reserve_call proposal_completion [] (finite (pos 5)) (pos 1) ∷ []) start
      start-IsConsistent

handle_of-opened : handle_of [] (some (first reserved)) opened ≡ ok (first reserved)
unfolding ledger
handle_of-opened = refl

begin_execute_late_example :
    ((begin_execute [] (some (first reserved)) (pos 100) opened).0 ≡ err wall_deadline_exhausted)
    × ((begin_execute [] (some (first reserved)) (pos 100) opened).1.usd_reserved + 5 ≡ 5)
    × (lookup 1 (begin_execute [] (some (first reserved)) (pos 100) opened).1.reservations
        ≡ some (record (first released) { reserved_usd = 0 }))
begin_execute_late_example =
    begin_execute_late [] (some (first reserved)) (pos 100) opened (first reserved)
      opened-IsConsistent handle_of-opened refl (omega arith)

-- A provider that answers with a cost of 3.
abbrev answer : Result String Reply
answer = ok (record { text = "draft"; model = "m"; estimated_usd = some (finite (pos 3)) })

adapter : Unit {0}
unfolding run step reserve_proposal_completion reserve_examiner_call reserve reserve_locked
    amount_of new_handle open_reservation begin_execute commit commit_locked settle_reservation
    release_locked handle_of require_handle execute_locked start_reservation reject_authority_kwargs
    require_finite_number require_nonnegative lookup put ◌-ℤ◌ call after_reserve after_begin
    after_reply after_cost committed_after require_known_actual_usd
adapter =
    let returns : (call 5 answer (pos 1) (pos 2) start).0
        ≡ ok (record { text = "draft"; model = "m"; estimated_usd = some (finite (pos 3)) }) =
      refl in
    let books : (call 5 answer (pos 1) (pos 2) start).1.usd_committed ≡ 3 = refl in tt

call_example : Settled answer start (call 5 answer (pos 1) (pos 2) start)
call_example = call-Settled 5 answer (pos 1) (pos 2) start
