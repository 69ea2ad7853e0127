-- ===== src/Budget.antt =====
-- ai4/constrain/_v07_3a/budget.py: `RunBudgetAuthority`, the run-scoped ledger of dollars and calls.
-- Amounts are whole numbers of a fixed unit, and arithmetic on them is exact (IEEE rounding is not
-- modelled). A method takes the keyword arguments it does not name, the clock reading that it makes
-- under the lock, and the authority; it returns its value or abort with the authority afterwards.
-- Every method body holds the lock, so a run is a sequence of these steps.
pub mod Rules
pub mod Ledger
pub mod Bounds
pub mod Handles
pub mod Deadline
pub mod Adapter
pub mod Lane
pub mod Room
mod Examples
use ai4_constrain.Prelude.{
  ℕ, suc, ◌+◌, ◌-◌, Bool, true, false, ◌&&◌, ◌||◌, not, Option, none, some, List, [], ◌∷◌, ◌==◌,
  leb, ltb, if◌then◌else◌, String, str_eq, lookup, put,
}
use ai4_constrain.Prelude.Int.{ℤ, pos, negsuc, ltb_ℤ, ◌-ℤ◌}
use ai4_constrain.Prelude.Result.{Result, ok, err, ◌>>=◌, ◌>>◌, guard}
use ai4_constrain.Abort.{
  Abort, already_expired_deadline, wall_deadline_exhausted, spend_reservation_rejection,
  proposal_completion_exhausted, examiner_call_exhaustion, schema_invalid, identity_drift,
  RawNumber, reject_authority_kwargs, require_finite_number, require_nonnegative,
}

-- `kind` is a string; the two constants, or any other.
pub data Kind : Type 0 where
  proposal_completion examiner_call : Kind
  other_kind : String → Kind

pub data State : Type 0 where
  reserved executing committed released : State

pub record Reservation : Type 0 where
  pub reservation_id : ℕ
  pub kind : Kind
  pub reserved_usd : ℕ
  pub state : State

pub record Authority : Type 0 where
  pub deadline : ℤ
  pub max_proposal : ℕ
  pub max_examiner : ℕ
  pub max_usd : ℕ
  pub next_id : ℕ
  pub usd_committed : ℕ
  pub usd_reserved : ℕ
  pub proposal_reserved : ℕ
  pub proposal_committed : ℕ
  pub examiner_reserved : ℕ
  pub examiner_committed : ℕ
  pub reservations : List (ℕ × Reservation)

-- An argument that must be an `int` and no `bool`.
pub data RawInt : Type 0 where
  int : ℤ → RawInt
  not_int : RawInt

pub require_count : RawInt → Result Abort ℤ
require_count (int n) = ok n
require_count not_int = err schema_invalid

pub init : List String → RawNumber → RawInt → RawInt → RawNumber → Result Abort Authority
unfolding require_count
init kwargs deadline_monotonic max_proposal_completions max_examiner_calls max_usd = do
  reject_authority_kwargs kwargs
  deadline ← require_finite_number deadline_monotonic
  proposals ← require_count max_proposal_completions
  examiners ← require_count max_examiner_calls
  guard (not (ltb_ℤ proposals (pos 0) || ltb_ℤ examiners (pos 0))) schema_invalid
  max_proposal ← require_nonnegative proposals
  max_examiner ← require_nonnegative examiners
  usd ← require_finite_number max_usd
  cap ← require_nonnegative usd
  ok (record {
    deadline = deadline;
    max_proposal = max_proposal;
    max_examiner = max_examiner;
    max_usd = cap;
    next_id = 1;
    usd_committed = 0;
    usd_reserved = 0;
    proposal_reserved = 0;
    proposal_committed = 0;
    examiner_reserved = 0;
    examiner_committed = 0;
    reservations = [];
  })

-- `usd_available` of `snapshot`, and of `_reserve`.
abbrev pub available : Authority → ℤ
available s = pos s.max_usd -ℤ pos s.usd_committed -ℤ pos s.usd_reserved

abbrev pub is_proposal : Kind → Bool
is_proposal proposal_completion = true
is_proposal _ = false

abbrev pub is_known : Kind → Bool
is_known (other_kind _) = false
is_known _ = true

abbrev pub kind_eq : Kind → Kind → Bool
kind_eq proposal_completion proposal_completion = true
kind_eq examiner_call examiner_call = true
kind_eq (other_kind a) (other_kind b) = str_eq a b
kind_eq _ _ = false

-- The moves between the four counters of the two lanes.
pub take_lane : Kind → Authority → Authority
take_lane kind s =
    if is_proposal kind
    then record s { proposal_reserved = s.proposal_reserved + 1 }
    else record s { examiner_reserved = s.examiner_reserved + 1 }

pub free_lane : Kind → Authority → Authority
free_lane kind s =
    if is_proposal kind
    then record s { proposal_reserved = s.proposal_reserved - 1 }
    else record s { examiner_reserved = s.examiner_reserved - 1 }

pub settle_lane : Kind → Authority → Authority
settle_lane kind s =
    if is_proposal kind
    then record s {
      proposal_reserved = s.proposal_reserved - 1;
      proposal_committed = s.proposal_committed + 1;
    }
    else record s {
      examiner_reserved = s.examiner_reserved - 1;
      examiner_committed = s.examiner_committed + 1;
    }

pub store : Reservation → Authority → Authority
store r s = record s { reservations = put r.reservation_id r s.reservations }

-- The state changes of the methods, without their tests.
pub open_reservation : Reservation → Authority → Authority
unfolding take_lane store
open_reservation r s =
    let t = take_lane r.kind (record s { next_id = suc s.next_id }) in
    store r (record t { usd_reserved = t.usd_reserved + r.reserved_usd })

pub start_reservation : Reservation → Authority → Authority
unfolding store
start_reservation current s = store (record current { state = executing }) s

pub settle_reservation : Reservation → ℕ → Authority → Authority
unfolding settle_lane store
settle_reservation current actual s =
    let t = record s {
      usd_reserved = s.usd_reserved - current.reserved_usd;
      usd_committed = s.usd_committed + actual;
    } in
    store (record current { reserved_usd = actual; state = committed }) (settle_lane current.kind t)

abbrev pub is_live : State → Bool
is_live reserved = true
is_live executing = true
is_live _ = false

-- `_release_locked`
pub release_locked : Reservation → Authority → Authority
unfolding free_lane store
release_locked current s =
    let t =
      if is_live current.state
      then free_lane current.kind
          (record s { usd_reserved = s.usd_reserved - current.reserved_usd })
      else s in
    store (record current { reserved_usd = 0; state = released }) t

-- `_require_handle`, with the entry that the method then reads under the same id. The argument is
-- `none` for an object that is no `RunBudgetReservation`.
pub require_handle : Option Reservation → Authority → Result Abort Reservation
require_handle none s = err schema_invalid
require_handle (some handle) s = elim (lookup handle.reservation_id s.reservations) [
  | none ↦ err schema_invalid
  | some current ↦ if kind_eq current.kind handle.kind then ok current else err identity_drift
]

abbrev pub lane_exhausted : Kind → Abort
lane_exhausted proposal_completion = proposal_completion_exhausted
lane_exhausted _ = examiner_call_exhaustion

abbrev pub lane_full : Kind → Authority → Bool
lane_full kind s =
    if is_proposal kind
    then leb s.max_proposal (s.proposal_reserved + s.proposal_committed)
    else leb s.max_examiner (s.examiner_reserved + s.examiner_committed)

pub new_handle : Kind → ℕ → Authority → Reservation
new_handle kind amount s = record {
  reservation_id = s.next_id;
  kind = kind;
  reserved_usd = amount;
  state = reserved;
}

abbrev pub Outcome : Type 0
Outcome = Result Abort Reservation × Authority

-- The part of `_reserve` under the lock.
pub reserve_locked : Kind → ℕ → ℤ → Authority → Outcome
reserve_locked kind amount now s =
    if not (ltb_ℤ now s.deadline)
    then (err already_expired_deadline, s)
    else if lane_full kind s
    then (err (lane_exhausted kind), s)
    else if ltb_ℤ (available s) (pos amount)
    then (err spend_reservation_rejection, s)
    else (ok (new_handle kind amount s), open_reservation (new_handle kind amount s) s)

pub amount_of : RawNumber → Result Abort ℕ
amount_of usd = do n ← require_finite_number usd; require_nonnegative n

pub reserve : Kind → RawNumber → ℤ → Authority → Outcome
reserve kind usd now s =
    if not (is_known kind)
    then (err schema_invalid, s)
    else elim (amount_of usd) [ err e ↦ (err e, s) | ok amount ↦ reserve_locked kind amount now s ]

pub reserve_proposal_completion : List String → RawNumber → ℤ → Authority → Outcome
reserve_proposal_completion kwargs usd now s = elim (reject_authority_kwargs kwargs) [
  | err e ↦ (err e, s)
  | ok _ ↦ reserve proposal_completion usd now s
]

pub reserve_examiner_call : List String → RawNumber → ℤ → Authority → Outcome
reserve_examiner_call kwargs usd now s = elim (reject_authority_kwargs kwargs) [
  | err e ↦ (err e, s)
  | ok _ ↦ reserve examiner_call usd now s
]

abbrev pub is_reserved : State → Bool
is_reserved reserved = true
is_reserved _ = false

abbrev pub is_executing : State → Bool
is_executing executing = true
is_executing _ = false

pub execute_locked : Reservation → ℤ → Authority → Outcome
execute_locked current now s =
    if not (is_reserved current.state)
    then (err schema_invalid, s)
    else if not (ltb_ℤ now s.deadline)
    then (err wall_deadline_exhausted, release_locked current s)
    else (ok (record current { state = executing }), start_reservation current s)

pub handle_of : List String → Option Reservation → Authority → Result Abort Reservation
unfolding require_handle
handle_of kwargs handle s = do reject_authority_kwargs kwargs; require_handle handle s

pub begin_execute : List String → Option Reservation → ℤ → Authority → Outcome
begin_execute kwargs handle now s = elim (handle_of kwargs handle s) [
  | err e ↦ (err e, s)
  | ok current ↦ execute_locked current now s
]

pub commit_locked : Reservation → ℕ → Authority → Outcome
commit_locked current actual s =
    if not (is_executing current.state)
    then (err schema_invalid, s)
    else let t = settle_reservation current actual s in
      if ltb t.max_usd t.usd_committed
      then (err spend_reservation_rejection, t)
      else (ok (record current { reserved_usd = actual; state = committed }), t)

pub commit : List String → Option Reservation → RawNumber → Authority → Outcome
commit kwargs handle actual_usd s = elim (handle_of kwargs handle s) [
  | err e ↦ (err e, s)
  | ok current ↦ elim (amount_of actual_usd) [
    | err e ↦ (err e, s)
    | ok actual ↦ commit_locked current actual s
  ]
]

pub release : List String → Option Reservation → Authority → Outcome
release kwargs handle s = elim (handle_of kwargs handle s) [
  | err e ↦ (err e, s)
  | ok current ↦
      if is_live current.state
      then (ok (record current { reserved_usd = 0; state = released }), release_locked current s)
      else (err schema_invalid, s)
]

-- A call of a method, and a run of calls, whether each returns or raises.
pub data Call : Type 0 where
  reserve_call : Kind → List String → RawNumber → ℤ → Call
  execute_call : List String → Option Reservation → ℤ → Call
  commit_call : List String → Option Reservation → RawNumber → Call
  release_call : List String → Option Reservation → Call

pub step : Call → Authority → Outcome
step (reserve_call proposal_completion kwargs usd now) s =
    reserve_proposal_completion kwargs usd now s
step (reserve_call examiner_call kwargs usd now) s = reserve_examiner_call kwargs usd now s
step (reserve_call (other_kind k) kwargs usd now) s = reserve (other_kind k) usd now s
step (execute_call kwargs handle now) s = begin_execute kwargs handle now s
step (commit_call kwargs handle actual) s = commit kwargs handle actual s
step (release_call kwargs handle) s = release kwargs handle s

pub run : List Call → Authority → Authority
run [] s = s
run (c ∷ cs) s = run cs (step c s).1
