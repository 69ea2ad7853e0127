-- ===== src/Budget/Handles.antt =====
-- RunBudgetAuthority: the life of a reservation. Every call moves at most one entry of the table,
-- along reserved → executing → committed, or from reserved or executing to released.
use ai4_constrain.Prelude.{
  ℕ, ◌≡◌, refl, ap, ◌∙◌, subst, sym, ◌⊎◌, inl, inr, true, not, ltb, String, Option, some, List, [],
  ◌∷◌, arith, lookup, put, lookup-put, if-intro, Bool-cases, ◌==◌,
}
use ai4_constrain.Prelude.Int.{ℤ, pos, ltb_ℤ}
use ai4_constrain.Prelude.Result.{Result, ok, Result-cases}
use ai4_constrain.Abort.{Abort, RawNumber, reject_authority_kwargs}
use ai4_constrain.Budget.{
  State, reserved, executing, committed, released, Kind, proposal_completion, examiner_call,
  other_kind, Reservation, Authority, is_live, open_reservation, start_reservation,
  settle_reservation, release_locked, require_handle, reserve_locked, reserve,
  reserve_proposal_completion, reserve_examiner_call, begin_execute, commit, release, new_handle,
  kind_eq, lane_full, available, is_known, is_reserved, is_executing, Outcome, Call, reserve_call,
  execute_call, commit_call, release_call, step, run, execute_locked, commit_locked, handle_of,
  amount_of,
}
use ai4_constrain.Budget.Ledger.{
  IsConsistent, IsCurrent, handle_of-IsCurrent, step-IsConsistent, run-IsConsistent,
}

pub data Edge : State → State → Type 0 where
  start : Edge reserved executing
  settle : Edge executing committed
  cancel : Edge reserved released
  abandon : Edge executing released

infix 40 ◌⟶*◌
pub data ◌⟶*◌ : State → State → Type 0 where
  here : {a : State} → a ⟶* a
  along : {a b c : State} → Edge a b → b ⟶* c → a ⟶* c

-- What a step from `s` to `s'` does to the table.
pub data Effect (s s' : Authority) : Type 0 where
  keeps : s'.reservations ≡ s.reservations → Effect s s'
  moves :
      (r r' : Reservation)
      → IsCurrent r s
      → Edge r.state r'.state
      → r'.reservation_id ≡ r.reservation_id
      → r'.kind ≡ r.kind
      → s'.reservations ≡ put r.reservation_id r' s.reservations
      → Effect s s'
  opens :
      (r : Reservation)
      → r.reservation_id ≡ s.next_id
      → r.state ≡ reserved
      → s'.reservations ≡ put r.reservation_id r s.reservations
      → Effect s s'

-- The state that an outcome leaves.
record Leads (s : Authority) (o : Outcome) : Type 0 where
  effect : Effect s o.1

module _ {s : Authority} {x : Result Abort Reservation} where
  unchanged : Leads s (x, s)
  unchanged = record { effect = keeps refl }

module _ (r : Reservation) (s : Authority) (c : IsCurrent r s) where
  edge-executing : r.state ≡ reserved → Edge r.state executing
  edge-executing e = rw e start

  edge-committed : r.state ≡ executing → Edge r.state committed
  edge-committed e = rw e settle

  start_reservation-Effect : r.state ≡ reserved → Effect s (start_reservation r s)
  unfolding start_reservation
  start_reservation-Effect e =
      moves r (record r { state = executing }) c (edge-executing e) refl refl refl

  settle_reservation-Effect :
      (actual : ℕ) → r.state ≡ executing → Effect s (settle_reservation r actual s)
  unfolding settle_reservation
  settle_reservation-Effect actual e =
      moves r (record r { reserved_usd = actual; state = committed }) c (edge-committed e) refl refl
        (ground arith)

  edge-released : is_live r.state ≡ true → Edge r.state released
  edge-released e = grind (arith, cancel, abandon)

  release_locked-Effect : is_live r.state ≡ true → Effect s (release_locked r s)
  unfolding release_locked
  release_locked-Effect e =
      moves r (record r { reserved_usd = 0; state = released }) c (edge-released e) refl refl
        (ground arith)

  execute_locked-Leads : (now : ℤ) → Leads s (execute_locked r now s)
  unfolding execute_locked
  execute_locked-Leads now =
      if-intro (Leads s) (not (is_reserved r.state)) _ _ (λ _. unchanged)
        λ p.
          if-intro (Leads s) (not (ltb_ℤ now s.deadline)) _ _
            (λ _. record { effect = release_locked-Effect (ground arith) })
            λ _. record { effect = start_reservation-Effect (ground arith) }

  commit_locked-Leads : (actual : ℕ) → Leads s (commit_locked r actual s)
  unfolding commit_locked
  commit_locked-Leads actual =
      if-intro (Leads s) (not (is_executing r.state)) _ _ (λ _. unchanged)
        λ p.
          if-intro (Leads s)
            (ltb (settle_reservation r actual s).max_usd
              (settle_reservation r actual s).usd_committed)
            _ _ (λ _. record { effect = settle_reservation-Effect actual (ground arith) })
            λ _. record { effect = settle_reservation-Effect actual (ground arith) }

open_reservation-Effect :
    (kind : Kind) (amount : ℕ) (s : Authority)
    → Effect s (open_reservation (new_handle kind amount s) s)
unfolding open_reservation new_handle
open_reservation-Effect kind amount s = opens (new_handle kind amount s) refl refl (ground arith)

reserve_locked-Leads :
    (kind : Kind) (amount : ℕ) (now : ℤ) (s : Authority)
    → Leads s (reserve_locked kind amount now s)
unfolding reserve_locked
reserve_locked-Leads kind amount now s =
    if-intro (Leads s) (not (ltb_ℤ now s.deadline)) _ _ (λ _. unchanged)
      λ _.
        if-intro (Leads s) (lane_full kind s) _ _ (λ _. unchanged)
          λ _.
            if-intro (Leads s) (ltb_ℤ (available s) (pos amount)) _ _ (λ _. unchanged)
              λ _. record { effect = open_reservation-Effect kind amount s }

reserve-Leads :
    (kind : Kind) (usd : RawNumber) (now : ℤ) (s : Authority) → Leads s (reserve kind usd now s)
unfolding reserve
reserve-Leads kind usd now s = elim (Result-cases (amount_of usd)) [
  | inl (n, e) ↦ rw e (
      if-intro (Leads s) (not (is_known kind)) _ _ (λ _. unchanged)
        λ _. reserve_locked-Leads kind n now s)
  | inr (x, e) ↦ rw e (if-intro (Leads s) (not (is_known kind)) _ _ (λ _. unchanged) λ _. unchanged)
]

module _ (kwargs : List String) (handle : Option Reservation) (s : Authority)
    (h : IsConsistent s) where
  begin_execute-Leads : (now : ℤ) → Leads s (begin_execute kwargs handle now s)
  unfolding begin_execute
  begin_execute-Leads now = elim (Result-cases (handle_of kwargs handle s)) [
    | inl (r, e) ↦
        rw (e, begin_execute)
          (execute_locked-Leads r s (handle_of-IsCurrent kwargs handle s h e) now)
    | inr (x, e) ↦ rw (e, begin_execute) (unchanged)
  ]

  commit-Leads : (actual_usd : RawNumber) → Leads s (commit kwargs handle actual_usd s)
  unfolding commit
  commit-Leads actual_usd = elim (Result-cases (handle_of kwargs handle s)) [
    | inl (r, e) ↦
        rw (e, commit)
          (elim (Result-cases (amount_of actual_usd)) [
            | inl (n, d) ↦
                rw d (commit_locked-Leads r s (handle_of-IsCurrent kwargs handle s h e) n)
            | inr (x, d) ↦ rw d (unchanged)
          ])
    | inr (x, e) ↦ rw (e, commit) (unchanged)
  ]

  release-Leads : Leads s (release kwargs handle s)
  unfolding release
  release-Leads = elim (Result-cases (handle_of kwargs handle s)) [
    | inl (r, e) ↦
        rw (e, release)
          (if-intro (Leads s) (is_live r.state) _ _
            (λ p. record {
              effect = release_locked-Effect r s (handle_of-IsCurrent kwargs handle s h e) p;
            })
            λ _. unchanged)
    | inr (x, e) ↦ rw (e, release) (unchanged)
  ]

reserve_proposal_completion-Leads :
    (kwargs : List String) (usd : RawNumber) (now : ℤ) (s : Authority)
    → Leads s (reserve_proposal_completion kwargs usd now s)
unfolding reserve_proposal_completion
reserve_proposal_completion-Leads kwargs usd now s =
    elim (Result-cases (reject_authority_kwargs kwargs)) [
      | inl (u, e) ↦
          rw (e, reserve_proposal_completion) (reserve-Leads proposal_completion usd now s)
      | inr (x, e) ↦ rw (e, reserve_proposal_completion) (unchanged)
    ]

reserve_examiner_call-Leads :
    (kwargs : List String) (usd : RawNumber) (now : ℤ) (s : Authority)
    → Leads s (reserve_examiner_call kwargs usd now s)
unfolding reserve_examiner_call
reserve_examiner_call-Leads kwargs usd now s =
    elim (Result-cases (reject_authority_kwargs kwargs)) [
      | inl (u, e) ↦ rw (e, reserve_examiner_call) (reserve-Leads examiner_call usd now s)
      | inr (x, e) ↦ rw (e, reserve_examiner_call) (unchanged)
    ]

step-Leads : (c : Call) (s : Authority) → IsConsistent s → Leads s (step c s)
unfolding step
step-Leads (reserve_call proposal_completion kwargs usd now) s h =
    reserve_proposal_completion-Leads kwargs usd now s
step-Leads (reserve_call examiner_call kwargs usd now) s h =
    reserve_examiner_call-Leads kwargs usd now s
step-Leads (reserve_call (other_kind k) kwargs usd now) s h = reserve-Leads (other_kind k) usd now s
step-Leads (execute_call kwargs handle now) s h = begin_execute-Leads kwargs handle s h now
step-Leads (commit_call kwargs handle actual) s h = commit-Leads kwargs handle s h actual
step-Leads (release_call kwargs handle) s h = release-Leads kwargs handle s h

module _ (k : ℕ) (r : Reservation) where
  -- What one step may do to the entry under `k`.
  record Follows (m : List (ℕ × Reservation)) : Type 0 where
    next : Reservation
    found : lookup k m ≡ some next
    same_kind : next.kind ≡ r.kind
    edge : (next ≡ r) ⊎ Edge r.state next.state

  Effect-Follows :
      (s s' : Authority)
      → IsConsistent s
      → lookup k s.reservations ≡ some r
      → Effect s s'
      → Follows s'.reservations
  Effect-Follows s s' h e (keeps p) = record {
    next = r;
    found = rw p e;
    same_kind = refl;
    edge = inl refl;
  }
  Effect-Follows s s' h e (moves q q' c d i t p) = rw p (elim (Bool-cases (q.reservation_id == k)) [
    | inl hit ↦
        let same : q ≡ r = ground arith in
        record {
          next = q';
          found = ground (arith, lookup-put q.reservation_id k q' s.reservations);
          same_kind = t ∙ ap (λ (x : Reservation). x.kind) same;
          edge = inr (subst (λ x. Edge x.state q'.state) same d);
        }
    | inr miss ↦ record {
      next = r;
      found = ground (arith, lookup-put q.reservation_id k q' s.reservations);
      same_kind = refl;
      edge = inl refl;
    }
  ])
  Effect-Follows s s' h e (opens q i p u) = rw u (record {
    next = r;
    found = ground (arith, lookup-put q.reservation_id k q s.reservations, h.fresh k);
    same_kind = refl;
    edge = inl refl;
  })

step-Follows :
    (k : ℕ) (r : Reservation) (c : Call) (s : Authority)
    → IsConsistent s
    → lookup k s.reservations ≡ some r
    → Follows k r (step c s).1.reservations
step-Follows k r c s h e = Effect-Follows k r s (step c s).1 h e (step-Leads c s h).effect

one_edge :
    {a b : Reservation} → (b ≡ a) ⊎ Edge a.state b.state → (c : State) → b.state ⟶* c → a.state ⟶* c
one_edge (inl e) c w = subst (λ x. x.state ⟶* c) e w
one_edge (inr d) c w = along d w

-- A reservation that is in the table stays there through any run of calls, with its kind, and its
-- state has moved along the edges of the life cycle, possibly none.
pub run-⟶* :
    (cs : List Call) (s : Authority) (k : ℕ) (r : Reservation)
    → IsConsistent s
    → lookup k s.reservations ≡ some r
    → (next : Reservation) × (lookup k (run cs s).reservations ≡ some next)
      × (next.kind ≡ r.kind)
      × (r.state ⟶* next.state)
unfolding run
run-⟶* [] s k r h e = (r, e, refl, here)
run-⟶* (c ∷ cs) s k r h e =
    let f = step-Follows k r c s h e in
    let (last, found, kind, walk) =
      run-⟶* cs (step c s).1 k f.next (step-IsConsistent c s h) f.found in
    (last, found, kind ∙ f.same_kind, one_edge f.edge last.state walk)

abbrev pub IsSettled : Reservation → Type 0
IsSettled r = (r.state ≡ committed) ⊎ (r.state ≡ released)

no_edge : {a b : State} → (a ≡ committed) ⊎ (a ≡ released) → Edge a b → ⊥
no_edge e start = ground arith
no_edge e settle = ground arith
no_edge e cancel = ground arith
no_edge e abandon = ground arith

stays : {r next : Reservation} → IsSettled r → (next ≡ r) ⊎ Edge r.state next.state → next ≡ r
stays h (inl e) = e
stays h (inr d) = absurd (no_edge h d)

-- A committed or released reservation is never changed again: no call re-opens it, releases it or
-- rewrites the amount that was charged.
pub settled_frozen :
    (cs : List Call) (s : Authority) (k : ℕ) (r : Reservation)
    → IsConsistent s
    → lookup k s.reservations ≡ some r
    → IsSettled r
    → lookup k (run cs s).reservations ≡ some r
unfolding run
settled_frozen [] s k r h e d = e
settled_frozen (c ∷ cs) s k r h e d =
    let f = step-Follows k r c s h e in
    settled_frozen cs (step c s).1 k r (step-IsConsistent c s h)
      (subst (λ x. lookup k (step c s).1.reservations ≡ some x) (stays d f.edge) f.found) d

require_handle-found :
    (handle : Reservation) (s : Authority) (r : Reservation)
    → require_handle (some handle) s ≡ ok r
    → (lookup handle.reservation_id s.reservations ≡ some r) × (kind_eq r.kind handle.kind ≡ true)
unfolding require_handle
require_handle-found handle s r e = ground arith

require_handle-passes :
    (handle : Reservation) (s : Authority) (r : Reservation)
    → lookup handle.reservation_id s.reservations ≡ some r
    → kind_eq r.kind handle.kind ≡ true
    → require_handle (some handle) s ≡ ok r
unfolding require_handle
require_handle-passes handle s r e p = rw (e, require_handle) (rw p)

-- The check of a handle is made before the lock is taken. Whatever calls come between, the handle
-- still passes it, and names an entry of the same kind under the same id.
pub require_handle_stable :
    (cs : List Call) (s : Authority) (handle : Reservation) (r : Reservation)
    → IsConsistent s
    → require_handle (some handle) s ≡ ok r
    → (next : Reservation) × (require_handle (some handle) (run cs s) ≡ ok next)
      × (next.kind ≡ r.kind)
      × (next.reservation_id ≡ r.reservation_id)
require_handle_stable cs s handle r h e =
    let (found, matches) = require_handle-found handle s r e in
    let (last, kept, kind, _) = run-⟶* cs s handle.reservation_id r h found in
    let passes =
      require_handle-passes handle (run cs s) last kept
        (subst (λ k. kind_eq k handle.kind ≡ true) (sym kind) matches) in
    let id = (run-IsConsistent cs s h).keyed handle.reservation_id last kept in
    (last, passes, kind, id ∙ sym (h.keyed handle.reservation_id r found))
