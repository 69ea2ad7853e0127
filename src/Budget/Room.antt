-- ===== src/Budget/Room.antt =====
-- RunBudgetAuthority: the reservations that are accepted.
use ai4_constrain.Prelude.{ℕ, ◌+◌, ◌≤◌, ◌≡◌, refl, ap, true, false, ltb, arith, []}
use ai4_constrain.Prelude.Int.{ℤ, pos, ltb_ℤ, ◌-ℤ◌}
use ai4_constrain.Prelude.Result.{ok}
use ai4_constrain.Abort.{
  finite, reject_authority_kwargs, require_finite_number, require_nonnegative,
}
use ai4_constrain.Budget.{
  Kind, proposal_completion, examiner_call, Authority, available, amount_of, lane_full, reserve,
  reserve_locked, reserve_proposal_completion, reserve_examiner_call, new_handle, open_reservation,
}

affordable :
    (amount : ℕ) (s : Authority)
    → s.usd_committed + s.usd_reserved + amount ≤ s.max_usd
    → ltb_ℤ (available s) (pos amount) ≡ false
unfolding ◌-ℤ◌
affordable amount s h = ground arith

-- Before the deadline, with room in its lane and the money left, a reservation is accepted.
module _ (amount : ℕ) (now : ℤ) (s : Authority) (early : ltb_ℤ now s.deadline ≡ true)
    (left : s.usd_committed + s.usd_reserved + amount ≤ s.max_usd) where
  reserve_locked-room :
      (kind : Kind)
      → lane_full kind s ≡ false
      → reserve_locked kind amount now s
        ≡ (ok (new_handle kind amount s), open_reservation (new_handle kind amount s) s)
  unfolding reserve_locked
  reserve_locked-room kind room = rw (early, room, affordable amount s left) refl

  pub reserve_proposal_completion-room :
      ltb (s.proposal_committed + s.proposal_reserved) s.max_proposal ≡ true
      → (reserve_proposal_completion [] (finite (pos amount)) now s).0
        ≡ ok (new_handle proposal_completion amount s)
  unfolding reserve_proposal_completion reserve reject_authority_kwargs amount_of
      require_finite_number require_nonnegative
  reserve_proposal_completion-room h =
      ap (λ o. o.0) (reserve_locked-room proposal_completion (ground arith))

  pub reserve_examiner_call-room :
      ltb (s.examiner_committed + s.examiner_reserved) s.max_examiner ≡ true
      → (reserve_examiner_call [] (finite (pos amount)) now s).0
        ≡ ok (new_handle examiner_call amount s)
  unfolding reserve_examiner_call reserve reject_authority_kwargs amount_of require_finite_number
      require_nonnegative
  reserve_examiner_call-room h = ap (λ o. o.0) (reserve_locked-room examiner_call (ground arith))
