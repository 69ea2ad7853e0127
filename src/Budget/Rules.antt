-- ===== src/Budget/Rules.antt =====
-- RunBudgetAuthority: a rule for invariants. What the locked parts of the methods keep is kept by
-- every run of calls, where the clock readings satisfy `T` and the commits `A`.
use ai4_constrain.Prelude.{ℕ, ◌≡◌, inl, inr, true, not, String, Option, List, [], ◌∷◌, if-intro}
use ai4_constrain.Prelude.Int.{ℤ}
use ai4_constrain.Prelude.Result.{ok, Result-cases}
use ai4_constrain.Abort.{RawNumber, reject_authority_kwargs}
use ai4_constrain.Budget.{
  Kind, proposal_completion, examiner_call, other_kind, Reservation, Authority, Outcome, is_live,
  is_known, release_locked, reserve_locked, reserve, reserve_proposal_completion,
  reserve_examiner_call, begin_execute, commit, release, Call, reserve_call, execute_call,
  commit_call, release_call, step, run, execute_locked, commit_locked, handle_of, amount_of,
}
use ai4_constrain.Budget.Ledger.{IsConsistent, IsCurrent, handle_of-IsCurrent, step-IsConsistent}

pub record Keeps (P : Authority → Type 0) (T : ℤ → Type 0) (A : Reservation → ℕ → Type 0)
    : Type 0 where
  pub reserving :
      (kind : Kind) (amount : ℕ) (now : ℤ) (s : Authority)
      → T now
      → P s
      → P (reserve_locked kind amount now s).1
  pub executing :
      (r : Reservation) (now : ℤ) (s : Authority)
      → IsConsistent s
      → IsCurrent r s
      → T now
      → P s
      → P (execute_locked r now s).1
  pub committing :
      (r : Reservation) (actual : ℕ) (s : Authority)
      → IsConsistent s
      → IsCurrent r s
      → A r actual
      → P s
      → P (commit_locked r actual s).1
  pub releasing :
      (r : Reservation) (s : Authority)
      → IsConsistent s
      → IsCurrent r s
      → is_live r.state ≡ true
      → P s
      → P (release_locked r s)

-- What is asked of one call: of its clock reading, or of the amount that it commits.
abbrev pub Obeys : (ℤ → Type 0) → (Reservation → ℕ → Type 0) → Call → Authority → Type 0
Obeys T A (reserve_call _ _ _ now) s = T now
Obeys T A (execute_call _ _ now) s = T now
Obeys T A (commit_call kwargs handle usd) s =
    (r : Reservation) (n : ℕ) → handle_of kwargs handle s ≡ ok r → amount_of usd ≡ ok n → A r n
Obeys T A (release_call _ _) s = Unit

abbrev pub AllObey : (ℤ → Type 0) → (Reservation → ℕ → Type 0) → List Call → Authority → Type 0
AllObey T A [] s = Unit
AllObey T A (c ∷ cs) s = Obeys T A c s × AllObey T A cs (step c s).1

module _ {P : Authority → Type 0} {T : ℤ → Type 0} {A : Reservation → ℕ → Type 0}
    (keep : Keeps P T A) (s : Authority) (h : IsConsistent s) (p : P s) where
  abbrev Leaves : Outcome → Type 0
  Leaves o = P o.1

  reserve_keeps : (kind : Kind) (usd : RawNumber) (now : ℤ) → T now → P (reserve kind usd now s).1
  unfolding reserve
  reserve_keeps kind usd now t = elim (Result-cases (amount_of usd)) [
    | inl (n, e) ↦
        rw e
          (if-intro Leaves (not (is_known kind)) _ _ (λ _. p) λ _. keep.reserving kind n now s t p)
    | inr (x, e) ↦ rw e (if-intro Leaves (not (is_known kind)) _ _ (λ _. p) λ _. p)
  ]

  reserve_proposal_completion_keeps :
      (kwargs : List String) (usd : RawNumber) (now : ℤ)
      → T now
      → P (reserve_proposal_completion kwargs usd now s).1
  unfolding reserve_proposal_completion
  reserve_proposal_completion_keeps kwargs usd now t =
      elim (Result-cases (reject_authority_kwargs kwargs)) [
        | inl (u, e) ↦
            rw (e, reserve_proposal_completion) (reserve_keeps proposal_completion usd now t)
        | inr (x, e) ↦ rw (e, reserve_proposal_completion) p
      ]

  reserve_examiner_call_keeps :
      (kwargs : List String) (usd : RawNumber) (now : ℤ)
      → T now
      → P (reserve_examiner_call kwargs usd now s).1
  unfolding reserve_examiner_call
  reserve_examiner_call_keeps kwargs usd now t =
      elim (Result-cases (reject_authority_kwargs kwargs)) [
        | inl (u, e) ↦ rw (e, reserve_examiner_call) (reserve_keeps examiner_call usd now t)
        | inr (x, e) ↦ rw (e, reserve_examiner_call) p
      ]

  module _ (kwargs : List String) (handle : Option Reservation) where
    begin_execute_keeps : (now : ℤ) → T now → P (begin_execute kwargs handle now s).1
    unfolding begin_execute
    begin_execute_keeps now t = elim (Result-cases (handle_of kwargs handle s)) [
      | inl (r, e) ↦
          rw (e, begin_execute)
            (keep.executing r now s h (handle_of-IsCurrent kwargs handle s h e) t p)
      | inr (x, e) ↦ rw (e, begin_execute) p
    ]

    commit_keeps :
        (usd : RawNumber)
        → ((r : Reservation) (n : ℕ)
            → handle_of kwargs handle s ≡ ok r
            → amount_of usd ≡ ok n
            → A r n)
        → P (commit kwargs handle usd s).1
    unfolding commit
    commit_keeps usd a = elim (Result-cases (handle_of kwargs handle s)) [
      | inl (r, e) ↦
          rw (e, commit)
            (elim (Result-cases (amount_of usd)) [
              | inl (n, d) ↦
                  rw d (
                    keep.committing r n s h (handle_of-IsCurrent kwargs handle s h e) (a r n e d) p)
              | inr (x, d) ↦ rw d p
            ])
      | inr (x, e) ↦ rw (e, commit) p
    ]

    release_keeps : P (release kwargs handle s).1
    unfolding release
    release_keeps = elim (Result-cases (handle_of kwargs handle s)) [
      | inl (r, e) ↦
          rw (e, release)
            (if-intro Leaves (is_live r.state) _ _
              (λ live. keep.releasing r s h (handle_of-IsCurrent kwargs handle s h e) live p)
              λ _. p)
      | inr (x, e) ↦ rw (e, release) p
    ]

  step_keeps : (c : Call) → Obeys T A c s → P (step c s).1
  unfolding step
  step_keeps (reserve_call proposal_completion kwargs usd now) o =
      reserve_proposal_completion_keeps kwargs usd now o
  step_keeps (reserve_call examiner_call kwargs usd now) o =
      reserve_examiner_call_keeps kwargs usd now o
  step_keeps (reserve_call (other_kind k) kwargs usd now) o = reserve_keeps (other_kind k) usd now o
  step_keeps (execute_call kwargs handle now) o = begin_execute_keeps kwargs handle now o
  step_keeps (commit_call kwargs handle usd) o = commit_keeps kwargs handle usd o
  step_keeps (release_call kwargs handle) o = release_keeps kwargs handle

module _ {P : Authority → Type 0} {T : ℤ → Type 0} {A : Reservation → ℕ → Type 0}
    (keep : Keeps P T A) where
  pub run_keeps :
      (cs : List Call) (s : Authority) → IsConsistent s → P s → AllObey T A cs s → P (run cs s)
  unfolding run
  run_keeps [] s h p o = p
  run_keeps (c ∷ cs) s h p o =
      run_keeps cs (step c s).1 (step-IsConsistent c s h) (step_keeps keep s h p c o.0) o.1

pub obey_anything : (cs : List Call) (s : Authority) → AllObey (λ _. Unit) (λ _ _. Unit) cs s
obey_anything [] s = tt
obey_anything (reserve_call _ _ _ _ ∷ cs) s = (tt, obey_anything cs _)
obey_anything (execute_call _ _ _ ∷ cs) s = (tt, obey_anything cs _)
obey_anything (commit_call _ _ _ ∷ cs) s = (λ _ _ _ _. tt, obey_anything cs _)
obey_anything (release_call _ _ ∷ cs) s = (tt, obey_anything cs _)
