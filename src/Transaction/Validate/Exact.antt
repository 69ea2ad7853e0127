-- ===== src/Transaction/Validate/Exact.antt =====
-- ai4/transaction/validate.py: the amounts that are converted to lamports exactly.
use mathlib.Core.Logic.{dite}
use mathlib.Core.WellFounded.{Acc}
use native.Mathlib.Decide.{dec_lt}
use native.Mathlib.Nat.{pow-succ', mul-pos, one-le-pow}
use ai4_constrain.Prelude.{
  ℕ, zero, suc, ◌*◌, ◌/◌, ◌%◌, ◌^◌, ◌≤◌, ◌<◌, ◌≡◌, ap, sym, ◌∙◌, subst, true, String, ◌==◌, arith,
}
use ai4_constrain.Prelude.Int.{ℤ, pos, negsuc, pos_part, neg_part, ◌+ℤ◌}
use ai4_constrain.Prelude.Result.{Returns, Returns-map}
use ai4_constrain.Transaction.{RawAmount, decimal, SolAmount, TransferIntent, Texts}
use ai4_constrain.Transaction.Amount.{
  digits_from, digits, tenth_lt, half_even, digits_lost, in_context, in_lamports, is_integral,
  int_of_decimal, lamports_of,
}
use ai4_constrain.Transaction.Validate.{validate_transfer_intent}
use ai4_constrain.Transaction.Validate.Checked.{quotient_exact, validate_transfer_intent-Checked}

dite_le :
    {P : Type 0} (d : Dec P) (x : P → ℕ) (y : ¬ P → ℕ) (b : ℕ)
    → ((h : P) → x h ≤ b)
    → ((h : ¬ P) → y h ≤ b)
    → dite d x y ≤ b
dite_le (yes h) x y b left right = left h
dite_le (no h) x y b left right = right h

digits_from_le : (k n : ℕ) (w : Acc ◌<◌ n) → n < 10 ^ suc k → digits_from n w ≤ suc k
unfolding digits_from
digits_from_le zero n (Acc.intro _ smaller) h =
    dite_le (dec_lt n 10) _ _ 1 (λ _. omega arith)
      λ large. absurd (large (subst (λ b. n < b) (pow-succ' 10 0) h))
digits_from_le (suc k) n (Acc.intro _ smaller) h =
    let ten : 10 ^ suc (suc k) ≡ 10 * 10 ^ suc k = pow-succ' 10 (suc k) in
    dite_le (dec_lt n 10) _ _ (suc (suc k)) (λ _. omega arith)
      λ large.
        let less : n / 10 < 10 ^ suc k = omega (arith, ten) in
        let rest = digits_from_le k (n / 10) (smaller (n / 10) (tenth_lt n large)) less in
        omega (arith, rest)

-- A number of at most 28 digits is kept.
digits_le : (n : ℕ) → n < 10 ^ 28 → digits n ≤ 28
unfolding digits
digits_le n h = digits_from_le 27 n _ h

digits_lost_none : (n : ℕ) (e : ℤ) → n < 10 ^ 28 → neg_part e ≤ 1000026 → digits_lost n e ≡ 0
unfolding digits_lost
digits_lost_none n e h small = ground (arith, digits_le n h)

half_even_none : (n : ℕ) → half_even n 0 ≡ n
unfolding half_even
half_even_none n = ground arith

plus_zero : (e : ℤ) → e +ℤ pos 0 ≡ e
unfolding ◌+ℤ◌
plus_zero (pos n) = ground arith
plus_zero (negsuc n) = ground arith

in_lamports_exact :
    (c : ℕ) (e : ℤ)
    → c < 10 ^ 19
    → neg_part e ≤ 1000026
    → in_lamports (record { coefficient = c; exponent = e })
      ≡ record { coefficient = c * 10 ^ 9; exponent = e }
unfolding in_lamports in_context
in_lamports_exact c e h small =
    let none = digits_lost_none (c * 10 ^ 9) e (omega arith) small in
    let kept : half_even (c * 10 ^ 9) (digits_lost (c * 10 ^ 9) e) ≡ c * 10 ^ 9 =
      ap (half_even (c * 10 ^ 9)) none ∙ half_even_none (c * 10 ^ 9) in
    let same : e +ℤ pos (digits_lost (c * 10 ^ 9) e) ≡ e =
      ap (λ k. e +ℤ pos k) none ∙ plus_zero e in
    λ i. record { coefficient = kept i; exponent = same i }

factor_positive : (q m : ℕ) → 1 ≤ q * m → 1 ≤ q
factor_positive zero m h = omega arith
factor_positive (suc q) m h = omega arith

-- The lamports are the amount times 10^9, with both sides times the power of ten of its decimals.
abbrev pub Exact : ℕ → ℤ → ℕ → Type 0
Exact c e lamports = (lamports * 10 ^ neg_part e ≡ c * 10 ^ 9 * 10 ^ pos_part e) × (1 ≤ lamports)

lamports_of-Exact :
    (c : ℕ) (e : ℤ)
    → c < 10 ^ 19
    → neg_part e ≤ 1000026
    → 1 ≤ c
    → is_integral (in_lamports (record { coefficient = c; exponent = e })) ≡ true
    → Exact c e (lamports_of (record { coefficient = c; exponent = e }))
unfolding lamports_of int_of_decimal is_integral
lamports_of-Exact c e h small positive whole =
    let product = in_lamports_exact c e h small in
    let sum = c * 10 ^ 9 * 10 ^ pos_part e in
    let unit = 10 ^ neg_part e in
    let integral : (sum % unit == 0) ≡ true =
      subst (λ p. (p.coefficient * 10 ^ pos_part p.exponent % 10 ^ neg_part p.exponent == 0) ≡ true)
        product whole in
    let lamports : int_of_decimal (in_lamports (record { coefficient = c; exponent = e }))
        ≡ sum / unit =
      ap int_of_decimal product in
    let exact : sum / unit * unit ≡ sum = quotient_exact sum unit integral in
    let some : 0 < sum = mul-pos (omega arith) (one-le-pow (pos_part e) 10 (omega arith)) in
    let some_lamport : 1 ≤ sum / unit =
      factor_positive (sum / unit) unit (subst (λ n. 1 ≤ n) (sym exact) some) in
    (ap (λ n. n * unit) lamports ∙ exact, subst (λ n. 1 ≤ n) (sym lamports) some_lamport)

decimal_same :
    (a : SolAmount) (c : ℕ) (e : ℤ)
    → decimal (pos a.coefficient) a.exponent ≡ decimal (pos c) e
    → a ≡ record { coefficient = c; exponent = e }
decimal_same a c e h =
    let coefficients : a.coefficient ≡ c = cc in
    let exponents : a.exponent ≡ e = cc in
    λ i. record { coefficient = coefficients i; exponent = exponents i }

-- An amount with a coefficient of at most 19 digits and an exponent of at least -1000026, if the
-- transfer passes the checks, is converted exactly: the stored lamports are the amount times 10^9, and
-- at least one.
pub validate_transfer_intent-Exact :
    (texts : Texts) (format : SolAmount → String) (max_amount_sol : RawAmount)
    (intent : TransferIntent) (c : ℕ) (e : ℤ)
    → intent.amount ≡ decimal (pos c) e
    → c < 10 ^ 19
    → neg_part e ≤ 1000026
    → Returns
        (λ n. Exact c e n.lamports)
        (validate_transfer_intent texts format max_amount_sol intent)
validate_transfer_intent-Exact texts format max_amount_sol intent c e is small least =
    Returns-map (validate_transfer_intent texts format max_amount_sol intent)
      (validate_transfer_intent-Checked texts format max_amount_sol intent)
      λ n (custody, action, (same, positive, fits, whole, bounded, near), lamports, cap, address).
        let amount = decimal_same n.amount c e (sym same ∙ is) in
        subst (Exact c e) (sym (lamports ∙ ap lamports_of amount)) (
          lamports_of-Exact c e small least (subst (λ a. 1 ≤ a.coefficient) amount positive)
            (subst (λ a. is_integral (in_lamports a) ≡ true) amount whole))
