-- ===== src/Transaction/Amount.antt =====
-- ai4/transaction/validate.py and binding.py: the arithmetic of Python's `Decimal` that they use, in
-- the default context: a product is rounded to 28 digits, half to even, an exponent that becomes too
-- large raises `decimal.Overflow`, and a number that is too small becomes 0 without an exception.
-- Comparisons and `to_integral_value` are exact.
use mathlib.Core.Logic.{dite}
use mathlib.Core.WellFounded.{Acc}
use native.Mathlib.Decide.{dec_lt}
use ai4_constrain.Prelude.{
  ℕ, suc, ◌+◌, ◌-◌, ◌*◌, ◌/◌, ◌%◌, ◌^◌, ◌<◌, Bool, ◌||◌, ◌&&◌, ◌==◌, ltb, arith, if◌then◌else◌,
}
use ai4_constrain.Prelude.Int.{ℤ, pos, pos_part, neg_part, ◌+ℤ◌}
use ai4_constrain.Transaction.{SolAmount}
use ai4_constrain.Transaction.Base58.{lt_wf}

pub tenth_lt : (n : ℕ) → ¬ (n < 10) → n / 10 < n
tenth_lt n h = omega arith

unfoldable pub digits_from : (n : ℕ) → Acc ◌<◌ n → ℕ
digits_from n (Acc.intro _ smaller) =
    dite (dec_lt n 10) (λ _. 1) (λ h. suc (digits_from (n / 10) (smaller (n / 10) (tenth_lt n h))))

-- The number of decimal digits.
unfoldable pub digits : ℕ → ℕ
digits n = digits_from n (lt_wf.apply n)

-- n / 10^shift, rounded half to even.
unfoldable pub half_even : (n shift : ℕ) → ℕ
half_even n shift =
    let quotient = n / 10 ^ shift in
    let twice = 2 * (n % 10 ^ shift) in
    if ltb (10 ^ shift) twice || (twice == 10 ^ shift && quotient % 2 == 1)
    then quotient + 1
    else quotient

abbrev max : ℕ → ℕ → ℕ
max a b = if ltb a b then b else a

-- How many digits a result loses: those beyond 28, and those below the least exponent, -1000026.
unfoldable pub digits_lost : ℕ → ℤ → ℕ
digits_lost n exponent = max (digits n - 28) (neg_part exponent - 1000026)

unfoldable pub in_context : ℕ → ℤ → SolAmount
in_context n exponent =
    let lost = digits_lost n exponent in
    record { coefficient = half_even n lost; exponent = exponent +ℤ pos lost }

-- The leading digit stands above 10^999999.
unfoldable pub overflows : SolAmount → Bool
overflows a = ltb (1000000 + neg_part a.exponent) (digits a.coefficient + pos_part a.exponent)

-- `amount * LAMPORTS_PER_SOL`, unless it overflows.
unfoldable pub in_lamports : SolAmount → SolAmount
in_lamports amount = in_context (amount.coefficient * 10 ^ 9) amount.exponent

-- `a == a.to_integral_value()`
unfoldable pub is_integral : SolAmount → Bool
is_integral a = a.coefficient * 10 ^ pos_part a.exponent % 10 ^ neg_part a.exponent == 0

-- `int(a)`
unfoldable pub int_of_decimal : SolAmount → ℕ
int_of_decimal a = a.coefficient * 10 ^ pos_part a.exponent / 10 ^ neg_part a.exponent

-- `int(amount * LAMPORTS_PER_SOL)`, for an amount whose product did not overflow before.
unfoldable pub lamports_of : SolAmount → ℕ
lamports_of amount = int_of_decimal (in_lamports amount)

-- a in units of the common power of ten with b.
abbrev pub beside : SolAmount → SolAmount → ℕ
beside a b = a.coefficient * 10 ^ pos_part a.exponent * 10 ^ neg_part b.exponent

-- `a > b` and `a == b`
unfoldable pub exceeds : SolAmount → SolAmount → Bool
exceeds a b = ltb (beside b a) (beside a b)

unfoldable pub same_amount : SolAmount → SolAmount → Bool
same_amount a b = beside a b == beside b a
