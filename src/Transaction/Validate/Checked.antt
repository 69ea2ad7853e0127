-- ===== src/Transaction/Validate/Checked.antt =====
-- ai4/transaction/validate.py: what a transfer that passes the checks satisfies.
use native.Mathlib.Nat.{div-add-mod, one-le-pow, mod-lt}
use ai4_constrain.Prelude.{
  ℕ, ◌+◌, ◌*◌, ◌^◌, ◌/◌, ◌%◌, ◌<◌, ltb, ◌||◌, ◌&&◌, ◌≤◌, ◌≡◌, refl, true, false, not, Option, [],
  String, ◌==◌, leb, leb→le, if-intro, arith,
}
use ai4_constrain.Prelude.Int.{ℤ, pos_part, neg_part, ◌+ℤ◌, pos, negsuc}
use ai4_constrain.Prelude.Result.{
  Result, ok, err, Returns, returned, Returns-bind, Returns-then, Returns-guard,
}
use ai4_constrain.Transaction.{
  RawText, RawAmount, boolean, no_decimal, not_finite, decimal, SolAmount, TransferIntent,
  NormalizedIntent, Texts, Reasons,
}
use ai4_constrain.Transaction.Amount.{
  digits_lost, in_context, int_of_decimal, half_even, in_lamports, overflows, is_integral,
  lamports_of, exceeds,
}
use ai4_constrain.Transaction.Validate.{
  not_positive, checked_amount, parse_positive_sol, parse_sol_amount, parse_max_amount,
  max_lamports, parse_network, parse_asset, parse_action, validate_solana_address, custody_reasons,
  raise_reasons, reject_custody_flags, invalid_or, validate_transfer_intent, AddressShape,
}

abbrev Near : ℕ → ℕ → ℕ → Type 0
Near n unit rounded = (2 * n ≤ 2 * (rounded * unit) + unit) × (2 * (rounded * unit) ≤ 2 * n + unit)

up-Near : (n q m r : ℕ) → m * q + r ≡ n → r < m → m ≤ 2 * r → Near n m (q + 1)
up-Near n q m r parts less half =
    let next : (q + 1) * m ≡ m * q + m = omega arith in (omega (arith, next), omega (arith, next))

down-Near : (n q m r : ℕ) → m * q + r ≡ n → r < m → 2 * r ≤ m → Near n m q
down-Near n q m r parts less half =
    let same : q * m ≡ m * q = omega arith in (omega (arith, same), omega (arith, same))

half_even-Near : (n shift : ℕ) → Near n (10 ^ shift) (half_even n shift)
unfolding half_even
half_even-Near n shift =
    let m = 10 ^ shift in
    let r = n % m in
    let parts = div-add-mod n m in
    let less : r < m = mod-lt n (one-le-pow shift 10 (omega arith)) in
    if-intro (λ rounded. Near n m rounded) (ltb m (2 * r) || (2 * r == m && n / m % 2 == 1))
      (n / m + 1) (n / m) (λ up. up-Near n (n / m) m r parts less (ground arith))
      λ down. down-Near n (n / m) m r parts less (ground arith)

-- The lamports are a whole number of the form `rounded` times a power of ten, where `rounded` is the
-- exact product without the digits that are lost, to the nearest.
abbrev pub Rounded : ℕ → ℤ → ℕ → Type 0
Rounded c e lamports =
    let lost = digits_lost (c * 10 ^ 9) e in
    (rounded : ℕ) × Near (c * 10 ^ 9) (10 ^ lost) rounded
    × (lamports * 10 ^ neg_part (e +ℤ pos lost) ≡ rounded * 10 ^ pos_part (e +ℤ pos lost))

pub quotient_exact : (a m : ℕ) → (a % m == 0) ≡ true → a / m * m ≡ a
quotient_exact a m h = let whole : a % m ≡ 0 = ground arith in omega (arith, div-add-mod a m)

lamports_of-Rounded :
    (a : SolAmount)
    → is_integral (in_lamports a) ≡ true
    → Rounded a.coefficient a.exponent (lamports_of a)
unfolding lamports_of in_lamports in_context is_integral int_of_decimal
lamports_of-Rounded a whole =
    let product = a.coefficient * 10 ^ 9 in
    let lost = digits_lost product a.exponent in
    (half_even product lost, half_even-Near product lost, quotient_exact _ _ whole)

-- The amount is the one that was given, and its product with the lamports of a SOL is whole.
abbrev pub Given : RawAmount → SolAmount → Type 0
Given amount a =
    (amount ≡ decimal (pos a.coefficient) a.exponent)
    × (1 ≤ a.coefficient)
    × (overflows (in_lamports a) ≡ false)
    × (is_integral (in_lamports a) ≡ true)
    × (lamports_of a ≤ max_lamports)
    × Rounded a.coefficient a.exponent (lamports_of a)

checked_amount-Given :
    (field : String) (a : SolAmount)
    → 1 ≤ a.coefficient
    → Returns (Given (decimal (pos a.coefficient) a.exponent)) (checked_amount field a)
unfolding checked_amount
checked_amount-Given field a le =
    let P = Given (decimal (pos a.coefficient) a.exponent) in
    Returns-guard P (not (overflows (in_lamports a))) _ _ λ fits.
      Returns-guard P (is_integral (in_lamports a)) _ _ λ whole.
        Returns-guard P (leb (lamports_of a) max_lamports) _ (ok a) λ small. (
          refl,
          le,
          ground arith,
          whole,
          leb→le (lamports_of a) max_lamports small,
          lamports_of-Rounded a whole,
        )

parse_positive_sol-Given :
    (field : String) (amount : RawAmount) → Returns (Given amount) (parse_positive_sol field amount)
unfolding parse_positive_sol not_positive
parse_positive_sol-Given field boolean = tt
parse_positive_sol-Given field no_decimal = tt
parse_positive_sol-Given field not_finite = tt
parse_positive_sol-Given field (decimal (negsuc n) e) = tt
parse_positive_sol-Given field (decimal (pos n) e) =
    if-intro (Returns (Given (decimal (pos n) e))) (n == 0) _ _ (λ _. tt)
      λ some. checked_amount-Given field (record { coefficient = n; exponent = e }) (ground arith)

validate_solana_address-AddressShape :
    (texts : Texts) (value : RawText) → Returns AddressShape (validate_solana_address texts value)
unfolding validate_solana_address
validate_solana_address-AddressShape texts value = ground arith

parse_action-transfer :
    (texts : Texts) (value : Option RawText)
    → Returns (λ action. action ≡ "transfer") (parse_action texts value)
unfolding parse_action
parse_action-transfer texts value = ground arith

reject_custody_flags-none :
    (intent : TransferIntent)
    → Returns (λ _. custody_reasons intent ≡ []) (reject_custody_flags intent)
unfolding reject_custody_flags raise_reasons
reject_custody_flags-none intent = ground arith

invalid_or-returned {ℓ κ} :
    {A : Type ℓ} (P : A → Type κ) (r : Result Reasons A) (value : A)
    → Returns P r
    → invalid_or r ≡ ok value
    → P value
invalid_or-returned P (err reasons) value p h = cc
invalid_or-returned P (ok found) value p h = returned P (ok found) p same
  where
    same : ◌≡◌ {A = Result Reasons _} (ok found) (ok value)
    same = cc

abbrev pub Checked : RawAmount → TransferIntent → NormalizedIntent → Type 0
Checked max_amount_sol intent n =
    (custody_reasons intent ≡ [])
    × (n.action ≡ "transfer")
    × Given intent.amount n.amount
    × (n.lamports ≡ lamports_of n.amount)
    × ((cap : SolAmount) × Given max_amount_sol cap × (exceeds n.amount cap ≡ false))
    × AddressShape n.destination

-- A transfer that passes the checks has no custody flag set, is the `transfer` action, and keeps the
-- amount that was given, which is positive. The stored lamports are an unsigned 64-bit integer: the
-- exact product of the amount and 10^9 without the digits that Python's decimal context loses (those
-- beyond 28, and those below its least exponent), rounded to the nearest, which is whole and does not
-- overflow. The amount does not exceed the cap, which passed the same tests, and the destination has
-- 32 to 44 characters, none of which ends a URI.
pub validate_transfer_intent-Checked :
    (texts : Texts) (format : SolAmount → String) (max_amount_sol : RawAmount)
    (intent : TransferIntent)
    → Returns
        (Checked max_amount_sol intent)
        (validate_transfer_intent texts format max_amount_sol intent)
unfolding validate_transfer_intent parse_sol_amount parse_max_amount
validate_transfer_intent-Checked texts format max_amount_sol intent =
    let P = Checked max_amount_sol intent in
    Returns-then P (invalid_or (reject_custody_flags intent)) _ λ flags.
      Returns-bind P (invalid_or (parse_action texts intent.action)) _ λ action act.
        Returns-bind P (invalid_or (parse_network texts intent.network)) _ λ network _.
          Returns-bind P (invalid_or (parse_asset texts intent.asset)) _ λ asset _.
            Returns-bind P (parse_positive_sol "amount" intent.amount) _ λ amount sum.
              Returns-bind P (parse_positive_sol "max_amount" max_amount_sol) _ λ cap most.
                Returns-guard P (not (exceeds amount cap)) _ _ λ le.
                  Returns-bind P (invalid_or (validate_solana_address texts intent.destination)) _
                    λ destination to. (
                      invalid_or-returned (λ _. custody_reasons intent ≡ [])
                          (reject_custody_flags intent) tt (reject_custody_flags-none intent) flags,
                      invalid_or-returned (λ a. a ≡ "transfer") (parse_action texts intent.action)
                          action (parse_action-transfer texts intent.action) act,
                      returned _ _ (parse_positive_sol-Given "amount" intent.amount) sum,
                      refl,
                      (
                        cap,
                        returned _ _ (parse_positive_sol-Given "max_amount" max_amount_sol) most,
                        ground arith,
                      ),
                      invalid_or-returned AddressShape
                          (validate_solana_address texts intent.destination) destination
                          (validate_solana_address-AddressShape texts intent.destination) to,
                    )
