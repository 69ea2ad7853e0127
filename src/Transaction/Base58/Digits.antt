-- ===== src/Transaction/Base58/Digits.antt =====
-- ai4/transaction/_base58.py: the digits that b58encode writes, read by b58decode.
use Prim.Native.Char.{Char, code}
use mathlib.Core.Logic.{ite, dite}
use mathlib.Core.WellFounded
use mathlib.Core.WellFounded.{Acc, Acc-prop}
use native.Mathlib.Decide.{dec_lt}
use ai4_constrain.Prelude.{
  ℕ, zero, suc, ◌+◌, ◌*◌, ◌/◌, ◌%◌, ◌<◌, ◌≡◌, refl, ap, Bool, true, false, ◌&&◌, Option, none, some,
  String, ◌==◌, ==_iff, if◌then◌else◌, arith, Bool-cases, inl, inr, ◌∙◌, ◌⊎◌, sym,
}
use ai4_constrain.Prelude.Result.{ok}
use ai4_constrain.Transaction.Base58.{
  alphabet, index_of, index_from, number_of, ones_in_front, digit_lt, lt_wf, char_at, prepend, emit,
  digits, ones,
}

abbrev is_digit : ℕ → Char → Option ℕ → Bool
is_digit r c none = false
is_digit r c (some j) =
    j == r && (if r == 0 then code c == b'1' else (if code c == b'1' then false else true))

abbrev digit_test : ℕ → Option Char → Bool
digit_test r none = false
digit_test r (some c) = is_digit r c (index_of c)

all_digits : ℕ → Bool
all_digits zero = true
all_digits (suc r) = digit_test r (char_at r alphabet) && all_digits r

all_58 : all_digits 58 ≡ true
unfolding all_digits alphabet index_of index_from char_at
all_58 = refl

digit_test-all : (k r : ℕ) → r < k → all_digits k ≡ true → digit_test r (char_at r alphabet) ≡ true
unfolding all_digits
digit_test-all zero r h all = absurd (omega arith)
digit_test-all (suc k) r h all = elim (Bool-cases (r == k)) [
  | inl same ↦ ap (λ j. digit_test j (char_at j alphabet)) ((==_iff r k).0 same) ∙ ground arith
  | inr other ↦ digit_test-all k r (ground (arith, other)) (ground arith)
]

-- A digit's character stands for that digit, and is "1" exactly for 0.
abbrev Digit : ℕ → Type 0
Digit r =
    (c : Char) × (char_at r alphabet ≡ some c)
    × (index_of c ≡ some r)
    × ((code c == b'1') ≡ (r == 0))

digit_test-Digit :
    (r : ℕ) (o : Option Char) → char_at r alphabet ≡ o → digit_test r o ≡ true → Digit r
digit_test-Digit r none e h = cc
digit_test-Digit r (some c) e h = (c, e, index c (index_of c) refl h, ground arith)
  where
    index : (c : Char) (o : Option ℕ) → index_of c ≡ o → is_digit r c o ≡ true → index_of c ≡ some r
    index c none e h = cc
    index c (some j) e h = e ∙ ap some ((==_iff j r).0 (ground arith))

pub below-Digit : (r : ℕ) → r < 58 → Digit r
below-Digit r h = digit_test-Digit r _ refl (digit_test-all 58 r h all_58)

pub zero_or_positive : (n : ℕ) → (n ≡ 0) ⊎ (0 < n)
zero_or_positive zero = inl refl
zero_or_positive (suc n) = inr (omega arith)

emit_step :
    (n : ℕ) (w : Acc ◌<◌ n) (w' : Acc ◌<◌ (n / 58)) (out : String)
    → emit n w out
      ≡ ite (dec_lt 0 n) (emit (n / 58) w' (prepend (char_at (n % 58) alphabet) out)) out
unfolding emit
emit_step n (Acc.intro _ smaller) w' out = λ i.
    dite (dec_lt 0 n)
      (λ h.
        emit (n / 58) (Acc-prop (smaller (n / 58) (digit_lt n h)) w' i)
          (prepend (char_at (n % 58) alphabet) out))
      (λ _. out)

-- The loop of `b58encode`: a round as long as the number is positive.
pub digits_step :
    (n : ℕ) (out : String)
    → digits n out
      ≡ ite (dec_lt 0 n) (digits (n / 58) (prepend (char_at (n % 58) alphabet) out)) out
unfolding digits
digits_step n = emit_step n _ _

pub ite_yes {ℓ} : {A : Type ℓ} (n : ℕ) (d : Dec (0 < n)) (x y : A) → 0 < n → ite d x y ≡ x
ite_yes n (yes p) x y h = refl
ite_yes n (no q) x y h = absurd (q h)

pub digits_positive :
    (n : ℕ) (out : String)
    → 0 < n
    → digits n out ≡ digits (n / 58) (prepend (char_at (n % 58) alphabet) out)
digits_positive n out h = digits_step n out ∙ ite_yes n (dec_lt 0 n) _ out h

pub digits_zero : (out : String) → digits 0 out ≡ out
unfolding digits emit lt_wf dec_lt
digits_zero out = refl

number_of-cons :
    (c : Char) (r m : ℕ) (out : String)
    → index_of c ≡ some r
    → number_of (String.◌∷◌ c out) m ≡ number_of out (m * 58 + r)
unfolding number_of
number_of-cons c r m out e = rw (e, number_of) refl

-- Reading the last digit after the digits before it gives the number.
number_of_last :
    (n : ℕ) (out : String)
    → number_of (prepend (char_at (n % 58) alphabet) out) (n / 58) ≡ number_of out n
number_of_last n out =
    let d = below-Digit (n % 58) (omega arith) in
    ap (λ o. number_of (prepend o out) (n / 58)) d.1
    ∙ number_of-cons d.0 (n % 58) (n / 58) out d.2
    ∙ ap (number_of out) (omega arith)

number_of-digits_any : (n : ℕ) (out : String) → number_of (digits n out) 0 ≡ number_of out n
number_of-digits_any n =
    WellFounded.induction lt_wf
      {C = λ m. (out : String) → number_of (digits m out) 0 ≡ number_of out m} n
      λ m ih out. elim (zero_or_positive m) [
        | inl z ↦
            ap (λ k. number_of (digits k out) 0) z
            ∙ ap (λ t. number_of t 0) (digits_zero out)
            ∙ ap (number_of out) (sym z)
        | inr h ↦
            ap (λ t. number_of t 0) (digits_positive m out h)
            ∙ ih (m / 58) (digit_lt m h) _
            ∙ number_of_last m out
      ]

pub number_of-digits : (n : ℕ) → number_of (digits n "") 0 ≡ ok n
unfolding number_of
number_of-digits n = number_of-digits_any n ""

pub number_of-ones : (pad : ℕ) (s : String) → number_of (ones pad s) 0 ≡ number_of s 0
unfolding number_of index_of index_from alphabet
number_of-ones zero s = refl
number_of-ones (suc pad) s = number_of-ones pad s

ones_in_front-cons :
    (c : Char) (r : ℕ) (out : String)
    → (code c == b'1') ≡ (r == 0)
    → 0 < r
    → ones_in_front (String.◌∷◌ c out) ≡ 0
unfolding ones_in_front
ones_in_front-cons c r out e h = ground arith

ones_in_front_last :
    (n : ℕ) (out : String)
    → 0 < n
    → n < 58
    → ones_in_front (prepend (char_at (n % 58) alphabet) out) ≡ 0
ones_in_front_last n out h k =
    let d = below-Digit (n % 58) (omega arith) in
    ap (λ o. ones_in_front (prepend o out)) d.1
    ∙ ones_in_front-cons d.0 (n % 58) out d.3 (omega arith)

-- A positive number is written without a "1" in front.
ones_in_front-digits_any : (n : ℕ) (out : String) → 0 < n → ones_in_front (digits n out) ≡ 0
ones_in_front-digits_any n =
    WellFounded.induction lt_wf {C = λ m. (out : String) → 0 < m → ones_in_front (digits m out) ≡ 0}
      n
      λ m ih out h. ap ones_in_front (digits_positive m out h) ∙ elim (zero_or_positive (m / 58)) [
        | inl z ↦
            ap (λ k. ones_in_front (digits k (prepend (char_at (m % 58) alphabet) out))) z
            ∙ ap ones_in_front (digits_zero (prepend (char_at (m % 58) alphabet) out))
            ∙ ones_in_front_last m out h (omega arith)
        | inr p ↦ ih (m / 58) (digit_lt m h) _ p
      ]

pub ones_in_front-digits : (n : ℕ) → ones_in_front (digits n "") ≡ 0
unfolding ones_in_front
ones_in_front-digits n = elim (zero_or_positive n) [
  | inl z ↦ ap (λ k. ones_in_front (digits k "")) z ∙ ap ones_in_front (digits_zero "")
  | inr h ↦ ones_in_front-digits_any n "" h
]

pub ones_in_front-ones :
    (pad : ℕ) (s : String) → ones_in_front s ≡ 0 → ones_in_front (ones pad s) ≡ pad
unfolding ones_in_front
ones_in_front-ones zero s h = h
ones_in_front-ones (suc pad) s h = ap suc (ones_in_front-ones pad s h)
