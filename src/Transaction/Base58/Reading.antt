-- ===== src/Transaction/Base58/Reading.antt =====
-- ai4/transaction/_base58.py: the digits of a Base58 text, read and written again.
use Prim.Native.Char.{Char, code}
use text.Mathlib.TextEquality.{Char-path}
use ai4_constrain.Prelude.{
  ℕ, zero, suc, ◌+◌, ◌*◌, ◌/◌, ◌%◌, ◌<◌, ◌≡◌, refl, ap, sym, ◌∙◌, some, String, ◌==◌, ==_iff,
  Bool-cases, inl, inr, arith, Option-cases,
}
use ai4_constrain.Prelude.Result.{ok}
use ai4_constrain.Transaction.Base58.{
  alphabet, index_of, index_from, number_of, ones_in_front, char_at, prepend, digits, ones,
}
use ai4_constrain.Transaction.Base58.Digits.{digits_positive, digits_zero, number_of-ones}

-- The place that the index names holds the character.
char_at-index_from :
    (i j : ℕ) (c : Char) (s : String)
    → index_from i c s ≡ some j
    → (k : ℕ) × (j ≡ i + k) × (char_at k s ≡ some c)
unfolding index_from char_at
char_at-index_from i j c String.[] e = cc
char_at-index_from i j c (String.◌∷◌ d s) e = elim (Option-cases (index_from (suc i) c s)) [
  | inr (t, later) ↦
      let same : t ≡ j = ground (arith, later) in
      let (k, place, found) = char_at-index_from (suc i) t c s later in (suc k, omega arith, found)
  | inl missing ↦ elim (Bool-cases (code c == code d)) [
    | inl same ↦
        let here : i ≡ j = ground (arith, missing, same) in
        (0, omega arith, ap some (sym (Char-path c d ((==_iff (code c) (code d)).0 same))))
    | inr other ↦ absurd (ground (arith, missing, other))
  ]
]

char_at-index_of : (c : Char) (d : ℕ) → index_of c ≡ some d → char_at d alphabet ≡ some c
unfolding index_of
char_at-index_of c d e =
    let (k, place, found) = char_at-index_from 0 d c alphabet e in
    let same : d ≡ k = omega arith in ap (λ j. char_at j alphabet) same ∙ found

text_length : String → ℕ
text_length String.[] = 0
text_length (String.◌∷◌ c s) = suc (text_length s)

char_at_lt : (i : ℕ) (s : String) (c : Char) → char_at i s ≡ some c → i < text_length s
unfolding char_at text_length
char_at_lt i String.[] c e = absurd cc
char_at_lt zero (String.◌∷◌ d s) c e = omega arith
char_at_lt (suc i) (String.◌∷◌ d s) c e = omega (arith, char_at_lt i s c e)

alphabet_length : text_length alphabet ≡ 58
unfolding text_length alphabet
alphabet_length = refl

index_of_lt : (c : Char) (d : ℕ) → index_of c ≡ some d → d < 58
index_of_lt c d e = omega (arith, char_at_lt d alphabet c (char_at-index_of c d e), alphabet_length)

-- Digits written behind a positive number are the ones that were read behind it.
digits-cons :
    (m d : ℕ) (c : Char) (s : String)
    → index_of c ≡ some d
    → 0 < m * 58 + d
    → digits (m * 58 + d) s ≡ digits m (String.◌∷◌ c s)
digits-cons m d c s e h =
    let small = index_of_lt c d e in
    let front : (m * 58 + d) / 58 ≡ m = omega arith in
    let last : (m * 58 + d) % 58 ≡ d = omega arith in
    digits_positive (m * 58 + d) s h
    ∙ ap (λ k. digits k (prepend (char_at ((m * 58 + d) % 58) alphabet) s)) front
    ∙ ap (λ k. digits m (prepend (char_at k alphabet) s)) last
    ∙ ap (λ o. digits m (prepend o s)) (char_at-index_of c d e)

number_of-cons_ok :
    (c : Char) (s : String) (m n : ℕ)
    → number_of (String.◌∷◌ c s) m ≡ ok n
    → (d : ℕ) × (index_of c ≡ some d) × (number_of s (m * 58 + d) ≡ ok n)
unfolding number_of
number_of-cons_ok c s m n e = elim (Option-cases (index_of c)) [
  | inl missing ↦ absurd (cc (rw (missing, number_of) at e))
  | inr (d, place) ↦ (d, place, rw (place, number_of) at e)
]

digits-number_of : (s : String) (m n : ℕ) → 0 < m → number_of s m ≡ ok n → digits m s ≡ digits n ""
digits-number_of String.[] m n h e =
    let same : m ≡ n = unfold number_of in cc in ap (λ k. digits k "") same
digits-number_of (String.◌∷◌ c s) m n h e =
    let (d, place, rest) = number_of-cons_ok c s m n e in
    sym (digits-cons m d c s place (omega arith))
    ∙ digits-number_of s (m * 58 + d) n (omega arith) rest

first_char : char_at 0 alphabet ≡ some "1"
unfolding char_at alphabet
first_char = refl

-- Only "1" stands for 0.
not_one :
    (c : Char) (s : String) (d : ℕ)
    → ones_in_front (String.◌∷◌ c s) ≡ 0
    → index_of c ≡ some d
    → 0 < d
unfolding ones_in_front
not_one c s zero front place =
    let one : some c ≡ some "1" = sym (char_at-index_of c 0 place) ∙ first_char in
    let same : c ≡ "1" = cc in absurd (ground (arith, ap code same))
not_one c s (suc d) front place = omega arith

-- A text without "1" in front is what its number is written as.
pub digits-number_of_bare :
    (s : String) (n : ℕ) → ones_in_front s ≡ 0 → number_of s 0 ≡ ok n → digits n "" ≡ s
digits-number_of_bare String.[] n front e =
    let same : n ≡ 0 = unfold number_of in cc in ap (λ k. digits k "") same ∙ digits_zero ""
digits-number_of_bare (String.◌∷◌ c s) n front e =
    let (d, place, rest) = number_of-cons_ok c s 0 n e in
    let first = not_one c s d front place in
    let same : 0 * 58 + d ≡ d = omega arith in
    sym (digits-number_of s d n first (ap (number_of s) (sym same) ∙ rest))
    ∙ ap (λ k. digits k s) (sym same)
    ∙ digits-cons 0 d c s place (omega arith)
    ∙ digits_zero (String.◌∷◌ c s)

-- A text is some "1" before a text that has none in front.
pub stripped :
    (s : String)
    → (t : String) × (ones (ones_in_front s) t ≡ s)
      × (ones_in_front t ≡ 0)
      × (number_of t 0 ≡ number_of s 0)
unfolding ones_in_front
stripped String.[] = ("", refl, refl, refl)
stripped (String.◌∷◌ c s) = elim (Bool-cases (code c == b'1')) [
  | inl one ↦
      let (t, whole, bare, number) = stripped s in
      let same : "1" ≡ c = sym (Char-path c "1" ((==_iff (code c) b'1').0 one)) in
      (
        t,
        rw (one) (ap (λ d. String.◌∷◌ d (ones (ones_in_front s) t)) same ∙ ap (String.◌∷◌ c) whole),
        bare,
        number ∙ sym (number_of-ones 1 s) ∙ ap (λ d. number_of (String.◌∷◌ d s) 0) same,
      )
  | inr other ↦ (String.◌∷◌ c s, rw (other) refl, rw (other) refl, refl)
]
