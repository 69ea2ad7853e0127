-- ===== src/Transaction/Base58/Canonical.antt =====
-- ai4/transaction/_base58.py: what b58decode accepts, b58encode writes again.
use mathlib.Core.WellFounded
use mathlib.Core.WellFounded.{Acc}
use ai4_constrain.Prelude.{
  ℕ, zero, suc, ◌+◌, ◌*◌, ◌/◌, ◌%◌, ◌<◌, ◌≡◌, refl, ap, sym, ◌∙◌, List, [], ◌∷◌, ◌++◌, String, ◌==◌,
  ==_iff, inl, inr, arith, if-intro, subst,
}
use ai4_constrain.Prelude.Result.{ok, Result-cases}
use ai4_constrain.Transaction.Base58.{
  number_of, ones_in_front, lt_wf, bit_length, to_bytes, from_bytes, raw_bytes, zeros, b58decode,
  digits, zeros_in_front, ones, b58encode,
}
use ai4_constrain.Transaction.Base58.Digits.{zero_or_positive}
use ai4_constrain.Transaction.Base58.Bytes.{bit_length_positive, bit_length_le, bit_length_shift}
use ai4_constrain.Transaction.Base58.Reading.{digits-number_of_bare, stripped}

size : ℕ → ℕ
size n = (bit_length n + 7) / 8

from_bytes-append :
    (bytes : List ℕ) (last n : ℕ)
    → from_bytes (bytes ++ (last ∷ [])) n ≡ from_bytes bytes n * 256 + last
unfolding from_bytes
from_bytes-append [] last n = refl
from_bytes-append (b ∷ bytes) last n = from_bytes-append bytes last (n * 256 + b)

-- The bytes of a positive number: the first is not zero, and they make the number.
abbrev BytesOf : ℕ → List ℕ → Type 0
BytesOf n bytes = (b : ℕ) × (rest : List ℕ) × (bytes ≡ b ∷ rest) × (0 < b) × (from_bytes rest b ≡ n)

to_bytes_small : (n : ℕ) → 0 < n → n < 256 → BytesOf n (to_bytes (size n) n)
unfolding to_bytes from_bytes size
to_bytes_small n h small =
    let most = bit_length_le 8 n small in
    let least = bit_length_positive n h in
    let one : (bit_length n + 7) / 8 ≡ 1 = omega arith in
    let same : n % 256 ≡ n = omega arith in
    (n, [], ap (λ k. to_bytes k n) one ∙ ap (λ b. b ∷ []) same, h, refl)

to_bytes_large :
    (n : ℕ)
    → 0 < n / 256
    → BytesOf (n / 256) (to_bytes (size (n / 256)) (n / 256))
    → BytesOf n (to_bytes (size n) n)
unfolding to_bytes size
to_bytes_large n h (b, rest, front, positive, number) =
    let whole : n ≡ (n / 256) * 256 + n % 256 = omega arith in
    let longer = bit_length_shift 8 (n / 256) (n % 256) h (omega arith) in
    let more : (bit_length n + 7) / 8 ≡ suc ((bit_length (n / 256) + 7) / 8) =
      omega (arith, ap bit_length whole) in
    (
      b,
      rest ++ (n % 256 ∷ []),
      ap (λ k. to_bytes k n) more ∙ ap (λ xs. xs ++ (n % 256 ∷ [])) front,
      positive,
      omega (arith, from_bytes-append rest (n % 256) b),
    )

to_bytes-BytesOf : (n : ℕ) → 0 < n → BytesOf n (to_bytes (size n) n)
to_bytes-BytesOf n =
    WellFounded.induction lt_wf {C = λ m. 0 < m → BytesOf m (to_bytes (size m) m)} n λ m ih h.
      elim (zero_or_positive (m / 256)) [
        | inl z ↦ to_bytes_small m h (omega arith)
        | inr p ↦ to_bytes_large m p (ih (m / 256) (omega arith) p)
      ]

-- What `b58encode` reads of the bytes that `b58decode` made.
zeros_in_front-zeros :
    (pad : ℕ) (bytes : List ℕ) → zeros_in_front bytes ≡ 0 → zeros_in_front (zeros pad bytes) ≡ pad
unfolding zeros_in_front
zeros_in_front-zeros zero bytes h = h
zeros_in_front-zeros (suc pad) bytes h = ap suc (zeros_in_front-zeros pad bytes h)

from_bytes-zeros : (pad : ℕ) (bytes : List ℕ) → from_bytes (zeros pad bytes) 0 ≡ from_bytes bytes 0
unfolding from_bytes
from_bytes-zeros zero bytes = refl
from_bytes-zeros (suc pad) bytes = from_bytes-zeros pad bytes

abbrev Reads : ℕ → List ℕ → Type 0
Reads n bytes = (zeros_in_front bytes ≡ 0) × (from_bytes bytes 0 ≡ n)

raw_bytes-Reads : (n : ℕ) → Reads n (raw_bytes n)
unfolding raw_bytes zeros_in_front from_bytes size
raw_bytes-Reads n =
    if-intro (Reads n) (n == 0) _ _ (λ z. (refl, sym ((==_iff n 0).0 z)))
      λ other. positive (
        to_bytes-BytesOf n
          (elim (zero_or_positive n) [ inl z ↦ absurd (ground (arith, other, z)) | inr h ↦ h ]))
  where
    positive : {bytes : List ℕ} → BytesOf n bytes → Reads n bytes
    positive {bytes} (suc b, rest, e, h, number) =
        subst (Reads n) (sym e) (ground arith, ap (from_bytes rest) (omega arith) ∙ number)
    positive (zero, rest, e, h, number) = absurd (omega arith)

b58decode-inverse :
    (value : String) {bytes : List ℕ}
    → b58decode value ≡ ok bytes
    → (n : ℕ) × (number_of value 0 ≡ ok n) × (bytes ≡ zeros (ones_in_front value) (raw_bytes n))
unfolding b58decode
b58decode-inverse value e = elim (Result-cases (number_of value 0)) [
  | inl (n, reads) ↦ (n, reads, ground (arith, reads))
  | inr (raised, reads) ↦ absurd (ground (arith, reads))
]

-- A Base58 text that is read is the only text of its bytes: writing them gives it back.
pub b58encode-b58decode :
    (value : String) {bytes : List ℕ} → b58decode value ≡ ok bytes → b58encode bytes ≡ value
unfolding b58encode
b58encode-b58decode value {bytes} e =
    let (n, reads, made) = b58decode-inverse value e in
    let (t, whole, bare, number) = stripped value in
    let (front, back) = raw_bytes-Reads n in
    let pad = ones_in_front value in
    ap b58encode made
    ∙ ap (λ k. ones k (digits (from_bytes (zeros pad (raw_bytes n)) 0) ""))
        (zeros_in_front-zeros pad (raw_bytes n) front)
    ∙ ap (λ m. ones pad (digits m "")) (from_bytes-zeros pad (raw_bytes n) ∙ back)
    ∙ ap (ones pad) (digits-number_of_bare t n bare (number ∙ reads))
    ∙ whole
