-- ===== src/Transaction/Base58/RoundTrip.antt =====
-- ai4/transaction/_base58.py: what b58encode writes, b58decode reads back.
use ai4_constrain.Prelude.{
  ℕ, ◌≡◌, ◌≢◌, refl, ap, sym, ◌∙◌, false, List, [], String, str_eq, eq_iff, All, Bool-cases, inl,
  inr,
}
use ai4_constrain.Prelude.Result.{ok}
use ai4_constrain.Transaction.Base58.{
  number_of, ones_in_front, from_bytes, raw_bytes, zeros, b58decode, zeros_in_front, b58encode,
}
use ai4_constrain.Transaction.Base58.Digits.{
  number_of-digits, number_of-ones, ones_in_front-digits, ones_in_front-ones,
}
use ai4_constrain.Transaction.Base58.Bytes.{IsByte, zeros-raw_bytes}

b58decode-parts :
    (value : String) (number pad : ℕ)
    → str_eq value "" ≡ false
    → number_of value 0 ≡ ok number
    → ones_in_front value ≡ pad
    → b58decode value ≡ ok (zeros pad (raw_bytes number))
unfolding b58decode
b58decode-parts value number pad some_text reads front =
    rw (some_text) (rw (reads) (rw (front) refl))

number_of-b58encode : (bytes : List ℕ) → number_of (b58encode bytes) 0 ≡ ok (from_bytes bytes 0)
unfolding b58encode
number_of-b58encode bytes =
    number_of-ones (zeros_in_front bytes) _ ∙ number_of-digits (from_bytes bytes 0)

ones_in_front-b58encode : (bytes : List ℕ) → ones_in_front (b58encode bytes) ≡ zeros_in_front bytes
unfolding b58encode
ones_in_front-b58encode bytes =
    ones_in_front-ones (zeros_in_front bytes) _ (ones_in_front-digits (from_bytes bytes 0))

-- Only the empty bytes are written as the empty text.
b58encode-some :
    (bytes : List ℕ) → All IsByte bytes → bytes ≢ [] → str_eq (b58encode bytes) "" ≡ false
unfolding number_of ones_in_front
b58encode-some bytes all some_bytes = elim (Bool-cases (str_eq (b58encode bytes) "")) [
  | inr other ↦ other
  | inl same ↦
      let empty : b58encode bytes ≡ "" = (eq_iff (b58encode bytes) "").0 same in
      let number : ok (from_bytes bytes 0) ≡ ok 0 =
        sym (number_of-b58encode bytes) ∙ ap (λ t. number_of t 0) empty in
      let front : zeros_in_front bytes ≡ 0 =
        sym (ones_in_front-b58encode bytes) ∙ ap ones_in_front empty in
      let zero : from_bytes bytes 0 ≡ 0 = cc in
      absurd (
        some_bytes (
          sym (zeros-raw_bytes bytes all)
          ∙ ap (λ z. zeros z (raw_bytes (from_bytes bytes 0))) front
          ∙ ap raw_bytes zero
          ∙ (unfold raw_bytes in refl)))
]

-- Every non-empty sequence of bytes is read back from its Base58 text.
pub b58decode-b58encode :
    (bytes : List ℕ) → All IsByte bytes → bytes ≢ [] → b58decode (b58encode bytes) ≡ ok bytes
b58decode-b58encode bytes all some_bytes =
    b58decode-parts (b58encode bytes) (from_bytes bytes 0) (zeros_in_front bytes)
      (b58encode-some bytes all some_bytes) (number_of-b58encode bytes)
      (ones_in_front-b58encode bytes)
    ∙ ap ok (zeros-raw_bytes bytes all)
