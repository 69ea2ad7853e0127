-- ===== src/Transaction/Base58/Examples.antt =====
-- ai4/transaction/_base58.py: runs on concrete texts.
use mathlib.Core.List.{cons-ne-nil}
use native.Mathlib.Decide.{dec_lt}
use ai4_constrain.Prelude.{ℕ, ◌≡◌, refl, List, [], ◌∷◌, arith}
use ai4_constrain.Prelude.Result.{ok, err}
use ai4_constrain.Transaction.Base58.{
  value_error, alphabet, index_of, index_from, number_of, ones_in_front, acc_below, lt_wf, bits,
  bit_length, to_bytes, from_bytes, raw_bytes, b58decode, char_at, emit, digits, zeros_in_front,
  b58encode,
}
use ai4_constrain.Transaction.Base58.RoundTrip.{b58decode-b58encode}
use ai4_constrain.Transaction.Base58.Canonical.{b58encode-b58decode}

tests : Unit {0}
unfolding alphabet index_of index_from number_of ones_in_front acc_below lt_wf bits bit_length
    to_bytes from_bytes raw_bytes b58decode char_at emit digits zeros_in_front b58encode dec_lt
tests =
    let encodes : b58encode (0 ∷ 1 ∷ 255 ∷ 3 ∷ []) ≡ "1ftW" = refl in
    let decodes : b58decode "1ftW" ≡ ok (0 ∷ 1 ∷ 255 ∷ 3 ∷ []) = refl in
    let refuses : b58decode "1fIW" ≡ err value_error = refl in tt

abbrev some_bytes : List ℕ
some_bytes = 0 ∷ 1 ∷ 255 ∷ 3 ∷ []

b58decode-b58encode_example : b58decode (b58encode some_bytes) ≡ ok some_bytes
b58decode-b58encode_example =
    b58decode-b58encode some_bytes (omega arith, (omega arith, (omega arith, (omega arith, tt))))
      (cons-ne-nil 0 (1 ∷ 255 ∷ 3 ∷ []))

decoded : b58decode "1ftW" ≡ ok some_bytes
unfolding alphabet index_of index_from number_of ones_in_front acc_below lt_wf bits bit_length
    to_bytes raw_bytes b58decode dec_lt
decoded = refl

b58encode-b58decode_example : b58encode some_bytes ≡ "1ftW"
b58encode-b58decode_example = b58encode-b58decode "1ftW" decoded
