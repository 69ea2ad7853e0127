-- ===== src/Transaction/Base58.antt =====
-- ai4/transaction/_base58.py: b58decode and b58encode. Bytes are a list of numbers below 256;
-- `int.from_bytes`, `int.to_bytes` and `int.bit_length` are written out.
pub mod Digits
pub mod Bytes
pub mod RoundTrip
mod Reading
pub mod Canonical
mod Examples
use Prim.Native.Char.{Char, code}
use mathlib.Core.Logic.{dite}
use mathlib.Core.WellFounded.{Acc, WellFounded}
use native.Mathlib.Decide.{dec_lt}
use ai4_constrain.Prelude.{
  ℕ, zero, suc, ◌+◌, ◌*◌, ◌/◌, ◌%◌, ◌<◌, Bool, Option, none, some, List, [], ◌∷◌, ◌++◌, String,
  str_eq, ◌==◌, if◌then◌else◌, not, arith, ◌≡◌, refl,
}
use ai4_constrain.Prelude.Result.{Result, ok, err, ◌>>=◌, ◌>>◌, guard}

pub data Base58Error : Type 0 where
  value_error : Base58Error

unfoldable pub alphabet : String
alphabet = "123456789ABCDEFGHJKLMNPQRSTUVWXYZabcdefghijkmnopqrstuvwxyz"

-- `_INDEX.get(char)`: the dictionary that `enumerate` makes keeps the last index of a character.
unfoldable pub index_from : ℕ → Char → String → Option ℕ
index_from i c String.[] = none
index_from i c (String.◌∷◌ d s) = elim (index_from (suc i) c s) [
  | some j ↦ some j
  | none ↦ if code c == code d then some i else none
]

unfoldable pub index_of : Char → Option ℕ
unfolding index_from
index_of c = index_from 0 c alphabet

-- The first loop of `b58decode`.
unfoldable pub number_of : String → ℕ → Result Base58Error ℕ
number_of String.[] number = ok number
number_of (String.◌∷◌ c s) number = elim (index_of c) [
  | none ↦ err value_error
  | some digit ↦ number_of s (number * 58 + digit)
]

-- The second loop: how many times "1" stands in front.
unfoldable pub ones_in_front : String → ℕ
ones_in_front String.[] = 0
ones_in_front (String.◌∷◌ c s) =
    let more = ones_in_front s in if code c == b'1' then suc more else 0

unfoldable pub acc_below : (k n : ℕ) → n < k → Acc ◌<◌ n
acc_below zero n h = absurd (omega arith)
acc_below (suc k) n h = Acc.intro n (λ m lt. acc_below k m (omega arith))

unfoldable pub lt_wf : WellFounded ◌<◌
unfolding acc_below
lt_wf = record { apply = λ n. acc_below (suc n) n (omega arith) }

pub half_lt : (n : ℕ) → 0 < n → n / 2 < n
half_lt n h = omega arith

pub digit_lt : (n : ℕ) → 0 < n → n / 58 < n
digit_lt n h = omega arith

unfoldable pub bits : (n : ℕ) → Acc ◌<◌ n → ℕ
bits n (Acc.intro _ smaller) =
    dite (dec_lt 0 n) (λ h. suc (bits (n / 2) (smaller (n / 2) (half_lt n h)))) (λ _. 0)

unfoldable pub bit_length : ℕ → ℕ
bit_length n = bits n (lt_wf.apply n)

-- `number.to_bytes(length, "big")`, for a number that fits.
unfoldable pub to_bytes : ℕ → ℕ → List ℕ
to_bytes zero number = []
to_bytes (suc length) number = to_bytes length (number / 256) ++ (number % 256 ∷ [])

-- `int.from_bytes(data, "big")`, from the value of the bytes before.
unfoldable pub from_bytes : List ℕ → ℕ → ℕ
from_bytes [] number = number
from_bytes (b ∷ bytes) number = from_bytes bytes (number * 256 + b)

abbrev pub zeros : ℕ → List ℕ → List ℕ
zeros zero bytes = bytes
zeros (suc pad) bytes = 0 ∷ zeros pad bytes

unfoldable pub raw_bytes : ℕ → List ℕ
raw_bytes number = if number == 0 then [] else to_bytes ((bit_length number + 7) / 8) number

unfoldable pub b58decode : String → Result Base58Error (List ℕ)
b58decode value = do
  guard (not (str_eq value "")) value_error
  number ← number_of value 0
  ok (zeros (ones_in_front value) (raw_bytes number))

unfoldable pub char_at : ℕ → String → Option Char
char_at i String.[] = none
char_at zero (String.◌∷◌ c s) = some c
char_at (suc i) (String.◌∷◌ c s) = char_at i s

abbrev pub prepend : Option Char → String → String
prepend none s = s
prepend (some c) s = String.◌∷◌ c s

-- The loop of `b58encode`; to append to `chars` and reverse it at the end is to prepend.
unfoldable pub emit : (number : ℕ) → Acc ◌<◌ number → String → String
emit number (Acc.intro _ smaller) chars =
    dite (dec_lt 0 number)
      (λ h.
        emit (number / 58) (smaller (number / 58) (digit_lt number h))
          (prepend (char_at (number % 58) alphabet) chars))
      (λ _. chars)

unfoldable pub digits : ℕ → String → String
digits number chars = emit number (lt_wf.apply number) chars

unfoldable pub zeros_in_front : List ℕ → ℕ
zeros_in_front [] = 0
zeros_in_front (b ∷ bytes) = let more = zeros_in_front bytes in if b == 0 then suc more else 0

abbrev pub ones : ℕ → String → String
ones zero s = s
ones (suc pad) s = String.◌∷◌ "1" (ones pad s)

unfoldable pub b58encode : List ℕ → String
b58encode bytes = ones (zeros_in_front bytes) (digits (from_bytes bytes 0) "")
