-- ===== src/Transaction/Base58/Bytes.antt =====
-- ai4/transaction/_base58.py: the number of some bytes, and the bytes of a number.
use mathlib.Core.Logic.{ite, dite}
use mathlib.Core.WellFounded.{Acc, Acc-prop}
use mathlib.Core.List.{append-nil, append_assoc}
use native.Mathlib.Decide.{dec_lt}
use native.Mathlib.Nat.{pow-succ', mul-pos, one-le-pow}
use ai4_constrain.Prelude.{
  ℕ, zero, suc, ◌+◌, ◌*◌, ◌/◌, ◌%◌, ◌^◌, ◌<◌, ◌≤◌, ◌≡◌, refl, ap, List, [], ◌∷◌, ◌++◌, ◌==◌, arith,
  inl, inr, ◌∙◌, sym, All, length, if-intro, ==_iff,
}
use ai4_constrain.Transaction.Base58.{
  half_lt, lt_wf, bits, bit_length, to_bytes, from_bytes, raw_bytes, zeros, zeros_in_front,
}
use ai4_constrain.Transaction.Base58.Digits.{ite_yes, zero_or_positive}

abbrev pub IsByte : ℕ → Type 0
IsByte b = b < 256

bits_step :
    (n : ℕ) (w : Acc ◌<◌ n) (w' : Acc ◌<◌ (n / 2))
    → bits n w ≡ ite (dec_lt 0 n) (suc (bits (n / 2) w')) 0
unfolding bits
bits_step n (Acc.intro _ smaller) w' = λ i.
    dite (dec_lt 0 n) (λ h. suc (bits (n / 2) (Acc-prop (smaller (n / 2) (half_lt n h)) w' i)))
      (λ _. 0)

pub bit_length_positive : (n : ℕ) → 0 < n → bit_length n ≡ suc (bit_length (n / 2))
unfolding bit_length
bit_length_positive n h = bits_step n _ _ ∙ ite_yes n (dec_lt 0 n) _ 0 h

bit_length_zero : bit_length 0 ≡ 0
unfolding bit_length bits lt_wf dec_lt
bit_length_zero = refl

-- A number below 2 ^ k has at most k bits.
pub bit_length_le : (k n : ℕ) → n < 2 ^ k → bit_length n ≤ k
bit_length_le zero n h =
    let none : n ≡ 0 = omega arith in omega (arith, ap bit_length none, bit_length_zero)
bit_length_le (suc k) n h = elim (zero_or_positive n) [
  | inl z ↦ omega (arith, ap bit_length z, bit_length_zero)
  | inr p ↦
      let two : 2 ^ suc k ≡ 2 * 2 ^ k = pow-succ' 2 k in
      omega (arith, bit_length_positive n p, bit_length_le k (n / 2) (omega (arith, two)))
]

bit_length_twice : (n b : ℕ) → 0 < n → b < 2 → bit_length (n * 2 + b) ≡ bit_length n + 1
bit_length_twice n b h k =
    let half : (n * 2 + b) / 2 ≡ n = omega arith in
    omega (arith, bit_length_positive (n * 2 + b) (omega arith), ap bit_length half)

-- What stands in front of k bits takes k bits less.
pub bit_length_shift :
    (k n b : ℕ) → 0 < n → b < 2 ^ k → bit_length (n * 2 ^ k + b) ≡ bit_length n + k
bit_length_shift zero n b h small =
    let same : n * 2 ^ 0 + b ≡ n = omega arith in omega (arith, ap bit_length same)
bit_length_shift (suc k) n b h small =
    let two : 2 ^ suc k ≡ 2 * 2 ^ k = pow-succ' 2 k in
    let scaled : n * 2 ^ suc k ≡ n * (2 * 2 ^ k) = ap (λ t. n * t) two in
    let same : n * 2 ^ suc k + b ≡ (n * 2 ^ k + b / 2) * 2 + b % 2 = omega (arith, scaled) in
    let positive : 0 < n * 2 ^ k = mul-pos h (one-le-pow k 2 (omega arith)) in
    omega (
      arith,
      ap bit_length same,
      bit_length_twice (n * 2 ^ k + b / 2) (b % 2) (omega arith) (omega arith),
      bit_length_shift k n (b / 2) h (omega (arith, two)),
    )

-- The bits of some bytes after a positive number.
bit_length-from_bytes :
    (bytes : List ℕ) (n : ℕ)
    → 0 < n
    → All IsByte bytes
    → bit_length (from_bytes bytes n) ≡ bit_length n + 8 * length bytes
unfolding from_bytes
bit_length-from_bytes [] n h all = omega arith
bit_length-from_bytes (b ∷ rest) n h (k, all) =
    omega (
      arith,
      bit_length-from_bytes rest (n * 256 + b) (omega arith) all,
      bit_length_shift 8 n b h k,
    )

-- The last bytes of a number that they were put behind are these bytes.
to_bytes-from_bytes :
    (bytes : List ℕ) (k n : ℕ)
    → All IsByte bytes
    → to_bytes (k + length bytes) (from_bytes bytes n) ≡ to_bytes k n ++ bytes
unfolding to_bytes from_bytes
to_bytes-from_bytes [] k n all =
    let size : k + 0 ≡ k = omega arith in ap (λ j. to_bytes j n) size ∙ sym (append-nil _)
to_bytes-from_bytes (b ∷ rest) k n (h, all) =
    let front : (n * 256 + b) / 256 ≡ n = omega arith in
    let last : (n * 256 + b) % 256 ≡ b = omega arith in
    let size : k + suc (length rest) ≡ suc k + length rest = omega arith in
    ap (λ j. to_bytes j (from_bytes rest (n * 256 + b))) size
    ∙ to_bytes-from_bytes rest (suc k) (n * 256 + b) all
    ∙ append_assoc (to_bytes k ((n * 256 + b) / 256)) ((n * 256 + b) % 256 ∷ []) rest
    ∙ ap (λ m. to_bytes k m ++ ((n * 256 + b) % 256 ∷ rest)) front
    ∙ ap (λ c. to_bytes k n ++ (c ∷ rest)) last

from_bytes_positive : (bytes : List ℕ) (n : ℕ) → 0 < n → 0 < from_bytes bytes n
unfolding from_bytes
from_bytes_positive [] n h = h
from_bytes_positive (b ∷ rest) n h = from_bytes_positive rest (n * 256 + b) (omega arith)

-- Bytes whose first is not zero are the bytes of their number.
one_byte : (b : ℕ) (rest : List ℕ) → b < 256 → to_bytes 1 b ++ rest ≡ b ∷ rest
unfolding to_bytes
one_byte b rest h = ap (λ c. c ∷ rest) (omega arith)

raw_bytes-positive :
    (b : ℕ) (rest : List ℕ)
    → 0 < b
    → IsByte b
    → All IsByte rest
    → raw_bytes (from_bytes rest b) ≡ b ∷ rest
unfolding raw_bytes
raw_bytes-positive b rest h k all =
    let n = from_bytes rest b in
    let positive = from_bytes_positive rest b h in
    let bits_of = bit_length-from_bytes rest b h all in
    let most = bit_length_le 8 b k in
    let least = bit_length_positive b h in
    let size : (bit_length n + 7) / 8 ≡ 1 + length rest = omega arith in
    if-intro (λ r. r ≡ b ∷ rest) (n == 0) _ _ (λ z. absurd (omega (arith, (==_iff n 0).0 z)))
      λ _. ap (λ j. to_bytes j n) size ∙ to_bytes-from_bytes rest 1 b all ∙ one_byte b rest k

zeros_in_front-positive : (b : ℕ) (rest : List ℕ) → zeros_in_front (suc b ∷ rest) ≡ 0
unfolding zeros_in_front
zeros_in_front-positive b rest = ground arith

-- A number's bytes behind the zeros that stood in front of it.
pub zeros-raw_bytes :
    (bytes : List ℕ)
    → All IsByte bytes
    → zeros (zeros_in_front bytes) (raw_bytes (from_bytes bytes 0)) ≡ bytes
unfolding zeros_in_front from_bytes
zeros-raw_bytes [] all = unfold raw_bytes in refl
zeros-raw_bytes (zero ∷ rest) (k, all) = ap (λ t. 0 ∷ t) (zeros-raw_bytes rest all)
zeros-raw_bytes (suc b ∷ rest) (k, all) =
    let front : zeros_in_front (suc b ∷ rest) ≡ 0 = zeros_in_front-positive b rest in
    ap (λ z. zeros z (raw_bytes (from_bytes rest (0 + suc b)))) front
    ∙ ap (λ m. raw_bytes (from_bytes rest m)) (omega arith)
    ∙ raw_bytes-positive (suc b) rest (omega arith) k all
