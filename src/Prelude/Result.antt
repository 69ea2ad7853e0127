-- ===== src/Prelude/Result.antt =====
-- The outcome of code that may raise: a value, or the class of the error.
use mathlib.Core.Path.{◌≡◌, refl, subst}
use mathlib.Core.Bool.{Bool, true, false}
use mathlib.Core.Logic.{◌⊎◌, inl, inr}

-- An `err` is the raised class, an `ok` the returned value.
pub data Result {ℓ} (E : Type 0) (A : Type ℓ) : Type ℓ where
  err : E → Result E A
  ok : A → Result E A

-- `if not condition: raise raised`
abbrev pub guard : {E : Type 0} (condition : Bool) (raised : E) → Result E (Unit {0})
guard false raised = err raised
guard true _ = ok tt

-- One statement after another: a raised error skips what follows.
module _ {ℓ κ} {E : Type 0} {A : Type ℓ} {B : Type κ} where
  infixl 5 ◌>>=◌
  abbrev pub ◌>>=◌ : (first : Result E A) (next : A → Result E B) → Result E B
  err raised >>= _ = err raised
  ok value >>= next = next value

module _ {κ} {E : Type 0} {B : Type κ} where
  infixl 5 ◌>>◌
  abbrev pub ◌>>◌ : (first : Result E (Unit {0})) (next : Result E B) → Result E B
  err raised >> _ = err raised
  ok _ >> next = next

-- How the proofs split on what a call did.
module _ {ℓ} {E : Type 0} {A : Type ℓ} where
  pub Result-cases : (r : Result E A) → ((a : A) × (r ≡ ok a)) ⊎ ((e : E) × (r ≡ err e))
  Result-cases (err raised) = inr (raised, refl)
  Result-cases (ok value) = inl (value, refl)

  -- A statement about the value, if there is one.
  abbrev pub Returns {κ} : (A → Type κ) → Result E A → Type κ
  Returns P (err raised) = Unit
  Returns P (ok value) = P value

  pub Returns-any : (r : Result E A) → Returns (λ _. Unit {0}) r
  Returns-any (err raised) = tt
  Returns-any (ok value) = tt

  pub Returns-map {κ μ} :
      {Q : A → Type κ} {P : A → Type μ} (r : Result E A)
      → Returns Q r
      → ((value : A) → Q value → P value)
      → Returns P r
  Returns-map (err raised) q step = tt
  Returns-map (ok value) q step = step value q

  pub returned {κ} :
      (P : A → Type κ) (r : Result E A) {value : A} → Returns P r → r ≡ ok value → P value
  returned P (err raised) p h = cc
  returned P (ok found) {value} p h = subst P same p
    where
      same : found ≡ value
      same = cc

-- What every value of a first step leads to, the two together return.
module _ {ℓ κ μ} {E : Type 0} {A : Type ℓ} {B : Type κ} (P : B → Type μ) where
  pub Returns-bind :
      (first : Result E A) (next : A → Result E B)
      → ((value : A) → first ≡ ok value → Returns P (next value))
      → Returns P (first >>= next)
  Returns-bind (err raised) next each = tt
  Returns-bind (ok value) next each = each value refl

module _ {κ μ} {E : Type 0} {B : Type κ} (P : B → Type μ) where
  pub Returns-guard :
      (condition : Bool) (raised : E) (next : Result E B)
      → (condition ≡ true → Returns P next)
      → Returns P (guard condition raised >> next)
  Returns-guard false raised next each = tt
  Returns-guard true raised next each = each refl

  pub Returns-then :
      (first : Result E (Unit {0})) (next : Result E B)
      → (first ≡ ok tt → Returns P next)
      → Returns P (first >> next)
  Returns-then (err raised) next each = tt
  Returns-then (ok tt) next each = each refl
