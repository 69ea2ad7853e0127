-- ===== src/Prelude/Sort.antt =====
-- Python's `sorted`: a stable sort, here by insertion, for an order given as a Boolean test.
use mathlib.Core.Path.{◌≡◌, refl, ap, ◌∙◌}
use mathlib.Core.Bool.{Bool, true, false, ◌||◌}
use mathlib.Core.List.{List, [], ◌∷◌, Perm}
use mathlib.Core.List.Perm
use native.Mathlib.Omega.{arith}
use ai4_constrain.Prelude.Tests.{if◌then◌else◌, if-intro}
use ai4_constrain.Prelude.Lists.{any, length, select, is_nil}

module _ {ℓ} {A : Type ℓ} (leb : A → A → Bool) where
  unfoldable pub insert : A → List A → List A
  insert x [] = x ∷ []
  insert x (y ∷ ys) = if leb x y then x ∷ y ∷ ys else y ∷ insert x ys

  unfoldable pub sort : List A → List A
  unfolding insert
  sort [] = []
  sort (x ∷ xs) = insert x (sort xs)

  pub insert-perm : (x : A) (ys : List A) → Perm (insert x ys) (x ∷ ys)
  unfolding insert
  insert-perm x [] = Perm.refl (x ∷ [])
  insert-perm x (y ∷ ys) =
      if-intro (λ l. Perm l (x ∷ y ∷ ys)) (leb x y) _ _ (λ _. Perm.refl (x ∷ y ∷ ys))
        λ _. Perm.trans (Perm.cons y (insert-perm x ys)) (Perm.swap x y ys)

  -- The result holds the same elements, as often.
  pub sort-perm : (xs : List A) → Perm (sort xs) xs
  unfolding sort
  sort-perm [] = Perm.refl []
  sort-perm (x ∷ xs) = Perm.trans (insert-perm x (sort xs)) (Perm.cons x (sort-perm xs))

  any-insert : (p : A → Bool) (x : A) (ys : List A) → any p (insert x ys) ≡ (p x || any p ys)
  unfolding insert
  any-insert p x [] = refl
  any-insert p x (y ∷ ys) = ground (arith, any-insert p x ys)

  pub any-sort : (p : A → Bool) (xs : List A) → any p (sort xs) ≡ any p xs
  unfolding sort
  any-sort p [] = refl
  any-sort p (x ∷ xs) = any-insert p x (sort xs) ∙ ap (λ b. p x || b) (any-sort p xs)

  length-select-insert :
      (p : A → Bool) (x : A) (ys : List A)
      → length (select p (insert x ys)) ≡ length (select p (x ∷ ys))
  unfolding insert
  length-select-insert p x [] = refl
  length-select-insert p x (y ∷ ys) = ground (arith, length-select-insert p x ys)

  pub length-select-sort :
      (p : A → Bool) (xs : List A) → length (select p (sort xs)) ≡ length (select p xs)
  unfolding sort
  length-select-sort p [] = refl
  length-select-sort p (x ∷ xs) =
      length-select-insert p x (sort xs) ∙ ground (arith, length-select-sort p xs)

  is_nil-insert : (x : A) (ys : List A) → is_nil (insert x ys) ≡ false
  unfolding insert
  is_nil-insert x [] = refl
  is_nil-insert x (y ∷ ys) = ground arith

  pub is_nil-sort : (xs : List A) → is_nil (sort xs) ≡ is_nil xs
  unfolding sort
  is_nil-sort [] = refl
  is_nil-sort (x ∷ xs) = is_nil-insert x (sort xs)

  -- Each element stands before the next.
  abbrev pub FollowedBy : A → List A → Type 0
  FollowedBy x [] = Unit
  FollowedBy x (y ∷ ys) = leb x y ≡ true

  abbrev pub IsSorted : List A → Type 0
  IsSorted [] = Unit
  IsSorted (x ∷ xs) = FollowedBy x xs × IsSorted xs

  module _ (total : (x y : A) → leb x y ≡ false → leb y x ≡ true) where
    insert-FollowedBy :
        (z x : A) (ys : List A) → leb z x ≡ true → FollowedBy z ys → FollowedBy z (insert x ys)
    unfolding insert
    insert-FollowedBy z x [] h f = h
    insert-FollowedBy z x (y ∷ ys) h f = if-intro (FollowedBy z) (leb x y) _ _ (λ _. h) λ _. f

    insert-IsSorted : (x : A) (ys : List A) → IsSorted ys → IsSorted (insert x ys)
    unfolding insert
    insert-IsSorted x [] s = (tt, tt)
    insert-IsSorted x (y ∷ ys) s =
        if-intro IsSorted (leb x y) _ _ (λ le. (le, s))
          λ gt. (insert-FollowedBy y x ys (total x y gt) s.0, insert-IsSorted x ys s.1)

    -- The result is in order.
    pub sort-IsSorted : (xs : List A) → IsSorted (sort xs)
    unfolding sort
    sort-IsSorted [] = tt
    sort-IsSorted (x ∷ xs) = insert-IsSorted x (sort xs) (sort-IsSorted xs)
