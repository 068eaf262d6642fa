-- ===== src/Prelude/Sort.antt =====
-- ORDER BY and sort.Slice as a stable insertion sort by a Boolean order.
use Prim.Native.Nat.{◌+◌}
use mathlib.Core.Path.{◌≡◌, refl, subst}
use mathlib.Core.Logic.{◌⊎◌, inl, inr}
use mathlib.Core.Bool.{Bool, true, false, ◌&&◌, ◌||◌}
use mathlib.Core.List.{List, [], ◌∷◌}
use native.Mathlib.Omega.{arith}
use insta_follower_tracker.Prelude.In.{In}
use insta_follower_tracker.Prelude.Tests.{if◌then◌else◌, Bool-cases}
use insta_follower_tracker.Prelude.Table.{any, every, count, every_mono}

module _ {ℓ} {A : Type ℓ} (le : A → A → Bool) where
  unfoldable pub insert : A → List A → List A
  insert x [] = x ∷ []
  insert x (y ∷ ys) = if le x y then x ∷ y ∷ ys else y ∷ insert x ys

  unfoldable pub sort : List A → List A
  unfolding insert
  sort [] = []
  sort (x ∷ xs) = insert x (sort xs)

  -- Each entry is at or before all that follow it.
  unfoldable pub is_sorted : List A → Bool
  is_sorted [] = true
  is_sorted (x ∷ xs) = every (le x) xs && is_sorted xs

  any-insert : (p : A → Bool) (x : A) (xs : List A) → any p (insert x xs) ≡ (p x || any p xs)
  unfolding any insert
  any-insert p x [] = refl
  any-insert p x (y ∷ ys) = ground (arith, any-insert p x ys)

  pub any-sort : (p : A → Bool) (xs : List A) → any p (sort xs) ≡ any p xs
  unfolding any sort
  any-sort p [] = refl
  any-sort p (x ∷ xs) = ground (arith, any-insert p x (sort xs), any-sort p xs)

  every-insert : (p : A → Bool) (x : A) (xs : List A) → every p (insert x xs) ≡ (p x && every p xs)
  unfolding every insert
  every-insert p x [] = refl
  every-insert p x (y ∷ ys) = ground (arith, every-insert p x ys)

  pub every-sort : (p : A → Bool) (xs : List A) → every p (sort xs) ≡ every p xs
  unfolding every sort
  every-sort p [] = refl
  every-sort p (x ∷ xs) = ground (arith, every-insert p x (sort xs), every-sort p xs)

  count-insert :
      (p : A → Bool) (x : A) (xs : List A)
      → count p (insert x xs) ≡ (if p x then 1 else 0) + count p xs
  unfolding count insert
  count-insert p x [] = refl
  count-insert p x (y ∷ ys) = ground (arith, count-insert p x ys)

  -- Sorting keeps every row, as often as it was there.
  pub count-sort : (p : A → Bool) (xs : List A) → count p (sort xs) ≡ count p xs
  unfolding count sort
  count-sort p [] = refl
  count-sort p (x ∷ xs) = ground (arith, count-insert p x (sort xs), count-sort p xs)

  module _ (total : (x y : A) → le x y ≡ false → le y x ≡ true)
      (trans : (x y z : A) → le x y ≡ true → le y z ≡ true → le x z ≡ true) where
    insert-is_sorted : (x : A) (xs : List A) → is_sorted xs ≡ true → is_sorted (insert x xs) ≡ true
    unfolding is_sorted insert every
    insert-is_sorted x [] h = refl
    insert-is_sorted x (y ∷ ys) h = ground (
      arith,
      total x y,
      every-insert (le y) x ys,
      insert-is_sorted x ys,
      λ (e : le x y ≡ true). every_mono (le y) (le x) ys (λ z. trans x y z e),
    )

    pub sort-is_sorted : (xs : List A) → is_sorted (sort xs) ≡ true
    unfolding is_sorted sort
    sort-is_sorted [] = refl
    sort-is_sorted (x ∷ xs) = insert-is_sorted x (sort xs) (sort-is_sorted xs)

module _ {A : Type 0} (le : A → A → Bool) where
  In-insert : (a x : A) (xs : List A) → In a (insert le x xs) → (a ≡ x) ⊎ In a xs
  unfolding insert
  In-insert a x [] m = m
  In-insert a x (y ∷ ys) m = ground (arith, In-insert a x ys)

  pub In-sort : (a : A) (xs : List A) → In a (sort le xs) → In a xs
  unfolding sort
  In-sort a [] m = m
  In-sort a (x ∷ xs) m = ground (arith, In-insert a x (sort le xs) m, In-sort a xs)

  In-insert_new : (a : A) (xs : List A) → In a (insert le a xs)
  unfolding insert
  In-insert_new a [] = inl refl
  In-insert_new a (y ∷ ys) = elim (Bool-cases (le a y)) [
    | inl e ↦ rw e (inl refl)
    | inr e ↦ rw e (inr (In-insert_new a ys))
  ]

  In-insert_old : (a x : A) (xs : List A) → In a xs → In a (insert le x xs)
  unfolding insert
  In-insert_old a x [] m = absurd m
  In-insert_old a x (y ∷ ys) m = elim (Bool-cases (le x y)) [
    | inl e ↦ rw e (inr m)
    | inr e ↦ rw e (elim m [ inl same ↦ inl same | inr rest ↦ inr (In-insert_old a x ys rest) ])
  ]

  pub In-sort_of : (a : A) (xs : List A) → In a xs → In a (sort le xs)
  unfolding sort
  In-sort_of a [] m = absurd m
  In-sort_of a (x ∷ xs) (inl e) =
      subst (λ y. In a (insert le y (sort le xs))) e (In-insert_new a (sort le xs))
  In-sort_of a (x ∷ xs) (inr m) = In-insert_old a x (sort le xs) (In-sort_of a xs m)
