-- ===== src/Prelude/In.antt =====
-- Membership by recursion, which computes to sums that the tactics take apart, and what it says of
-- the SQL verbs.
use Prim.Native.Nat.{◌+◌, ◌≤◌, ◌<◌}
use mathlib.Core.Path.{◌≡◌, refl, ap}
use mathlib.Core.Logic.{◌⊎◌, inl, inr}
use mathlib.Core.Bool.{Bool, true, false}
use mathlib.Core.List.{List, [], ◌∷◌, ◌++◌, map}
use mathlib.Core.Option.{some}
use native.Mathlib.Omega.{arith}
use insta_follower_tracker.Prelude.Tests.{Bool-cases}
use insta_follower_tracker.Prelude.Table.{any, every, count, select, find, update_where}

module _ {A : Type 0} where
  abbrev pub In : A → List A → Type 0
  In a [] = ⊥
  In a (x ∷ xs) = (a ≡ x) ⊎ In a xs

  pub any_of_In : (p : A → Bool) (a : A) (xs : List A) → In a xs → p a ≡ true → any p xs ≡ true
  unfolding any
  any_of_In p a [] m h = absurd m
  any_of_In p a (x ∷ xs) m h = ground (arith, any_of_In p a xs)

  pub In-of_any : (p : A → Bool) (xs : List A) → any p xs ≡ true → (a : A) × In a xs × (p a ≡ true)
  unfolding any
  In-of_any p [] h = cc
  In-of_any p (x ∷ xs) h = elim (Bool-cases (p x)) [
    | inl e ↦ (x, inl refl, e)
    | inr e ↦ let (a, m, k) = In-of_any p xs (ground arith) in (a, inr m, k)
  ]

  pub every_at : (p : A → Bool) (a : A) (xs : List A) → every p xs ≡ true → In a xs → p a ≡ true
  unfolding every
  every_at p a [] h m = absurd m
  every_at p a (x ∷ xs) h m = ground (arith, every_at p a xs)

  pub every_intro :
      (p : A → Bool) (xs : List A) → ((a : A) → In a xs → p a ≡ true) → every p xs ≡ true
  unfolding every
  every_intro p [] h = refl
  every_intro p (x ∷ xs) h = ground (arith, h x (inl refl), every_intro p xs (λ a m. h a (inr m)))

  pub any-false_intro :
      (p : A → Bool) (xs : List A) → ((a : A) → In a xs → p a ≡ false) → any p xs ≡ false
  unfolding any
  any-false_intro p [] h = refl
  any-false_intro p (x ∷ xs) h =
      ground (arith, h x (inl refl), any-false_intro p xs (λ a m. h a (inr m)))

  -- Tests that agree on the rows of a table.
  pub any_congr-In :
      (p q : A → Bool) (xs : List A) → ((a : A) → In a xs → p a ≡ q a) → any p xs ≡ any q xs
  unfolding any
  any_congr-In p q [] h = refl
  any_congr-In p q (x ∷ xs) h =
      ground (arith, h x (inl refl), any_congr-In p q xs (λ a m. h a (inr m)))

  pub In-append : (a : A) (xs ys : List A) → In a (xs ++ ys) → In a xs ⊎ In a ys
  In-append a [] ys m = inr m
  In-append a (x ∷ xs) ys (inl e) = inl (inl e)
  In-append a (x ∷ xs) ys (inr m) = ground (arith, In-append a xs ys m)

  pub In-append_left : (a : A) (xs ys : List A) → In a xs → In a (xs ++ ys)
  In-append_left a [] ys m = absurd m
  In-append_left a (x ∷ xs) ys (inl e) = inl e
  In-append_left a (x ∷ xs) ys (inr m) = inr (In-append_left a xs ys m)

  pub In-append_right : (a : A) (xs ys : List A) → In a ys → In a (xs ++ ys)
  In-append_right a [] ys m = m
  In-append_right a (x ∷ xs) ys m = inr (In-append_right a xs ys m)

  pub In-select : (p : A → Bool) (a : A) (xs : List A) → In a (select p xs) → In a xs × (p a ≡ true)
  unfolding select
  In-select p a [] m = absurd m
  In-select p a (x ∷ xs) m = ground (arith, In-select p a xs)

  pub In-select_of :
      (p : A → Bool) (a : A) (xs : List A) → In a xs → p a ≡ true → In a (select p xs)
  unfolding select
  In-select_of p a [] m h = absurd m
  In-select_of p a (x ∷ xs) m h = ground (arith, In-select_of p a xs)

  pub In-find : (p : A → Bool) (a : A) (xs : List A) → find p xs ≡ some a → In a xs × (p a ≡ true)
  unfolding find
  In-find p a [] h = cc
  In-find p a (x ∷ xs) h = ground (arith, In-find p a xs)

  pub find_of_In :
      (p : A → Bool) (a : A) (xs : List A) → In a xs → p a ≡ true → (b : A) × (find p xs ≡ some b)
  unfolding find
  find_of_In p a [] m h = absurd m
  find_of_In p a (x ∷ xs) m h = elim (Bool-cases (p x)) [
    | inl e ↦ (x, rw e)
    | inr e ↦ elim m [
      | inl same ↦ absurd (cc (same, h, e))
      | inr rest ↦ rw e (find_of_In p a xs rest h)
    ]
  ]

  pub count_pos : (p : A → Bool) (a : A) (xs : List A) → In a xs → p a ≡ true → 1 ≤ count p xs
  unfolding count
  count_pos p a [] m h = absurd m
  count_pos p a (x ∷ xs) (inl e) h = ground arith
  count_pos p a (x ∷ xs) (inr m) h = ground (arith, count_pos p a xs m h)

  -- An UPDATE that makes no row pass a test.
  pub count-update-le :
      (p q : A → Bool) (f : A → A) (xs : List A)
      → ((x : A) → p (f x) ≡ true → p x ≡ true)
      → count p (update_where q f xs) ≤ count p xs
  unfolding count
  count-update-le p q f [] h = omega arith
  count-update-le p q f (x ∷ xs) h = ground (arith, h x, count-update-le p q f xs h)

  -- An UPDATE that makes a row fail a test, and no row pass it.
  pub count-update-lt :
      (p q : A → Bool) (f : A → A) (a : A) (xs : List A)
      → ((x : A) → p (f x) ≡ false)
      → In a xs
      → p a ≡ true
      → q a ≡ true
      → count p (update_where q f xs) < count p xs
  unfolding count
  count-update-lt p q f a [] h m k l = absurd m
  count-update-lt p q f a (x ∷ xs) h (inl e) k l =
      ground (arith, h x, count-update-le p q f xs (λ y n. absurd (cc (n, h y))))
  count-update-lt p q f a (x ∷ xs) h (inr m) k l =
      ground (arith, h x, count-update-lt p q f a xs h m k l)

  -- An UPDATE changes no more rows than its test chooses.
  pub count-update-le-add :
      (p q : A → Bool) (f : A → A) (xs : List A)
      → count p (update_where q f xs) ≤ count p xs + count q xs
  unfolding count
  count-update-le-add p q f [] = omega arith
  count-update-le-add p q f (x ∷ xs) = ground (arith, count-update-le-add p q f xs)

  -- A test that at most one row passes, as a primary key, is passed by one row only.
  pub unique_row :
      (p : A → Bool) (a b : A) (xs : List A)
      → count p xs ≤ 1
      → In a xs
      → In b xs
      → p a ≡ true
      → p b ≡ true
      → a ≡ b
  unfolding count
  unique_row p a b [] c m n h k = absurd m
  unique_row p a b (x ∷ xs) c (inl e) (inl f) h k = cc
  unique_row p a b (x ∷ xs) c (inl e) (inr n) h k = ground (arith, count_pos p b xs n k)
  unique_row p a b (x ∷ xs) c (inr m) (inl f) h k = ground (arith, count_pos p a xs m h)
  unique_row p a b (x ∷ xs) c (inr m) (inr n) h k = unique_row p a b xs (ground arith) m n h k

  pub any_of_count : (p : A → Bool) (xs : List A) → count p xs ≤ 0 → any p xs ≡ false
  unfolding any count
  any_of_count p [] h = refl
  any_of_count p (x ∷ xs) h = ground (arith, any_of_count p xs)

  pub count-select-le : (p q : A → Bool) (xs : List A) → count p (select q xs) ≤ count p xs
  unfolding count select
  count-select-le p q [] = omega arith
  count-select-le p q (x ∷ xs) = ground (arith, count-select-le p q xs)

module _ {A B : Type 0} where
  pub count-map :
      (p : B → Bool) (f : A → B) (xs : List A) → count p (map f xs) ≡ count (λ x. p (f x)) xs
  unfolding count
  count-map p f [] = refl
  count-map p f (x ∷ xs) = ground (arith, count-map p f xs)

  pub In-map : (f : A → B) (b : B) (xs : List A) → In b (map f xs) → (a : A) × In a xs × (b ≡ f a)
  In-map f b [] m = absurd m
  In-map f b (x ∷ xs) (inl e) = (x, inl refl, e)
  In-map f b (x ∷ xs) (inr m) = let (a, n, e) = In-map f b xs m in (a, inr n, e)

  pub In-map_of : (f : A → B) (a : A) (xs : List A) → In a xs → In (f a) (map f xs)
  In-map_of f a [] m = absurd m
  In-map_of f a (x ∷ xs) (inl e) = inl (ap f e)
  In-map_of f a (x ∷ xs) (inr m) = inr (In-map_of f a xs m)
