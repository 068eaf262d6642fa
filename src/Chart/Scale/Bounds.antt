-- ===== src/Chart/Scale/Bounds.antt =====
-- The bounds of an axis, and where its gradations stand.
use insta_follower_tracker.Prelude.{
  ℕ, zero, suc, ◌+◌, ◌*◌, ◌/◌, ◌%◌, ◌≤◌, ◌<◌, ◌≡◌, refl, sym, subst, inl, inr, ◌⊎◌, true, List, [],
  ◌∷◌, ltb, leb, ◌==◌, Bool-cases, arith,
}
use insta_follower_tracker.Chart.Scale.{
  magnitude_from, magnitude, rounded_up, nice_ceiling, divisions_of, ticks_of, value_ticks,
}

magnitude_from-bounds :
    (fuel v : ℕ) → v ≤ fuel → 1 ≤ v → (magnitude_from fuel v ≤ v) × (v < 10 * magnitude_from fuel v)
unfolding magnitude_from
magnitude_from-bounds zero v h k = absurd (omega arith)
magnitude_from-bounds (suc fuel) v h k = elim (Bool-cases (ltb v 10)) [
  | inl digit ↦ ground arith
  | inr more ↦
      let (a, b) = magnitude_from-bounds fuel (v / 10) (ground arith) (ground arith) in
      ground (arith, a, b)
]

-- A magnitude is one or a multiple of ten.
magnitude_from-cases :
    (fuel v : ℕ) → (magnitude_from fuel v ≡ 1) ⊎ ((j : ℕ) × (magnitude_from fuel v ≡ 10 * j))
unfolding magnitude_from
magnitude_from-cases zero v = inl refl
magnitude_from-cases (suc fuel) v = elim (Bool-cases (ltb v 10)) [
  | inl digit ↦ inl (ground arith)
  | inr more ↦ inr (magnitude_from fuel (v / 10), ground arith)
]

rounded_up-bounds :
    (v m : ℕ)
    → m ≤ v
    → v < 10 * m
    → (m ≡ 1) ⊎ ((j : ℕ) × (m ≡ 10 * j))
    → (v ≤ rounded_up v m) × (rounded_up v m ≤ 2 * v)
rounded_up-bounds v m h k (inl one) = (ground arith, ground arith)
rounded_up-bounds v m h k (inr (j, e)) = (ground arith, ground arith)

-- The top of an axis is not below its greatest value and at most twice as high.
pub nice_ceiling-bounds : (v : ℕ) → 1 ≤ v → (v ≤ nice_ceiling v) × (nice_ceiling v ≤ 2 * v)
unfolding nice_ceiling magnitude
nice_ceiling-bounds v h =
    let (a, b) = magnitude_from-bounds v v (omega arith) h in
    let (c, d) = rounded_up-bounds v (magnitude v) a b (magnitude_from-cases v v) in
    (ground (arith, c), ground (arith, d))

-- Some small number divides the top of an axis.
rounded_up-divisible :
    (v m : ℕ)
    → 2 ≤ v
    → m ≤ v
    → (m ≡ 1) ⊎ ((j : ℕ) × (m ≡ 10 * j))
    → ((rounded_up v m % 5) ≡ 0) ⊎ ((rounded_up v m % 2) ≡ 0)
rounded_up-divisible v m h k (inl one) = elim (Bool-cases (leb v 2)) [
  | inl two ↦ inr (ground arith)
  | inr more ↦ inl (ground arith)
]
rounded_up-divisible v m h k (inr (j, e)) = inl (ground arith)

-- The multiples of a step, from none to `n` of them.
unfoldable pub multiples_from : ℕ → ℕ → ℕ → List ℕ
multiples_from at step zero = at ∷ []
multiples_from at step (suc n) = at ∷ multiples_from (at + step) step n

abbrev IsEven : ℕ → ℕ → Type 0
IsEven top n = (ticks_of top n ≡ multiples_from 0 (top / n) n) × (n * (top / n) ≡ top)

by_four : (top : ℕ) → top % 4 ≡ 0 → IsEven top 4
unfolding multiples_from
by_four top h = (ground arith, omega arith)

by_five : (top : ℕ) → top % 5 ≡ 0 → IsEven top 5
unfolding multiples_from
by_five top h = (ground arith, omega arith)

by_two : (top : ℕ) → top % 2 ≡ 0 → IsEven top 2
unfolding multiples_from
by_two top h = (ground arith, omega arith)

divisions_of-IsEven : (top : ℕ) → ((top % 5) ≡ 0) ⊎ ((top % 2) ≡ 0) → IsEven top (divisions_of top)
divisions_of-IsEven top h = elim (Bool-cases (top % 4 == 0)) [
  | inl four ↦ rw four (by_four top (ground arith))
  | inr not_four ↦ elim (Bool-cases (top % 5 == 0)) [
    | inl five ↦ rw (not_four, five) (by_five top (ground arith))
    | inr not_five ↦
        let two : top % 2 ≡ 0 = ground arith in
        let test : (top % 2 == 0) ≡ true = ground arith in
        rw (not_four, not_five, test) (by_two top two)
  ]
]

-- From two up, the gradations of an axis are whole numbers at equal distances from zero to its top.
pub value_ticks-nice_ceiling :
    (v : ℕ)
    → 2 ≤ v
    → let top = nice_ceiling v in
      let n = divisions_of top in
      (value_ticks top ≡ multiples_from 0 (top / n) n) × (n * (top / n) ≡ top)
unfolding value_ticks nice_ceiling magnitude
value_ticks-nice_ceiling v h =
    let (a, b) = magnitude_from-bounds v v (omega arith) (omega arith) in
    let top : nice_ceiling v ≡ rounded_up v (magnitude v) = ground arith in
    subst (λ t. IsEven t (divisions_of t)) (sym top)
      (divisions_of-IsEven (rounded_up v (magnitude v))
        (rounded_up-divisible v (magnitude v) h a (magnitude_from-cases v v)))
