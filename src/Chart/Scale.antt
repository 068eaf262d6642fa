-- ===== src/Chart/Scale.antt =====
-- internal/chart/scale.go: the top of an axis and its gradations, in exact numbers. The code finds
-- the magnitude by a logarithm in floating point.
pub mod Bounds
use insta_follower_tracker.Prelude.{
  ℕ, zero, suc, ◌+◌, ◌-◌, ◌*◌, ◌/◌, ◌%◌, List, [], ◌∷◌, ltb, leb, ◌==◌, if◌then◌else◌, length,
}

-- The power of ten at the first digit, by fuel.
unfoldable pub magnitude_from : ℕ → ℕ → ℕ
magnitude_from zero v = 1
magnitude_from (suc fuel) v =
    let rest = magnitude_from fuel (v / 10) in if ltb v 10 then 1 else 10 * rest

unfoldable pub magnitude : ℕ → ℕ
unfolding magnitude_from
magnitude v = magnitude_from v v

-- 2.5 * m ≥ v is 5 * m ≥ 2 * v.
abbrev pub rounded_up : ℕ → ℕ → ℕ
rounded_up v m =
    if leb v m
    then m
    else (if leb v (2 * m)
        then 2 * m
        else (if leb (2 * v) (5 * m) then 5 * m / 2 else (if leb v (5 * m) then 5 * m else 10 * m)))

unfoldable pub nice_ceiling : ℕ → ℕ
unfolding magnitude
nice_ceiling v = if v == 0 then 1 else rounded_up v (magnitude v)

abbrev pub divisions_of : ℕ → ℕ
divisions_of top =
    if top % 4 == 0
    then 4
    else (if top % 5 == 0 then 5 else (if top % 2 == 0 then 2 else (if top % 3 == 0 then 3 else 4)))

-- top * i / n for i from 0 to n, where n is 2, 3, 4 or 5.
abbrev pub ticks_of : ℕ → ℕ → List ℕ
ticks_of top n =
    if n == 5
    then 0 ∷ top / 5 ∷ top * 2 / 5 ∷ top * 3 / 5 ∷ top * 4 / 5 ∷ top * 5 / 5 ∷ []
    else (if n == 4
        then 0 ∷ top / 4 ∷ top * 2 / 4 ∷ top * 3 / 4 ∷ top * 4 / 4 ∷ []
        else (if n == 3
            then 0 ∷ top / 3 ∷ top * 2 / 3 ∷ top * 3 / 3 ∷ []
            else 0 ∷ top / 2 ∷ top * 2 / 2 ∷ []))

unfoldable pub value_ticks : ℕ → List ℕ
value_ticks top = ticks_of top (divisions_of top)

-- The first time and the last, of an execution's time and of the others.
unfoldable pub time_bounds : ℕ → ℕ → List ℕ → ℕ × ℕ
time_bounds low high [] = (low, high)
time_bounds low high (t ∷ ts) =
    time_bounds (if ltb t low then t else low) (if ltb high t then t else high) ts

abbrev pub widened : ℕ × ℕ → ℕ × ℕ
widened (low, high) = if ltb low high then (low, high) else (low, low + 86400)

-- The times of a history that is not empty.
unfoldable pub time_range : ℕ → List ℕ → ℕ × ℕ
unfolding time_bounds
time_range t ts = widened (time_bounds t t (t ∷ ts))

abbrev pub at_index {ℓ} : {A : Type ℓ} → ℕ → A → List A → A
at_index zero a xs = a
at_index (suc i) a [] = a
at_index (suc i) a (b ∷ xs) = at_index i b xs

-- The ends, and a middle one where there are more than two.
unfoldable pub boundary_executions {ℓ} : {A : Type ℓ} → List A → List A
boundary_executions [] = []
boundary_executions (a ∷ []) = a ∷ []
boundary_executions (a ∷ b ∷ []) = a ∷ b ∷ []
boundary_executions (a ∷ b ∷ c ∷ xs) =
    let n = length (a ∷ b ∷ c ∷ xs) in
    let rest = b ∷ c ∷ xs in a ∷ at_index (n / 2) a rest ∷ at_index (n - 1) a rest ∷ []
