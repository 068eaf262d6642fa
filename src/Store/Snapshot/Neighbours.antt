-- ===== src/Store/Snapshot/Neighbours.antt =====
-- Neighbours of a list and their places.
use insta_follower_tracker.Prelude.{
  ℕ, ◌+◌, ◌≤◌, ◌≡◌, ap, ◌∙◌, inl, inr, true, false, ◌&&◌, List, [], ◌∷◌, none, some, arith, ◌==◌,
  Bool-cases, Option-cases,
}
use insta_follower_tracker.Prelude.Table.{any, count}
use insta_follower_tracker.Prelude.In.{any_of_count}
use insta_follower_tracker.Store.Snapshot.Numbering.{position}
use insta_follower_tracker.Store.Snapshot.History.{adjacent}

pub any_of_position : (us : List ℕ) (x n : ℕ) → position us x ≡ some n → any (λ v. v == x) us ≡ true
unfolding position any
any_of_position [] x n h = cc
any_of_position (u ∷ us) x n h = elim (Option-cases (position us x)) [
  | inl e ↦ ground arith
  | inr (m, e) ↦ ground (arith, any_of_position us x m e)
]

pub position_of_any :
    (us : List ℕ) (x : ℕ) → any (λ v. v == x) us ≡ true → (n : ℕ) × (position us x ≡ some n)
unfolding position any
position_of_any [] x h = cc
position_of_any (u ∷ us) x h = elim (Bool-cases (u == x)) [
  | inl e ↦ (1, ground arith)
  | inr e ↦ let (n, k) = position_of_any us x (ground arith) in (n + 1, ground arith)
]

position_pos : (us : List ℕ) (x n : ℕ) → position us x ≡ some n → 1 ≤ n
unfolding position
position_pos [] x n h = cc
position_pos (u ∷ us) x n h = elim (Option-cases (position us x)) [
  | inl e ↦ ground arith
  | inr (m, e) ↦ ground arith
]

-- A place is held by one entry.
pub position_injective :
    (us : List ℕ) (x y n : ℕ) → position us x ≡ some n → position us y ≡ some n → x ≡ y
unfolding position
position_injective [] x y n h k = cc
position_injective (u ∷ us) x y n h k = elim (Option-cases (position us x)) [
  | inl e ↦ elim (Option-cases (position us y)) [
    | inl f ↦ ground arith
    | inr (m, f) ↦ ground (arith, position_pos us y m f)
  ]
  | inr (l, e) ↦ elim (Option-cases (position us y)) [
    | inl f ↦ ground (arith, position_pos us x l e)
    | inr (m, f) ↦ ground (
      arith,
      position_pos us x l e,
      position_pos us y m f,
      λ (g : l ≡ m). position_injective us x y m (e ∙ ap some g) f,
    )
  ]
]

-- An entry that occurs once does not stand behind itself.
not_head :
    (q x : ℕ) (rest : List ℕ)
    → ((y : ℕ) → count (λ v. v == y) (q ∷ rest) ≤ 1)
    → any (λ v. v == x) rest ≡ true
    → (q == x) ≡ false
unfolding count
not_head q x rest c h = elim (Bool-cases (q == x)) [
  | inl e ↦ cc (any_of_count (λ v. v == x) rest (ground (arith, c x)), h)
  | inr e ↦ e
]

adjacent-position :
    (q : ℕ) (vs : List ℕ) (p u : ℕ)
    → ((x : ℕ) → count (λ v. v == x) (q ∷ vs) ≤ 1)
    → adjacent (some q) vs p u ≡ true
    → (n : ℕ) × (position (q ∷ vs) p ≡ some n) × (position (q ∷ vs) u ≡ some (n + 1))
unfolding adjacent position count
adjacent-position q [] p u c h = cc
adjacent-position q (v ∷ vs) p u c h = elim (Bool-cases (q == p && v == u)) [
  | inl e ↦ (1, ground arith, ground (arith, c q))
  | inr e ↦
      let (n, a, b) = adjacent-position v vs p u (λ x. ground (arith, c x)) (ground arith) in
      (
        n + 1,
        ground (arith, a, not_head q p (v ∷ vs) c (any_of_position (v ∷ vs) p n a)),
        ground (arith, b, not_head q u (v ∷ vs) c (any_of_position (v ∷ vs) u (n + 1) b)),
      )
]

-- Neighbours hold places that follow one another.
pub adjacent_positions :
    (us : List ℕ) (p u : ℕ)
    → ((x : ℕ) → count (λ v. v == x) us ≤ 1)
    → adjacent none us p u ≡ true
    → (n : ℕ) × (position us p ≡ some n) × (position us u ≡ some (n + 1))
unfolding adjacent
adjacent_positions [] p u c h = cc
adjacent_positions (q ∷ vs) p u c h = adjacent-position q vs p u c h
