-- ===== src/Strings/Pieces.antt =====
-- Splitting a text at a byte and putting it together again.
use insta_follower_tracker.Prelude.{
  ℕ, zero, suc, ◌≤◌, ◌≡◌, refl, inl, inr, true, false, not, List, [], ◌∷◌, ◌++◌, arith, length,
  ◌==◌, Bool-cases,
}
use insta_follower_tracker.Prelude.Table.{any, every}
use insta_follower_tracker.Prelude.Text.{Text}
use insta_follower_tracker.Strings.{split, contains, take}

-- Text without the byte `c`.
abbrev pub IsFree : ℕ → Text → Type 0
IsFree c s = contains c s ≡ false

split-cons : (c : ℕ) (s : Text) → (p : Text) × (ps : List Text) × (split c s ≡ p ∷ ps)
unfolding split
split-cons c [] = ([], [], refl)
split-cons c (d ∷ s) =
    let (p, ps, e) = split-cons c s in
    elim (Bool-cases (d == c)) [
      | inl same ↦ ([], split c s, ground arith)
      | inr other ↦ (d ∷ p, ps, ground (arith, e))
    ]

-- A piece holds no separator.
pub split-IsFree : (c : ℕ) (s : Text) → every (λ p. not (contains c p)) (split c s) ≡ true
unfolding split every contains any
split-IsFree c [] = refl
split-IsFree c (d ∷ s) = let (p, ps, e) = split-cons c s in ground (arith, split-IsFree c s, e)

-- A text without separators is the first piece of what follows it.
pub split-append : (c : ℕ) (s rest : Text) → IsFree c s → split c (s ++ c ∷ rest) ≡ s ∷ split c rest
unfolding split contains any
split-append c [] rest h = ground arith
split-append c (d ∷ s) rest h = ground (arith, split-append c s rest)

pub split_whole : (c : ℕ) (s : Text) → IsFree c s → split c s ≡ s ∷ []
unfolding split contains any
split_whole c [] h = refl
split_whole c (d ∷ s) h = ground (arith, split_whole c s)

pub length-take : (n : ℕ) (s : Text) → length (take n s) ≤ n
unfolding take
length-take zero s = omega arith
length-take (suc n) [] = omega arith
length-take (suc n) (c ∷ s) = omega (arith, length-take n s)

pub take-IsFree : (n c : ℕ) (s : Text) → IsFree c s → IsFree c (take n s)
unfolding take contains any
take-IsFree zero c s h = refl
take-IsFree (suc n) c [] h = refl
take-IsFree (suc n) c (d ∷ s) h = ground (arith, take-IsFree n c s)
