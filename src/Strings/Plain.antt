-- ===== src/Strings/Plain.antt =====
-- Texts that the trimming operations leave as they are.
use insta_follower_tracker.Prelude.{
  ℕ, ◌≡◌, refl, ap, inl, inr, Bool, true, false, not, [], ◌∷◌, ◌++◌, arith, length, length-append,
  ◌==◌, Bool-cases,
}
use insta_follower_tracker.Prelude.Table.{every}
use insta_follower_tracker.Prelude.Text.{Text, text_eq, text_eq_refl, text_eq→eq}
use insta_follower_tracker.Strings.{
  is_upper, is_space, to_lower, trim_left_of, trim_right_of, trim_of, trim_space, trim_prefix,
  trim_suffix, trim_suffix_text,
}

pub to_lower_plain : (s : Text) → every (λ c. not (is_upper c)) s ≡ true → to_lower s ≡ s
unfolding to_lower every
to_lower_plain [] h = refl
to_lower_plain (c ∷ s) h = ground (arith, to_lower_plain s)

pub trim_right_of_plain :
    (p : ℕ → Bool) (s : Text) → every (λ c. not (p c)) s ≡ true → trim_right_of p s ≡ s
unfolding trim_right_of every
trim_right_of_plain p [] h = refl
trim_right_of_plain p (c ∷ []) h = ground arith
trim_right_of_plain p (c ∷ d ∷ s) h = ground (arith, trim_right_of_plain p (d ∷ s))

pub trim_of_plain : (p : ℕ → Bool) (s : Text) → every (λ c. not (p c)) s ≡ true → trim_of p s ≡ s
unfolding trim_of trim_left_of every
trim_of_plain p [] h = refl
trim_of_plain p (c ∷ s) h = ground (arith, trim_right_of_plain p (c ∷ s))

pub trim_space_plain : (s : Text) → every (λ c. not (is_space c)) s ≡ true → trim_space s ≡ s
unfolding trim_space
trim_space_plain s h = trim_of_plain is_space s h

pub trim_prefix_plain :
    (c : ℕ) (s : Text) → every (λ d. not (d == c)) s ≡ true → trim_prefix c s ≡ s
unfolding trim_prefix every
trim_prefix_plain c [] h = refl
trim_prefix_plain c (d ∷ s) h = ground arith

pub trim_suffix_plain :
    (c : ℕ) (s : Text) → every (λ d. not (d == c)) s ≡ true → trim_suffix c s ≡ s
unfolding trim_suffix every
trim_suffix_plain c [] h = refl
trim_suffix_plain c (d ∷ []) h = ground arith
trim_suffix_plain c (d ∷ e ∷ s) h = ground (arith, trim_suffix_plain c (e ∷ s))

longer_differs : (c : ℕ) (s p : Text) → text_eq (c ∷ s ++ p) p ≡ false
longer_differs c s p = elim (Bool-cases (text_eq (c ∷ s ++ p) p)) [
  | inl same ↦ absurd (omega (arith, ap length (text_eq→eq (c ∷ s ++ p) p same), length-append s p))
  | inr other ↦ other
]

pub trim_suffix_text-append : (c : ℕ) (p s : Text) → trim_suffix_text (c ∷ p) (s ++ c ∷ p) ≡ s
unfolding trim_suffix_text
trim_suffix_text-append c p [] = rw (trim_suffix_text, text_eq_refl (c ∷ p)) refl
trim_suffix_text-append c p (d ∷ s) =
    rw (trim_suffix_text, longer_differs d s (c ∷ p))
      (ap (λ (x : Text). d ∷ x) (trim_suffix_text-append c p s))
