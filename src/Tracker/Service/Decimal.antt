-- ===== src/Tracker/Service/Decimal.antt =====
-- The digits of a reference to an execution.
use insta_follower_tracker.Prelude.{
  ℕ, ◌+◌, ◌*◌, ◌<◌, ◌≡◌, sym, subst, inl, inr, true, [], ◌∷◌, ◌++◌, append_assoc, append-nil,
  Option, none, some, arith, ◌==◌, Bool-cases,
}
use insta_follower_tracker.Prelude.Text.{Text}
use insta_follower_tracker.Instagram.FileName.{is_digit, value_of}
use insta_follower_tracker.Tracker.Service.{
  digits_from, number_of, within, negated, id_of, parse_id,
}

-- The decimal digits of a number, the last one written last.
pub data IsDecimal : Text → ℕ → Type 0 where
  one_digit : (d : ℕ) → d < 10 → IsDecimal ((48 + d) ∷ []) d
  more : (s : Text) (n d : ℕ) → d < 10 → IsDecimal s n → IsDecimal (s ++ (48 + d) ∷ []) (10 * n + d)

-- A number in decimal, with a sign or without, where a minus is before nothing but zero.
pub data IsSpelled : Text → ℕ → Type 0 where
  plain : (s : Text) (n : ℕ) → IsDecimal s n → IsSpelled s n
  plus : (s : Text) (n : ℕ) → IsDecimal s n → IsSpelled (43 ∷ s) n
  minus_zero : (s : Text) → IsDecimal s 0 → IsSpelled (45 ∷ s) 0

digit_back : (c : ℕ) → is_digit c ≡ true → 48 + value_of c ≡ c
digit_back c h = ground arith

times_ten : (n d : ℕ) → 10 * n + d ≡ n * 10 + d
times_ten n d = omega arith

same_some : (n m : ℕ) → some n ≡ some m → n ≡ m
same_some n m h = cc h

==→eq : (a b : ℕ) → (a == b) ≡ true → a ≡ b
==→eq a b h = ground arith

next_digit :
    (p : Text) (n c : ℕ)
    → is_digit c ≡ true
    → IsDecimal p n
    → IsDecimal (p ++ c ∷ []) (n * 10 + value_of c)
next_digit p n c h k =
    subst (λ x. IsDecimal (p ++ x ∷ []) (n * 10 + value_of c)) (digit_back c h)
      (subst (IsDecimal (p ++ (48 + value_of c) ∷ [])) (times_ten n (value_of c))
        (more p n (value_of c) (ground arith) k))

digits_from-IsDecimal :
    (p s : Text) (n m : ℕ) → IsDecimal p n → digits_from n s ≡ some m → IsDecimal (p ++ s) m
unfolding digits_from
digits_from-IsDecimal p [] n m k h =
    subst (λ x. IsDecimal x m) (sym (append-nil p)) (subst (IsDecimal p) (same_some n m h) k)
digits_from-IsDecimal p (c ∷ s) n m k h = elim (Bool-cases (is_digit c)) [
  | inl e ↦
      subst (λ x. IsDecimal x m) (append_assoc p (c ∷ []) s)
        (digits_from-IsDecimal (p ++ c ∷ []) s (n * 10 + value_of c) m (next_digit p n c e k)
          (ground arith))
  | inr e ↦ absurd (ground arith)
]

from_zero : (d : ℕ) → d ≡ 0 * 10 + d
from_zero d = omega arith

first_digit : (c : ℕ) → is_digit c ≡ true → IsDecimal (c ∷ []) (0 * 10 + value_of c)
first_digit c h =
    subst (λ x. IsDecimal (x ∷ []) (0 * 10 + value_of c)) (digit_back c h)
      (subst (IsDecimal ((48 + value_of c) ∷ [])) (from_zero (value_of c))
        (one_digit (value_of c) (ground arith)))

number_of-IsDecimal : (s : Text) (m : ℕ) → number_of s ≡ some m → IsDecimal s m
unfolding digits_from
number_of-IsDecimal [] m h = cc h
number_of-IsDecimal (c ∷ s) m h = elim (Bool-cases (is_digit c)) [
  | inl e ↦
      digits_from-IsDecimal (c ∷ []) s (0 * 10 + value_of c) m (first_digit c e) (ground arith)
  | inr e ↦ absurd (ground arith)
]

within-some : (most n : ℕ) (o : Option ℕ) → within most o ≡ id_of n → o ≡ some n
within-some most n none h = cc h
within-some most n (some m) h = ground arith

negated-some : (n : ℕ) (o : Option ℕ) → negated o ≡ id_of n → (o ≡ some 0) × (n ≡ 0)
negated-some n none h = cc h
negated-some n (some m) h = ground arith

signed : (c n : ℕ) (s : Text) → parse_id (c ∷ s) ≡ id_of n → IsSpelled (c ∷ s) n
unfolding parse_id
signed c n s h = elim (Bool-cases (c == 45)) [
  | inl minus ↦
      let (e, z) = negated-some n (number_of s) (ground arith) in
      subst (λ x. IsSpelled (x ∷ s) n) (sym (==→eq c 45 minus))
        (subst (IsSpelled (45 ∷ s)) (sym z) (minus_zero s (number_of-IsDecimal s 0 e)))
  | inr no_minus ↦ elim (Bool-cases (c == 43)) [
    | inl e ↦
        subst (λ x. IsSpelled (x ∷ s) n) (sym (==→eq c 43 e))
          (plus s n (number_of-IsDecimal s n (within-some 9223372036854775807 n _ (ground arith))))
    | inr e ↦
        plain (c ∷ s) n
          (number_of-IsDecimal (c ∷ s) n (within-some 9223372036854775807 n _ (ground arith)))
  ]
]

pub parse_id-IsSpelled : (s : Text) (n : ℕ) → parse_id s ≡ id_of n → IsSpelled s n
unfolding parse_id
parse_id-IsSpelled [] n h = cc h
parse_id-IsSpelled (c ∷ s) n h = signed c n s h
