-- ===== src/Instagram/Document/Order.antt =====
-- The order of the keys of a JSON object.
use insta_follower_tracker.Prelude.{
  ◌≡◌, refl, sym, ap₂, subst, inl, inr, ◌↔◌, ◌⊎◌, Bool, true, false, [], ◌∷◌, ◌++◌, arith,
  Bool-cases, ==_iff,
}
use insta_follower_tracker.Prelude.Text.{Text, text_le, text_le_total, text_le_trans, codes}
use insta_follower_tracker.Strings.{has_prefix}
use insta_follower_tracker.Instagram.Document.{is_relationships, grouped, key_le}

grouped_total :
    (a b x y : Bool) → (x ≡ false → y ≡ true) → grouped a b x ≡ false → grouped b a y ≡ true
grouped_total a b x y k h = ground arith

grouped_trans :
    (a b c x y z : Bool)
    → (x ≡ true → y ≡ true → z ≡ true)
    → grouped a b x ≡ true
    → grouped b c y ≡ true
    → grouped a c z ≡ true
grouped_trans a b c x y z t h k = ground arith

pub key_le_total : (a b : Text × Text) → key_le a b ≡ false → key_le b a ≡ true
unfolding key_le
key_le_total (a, v) (b, w) h =
    grouped_total (is_relationships a) (is_relationships b) (text_le a b) (text_le b a)
      (text_le_total a b) h

pub key_le_trans : (a b c : Text × Text) → key_le a b ≡ true → key_le b c ≡ true → key_le a c ≡ true
unfolding key_le
key_le_trans (a, v) (b, w) (c, x) h k =
    grouped_trans (is_relationships a) (is_relationships b) (is_relationships c) (text_le a b)
      (text_le b c) (text_le a c) (text_le_trans a b c) h k

-- A key that begins with the word of relationships.
abbrev pub IsRelationship : Text → Type 0
IsRelationship k = (rest : Text) × (k ≡ codes "relationships_" ++ rest)

-- Keys of relationships first, each group in byte order.
abbrev pub IsBefore : Text → Text → Type 0
IsBefore k j =
    (IsRelationship k × ¬ (IsRelationship j))
    ⊎ ((IsRelationship k ↔ IsRelationship j) × (text_le k j ≡ true))

pub has_prefix-split : (p s : Text) → has_prefix p s ≡ true → (rest : Text) × (s ≡ p ++ rest)
unfolding has_prefix
has_prefix-split [] s h = (s, refl)
has_prefix-split (c ∷ p) [] h = cc h
has_prefix-split (c ∷ p) (d ∷ s) h =
    let (rest, e) = has_prefix-split p s (ground arith) in
    (rest, ap₂ (λ x y. x ∷ y) (sym ((==_iff c d).0 (ground arith))) e)

has_prefix-append : (p rest : Text) → has_prefix p (p ++ rest) ≡ true
unfolding has_prefix
has_prefix-append [] rest = refl
has_prefix-append (c ∷ p) rest = ground (arith, has_prefix-append p rest)

pub is_relationships-split : (k : Text) → is_relationships k ≡ true → IsRelationship k
is_relationships-split k h = has_prefix-split (codes "relationships_") k h

pub IsRelationship-test : (k : Text) → IsRelationship k → is_relationships k ≡ true
IsRelationship-test k (rest, e) =
    subst (λ x. is_relationships x ≡ true) (sym e) (has_prefix-append (codes "relationships_") rest)

pub not-IsRelationship : (k : Text) → is_relationships k ≡ false → ¬ (IsRelationship k)
not-IsRelationship k h w = cc (h, IsRelationship-test k w)

pub key_le-IsBefore : (a b : Text × Text) → key_le a b ≡ true → IsBefore a.0 b.0
unfolding key_le
key_le-IsBefore (k, v) (j, w) h = elim (Bool-cases (is_relationships k)) [
  | inl a ↦ elim (Bool-cases (is_relationships j)) [
    | inl b ↦ inr ((λ _. is_relationships-split j b, λ _. is_relationships-split k a), ground arith)
    | inr b ↦ inl (is_relationships-split k a, not-IsRelationship j b)
  ]
  | inr a ↦ elim (Bool-cases (is_relationships j)) [
    | inl b ↦ absurd (ground arith)
    | inr b ↦ inr (
      (λ x. absurd (not-IsRelationship k a x), λ x. absurd (not-IsRelationship j b x)),
      ground arith,
    )
  ]
]
