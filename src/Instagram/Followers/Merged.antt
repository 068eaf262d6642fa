-- ===== src/Instagram/Followers/Merged.antt =====
-- What dedupe makes of a list that names accounts more than once.
use insta_follower_tracker.Prelude.{
  ℕ, ◌+◌, ◌≤◌, ◌≡◌, refl, sym, ap, ◌∙◌, inl, inr, Bool, true, false, not, ◌&&◌, ◌||◌, List, [], ◌∷◌,
  Option, none, some, arith, if◌then◌else◌, Bool-cases, Option-cases,
}
use insta_follower_tracker.Prelude.Table.{any, count, find}
use insta_follower_tracker.Prelude.In.{In-find, find_of_In, In-of_any, any_of_In, unique_row}
use insta_follower_tracker.Prelude.Sort.{
  sort, is_sorted, sort-is_sorted, count-sort, any-sort, In-sort,
}
use insta_follower_tracker.Prelude.Text.{
  Text, text_eq, text_eq→eq, text_eq_sym, text_le_total, text_le_trans,
}
use insta_follower_tracker.Instagram.Export.{Follower}
use insta_follower_tracker.Instagram.Followers.{
  or_href, or_time, is_named, merge_into, collapse, username_le, dedupe,
}

-- The first link and the first time that a list gives for a name.
unfoldable pub first_href : Text → List Follower → Text
first_href name [] = []
first_href name (f ∷ fs) =
    let rest = first_href name fs in if is_named name f then or_href f.href rest else rest

unfoldable pub first_time : Text → List Follower → Option ℕ
first_time name [] = none
first_time name (f ∷ fs) =
    let rest = first_time name fs in if is_named name f then or_time f.followed_at rest else rest

-- The row that a name should have.
unfoldable pub merged : Text → List Follower → Option Follower
unfolding first_href first_time
merged name fs =
    if any (is_named name) fs
    then some
        (record { username = name; href = first_href name fs; followed_at = first_time name fs })
    else none

-- The row of the name, with what a later list adds to it.
abbrev enriched : Text → Option Follower → List Follower → Option Follower
enriched name none fs = merged name fs
enriched name (some g) fs = some (record g {
  href = or_href g.href (first_href name fs);
  followed_at = or_time g.followed_at (first_time name fs);
})

text_eq_trans : (s t u : Text) → text_eq s t ≡ true → text_eq s u ≡ text_eq t u
text_eq_trans s t u h = ap (λ (x : Text). text_eq x u) (text_eq→eq s t h)

count-merge_into :
    (name : Text) (f : Follower) (out : List Follower)
    → count (is_named name) (merge_into f out)
      ≡ (if is_named name f && not (any (is_named name) out) then 1 else 0)
        + count (is_named name) out
unfolding merge_into count any
count-merge_into name f [] = ground arith
count-merge_into name f (g ∷ gs) = elim (Bool-cases (text_eq g.username f.username)) [
  | inl same ↦ ground (arith, text_eq_trans g.username f.username name same)
  | inr other ↦ elim (Bool-cases (text_eq g.username name)) [
    | inl hit ↦ ground (
      arith,
      count-merge_into name f gs,
      text_eq_trans g.username name f.username hit,
      text_eq_sym f.username name,
    )
    | inr miss ↦ ground (arith, count-merge_into name f gs)
  ]
]

any-merge_into :
    (name : Text) (f : Follower) (out : List Follower)
    → any (is_named name) (merge_into f out) ≡ (is_named name f || any (is_named name) out)
unfolding merge_into any
any-merge_into name f [] = ground arith
any-merge_into name f (g ∷ gs) = elim (Bool-cases (text_eq g.username f.username)) [
  | inl same ↦ ground (arith, text_eq_trans g.username f.username name same)
  | inr other ↦ ground (arith, any-merge_into name f gs)
]

count-collapse :
    (name : Text) (out fs : List Follower)
    → count (is_named name) (collapse out fs)
      ≡ (if any (is_named name) fs && not (any (is_named name) out) then 1 else 0)
        + count (is_named name) out
unfolding collapse any
count-collapse name out [] = ground arith
count-collapse name out (f ∷ fs) = ground (
  arith,
  count-collapse name (merge_into f out) fs,
  count-merge_into name f out,
  any-merge_into name f out,
)

or_href-nil : (s : Text) → or_href s [] ≡ s
or_href-nil [] = refl
or_href-nil (c ∷ s) = refl

or_time-none : (t : Option ℕ) → or_time t none ≡ t
or_time-none none = refl
or_time-none (some t) = refl

or_href_assoc : (a b c : Text) → or_href (or_href a b) c ≡ or_href a (or_href b c)
or_href_assoc [] b c = refl
or_href_assoc (x ∷ a) b c = refl

or_time_assoc : (a b c : Option ℕ) → or_time (or_time a b) c ≡ or_time a (or_time b c)
or_time_assoc none b c = refl
or_time_assoc (some x) b c = refl

find-merge_into :
    (name : Text) (f : Follower) (out : List Follower)
    → find (is_named name) (merge_into f out) ≡ enriched name (find (is_named name) out) (f ∷ [])
unfolding merge_into find merged any
find-merge_into name f [] =
    ground (arith, text_eq→eq f.username name, or_href-nil f.href, or_time-none f.followed_at)
find-merge_into name f (g ∷ gs) = elim (Bool-cases (text_eq g.username f.username)) [
  | inl same ↦ ground (arith, text_eq_trans g.username f.username name same)
  | inr other ↦ elim (Bool-cases (text_eq g.username name)) [
    | inl hit ↦ ground (
      arith,
      text_eq_trans g.username name f.username hit,
      text_eq_sym f.username name,
      or_href-nil g.href,
      or_time-none g.followed_at,
    )
    | inr miss ↦ ground (arith, find-merge_into name f gs)
  ]
]

enriched_twice :
    (name : Text) (o : Option Follower) (f : Follower) (fs : List Follower)
    → enriched name (enriched name o (f ∷ [])) fs ≡ enriched name o (f ∷ fs)
unfolding merged any
enriched_twice name none f fs = ground (arith, or_href-nil f.href, or_time-none f.followed_at)
enriched_twice name (some g) f fs = elim (Bool-cases (is_named name f)) [
  | inl hit ↦ ground (
    arith,
    or_href-nil f.href,
    or_time-none f.followed_at,
    or_href_assoc g.href f.href (first_href name fs),
    or_time_assoc g.followed_at f.followed_at (first_time name fs),
  )
  | inr miss ↦ ground (arith, or_href-nil g.href, or_time-none g.followed_at)
]

enriched_nil : (name : Text) (o : Option Follower) → enriched name o [] ≡ o
unfolding merged any
enriched_nil name none = refl
enriched_nil name (some g) = ground (arith, or_href-nil g.href, or_time-none g.followed_at)

find-collapse :
    (name : Text) (out fs : List Follower)
    → find (is_named name) (collapse out fs) ≡ enriched name (find (is_named name) out) fs
unfolding collapse
find-collapse name out [] = sym (enriched_nil name (find (is_named name) out))
find-collapse name out (f ∷ fs) =
    find-collapse name (merge_into f out) fs
    ∙ ap (λ (o : Option Follower). enriched name o fs) (find-merge_into name f out)
    ∙ enriched_twice name (find (is_named name) out) f fs

-- Where one row passes at most, sorting does not change which row is found.
find-sort :
    (p : Follower → Bool) (xs : List Follower)
    → count p xs ≤ 1
    → find p (sort username_le xs) ≡ find p xs
find-sort p xs single = elim (Option-cases (find p (sort username_le xs))) [
  | inl absent ↦ elim (Option-cases (find p xs)) [
    | inl also ↦ absent ∙ sym also
    | inr (b, e) ↦
        let (m, h) = In-find p b xs e in
        let (a, n, k) =
          In-of_any p (sort username_le xs) (any-sort username_le p xs ∙ any_of_In p b xs m h) in
        let (c, f) = find_of_In p a (sort username_le xs) n k in absurd (cc (f, absent))
  ]
  | inr (a, e) ↦
      let (n, k) = In-find p a (sort username_le xs) e in
      let m = In-sort username_le a xs n in
      let (b, f) = find_of_In p a xs m k in
      let (l, h) = In-find p b xs f in e ∙ ap some (unique_row p a b xs single m l k h) ∙ sym f
]

username_le_total : (a b : Follower) → username_le a b ≡ false → username_le b a ≡ true
username_le_total a b h = text_le_total a.username b.username h

username_le_trans :
    (a b c : Follower) → username_le a b ≡ true → username_le b c ≡ true → username_le a c ≡ true
username_le_trans a b c h k = text_le_trans a.username b.username c.username h k

-- The merged list is in the order of the names and names nobody twice. It has a row for a name
-- exactly if the list had one, with the first link that is not empty and the first follow time.
pub dedupe-merged :
    (fs : List Follower) (name : Text)
    → (is_sorted username_le (dedupe fs) ≡ true)
      × (count (is_named name) (dedupe fs) ≤ 1)
      × (find (is_named name) (dedupe fs) ≡ merged name fs)
unfolding dedupe
dedupe-merged fs name =
    let single : count (is_named name) (collapse [] fs) ≤ 1 =
      unfold count in unfold any in ground (arith, count-collapse name [] fs) in
    (
      sort-is_sorted username_le username_le_total username_le_trans (collapse [] fs),
      ground (arith, count-sort username_le (is_named name) (collapse [] fs), single),
      find-sort (is_named name) (collapse [] fs) single ∙ unfold find in find-collapse name [] fs,
    )
