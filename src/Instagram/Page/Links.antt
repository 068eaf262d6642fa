-- ===== src/Instagram/Page/Links.antt =====
-- Only names of profiles are read off a page.
use insta_follower_tracker.Prelude.{
  ◌≡◌, refl, inl, inr, Bool, true, false, not, ◌&&◌, ◌||◌, List, [], ◌∷◌, Option, none, some, arith,
  ◌==◌, if◌then◌else◌, Bool-cases,
}
use insta_follower_tracker.Prelude.Table.{every, every-append}
use insta_follower_tracker.Prelude.Text.{Text, text_eq, codes}
use insta_follower_tracker.Strings.{to_lower, trim_of, trim_space, split}
use insta_follower_tracker.Instagram.Export.{Follower}
use insta_follower_tracker.Instagram.Followers.{is_empty, normalize_username}
use insta_follower_tracker.Instagram.Readers.{
  Attribute, Node, element, other, Children, none_left, child, Url, Readers,
}
use insta_follower_tracker.Instagram.Page.{
  is_handle, is_reserved, is_instagram, only_segment, accepted, handle_of_segment, profile_of,
  username_from_profile_url, link_row, first_link, walk, walk_children, parse_html_export,
}

-- A name of Instagram's characters and length, and no feature of the site.
abbrev pub is_profile : Text → Bool
is_profile name = is_handle name && not (is_reserved name)

accepted-is_profile :
    (s handle : Text) → is_empty (accepted s handle) ≡ false → is_profile (accepted s handle) ≡ true
unfolding accepted
accepted-is_profile s handle h =
    elim (Bool-cases (is_empty s || is_reserved handle || not (is_handle handle))) [
      | inl bad ↦ ground arith
      | inr fine ↦ ground arith
    ]

segment-is_profile :
    (s : Text) → is_empty (handle_of_segment s) ≡ false → is_profile (handle_of_segment s) ≡ true
unfolding handle_of_segment
segment-is_profile s h = accepted-is_profile s (normalize_username s) h

profile_of-is_profile :
    (u : Option Url) → is_empty (profile_of u) ≡ false → is_profile (profile_of u) ≡ true
profile_of-is_profile none h = cc h
profile_of-is_profile (some u) h = elim (Bool-cases (is_instagram u.host)) [
  | inl here ↦
      ground (arith, segment-is_profile (only_segment (split 47 (trim_of (λ c. c == 47) u.path))))
  | inr away ↦ ground arith
]

module _ (readers : Readers) where
  link_row-every :
      (href name : Text)
      → (is_empty name ≡ false → is_profile name ≡ true)
      → every (λ f. is_profile f.username) (link_row readers href name) ≡ true
  unfolding every
  link_row-every href name h = ground (arith, h)

  first_link-every :
      (attributes : List Attribute)
      → every (λ f. is_profile f.username) (first_link readers attributes) ≡ true
  unfolding first_link every username_from_profile_url
  first_link-every [] = refl
  first_link-every (a ∷ rest) = elim (Bool-cases (text_eq (to_lower a.key) (codes "href"))) [
    | inl hit ↦
        rw (first_link, hit)
          (link_row-every a.val (username_from_profile_url readers a.val)
            (profile_of-is_profile (readers.parse_url (trim_space a.val))))
    | inr miss ↦ rw (first_link, miss) (first_link-every rest)
  ]

  mutual
    unfolding walk every

    pub walk-is_profile : (n : Node) → every (λ f. is_profile f.username) (walk readers n) ≡ true
    walk-is_profile (element tag attributes children) = ground (
      arith,
      every-append (λ f. is_profile f.username)
          (if text_eq tag (codes "a") then first_link readers attributes else [])
          (walk_children readers children),
      first_link-every attributes,
      children-every children,
    )
    walk-is_profile (other children) = children-every children

    children-every :
        (c : Children) → every (λ f. is_profile f.username) (walk_children readers c) ≡ true
    children-every none_left = refl
    children-every (child n rest) = ground (
      arith,
      every-append (λ f. is_profile f.username) (walk readers n) (walk_children readers rest),
      walk-is_profile n,
      children-every rest,
    )

  pages_lem :
      (o : Option Node) (fs : List Follower)
      → elim o [ none ↦ none | some page ↦ some (walk readers page) ] ≡ some fs
      → every (λ f. is_profile f.username) fs ≡ true
  pages_lem none fs e = cc e
  pages_lem (some page) fs e = cc (e, walk-is_profile page)

  -- Every account read off a page has a name of Instagram's characters and length that is no feature
  -- of the site, whatever the page holds.
  pub parse_html_export-is_profile :
      (body : Text) (fs : List Follower)
      → parse_html_export readers body ≡ some fs
      → every (λ f. is_profile f.username) fs ≡ true
  unfolding parse_html_export
  parse_html_export-is_profile body fs e = pages_lem (readers.parse_page body) fs e
