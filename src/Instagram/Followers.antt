-- ===== src/Instagram/Followers.antt =====
-- internal/instagram/parse.go: the accounts of one list, from the entries of a document to the
-- merged list.
pub mod Merged
use insta_follower_tracker.Prelude.{
  ℕ, zero, suc, Bool, true, false, ◌||◌, List, [], ◌∷◌, ◌++◌, Option, none, some, ◌==◌,
  if◌then◌else◌, ℤ, pos, negsuc,
}
use insta_follower_tracker.Prelude.Sort.{sort}
use insta_follower_tracker.Prelude.Text.{Text, text_eq, text_le}
use insta_follower_tracker.Strings.{
  to_lower, trim_space, trim_prefix, trim_suffix, cut_before, after_last,
}
use insta_follower_tracker.Instagram.Export.{Follower}

-- An item of string_list_data, and an entry, which is the list of its items.
pub record Item : Type 0 where
  pub href : Text
  pub value : Text
  pub timestamp : ℤ

pub record Entry : Type 0 where
  pub string_list_data : List Item

unfoldable pub normalize_username : Text → Text
unfolding trim_space to_lower trim_prefix trim_suffix
normalize_username v = trim_suffix 47 (trim_prefix 64 (to_lower (trim_space v)))

abbrev pub is_query : ℕ → Bool
is_query c = c == 63 || c == 35

abbrev pub is_empty : Text → Bool
is_empty [] = true
is_empty (c ∷ s) = false

-- An empty link gives an empty name by the same steps.
unfoldable pub username_from_href : Text → Text
unfolding trim_space cut_before trim_suffix after_last normalize_username
username_from_href href =
    let h = trim_space href in
    if is_empty h
    then []
    else normalize_username (after_last 47 (trim_suffix 47 (cut_before is_query h)))

abbrev pub positive : ℤ → Option ℕ
positive (pos zero) = none
positive (pos (suc n)) = some (suc n)
positive (negsuc n) = none

unfoldable pub username_of : Item → Text
unfolding normalize_username username_from_href
username_of item =
    let username = normalize_username item.value in
    if is_empty username then username_from_href item.href else username

unfoldable pub flatten_items : List Item → List Follower
unfolding username_of
flatten_items [] = []
flatten_items (item ∷ items) =
    let rest = flatten_items items in
    if is_empty (username_of item)
    then rest
    else record {
      username = username_of item;
      href = item.href;
      followed_at = positive item.timestamp;
    }
      ∷ rest

unfoldable pub flatten : List Entry → List Follower
unfolding flatten_items
flatten [] = []
flatten (e ∷ es) = flatten_items e.string_list_data ++ flatten es

-- The first that is not missing.
abbrev pub or_href : Text → Text → Text
or_href [] other = other
or_href (c ∷ s) other = c ∷ s

abbrev pub or_time : Option ℕ → Option ℕ → Option ℕ
or_time none other = other
or_time (some t) other = some t

abbrev pub richer : Follower → Follower → Follower
richer g f = record g {
  href = or_href g.href f.href;
  followed_at = or_time g.followed_at f.followed_at;
}

abbrev pub is_named : Text → Follower → Bool
is_named name f = text_eq f.username name

-- A repeat is merged into the row of its name, another is appended.
unfoldable pub merge_into : Follower → List Follower → List Follower
merge_into f [] = f ∷ []
merge_into f (g ∷ gs) =
    let rest = merge_into f gs in if is_named f.username g then richer g f ∷ gs else g ∷ rest

unfoldable pub collapse : List Follower → List Follower → List Follower
unfolding merge_into
collapse out [] = out
collapse out (f ∷ fs) = collapse (merge_into f out) fs

abbrev pub username_le : Follower → Follower → Bool
username_le a b = text_le a.username b.username

unfoldable pub dedupe : List Follower → List Follower
unfolding collapse sort
dedupe followers = sort username_le (collapse [] followers)
