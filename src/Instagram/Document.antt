-- ===== src/Instagram/Document.antt =====
-- internal/instagram/parse.go: one document of an export, as JSON or as a page.
pub mod Order
pub mod Keys
use insta_follower_tracker.Prelude.{
  Bool, true, false, ◌||◌, List, [], ◌∷◌, Option, none, some, ◌==◌, if◌then◌else◌,
}
use insta_follower_tracker.Prelude.Sort.{sort}
use insta_follower_tracker.Prelude.Text.{Text, text_le, codes}
use insta_follower_tracker.Strings.{has_prefix, trim_left_of}
use insta_follower_tracker.Instagram.Export.{Follower}
use insta_follower_tracker.Instagram.Followers.{Entry, flatten}
use insta_follower_tracker.Instagram.Page.{is_blank, looks_like_html, parse_html_export}
use insta_follower_tracker.Instagram.Readers.{Readers}

-- A list that was recognised, a document that is no list, and an error.
pub data Document : Type 0 where
  listed : List Follower → Document
  unrecognised malformed : Document

abbrev pub is_relationships : Text → Bool
is_relationships k = has_prefix (codes "relationships_") k

abbrev pub grouped : Bool → Bool → Bool → Bool
grouped first second le =
    if first then (if second then le else true) else (if second then false else le)

-- The keys of relationships first, each group in byte order.
unfoldable pub key_le : Text × Text → Text × Text → Bool
unfolding has_prefix text_le
key_le (a, v) (b, w) = grouped (is_relationships a) (is_relationships b) (text_le a b)

abbrev pub some_follower : List Follower → Bool
some_follower [] = false
some_follower (f ∷ fs) = true

module _ (readers : Readers) where
  -- What the value under a key gives, if it counts.
  unfoldable pub list_of_key : Text × Text → Option (List Follower)
  unfolding flatten has_prefix
  list_of_key (k, raw) = elim (readers.decode_entries raw) [
    | none ↦ none
    | some entries ↦
        if some_follower (flatten entries) || is_relationships k
        then some (flatten entries)
        else none
  ]

  unfoldable pub first_list : List (Text × Text) → Document
  unfolding list_of_key
  first_list [] = unrecognised
  first_list (row ∷ rest) =
      let more = first_list rest in elim (list_of_key row) [ none ↦ more | some fs ↦ listed fs ]

  abbrev of_entries : Option (List Entry) → Document
  of_entries none = malformed
  of_entries (some entries) = listed (flatten entries)

  abbrev of_object : Option (List (Text × Text)) → Document
  of_object none = malformed
  of_object (some rows) = first_list (sort key_le rows)

  unfoldable pub parse_json : Text → Document
  unfolding trim_left_of sort key_le first_list flatten
  parse_json body = elim (trim_left_of is_blank body) [
    | [] ↦ unrecognised
    | c ∷ s ↦
        if c == 91
        then of_entries (readers.decode_entries (c ∷ s))
        else (if c == 123 then of_object (readers.decode_object (c ∷ s)) else unrecognised)
  ]

  abbrev of_page : Option (List Follower) → Document
  of_page none = malformed
  of_page (some fs) = listed fs

  unfoldable pub parse_document : Text → Document
  unfolding looks_like_html parse_html_export parse_json
  parse_document body =
      if looks_like_html body then of_page (parse_html_export readers body) else parse_json body
