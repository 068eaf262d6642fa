-- ===== src/Instagram/Page.antt =====
-- internal/instagram/html.go: the profile links of a page.
pub mod Links
use insta_follower_tracker.Prelude.{
  ℕ, Bool, false, not, ◌&&◌, ◌||◌, List, [], ◌∷◌, ◌++◌, Option, none, some, leb, ◌==◌,
  if◌then◌else◌, length,
}
use insta_follower_tracker.Prelude.Table.{any, every}
use insta_follower_tracker.Prelude.Text.{Text, text_eq, codes}
use insta_follower_tracker.Strings.{
  to_lower, trim_space, trim_of, trim_prefix_text, split, has_text, take,
}
use insta_follower_tracker.Instagram.Export.{Follower}
use insta_follower_tracker.Instagram.Followers.{normalize_username, is_empty}
use insta_follower_tracker.Instagram.Readers.{
  Attribute, Node, element, other, Children, none_left, child, Url, Readers,
}

-- [a-z0-9._], one to thirty times.
abbrev pub is_handle_byte : ℕ → Bool
is_handle_byte c = leb 97 c && leb c 122 || leb 48 c && leb c 57 || c == 46 || c == 95

unfoldable pub is_handle : Text → Bool
is_handle s = leb 1 (length s) && leb (length s) 30 && every is_handle_byte s

abbrev pub reserved_paths : List Text
reserved_paths =
    codes "about"
    ∷ codes "accounts"
    ∷ codes "api"
    ∷ codes "challenge"
    ∷ codes "developer"
    ∷ codes "direct"
    ∷ codes "explore"
    ∷ codes "emails"
    ∷ codes "help"
    ∷ codes "legal"
    ∷ codes "p"
    ∷ codes "press"
    ∷ codes "privacy"
    ∷ codes "reel"
    ∷ codes "reels"
    ∷ codes "session"
    ∷ codes "stories"
    ∷ codes "terms"
    ∷ codes "tv"
    ∷ []

unfoldable pub is_reserved : Text → Bool
unfolding text_eq
is_reserved name = any (text_eq name) reserved_paths

abbrev pub is_blank : ℕ → Bool
is_blank c = c == 32 || c == 9 || c == 13 || c == 10

-- The byte order mark is the three bytes of U+FEFF.
unfoldable pub trim_head : Text → Text
trim_head [] = []
trim_head (c ∷ []) = if is_blank c then [] else c ∷ []
trim_head (c ∷ d ∷ []) = let rest = trim_head (d ∷ []) in if is_blank c then rest else c ∷ d ∷ []
trim_head (c ∷ d ∷ e ∷ s) =
    let one = trim_head (d ∷ e ∷ s) in
    let three = trim_head s in
    if is_blank c then one else (if c == 239 && d == 187 && e == 191 then three else c ∷ d ∷ e ∷ s)

unfoldable pub has_markup : Text → Bool
unfolding has_text
has_markup lower =
    has_text (codes "<html") lower
    || has_text (codes "<!doctype html") lower
    || has_text (codes "<div") lower
    || has_text (codes "<a ") lower

unfoldable pub looks_like_html : Text → Bool
unfolding trim_head to_lower take has_markup
looks_like_html body = elim (trim_head body) [
  | [] ↦ false
  | c ∷ s ↦ c == 60 && has_markup (to_lower (take 512 (c ∷ s)))
]

-- The one segment of a profile path.
abbrev pub only_segment : List Text → Text
only_segment (s ∷ []) = s
only_segment _ = []

abbrev pub is_instagram : Text → Bool
is_instagram host =
    text_eq (trim_prefix_text (codes "www.") (to_lower host)) (codes "instagram.com")

unfoldable pub accepted : Text → Text → Text
unfolding is_reserved is_handle
accepted segment handle =
    if is_empty segment || is_reserved handle || not (is_handle handle) then [] else handle

unfoldable pub handle_of_segment : Text → Text
unfolding normalize_username accepted
handle_of_segment segment = accepted segment (normalize_username segment)

abbrev pub profile_of : Option Url → Text
profile_of none = []
profile_of (some u) =
    if is_instagram u.host
    then handle_of_segment (only_segment (split 47 (trim_of (λ c. c == 47) u.path)))
    else []

module _ (readers : Readers) where
  unfoldable pub username_from_profile_url : Text → Text
  unfolding trim_space split trim_of trim_prefix_text to_lower text_eq handle_of_segment
  username_from_profile_url raw = profile_of (readers.parse_url (trim_space raw))

  abbrev link_row : Text → Text → List Follower
  link_row href username =
      if is_empty username
      then []
      else record { username = username; href = href; followed_at = none } ∷ []

  -- The first href of an element, and what its link gives.
  unfoldable pub first_link : List Attribute → List Follower
  unfolding username_from_profile_url
  first_link [] = []
  first_link (a ∷ rest) =
      if text_eq (to_lower a.key) (codes "href")
      then link_row a.val (username_from_profile_url a.val)
      else first_link rest

  unfoldable mutual
    unfolding first_link

    pub walk : Node → List Follower
    walk (element tag attributes children) =
        (if text_eq tag (codes "a") then first_link attributes else []) ++ walk_children children
    walk (other children) = walk_children children

    pub walk_children : Children → List Follower
    walk_children none_left = []
    walk_children (child n rest) = walk n ++ walk_children rest

  -- None where the page does not parse.
  unfoldable pub parse_html_export : Text → Option (List Follower)
  unfolding walk
  parse_html_export body = elim (readers.parse_page body) [
    | none ↦ none
    | some page ↦ some (walk page)
  ]
