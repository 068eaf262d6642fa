-- ===== src/Instagram/Lists.antt =====
-- internal/instagram/lists.go: the relationship lists, in the order of presentation. The file name
-- patterns are regular expressions, which `kind_for_entry` takes as a parameter; the labels and
-- descriptions are display text and are left out.
use insta_follower_tracker.Prelude.{Bool, true, false, List, [], ◌∷◌, Option, none, some}
use insta_follower_tracker.Prelude.Table.{find}
use insta_follower_tracker.Prelude.Text.{Text, text_eq, codes}
use insta_follower_tracker.Store.Models.{
  ListKind, blocked, close_friends, favourited, followers, following, pending_requests,
  recent_requests, recently_unfollowed, removed_suggestions, restricted,
}

pub record ListInfo : Type 0 where
  pub kind : ListKind
  pub name : Text
  pub tracked : Bool

abbrev info : ListKind → Text → Bool → ListInfo
info kind name tracked = record { kind = kind; name = name; tracked = tracked }

-- The stored name of a kind is the value of its ListKind constant.
abbrev pub list_definitions : List ListInfo
list_definitions =
    info followers (codes "followers") true
    ∷ info following (codes "following") true
    ∷ info close_friends (codes "close_friends") true
    ∷ info pending_requests (codes "pending_follow_requests") true
    ∷ info recent_requests (codes "recent_follow_requests") false
    ∷ info recently_unfollowed (codes "recently_unfollowed") false
    ∷ info blocked (codes "blocked") true
    ∷ info restricted (codes "restricted") true
    ∷ info removed_suggestions (codes "removed_suggestions") false
    ∷ info favourited (codes "favourited") true
    ∷ []

unfoldable pub lookup_list : Text → Option ListInfo
unfolding find text_eq
lookup_list name = find (λ d. text_eq d.name name) list_definitions

-- The first kind whose pattern matches, with the matching itself a parameter.
unfoldable pub kind_for_entry : (ListKind → Text → Bool) → Text → Option ListKind
unfolding find
kind_for_entry matches name = elim (find (λ d. matches d.kind name) list_definitions) [
  | none ↦ none
  | some d ↦ some d.kind
]
