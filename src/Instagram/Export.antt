-- ===== src/Instagram/Export.antt =====
-- internal/instagram/parse.go: the Export type and its readings. Lists is a Go map, here an
-- association list that is read by the first entry of a kind.
use insta_follower_tracker.Prelude.{ℕ, Bool, List, [], map, Option, none, some}
use insta_follower_tracker.Prelude.Table.{any, select, find}
use insta_follower_tracker.Prelude.Text.{Text}
use insta_follower_tracker.Store.Models.{ListKind, followers, kind_eq}
use insta_follower_tracker.Instagram.Lists.{list_definitions}

pub record Follower : Type 0 where
  pub username : Text
  pub href : Text
  pub followed_at : Option ℕ

pub record ListEntry : Type 0 where
  pub kind : ListKind
  pub entries : List Follower

pub record Export : Type 0 where
  pub lists : List ListEntry
  pub partial : Bool
  pub taken_at : Option ℕ
  pub taken_at_source : Text
  pub owner : Text

abbrev pub entries_of : Option ListEntry → List Follower
entries_of none = []
entries_of (some l) = l.entries

-- e.Lists[kind], nil for a kind that is absent.
unfoldable pub members_of : Export → ListKind → List Follower
unfolding find
members_of e k = entries_of (find (λ l. kind_eq l.kind k) e.lists)

unfoldable pub has_list : Export → ListKind → Bool
unfolding any
has_list e k = any (λ l. kind_eq l.kind k) e.lists

unfoldable pub followers_of : Export → List Follower
unfolding members_of
followers_of e = members_of e followers

unfoldable pub kinds : Export → List ListKind
unfolding has_list select
kinds e = map (λ d. d.kind) (select (λ d. has_list e d.kind) list_definitions)
