-- ===== src/Httpapi/Params.antt =====
-- internal/httpapi/api.go: the parameters of a request, and the orders of what is returned.
pub mod Presented
use insta_follower_tracker.Prelude.{
  ℕ, zero, suc, Bool, true, not, ◌||◌, List, [], ◌∷◌, Option, none, some, leb, if◌then◌else◌,
}
use insta_follower_tracker.Prelude.Table.{select}
use insta_follower_tracker.Prelude.Sort.{sort}
use insta_follower_tracker.Prelude.Text.{Text, text_eq, codes}
use insta_follower_tracker.Strings.{to_lower, trim_space}
use insta_follower_tracker.Store.Models.{
  ChangeType, ListKind, followers, kind_eq, is_followed, Change,
}
use insta_follower_tracker.Store.Accounts.Listing.{ListTotals}
use insta_follower_tracker.Instagram.Lists.{ListInfo, list_definitions, lookup_list}

-- No type is both kinds of changes.
pub data TypeParam : Type 0 where
  any_type unknown_type : TypeParam
  only : ChangeType → TypeParam

unfoldable pub change_type_param : Text → TypeParam
unfolding text_eq to_lower trim_space
change_type_param raw =
    let w = to_lower (trim_space raw) in
    if text_eq w []
    then any_type
    else (if text_eq w (codes "followed") || text_eq w (codes "follow") || text_eq w (codes "added")
        then only ChangeType.followed
        else (if text_eq w (codes "unfollowed")
              || text_eq w (codes "unfollow")
              || text_eq w (codes "removed")
            then only ChangeType.unfollowed
            else unknown_type))

unfoldable pub split_changes : List Change → List Change × List Change
unfolding select
split_changes changes = (
  select (λ c. is_followed c.change_type) changes,
  select (λ c. not (is_followed c.change_type)) changes,
)

unfoldable pub form_flag : Text → Bool
unfolding text_eq to_lower trim_space
form_flag value =
    let w = to_lower (trim_space value) in
    text_eq w (codes "1")
    || text_eq w (codes "true")
    || text_eq w (codes "yes")
    || text_eq w (codes "on")

abbrev pub kind_of : Option ListInfo → Option ListKind
kind_of none = none
kind_of (some d) = some d.kind

-- The list that a request is about; an unknown one is none.
unfoldable pub list_kind_param : Text → Option ListKind
unfolding trim_space text_eq lookup_list
list_kind_param raw =
    let name = trim_space raw in
    if text_eq name [] then some followers else kind_of (lookup_list name)

-- The place of a kind in the list table.
unfoldable pub place_in : List ListInfo → ListKind → ℕ
unfolding kind_eq
place_in [] k = zero
place_in (d ∷ ds) k = let rest = place_in ds k in if kind_eq d.kind k then zero else suc rest

unfoldable pub presented_le : ListTotals → ListTotals → Bool
unfolding place_in
presented_le a b = leb (place_in list_definitions a.kind) (place_in list_definitions b.kind)

-- Every kind of the model stands in the table, and no two at one place.
unfoldable pub in_presentation_order : List ListTotals → List ListTotals
unfolding sort presented_le
in_presentation_order totals = sort presented_le totals
