-- ===== src/Httpapi/Dashboard.antt =====
-- internal/httpapi/dashboard.go: the executions of a chart and the headline row.
pub mod Ends
use insta_follower_tracker.Prelude.{
  ℕ, Bool, true, false, ◌&&◌, List, [], ◌∷◌, ◌++◌, map, Option, none, some, if◌then◌else◌, ℤ, pos,
  ◌⊖◌,
}
use insta_follower_tracker.Prelude.Table.{any, select}
use insta_follower_tracker.Prelude.Text.{Text}
use insta_follower_tracker.Store.Models.{ListKind, kind_eq}
use insta_follower_tracker.Store.Accounts.Listing.{ListTotals, ExecutionTotals}
use insta_follower_tracker.Instagram.Lists.{ListInfo, list_definitions}

-- An execution of the chart package; its three maps are one list of totals, read at the last row of
-- a kind. A number that is not there is zero.
pub record Execution : Type 0 where
  pub sequence_no : ℕ
  pub taken_at : ℕ
  pub totals : List ListTotals

pub record ListSeries : Type 0 where
  pub kind : ListKind
  pub label : Text

abbrev pub or_zero : Option ℕ → ℕ
or_zero none = 0
or_zero (some n) = n

abbrev pub or_else : Option ℕ → ℕ → ℕ
or_else none other = other
or_else (some t) other = t

abbrev pub to_chart_execution : ExecutionTotals → Execution
to_chart_execution h = record {
  sequence_no = or_zero h.upload.sequence_no;
  taken_at = or_else h.upload.snapshot_taken_at h.upload.uploaded_at;
  totals = h.lists;
}

unfoldable pub to_chart_executions : List ExecutionTotals → List Execution
to_chart_executions = map to_chart_execution

-- The second result: the kinds that appear anywhere.
unfoldable pub is_present : ListKind → List ExecutionTotals → Bool
unfolding any
is_present k history = any (λ h. any (λ t. kind_eq t.kind k) h.lists) history

-- Only lists that the account recorded, in the order of the list table.
unfoldable pub series_of : (ListInfo → Text) → List ExecutionTotals → List ListSeries
unfolding select is_present
series_of label history =
    map (λ d. record { kind = d.kind; label = label d })
      (select (λ d. d.tracked && is_present d.kind history) list_definitions)

-- e.Totals[kind]
unfoldable pub total_of : ListKind → List ListTotals → Option ℕ
unfolding kind_eq
total_of k [] = none
total_of k (t ∷ ts) = elim (total_of k ts) [
  | none ↦ if kind_eq t.kind k then some t.member_count else none
  | some n ↦ some n
]

-- A change is there together with the time that it counts from.
pub record StatTile : Type 0 where
  pub label : Text
  pub value : ℕ
  pub delta : ℤ
  pub since : Option ℕ

abbrev pub tile_of : Text → ℕ → ℕ → Bool → Option ℕ → StatTile
tile_of label current since several none = record {
  label = label;
  value = current;
  delta = pos 0;
  since = none;
}
tile_of label current since several (some start) =
    if several
    then record { label = label; value = current; delta = current ⊖ start; since = some since }
    else record { label = label; value = current; delta = pos 0; since = none }

abbrev pub tiles_of : Text → Option ℕ → ℕ → Bool → Option ℕ → List StatTile
tiles_of label none since several start = []
tiles_of label (some current) since several start = tile_of label current since several start ∷ []

unfoldable pub stat_tiles : Execution → Execution → Bool → List ListSeries → List StatTile
unfolding total_of ◌⊖◌
stat_tiles first last several [] = []
stat_tiles first last several (l ∷ ls) =
    tiles_of l.label (total_of l.kind last.totals) first.taken_at several
      (total_of l.kind first.totals)
    ++ stat_tiles first last several ls

unfoldable pub last_of : Execution → List Execution → Execution
last_of e [] = e
last_of e (f ∷ fs) = last_of f fs

abbrev pub is_several : List Execution → Bool
is_several [] = false
is_several (f ∷ fs) = true

unfoldable pub build_stats : List Execution → List ListSeries → List StatTile
unfolding stat_tiles last_of
build_stats [] series = []
build_stats (e ∷ es) series = stat_tiles e (last_of e es) (is_several es) series
