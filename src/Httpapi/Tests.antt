-- ===== src/Httpapi/Tests.antt =====
-- The pages at concrete values.
use insta_follower_tracker.Prelude.In.{In}
use insta_follower_tracker.Prelude.{◌≡◌, ◌↔◌, refl, true, ℕ, ◌*◌, List, [], ◌∷◌, some, negsuc}
use insta_follower_tracker.Prelude.Table.{any, count}
use insta_follower_tracker.Prelude.Sort.{is_sorted}
use insta_follower_tracker.Prelude.Text.{codes}
use insta_follower_tracker.Store.Models.{ListKind, followers, following, blocked, kind_eq}
use insta_follower_tracker.Store.Accounts.Listing.{ListTotals}
use insta_follower_tracker.Httpapi.Dashboard.{Execution, ListSeries, StatTile, build_stats}
use insta_follower_tracker.Httpapi.Dashboard.Ends.{IsTile, build_stats-IsTile}
use insta_follower_tracker.Httpapi.Params.{
  change_type_param, unknown_type, list_kind_param, presented_le, in_presentation_order,
}
use insta_follower_tracker.Httpapi.Params.Presented.{leads, head_leads, in_presentation_order-leads}

abbrev totals : ListKind → ℕ → ListTotals
totals k n = record { kind = k; member_count = n; added_count = 0; removed_count = 0 }

abbrev execution_with : ℕ → ℕ → Execution
execution_with i n = record {
  sequence_no = i;
  taken_at = 100 * i;
  totals = totals followers n ∷ [];
}

abbrev follower_series : ListSeries
follower_series = record { kind = followers; label = codes "Followers" }

build_stats_run :
    build_stats
      (execution_with 1 10 ∷ execution_with 2 4 ∷ execution_with 3 9 ∷ [])
      (follower_series ∷ [])
    ≡ record { label = codes "Followers"; value = 9; delta = negsuc 0; since = some 100 } ∷ []
unfolding build_stats
build_stats_run = refl

abbrev follower_tile : StatTile
follower_tile = record { label = codes "Followers"; value = 9; delta = negsuc 0; since = some 100 }

build_stats-IsTile_example :
    In follower_tile (
      build_stats
        (execution_with 1 10 ∷ execution_with 2 4 ∷ execution_with 3 9 ∷ [])
        (follower_series ∷ []))
    ↔ ((l : ListSeries) × In l (follower_series ∷ [])
        × IsTile (execution_with 1 10) (execution_with 3 9) l follower_tile)
build_stats-IsTile_example =
    build_stats-IsTile (execution_with 1 10) (execution_with 3 9) (execution_with 2 4 ∷ [])
      (follower_series ∷ []) follower_tile

abbrev mixed : List ListTotals
mixed = totals blocked 1 ∷ totals followers 9 ∷ totals following 3 ∷ []

in_presentation_order-leads_example :
    (count leads (in_presentation_order mixed) ≡ count leads mixed)
    × (is_sorted presented_le (in_presentation_order mixed) ≡ true)
    × (head_leads (in_presentation_order mixed) ≡ true)
unfolding any kind_eq
in_presentation_order-leads_example = in_presentation_order-leads leads mixed refl

list_kind_param_run : list_kind_param (codes " blocked ") ≡ some blocked
unfolding list_kind_param
list_kind_param_run = refl

change_type_param_run : change_type_param (codes "gone") ≡ unknown_type
unfolding change_type_param
change_type_param_run = refl
