-- ===== src/Httpapi/Params/Presented.antt =====
-- The lists of an execution in the order of the list table.
use insta_follower_tracker.Prelude.{
  ◌≡◌, sym, ap, ◌∙◌, Bool, true, false, List, [], ◌∷◌, arith, leb, Bool-cases, inl, inr,
}
use insta_follower_tracker.Prelude.Table.{any, count, every}
use insta_follower_tracker.Prelude.In.{In-of_any, every_at}
use insta_follower_tracker.Prelude.Sort.{sort, is_sorted, sort-is_sorted, count-sort, any-sort}
use insta_follower_tracker.Store.Models.{ListKind, followers, kind_eq}
use insta_follower_tracker.Store.Accounts.Listing.{ListTotals}
use insta_follower_tracker.Instagram.Lists.{list_definitions}
use insta_follower_tracker.Httpapi.Params.{place_in, presented_le, in_presentation_order}

presented_le_total : (a b : ListTotals) → presented_le a b ≡ false → presented_le b a ≡ true
unfolding presented_le
presented_le_total a b h = ground arith

presented_le_trans :
    (a b c : ListTotals)
    → presented_le a b ≡ true
    → presented_le b c ≡ true
    → presented_le a c ≡ true
unfolding presented_le
presented_le_trans a b c h k = ground arith

abbrev pub leads : ListTotals → Bool
leads t = kind_eq t.kind followers

abbrev pub head_leads : List ListTotals → Bool
head_leads [] = false
head_leads (t ∷ ts) = leads t

place_lem :
    (a b : ListKind)
    → leb (place_in list_definitions a) (place_in list_definitions b) ≡ true
    → kind_eq b followers ≡ true
    → kind_eq a followers ≡ true
unfolding place_in kind_eq
place_lem a b h k = elim (Bool-cases (kind_eq followers a)) [
  | inl same ↦ ground arith
  | inr other ↦ absurd (ground arith)
]

first_lem :
    (t : ListTotals) (ts : List ListTotals)
    → is_sorted presented_le (t ∷ ts) ≡ true
    → every (presented_le t) ts ≡ true
unfolding is_sorted
first_lem t ts s = ground arith

sorted_leads :
    (ts : List ListTotals)
    → is_sorted presented_le ts ≡ true
    → any leads ts ≡ true
    → head_leads ts ≡ true
unfolding is_sorted presented_le any
sorted_leads [] s h = absurd (cc h)
sorted_leads (t ∷ ts) s h =
    let (u, m, k) = In-of_any leads (t ∷ ts) h in
    elim m [
      | inl same ↦ ap leads (sym same) ∙ k
      | inr later ↦
          place_lem t.kind u.kind (every_at (presented_le t) u ts (first_lem t ts s) later) k
    ]

-- The order of the table loses and adds no list, and the followers lead where there is a follower list.
pub in_presentation_order-leads :
    (p : ListTotals → Bool) (totals : List ListTotals)
    → any leads totals ≡ true
    → (count p (in_presentation_order totals) ≡ count p totals)
      × (is_sorted presented_le (in_presentation_order totals) ≡ true)
      × (head_leads (in_presentation_order totals) ≡ true)
unfolding in_presentation_order
in_presentation_order-leads p totals h =
    let sorted = sort-is_sorted presented_le presented_le_total presented_le_trans totals in
    (
      count-sort presented_le p totals,
      sorted,
      sorted_leads (sort presented_le totals) sorted (any-sort presented_le leads totals ∙ h),
    )
