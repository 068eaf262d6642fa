-- ===== src/Tracker/Coverage.antt =====
-- internal/tracker/coverage.go: whether an export may be recorded.
use insta_follower_tracker.Prelude.{
  ℕ, ◌-◌, ◌*◌, ◌≤◌, ◌<◌, ◌≡◌, ◌↔◌, ◌⊎◌, inl, inr, refl, Bool, true, false, Option, none, some,
  arith, ltb, leb, if◌then◌else◌, Bool-cases,
}
use insta_follower_tracker.Store.Models.{Upload}

-- CollapseDropRatio is 0.5, so `float64(count) >= float64(previous) * 0.5` is the test below: both
-- sides are exact for every count that fits a list in memory.
abbrev pub collapse_minimum_followers : ℕ
collapse_minimum_followers = 25

pub data Refusal : Type 0 where
  declared_partial : Refusal
  collapsed : (count previous dropped : ℕ) → Refusal

unfoldable pub has_collapsed : ℕ → ℕ → Option Refusal
has_collapsed count before =
    if ltb before collapse_minimum_followers
    then none
    else if leb before (2 * count)
    then none
    else some (collapsed count before (before - count))

abbrev pub against : ℕ → Option Upload → Option Refusal
against count none = none
against count (some up) = has_collapsed count up.follower_count

-- `none` admits the export.
unfoldable pub check_coverage : Bool → ℕ → Option Upload → Bool → Option Refusal
unfolding has_collapsed
check_coverage partial count previous allow_partial =
    if allow_partial
    then none
    else if partial
    then some declared_partial
    else against count previous

-- More than half of at least 25 followers are gone.
abbrev pub IsCollapse : ℕ → ℕ → Type 0
IsCollapse count before = (25 ≤ before) × (before < 2 * (before - count))

refused_lem :
    (partial : Bool) (count before : ℕ) (allow_partial : Bool) (r : Refusal)
    → (if allow_partial
        then none
        else if partial
        then some declared_partial
        else has_collapsed count before)
      ≡ some r
    → (allow_partial ≡ false) × ((partial ≡ true) ⊎ IsCollapse count before)
unfolding has_collapsed
refused_lem true count before allow r e = (ground arith, inl refl)
refused_lem false count before allow r e = (ground arith, inr (ground arith))

-- An export that is not overridden is refused exactly if it says that it is partial, or lists less
-- than half of what an execution before it with 25 followers or more had. Where a fall is the
-- reason, the refusal names both counts and the difference.
pub check_coverage-refusal :
    (partial : Bool) (count : ℕ) (up : Upload) (allow_partial : Bool)
    → (((r : Refusal) × (check_coverage partial count (some up) allow_partial ≡ some r))
        ↔ ((allow_partial ≡ false) × ((partial ≡ true) ⊎ IsCollapse count up.follower_count)))
      × (allow_partial ≡ false
          → partial ≡ false
          → IsCollapse count up.follower_count
          → check_coverage partial count (some up) allow_partial
            ≡ some (collapsed count up.follower_count (up.follower_count - count)))
unfolding check_coverage has_collapsed
check_coverage-refusal partial count up allow_partial = (
  (
    λ (r, e). refused_lem partial count up.follower_count allow_partial r e,
    λ (a, w). elim w [
      | inl p ↦ (declared_partial, ground arith)
      | inr c ↦ elim (Bool-cases partial) [
        | inl p ↦ (declared_partial, ground arith)
        | inr p ↦ (collapsed count up.follower_count (up.follower_count - count), ground arith)
      ]
    ],
  ),
  λ a p c. ground arith,
)
