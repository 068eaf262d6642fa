-- ===== src/Instagram/Dates.antt =====
-- internal/instagram/coverage.go and taken.go: what the summary page of an export and the name of
-- its archive say.
pub mod Window
use insta_follower_tracker.Prelude.{
  ℕ, ◌-◌, ◌*◌, ◌/◌, Bool, true, false, not, List, [], ◌∷◌, ◌++◌, Option, none, some, ltb,
  if◌then◌else◌,
}
use insta_follower_tracker.Prelude.Text.{Text, codes}
use insta_follower_tracker.Strings.{trim_space, replace_all, words, join}
use insta_follower_tracker.Instagram.Followers.{normalize_username}
use insta_follower_tracker.Instagram.Page.{is_handle}
use insta_follower_tracker.Instagram.Readers.{Readers}

abbrev pub narrow_window_days : ℕ
narrow_window_days = 400

abbrev pub day : ℕ
day = 86400

-- A range is declared where both ends are known and in order. The reason of a partial export is
-- the number of days of its range.
pub record Coverage : Type 0 where
  pub partial : Bool
  pub days : ℕ
  pub range : Option (ℕ × ℕ)

abbrev pub no_coverage : Coverage
no_coverage = record { partial = false; days = 0; range = none }

abbrev pub coverage_of_range : ℕ → ℕ → Coverage
coverage_of_range from to =
    if not (ltb from to)
    then no_coverage
    else (if ltb (narrow_window_days * day) (to - from)
        then record { partial = false; days = 0; range = some (from, to) }
        else record { partial = true; days = (to - from) / day; range = some (from, to) })

abbrev pub coverage_of_ends : Option ℕ → Option ℕ → Coverage
coverage_of_ends (some from) (some to) = coverage_of_range from to
coverage_of_ends _ _ = no_coverage

module _ (readers : Readers) where
  unfoldable pub text_from_html : Text → Text
  unfolding replace_all trim_space
  text_from_html body = trim_space (
      readers.squeeze (
        replace_all (codes "&amp;") (codes "&") (
          replace_all (codes "&#039;") (codes "'") (
            replace_all (codes "&nbsp;") (codes " ")
              (readers.strip_tags (readers.strip_scripts body))))))

  abbrev pub first_time_of : Text → List Text → Option ℕ
  first_time_of joined [] = none
  first_time_of joined (layout ∷ layouts) = elim (readers.parse_time layout joined) [
    | none ↦ first_time_of joined layouts
    | some t ↦ some t
  ]

  unfoldable pub parse_banner_time : Text → Text → Option ℕ
  unfolding words join
  parse_banner_time date clock =
      first_time_of (join 32 (words date) ++ 32 ∷ clock)
        (codes "2 January 2006 15:04" ∷ codes "2 Jan 2006 15:04" ∷ [])

  unfoldable pub coverage_from_metadata : Text → Coverage
  unfolding text_from_html parse_banner_time
  coverage_from_metadata start_here = elim (readers.declared_range (text_from_html start_here)) [
    | none ↦ no_coverage
    | some m ↦
        coverage_of_ends (parse_banner_time m.from_date m.from_clock)
          (parse_banner_time m.to_date m.to_clock)
  ]

  unfoldable pub taken_at_from_metadata : Text → Option ℕ
  unfolding text_from_html parse_banner_time
  taken_at_from_metadata start_here = elim (readers.generated_at (text_from_html start_here)) [
    | none ↦ none
    | some (date, clock) ↦ parse_banner_time date clock
  ]

abbrev pub valid_handle : Text → Option Text
valid_handle handle = if is_handle handle then some handle else none

module _ (readers : Readers) where
  unfoldable pub owner_from_metadata : Text → Option Text
  unfolding text_from_html normalize_username is_handle
  owner_from_metadata start_here = elim (readers.owner_name (text_from_html readers start_here)) [
    | none ↦ none
    | some name ↦ valid_handle (normalize_username name)
  ]
