-- ===== src/Instagram/FileName.antt =====
-- internal/instagram/taken.go: what the name of an archive says, as in
-- instagram-someone-2024-10-23-tQF9URpZ.zip.
pub mod Printed
use insta_follower_tracker.Prelude.{
  ℕ, ◌+◌, ◌-◌, ◌*◌, ◌%◌, Bool, false, not, ◌&&◌, ◌||◌, List, [], ◌∷◌, Option, none, some, leb, ◌==◌,
  if◌then◌else◌,
}
use insta_follower_tracker.Prelude.Table.{every}
use insta_follower_tracker.Prelude.Text.{Text, text_eq, codes}
use insta_follower_tracker.Strings.{to_lower, trim_space, trim_suffix_text, split}
use insta_follower_tracker.Instagram.Followers.{normalize_username}
use insta_follower_tracker.Instagram.Page.{is_handle_byte, is_handle}
use insta_follower_tracker.Instagram.Dates.{valid_handle}

-- A day of the calendar.
pub record Date : Type 0 where
  pub year : ℕ
  pub month : ℕ
  pub day_of_month : ℕ

abbrev pub is_digit : ℕ → Bool
is_digit c = leb 48 c && leb c 57

abbrev pub is_tag_byte : ℕ → Bool
is_tag_byte c = leb 97 c && leb c 122 || leb 48 c && leb c 57

unfoldable pub is_leap : ℕ → Bool
is_leap y = y % 4 == 0 && (not (y % 100 == 0) || y % 400 == 0)

abbrev pub is_short_month : ℕ → Bool
is_short_month m = m == 4 || m == 6 || m == 9 || m == 11

unfoldable pub days_in_month : ℕ → ℕ → ℕ
unfolding is_leap
days_in_month y m =
    if m == 2 then (if is_leap y then 29 else 28) else (if is_short_month m then 30 else 31)

-- What time.Parse accepts.
unfoldable pub is_date : Date → Bool
unfolding days_in_month
is_date d =
    leb 1 d.month
    && leb d.month 12
    && leb 1 d.day_of_month
    && leb d.day_of_month (days_in_month d.year d.month)

abbrev pub value_of : ℕ → ℕ
value_of c = c - 48

-- \d{4} and \d{2}
abbrev pub number_of_four : Text → Option ℕ
number_of_four (a ∷ b ∷ c ∷ d ∷ []) =
    if is_digit a && is_digit b && is_digit c && is_digit d
    then some (value_of a * 1000 + value_of b * 100 + value_of c * 10 + value_of d)
    else none
number_of_four _ = none

abbrev pub number_of_two : Text → Option ℕ
number_of_two (a ∷ b ∷ []) =
    if is_digit a && is_digit b then some (value_of a * 10 + value_of b) else none
number_of_two _ = none

abbrev pub date_of_numbers : Option ℕ → Option ℕ → Option ℕ → Option Date
date_of_numbers (some y) (some m) (some d) = some (record { year = y; month = m; day_of_month = d })
date_of_numbers _ _ _ = none

abbrev pub is_filled : (ℕ → Bool) → Text → Bool
is_filled p [] = false
is_filled p (c ∷ s) = every p (c ∷ s)

pub record ArchiveName : Type 0 where
  pub handle : Text
  pub date : Date

abbrev pub named_date : Text → Option Date → Option ArchiveName
named_date handle none = none
named_date handle (some d) = some (record { handle = handle; date = d })

-- archiveNamePattern, on the pieces between the hyphens, which no group can hold.
unfoldable pub match_pieces : List Text → Option ArchiveName
unfolding text_eq
match_pieces (word ∷ handle ∷ y ∷ m ∷ d ∷ tag ∷ []) =
    if text_eq word (codes "instagram")
      && is_filled is_handle_byte handle
      && is_filled is_tag_byte tag
    then named_date handle (date_of_numbers (number_of_four y) (number_of_two m) (number_of_two d))
    else none
match_pieces _ = none

unfoldable pub archive_name : Text → Option ArchiveName
unfolding match_pieces split trim_suffix_text to_lower trim_space
archive_name name =
    match_pieces (split 45 (trim_suffix_text (codes ".zip") (to_lower (trim_space name))))

abbrev pub valid_date : Date → Option Date
valid_date d = if is_date d then some d else none

unfoldable pub filename_date : Text → Option Date
unfolding archive_name is_date
filename_date name = elim (archive_name name) [ none ↦ none | some m ↦ valid_date m.date ]

unfoldable pub filename_handle : Text → Option Text
unfolding archive_name normalize_username is_handle
filename_handle name = elim (archive_name name) [
  | none ↦ none
  | some m ↦ valid_handle (normalize_username m.handle)
]
