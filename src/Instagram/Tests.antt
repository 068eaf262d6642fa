-- ===== src/Instagram/Tests.antt =====
-- Exports at concrete texts, and the theorems at them.
use insta_follower_tracker.Prelude.{
  ℕ, ◌≡◌, ◌≤◌, ◌<◌, ◌+◌, ◌*◌, ◌↔◌, refl, true, false, Bool, ◌&&◌, [], ◌∷◌, List, Option, none, some,
  pos, length, map, arith,
}
use insta_follower_tracker.Prelude.Table.{any, count, every, find}
use insta_follower_tracker.Prelude.Sort.{sort, is_sorted}
use insta_follower_tracker.Prelude.Text.{Text, codes}
use insta_follower_tracker.Strings.{has_prefix}
use insta_follower_tracker.Store.Models.{ListKind, followers, kind_eq}
use insta_follower_tracker.Instagram.Lists.{list_definitions}
use insta_follower_tracker.Instagram.Export.{Follower, Export, followers_of, members_of}
use insta_follower_tracker.Instagram.Followers.{Item, Entry, flatten, is_named, username_le, dedupe}
use insta_follower_tracker.Instagram.Followers.Merged.{merged, dedupe-merged}
use insta_follower_tracker.Instagram.Readers.{Node, element, other, none_left, child, Readers}
use insta_follower_tracker.Instagram.Page.{is_handle, parse_html_export}
use insta_follower_tracker.Instagram.Page.Links.{is_profile, parse_html_export-is_profile}
use insta_follower_tracker.Instagram.Document.{
  unrecognised, key_le, list_of_key, first_list, some_follower,
}
use insta_follower_tracker.Instagram.Document.Keys.{
  NoneCounts, IsFirst, first_list-key, first_list-unrecognised,
}
use insta_follower_tracker.Instagram.Dates.{coverage_from_metadata, narrow_window_days, day}
use insta_follower_tracker.Instagram.Dates.Window.{IsDeclared, coverage_from_metadata-partial}
use insta_follower_tracker.Instagram.Archive.{
  ZipEntry, archive_of_files, parse, max_archive_entries, max_decompressed_bytes,
}
use insta_follower_tracker.Instagram.Archive.Budget.{kinds_size}
use insta_follower_tracker.Instagram.Archive.Contents.{
  only_list, list_of_kind, archive_of_files-read,
}
use insta_follower_tracker.Instagram.Archive.Clean.{IsClean, parse-IsClean}
use insta_follower_tracker.Instagram.FileName.{Date, is_date, filename_date, filename_handle}
use insta_follower_tracker.Instagram.FileName.Printed.{archive_file, filename-archive_file}

abbrev item_of : Text → ℕ → Item
item_of name time = record { href = []; value = name; timestamp = pos time }

abbrev entry_of_one : Text → ℕ → Entry
entry_of_one name time = record { string_list_data = item_of name time ∷ [] }

abbrev follower_at : Text → Option ℕ → Follower
follower_at name time = record { username = name; href = []; followed_at = time }

-- Readers of a small format: a document is a bracket and one name.
abbrev small_page : Node
small_page =
    element (codes "a") (record { key = codes "HREF"; val = codes "x" } ∷ [])
      (child (other none_left) none_left)

abbrev small_decode : Text → Option (List Entry)
small_decode [] = none
small_decode (c ∷ s) = some (entry_of_one s 7 ∷ [])

abbrev small_matches : ListKind → Text → Bool
small_matches k name = kind_eq k followers && has_prefix (codes "followers") name

abbrev small_time : Text → Text → Option ℕ
small_time layout s = some (length s)

abbrev small_readers : Readers
small_readers = record {
  decode_entries = small_decode;
  decode_object = λ s. none;
  parse_page = λ s. some small_page;
  parse_url = λ s. some (record { host = codes "www.Instagram.com"; path = codes "/ana/" });
  matches = small_matches;
  is_start_here = λ s. false;
  strip_scripts = λ s. s;
  strip_tags = λ s. s;
  squeeze = λ s. s;
  declared_range = λ s. some (record {
    from_date = codes "1 May 2024";
    from_clock = codes "6:29";
    to_date = codes "11 May 2024";
    to_clock = codes "16:29";
  });
  generated_at = λ s. none;
  owner_name = λ s. none;
  parse_time = small_time;
}

abbrev repeated : List Follower
repeated =
    follower_at (codes "eva") none
    ∷ follower_at (codes "ana") (some 3)
    ∷ follower_at (codes "eva") (some 5)
    ∷ []

dedupe-merged_example :
    (is_sorted username_le (dedupe repeated) ≡ true)
    × (count (is_named (codes "eva")) (dedupe repeated) ≤ 1)
    × (find (is_named (codes "eva")) (dedupe repeated) ≡ merged (codes "eva") repeated)
dedupe-merged_example = dedupe-merged repeated (codes "eva")

abbrev page_rows : List Follower
page_rows = record { username = codes "ana"; href = codes "x"; followed_at = none } ∷ []

parse_html_export-is_profile_example : every (λ f. is_profile f.username) page_rows ≡ true
unfolding parse_html_export any every
parse_html_export-is_profile_example =
    parse_html_export-is_profile small_readers (codes "<a>") page_rows refl

abbrev object_rows : List (Text × Text)
object_rows = (codes "other", codes "[eva") ∷ (codes "relationships_x", codes "[ana") ∷ []

first_list-key_example : IsFirst small_readers object_rows (follower_at (codes "ana") (some 7) ∷ [])
unfolding first_list sort key_le list_of_key flatten
first_list-key_example =
    first_list-key small_readers object_rows (follower_at (codes "ana") (some 7) ∷ []) refl

first_list-unrecognised_example :
    (first_list small_readers (sort key_le object_rows) ≡ unrecognised)
    ↔ NoneCounts small_readers object_rows
first_list-unrecognised_example = first_list-unrecognised small_readers object_rows

coverage_from_metadata-partial_example :
    ((coverage_from_metadata small_readers (codes "page")).partial ≡ true) ↔ (
      (from : ℕ) × (to : ℕ) × IsDeclared small_readers (codes "page") from to
      × (from < to)
      × (to ≤ from + narrow_window_days * day))
coverage_from_metadata-partial_example = coverage_from_metadata-partial small_readers (codes "page")

abbrev small_file : Text → Text → ZipEntry
small_file name body = record {
  name = name;
  is_dir = false;
  modified = some 90;
  content = some body;
}

abbrev small_archive : List ZipEntry
small_archive =
    small_file (codes "followers_2.json") (codes "[eva")
    ∷ small_file (codes "readme.txt") (codes "hello")
    ∷ small_file (codes "followers_1.json") (codes "[ana")
    ∷ []

abbrev archive_export : Export
archive_export = record {
  lists =
      record {
        kind = followers;
        entries = follower_at (codes "ana") (some 7) ∷ follower_at (codes "eva") (some 7) ∷ [];
      }
      ∷ [];
  partial = false;
  taken_at = some 90;
  taken_at_source = codes "archive timestamp";
  owner = [];
}

archive_of_files-read_example :
    (length small_archive ≤ max_archive_entries)
    × (kinds_size small_readers (map (λ d. d.kind) list_definitions) small_archive
        ≤ max_decompressed_bytes)
    × (find (λ l. kind_eq l.kind followers) archive_export.lists
        ≡ only_list small_readers (list_of_kind small_readers followers small_archive))
    × (some_follower (followers_of archive_export) ≡ true)
unfolding archive_of_files kind_eq any every
archive_of_files-read_example =
    archive_of_files-read small_readers small_archive archive_export followers refl

parse-IsClean_example :
    IsClean (members_of archive_export followers)
    × (some_follower (followers_of archive_export) ≡ true)
unfolding parse kind_eq any every
parse-IsClean_example =
    parse-IsClean small_readers (λ s. some small_archive) (80 ∷ 75 ∷ 3 ∷ 4 ∷ []) archive_export
      followers refl

abbrev leap_day : Date
leap_day = record { year = 2024; month = 2; day_of_month = 29 }

filename-archive_file_example :
    (filename_handle (archive_file (codes "ana.b_1") leap_day (codes "tQF9URpZ"))
      ≡ some (codes "ana.b_1"))
    × (filename_date (archive_file (codes "ana.b_1") leap_day (codes "tQF9URpZ")) ≡ some leap_day)
unfolding is_handle is_date every
filename-archive_file_example =
    filename-archive_file (codes "ana.b_1") leap_day (codes "tQF9URpZ") refl refl (omega arith) refl
