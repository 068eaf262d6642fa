-- ===== src/Instagram/Archive.antt =====
-- internal/instagram/archive.go and parse.go: reading a whole upload.
pub mod Budget
pub mod Contents
pub mod Clean
use insta_follower_tracker.Prelude.{
  ℕ, zero, suc, ◌-◌, ◌*◌, Bool, true, false, not, ◌&&◌, ◌||◌, List, [], ◌∷◌, ◌++◌, map, Option,
  none, some, ltb, ◌==◌, if◌then◌else◌, length,
}
use insta_follower_tracker.Prelude.Table.{find, select}
use insta_follower_tracker.Prelude.Sort.{sort}
use insta_follower_tracker.Prelude.Text.{Text, text_le, codes}
use insta_follower_tracker.Strings.{base, has_prefix}
use insta_follower_tracker.Store.Models.{ListKind, followers, kind_eq}
use insta_follower_tracker.Instagram.Lists.{list_definitions, kind_for_entry}
use insta_follower_tracker.Instagram.Export.{Follower, ListEntry, Export, entries_of}
use insta_follower_tracker.Instagram.Followers.{dedupe}
use insta_follower_tracker.Instagram.Document.{
  Document, listed, unrecognised, malformed, some_follower, parse_document,
}
use insta_follower_tracker.Instagram.Dates.{
  Coverage, no_coverage, coverage_from_metadata, taken_at_from_metadata, owner_from_metadata,
}
use insta_follower_tracker.Instagram.Readers.{Readers}

abbrev pub max_archive_entries : ℕ
max_archive_entries = 5000

abbrev pub max_decompressed_bytes : ℕ
max_decompressed_bytes = 200 * 1048576

abbrev pub max_json_bytes : ℕ
max_json_bytes = 200 * 1048576

-- A member of a zip archive; a content that cannot be opened or read is none. `modified` is none
-- where it is the zero time.
pub record ZipEntry : Type 0 where
  pub name : Text
  pub is_dir : Bool
  pub modified : Option ℕ
  pub content : Option Text

pub data ParseError : Type 0 where
  no_followers : ParseError
  contents : ℕ → List Text → ParseError
  too_many_entries beyond_limit file_too_large unreadable bad_document : ParseError

pub data Parsing {ℓ} (A : Type ℓ) : Type ℓ where
  parsed : A → Parsing A
  refused : ParseError → Parsing A

infixl 5 ◌>>=◌
abbrev pub ◌>>=◌ {ℓ κ} : {A : Type ℓ} {B : Type κ} → Parsing A → (A → Parsing B) → Parsing B
parsed a >>= f = f a
refused e >>= f = refused e

-- The bytes of an entry that cannot be read are not counted: the walk ends there.
abbrev pub sized : ℕ → Option Text → Parsing (Text × ℕ)
sized budget none = refused unreadable
sized budget (some body) =
    if ltb budget (length body) then refused beyond_limit else parsed (body, length body)

unfoldable pub read_archive_entry : ZipEntry → ℕ → Parsing (Text × ℕ)
read_archive_entry f budget = if budget == 0 then refused beyond_limit else sized budget f.content

abbrev pub name_entry_le : ZipEntry → ZipEntry → Bool
name_entry_le a b = text_le a.name b.name

abbrev pub later_of : Option ℕ → Option ℕ → Option ℕ
later_of none newest = newest
later_of (some t) none = some t
later_of (some t) (some n) = some (if ltb n t then t else n)

-- The latest modification time of the files.
unfoldable pub newest_entry : Option ℕ → List ZipEntry → Option ℕ
newest_entry newest [] = newest
newest_entry newest (f ∷ fs) =
    newest_entry (if f.is_dir then newest else later_of f.modified newest) fs

abbrev pub is_kind : ListKind → Option ListKind → Bool
is_kind k none = false
is_kind k (some j) = kind_eq j k

abbrev pub is_near_miss : Option ListKind → Bool
is_near_miss none = false
is_near_miss (some k) = not (kind_eq k followers)

unfoldable pub first_names : ℕ → List ZipEntry → List Text
unfolding base
first_names zero fs = []
first_names (suc n) [] = []
first_names (suc n) (f ∷ fs) = base f.name ∷ first_names n fs

-- What is left of the budget, the members so far, and whether a part was recognised.
pub record PartsRead : Type 0 where
  pub budget : ℕ
  pub members : List Follower
  pub parsed_any : Bool

abbrev pub absorb : Document → ℕ → PartsRead → PartsRead
absorb (listed more) used acc = record acc {
  budget = acc.budget - used;
  members = acc.members ++ more;
  parsed_any = true;
}
absorb unrecognised used acc = record acc { budget = acc.budget - used }
absorb malformed used acc = record acc { budget = acc.budget - used }

-- A list that no part was recognised for is left out.
abbrev pub entry_of : ListKind → PartsRead → List ListEntry
entry_of k r = if r.parsed_any then record { kind = k; entries = dedupe r.members } ∷ [] else []

abbrev pub list_in : List ListEntry → ListKind → List Follower
list_in lists k = entries_of (find (λ l. kind_eq l.kind k) lists)

module _ (readers : Readers) where
  -- The last summary page of the archive.
  unfoldable pub start_here_of : Option ZipEntry → List ZipEntry → Option ZipEntry
  start_here_of found [] = found
  start_here_of found (f ∷ fs) =
      start_here_of (if not f.is_dir && readers.is_start_here f.name then some f else found) fs

  abbrev pub is_part : ListKind → ZipEntry → Bool
  is_part k f =
      not f.is_dir
      && not (readers.is_start_here f.name)
      && is_kind k (kind_for_entry readers.matches f.name)

  unfoldable pub parts : ListKind → List ZipEntry → List ZipEntry
  unfolding kind_for_entry select sort
  parts k files = sort name_entry_le (select (is_part k) files)

  unfoldable pub read_parts : List ZipEntry → PartsRead → Parsing PartsRead
  unfolding read_archive_entry parse_document
  read_parts [] acc = parsed acc
  read_parts (f ∷ fs) acc = do
    (body, used) ← read_archive_entry f acc.budget
    read_parts fs (absorb (parse_document readers body) used acc)

  -- The lists of the kinds, each merged from its parts, and what is left of the budget.
  unfoldable pub read_kinds :
      List ListKind → List ZipEntry → ℕ → List ListEntry → Parsing (ℕ × List ListEntry)
  unfolding parts read_parts dedupe
  read_kinds [] files budget lists = parsed (budget, lists)
  read_kinds (k ∷ ks) files budget lists = do
    r ← read_parts (parts k files) (record { budget = budget; members = []; parsed_any = false })
    read_kinds ks files r.budget (lists ++ entry_of k r)

  unfoldable pub near_miss_names : List ZipEntry → List Text
  unfolding kind_for_entry first_names select
  near_miss_names files =
      first_names 4
        (select (λ f. not f.is_dir && is_near_miss (kind_for_entry readers.matches f.name)) files)

  -- The summary page, where it can be read within the budget.
  unfoldable pub start_here_body : Option ZipEntry → ℕ → Option Text
  unfolding read_archive_entry
  start_here_body none budget = none
  start_here_body (some f) budget = elim (read_archive_entry f budget) [
    | refused e ↦ none
    | parsed (body, used) ↦ some body
  ]

  abbrev coverage_of_body : Option Text → Coverage
  coverage_of_body none = no_coverage
  coverage_of_body (some body) = coverage_from_metadata readers body

  abbrev dated_by_archive : Option ℕ → Option ℕ × Text
  dated_by_archive none = (none, [])
  dated_by_archive (some t) = (some t, codes "archive timestamp")

  abbrev dated_by_body : Option ℕ → Option ℕ → Option ℕ × Text
  dated_by_body none newest = dated_by_archive newest
  dated_by_body (some t) newest = (some t, codes "declared in the export")

  abbrev declared : Option Text → Option ℕ
  declared none = none
  declared (some body) = taken_at_from_metadata readers body

  unfoldable pub archive_taken_at : Option Text → Option ℕ → Option ℕ × Text
  unfolding taken_at_from_metadata
  archive_taken_at body newest = dated_by_body (declared body) newest

  abbrev owner_or_empty : Option Text → Text
  owner_or_empty none = []
  owner_or_empty (some owner) = owner

  abbrev owner_of_body : Option Text → Text
  owner_of_body none = []
  owner_of_body (some body) = owner_or_empty (owner_from_metadata readers body)

  abbrev export_of : List ListEntry → Option Text → Option ℕ → Export
  export_of lists body newest =
      let (taken_at, source) = archive_taken_at body newest in
      record {
        lists = lists;
        partial = (coverage_of_body body).partial;
        taken_at = taken_at;
        taken_at_source = source;
        owner = owner_of_body body;
      }

  unfoldable pub archive_of_files : List ZipEntry → Parsing Export
  unfolding read_kinds near_miss_names start_here_of start_here_body newest_entry
      coverage_from_metadata archive_taken_at owner_from_metadata find
  archive_of_files files =
      if ltb max_archive_entries (length files) then refused too_many_entries else do
        (budget, lists) ←
            read_kinds (map (λ d. d.kind) list_definitions) files max_decompressed_bytes []
        if some_follower (list_in lists followers)
            then parsed (
                export_of lists (start_here_body (start_here_of none files) budget)
                  (newest_entry none files))
            else refused (contents (length files) (near_miss_names files))

  -- OwnerFromArchive: the first summary page, if it stands within the limit of entries.
  unfoldable pub owner_of_files : ℕ → List ZipEntry → Option Text
  unfolding read_archive_entry owner_from_metadata
  owner_of_files left [] = none
  owner_of_files zero (f ∷ fs) = none
  owner_of_files (suc left) (f ∷ fs) =
      let more = owner_of_files left fs in
      if f.is_dir || not (readers.is_start_here f.name)
      then more
      else elim (read_archive_entry f max_json_bytes) [
        | refused e ↦ none
        | parsed (body, used) ↦ owner_from_metadata readers body
      ]

-- The first four bytes of every zip archive.
abbrev pub zip_magic : Text
zip_magic = 80 ∷ 75 ∷ 3 ∷ 4 ∷ []

abbrev pub bare_of : Document → Parsing Export
bare_of (listed fs) =
    if some_follower fs
    then parsed (record {
      lists = record { kind = followers; entries = dedupe fs } ∷ [];
      partial = false;
      taken_at = none;
      taken_at_source = [];
      owner = [];
    })
    else refused no_followers
bare_of unrecognised = refused no_followers
bare_of malformed = refused bad_document

-- `open_zip` lists the members of an archive; none where it is not one.
module _ (readers : Readers) (open_zip : Text → Option (List ZipEntry)) where
  abbrev archive_of : Option (List ZipEntry) → Parsing Export
  archive_of none = refused unreadable
  archive_of (some files) = archive_of_files readers files

  unfoldable pub parse : Text → Parsing Export
  unfolding has_prefix archive_of_files parse_document dedupe
  parse [] = refused no_followers
  parse (c ∷ s) =
      if has_prefix zip_magic (c ∷ s)
      then archive_of (open_zip (c ∷ s))
      else (if ltb max_json_bytes (length (c ∷ s))
          then refused file_too_large
          else bare_of (parse_document readers (c ∷ s)))

  unfoldable pub owner_from_archive : Text → Option Text
  unfolding owner_of_files
  owner_from_archive [] = none
  owner_from_archive (c ∷ s) = elim (open_zip (c ∷ s)) [
    | none ↦ none
    | some files ↦ owner_of_files readers max_archive_entries files
  ]
