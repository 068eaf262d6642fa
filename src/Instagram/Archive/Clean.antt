-- ===== src/Instagram/Archive/Clean.antt =====
-- What every upload that is read holds.
use insta_follower_tracker.Prelude.{
  ◌≤◌, ◌≡◌, refl, sym, ap, subst, ◌∙◌, inl, inr, ◌⊎◌, Bool, true, false, List, [], ◌∷◌, Option,
  none, some, arith, if◌then◌else◌, Bool-cases, ltb, length,
}
use insta_follower_tracker.Prelude.Table.{any, count, find}
use insta_follower_tracker.Prelude.Sort.{is_sorted}
use insta_follower_tracker.Prelude.Text.{Text, text_eq_refl}
use insta_follower_tracker.Strings.{has_prefix}
use insta_follower_tracker.Store.Models.{ListKind, followers, kind_eq}
use insta_follower_tracker.Instagram.Export.{
  Follower, ListEntry, Export, entries_of, members_of, followers_of,
}
use insta_follower_tracker.Instagram.Followers.{is_named, username_le, dedupe}
use insta_follower_tracker.Instagram.Followers.Merged.{
  dedupe-merged, merged, first_href, first_time,
}
use insta_follower_tracker.Instagram.Document.{
  Document, listed, unrecognised, malformed, parse_document, some_follower,
}
use insta_follower_tracker.Instagram.Readers.{Readers}
use insta_follower_tracker.Instagram.Archive.{
  ZipEntry, Parsing, parsed, refused, bare_of, archive_of, parse, parts, file_too_large, zip_magic,
  max_json_bytes,
}
use insta_follower_tracker.Instagram.Archive.Contents.{
  all_members, any_listed, list_of_kind, only_list, archive_of_files-read,
}

-- The order of names, and a name once at most.
abbrev pub IsClean : List Follower → Type 0
IsClean fs = (is_sorted username_le fs ≡ true) × ((name : Text) → count (is_named name) fs ≤ 1)

dedupe-IsClean : (fs : List Follower) → IsClean (dedupe fs)
dedupe-IsClean fs = ((dedupe-merged fs []).0, λ name. (dedupe-merged fs name).1)

nil-IsClean : IsClean []
unfolding is_sorted count
nil-IsClean = (refl, λ name. ground arith)

find-some_follower :
    (p : Follower → Bool) (gs : List Follower) (g : Follower)
    → find p gs ≡ some g
    → some_follower gs ≡ true
unfolding find
find-some_follower p [] g e = cc e
find-some_follower p (f ∷ fs) g e = refl

abbrev row_for : Follower → List Follower → Follower
row_for f fs = record {
  username = f.username;
  href = first_href f.username (f ∷ fs);
  followed_at = first_time f.username (f ∷ fs);
}

dedupe-some_follower :
    (fs : List Follower) → some_follower fs ≡ true → some_follower (dedupe fs) ≡ true
unfolding merged any
dedupe-some_follower [] h = cc h
dedupe-some_follower (f ∷ fs) h =
    find-some_follower (is_named f.username) (dedupe (f ∷ fs)) (row_for f fs)
      ((dedupe-merged (f ∷ fs) f.username).2 ∙ rw (text_eq_refl f.username) refl)

only-IsClean :
    (readers : Readers) (k : ListKind) (files : List ZipEntry)
    → IsClean (entries_of (only_list readers (list_of_kind readers k files)))
only-IsClean readers k files = elim (Bool-cases (any_listed readers (parts readers k files))) [
  | inl some_part ↦ rw some_part (dedupe-IsClean (all_members readers (parts readers k files)))
  | inr no_part ↦ rw no_part nil-IsClean
]

archive-IsClean :
    (readers : Readers) (o : Option (List ZipEntry)) (e : Export) (k : ListKind)
    → archive_of readers (λ s. o) o ≡ parsed e
    → IsClean (members_of e k) × (some_follower (followers_of e) ≡ true)
unfolding members_of
archive-IsClean readers none e k h = cc h
archive-IsClean readers (some files) e k h =
    let (few, budget, same, filled) = archive_of_files-read readers files e k h in
    (
      subst (λ (o : Option ListEntry). IsClean (entries_of o)) (sym same)
          (only-IsClean readers k files),
      filled,
    )

bare_export-IsClean :
    (fs : List Follower) (k : ListKind) (e : Export)
    → some_follower fs ≡ true
    → e.lists ≡ record { kind = followers; entries = dedupe fs } ∷ []
    → IsClean (members_of e k) × (some_follower (followers_of e) ≡ true)
unfolding members_of followers_of find kind_eq
bare_export-IsClean fs k e filled h = (
  subst (λ (ls : List ListEntry). IsClean (entries_of (find (λ l. kind_eq l.kind k) ls))) (sym h)
      (elim (Bool-cases (kind_eq followers k)) [
        | inl same ↦ rw same (dedupe-IsClean fs)
        | inr other ↦ rw other nil-IsClean
      ]),
  ap (λ (ls : List ListEntry). some_follower (entries_of (find (λ l. kind_eq l.kind followers) ls)))
        h
      ∙ dedupe-some_follower fs filled,
)

bare-IsClean :
    (d : Document) (e : Export) (k : ListKind)
    → bare_of d ≡ parsed e
    → IsClean (members_of e k) × (some_follower (followers_of e) ≡ true)
bare-IsClean unrecognised e k h = cc h
bare-IsClean malformed e k h = cc h
bare-IsClean (listed fs) e k h = elim (Bool-cases (some_follower fs)) [
  | inr empty ↦ absurd (ground arith)
  | inl filled ↦ bare_export-IsClean fs k e filled (ground arith)
]

-- A text is read as an archive or as one document.
form_lem :
    (zip large : Bool) (z d : Parsing Export) (e : Export)
    → (if zip then z else (if large then refused file_too_large else d)) ≡ parsed e
    → (z ≡ parsed e) ⊎ (d ≡ parsed e)
form_lem true large z d e h = inl h
form_lem false true z d e h = cc h
form_lem false false z d e h = inr h

-- Every list of an upload that is read, archive or bare file, is in the order of the names and names
-- nobody twice, and its follower list is not empty.
pub parse-IsClean :
    (readers : Readers) (open_zip : Text → Option (List ZipEntry)) (s : Text) (e : Export)
    (k : ListKind)
    → parse readers open_zip s ≡ parsed e
    → IsClean (members_of e k) × (some_follower (followers_of e) ≡ true)
unfolding parse
parse-IsClean readers open_zip [] e k h = cc h
parse-IsClean readers open_zip (c ∷ s) e k h =
    let t = c ∷ s in
    elim (form_lem (has_prefix zip_magic t) (ltb max_json_bytes (length t))
      (archive_of readers open_zip (open_zip t)) (bare_of (parse_document readers t)) e h) [
        | inl zip ↦ archive-IsClean readers (open_zip t) e k zip
        | inr bare ↦ bare-IsClean (parse_document readers t) e k bare
      ]
