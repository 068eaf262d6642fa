-- ===== src/Instagram/Archive/Contents.antt =====
-- Which lists are read out of an archive.
use insta_follower_tracker.Prelude.{
  ℕ, ◌≤◌, ◌≡◌, refl, sym, ap, ◌∙◌, inl, inr, Bool, true, false, ◌||◌, List, [], ◌∷◌, ◌++◌, map,
  append_assoc, append-nil, Option, none, some, arith, ltb, length, if◌then◌else◌, Bool-cases,
}
use insta_follower_tracker.Prelude.Table.{any, find}
use insta_follower_tracker.Prelude.Text.{Text}
use insta_follower_tracker.Store.Models.{ListKind, followers, kind_eq, kind_eq_refl, kind_eq→eq}
use insta_follower_tracker.Instagram.Lists.{list_definitions}
use insta_follower_tracker.Instagram.Export.{Follower, ListEntry, Export, followers_of}
use insta_follower_tracker.Instagram.Followers.{dedupe}
use insta_follower_tracker.Instagram.Document.{
  Document, listed, unrecognised, malformed, parse_document, some_follower,
}
use insta_follower_tracker.Instagram.Readers.{Readers}
use insta_follower_tracker.Instagram.Archive.{
  ZipEntry, parsed, PartsRead, absorb, entry_of, list_in, read_archive_entry, parts, read_parts,
  read_kinds, archive_of_files, max_archive_entries, max_decompressed_bytes,
}
use insta_follower_tracker.Instagram.Archive.Budget.{
  Parsing-cases, read_archive_entry-size, kinds_size, read_kinds-budget,
}

abbrev pub members_of_document : Document → List Follower
members_of_document (listed fs) = fs
members_of_document unrecognised = []
members_of_document malformed = []

abbrev pub is_listed : Document → Bool
is_listed (listed fs) = true
is_listed unrecognised = false
is_listed malformed = false

absorb-members :
    (d : Document) (used : ℕ) (acc : PartsRead)
    → ((absorb d used acc).members ≡ acc.members ++ members_of_document d)
      × ((absorb d used acc).parsed_any ≡ (acc.parsed_any || is_listed d))
absorb-members (listed fs) used acc = (refl, ground arith)
absorb-members unrecognised used acc = (sym (append-nil acc.members), ground arith)
absorb-members malformed used acc = (sym (append-nil acc.members), ground arith)

module _ (readers : Readers) where
  abbrev pub document_of : Option Text → Document
  document_of none = malformed
  document_of (some body) = parse_document readers body

  -- The members of the parts that are recognised, one part after the other.
  unfoldable pub all_members : List ZipEntry → List Follower
  unfolding parse_document
  all_members [] = []
  all_members (f ∷ fs) = members_of_document (document_of f.content) ++ all_members fs

  abbrev pub any_listed : List ZipEntry → Bool
  any_listed = any (λ f. is_listed (document_of f.content))

  read_parts-members :
      (fs : List ZipEntry) (acc r : PartsRead)
      → read_parts readers fs acc ≡ parsed r
      → (r.members ≡ acc.members ++ all_members fs)
        × (r.parsed_any ≡ (acc.parsed_any || any_listed fs))
  unfolding read_parts all_members any
  read_parts-members [] acc r e = (ground (arith, append-nil acc.members), ground arith)
  read_parts-members (f ∷ fs) acc r e = elim (Parsing-cases (read_archive_entry f acc.budget)) [
    | inl (x, fail) ↦ absurd (ground arith)
    | inr ((body, used), got) ↦
        let (content, size, fits) = read_archive_entry-size f acc.budget body used got in
        let d = parse_document readers body in
        let ih = read_parts-members fs (absorb d used acc) r (ground arith) in
        let step = absorb-members d used acc in
        let same : document_of f.content ≡ d = ap document_of content in
        (
          ih.0
              ∙ ap (λ (ms : List Follower). ms ++ all_members fs) step.0
              ∙ append_assoc acc.members (members_of_document d) (all_members fs)
              ∙ ap (λ (x : Document). acc.members ++ (members_of_document x ++ all_members fs))
                  (sym same),
          ground (arith, ih.1, step.1, same),
        )
  ]

  -- The list of a kind, merged from its parts, or none where no part was recognised.
  abbrev pub list_of_kind : ListKind → List ZipEntry → List ListEntry
  list_of_kind k files =
      if any_listed (parts readers k files)
      then record { kind = k; entries = dedupe (all_members (parts readers k files)) } ∷ []
      else []

  unfoldable pub lists_of_kinds : List ListKind → List ZipEntry → List ListEntry
  unfolding parts all_members any
  lists_of_kinds [] files = []
  lists_of_kinds (k ∷ ks) files = list_of_kind k files ++ lists_of_kinds ks files

  read_kinds-lists :
      (ks : List ListKind) (files : List ZipEntry) (budget left : ℕ) (lists lists' : List ListEntry)
      → read_kinds readers ks files budget lists ≡ parsed (left, lists')
      → lists' ≡ lists ++ lists_of_kinds ks files
  unfolding read_kinds lists_of_kinds
  read_kinds-lists [] files budget left lists lists' e = ground (arith, append-nil lists)
  read_kinds-lists (k ∷ ks) files budget left lists lists' e =
      let start : PartsRead = record { budget = budget; members = []; parsed_any = false } in
      elim (Parsing-cases (read_parts readers (parts readers k files) start)) [
        | inl (x, fail) ↦ absurd (ground arith)
        | inr (r, got) ↦
            let ih =
              read_kinds-lists ks files r.budget left (lists ++ entry_of k r) lists'
                (ground arith) in
            let (ms, flag) = read_parts-members (parts readers k files) start r got in
            let same : entry_of k r ≡ list_of_kind k files = ground (arith, ms, flag) in
            ih
            ∙ append_assoc lists (entry_of k r) (lists_of_kinds ks files)
            ∙ ap (λ (x : List ListEntry). lists ++ (x ++ lists_of_kinds ks files)) same
      ]

  -- The list of a kind among the lists of several.
  abbrev pub only_list : List ListEntry → Option ListEntry
  only_list [] = none
  only_list (l ∷ ls) = some l

  find-lists_of_kinds :
      (k : ListKind) (ks : List ListKind) (files : List ZipEntry)
      → find (λ l. kind_eq l.kind k) (lists_of_kinds ks files)
        ≡ (if any (λ j. kind_eq j k) ks then only_list (list_of_kind k files) else none)
  unfolding lists_of_kinds find any
  find-lists_of_kinds k [] files = refl
  find-lists_of_kinds k (j ∷ ks) files = elim (Bool-cases (kind_eq j k)) [
    | inl hit ↦ elim (Bool-cases (any_listed (parts readers k files))) [
      | inl some_part ↦ ground (arith, kind_eq→eq j k hit, kind_eq_refl k)
      | inr no_part ↦ ground (arith, kind_eq→eq j k hit, find-lists_of_kinds k ks files)
    ]
    | inr miss ↦ elim (Bool-cases (any_listed (parts readers j files))) [
      | inl some_part ↦ ground (arith, find-lists_of_kinds k ks files)
      | inr no_part ↦ ground (arith, find-lists_of_kinds k ks files)
    ]
  ]

  every_kind : (k : ListKind) → any (λ j. kind_eq j k) (map (λ d. d.kind) list_definitions) ≡ true
  unfolding any kind_eq
  every_kind k = ground arith

  -- An archive that is read has at most 5000 entries, and its parts together at most 200 MiB. The
  -- export has the list of a kind exactly if some part of that kind is recognised, and it is then the
  -- merge of the recognised parts in the order of their names. Its follower list is not empty.
  pub archive_of_files-read :
      (files : List ZipEntry) (e : Export) (k : ListKind)
      → archive_of_files readers files ≡ parsed e
      → (length files ≤ max_archive_entries)
        × (kinds_size readers (map (λ d. d.kind) list_definitions) files ≤ max_decompressed_bytes)
        × (find (λ l. kind_eq l.kind k) e.lists ≡ only_list (list_of_kind k files))
        × (some_follower (followers_of e) ≡ true)
  unfolding archive_of_files followers_of
  archive_of_files-read files e k h =
      let ks = map (λ d. d.kind) list_definitions in
      elim (Bool-cases (ltb max_archive_entries (length files))) [
        | inl many ↦ absurd (ground arith)
        | inr few ↦ elim (Parsing-cases (read_kinds readers ks files max_decompressed_bytes [])) [
          | inl (x, fail) ↦ absurd (ground arith)
          | inr ((left, lists), got) ↦ elim (Bool-cases (some_follower (list_in lists followers))) [
            | inr empty ↦ absurd (ground arith)
            | inl filled ↦
                let same : lists ≡ e.lists = ground arith in
                (
                  ground arith,
                  omega (
                    arith,
                    read_kinds-budget readers ks files max_decompressed_bytes left [] lists got,
                  ),
                  ap (find (λ l. kind_eq l.kind k)) (
                        sym same
                        ∙ read_kinds-lists ks files max_decompressed_bytes left [] lists got)
                      ∙ find-lists_of_kinds k ks files
                      ∙ rw (every_kind k) refl,
                  ap (λ (ls : List ListEntry). some_follower (list_in ls followers)) (sym same)
                      ∙ filled,
                )
          ]
        ]
      ]
