-- ===== src/Instagram/Archive/Budget.antt =====
-- The limits on what an archive may make the reader do.
use insta_follower_tracker.Prelude.{
  ℕ, ◌+◌, ◌-◌, ◌≤◌, ◌≡◌, refl, inl, inr, ◌⊎◌, false, List, [], ◌∷◌, ◌++◌, Option, none, some, arith,
  ◌==◌, length, Bool-cases,
}
use insta_follower_tracker.Prelude.Text.{Text}
use insta_follower_tracker.Store.Models.{ListKind}
use insta_follower_tracker.Instagram.Export.{ListEntry}
use insta_follower_tracker.Instagram.Document.{
  Document, listed, unrecognised, malformed, parse_document,
}
use insta_follower_tracker.Instagram.Readers.{Readers}
use insta_follower_tracker.Instagram.Archive.{
  ZipEntry, Parsing, parsed, refused, ParseError, PartsRead, absorb, entry_of, read_archive_entry,
  parts, read_parts, read_kinds,
}

pub Parsing-cases {ℓ} :
    {A : Type ℓ} (o : Parsing A) → ((e : ParseError) × (o ≡ refused e)) ⊎ ((a : A) × (o ≡ parsed a))
Parsing-cases (parsed a) = inr (a, refl)
Parsing-cases (refused e) = inl (e, refl)

abbrev pub size_of : Option Text → ℕ
size_of none = 0
size_of (some body) = length body

-- The bytes of a list of entries, once decompressed.
unfoldable pub total_size : List ZipEntry → ℕ
total_size [] = 0
total_size (f ∷ fs) = size_of f.content + total_size fs

-- An entry is read whole, and only within the budget.
pub read_archive_entry-size :
    (f : ZipEntry) (budget : ℕ) (body : Text) (used : ℕ)
    → read_archive_entry f budget ≡ parsed (body, used)
    → (f.content ≡ some body) × (used ≡ length body) × (used ≤ budget)
unfolding read_archive_entry
read_archive_entry-size f budget body used e = elim (Bool-cases (budget == 0)) [
  | inl spent ↦ absurd (ground arith)
  | inr left ↦ ground arith
]

absorb-budget :
    (d : Document) (used : ℕ) (acc : PartsRead) → (absorb d used acc).budget ≡ acc.budget - used
absorb-budget (listed fs) used acc = refl
absorb-budget unrecognised used acc = refl
absorb-budget malformed used acc = refl

module _ (readers : Readers) where
  read_parts-budget :
      (fs : List ZipEntry) (acc r : PartsRead)
      → read_parts readers fs acc ≡ parsed r
      → r.budget + total_size fs ≡ acc.budget
  unfolding read_parts total_size
  read_parts-budget [] acc r e = ground arith
  read_parts-budget (f ∷ fs) acc r e = elim (Parsing-cases (read_archive_entry f acc.budget)) [
    | inl (x, fail) ↦ absurd (ground arith)
    | inr ((body, used), got) ↦
        let (content, size, fits) = read_archive_entry-size f acc.budget body used got in
        let d = parse_document readers body in
        let ih = read_parts-budget fs (absorb d used acc) r (ground arith) in
        ground (arith, ih, absorb-budget d used acc, content, size, fits)
  ]

  -- The bytes of the parts of the kinds.
  unfoldable pub kinds_size : List ListKind → List ZipEntry → ℕ
  unfolding parts total_size
  kinds_size [] files = 0
  kinds_size (k ∷ ks) files = total_size (parts readers k files) + kinds_size ks files

  pub read_kinds-budget :
      (ks : List ListKind) (files : List ZipEntry) (budget left : ℕ) (lists lists' : List ListEntry)
      → read_kinds readers ks files budget lists ≡ parsed (left, lists')
      → left + kinds_size ks files ≡ budget
  unfolding read_kinds kinds_size
  read_kinds-budget [] files budget left lists lists' e = ground arith
  read_kinds-budget (k ∷ ks) files budget left lists lists' e =
      let start : PartsRead = record { budget = budget; members = []; parsed_any = false } in
      elim (Parsing-cases (read_parts readers (parts readers k files) start)) [
        | inl (x, fail) ↦ absurd (ground arith)
        | inr (r, got) ↦ ground (
          arith,
          read_kinds-budget ks files r.budget left (lists ++ entry_of k r) lists' (ground arith),
          read_parts-budget (parts readers k files) start r got,
        )
      ]
