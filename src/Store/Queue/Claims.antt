-- ===== src/Store/Queue/Claims.antt =====
-- What is claimed from the two queues, and when they are empty.
use insta_follower_tracker.Prelude.{
  ℕ, ◌≡◌, refl, sym, ◌∙◌, inl, inr, Bool, true, List, [], ◌∷◌, map, Option, none, some, arith, ◌==◌,
  Option-cases, if◌then◌else◌,
}
use insta_follower_tracker.Prelude.Table.{count, select}
use insta_follower_tracker.Prelude.In.{In, In-select, In-find, In-map_of, find_of_In}
use insta_follower_tracker.Prelude.Sort.{sort, count-sort, In-sort}
use insta_follower_tracker.Store.Models.{Status, is_pending, Upload, Db, StoreError, ok, err}
use insta_follower_tracker.Store.Apply.{upload_row}
use insta_follower_tracker.Store.Queue.{first_by, upload_le, start_upload, claim_next_pending}

count-select_self :
    (p : Upload → Bool) (xs : List Upload) → count (λ x. true) (select p xs) ≡ count p xs
unfolding count select
count-select_self p [] = refl
count-select_self p (x ∷ xs) = ground (arith, count-select_self p xs)

-- The first of the rows that pass `p` is one of them.
pub first_by-some :
    (le : Upload → Upload → Bool) (p : Upload → Bool) (rows : List Upload) (r : Upload)
    → first_by le (select p rows) ≡ some r
    → In r rows × (p r ≡ true)
unfolding first_by
first_by-some le p rows r e =
    In-select p r rows (In-sort le r (select p rows) (head_In (sort le (select p rows)) e))
  where
    head_In :
        (xs : List Upload)
        → ◌≡◌ {A = Option Upload} (elim xs [ [] ↦ none | x ∷ rest ↦ some x ]) (some r)
        → In r xs
    head_In [] h = cc h
    head_In (x ∷ xs) h = inl (ground arith)

-- There is no first row exactly where none passes.
pub first_by-none :
    (le : Upload → Upload → Bool) (p : Upload → Bool) (rows : List Upload)
    → first_by le (select p rows) ≡ none
    → count p rows ≡ 0
unfolding first_by
first_by-none le p rows e =
    sym (count-select_self p rows)
    ∙ sym (count-sort le (λ x. true) (select p rows))
    ∙ empty (sort le (select p rows)) e
  where
    empty :
        (xs : List Upload)
        → ◌≡◌ {A = Option Upload} (elim xs [ [] ↦ none | x ∷ rest ↦ some x ]) none
        → count (λ x. true) xs ≡ 0
    empty [] h = unfold count in refl
    empty (x ∷ xs) h = cc h

abbrev started : ℕ → Upload → Upload
started now r = record r { status = Status.processing; started_at = some now }

-- A claim takes a row that waits, and starts the row of its id.
pub record IsClaim (now : ℕ) (db : Db) (up : Upload) (db' : Db) : Type 0 where
  pub row : Upload
  pub stored : In row db.uploads
  pub waits : is_pending row.status ≡ true
  pub same_id : up.id ≡ row.id
  pub after : db' ≡ start_upload row.id now db

pub read_back-row :
    (now : ℕ) (r : Upload) (db : Db)
    → In r db.uploads
    → (up : Upload) × (upload_row (start_upload r.id now db) r.id ≡ some up) × (up.id ≡ r.id)
unfolding upload_row start_upload
read_back-row now r db m =
    let start = λ (x : Upload). if x.id == r.id then started now x else x in
    let (b, e) =
      find_of_In (λ (x : Upload). x.id == r.id) (start r) (map start db.uploads)
        (In-map_of start r db.uploads m) (ground arith) in
    (b, e, ground (arith, In-find (λ (x : Upload). x.id == r.id) b (map start db.uploads) e))

-- The queue says that it has nothing only if nothing waits.
pub claim_next_pending-none :
    (now : ℕ) (db db' : Db) (e : StoreError)
    → claim_next_pending now db ≡ (err e, db')
    → (db' ≡ db) × (count (λ r. is_pending r.status) db.uploads ≡ 0)
unfolding claim_next_pending
claim_next_pending-none now db db' e h =
    elim (Option-cases (first_by upload_le (select (λ r. is_pending r.status) db.uploads))) [
      | inl n ↦ (ground arith, first_by-none upload_le (λ r. is_pending r.status) db.uploads n)
      | inr (r, s) ↦
          let (m, w) = first_by-some upload_le (λ r. is_pending r.status) db.uploads r s in
          let (b, f, i) = read_back-row now r db m in absurd (ground arith)
    ]

pub claim_next_pending-IsClaim :
    (now : ℕ) (db db' : Db) (up : Upload)
    → claim_next_pending now db ≡ (ok up, db')
    → IsClaim now db up db'
unfolding claim_next_pending
claim_next_pending-IsClaim now db db' up h =
    elim (Option-cases (first_by upload_le (select (λ r. is_pending r.status) db.uploads))) [
      | inl n ↦ absurd (ground arith)
      | inr (r, s) ↦
          let (m, w) = first_by-some upload_le (λ r. is_pending r.status) db.uploads r s in
          let (b, f, i) = read_back-row now r db m in
          record { row = r; stored = m; waits = w; same_id = ground arith; after = ground arith }
    ]
