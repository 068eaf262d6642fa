-- ===== src/Tracker/Backfill/Dated.antt =====
-- What the backfill leaves of the rows of uploads.
use insta_follower_tracker.Prelude.{
  ℕ, ◌≤◌, ◌≡◌, refl, sym, ap, subst, ◌∙◌, inl, inr, Bool, List, [], ◌∷◌, Option, none, some, arith,
  ◌==◌, if◌then◌else◌, Bool-cases, Option-cases,
}
use insta_follower_tracker.Prelude.Table.{count, find, update_where}
use insta_follower_tracker.Prelude.Text.{Text}
use insta_follower_tracker.Store.Models.{Upload, UploadList, Db}
use insta_follower_tracker.Store.Snapshot.{sync_row}
use insta_follower_tracker.Store.Snapshot.Order.{IsKeyed}
use insta_follower_tracker.Store.Snapshot.Rebuild.{recompute_account-recomputed}
use insta_follower_tracker.Store.Apply.{
  upload_row, redate, set_snapshot_date, set_snapshot_date_body,
}
use insta_follower_tracker.Store.Apply.Uploads.{IsStable, recomputed-count}
use insta_follower_tracker.Store.Accounts.Listing.{uploads_with_unknown_snapshot_date}
use insta_follower_tracker.Instagram.Export.{Export}
use insta_follower_tracker.Tracker.Worker.{StoredFile}
use insta_follower_tracker.Tracker.Backfill.{
  corrected, detect_snapshot_date, backfill_uploads, backfill_snapshot_dates,
}

-- A row with the date that was detected, and its source.
abbrev pub dated : Option (ℕ × Text) → Upload → Upload
dated none r = r
dated (some (t, source)) r = record r { snapshot_taken_at = some t; snapshot_source = source }

abbrev pub dated_if : Option (ℕ × Text) → ℕ → Upload → Upload
dated_if d u r = if r.id == u then dated d r else r

count-dated_rows :
    (p : Upload → Bool) (u : ℕ) (d : Option (ℕ × Text)) (rs : List Upload)
    → count p (update_where (λ r. r.id == u) (dated d) rs) ≡ count (λ r. p (dated_if d u r)) rs
unfolding count
count-dated_rows p u d [] = refl
count-dated_rows p u d (r ∷ rs) = ground (arith, count-dated_rows p u d rs)

count-dated :
    (p : Upload → Bool) (u t : ℕ) (source : Text) (db : Db)
    → count p (redate u t source db).uploads
      ≡ count (λ r. p (dated_if (some (t, source)) u r)) db.uploads
unfolding redate
count-dated p u t source db = count-dated_rows p u (some (t, source)) db.uploads

count-undated :
    (p : Upload → Bool) (u : ℕ) (rows : List Upload)
    → count p rows ≡ count (λ r. p (dated_if none u r)) rows
unfolding count
count-undated p u [] = refl
count-undated p u (r ∷ rows) = ground (arith, count-undated p u rows)

count-absent :
    (p : Upload → Bool) (d : Option (ℕ × Text)) (u : ℕ) (rows : List Upload)
    → find (λ r. r.id == u) rows ≡ none
    → count p rows ≡ count (λ r. p (dated_if d u r)) rows
unfolding count find
count-absent p d u [] h = refl
count-absent p d u (r ∷ rows) h = ground (arith, count-absent p d u rows)

dated_if-id : (u : ℕ) (d : Option (ℕ × Text)) (r : Upload) → (dated_if d u r).id ≡ r.id
dated_if-id u none r = ground arith
dated_if-id u (some (t, source)) r = ground arith

-- Dating a row keeps its id.
count-same :
    (x u : ℕ) (d : Option (ℕ × Text)) (rows : List Upload)
    → count (λ r. (dated_if d u r).id == x) rows ≡ count (λ r. r.id == x) rows
unfolding count
count-same x u d [] = refl
count-same x u d (r ∷ rows) = ground (arith, dated_if-id u d r, count-same x u d rows)

redate-IsKeyed :
    (u t : ℕ) (source : Text) (db : Db)
    → IsKeyed db.uploads
    → IsKeyed (redate u t source db).uploads
redate-IsKeyed u t source db keyed x =
    subst (λ n. n ≤ 1)
      (sym
        (count-dated (λ r. r.id == x) u t source db ∙ count-same x u (some (t, source)) db.uploads))
      (keyed x)

set_snapshot_date-count :
    (p : Upload → Bool) (u t : ℕ) (source : Text) (now : ℕ) (db : Db)
    → IsStable p
    → IsKeyed db.uploads
    → count p (set_snapshot_date u t source now db).1.uploads
      ≡ count (λ r. p (dated_if (some (t, source)) u r)) db.uploads
unfolding set_snapshot_date set_snapshot_date_body upload_row
set_snapshot_date-count p u t source now db stable keyed =
    elim (Option-cases (find (λ r. r.id == u) db.uploads)) [
      | inl absent ↦
          rw (set_snapshot_date, absent) (count-absent p (some (t, source)) u db.uploads absent)
      | inr (row, found) ↦
          let done =
            (recompute_account-recomputed row.account_id now (redate u t source db)
              (redate-IsKeyed u t source db keyed)).0 in
          rw (set_snapshot_date, found, done)
            (recomputed-count p stable row.account_id now (redate u t source db)
              ∙ count-dated p u t source db)
    ]

sync_row-dated_if :
    (d : Option (ℕ × Text)) (u : ℕ) (lists : List UploadList) (r : Upload)
    → dated_if d u (sync_row lists r) ≡ sync_row lists (dated_if d u r)
sync_row-dated_if none u lists r = elim (Bool-cases (r.id == u)) [
  | inl hit ↦ rw hit refl
  | inr miss ↦ rw miss refl
]
sync_row-dated_if (some (t, source)) u lists r = elim (Bool-cases (r.id == u)) [
  | inl hit ↦ rw hit refl
  | inr miss ↦ rw miss refl
]

number-dated_if :
    (d : Option (ℕ × Text)) (u : ℕ) (n : Option ℕ) (r : Upload)
    → dated_if d u (record r { sequence_no = n }) ≡ record (dated_if d u r) { sequence_no = n }
number-dated_if none u n r = ground arith
number-dated_if (some (t, source)) u n r = ground arith

dated_if-IsStable :
    (p : Upload → Bool) (d : Option (ℕ × Text)) (u : ℕ)
    → IsStable p
    → IsStable (λ r. p (dated_if d u r))
dated_if-IsStable p d u stable = record {
  numbers = λ r n. ap p (number-dated_if d u n r) ∙ stable.numbers (dated_if d u r) n;
  counts = λ r lists. ap p (sync_row-dated_if d u lists r) ∙ stable.counts (dated_if d u r) lists;
}

module _ {File : Type 0} (parse : File → Option Export) (filename_date : Text → Option ℕ) (now : ℕ)
    (files : List (StoredFile File)) where
  -- A row, dated by each of the uploads that has its id.
  unfoldable pub dated_by_all : List Upload → Upload → Upload
  unfolding detect_snapshot_date
  dated_by_all [] r = r
  dated_by_all (up ∷ ups) r =
      dated_by_all ups (dated_if (detect_snapshot_date parse filename_date now files up) up.id r)

  dated_by_all-IsStable :
      (p : Upload → Bool) (ups : List Upload) → IsStable p → IsStable (λ r. p (dated_by_all ups r))
  unfolding dated_by_all
  dated_by_all-IsStable p [] stable = stable
  dated_by_all-IsStable p (up ∷ ups) stable =
      dated_if-IsStable (λ r. p (dated_by_all ups r))
        (detect_snapshot_date parse filename_date now files up) up.id
        (dated_by_all-IsStable p ups stable)

  corrected-count :
      (p : Upload → Bool) (d : Option (ℕ × Text)) (up : Upload) (db : Db)
      → IsStable p
      → IsKeyed db.uploads
      → count p (corrected parse filename_date now d up db).uploads
        ≡ count (λ r. p (dated_if d up.id r)) db.uploads
  corrected-count p none up db stable keyed = count-undated p up.id db.uploads
  corrected-count p (some (t, source)) up db stable keyed =
      set_snapshot_date-count p up.id t source now db stable keyed

  id-IsStable : (x : ℕ) → IsStable (λ r. r.id == x)
  id-IsStable x = record { numbers = λ r n. refl; counts = λ r lists. refl }

  corrected-IsKeyed :
      (d : Option (ℕ × Text)) (up : Upload) (db : Db)
      → IsKeyed db.uploads
      → IsKeyed (corrected parse filename_date now d up db).uploads
  corrected-IsKeyed d up db keyed x =
      subst (λ n. n ≤ 1)
        (sym (
          corrected-count (λ r. r.id == x) d up db (id-IsStable x) keyed
          ∙ count-same x up.id d db.uploads))
        (keyed x)

  backfill_uploads-count :
      (p : Upload → Bool) (ups : List Upload) (db : Db)
      → IsStable p
      → IsKeyed db.uploads
      → count p (backfill_uploads parse filename_date now files ups db).uploads
        ≡ count (λ r. p (dated_by_all ups r)) db.uploads
  unfolding backfill_uploads dated_by_all
  backfill_uploads-count p [] db stable keyed = refl
  backfill_uploads-count p (up ∷ ups) db stable keyed =
      let d = detect_snapshot_date parse filename_date now files up in
      backfill_uploads-count p ups (corrected parse filename_date now d up db) stable
        (corrected-IsKeyed d up db keyed)
      ∙ corrected-count (λ r. p (dated_by_all ups r)) d up db (dated_by_all-IsStable p ups stable)
          keyed

  -- On uploads with distinct ids, after the backfill as many rows have a property that reads neither
  -- the number nor the counts of a row as have it once each row, taken alone, has the date and source
  -- that the file of an execution of unknown date with its id gives.
  pub backfill_snapshot_dates-count :
      (p : Upload → Bool) (db : Db)
      → IsStable p
      → IsKeyed db.uploads
      → count p (backfill_snapshot_dates parse filename_date now files db).uploads
        ≡ count (λ r. p (dated_by_all (uploads_with_unknown_snapshot_date db) r)) db.uploads
  unfolding backfill_snapshot_dates
  backfill_snapshot_dates-count p db stable keyed =
      backfill_uploads-count p (uploads_with_unknown_snapshot_date db) db stable keyed
