-- ===== src/Store/Apply/Uploads.antt =====
-- ApplySnapshot and the rows of `uploads`: it completes the row of its execution, and fails only
-- where there is no such row.
use insta_follower_tracker.Prelude.{
  ℕ, ◌+◌, ◌≡◌, refl, ◌∙◌, ap, inl, inr, Bool, List, [], ◌∷◌, Option, none, some, arith, ◌==◌,
  Option-cases,
}
use insta_follower_tracker.Prelude.Table.{count, count-update, update_where}
use insta_follower_tracker.Prelude.Text.{Text}
use insta_follower_tracker.Store.Models.{ListKind, Upload, UploadList, Db, Member, ListSnapshot, ok}
use insta_follower_tracker.Store.Snapshot.{
  sync_row, set_number, clear_sequence_numbers, clear_changes, executions_in_date_order,
}
use insta_follower_tracker.Store.Snapshot.Steps.{round, rounds, recomputed}
use insta_follower_tracker.Store.Snapshot.Numbering.{round-uploads}
use insta_follower_tracker.Store.Snapshot.Order.{IsKeyed}
use insta_follower_tracker.Store.Snapshot.Rebuild.{recompute_account-recomputed}
use insta_follower_tracker.Store.Apply.{
  SnapshotResult, upload_row, clear_execution, upsert_user, insert_member, record_members,
  register_list, record_lists, completed_row, complete_upload, apply_body,
}

-- A test of a row that reads neither its number nor its counts.
pub record IsStable (p : Upload → Bool) : Type 0 where
  pub numbers : (r : Upload) (n : Option ℕ) → p (record r { sequence_no = n }) ≡ p r
  pub counts : (r : Upload) (lists : List UploadList) → p (sync_row lists r) ≡ p r

module _ (p : Upload → Bool) (stable : IsStable p) where
  round-count :
      (account now i : ℕ) (prev : Option ℕ) (u : ℕ) (db : Db)
      → count p (round account now i prev u db).uploads ≡ count p db.uploads
  unfolding set_number
  round-count account now i prev u db =
      let (lists, e) = round-uploads account now i prev u db in
      ap (count p) e
      ∙ count-update p _ _ (set_number u (i + 1) db).uploads (λ r. stable.counts r lists)
      ∙ count-update p _ _ db.uploads (λ r. stable.numbers r (some (i + 1)))

  rounds-count :
      (account now i : ℕ) (prev : Option ℕ) (us : List ℕ) (db : Db)
      → count p (rounds account now i prev us db).uploads ≡ count p db.uploads
  unfolding rounds
  rounds-count account now i prev [] db = refl
  rounds-count account now i prev (u ∷ us) db =
      rounds-count account now (i + 1) (some u) us (round account now i prev u db)
      ∙ round-count account now i prev u db

  pub recomputed-count :
      (account now : ℕ) (db : Db) → count p (recomputed account now db).uploads ≡ count p db.uploads
  unfolding recomputed clear_sequence_numbers clear_changes
  recomputed-count account now db =
      rounds-count account now 0 none (executions_in_date_order db account)
        (clear_changes account (clear_sequence_numbers account db))
      ∙ count-update p _ _ db.uploads (λ r. stable.numbers r none)

upsert_user-uploads :
    (account : ℕ) (m : Member) (db : Db) → (upsert_user account m db).1.uploads ≡ db.uploads
unfolding upsert_user
upsert_user-uploads account m db = ground arith

insert_member-uploads :
    (u : ℕ) (k : ListKind) (x : ℕ) (t : Option ℕ) (db : Db)
    → (insert_member u k x t db).uploads ≡ db.uploads
unfolding insert_member
insert_member-uploads u k x t db = ground arith

register_list-uploads :
    (u : ℕ) (k : ListKind) (db : Db) → (register_list u k db).uploads ≡ db.uploads
unfolding register_list
register_list-uploads u k db = ground arith

record_members-uploads :
    (account u : ℕ) (k : ListKind) (ms : List Member) (db : Db)
    → (record_members account u k ms db).uploads ≡ db.uploads
unfolding record_members
record_members-uploads account u k [] db = refl
record_members-uploads account u k (m ∷ ms) db =
    let (x, db1) = upsert_user account m db in
    record_members-uploads account u k ms (insert_member u k x m.followed_at db1)
    ∙ insert_member-uploads u k x m.followed_at db1
    ∙ upsert_user-uploads account m db

record_lists-uploads :
    (account u : ℕ) (ls : List ListSnapshot) (db : Db)
    → (record_lists account u ls db).uploads ≡ db.uploads
unfolding record_lists
record_lists-uploads account u [] db = refl
record_lists-uploads account u (l ∷ ls) db =
    let db1 = record_members account u l.kind l.members db in
    record_lists-uploads account u ls (register_list u l.kind db1)
    ∙ register_list-uploads u l.kind db1
    ∙ record_members-uploads account u l.kind l.members db

-- The state that ApplySnapshot hands to the rebuild.
abbrev pub prepared : ℕ → ℕ → List ListSnapshot → ℕ → Text → ℕ → Db → Db
prepared account u lists taken_at source now db =
    complete_upload u now taken_at source (record_lists account u lists (clear_execution u db))

abbrev pub completed_rows : ℕ → ℕ → ℕ → Text → List Upload → List Upload
completed_rows u now taken_at source =
    update_where (λ r. r.id == u) (completed_row now taken_at source)

pub prepared-uploads :
    (account u : ℕ) (lists : List ListSnapshot) (taken_at : ℕ) (source : Text) (now : ℕ) (db : Db)
    → (prepared account u lists taken_at source now db).uploads
      ≡ completed_rows u now taken_at source db.uploads
unfolding complete_upload
prepared-uploads account u lists taken_at source now db =
    ap (completed_rows u now taken_at source) (
      record_lists-uploads account u lists (clear_execution u db)
      ∙ (unfold clear_execution in refl))

pub prepared-IsKeyed :
    (account u : ℕ) (lists : List ListSnapshot) (taken_at : ℕ) (source : Text) (now : ℕ) (db : Db)
    → IsKeyed db.uploads
    → IsKeyed (prepared account u lists taken_at source now db).uploads
prepared-IsKeyed account u lists taken_at source now db keyed x =
    rw (prepared-uploads account u lists taken_at source now db) (
      rw
        (count-update (λ r. r.id == x) (λ r. r.id == u) (completed_row now taken_at source)
          db.uploads (λ r. refl))
        (keyed x))

-- What is left of a transaction that succeeds: the rebuild of the prepared state.
pub apply_body-recomputed :
    (u : ℕ) (lists : List ListSnapshot) (taken_at : ℕ) (source : Text) (now later : ℕ) (db db' : Db)
    (result : SnapshotResult)
    → IsKeyed db.uploads
    → apply_body u lists taken_at source now later db ≡ ok (result, db')
    → (row : Upload) × (upload_row db u ≡ some row)
      × (db'
          ≡ recomputed row.account_id later
              (prepared row.account_id u lists taken_at source now db))
unfolding apply_body
apply_body-recomputed u lists taken_at source now later db db' result keyed e =
    elim (Option-cases (upload_row db u)) [
      | inl missing ↦ ground arith
      | inr (row, found) ↦ (
        row,
        found,
        ground (
          arith,
          (recompute_account-recomputed row.account_id later
              (prepared row.account_id u lists taken_at source now db)
              (prepared-IsKeyed row.account_id u lists taken_at source now db keyed)).0,
        ),
      )
    ]

-- Where the transaction succeeds, `p` holds of as many rows as after completing the row of `u`.
pub apply_body-count :
    (p : Upload → Bool) (u : ℕ) (lists : List ListSnapshot) (taken_at : ℕ) (source : Text)
    (now later : ℕ) (db db' : Db) (result : SnapshotResult)
    → IsStable p
    → IsKeyed db.uploads
    → apply_body u lists taken_at source now later db ≡ ok (result, db')
    → count p db'.uploads ≡ count p (completed_rows u now taken_at source db.uploads)
apply_body-count p u lists taken_at source now later db db' result stable keyed e =
    let (row, found, same) =
      apply_body-recomputed u lists taken_at source now later db db' result keyed e in
    let start = prepared row.account_id u lists taken_at source now db in
    ap (λ (d : Db). count p d.uploads) same
    ∙ recomputed-count p stable row.account_id later start
    ∙ ap (count p) (prepared-uploads row.account_id u lists taken_at source now db)
