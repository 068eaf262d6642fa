-- ===== src/Store/Apply.antt =====
-- internal/store/snapshot.go: ApplySnapshot, which records the lists of an execution and rebuilds
-- the history in one transaction, and SetSnapshotDate of queries.go, the other transaction that
-- ends in a rebuild.
pub mod Uploads
pub mod Total
use insta_follower_tracker.Prelude.{
  ℕ, suc, Bool, ◌&&◌, List, [], ◌∷◌, ◌++◌, Option, none, some, ◌==◌, if◌then◌else◌,
}
use insta_follower_tracker.Prelude.Table.{find, update_where, delete_where}
use insta_follower_tracker.Prelude.Text.{Text, text_eq}
use insta_follower_tracker.Store.Models.{
  completed, ListKind, User, Upload, Change, Db, Member, ListSnapshot, not_found, scan_failed,
  Result, ok, err, ◌>>=◌,
}
use insta_follower_tracker.Store.Departure.{is_member}
use insta_follower_tracker.Store.Snapshot.{carries, recompute_account}

pub record SnapshotResult : Type 0 where
  pub upload_id : ℕ
  pub sequence_no : ℕ
  pub prev_upload_id : Option ℕ
  pub follower_count : ℕ
  pub added_count : ℕ
  pub removed_count : ℕ
  pub is_baseline : Bool

unfoldable pub upload_row : Db → ℕ → Option Upload
unfolding find
upload_row db u = find (λ r. r.id == u) db.uploads

abbrev pub or_not_found {ℓ} : {A : Type ℓ} → Option A → Result A
or_not_found none = err not_found
or_not_found (some a) = ok a

-- The two DELETEs that clear an earlier attempt.
unfoldable pub clear_execution : ℕ → Db → Db
clear_execution u db = record db {
  snapshot_members = delete_where (λ m. m.upload_id == u) db.snapshot_members;
  upload_lists = delete_where (λ l. l.upload_id == u) db.upload_lists;
}

abbrev pub is_user_named : ℕ → Text → User → Bool
is_user_named account name r = r.account_id == account && text_eq r.username name

abbrev pub newer_href : Text → Text → Text
newer_href [] old = old
newer_href (c ∷ cs) old = c ∷ cs

-- INSERT INTO users ... ON CONFLICT DO UPDATE SET href ... RETURNING id
unfoldable pub upsert_user : ℕ → Member → Db → ℕ × Db
unfolding find
upsert_user account m db = elim (find (is_user_named account m.username) db.users) [
  | none ↦ (
    db.next_user,
    record db {
      users =
          db.users
          ++ record {
            id = db.next_user;
            account_id = account;
            username = m.username;
            href = m.href;
          }
            ∷ [];
      next_user = suc db.next_user;
    },
  )
  | some r ↦ (
    r.id,
    record db {
      users =
          update_where (is_user_named account m.username)
            (λ w. record w { href = newer_href m.href w.href }) db.users;
    },
  )
]

-- INSERT INTO snapshot_members ... ON CONFLICT DO NOTHING
unfoldable pub insert_member : ℕ → ListKind → ℕ → Option ℕ → Db → Db
unfolding is_member
insert_member u k x t db = if is_member db.snapshot_members u k x then db else record db {
  snapshot_members =
      db.snapshot_members
      ++ record { upload_id = u; list_kind = k; user_id = x; followed_at = t } ∷ [];
}

unfoldable pub record_members : ℕ → ℕ → ListKind → List Member → Db → Db
unfolding upsert_user insert_member
record_members account u k [] db = db
record_members account u k (m ∷ ms) db =
    let (x, db1) = upsert_user account m db in
    record_members account u k ms (insert_member u k x m.followed_at db1)

-- INSERT INTO upload_lists ... ON CONFLICT DO NOTHING
unfoldable pub register_list : ℕ → ListKind → Db → Db
unfolding carries
register_list u k db = if carries db.upload_lists u k then db else record db {
  upload_lists =
      db.upload_lists
      ++ record {
        upload_id = u;
        list_kind = k;
        member_count = 0;
        added_count = 0;
        removed_count = 0;
      }
        ∷ [];
}

unfoldable pub record_lists : ℕ → ℕ → List ListSnapshot → Db → Db
unfolding record_members register_list
record_lists account u [] db = db
record_lists account u (l ∷ ls) db =
    record_lists account u ls
      (register_list u l.kind (record_members account u l.kind l.members db))

abbrev pub completed_row : ℕ → ℕ → Text → Upload → Upload
completed_row now taken_at source r = record r {
  status = completed;
  processed_at = some now;
  snapshot_taken_at = some taken_at;
  snapshot_source = source;
  error_message = [];
}

unfoldable pub complete_upload : ℕ → ℕ → ℕ → Text → Db → Db
complete_upload u now taken_at source db = record db {
  uploads = update_where (λ r. r.id == u) (completed_row now taken_at source) db.uploads;
}

-- SELECT prev_upload_id FROM changes WHERE upload_id = ? LIMIT 1
unfoldable pub predecessor : ℕ → List Change → Option ℕ
predecessor u cs = elim (find (λ c. c.upload_id == u) cs) [
  | none ↦ none
  | some c ↦ some c.prev_upload_id
]

-- A NULL sequence number cannot be scanned into an int64.
abbrev pub snapshot_result : Upload → Option ℕ → Option ℕ → Result SnapshotResult
snapshot_result r prev none = err scan_failed
snapshot_result r prev (some n) = ok (record {
  upload_id = r.id;
  sequence_no = n;
  prev_upload_id = prev;
  follower_count = r.follower_count;
  added_count = r.added_count;
  removed_count = r.removed_count;
  is_baseline = n == 1;
})

-- `now` and `later` are the two readings of the clock.
unfoldable pub apply_body :
    ℕ → List ListSnapshot → ℕ → Text → ℕ → ℕ → Db → Result (SnapshotResult × Db)
unfolding upload_row clear_execution record_lists complete_upload recompute_account predecessor
apply_body u lists taken_at source now later db = do
  row ← or_not_found (upload_row db u)
  db' ← recompute_account row.account_id later (
      complete_upload u now taken_at source
        (record_lists row.account_id u lists (clear_execution u db)))
  row' ← or_not_found (upload_row db' u)
  result ← snapshot_result row' (predecessor u db'.changes) row'.sequence_no
  ok (result, db')

-- An error rolls the transaction back.
abbrev pub commit {ℓ} : {A : Type ℓ} → Db → Result (A × Db) → Result A × Db
commit db (ok (a, db')) = (ok a, db')
commit db (err e) = (err e, db)

unfoldable pub apply_snapshot :
    ℕ → List ListSnapshot → ℕ → Text → ℕ → ℕ → Db → Result SnapshotResult × Db
unfolding apply_body
apply_snapshot u lists taken_at source now later db =
    commit db (apply_body u lists taken_at source now later db)

unfoldable pub redate : ℕ → ℕ → Text → Db → Db
redate u taken_at source db = record db {
  uploads =
      update_where (λ r. r.id == u)
        (λ r. record r { snapshot_taken_at = some taken_at; snapshot_source = source }) db.uploads;
}

unfoldable pub set_snapshot_date_body : ℕ → ℕ → Text → ℕ → Db → Result (Unit {0} × Db)
unfolding upload_row redate recompute_account
set_snapshot_date_body u taken_at source now db = do
  row ← or_not_found (upload_row db u)
  db' ← recompute_account row.account_id now (redate u taken_at source db)
  ok (tt, db')

unfoldable pub set_snapshot_date : ℕ → ℕ → Text → ℕ → Db → Result (Unit {0}) × Db
unfolding set_snapshot_date_body
set_snapshot_date u taken_at source now db =
    commit db (set_snapshot_date_body u taken_at source now db)
