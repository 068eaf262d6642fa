-- ===== src/Store/Snapshot.antt =====
-- internal/store/snapshot.go: recording an execution and rebuilding the history of its account.
pub mod Frame
pub mod Steps
pub mod Changes
pub mod History
pub mod Numbering
pub mod Order
pub mod Rebuild
pub mod Ranked
pub mod Rows
pub mod Neighbours
use insta_follower_tracker.Prelude.{
  ℕ, suc, ◌+◌, Bool, not, ◌&&◌, ◌||◌, List, [], ◌∷◌, ◌++◌, map, Option, none, some, ltb, leb, ◌==◌,
  if◌then◌else◌, opt_eq, length,
}
use insta_follower_tracker.Prelude.Table.{any, count, select, find, update_where, delete_where}
use insta_follower_tracker.Prelude.Sort.{sort}
use insta_follower_tracker.Store.Models.{
  ChangeType, is_unfollowed, ListKind, blocked, close_friends, favourited, followers, following,
  pending_requests, recent_requests, recently_unfollowed, removed_suggestions, restricted, kind_eq,
  Upload, is_completed, SnapshotMember, UploadList, Change, Db, Result, ok, err, constraint_failed,
  ◌>>=◌,
}
use insta_follower_tracker.Store.Departure.{is_member, classify_departures}

-- A NULL date sorts before all others.
abbrev pub date_key : Option ℕ → ℕ
date_key none = 0
date_key (some t) = suc t

-- ORDER BY snapshot_taken_at, uploaded_at, id
unfoldable pub date_le : Upload → Upload → Bool
date_le a b =
    ltb (date_key a.snapshot_taken_at) (date_key b.snapshot_taken_at)
    || (date_key a.snapshot_taken_at == date_key b.snapshot_taken_at
        && (ltb a.uploaded_at b.uploaded_at || (a.uploaded_at == b.uploaded_at && leb a.id b.id)))

abbrev pub is_execution_of : ℕ → Upload → Bool
is_execution_of account u = u.account_id == account && is_completed u.status

unfoldable pub executions_by_date : Db → ℕ → List Upload
unfolding date_le sort select
executions_by_date db account = sort date_le (select (is_execution_of account) db.uploads)

unfoldable pub executions_in_date_order : Db → ℕ → List ℕ
unfolding executions_by_date
executions_in_date_order db account = map (λ u. u.id) (executions_by_date db account)

-- UPDATE uploads SET sequence_no = NULL WHERE account_id = ?
unfoldable pub clear_sequence_numbers : ℕ → Db → Db
clear_sequence_numbers account db = record db {
  uploads =
      update_where (λ r. r.account_id == account) (λ r. record r { sequence_no = none }) db.uploads;
}

-- DELETE FROM changes WHERE account_id = ?
unfoldable pub clear_changes : ℕ → Db → Db
clear_changes account db = record db {
  changes = delete_where (λ c. c.account_id == account) db.changes;
}

-- Another row of the account of `r` already holds the number `n`.
unfoldable pub holds_number : List Upload → ℕ → Upload → Bool
holds_number rows n r =
    any (λ o. not (o.id == r.id) && o.account_id == r.account_id && opt_eq o.sequence_no (some n))
      rows

unfoldable pub set_number : ℕ → ℕ → Db → Db
set_number u n db = record db {
  uploads = update_where (λ r. r.id == u) (λ r. record r { sequence_no = some n }) db.uploads;
}

-- The write is refused where it breaks the unique index on (account_id, sequence_no).
unfoldable pub assign_sequence_no : ℕ → ℕ → Db → Result Db
unfolding holds_number set_number
assign_sequence_no u n db =
    if any (λ r. r.id == u && holds_number db.uploads n r) db.uploads
    then err constraint_failed
    else ok (set_number u n db)

-- COUNT(*) of the snapshot rows of one list.
unfoldable pub member_total : List SnapshotMember → ℕ → ListKind → ℕ
member_total rows u k = count (λ m. m.upload_id == u && kind_eq m.list_kind k) rows

unfoldable pub refresh_list_counts : ℕ → Db → Db
unfolding member_total
refresh_list_counts u db = record db {
  upload_lists =
      update_where (λ l. l.upload_id == u)
        (λ l. record l {
          member_count = member_total db.snapshot_members l.upload_id l.list_kind;
          added_count = 0;
          removed_count = 0;
        })
        db.upload_lists;
}

abbrev pub new_change : ℕ → ℕ → ℕ → ListKind → ChangeType → ℕ → SnapshotMember → Change
new_change account u prev k t now m = record {
  account_id = account;
  upload_id = u;
  prev_upload_id = prev;
  user_id = m.user_id;
  change_type = t;
  created_at = now;
  list_kind = k;
  departure_reason = none;
  renamed_to_user_id = none;
  renamed_from_user_id = none;
}

-- The rows that the INSERT ... SELECT reads: in list `k` of `present` and not of `absent`.
unfoldable pub one_sided : List SnapshotMember → ListKind → ℕ → ℕ → List SnapshotMember
one_sided rows k present absent =
    select
      (λ m.
        m.upload_id == present && kind_eq m.list_kind k && not (is_member rows absent k m.user_id))
      rows

-- The rows written, and the new state.
unfoldable pub record_changes : ℕ → ℕ → ℕ → ListKind → ChangeType → ℕ → Db → ℕ × Db
unfolding one_sided
record_changes account u prev k t now db =
    let present = if is_unfollowed t then prev else u in
    let absent = if is_unfollowed t then u else prev in
    let rows = one_sided db.snapshot_members k present absent in
    (
      length rows,
      record db { changes = db.changes ++ map (new_change account u prev k t now) rows },
    )

unfoldable pub update_list_counts : ℕ → ListKind → ℕ → ℕ → Db → Db
update_list_counts u k added removed db = record db {
  upload_lists =
      update_where (λ l. l.upload_id == u && kind_eq l.list_kind k)
        (λ l. record l { added_count = added; removed_count = removed }) db.upload_lists;
}

-- Every kind, in the order of the stored names.
abbrev pub all_kinds : List ListKind
all_kinds =
    blocked ∷ close_friends ∷ favourited ∷ followers ∷ following ∷ pending_requests
    ∷ recent_requests ∷ recently_unfollowed ∷ removed_suggestions ∷ restricted ∷ []

unfoldable pub carries : List UploadList → ℕ → ListKind → Bool
carries rows u k = any (λ l. l.upload_id == u && kind_eq l.list_kind k) rows

-- SELECT list_kind ... INTERSECT SELECT list_kind ... ORDER BY list_kind
unfoldable pub shared_kinds : List UploadList → ℕ → ℕ → List ListKind
unfolding carries
shared_kinds rows u prev = select (λ k. carries rows u k && carries rows prev k) all_kinds

-- The body of the loop over the shared kinds.
unfoldable pub diff_list : ℕ → ℕ → ℕ → ℕ → ListKind → Db → Db
unfolding record_changes update_list_counts
diff_list account u prev now k db =
    let (added, db1) = record_changes account u prev k ChangeType.followed now db in
    let (removed, db2) = record_changes account u prev k ChangeType.unfollowed now db1 in
    update_list_counts u k added removed db2

unfoldable pub diff_lists : ℕ → ℕ → ℕ → ℕ → List ListKind → Db → Db
unfolding diff_list
diff_lists account u prev now [] db = db
diff_lists account u prev now (k ∷ ks) db =
    diff_lists account u prev now ks (diff_list account u prev now k db)

unfoldable pub recompute_lists_between : ℕ → ℕ → ℕ → ℕ → Db → Db
unfolding diff_lists shared_kinds classify_departures
recompute_lists_between account u prev now db =
    classify_departures u prev
      (diff_lists account u prev now (shared_kinds db.upload_lists u prev) db)

-- COALESCE((SELECT column FROM upload_lists WHERE ... list_kind = 'followers'), 0)
abbrev pub column_or_zero : (UploadList → ℕ) → Option UploadList → ℕ
column_or_zero column none = 0
column_or_zero column (some l) = column l

unfoldable pub follower_list : List UploadList → ℕ → Option UploadList
follower_list rows u = find (λ l. l.upload_id == u && kind_eq l.list_kind followers) rows

abbrev pub sync_row : List UploadList → Upload → Upload
sync_row lists r = record r {
  follower_count = column_or_zero (λ l. l.member_count) (follower_list lists r.id);
  added_count = column_or_zero (λ l. l.added_count) (follower_list lists r.id);
  removed_count = column_or_zero (λ l. l.removed_count) (follower_list lists r.id);
}

unfoldable pub sync_follower_columns : ℕ → Db → Db
unfolding follower_list
sync_follower_columns u db = record db {
  uploads = update_where (λ r. r.id == u) (sync_row db.upload_lists) db.uploads;
}

-- The diff against the execution before, which the oldest execution does not have.
abbrev pub diff_against : ℕ → ℕ → Option ℕ → ℕ → Db → Db
diff_against account u none now db = db
diff_against account u (some prev) now db = recompute_lists_between account u prev now db

-- The loop of recomputeAccount: `i` executions are done, and `prev` is the last of them.
unfoldable pub rebuild : ℕ → ℕ → ℕ → Option ℕ → List ℕ → Db → Result Db
unfolding assign_sequence_no refresh_list_counts sync_follower_columns recompute_lists_between
rebuild account now i prev [] db = ok db
rebuild account now i prev (u ∷ us) db = do
  db1 ← assign_sequence_no u (i + 1) db
  rebuild account now (i + 1) (some u) us
      (sync_follower_columns u (diff_against account u prev now (refresh_list_counts u db1)))

unfoldable pub recompute_account : ℕ → ℕ → Db → Result Db
unfolding rebuild executions_in_date_order clear_sequence_numbers clear_changes
recompute_account account now db =
    rebuild account now 0 none (executions_in_date_order db account)
      (clear_changes account (clear_sequence_numbers account db))
