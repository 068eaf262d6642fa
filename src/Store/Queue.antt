-- ===== src/Store/Queue.antt =====
-- internal/store/queries.go: the life of an upload from the queue to its execution, the rereading
-- queue, and the look-ups of executions. A text that the database does not read is passed through.
pub mod Claims
pub mod Settled
pub mod Order
mod Tests
use insta_follower_tracker.Prelude.{
  ℕ, suc, Bool, true, false, not, ◌&&◌, ◌||◌, List, [], ◌∷◌, ◌++◌, Option, none, some, ltb, leb,
  ◌==◌, if◌then◌else◌,
}
use insta_follower_tracker.Prelude.Table.{count, select, find, update_where}
use insta_follower_tracker.Prelude.Sort.{sort}
use insta_follower_tracker.Prelude.Text.{Text}
use insta_follower_tracker.Store.Models.{
  pending, processing, failed, is_completed, is_pending, is_processing, Upload, Db, not_found,
  scan_failed, Result, ok, err, ◌>>=◌,
}
use insta_follower_tracker.Store.Apply.{upload_row, commit}
use insta_follower_tracker.Store.Snapshot.{date_key, date_le}

-- ORDER BY ... LIMIT 1
unfoldable pub first_by : (Upload → Upload → Bool) → List Upload → Option Upload
unfolding sort
first_by le rows = elim (sort le rows) [ [] ↦ none | r ∷ rs ↦ some r ]

pub record NewUpload : Type 0 where
  pub account_id : ℕ
  pub filename : Text
  pub stored_path : Text
  pub sha256 : Text
  pub size_bytes : ℕ
  pub allow_partial : Bool
  pub snapshot_date : Option ℕ

abbrev pub pending_row : ℕ → NewUpload → ℕ → Upload
pending_row id new now = record {
  id = id;
  account_id = new.account_id;
  sequence_no = none;
  original_filename = new.filename;
  stored_path = new.stored_path;
  sha256 = new.sha256;
  size_bytes = new.size_bytes;
  status = pending;
  error_message = [];
  uploaded_at = now;
  started_at = none;
  processed_at = none;
  follower_count = 0;
  added_count = 0;
  removed_count = 0;
  allow_partial = new.allow_partial;
  snapshot_taken_at = none;
  snapshot_source = [];
  snapshot_date_override = new.snapshot_date;
  reprocess_at = none;
}

unfoldable pub create_upload : NewUpload → ℕ → Db → ℕ × Db
create_upload new now db = (
  db.next_upload,
  record db {
    uploads = db.uploads ++ pending_row db.next_upload new now ∷ [];
    next_upload = suc db.next_upload;
  },
)

-- ORDER BY uploaded_at, id
unfoldable pub upload_le : Upload → Upload → Bool
upload_le a b = ltb a.uploaded_at b.uploaded_at || (a.uploaded_at == b.uploaded_at && leb a.id b.id)

unfoldable pub start_upload : ℕ → ℕ → Db → Db
start_upload id now db = record db {
  uploads =
      update_where (λ r. r.id == id) (λ r. record r { status = processing; started_at = some now })
        db.uploads;
}

-- The row is read back once it is claimed; were it missing, that would not be ErrNotFound.
abbrev pub read_back : Option Upload → Result Upload
read_back none = err scan_failed
read_back (some r) = ok r

unfoldable pub claim_next_pending : ℕ → Db → Result Upload × Db
unfolding first_by upload_le start_upload upload_row
claim_next_pending now db =
    elim (first_by upload_le (select (λ r. is_pending r.status) db.uploads)) [
      | none ↦ (err not_found, db)
      | some r ↦ commit db (do
        row ← read_back (upload_row (start_upload r.id now db) r.id)
        ok (row, start_upload r.id now db))
    ]

-- The number of rows returned to the queue, and the new state.
unfoldable pub requeue_processing : Db → ℕ × Db
requeue_processing db = (
  count (λ r. is_processing r.status) db.uploads,
  record db {
    uploads =
        update_where (λ r. is_processing r.status)
          (λ r. record r { status = pending; started_at = none }) db.uploads;
  },
)

unfoldable pub fail_upload : ℕ → Text → ℕ → Db → Db
fail_upload id reason now db = record db {
  uploads =
      update_where (λ r. r.id == id)
        (λ r. record r { status = failed; error_message = reason; processed_at = some now })
        db.uploads;
}

-- Queued or in flight.
unfoldable pub pending_count : Db → ℕ
pending_count db = count (λ r. is_pending r.status || is_processing r.status) db.uploads

-- BoundaryUpload: the least number first, or the greatest.
unfoldable pub number_le : Upload → Upload → Bool
number_le a b = leb (date_key a.sequence_no) (date_key b.sequence_no)

abbrev pub number_ge : Upload → Upload → Bool
number_ge a b = number_le b a

unfoldable pub boundary_upload : Db → ℕ → Bool → Result Upload
unfolding first_by number_le
boundary_upload db account last =
    elim (first_by (if last then number_ge else number_le)
      (select (λ r. r.account_id == account && is_completed r.status) db.uploads)) [
        | none ↦ err not_found
        | some r ↦ ok r
      ]

unfoldable pub completed_upload : Db → ℕ → ℕ → Result Upload
unfolding find
completed_upload db account id =
    elim (find (λ r. r.id == id && r.account_id == account && is_completed r.status) db.uploads) [
      | none ↦ err not_found
      | some r ↦ ok r
    ]

abbrev pub dated_by : ℕ → Option ℕ → Bool
dated_by t none = false
dated_by t (some s) = leb s t

abbrev pub date_ge : Upload → Upload → Bool
date_ge a b = date_le b a

abbrev pub may_precede : ℕ → ℕ → ℕ → Upload → Bool
may_precede account taken_at exclude r =
    r.account_id == account
    && is_completed r.status
    && not (r.id == exclude)
    && dated_by taken_at r.snapshot_taken_at

unfoldable pub preceding_completed_upload : Db → ℕ → ℕ → ℕ → Option Upload
unfolding first_by date_le
preceding_completed_upload db account taken_at exclude =
    first_by date_ge (select (may_precede account taken_at exclude) db.uploads)

abbrev pub is_none : Option ℕ → Bool
is_none none = true
is_none (some t) = false

unfoldable pub mark_for_reprocess : ℕ → ℕ → Db → ℕ × Db
mark_for_reprocess account now db =
    let chosen =
      λ (r : Upload). r.account_id == account && is_completed r.status && is_none r.reprocess_at in
    (
      count chosen db.uploads,
      record db {
        uploads = update_where chosen (λ r. record r { reprocess_at = some now }) db.uploads;
      },
    )

-- ORDER BY reprocess_at, id
unfoldable pub reprocess_le : Upload → Upload → Bool
reprocess_le a b =
    ltb (date_key a.reprocess_at) (date_key b.reprocess_at)
    || (date_key a.reprocess_at == date_key b.reprocess_at && leb a.id b.id)

abbrev pub awaits_reread : Upload → Bool
awaits_reread r = not (is_none r.reprocess_at) && is_completed r.status

unfoldable pub claim_next_reprocess : Db → Option Upload
unfolding first_by reprocess_le
claim_next_reprocess db = first_by reprocess_le (select awaits_reread db.uploads)

unfoldable pub finish_reprocess : ℕ → Db → Db
finish_reprocess id db = record db {
  uploads = update_where (λ r. r.id == id) (λ r. record r { reprocess_at = none }) db.uploads;
}

unfoldable pub reprocess_count : Db → ℕ
reprocess_count db = count (λ r. not (is_none r.reprocess_at)) db.uploads
