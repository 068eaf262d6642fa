-- ===== src/Store/Apply/Total.antt =====
-- ApplySnapshot on an upload that exists: it succeeds, and reports the row that it leaves.
use insta_follower_tracker.Prelude.{
  ℕ, ◌≡◌, refl, ◌∙◌, ap, subst, Bool, List, some, arith, ◌==◌, ==_refl, if◌then◌else◌,
}
use insta_follower_tracker.Prelude.In.{In, In-find, In-map_of, find_of_In, any_of_In, unique_row}
use insta_follower_tracker.Prelude.Text.{Text}
use insta_follower_tracker.Store.Models.{completed, Upload, Db, ListSnapshot, ok}
use insta_follower_tracker.Store.Snapshot.{executions_in_date_order}
use insta_follower_tracker.Store.Snapshot.Steps.{recomputed}
use insta_follower_tracker.Store.Snapshot.Numbering.{position}
use insta_follower_tracker.Store.Snapshot.Neighbours.{position_of_any}
use insta_follower_tracker.Store.Snapshot.Order.{IsKeyed, executions_in_date_order-any}
use insta_follower_tracker.Store.Snapshot.Rebuild.{recompute_account-recomputed}
use insta_follower_tracker.Store.Snapshot.Rows.{recomputed-SameRows}
use insta_follower_tracker.Store.Apply.{
  SnapshotResult, upload_row, completed_row, apply_body, apply_snapshot, snapshot_result,
  predecessor,
}
use insta_follower_tracker.Store.Apply.Uploads.{
  prepared, completed_rows, prepared-uploads, prepared-IsKeyed, recomputed-count,
}

module _ (row : Upload) (lists : List ListSnapshot) (taken_at : ℕ) (source : Text) (now later : ℕ)
    (db : Db) (keyed : IsKeyed db.uploads) (stored : In row db.uploads) where
  start : Db
  start = prepared row.account_id row.id lists taken_at source now db

  final : Db
  final = recomputed row.account_id later start

  start-IsKeyed : IsKeyed start.uploads
  unfolding start
  start-IsKeyed = prepared-IsKeyed row.account_id row.id lists taken_at source now db keyed

  -- The row of the upload, completed, stands in the state that is rebuilt.
  start-row : In (completed_row now taken_at source row) start.uploads
  unfolding start
  start-row = rw (prepared-uploads row.account_id row.id lists taken_at source now db) (
      subst
        (λ (b : Bool).
          In (if b then completed_row now taken_at source row else row)
            (completed_rows row.id now taken_at source db.uploads))
        (==_refl row.id)
        (In-map_of (λ r. if r.id == row.id then completed_row now taken_at source r else r) row
          db.uploads stored))

  final-IsKeyed : IsKeyed final.uploads
  unfolding final
  final-IsKeyed x =
      rw
        (recomputed-count (λ r. r.id == x) (record { numbers = λ r n. refl; counts = λ r ls. refl })
          row.account_id later start)
        (start-IsKeyed x)

  -- The place of the upload in the date order.
  placed : (n : ℕ) × (position (executions_in_date_order start row.account_id) row.id ≡ some n)
  placed = position_of_any (executions_in_date_order start row.account_id) row.id (
      executions_in_date_order-any start row.account_id row.id
      ∙ any_of_In _ (completed_row now taken_at source row) start.uploads start-row
          (ground (arith, ==_refl row.id, ==_refl row.account_id)))

  -- The row that is read back.
  final-row :
      (r : Upload) × (upload_row final row.id ≡ some r)
      × (r.id ≡ row.id)
      × (r.status ≡ completed)
      × (r.sequence_no ≡ position (executions_in_date_order start row.account_id) row.id)
  unfolding final upload_row
  final-row =
      let (r', m, same) =
        (recomputed-SameRows row.account_id later start).forth
          (completed_row now taken_at source row) start-row in
      let (r, found) =
        find_of_In (λ t. t.id == row.id) r' final.uploads m (ground (arith, same.id)) in
      let (k, id) = In-find (λ t. t.id == row.id) r final.uploads found in
      let one =
        unique_row (λ t. t.id == row.id) r r' final.uploads (final-IsKeyed row.id) k m id
          (ground (arith, same.id)) in
      let place =
        (recompute_account-recomputed row.account_id later start start-IsKeyed).1 r k
          (ground (arith, one, same.account)) in
      (
        r,
        found,
        ground arith,
        ground (arith, one, same.status),
        place ∙ ap (position (executions_in_date_order start row.account_id)) (ground arith),
      )

  first_row : upload_row db row.id ≡ some row
  unfolding upload_row
  first_row =
      let (r, found) = find_of_In (λ t. t.id == row.id) row db.uploads stored (==_refl row.id) in
      let (k, id) = In-find (λ t. t.id == row.id) r db.uploads found in
      found
      ∙ ap some (
          unique_row (λ t. t.id == row.id) r row db.uploads (keyed row.id) k stored id
            (==_refl row.id))

  apply_snapshot-final :
      (result : SnapshotResult) (r : Upload)
      → upload_row final row.id ≡ some r
      → snapshot_result r (predecessor row.id final.changes) r.sequence_no ≡ ok result
      → apply_snapshot row.id lists taken_at source now later db ≡ (ok result, final)
  unfolding apply_snapshot apply_body final start
  apply_snapshot-final result r found e =
      ground (
        arith,
        first_row,
        (recompute_account-recomputed row.account_id later start start-IsKeyed).0,
      )

-- Where the ids of uploads are distinct, recording an upload that exists succeeds. The row of the upload is then completed and
-- has a number, and the result reports the number and the counts of that row; it is a baseline
-- exactly if the number is 1.
pub apply_snapshot_total :
    (row : Upload) (lists : List ListSnapshot) (taken_at : ℕ) (source : Text) (now later : ℕ)
    (db : Db)
    → IsKeyed db.uploads
    → In row db.uploads
    → (result : SnapshotResult) × (db' : Db) × (r : Upload) × (apply_snapshot row.id lists taken_at
          source now later db
        ≡ (ok result, db'))
      × (upload_row db' row.id ≡ some r)
      × (r.status ≡ completed)
      × (r.sequence_no ≡ some result.sequence_no)
      × (result.follower_count ≡ r.follower_count)
      × (result.is_baseline ≡ (result.sequence_no == 1))
apply_snapshot_total row lists taken_at source now later db keyed stored =
    let (n, e) = placed row lists taken_at source now later db keyed stored in
    let (r, found, id, status, number) =
      final-row row lists taken_at source now later db keyed stored in
    let after = final row lists taken_at source now later db keyed stored in
    let result : SnapshotResult = record {
      upload_id = r.id;
      sequence_no = n;
      prev_upload_id = predecessor row.id after.changes;
      follower_count = r.follower_count;
      added_count = r.added_count;
      removed_count = r.removed_count;
      is_baseline = n == 1;
    } in
    (
      result,
      after,
      r,
      apply_snapshot-final row lists taken_at source now later db keyed stored result r found
          (rw (number ∙ e)),
      found,
      status,
      number ∙ e,
      refl,
      refl,
    )
