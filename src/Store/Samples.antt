-- ===== src/Store/Samples.antt =====
-- A small database: account 1 with three executions, uploaded out of date order, and users who
-- leave, return and change their name.
use insta_follower_tracker.Prelude.{ℕ, false, [], ◌∷◌, Option, none, some, arith}
use insta_follower_tracker.Prelude.Table.{count}
use insta_follower_tracker.Prelude.Text.{Text, codes}
use insta_follower_tracker.Store.Models.{
  Status, completed, pending, ListKind, followers, following, User, Upload, SnapshotMember,
  UploadList, Db,
}
use insta_follower_tracker.Store.Snapshot.Order.{IsKeyed}
use insta_follower_tracker.Store.Snapshot.Steps.{recomputed}
use insta_follower_tracker.Store.Diff.Rebuilt.{IsOwned}

abbrev pub upload_at : ℕ → Status → Option ℕ → ℕ → Upload
upload_at id status taken_at uploaded_at = record {
  id = id;
  account_id = 1;
  sequence_no = none;
  original_filename = codes "export.zip";
  stored_path = codes "uploads/export.zip";
  sha256 = [];
  size_bytes = 10;
  status = status;
  error_message = [];
  uploaded_at = uploaded_at;
  started_at = none;
  processed_at = none;
  follower_count = 0;
  added_count = 0;
  removed_count = 0;
  allow_partial = false;
  snapshot_taken_at = taken_at;
  snapshot_source = [];
  snapshot_date_override = none;
  reprocess_at = none;
}

abbrev pub member : ℕ → ListKind → ℕ → Option ℕ → SnapshotMember
member u k x t = record { upload_id = u; list_kind = k; user_id = x; followed_at = t }

abbrev pub list_of : ℕ → ListKind → UploadList
list_of u k = record {
  upload_id = u;
  list_kind = k;
  member_count = 0;
  added_count = 0;
  removed_count = 0;
}

abbrev pub user_named : ℕ → Text → User
user_named id name = record { id = id; account_id = 1; username = name; href = [] }

-- By date the executions are 2, 1 and 3; upload 4 still waits. User 5 follows throughout, 6 leaves
-- and returns, 7 becomes 8.
abbrev pub sample : Db
sample = record {
  accounts = record { id = 1; handle = codes "ana"; created_at = 1 } ∷ [];
  users =
      user_named 5 (codes "eva")
      ∷ user_named 6 (codes "rui")
      ∷ user_named 7 (codes "old")
      ∷ user_named 8 (codes "new")
      ∷ [];
  uploads =
      upload_at 1 completed (some 200) 10
      ∷ upload_at 2 completed (some 100) 20
      ∷ upload_at 3 completed (some 300) 30
      ∷ upload_at 4 pending none 40
      ∷ [];
  snapshot_members =
      member 2 followers 5 (some 50)
      ∷ member 2 followers 6 (some 60)
      ∷ member 2 followers 7 (some 70)
      ∷ member 1 followers 5 (some 50)
      ∷ member 1 followers 8 (some 70)
      ∷ member 3 followers 5 (some 50)
      ∷ member 3 followers 6 (some 80)
      ∷ member 3 followers 8 (some 70)
      ∷ member 3 following 5 none
      ∷ [];
  upload_lists =
      list_of 1 followers ∷ list_of 2 followers ∷ list_of 3 followers ∷ list_of 3 following ∷ [];
  changes = [];
  next_account = 2;
  next_user = 9;
  next_upload = 5;
}

abbrev pub rebuilt : Db
rebuilt = recomputed 1 400 sample

pub sample-IsKeyed : IsKeyed sample.uploads
unfolding count
sample-IsKeyed x = ground arith

pub sample-IsOwned : IsOwned sample
sample-IsOwned c u m n e = absurd m
