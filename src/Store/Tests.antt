-- ===== src/Store/Tests.antt =====
-- Runs of the model on the sample database, and the theorems at it.
use insta_follower_tracker.Prelude.{
  ℕ, ◌≤◌, ◌≡◌, refl, inl, inr, true, not, ◌&&◌, List, [], ◌∷◌, ◌++◌, none, some, arith, ◌==◌, ◌↔◌,
}
use insta_follower_tracker.Prelude.Table.{any, count, select, find}
use insta_follower_tracker.Prelude.In.{In}
use insta_follower_tracker.Prelude.Sort.{sort}
use insta_follower_tracker.Prelude.Text.{codes}
use insta_follower_tracker.Store.Models.{
  ChangeType, unknown, pending, followers, kind_eq, completed, Upload, Change, Db, ListSnapshot, ok,
}
use insta_follower_tracker.Store.Departure.{
  is_member, Rename, timed_changes, renames, is_departure, classify_departures,
}
use insta_follower_tracker.Store.Departure.Reasons.{expected, classify_departures-expected}
use insta_follower_tracker.Store.Departure.Renames.{
  gone, arrived, IsMatch, renames-IsMatch, renames-injective,
}
use insta_follower_tracker.Store.Snapshot.{
  executions_in_date_order, sync_follower_columns, recompute_lists_between, refresh_list_counts,
  set_number, clear_changes, clear_sequence_numbers, recompute_account,
}
use insta_follower_tracker.Store.Snapshot.Changes.{Key, is_recorded}
use insta_follower_tracker.Store.Snapshot.History.{described}
use insta_follower_tracker.Store.Snapshot.Steps.{recomputed, rounds, round}
use insta_follower_tracker.Store.Snapshot.Rebuild.{
  recompute_account-recomputed, recompute_account-recorded,
}
use insta_follower_tracker.Store.Snapshot.Ranked.{number_of_row, recompute_account-number}
use insta_follower_tracker.Store.Apply.{SnapshotResult, upload_row, apply_snapshot}
use insta_follower_tracker.Store.Apply.Total.{apply_snapshot_total}
use insta_follower_tracker.Store.Diff.{Follower, NetDiff, follower, diff, unfollowed_within}
use insta_follower_tracker.Store.Diff.Buckets.{seen_between, shows, is_shown, diff-shown}
use insta_follower_tracker.Store.Diff.Accounted.{IsHistory, diff_accounts_for_unfollows}
use insta_follower_tracker.Store.Diff.Rebuilt.{recompute_account-IsHistory}
use insta_follower_tracker.Store.Samples.{
  sample, rebuilt, upload_at, user_named, sample-IsKeyed, sample-IsOwned,
}

order_run : executions_in_date_order sample 1 ≡ 2 ∷ 1 ∷ 3 ∷ []
unfolding executions_in_date_order
order_run = refl

rebuilt_lem : recompute_account 1 400 sample ≡ ok rebuilt
rebuilt_lem = (recompute_account-recomputed 1 400 sample sample-IsKeyed).0

abbrev six_left : Key
six_left = record {
  account = 1;
  upload = 1;
  prev = 2;
  kind = followers;
  type = ChangeType.unfollowed;
  user = 6;
}

recompute_account-recorded_example :
    is_recorded six_left rebuilt.changes
    ≡ described six_left 1 none
        (executions_in_date_order sample 1)
        sample.upload_lists
        sample.snapshot_members
recompute_account-recorded_example =
    recompute_account-recorded 1 400 sample rebuilt six_left sample-IsKeyed rebuilt_lem

recompute_account-number_example :
    (db' : Db) × (recompute_account 1 400 sample ≡ ok db')
    × ((r' : Upload)
        → In r' db'.uploads
        → r'.account_id ≡ 1
        → (r : Upload) × In r sample.uploads
          × (r'.id ≡ r.id)
          × (r'.status ≡ r.status)
          × (r'.sequence_no ≡ number_of_row sample 1 r))
recompute_account-number_example = recompute_account-number 1 400 sample sample-IsKeyed

-- The upload of the later date but the lesser id is second.
number_of_row_run : number_of_row sample 1 (upload_at 1 completed (some 200) 10) ≡ some 2
unfolding number_of_row count
number_of_row_run = refl

recompute_account-IsHistory_example : IsHistory rebuilt 1
recompute_account-IsHistory_example =
    recompute_account-IsHistory 1 400 sample rebuilt sample-IsKeyed sample-IsOwned rebuilt_lem

-- The changes of execution 1 before they are classified: 6 and 7 left, 8 came.
abbrev crossing : ChangeType → ℕ → Change
crossing type x = record {
  account_id = 1;
  upload_id = 1;
  prev_upload_id = 2;
  user_id = x;
  change_type = type;
  created_at = 400;
  list_kind = followers;
  departure_reason = none;
  renamed_to_user_id = none;
  renamed_from_user_id = none;
}

abbrev unclassified : Db
unclassified = record sample {
  changes =
      crossing ChangeType.unfollowed 6
      ∷ crossing ChangeType.unfollowed 7
      ∷ crossing ChangeType.followed 8
      ∷ [];
}

unclassified_lem :
    (c : Change) → In c unclassified.changes → is_departure 1 c ≡ true → c.departure_reason ≡ none
unclassified_lem c (inl e) h = cc e
unclassified_lem c (inr (inl e)) h = cc e
unclassified_lem c (inr (inr (inl e))) h = cc e
unclassified_lem c (inr (inr (inr m))) h = absurd m

abbrev six_classified : Change
six_classified = record (crossing ChangeType.unfollowed 6) { departure_reason = some unknown }

six_stored : In six_classified (classify_departures 1 2 unclassified).changes
unfolding classify_departures count kind_eq select
six_stored = inl refl

classify_departures-expected_example : some unknown ≡ some (expected 1 2 unclassified 6)
unfolding kind_eq
classify_departures-expected_example =
    classify_departures-expected 1 2 unclassified six_classified unclassified_lem six_stored refl

abbrev old_to_new : Rename
old_to_new = record { from = 7; to = 8 }

renames-IsMatch_example :
    In old_to_new (renames 1 2 unclassified)
    ↔ ((t : ℕ) × IsMatch (gone 1 2 unclassified) (arrived 1 unclassified) 7 8 t)
renames-IsMatch_example = renames-IsMatch 1 2 unclassified old_to_new

arrived_lem : (x : ℕ) → count (λ a. a.user_id == x) (arrived 1 unclassified) ≤ 1
unfolding count timed_changes kind_eq
arrived_lem x = ground arith

old_to_new_found : In old_to_new (renames 1 2 unclassified)
unfolding renames kind_eq count select
old_to_new_found = inl refl

renames-injective_example : old_to_new ≡ old_to_new
renames-injective_example =
    renames-injective 1 2 unclassified old_to_new old_to_new arrived_lem old_to_new_found
      old_to_new_found refl

abbrev rebuilt_two : Upload
rebuilt_two = record (upload_at 2 completed (some 100) 20) {
  sequence_no = some 1;
  follower_count = 3;
}

abbrev rebuilt_three : Upload
rebuilt_three = record (upload_at 3 completed (some 300) 30) {
  sequence_no = some 3;
  follower_count = 3;
  added_count = 1;
}

abbrev sample_diff : NetDiff
sample_diff = record {
  list_kind = followers;
  from = rebuilt_two;
  to = rebuilt_three;
  lost = follower (user_named 7 (codes "old")) ∷ [];
  gained = follower (user_named 8 (codes "new")) ∷ [];
  returned = follower (user_named 6 (codes "rui")) ∷ [];
  transient = [];
}

sample_diff_run : diff rebuilt 1 rebuilt_two rebuilt_three none ≡ ok sample_diff
unfolding diff recomputed count kind_eq sort select rounds executions_in_date_order round
    sync_follower_columns recompute_lists_between any refresh_list_counts set_number clear_changes
    clear_sequence_numbers
sample_diff_run = refl

rebuilt_two_stored : In rebuilt_two rebuilt.uploads
unfolding recomputed find sort select rounds executions_in_date_order round sync_follower_columns
    recompute_lists_between any refresh_list_counts set_number clear_changes clear_sequence_numbers
    count kind_eq
rebuilt_two_stored = inr (inl refl)

rui_stored : In (user_named 6 (codes "rui")) rebuilt.users
unfolding recomputed rounds executions_in_date_order round sync_follower_columns
    recompute_lists_between any refresh_list_counts set_number clear_changes clear_sequence_numbers
    kind_eq
rui_stored = inr (inl refl)

abbrev rui : Follower
rui = follower (user_named 6 (codes "rui"))

rui_left : unfollowed_within rebuilt 1 followers 1 3 6 ≡ true
unfolding unfollowed_within find sort select count recomputed rounds executions_in_date_order round
    sync_follower_columns recompute_lists_between any refresh_list_counts set_number clear_changes
    clear_sequence_numbers kind_eq is_member
rui_left = refl

diff_accounts_for_unfollows_example :
    any
      (shows rui)
      (sample_diff.lost ++ sample_diff.gained ++ sample_diff.returned ++ sample_diff.transient)
    ≡ true
diff_accounts_for_unfollows_example =
    diff_accounts_for_unfollows rebuilt 1 rebuilt_two rebuilt_three none 1 3 sample_diff
      (user_named 6 (codes "rui")) recompute_account-IsHistory_example rebuilt_two_stored refl refl
      refl sample_diff_run rui_stored rui_left

diff-shown_example :
    let first = is_member rebuilt.snapshot_members 2 followers in
    let last = is_member rebuilt.snapshot_members 3 followers in
    (any (shows rui) sample_diff.lost ≡ is_shown rebuilt rui (λ x. first x && not (last x)))
    × (any (shows rui) sample_diff.gained ≡ is_shown rebuilt rui (λ x. last x && not (first x)))
    × (any (shows rui) sample_diff.returned
        ≡ is_shown rebuilt rui
            (λ x. first x && (last x && unfollowed_within rebuilt 1 followers 1 3 x)))
    × (any (shows rui) sample_diff.transient
        ≡ is_shown rebuilt rui
            (λ x. seen_between rebuilt 1 followers 1 3 x && (not (first x) && not (last x))))
diff-shown_example =
    diff-shown rebuilt 1 rebuilt_two rebuilt_three none 1 3 sample_diff rui refl refl
      sample_diff_run

abbrev waiting : Upload
waiting = upload_at 4 pending none 40

abbrev new_lists : List ListSnapshot
new_lists =
    record {
      kind = followers;
      members = record { username = codes "eva"; href = []; followed_at = some 50 } ∷ [];
    }
    ∷ []

apply_snapshot_total_example :
    (result : SnapshotResult) × (db' : Db) × (r : Upload) × (apply_snapshot 4 new_lists 250
        (codes "entered manually")
        500
        501
        sample
      ≡ (ok result, db'))
    × (upload_row db' 4 ≡ some r)
    × (r.status ≡ completed)
    × (r.sequence_no ≡ some result.sequence_no)
    × (result.follower_count ≡ r.follower_count)
    × (result.is_baseline ≡ (result.sequence_no == 1))
apply_snapshot_total_example =
    apply_snapshot_total waiting new_lists 250 (codes "entered manually") 500 501 sample
      sample-IsKeyed (inr (inr (inr (inl refl))))
