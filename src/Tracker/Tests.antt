-- ===== src/Tracker/Tests.antt =====
-- The theorems of the tracker at concrete inputs.
use insta_follower_tracker.Prelude.{
  Bool, refl, ◌+◌, ◌&&◌, ◌==◌, ℕ, [], ◌∷◌, Option, ◌≡◌, arith, ◌⊎◌, true, false, ◌-◌, none, some,
  ◌↔◌,
}
use insta_follower_tracker.Store.Models.{completed, Upload}
use insta_follower_tracker.Prelude.Text.{Text, codes, text_eq}
use insta_follower_tracker.Prelude.Table.{any, count}
use insta_follower_tracker.Store.Models.{followers}
use insta_follower_tracker.Store.Queue.{pending_count, requeue_processing}
use insta_follower_tracker.Prelude.Table.{update_where}
use insta_follower_tracker.Store.Models.{Db, kind_eq}
use insta_follower_tracker.Store.Snapshot.Order.{IsKeyed}
use insta_follower_tracker.Store.Apply.Uploads.{IsStable}
use insta_follower_tracker.Store.Accounts.Listing.{uploads_with_unknown_snapshot_date}
use insta_follower_tracker.Tracker.Backfill.{backfill_snapshot_dates}
use insta_follower_tracker.Tracker.Backfill.Dated.{dated_by_all, backfill_snapshot_dates-count}
use insta_follower_tracker.Store.Samples.{upload_at, sample, sample-IsKeyed}
use insta_follower_tracker.Instagram.Export.{Follower, Export}
use insta_follower_tracker.Store.Models.{is_completed, Account, ok}
use insta_follower_tracker.Store.Queue.{is_none, mark_for_reprocess, reprocess_count}
use insta_follower_tracker.Store.Accounts.{account_by_handle}
use insta_follower_tracker.Tracker.Reprocess.{reprocess, reprocess-queued}
use insta_follower_tracker.Tracker.Worker.{ProcessError, World, drain}
use insta_follower_tracker.Tracker.Worker.Drain.{
  IsDrained, drain-IsDrained, restarted, restart-pending_count,
}
use insta_follower_tracker.Tracker.Coverage.{
  Refusal, collapsed, check_coverage, IsCollapse, check_coverage-refusal,
}

abbrev hundred : Upload
hundred = record (upload_at 1 completed (some 100) 10) { follower_count = 100 }

check_coverage-refusal_example :
    (((r : Refusal) × (check_coverage false 30 (some hundred) false ≡ some r))
      ↔ ((false ≡ false) × ((false ≡ true) ⊎ IsCollapse 30 100)))
    × (false ≡ false
        → false ≡ false
        → IsCollapse 30 100
        → check_coverage false 30 (some hundred) false ≡ some (collapsed 30 100 (100 - 30)))
check_coverage-refusal_example = check_coverage-refusal false 30 hundred false

-- A reader that finds the same three followers in every file.
abbrev seen : Text → Follower
seen name = record { username = name; href = []; followed_at = some 50 }

abbrev small_export : Export
small_export = record {
  lists =
      record {
        kind = followers;
        entries = seen (codes "eva") ∷ seen (codes "rui") ∷ seen (codes "new") ∷ [];
      }
      ∷ [];
  partial = false;
  taken_at = some 250;
  taken_at_source = codes "archive";
  owner = [];
}

abbrev parse_any : ℕ → Option Export
parse_any n = some small_export

abbrev no_filename_date : Text → Option ℕ
no_filename_date s = none

abbrev no_words : ProcessError → Text
no_words e = []

abbrev sample_world : World ℕ
sample_world = record {
  db = sample;
  files = record { path = codes "uploads/export.zip"; content = 1 } ∷ [];
}

drain-IsDrained_example :
    IsDrained sample (drain parse_any no_filename_date no_words true 500 501 5 sample_world).db
unfolding count
drain-IsDrained_example =
    drain-IsDrained parse_any no_filename_date no_words true 500 501 5 sample_world sample-IsKeyed
      (ground arith)

restart-pending_count_example :
    pending_count (restarted parse_any no_filename_date no_words true 500 501 5 sample_world).db ≡ 0
unfolding count requeue_processing
restart-pending_count_example =
    restart-pending_count parse_any no_filename_date no_words true 500 501 5 sample_world
      sample-IsKeyed (ground arith)

reprocess_run : reprocess (codes "@ana") 600 sample ≡ (ok 3, (mark_for_reprocess 1 600 sample).1)
unfolding reprocess count text_eq
reprocess_run = refl

reprocess-queued_example :
    (a : Account) × (account_by_handle (codes "@ana") sample ≡ ok a)
    × (any
          (λ r. r.account_id == a.id && is_completed r.status && is_none r.reprocess_at)
          (mark_for_reprocess 1 600 sample).1.uploads
        ≡ false)
    × (reprocess_count (mark_for_reprocess 1 600 sample).1 ≡ reprocess_count sample + 3)
reprocess-queued_example =
    reprocess-queued (codes "@ana") 3 600 sample (mark_for_reprocess 1 600 sample).1 reprocess_run

abbrev of_backfill : Upload → Bool
of_backfill r = text_eq r.snapshot_source (codes "archive")

of_backfill-IsStable : IsStable of_backfill
of_backfill-IsStable = record { numbers = λ r n. refl; counts = λ r lists. refl }

-- The second upload stands by the order of processing, and its file says when it was made.
abbrev undated : Db
undated = record sample {
  uploads =
      update_where (λ r. r.id == 2) (λ r. record r { snapshot_source = codes "processing order" })
        sample.uploads;
}

undated-IsKeyed : IsKeyed undated.uploads
unfolding count
undated-IsKeyed x = ground arith

backfill_snapshot_dates-count_example :
    count of_backfill
      (backfill_snapshot_dates parse_any no_filename_date 500 sample_world.files undated).uploads
    ≡ count
        (λ r. of_backfill (
          dated_by_all parse_any no_filename_date 500 sample_world.files
            (uploads_with_unknown_snapshot_date undated)
            r))
        undated.uploads
backfill_snapshot_dates-count_example =
    backfill_snapshot_dates-count parse_any no_filename_date 500 sample_world.files of_backfill
      undated of_backfill-IsStable undated-IsKeyed

backfill_run :
    count of_backfill
      (backfill_snapshot_dates parse_any no_filename_date 500 sample_world.files undated).uploads
    ≡ 1
unfolding backfill_snapshot_dates count text_eq any kind_eq
backfill_run = refl
