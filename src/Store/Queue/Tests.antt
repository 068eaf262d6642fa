-- ===== src/Store/Queue/Tests.antt =====
-- The queues at the sample database.
use insta_follower_tracker.Prelude.{◌+◌, ◌≡◌, refl, true, none, some}
use insta_follower_tracker.Prelude.Table.{select}
use insta_follower_tracker.Prelude.In.{In}
use insta_follower_tracker.Store.Models.{Status, pending, is_pending, Upload, ok}
use insta_follower_tracker.Store.Queue.{
  start_upload, claim_next_pending, mark_for_reprocess, reprocess_count,
}
use insta_follower_tracker.Store.Queue.Order.{
  IsOlder, claim_next_pending-oldest, mark_for_reprocess-count,
}
use insta_follower_tracker.Store.Samples.{sample, upload_at}

abbrev four_started : Upload
four_started = record (upload_at 4 pending none 40) {
  status = Status.processing;
  started_at = some 500;
}

claim_run : claim_next_pending 500 sample ≡ (ok four_started, start_upload 4 500 sample)
unfolding claim_next_pending select
claim_run = refl

claim_next_pending-oldest_example :
    (row : Upload) × In row sample.uploads
    × (is_pending row.status ≡ true)
    × (4 ≡ row.id)
    × ((a : Upload) → In a sample.uploads → is_pending a.status ≡ true → IsOlder row a)
claim_next_pending-oldest_example =
    claim_next_pending-oldest 500 sample (start_upload 4 500 sample) four_started claim_run

mark_for_reprocess-count_example :
    reprocess_count (mark_for_reprocess 1 600 sample).1
    ≡ reprocess_count sample + (mark_for_reprocess 1 600 sample).0
mark_for_reprocess-count_example = mark_for_reprocess-count 1 600 sample
