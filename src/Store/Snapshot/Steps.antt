-- ===== src/Store/Snapshot/Steps.antt =====
-- The loop of recomputeAccount without the check of the unique index, for the proofs.
use insta_follower_tracker.Prelude.{ℕ, ◌+◌, Option, none, some, List, [], ◌∷◌}
use insta_follower_tracker.Store.Models.{Db}
use insta_follower_tracker.Store.Snapshot.{
  clear_changes, clear_sequence_numbers, executions_in_date_order, set_number, refresh_list_counts,
  diff_against, sync_follower_columns,
}

-- One round of the loop, given that the number is free.
unfoldable pub round : ℕ → ℕ → ℕ → Option ℕ → ℕ → Db → Db
round account now i prev u db =
    sync_follower_columns u
      (diff_against account u prev now (refresh_list_counts u (set_number u (i + 1) db)))

unfoldable pub rounds : ℕ → ℕ → ℕ → Option ℕ → List ℕ → Db → Db
rounds account now i prev [] db = db
rounds account now i prev (u ∷ us) db =
    rounds account now (i + 1) (some u) us (round account now i prev u db)

unfoldable pub recomputed : ℕ → ℕ → Db → Db
recomputed account now db =
    rounds account now 0 none (executions_in_date_order db account)
      (clear_changes account (clear_sequence_numbers account db))
