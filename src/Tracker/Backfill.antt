-- ===== src/Tracker/Backfill.antt =====
-- internal/tracker/snapshotdate.go: the dates of executions from before dates were kept.
pub mod Dated
use insta_follower_tracker.Prelude.{ℕ, List, [], ◌∷◌, Option, none, some}
use insta_follower_tracker.Prelude.Table.{find}
use insta_follower_tracker.Prelude.Text.{Text, text_eq}
use insta_follower_tracker.Store.Models.{Upload, Db}
use insta_follower_tracker.Store.Apply.{set_snapshot_date}
use insta_follower_tracker.Store.Accounts.Listing.{uploads_with_unknown_snapshot_date}
use insta_follower_tracker.Instagram.Export.{Export}
use insta_follower_tracker.Tracker.SnapshotDate.{source_filename}
use insta_follower_tracker.Tracker.Worker.{StoredFile}

abbrev pub named_by : Option ℕ → Option (ℕ × Text)
named_by none = none
named_by (some t) = some (t, source_filename)

abbrev pub taken_by : Option ℕ → Text → Option ℕ → Option (ℕ × Text)
taken_by none source named = named_by named
taken_by (some t) source named = some (t, source)

-- `parse` is Parse of the instagram package, `filename_date` its FilenameDate, and `now` the clock.
module _ {File : Type 0} (parse : File → Option Export) (filename_date : Text → Option ℕ)
    (now : ℕ) where
  abbrev detected : Option Export → Text → Option (ℕ × Text)
  detected none filename = none
  detected (some e) filename = taken_by e.taken_at e.taken_at_source (filename_date filename)

  abbrev detected_in : Option (StoredFile File) → Text → Option (ℕ × Text)
  detected_in none filename = none
  detected_in (some s) filename = detected (parse s.content) filename

  unfoldable pub detect_snapshot_date : List (StoredFile File) → Upload → Option (ℕ × Text)
  unfolding find text_eq
  detect_snapshot_date files up =
      detected_in (find (λ s. text_eq s.path up.stored_path) files) up.original_filename

  -- An update that fails leaves the tables as they were.
  abbrev corrected : Option (ℕ × Text) → Upload → Db → Db
  corrected none up db = db
  corrected (some (t, source)) up db = (set_snapshot_date up.id t source now db).1

  unfoldable pub backfill_uploads : List (StoredFile File) → List Upload → Db → Db
  unfolding detect_snapshot_date set_snapshot_date
  backfill_uploads files [] db = db
  backfill_uploads files (up ∷ ups) db =
      backfill_uploads files ups (corrected (detect_snapshot_date files up) up db)

  unfoldable pub backfill_snapshot_dates : List (StoredFile File) → Db → Db
  unfolding backfill_uploads uploads_with_unknown_snapshot_date
  backfill_snapshot_dates files db =
      backfill_uploads files (uploads_with_unknown_snapshot_date db) db
