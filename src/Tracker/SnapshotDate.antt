-- ===== src/Tracker/SnapshotDate.antt =====
-- internal/tracker/snapshotdate.go: when an export was generated.
use insta_follower_tracker.Prelude.{ℕ, Option, none, some}
use insta_follower_tracker.Prelude.Text.{Text, codes}
use insta_follower_tracker.Instagram.Export.{Export}

abbrev pub source_manual : Text
source_manual = codes "entered manually"

abbrev pub source_filename : Text
source_filename = codes "archive file name"

abbrev pub source_upload : Text
source_upload = codes "upload time"

-- A time that is zero is none.
abbrev pub by_filename : Option ℕ → ℕ → ℕ × Text
by_filename none uploaded_at = (uploaded_at, source_upload)
by_filename (some t) uploaded_at = (t, source_filename)

abbrev pub by_export : Option ℕ → Text → Option ℕ → ℕ → ℕ × Text
by_export none source named uploaded_at = by_filename named uploaded_at
by_export (some t) source named uploaded_at = (t, source)

abbrev pub by_hand : Option ℕ → Option ℕ → Text → Option ℕ → ℕ → ℕ × Text
by_hand none taken source named uploaded_at = by_export taken source named uploaded_at
by_hand (some t) taken source named uploaded_at = (t, source_manual)

-- `filename_date` is FilenameDate of the instagram package.
unfoldable pub resolve_snapshot_date : (Text → Option ℕ) → Export → Text → Option ℕ → ℕ → ℕ × Text
resolve_snapshot_date filename_date export filename manual uploaded_at =
    by_hand manual export.taken_at export.taken_at_source (filename_date filename) uploaded_at
