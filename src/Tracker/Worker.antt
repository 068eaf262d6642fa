-- ===== src/Tracker/Worker.antt =====
-- internal/tracker/worker.go and reprocess.go: the worker takes uploads from the queue in the
-- database, reads the stored file, and records the execution or the failure.
pub mod Progress
pub mod Drain
use insta_follower_tracker.Prelude.{
  ℕ, zero, suc, Bool, true, false, List, map, Option, none, some, length, if◌then◌else◌,
}
use insta_follower_tracker.Prelude.Table.{find, delete_where}
use insta_follower_tracker.Prelude.Text.{Text, text_eq}
use insta_follower_tracker.Store.Models.{
  Upload, Db, Member, ListSnapshot, StoreError, Result, ok, err,
}
use insta_follower_tracker.Store.Apply.{SnapshotResult, apply_snapshot}
use insta_follower_tracker.Store.Queue.{
  claim_next_pending, fail_upload, preceding_completed_upload, claim_next_reprocess,
  finish_reprocess,
}
use insta_follower_tracker.Instagram.Export.{Follower, Export, members_of, followers_of, kinds}
use insta_follower_tracker.Tracker.Coverage.{Refusal, check_coverage}
use insta_follower_tracker.Tracker.SnapshotDate.{resolve_snapshot_date}

pub data ProcessError : Type 0 where
  open_failed parse_failed : ProcessError
  partial_export : Refusal → ProcessError
  store_failed : StoreError → ProcessError

pub data Outcome {ℓ} (A : Type ℓ) : Type ℓ where
  done : A → Outcome A
  broken : ProcessError → Outcome A

infixl 5 ◌>>=◌ ◌>>◌
abbrev pub ◌>>=◌ {ℓ κ} : {A : Type ℓ} {B : Type κ} → Outcome A → (A → Outcome B) → Outcome B
done a >>= f = f a
broken e >>= f = broken e

abbrev pub ◌>>◌ {ℓ} : {B : Type ℓ} → Outcome (Unit {0}) → Outcome B → Outcome B
m >> k = m >>= λ _. k

pub record StoredFile (File : Type 0) : Type 0 where
  pub path : Text
  pub content : File

-- The database and the upload directory.
pub record World (File : Type 0) : Type 0 where
  pub db : Db
  pub files : List (StoredFile File)

abbrev pub to_member : Follower → Member
to_member f = record { username = f.username; href = f.href; followed_at = f.followed_at }

unfoldable pub list_snapshots : Export → List ListSnapshot
unfolding kinds members_of
list_snapshots e =
    map (λ k. record { kind = k; members = map to_member (members_of e k) }) (kinds e)

-- `parse` is Parse of the instagram package, `filename_date` its FilenameDate, and `describe` the
-- text of an error. `now` and `later` are readings of the clock.
module _ {File : Type 0} (parse : File → Option Export) (filename_date : Text → Option ℕ)
    (describe : ProcessError → Text) (retain_uploads : Bool) (now later : ℕ) where
  abbrev parse_content : Option Export → Outcome Export
  parse_content none = broken parse_failed
  parse_content (some e) = done e

  abbrev parse_found : Option (StoredFile File) → Outcome Export
  parse_found none = broken open_failed
  parse_found (some s) = parse_content (parse s.content)

  unfoldable pub parse_stored : List (StoredFile File) → Upload → Outcome Export
  unfolding find
  parse_stored files up = parse_found (find (λ s. text_eq s.path up.stored_path) files)

  -- checkCoverage against the execution before this one in time.
  abbrev coverage : Option Refusal → Outcome (Unit {0})
  coverage none = done tt
  coverage (some r) = broken (partial_export r)

  -- The outcome of ApplySnapshot, with the database that it leaves.
  abbrev applied : Result SnapshotResult × Db → Outcome Db
  applied (ok r, db) = done db
  applied (err e, db) = broken (store_failed e)

  unfoldable pub record_export : Export → Upload → Db → Outcome Db
  unfolding list_snapshots resolve_snapshot_date apply_snapshot
  record_export export up db =
      let (taken_at, source) =
        resolve_snapshot_date filename_date export up.original_filename up.snapshot_date_override
          up.uploaded_at in
      applied (apply_snapshot up.id (list_snapshots export) taken_at source now later db)

  unfoldable pub admit : Export → Upload → Db → Outcome (Unit {0})
  unfolding resolve_snapshot_date preceding_completed_upload check_coverage followers_of
  admit export up db =
      let (taken_at, source) =
        resolve_snapshot_date filename_date export up.original_filename up.snapshot_date_override
          up.uploaded_at in
      coverage (
        check_coverage export.partial (length (followers_of export))
          (preceding_completed_upload db up.account_id taken_at up.id) up.allow_partial)

  abbrev kept_files : Upload → List (StoredFile File) → List (StoredFile File)
  kept_files up files =
      if retain_uploads then files else delete_where (λ s. text_eq s.path up.stored_path) files

  unfoldable pub process : Upload → World File → Outcome (World File)
  unfolding parse_stored admit record_export
  process up w = do
    export ← parse_stored w.files up
    admit export up w.db
    db' ← record_export export up w.db
    done (record { db = db'; files = kept_files up w.files })

  abbrev settle : Upload → World File → Outcome (World File) → World File
  settle up w (done w') = w'
  settle up w (broken e) = record w { db = fail_upload up.id (describe e) later w.db }

  -- Whether there was an upload to process, and the state after it.
  abbrev after_claim : World File → Result Upload × Db → Bool × World File
  after_claim w (err e, db') = (false, record w { db = db' })
  after_claim w (ok up, db') =
      let w1 = record w { db = db' } in (true, settle up w1 (process up w1))

  unfoldable pub process_next : World File → Bool × World File
  unfolding process claim_next_pending fail_upload
  process_next w = after_claim w (claim_next_pending now w.db)

  -- A reread is not judged for coverage, and keeps the file.
  unfoldable pub reread : Upload → World File → Outcome Db
  unfolding parse_stored record_export
  reread up w = do export ← parse_stored w.files up; record_export export up w.db

  abbrev after_reread : Upload → Db → Outcome Db → Db
  after_reread up db (done db') = finish_reprocess up.id db'
  after_reread up db (broken e) = finish_reprocess up.id db

  unfoldable pub reprocess_next : World File → Bool × World File
  unfolding reread claim_next_reprocess finish_reprocess
  reprocess_next w = elim (claim_next_reprocess w.db) [
    | none ↦ (false, w)
    | some up ↦ (true, record w { db = after_reread up w.db (reread up w) })
  ]

  -- The loop of `drain`: uploads first, then rereads, until neither has work.
  unfoldable pub drain : ℕ → World File → World File
  unfolding process_next reprocess_next
  drain zero w = w
  drain (suc fuel) w =
      let (processed, w1) = process_next w in
      let (reread_one, w2) = reprocess_next w1 in
      elim processed [
        | true ↦ drain fuel w1
        | false ↦ elim reread_one [ true ↦ drain fuel w2 | false ↦ w2 ]
      ]
