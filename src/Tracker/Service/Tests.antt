-- ===== src/Tracker/Service/Tests.antt =====
-- The intake at concrete inputs.
use insta_follower_tracker.Prelude.{◌≡◌, refl, true, false, List, [], Option, none, some}
use insta_follower_tracker.Prelude.Table.{any, every, find}
use insta_follower_tracker.Prelude.Text.{Text, codes}
use insta_follower_tracker.Strings.Path.{join_path}
use insta_follower_tracker.Store.Models.{Account, Db, Upload, completed, ok}
use insta_follower_tracker.Store.Samples.{sample, upload_at}
use insta_follower_tracker.Store.Queue.{pending_row}
use insta_follower_tracker.Store.Accounts.{normalize_handle, ensure_account}
use insta_follower_tracker.Store.Accounts.Ensure.{IsAccount}
use insta_follower_tracker.Instagram.Readers.{Readers}
use insta_follower_tracker.Instagram.Archive.{ZipEntry}
use insta_follower_tracker.Instagram.Page.{is_handle}
use insta_follower_tracker.Tracker.Service.{sanitize_display_name, resolve_handle, resolve_upload}
use insta_follower_tracker.Tracker.Service.Names.{IsName, sanitize_display_name-IsName}
use insta_follower_tracker.Tracker.Service.Handles.{resolve_handle-IsAccount}
use insta_follower_tracker.Tracker.Service.References.{IsExecution, IsMeant, resolve_upload-IsMeant}
use insta_follower_tracker.Tracker.Service.Intake.{
  File, System, Options, AcceptOptions, Outcome, upload_too_large, accept,
}
use insta_follower_tracker.Tracker.Service.Intake.Clean.{new_upload, IsKept}
use insta_follower_tracker.Tracker.Service.Intake.Failed.{accept-failed}
use insta_follower_tracker.Tracker.Service.Intake.Stored.{IsWithin, IsStored, accept-IsStored}

-- Spaces before two dots outlast the cleaning of the path.
sanitize_display_name_run : sanitize_display_name (codes " ..") ≡ codes ".."
unfolding sanitize_display_name any
sanitize_display_name_run = refl

-- A handle may lead out of the directory of uploads.
join_path_run : join_path (codes "data/uploads") (codes "../../x") ≡ codes "x"
unfolding join_path
join_path_run = refl

normalize_handle_run : normalize_handle (codes "../../x") ≡ codes "../../x"
unfolding normalize_handle
normalize_handle_run = refl

is_handle_run : is_handle (codes "..") ≡ true
unfolding is_handle every
is_handle_run = refl

sanitize_display_name-IsName_example : IsName (sanitize_display_name (codes "c:\\a/b.zip"))
sanitize_display_name-IsName_example = sanitize_display_name-IsName (codes "c:\\a/b.zip")

abbrev no_readers : Readers
no_readers = record {
  decode_entries = λ s. none;
  decode_object = λ s. none;
  parse_page = λ s. none;
  parse_url = λ s. none;
  matches = λ k s. false;
  is_start_here = λ s. false;
  strip_scripts = λ s. s;
  strip_tags = λ s. s;
  squeeze = λ s. s;
  declared_range = λ s. none;
  generated_at = λ s. none;
  owner_name = λ s. none;
  parse_time = λ layout s. none;
}

abbrev no_zip : Text → Option (List ZipEntry)
no_zip s = none

abbrev fresh_name : Text
fresh_name = codes "instagram-bob-2024-10-23-aa1.zip"

resolve_handle-IsAccount_example :
    (is_handle (codes "bob") ≡ true)
    × (a : Account) × ((ensure_account (codes "bob") 7 sample).0 ≡ ok a)
    × IsAccount (codes "bob") (ensure_account (codes "bob") 7 sample).1 a
unfolding normalize_handle resolve_handle every
resolve_handle-IsAccount_example =
    resolve_handle-IsAccount no_readers no_zip [] fresh_name (codes "bob") none 7 sample refl refl

resolve_upload-IsMeant_example :
    IsExecution sample 1 (upload_at 2 completed (some 100) 20)
    × IsMeant sample 1 (codes " 2") true (upload_at 2 completed (some 100) 20)
unfolding resolve_upload
resolve_upload-IsMeant_example =
    resolve_upload-IsMeant sample 1 (codes " 2") true (upload_at 2 completed (some 100) 20) refl

abbrev working : System
working = record {
  makes_dir = λ s. true;
  creates = true;
  copy_fails = none;
  syncs = true;
  closes = true;
  opens = true;
  renames = true;
  inserts = true;
  reads_back = true;
}

abbrev small_limit : Options
small_limit = record { upload_dir = codes "data"; max_upload_bytes = 3 }

abbrev no_choices : AcceptOptions
no_choices = record { allow_partial = false; snapshot_date = none }

abbrev same_digest : Text → Text
same_digest s = s

abbrev sent : Text → Outcome Upload × List File × Db
sent body =
    accept no_readers no_zip same_digest working small_limit no_choices (codes "ana")
      (codes "a.zip") body (codes "t") (codes "n") 50 [] sample

abbrev ana : Account
ana = record { id = 1; handle = codes "ana"; created_at = 1 }

abbrev new_row : Upload
new_row =
    pending_row sample.next_upload
      (new_upload (codes "data/ana/t-n.zip") (codes "a.zip") (codes "abc", 3) ana no_choices) 50

accept-IsStored_example :
    IsWithin 3 (codes "abc")
    × IsStored
        (codes "abc")
        (codes "abc")
        sample.uploads
        new_row
        (sent (codes "abc")).1
        (sent (codes "abc")).2
unfolding accept any find
accept-IsStored_example =
    accept-IsStored no_readers no_zip same_digest working small_limit no_choices (codes "ana")
      (codes "a.zip") (codes "abc") (codes "t") (codes "n") 50 [] (sent (codes "abc")).1 sample
      (sent (codes "abc")).2 new_row refl

accept-failed_example :
    ((sent (codes "abcd")).2.uploads ≡ sample.uploads)
    × IsKept (codes "data") [] (sent (codes "abcd")).1
unfolding accept
accept-failed_example =
    accept-failed no_readers no_zip same_digest working small_limit no_choices (codes "data")
      (codes "ana") (codes "a.zip") (codes "abcd") (codes "t") (codes "n") 50 []
      (sent (codes "abcd")).1 sample (sent (codes "abcd")).2 upload_too_large refl (λ e. cc e)
