-- ===== src/Tracker/Service/Intake.antt =====
-- internal/tracker/service.go: Accept, with the files it keeps on disk.
pub mod Clean
pub mod Files
pub mod Failed
pub mod Stored
use insta_follower_tracker.Prelude.{
  ℕ, suc, Bool, not, ◌&&◌, List, [], ◌∷◌, ◌++◌, Option, none, some, ltb, ◌==◌, if◌then◌else◌,
  length,
}
use insta_follower_tracker.Prelude.Table.{any, find, delete_where, update_where}
use insta_follower_tracker.Prelude.Text.{Text, text_eq, codes}
use insta_follower_tracker.Strings.{take, base}
use insta_follower_tracker.Strings.Path.{join_path}
use insta_follower_tracker.Store.Models.{StoreError, Account, Upload, Db, Result, ok, err}
use insta_follower_tracker.Store.Apply.{upload_row, or_not_found}
use insta_follower_tracker.Store.Queue.{create_upload}
use insta_follower_tracker.Store.Accounts.{ensure_account}
use insta_follower_tracker.Instagram.Readers.{Readers}
use insta_follower_tracker.Instagram.Archive.{ZipEntry}
use insta_follower_tracker.Tracker.Service.{sanitize_display_name, upload_filename, resolve_handle}

-- A file by its path.
pub record File : Type 0 where
  pub path : Text
  pub content : Text

abbrev pub at : Text → File → Bool
at p f = text_eq f.path p

abbrev pub has_file : Text → List File → Bool
has_file p files = any (at p) files

-- os.Remove, whose error is ignored.
unfoldable pub remove_file : Text → List File → List File
remove_file p files = delete_where (at p) files

-- os.Rename of a file takes the place of one that has the new path.
unfoldable pub rename_file : Text → Text → List File → List File
unfolding remove_file
rename_file from to files =
    if text_eq from to
    then files
    else update_where (at from) (λ f. record f { path = to }) (remove_file to files)

abbrev pub content_of : Option File → Option Text
content_of none = none
content_of (some f) = some f.content

unfoldable pub read_file : Text → List File → Option Text
unfolding find
read_file p files = content_of (find (at p) files)

-- Which calls of the operating system and of the driver succeed; a copy that fails leaves the
-- bytes written so far. Directories are made where they are missing, and are no files here.
pub record System : Type 0 where
  pub makes_dir : Text → Bool
  pub creates : Bool
  pub copy_fails : Option ℕ
  pub syncs : Bool
  pub closes : Bool
  pub opens : Bool
  pub renames : Bool
  pub inserts : Bool
  pub reads_back : Bool

pub record Options : Type 0 where
  pub upload_dir : Text
  pub max_upload_bytes : ℕ

pub record AcceptOptions : Type 0 where
  pub allow_partial : Bool
  pub snapshot_date : Option ℕ

pub data AcceptError : Type 0 where
  directory_not_made file_not_created not_copied upload_too_large upload_empty : AcceptError
  not_flushed not_closed handle_unknown not_moved not_inserted not_read_back : AcceptError
  store_failed : StoreError → AcceptError

pub data Outcome {ℓ} (A : Type ℓ) : Type ℓ where
  done : A → Outcome A
  failed : AcceptError → Outcome A

abbrev pub staging_dir : Text
staging_dir = codes ".incoming"

-- What is read of the body: one byte more than the limit, where there is one.
abbrev pub limited : ℕ → Text → Text
limited most body = if ltb 0 most then take (suc most) body else body

-- `sum` is the SHA-256 in hexadecimal.
abbrev pub checked : System → ℕ → Text → Text → Outcome (Text × ℕ)
checked system most sum src =
    if ltb 0 most && ltb most (length src)
    then failed upload_too_large
    else (if length src == 0
        then failed upload_empty
        else (if not system.syncs
            then failed not_flushed
            else (if not system.closes then failed not_closed else done (sum, length src))))

abbrev pub written :
    System → Text → ℕ → (Text → Text) → Text → Option ℕ → List File → Outcome (Text × ℕ) × List File
written system p most digest src none files =
    (checked system most (digest src) src, files ++ record { path = p; content = src } ∷ [])
written system p most digest src (some n) files =
    (failed not_copied, files ++ record { path = p; content = take n src } ∷ [])

-- The hash and the size. A file that is in the way is not written over.
unfoldable pub write_upload :
    System → ℕ → (Text → Text) → Text → Text → List File → Outcome (Text × ℕ) × List File
unfolding any take
write_upload system most digest p body files =
    if not system.creates
    then (failed file_not_created, files)
    else (if has_file p files
        then (failed file_not_created, files)
        else written system p most digest (limited most body) system.copy_fails files)

module _ (system : System) (options : Options) (opts : AcceptOptions) where
  -- The row as it is read back.
  abbrev found_upload : Result Upload → Outcome Upload
  found_upload (ok r) = done r
  found_upload (err e) = failed (store_failed e)

  -- The rest once the file has its place: the row of the queue.
  unfoldable pub enqueue :
      Text → Text → Text × ℕ → Account → ℕ → List File → Db → Outcome Upload × List File × Db
  unfolding create_upload upload_row sanitize_display_name remove_file
  enqueue p filename (sum, size) account now files db =
      if not system.inserts
      then (failed not_inserted, remove_file p files, db)
      else let (id, db') =
          create_upload
            (record {
              account_id = account.id;
              filename = sanitize_display_name filename;
              stored_path = p;
              sha256 = sum;
              size_bytes = size;
              allow_partial = opts.allow_partial;
              snapshot_date = opts.snapshot_date;
            })
            now db in
        (
          if system.reads_back
              then found_upload (or_not_found (upload_row db' id))
              else failed not_read_back,
          files,
          db',
        )

  -- From the staging directory to the directory of the account.
  unfoldable pub move_into_place :
      Text → Text → Text × ℕ → Result Account → ℕ → List File → Db → Outcome Upload × List File × Db
  unfolding join_path base rename_file remove_file enqueue
  move_into_place staged filename sum (err e) now files db =
      (failed (store_failed e), remove_file staged files, db)
  move_into_place staged filename sum (ok account) now files db =
      let dir = join_path options.upload_dir account.handle in
      let p = join_path dir (base staged) in
      let next = enqueue p filename sum account now (rename_file staged p files) db in
      if not (system.makes_dir dir)
      then (failed directory_not_made, remove_file staged files, db)
      else (if not system.renames then (failed not_moved, remove_file staged files, db) else next)

  unfoldable pub file_under :
      Text → Text → Text × ℕ → Option Text → ℕ → List File → Db → Outcome Upload × List File × Db
  unfolding ensure_account move_into_place remove_file
  file_under staged filename sum none now files db =
      (failed handle_unknown, remove_file staged files, db)
  file_under staged filename sum (some h) now files db =
      let (account, db') = ensure_account h now db in
      move_into_place staged filename sum account now files db'

-- The result of Accept, with the files and the tables after it. `clock` is the time as the code
-- formats it, `nonce` the random part of the name.
module _ (readers : Readers) (open_zip : Text → Option (List ZipEntry)) (digest : Text → Text)
    (system : System) (options : Options) (opts : AcceptOptions) where
  abbrev pub staged_path : Text → Text → Text → Text
  staged_path clock nonce filename =
      join_path (join_path options.upload_dir staging_dir) (upload_filename clock nonce filename)

  abbrev after_write :
      Text → Text → Text → ℕ → Outcome (Text × ℕ) × List File → Db → Outcome Upload × List File × Db
  after_write staged handle filename now (failed e, files) db =
      (failed e, remove_file staged files, db)
  after_write staged handle filename now (done sum, files) db =
      file_under system options opts staged filename sum
        (resolve_handle readers open_zip handle filename
          (if system.opens then read_file staged files else none))
        now files db

  unfoldable pub accept :
      Text → Text → Text → Text → Text → ℕ → List File → Db → Outcome Upload × List File × Db
  unfolding join_path upload_filename write_upload remove_file resolve_handle read_file file_under
  accept handle filename body clock nonce now files db =
      if not (system.makes_dir (join_path options.upload_dir staging_dir))
      then (failed directory_not_made, files, db)
      else let staged = staged_path clock nonce filename in
        after_write staged handle filename now
          (write_upload system options.max_upload_bytes digest staged body files) db
