-- ===== src/Tracker/Service/Intake/Failed.antt =====
-- Accept fails without a trace on disk or in the queue.
use insta_follower_tracker.Prelude.{
  ℕ, ◌≡◌, ◌≢◌, refl, subst, inl, inr, List, [], ◌∷◌, ◌++◌, Option, none, some, arith, if◌then◌else◌,
  true, Bool-cases,
}
use insta_follower_tracker.Prelude.Text.{Text}
use insta_follower_tracker.Strings.{take}
use insta_follower_tracker.Strings.Path.{join_path}
use insta_follower_tracker.Store.Models.{Db}
use insta_follower_tracker.Instagram.Readers.{Readers}
use insta_follower_tracker.Instagram.Archive.{ZipEntry}
use insta_follower_tracker.Tracker.Service.{resolve_handle}
use insta_follower_tracker.Tracker.Service.Intake.{
  directory_not_made, file_not_created, not_copied, upload_too_large, upload_empty, not_flushed,
  not_closed, handle_unknown, not_moved, not_inserted, not_read_back, store_failed, File, has_file,
  remove_file, read_file, System, Options, AcceptOptions, AcceptError, Outcome, done, failed,
  staging_dir, limited, checked, written, write_upload, staged_path, after_write, accept,
}
use insta_follower_tracker.Tracker.Service.Intake.Files.{has_file-remove_file, undone}
use insta_follower_tracker.Tracker.Service.Intake.Clean.{IsKept, is_undone, Keeps, file_under-Keeps}

removed-IsKept : (q p : Text) (files : List File) → IsKept q files (remove_file p files)
removed-IsKept q p files = ground (arith, has_file-remove_file q p files)

module _ (readers : Readers) (open_zip : Text → Option (List ZipEntry)) (digest : Text → Text)
    (system : System) (options : Options) (opts : AcceptOptions) where
  after_write-Keeps :
      (q staged handle filename : Text) (now : ℕ) (o : Outcome (Text × ℕ)) (f : File)
      (files : List File) (db : Db)
      → f.path ≡ staged
      → Keeps q files db (
          after_write readers open_zip digest system options opts staged handle filename now
            (o, files ++ f ∷ [])
            db)
  after_write-Keeps q staged handle filename now (failed e) f files db placed =
      λ h. (refl, undone q staged f files placed)
  after_write-Keeps q staged handle filename now (done sum) f files db placed =
      file_under-Keeps system options opts q staged f files placed filename sum
        (resolve_handle readers open_zip handle filename
          (if system.opens then read_file staged (files ++ f ∷ []) else none))
        now db

  written-Keeps :
      (q staged handle filename src : Text) (now most : ℕ) (o : Option ℕ) (files : List File)
      (db : Db)
      → Keeps q files db (
          after_write readers open_zip digest system options opts staged handle filename now
            (written system staged most digest src o files)
            db)
  written-Keeps q staged handle filename src now most none files db =
      after_write-Keeps q staged handle filename now (checked system most (digest src) src)
        (record { path = staged; content = src }) files db refl
  written-Keeps q staged handle filename src now most (some n) files db =
      λ h. (refl, undone q staged (record { path = staged; content = take n src }) files refl)

  accept-Keeps :
      (q handle filename body clock nonce : Text) (now : ℕ) (files : List File) (db : Db)
      → Keeps q files db (
          accept readers open_zip digest system options opts handle filename body clock nonce now
            files db)
  unfolding accept write_upload
  accept-Keeps q handle filename body clock nonce now files db =
      let staged = staged_path readers open_zip digest system options opts clock nonce filename in
      elim (Bool-cases (system.makes_dir (join_path options.upload_dir staging_dir))) [
        | inr fault ↦ rw (accept, fault) (λ h. (refl, ground arith))
        | inl made ↦ elim (Bool-cases system.creates) [
          | inr fault ↦ rw (accept, made, fault) (λ h. (refl, removed-IsKept q staged files))
          | inl creates ↦ elim (Bool-cases (has_file staged files)) [
            | inl taken ↦
                rw (accept, made, creates, taken) (λ h. (refl, removed-IsKept q staged files))
            | inr free ↦
                rw (accept, made, creates, free)
                  (written-Keeps q staged handle filename (limited options.max_upload_bytes body)
                    now options.max_upload_bytes system.copy_fails files db)
          ]
        ]
      ]

  undone_lem : (e : AcceptError) → e ≢ not_read_back → is_undone (failed e) ≡ true
  undone_lem directory_not_made n = refl
  undone_lem file_not_created n = refl
  undone_lem not_copied n = refl
  undone_lem upload_too_large n = refl
  undone_lem upload_empty n = refl
  undone_lem not_flushed n = refl
  undone_lem not_closed n = refl
  undone_lem handle_unknown n = refl
  undone_lem not_moved n = refl
  undone_lem not_inserted n = refl
  undone_lem not_read_back n = absurd (n refl)
  undone_lem (store_failed x) n = refl

  -- Where Accept fails at any step but the last, which reads the new row back, no row of the queue is
  -- new and no file on disk.
  pub accept-failed :
      (q handle filename body clock nonce : Text) (now : ℕ) (files files' : List File) (db db' : Db)
      (e : AcceptError)
      → accept readers open_zip digest system options opts handle filename body clock nonce now
          files db
        ≡ (failed e, files', db')
      → e ≢ not_read_back
      → (db'.uploads ≡ db.uploads) × IsKept q files files'
  accept-failed q handle filename body clock nonce now files files' db db' e h n =
      subst (Keeps q files db) h (accept-Keeps q handle filename body clock nonce now files db)
        (undone_lem e n)
