-- ===== src/Tracker/Service/Intake/Clean.antt =====
-- What Accept leaves behind where it fails.
use insta_follower_tracker.Prelude.{
  ℕ, ◌≡◌, refl, sym, subst, ◌∙◌, inl, inr, Bool, true, false, not, ◌&&◌, List, [], ◌∷◌, ◌++◌,
  Option, none, some, arith, ◌==◌, Bool-cases,
}
use insta_follower_tracker.Prelude.In.{In-append_right, find_of_In}
use insta_follower_tracker.Prelude.Text.{Text}
use insta_follower_tracker.Strings.{base}
use insta_follower_tracker.Strings.Path.{join_path}
use insta_follower_tracker.Store.Models.{Account, Upload, Db, Result, ok, err}
use insta_follower_tracker.Store.Apply.{upload_row}
use insta_follower_tracker.Store.Queue.{NewUpload, pending_row, create_upload}
use insta_follower_tracker.Store.Accounts.{normalize_handle, insert_account, ensure_account}
use insta_follower_tracker.Tracker.Service.{sanitize_display_name}
use insta_follower_tracker.Tracker.Service.Intake.{
  not_read_back, File, has_file, rename_file, System, Options, AcceptOptions, Outcome, done, failed,
  enqueue, move_into_place, file_under,
}
use insta_follower_tracker.Tracker.Service.Intake.Files.{undone, undone_moved}

-- A new row is read back.
pub upload_row-create_upload :
    (new : NewUpload) (now : ℕ) (db : Db)
    → (r : Upload) × (upload_row (create_upload new now db).1 db.next_upload ≡ some r)
unfolding upload_row create_upload
upload_row-create_upload new now db =
    let row = pending_row db.next_upload new now in
    find_of_In (λ r. r.id == db.next_upload) row (db.uploads ++ row ∷ [])
      (In-append_right row db.uploads (row ∷ []) (inl refl)) (ground arith)

insert_account-uploads :
    (h : Text) (now : ℕ) (db : Db) → (insert_account h now db).uploads ≡ db.uploads
unfolding insert_account
insert_account-uploads h now db = ground arith

pub ensure_account-uploads :
    (h : Text) (now : ℕ) (db : Db) → (ensure_account h now db).1.uploads ≡ db.uploads
unfolding ensure_account
ensure_account-uploads h now db = stored (normalize_handle h) refl
  where
    stored : (x : Text) → normalize_handle h ≡ x → (ensure_account h now db).1.uploads ≡ db.uploads
    stored [] e = rw (ensure_account, e) refl
    stored (c ∷ s) e = rw (ensure_account, e) (insert_account-uploads (c ∷ s) now db)

-- No path is new.
abbrev pub IsKept : Text → List File → List File → Type 0
IsKept q files files' = (has_file q files' && not (has_file q files)) ≡ false

-- Whether Accept undoes what it has done: it does not where only the row cannot be read back.
abbrev pub is_undone : Outcome Upload → Bool
is_undone (done r) = false
is_undone (failed not_read_back) = false
is_undone (failed _) = true

-- Where it undoes, no file and no row of the queue is new.
abbrev pub Keeps : Text → List File → Db → Outcome Upload × List File × Db → Type 0
Keeps q files db (o, files', db') =
    is_undone o ≡ true → (db'.uploads ≡ db.uploads) × IsKept q files files'

-- The row that Accept asks for.
abbrev pub new_upload : Text → Text → Text × ℕ → Account → AcceptOptions → NewUpload
new_upload p filename (sum, size) account opts = record {
  account_id = account.id;
  filename = sanitize_display_name filename;
  stored_path = p;
  sha256 = sum;
  size_bytes = size;
  allow_partial = opts.allow_partial;
  snapshot_date = opts.snapshot_date;
}

module _ (system : System) (options : Options) (opts : AcceptOptions) where
  pub enqueue-done :
      (p filename : Text) (sum : Text × ℕ) (account : Account) (now : ℕ) (files : List File)
      (db : Db)
      → system.inserts ≡ true
      → system.reads_back ≡ true
      → (r : Upload) × (upload_row
            (create_upload (new_upload p filename sum account opts) now db).1
            db.next_upload
          ≡ some r)
        × (enqueue system options opts p filename sum account now files db
            ≡ (done r, files, (create_upload (new_upload p filename sum account opts) now db).1))
  unfolding enqueue create_upload
  enqueue-done p filename (sum, size) account now files db fine back =
      let (r, e) =
        upload_row-create_upload (new_upload p filename (sum, size) account opts) now db in
      (r, e, rw (enqueue, fine, back, e) refl)

  -- The files are `before` with `f` written at the staged path.
  module _ (q staged : Text) (f : File) (before : List File) (placed : f.path ≡ staged) where
    enqueue-Keeps :
        (p filename : Text) (sum : Text × ℕ) (account : Account) (now : ℕ) (db : Db)
        → Keeps q before db (
            enqueue system options opts p filename sum account now
              (rename_file staged p (before ++ f ∷ []))
              db)
    unfolding enqueue
    enqueue-Keeps p filename sum account now db = elim (Bool-cases system.inserts) [
      | inl fine ↦ elim (Bool-cases system.reads_back) [
        | inl back ↦
            let (r, g, e) =
              enqueue-done p filename sum account now (rename_file staged p (before ++ f ∷ [])) db
                fine back in
            subst (Keeps q before db) (sym e) (λ h. cc h)
        | inr lost ↦ rw (enqueue, fine, lost) (λ h. cc h)
      ]
      | inr fault ↦ rw (enqueue, fault) (λ h. (refl, undone_moved q staged p f before placed))
    ]

    move_into_place-Keeps :
        (filename : Text) (sum : Text × ℕ) (account : Result Account) (now : ℕ) (db : Db)
        → Keeps q before db (
            move_into_place system options opts staged filename sum account now
              (before ++ f ∷ [])
              db)
    unfolding move_into_place
    move_into_place-Keeps filename sum (err e) now db = λ h. (refl, undone q staged f before placed)
    move_into_place-Keeps filename sum (ok account) now db =
        let dir = join_path options.upload_dir account.handle in
        elim (Bool-cases (system.makes_dir dir)) [
          | inr fault ↦ rw (move_into_place, fault) (λ h. (refl, undone q staged f before placed))
          | inl made ↦ elim (Bool-cases system.renames) [
            | inr fault ↦
                rw (move_into_place, made, fault) (λ h. (refl, undone q staged f before placed))
            | inl moves ↦
                rw (move_into_place, made, moves)
                  (enqueue-Keeps (join_path dir (base staged)) filename sum account now db)
          ]
        ]

    pub file_under-Keeps :
        (filename : Text) (sum : Text × ℕ) (h : Option Text) (now : ℕ) (db : Db)
        → Keeps q before db
            (file_under system options opts staged filename sum h now (before ++ f ∷ []) db)
    unfolding file_under
    file_under-Keeps filename sum none now db = λ h. (refl, undone q staged f before placed)
    file_under-Keeps filename sum (some h) now db =
        let (account, db') = ensure_account h now db in
        let k =
          move_into_place-Keeps filename sum (ensure_account h now db).0 now
            (ensure_account h now db).1 in
        λ z. ((k z).0 ∙ ensure_account-uploads h now db, (k z).1)
