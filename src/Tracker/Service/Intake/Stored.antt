-- ===== src/Tracker/Service/Intake/Stored.antt =====
-- What an accepted upload is.
use insta_follower_tracker.Prelude.{
  ℕ, zero, suc, ◌≤◌, ◌<◌, ◌≡◌, refl, ap, ap₂, sym, subst, ◌∙◌, inl, inr, ◌⊎◌, false, ◌&&◌, List, [],
  ◌∷◌, ◌++◌, Option, none, some, arith, if◌then◌else◌, ltb, length, Bool-cases,
}
use insta_follower_tracker.Prelude.Text.{Text}
use insta_follower_tracker.Strings.{take, base}
use insta_follower_tracker.Strings.Path.{join_path}
use insta_follower_tracker.Store.Models.{pending, Account, Upload, Db, Result, ok, err}
use insta_follower_tracker.Store.Apply.{upload_row}
use insta_follower_tracker.Store.Queue.{pending_row, create_upload}
use insta_follower_tracker.Store.Accounts.{ensure_account}
use insta_follower_tracker.Instagram.Readers.{Readers}
use insta_follower_tracker.Instagram.Archive.{ZipEntry}
use insta_follower_tracker.Tracker.Service.{resolve_handle}
use insta_follower_tracker.Tracker.Service.Intake.{
  File, has_file, rename_file, read_file, System, Options, AcceptOptions, Outcome, done, failed,
  staging_dir, limited, checked, written, write_upload, enqueue, move_into_place, file_under,
  staged_path, after_write, accept,
}
use insta_follower_tracker.Tracker.Service.Intake.Files.{read_file-rename_file}
use insta_follower_tracker.Tracker.Service.Intake.Clean.{
  new_upload, ensure_account-uploads, enqueue-done,
}

take_whole : (n : ℕ) (s : Text) → length (take n s) < n → take n s ≡ s
unfolding take
take_whole zero s h = absurd (omega arith)
take_whole (suc n) [] h = refl
take_whole (suc n) (c ∷ s) h = ap (λ t. c ∷ t) (take_whole n s (omega arith))

abbrev pub IsWithin : ℕ → Text → Type 0
IsWithin most body = (1 ≤ length body) × ((most ≡ 0) ⊎ (length body ≤ most))

-- The new row of the queue, its file, and the row that is returned.
pub record IsStored (body : Text) (sum : Text) (uploads : List Upload) (r : Upload)
    (files' : List File) (db' : Db) : Type 0 where
  pub row : Upload
  pub appended : db'.uploads ≡ uploads ++ row ∷ []
  pub waits : row.status ≡ pending
  pub read : read_file row.stored_path files' ≡ some body
  pub size : row.size_bytes ≡ length body
  pub hash : row.sha256 ≡ sum
  pub returned : upload_row db' row.id ≡ some r

abbrev Lands : Text → Text → List Upload → Outcome Upload × List File × Db → Type 0
Lands body sum uploads (failed e, files', db') = zero ≡ zero
Lands body sum uploads (done r, files', db') = IsStored body sum uploads r files' db'

module _ (system : System) (options : Options) (opts : AcceptOptions) where
  enqueue-Lands :
      (p filename body sum : Text) (account : Account) (now : ℕ) (files : List File) (db : Db)
      → read_file p files ≡ some body
      → Lands body sum db.uploads
          (enqueue system options opts p filename (sum, length body) account now files db)
  unfolding enqueue create_upload
  enqueue-Lands p filename body sum account now files db h = elim (Bool-cases system.inserts) [
    | inr fault ↦ rw (enqueue, fault) refl
    | inl fine ↦ elim (Bool-cases system.reads_back) [
      | inr lost ↦ rw (enqueue, fine, lost) refl
      | inl back ↦
          let (r, g, e) =
            enqueue-done system options opts p filename (sum, length body) account now files db fine
              back in
          subst (Lands body sum db.uploads) (sym e) (record {
            row =
                pending_row db.next_upload (new_upload p filename (sum, length body) account opts)
                  now;
            appended = refl;
            waits = refl;
            read = h;
            size = refl;
            hash = refl;
            returned = g;
          })
    ]
  ]

  module _ (staged body : Text) (before : List File) (free : has_file staged before ≡ false) where
    abbrev staged_file : List File
    staged_file = before ++ record { path = staged; content = body } ∷ []

    move_into_place-Lands :
        (filename sum : Text) (account : Result Account) (now : ℕ) (db : Db)
        → Lands body sum db.uploads (
            move_into_place system options opts staged filename
              (sum, length body)
              account
              now
              staged_file
              db)
    unfolding move_into_place
    move_into_place-Lands filename sum (err e) now db = refl
    move_into_place-Lands filename sum (ok account) now db =
        let dir = join_path options.upload_dir account.handle in
        let p = join_path dir (base staged) in
        elim (Bool-cases (system.makes_dir dir)) [
          | inr fault ↦ rw (move_into_place, fault) refl
          | inl made ↦ elim (Bool-cases system.renames) [
            | inr fault ↦ rw (move_into_place, made, fault) refl
            | inl moves ↦
                rw (move_into_place, made, moves)
                  (enqueue-Lands p filename body sum account now (rename_file staged p staged_file)
                    db (read_file-rename_file staged p body before free))
          ]
        ]

    file_under-Lands :
        (filename sum : Text) (h : Option Text) (now : ℕ) (db : Db)
        → Lands body sum db.uploads
            (file_under system options opts staged filename (sum, length body) h now staged_file db)
    unfolding file_under
    file_under-Lands filename sum none now db = refl
    file_under-Lands filename sum (some h) now db =
        subst
          (λ us. Lands body sum us (
            file_under system options opts staged filename (sum, length body) (some h) now
              staged_file db))
          (ensure_account-uploads h now db)
          (move_into_place-Lands filename sum (ensure_account h now db).0 now
            (ensure_account h now db).1)

checked_lem :
    (system : System) (most : ℕ) (sum src s : Text) (n : ℕ)
    → checked system most sum src ≡ done (s, n)
    → (s ≡ sum)
      × (n ≡ length src)
      × (1 ≤ length src)
      × ((ltb 0 most && ltb most (length src)) ≡ false)
checked_lem system most sum src s n h = elim (Bool-cases (ltb 0 most && ltb most (length src))) [
  | inl large ↦ absurd (ground arith)
  | inr fits ↦ (ground arith, ground arith, ground arith, fits)
]

limited_lem : (m : ℕ) (body : Text) → limited (suc m) body ≡ take (suc (suc m)) body
limited_lem m body = ground arith

checked-done :
    (system : System) (most : ℕ) (sum body s : Text) (n : ℕ)
    → checked system most sum (limited most body) ≡ done (s, n)
    → (s ≡ sum) × (limited most body ≡ body) × (n ≡ length body) × IsWithin most body
checked-done system zero sum body s n h =
    let (a, b, c, d) = checked_lem system zero sum body s n h in (a, refl, b, (c, inl refl))
checked-done system (suc m) sum body s n h =
    let (a, b, c, d) = checked_lem system (suc m) sum (limited (suc m) body) s n h in
    let cut = limited_lem m body in
    let whole = take_whole (suc (suc m)) body (ground (arith, ap length cut, d)) in
    let same = cut ∙ whole in
    (
      a,
      same,
      b ∙ ap length same,
      (omega (arith, c, ap length same), inr (ground (arith, ap length same, d))),
    )

module _ (readers : Readers) (open_zip : Text → Option (List ZipEntry)) (digest : Text → Text)
    (system : System) (options : Options) (opts : AcceptOptions) where
  -- Both the bounds on the body and the row, where the outcome is a success.
  abbrev Accepts : Text → List Upload → Outcome Upload × List File × Db → Type 0
  Accepts body uploads (failed e, files', db') = zero ≡ zero
  Accepts body uploads (done r, files', db') =
      IsWithin options.max_upload_bytes body × IsStored body (digest body) uploads r files' db'

  with_bounds :
      (body : Text) (uploads : List Upload) (o : Outcome Upload × List File × Db)
      → IsWithin options.max_upload_bytes body
      → Lands body (digest body) uploads o
      → Accepts body uploads o
  with_bounds body uploads (failed e, files', db') w l = refl
  with_bounds body uploads (done r, files', db') w l = (w, l)

  checked-Accepts :
      (staged handle filename body src : Text) (now : ℕ) (o : Outcome (Text × ℕ))
      (files : List File) (db : Db)
      → has_file staged files ≡ false
      → src ≡ limited options.max_upload_bytes body
      → checked system options.max_upload_bytes (digest src) src ≡ o
      → Accepts body db.uploads (
          after_write readers open_zip digest system options opts staged handle filename now
            (o, files ++ record { path = staged; content = src } ∷ [])
            db)
  checked-Accepts staged handle filename body src now (failed e) files db free s c = refl
  checked-Accepts staged handle filename body src now (done (sum, n)) files db free s c =
      let most = options.max_upload_bytes in
      let (a, whole, size, within) =
        checked-done system most (digest src) body sum n
          (ap (λ x. checked system most (digest src) x) (sym s) ∙ c) in
      let same : body ≡ src = sym whole ∙ sym s in
      let files' = files ++ record { path = staged; content = src } ∷ [] in
      let h =
        resolve_handle readers open_zip handle filename
          (if system.opens then read_file staged files' else none) in
      subst
        (λ (b : Text).
          Accepts b db.uploads
            (file_under system options opts staged filename (sum, n) h now files' db))
        (sym same)
        (subst
          (λ (t : Text × ℕ).
            Accepts src db.uploads
              (file_under system options opts staged filename t h now files' db))
          (ap₂ (λ (x : Text) (y : ℕ). (x, y)) (sym a) (ap length (sym same) ∙ sym size))
          (with_bounds src db.uploads
            (file_under system options opts staged filename (digest src, length src) h now files'
              db)
            (subst (IsWithin most) same within)
            (file_under-Lands system options opts staged src files free filename (digest src) h now
              db)))

  written-Accepts :
      (staged handle filename body : Text) (now : ℕ) (o : Option ℕ) (files : List File) (db : Db)
      → has_file staged files ≡ false
      → Accepts body db.uploads (
          after_write readers open_zip digest system options opts staged handle filename now
            (written system staged options.max_upload_bytes digest
              (limited options.max_upload_bytes body)
              o
              files)
            db)
  written-Accepts staged handle filename body now none files db free =
      checked-Accepts staged handle filename body (limited options.max_upload_bytes body) now _
        files db free refl refl
  written-Accepts staged handle filename body now (some n) files db free = refl

  accept-Accepts :
      (handle filename body clock nonce : Text) (now : ℕ) (files : List File) (db : Db)
      → Accepts body db.uploads (
          accept readers open_zip digest system options opts handle filename body clock nonce now
            files db)
  unfolding accept write_upload
  accept-Accepts handle filename body clock nonce now files db =
      let staged = staged_path readers open_zip digest system options opts clock nonce filename in
      elim (Bool-cases (system.makes_dir (join_path options.upload_dir staging_dir))) [
        | inr fault ↦ rw (accept, fault) refl
        | inl made ↦ elim (Bool-cases system.creates) [
          | inr fault ↦ rw (accept, made, fault) refl
          | inl creates ↦ elim (Bool-cases (has_file staged files)) [
            | inl taken ↦ rw (accept, made, creates, taken) refl
            | inr free ↦
                rw (accept, made, creates, free)
                  (written-Accepts staged handle filename body now system.copy_fails files db free)
          ]
        ]
      ]

  -- An upload that is accepted has a byte at least and no more than the limit, if there is one. It is
  -- one new waiting row with the size and hash of the body, the file that the row names holds the
  -- whole body, and the row of that id is returned.
  pub accept-IsStored :
      (handle filename body clock nonce : Text) (now : ℕ) (files files' : List File) (db db' : Db)
      (r : Upload)
      → accept readers open_zip digest system options opts handle filename body clock nonce now
          files db
        ≡ (done r, files', db')
      → IsWithin options.max_upload_bytes body × IsStored body (digest body) db.uploads r files' db'
  accept-IsStored handle filename body clock nonce now files files' db db' r h =
      subst (Accepts body db.uploads) h
        (accept-Accepts handle filename body clock nonce now files db)
