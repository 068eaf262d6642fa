-- ===== src/Tracker/Worker/Progress.antt =====
-- What one call of the worker does to the queues: each settles the upload that it takes.
use insta_follower_tracker.Prelude.{
  ℕ, ◌≡◌, refl, sym, subst, ◌⊎◌, inl, inr, Bool, true, false, Option, arith, Option-cases,
}
use insta_follower_tracker.Prelude.Table.{count}
use insta_follower_tracker.Prelude.Text.{Text}
use insta_follower_tracker.Store.Models.{Upload, Db, StoreError, Result, ok, err}
use insta_follower_tracker.Store.Snapshot.Order.{IsKeyed}
use insta_follower_tracker.Store.Apply.{apply_body, apply_snapshot}
use insta_follower_tracker.Store.Queue.{
  claim_next_pending, claim_next_reprocess, awaits_reread, reprocess_le, fail_upload,
}
use insta_follower_tracker.Store.Queue.Claims.{
  claim_next_pending-none, claim_next_pending-IsClaim, first_by-some, first_by-none,
}
use insta_follower_tracker.Store.Queue.Settled.{
  IsSettled, fail_upload-IsSettled, apply_body-IsSettled, waits, start_upload-IsKeyed, IsSmaller,
  claimed-IsSmaller, IsFewer, same-IsReread, settled-IsReread, finished-IsFewer,
}
use insta_follower_tracker.Instagram.Export.{Export}
use insta_follower_tracker.Tracker.SnapshotDate.{resolve_snapshot_date}
use insta_follower_tracker.Tracker.Worker.{
  ProcessError, Outcome, done, broken, World, list_snapshots, record_export, parse_stored, admit,
  process, process_next, reread, reprocess_next,
}

Outcome-cases {ℓ} :
    {A : Type ℓ} (o : Outcome A) → ((e : ProcessError) × (o ≡ broken e)) ⊎ ((a : A) × (o ≡ done a))
Outcome-cases (done a) = inr (a, refl)
Outcome-cases (broken e) = inl (e, refl)

Result-cases {ℓ} :
    {A : Type ℓ} (o : Result A) → ((e : StoreError) × (o ≡ err e)) ⊎ ((a : A) × (o ≡ ok a))
Result-cases (ok a) = inr (a, refl)
Result-cases (err e) = inl (e, refl)

module _ {File : Type 0} (parse : File → Option Export) (filename_date : Text → Option ℕ)
    (describe : ProcessError → Text) (retain_uploads : Bool) (now later : ℕ) where
  record_export-IsSettled :
      (export : Export) (up : Upload) (db db' : Db)
      → IsKeyed db.uploads
      → record_export parse filename_date describe retain_uploads now later export up db ≡ done db'
      → IsSettled up.id db db'
  unfolding record_export apply_snapshot
  record_export-IsSettled export up db db' keyed e =
      let date =
        resolve_snapshot_date filename_date export up.original_filename up.snapshot_date_override
          up.uploaded_at in
      elim (Result-cases (apply_body up.id (list_snapshots export) date.0 date.1 now later db)) [
        | inl (f, n) ↦ absurd (ground arith)
        | inr ((result, after), o) ↦ subst (IsSettled up.id db) (ground arith) (
            apply_body-IsSettled up.id (list_snapshots export) date.0 date.1 now later db after
              result keyed o)
      ]

  process-IsSettled :
      (up : Upload) (w w' : World File)
      → IsKeyed w.db.uploads
      → process parse filename_date describe retain_uploads now later up w ≡ done w'
      → IsSettled up.id w.db w'.db
  unfolding process
  process-IsSettled up w w' keyed e =
      elim (Outcome-cases
        (parse_stored parse filename_date describe retain_uploads now later w.files up)) [
          | inl (f, n) ↦ absurd (ground arith)
          | inr (export, o) ↦
              elim (Outcome-cases
                (admit parse filename_date describe retain_uploads now later export up w.db)) [
                  | inl (f, n) ↦ absurd (ground arith)
                  | inr (u, a) ↦
                      elim (Outcome-cases (
                        record_export parse filename_date describe retain_uploads now later export
                          up w.db)) [
                            | inl (f, n) ↦ absurd (ground arith)
                            | inr (db', r) ↦
                                subst (IsSettled up.id w.db) (ground arith)
                                  (record_export-IsSettled export up w.db db' keyed r)
                          ]
                ]
        ]

  reread-IsSettled :
      (up : Upload) (w : World File) (db' : Db)
      → IsKeyed w.db.uploads
      → reread parse filename_date describe retain_uploads now later up w ≡ done db'
      → IsSettled up.id w.db db'
  unfolding reread
  reread-IsSettled up w db' keyed e =
      elim (Outcome-cases
        (parse_stored parse filename_date describe retain_uploads now later w.files up)) [
          | inl (f, n) ↦ absurd (ground arith)
          | inr (export, o) ↦ record_export-IsSettled export up w.db db' keyed (ground arith)
        ]

  pub process_next-idle :
      (w w1 : World File)
      → process_next parse filename_date describe retain_uploads now later w ≡ (false, w1)
      → (w1.db ≡ w.db) × (count waits w.db.uploads ≡ 0)
  unfolding process_next
  process_next-idle w w1 e =
      let (claimed, db') = claim_next_pending now w.db in
      elim (Result-cases (claim_next_pending now w.db).0) [
        | inl (f, n) ↦
            let facts =
              claim_next_pending-none now w.db (claim_next_pending now w.db).1 f (ground arith) in
            (ground (arith, facts.0), facts.1)
        | inr (up, n) ↦ absurd (ground arith)
      ]

  pub process_next-IsSmaller :
      (w w1 : World File)
      → IsKeyed w.db.uploads
      → process_next parse filename_date describe retain_uploads now later w ≡ (true, w1)
      → IsSmaller w.db w1.db
  unfolding process_next
  process_next-IsSmaller w w1 keyed e = elim (Result-cases (claim_next_pending now w.db).0) [
    | inl (f, n) ↦ absurd (ground arith)
    | inr (up, n) ↦
        let db1 = (claim_next_pending now w.db).1 in
        let claim = claim_next_pending-IsClaim now w.db db1 up (ground arith) in
        let keyed1 : IsKeyed db1.uploads =
          subst (λ (d : Db). IsKeyed d.uploads) (sym claim.after)
            (start_upload-IsKeyed claim.row.id now w.db keyed) in
        let w0 = record w { db = db1 } in
        elim (Outcome-cases (process parse filename_date describe retain_uploads now later up w0)) [
          | inl (f, o) ↦ subst (IsSmaller w.db) (ground arith) (
              claimed-IsSmaller now w.db up db1 (fail_upload up.id (describe f) later db1) keyed
                claim (fail_upload-IsSettled up.id (describe f) later db1))
          | inr (w2, o) ↦ subst (IsSmaller w.db) (ground arith) (
              claimed-IsSmaller now w.db up db1 w2.db keyed claim
                (process-IsSettled up w0 w2 keyed1 o))
        ]
  ]

  pub reprocess_next-idle :
      (w w1 : World File)
      → reprocess_next parse filename_date describe retain_uploads now later w ≡ (false, w1)
      → (w1 ≡ w) × (count awaits_reread w.db.uploads ≡ 0)
  unfolding reprocess_next claim_next_reprocess
  reprocess_next-idle w w1 e = elim (Option-cases (claim_next_reprocess w.db)) [
    | inl n ↦ (ground arith, first_by-none reprocess_le awaits_reread w.db.uploads n)
    | inr (up, n) ↦ absurd (ground arith)
  ]

  pub reprocess_next-IsFewer :
      (w w1 : World File)
      → IsKeyed w.db.uploads
      → reprocess_next parse filename_date describe retain_uploads now later w ≡ (true, w1)
      → IsFewer w.db w1.db
  unfolding reprocess_next claim_next_reprocess
  reprocess_next-IsFewer w w1 keyed e = elim (Option-cases (claim_next_reprocess w.db)) [
    | inl n ↦ absurd (ground arith)
    | inr (up, n) ↦
        let (m, a) = first_by-some reprocess_le awaits_reread w.db.uploads up n in
        elim (Outcome-cases (reread parse filename_date describe retain_uploads now later up w)) [
          | inl (f, o) ↦
              subst (IsFewer w.db) (ground arith)
                (finished-IsFewer up w.db w.db m a (same-IsReread up.id w.db keyed))
          | inr (db', o) ↦ subst (IsFewer w.db) (ground arith) (
              finished-IsFewer up w.db db' m a
                (settled-IsReread up.id w.db db' keyed (reread-IsSettled up w db' keyed o)))
        ]
  ]
