-- ===== src/Tracker/Worker/Drain.antt =====
-- The loop of the worker ends, and ends with both queues empty.
use insta_follower_tracker.Prelude.{
  ℕ, zero, suc, ◌+◌, ◌*◌, ◌≤◌, ◌<◌, ◌≡◌, refl, subst, sym, ◌∙◌, ap, inl, inr, Bool, ◌||◌, List, [],
  ◌∷◌, Option, none, arith, ◌==◌, Bool-cases,
}
use insta_follower_tracker.Prelude.Table.{count, count-update, update_where}
use insta_follower_tracker.Prelude.Text.{Text}
use insta_follower_tracker.Store.Models.{Status, Upload, Db}
use insta_follower_tracker.Store.Snapshot.Order.{IsKeyed}
use insta_follower_tracker.Store.Queue.{awaits_reread, requeue_processing, pending_count}
use insta_follower_tracker.Store.Queue.Settled.{waits, runs}
use insta_follower_tracker.Instagram.Export.{Export}
use insta_follower_tracker.Tracker.Worker.{ProcessError, World, process_next, reprocess_next, drain}
use insta_follower_tracker.Tracker.Worker.Progress.{
  process_next-idle, process_next-IsSmaller, reprocess_next-idle, reprocess_next-IsFewer,
}

-- An upload that waits may come to await a reread, so it counts twice.
abbrev pub backlog : Db → ℕ
backlog db = 2 * count waits db.uploads + count awaits_reread db.uploads

-- Both queues are empty, and no more uploads are in flight than before.
pub record IsDrained (db db' : Db) : Type 0 where
  pub none_waits : count waits db'.uploads ≡ 0
  pub none_awaits : count awaits_reread db'.uploads ≡ 0
  pub running : count runs db'.uploads ≤ count runs db.uploads

IsDrained-after :
    (db db1 db' : Db)
    → count runs db1.uploads ≤ count runs db.uploads
    → IsDrained db1 db'
    → IsDrained db db'
IsDrained-after db db1 db' h d = record {
  none_waits = d.none_waits;
  none_awaits = d.none_awaits;
  running = omega (arith, h, d.running);
}

module _ {File : Type 0} (parse : File → Option Export) (filename_date : Text → Option ℕ)
    (describe : ProcessError → Text) (retain_uploads : Bool) (now later : ℕ) where
  -- Where the ids of uploads are distinct, more rounds than the backlog let the loop end with no
  -- upload waiting, none awaiting a reread, and no more in flight than before.
  pub drain-IsDrained :
      (fuel : ℕ) (w : World File)
      → IsKeyed w.db.uploads
      → backlog w.db < fuel
      → IsDrained w.db (drain parse filename_date describe retain_uploads now later fuel w).db
  unfolding drain
  drain-IsDrained zero w keyed h = absurd (omega arith)
  drain-IsDrained (suc fuel) w keyed h =
      let called = process_next parse filename_date describe retain_uploads now later w in
      let w1 = called.1 in
      let reread_call = reprocess_next parse filename_date describe retain_uploads now later w1 in
      elim (Bool-cases called.0) [
        | inl took ↦
            let s =
              process_next-IsSmaller parse filename_date describe retain_uploads now later w w1
                keyed (ap (λ (b : Bool). (b, w1)) took) in
            rw (drain, took)
              (IsDrained-after w.db w1.db _ s.running
                (drain-IsDrained fuel w1 s.keyed (omega (arith, s.waiting, s.awaiting, h))))
        | inr idle ↦
            let (same, none_waits) =
              process_next-idle parse filename_date describe retain_uploads now later w w1
                (ap (λ (b : Bool). (b, w1)) idle) in
            elim (Bool-cases reread_call.0) [
              | inl again ↦
                  let s =
                    reprocess_next-IsFewer parse filename_date describe retain_uploads now later w1
                      reread_call.1 (subst (λ (d : Db). IsKeyed d.uploads) (sym same) keyed)
                      (ap (λ (b : Bool). (b, reread_call.1)) again) in
                  rw (drain, idle, again)
                    (IsDrained-after w.db reread_call.1.db _
                      (omega (arith, s.running, ap (λ (d : Db). count runs d.uploads) same))
                      (drain-IsDrained fuel reread_call.1 s.keyed (
                        omega (
                          arith,
                          s.waiting,
                          s.awaiting,
                          ap (λ (d : Db). count waits d.uploads) same,
                          ap (λ (d : Db). count awaits_reread d.uploads) same,
                          h,
                        ))))
              | inr stop ↦
                  let (end, none_awaits) =
                    reprocess_next-idle parse filename_date describe retain_uploads now later w1
                      reread_call.1 (ap (λ (b : Bool). (b, reread_call.1)) stop) in
                  rw (drain, idle, stop)
                    (record {
                      none_waits =
                          ap (λ (x : World File). count waits x.db.uploads) end
                          ∙ ap (λ (d : Db). count waits d.uploads) same
                          ∙ none_waits;
                      none_awaits =
                          ap (λ (x : World File). count awaits_reread x.db.uploads) end
                          ∙ none_awaits;
                      running = omega (
                        arith,
                        ap (λ (x : World File). count runs x.db.uploads) end,
                        ap (λ (d : Db). count runs d.uploads) same,
                      );
                    })
            ]
      ]

requeue_processing-runs : (db : Db) → count runs (requeue_processing db).1.uploads ≡ 0
unfolding requeue_processing count
requeue_processing-runs db = none_runs db.uploads
  where
    none_runs :
        (rows : List Upload)
        → count runs
            (update_where runs (λ r. record r { status = Status.pending; started_at = none }) rows)
          ≡ 0
    none_runs [] = refl
    none_runs (r ∷ rows) = ground (arith, none_runs rows)

requeue_processing-IsKeyed :
    (db : Db) → IsKeyed db.uploads → IsKeyed (requeue_processing db).1.uploads
unfolding requeue_processing
requeue_processing-IsKeyed db keyed x =
    rw
      (count-update (λ r. r.id == x) runs
        (λ r. record r { status = Status.pending; started_at = none }) db.uploads (λ r. refl))
      (keyed x)

pending_count-split : (db : Db) → pending_count db ≤ count waits db.uploads + count runs db.uploads
unfolding pending_count count
pending_count-split db = split db.uploads
  where
    split :
        (rows : List Upload)
        → count (λ r. waits r || runs r) rows ≤ count waits rows + count runs rows
    split [] = omega arith
    split (r ∷ rows) = ground (arith, split rows)

-- The state after a restart: what a crash left in flight is queued again, then the loop runs.
abbrev pub restarted :
    {File : Type 0}
    → (File → Option Export)
    → (Text → Option ℕ)
    → (ProcessError → Text)
    → Bool
    → ℕ
    → ℕ
    → ℕ
    → World File
    → World File
restarted parse filename_date describe retain_uploads now later fuel w =
    drain parse filename_date describe retain_uploads now later fuel
      (record w { db = (requeue_processing w.db).1 })

-- Where the ids of uploads are distinct and there are more rounds than the backlog of the requeued
-- state, after a restart no upload is queued or in flight, whatever the parser makes of the files.
pub restart-pending_count :
    {File : Type 0} (parse : File → Option Export) (filename_date : Text → Option ℕ)
    (describe : ProcessError → Text) (retain_uploads : Bool) (now later fuel : ℕ) (w : World File)
    → IsKeyed w.db.uploads
    → backlog (requeue_processing w.db).1 < fuel
    → pending_count (restarted parse filename_date describe retain_uploads now later fuel w).db ≡ 0
restart-pending_count parse filename_date describe retain_uploads now later fuel w keyed h =
    let start = record w { db = (requeue_processing w.db).1 } in
    let d =
      drain-IsDrained parse filename_date describe retain_uploads now later fuel start
        (requeue_processing-IsKeyed w.db keyed) h in
    let end = (drain parse filename_date describe retain_uploads now later fuel start).db in
    omega (arith, d.none_waits, d.running, requeue_processing-runs w.db, pending_count-split end)
