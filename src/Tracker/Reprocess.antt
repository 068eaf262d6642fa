-- ===== src/Tracker/Reprocess.antt =====
-- internal/tracker/reprocess.go: queueing the executions of an account to be read again.
use insta_follower_tracker.Prelude.{
  ℕ, ◌+◌, ◌≡◌, refl, sym, ap, ◌∙◌, false, ◌&&◌, List, [], ◌∷◌, some, arith, ◌==◌,
}
use insta_follower_tracker.Prelude.Table.{any, update_where}
use insta_follower_tracker.Prelude.Text.{Text}
use insta_follower_tracker.Store.Models.{is_completed, Account, Upload, Db, Result, ok, err}
use insta_follower_tracker.Store.Queue.{is_none, mark_for_reprocess, reprocess_count}
use insta_follower_tracker.Store.Queue.Order.{mark_for_reprocess-count}
use insta_follower_tracker.Store.Accounts.{account_by_handle}

abbrev pub queued : Result Account → ℕ → Db → Result ℕ × Db
queued (err e) now db = (err e, db)
queued (ok a) now db = let (n, db') = mark_for_reprocess a.id now db in (ok n, db')

-- The number queued, and the new state.
unfoldable pub reprocess : Text → ℕ → Db → Result ℕ × Db
unfolding account_by_handle mark_for_reprocess
reprocess handle now db = queued (account_by_handle handle db) now db

marked :
    (account now : ℕ) (rows : List Upload)
    → let chosen = λ (r : Upload).
      r.account_id == account && is_completed r.status && is_none r.reprocess_at in
      any chosen (update_where chosen (λ r. record r { reprocess_at = some now }) rows) ≡ false
unfolding any
marked account now [] = refl
marked account now (r ∷ rows) = ground (arith, marked account now rows)

queued-all :
    (found : Result Account) (n now : ℕ) (db db' : Db)
    → queued found now db ≡ (ok n, db')
    → (a : Account) × (found ≡ ok a)
      × (any
            (λ r. r.account_id == a.id && is_completed r.status && is_none r.reprocess_at)
            db'.uploads
          ≡ false)
      × (reprocess_count db' ≡ reprocess_count db + n)
unfolding mark_for_reprocess
queued-all (err e) n now db db' h = absurd (ground arith)
queued-all (ok a) n now db db' h =
    let after = (mark_for_reprocess a.id now db).1 in
    let same : after ≡ db' = ground arith in
    let chosen =
      λ (r : Upload). r.account_id == a.id && is_completed r.status && is_none r.reprocess_at in
    (
      a,
      refl,
      sym (ap (λ (d : Db). any chosen d.uploads) same) ∙ marked a.id now db.uploads,
      sym (ap reprocess_count same)
          ∙ mark_for_reprocess-count a.id now db
          ∙ ap (λ (i : ℕ). reprocess_count db + i) (ground arith),
    )

-- Where it succeeds, the handle has an account, each of its executions awaits a reread, and the
-- number returned is the growth of the queue.
pub reprocess-queued :
    (handle : Text) (n now : ℕ) (db db' : Db)
    → reprocess handle now db ≡ (ok n, db')
    → (a : Account) × (account_by_handle handle db ≡ ok a)
      × (any
            (λ r. r.account_id == a.id && is_completed r.status && is_none r.reprocess_at)
            db'.uploads
          ≡ false)
      × (reprocess_count db' ≡ reprocess_count db + n)
unfolding reprocess
reprocess-queued handle n now db db' h = queued-all (account_by_handle handle db) n now db db' h
