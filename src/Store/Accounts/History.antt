-- ===== src/Store/Accounts/History.antt =====
-- The history of an account, oldest execution first, and the kinds that it recorded.
use insta_follower_tracker.Prelude.{
  ℕ, ◌≡◌, refl, ◌∙◌, inl, inr, Bool, true, false, not, ◌&&◌, ◌||◌, List, [], ◌∷◌, ◌++◌, arith, ◌==◌,
  leb, Bool-cases,
}
use insta_follower_tracker.Prelude.Table.{
  any, any-append, any-select, every, every-append, every_mono, select,
}
use insta_follower_tracker.Prelude.In.{In, In-select, every_intro}
use insta_follower_tracker.Prelude.Sort.{is_sorted, sort-is_sorted, every-sort, any-sort}
use insta_follower_tracker.Store.Models.{is_completed, Upload, Db}
use insta_follower_tracker.Store.Snapshot.{date_key}
use insta_follower_tracker.Store.Queue.{is_none}
use insta_follower_tracker.Store.Accounts.Listing.{
  newest_le, list_uploads, ExecutionTotals, list_totals_for_upload, history_of, account_history,
}

-- The executions of an account have numbers, as a rebuild leaves them.
abbrev pub IsAllNumbered : Db → ℕ → Type 0
IsAllNumbered db account =
    (r : Upload)
    → In r db.uploads
    → r.account_id ≡ account
    → is_completed r.status ≡ true
    → is_none r.sequence_no ≡ false

abbrev pub older : ExecutionTotals → ExecutionTotals → Bool
older a b = leb (date_key a.upload.sequence_no) (date_key b.upload.sequence_no)

newest_le_total : (a b : Upload) → newest_le a b ≡ false → newest_le b a ≡ true
unfolding newest_le
newest_le_total a b h = ground arith

newest_le_trans :
    (a b c : Upload) → newest_le a b ≡ true → newest_le b c ≡ true → newest_le a c ≡ true
unfolding newest_le
newest_le_trans a b c h k = ground arith

is_sorted-append_last :
    (xs : List ExecutionTotals) (y : ExecutionTotals)
    → is_sorted older (xs ++ y ∷ []) ≡ (is_sorted older xs && every (λ x. older x y) xs)
unfolding is_sorted every
is_sorted-append_last [] y = refl
is_sorted-append_last (x ∷ xs) y =
    ground (arith, every-append (older x) xs (y ∷ []), is_sorted-append_last xs y)

history_of-every :
    (q : Upload → Bool) (db : Db) (rows : List Upload)
    → every (λ e. q e.upload) (history_of db rows)
      ≡ every (λ r. not (is_completed r.status) || q r) rows
unfolding history_of every
history_of-every q db [] = refl
history_of-every q db (r ∷ rows) =
    let new : ExecutionTotals = record { upload = r; lists = list_totals_for_upload db r.id } in
    ground (
      arith,
      every-append (λ e. q e.upload) (history_of db rows) (new ∷ []),
      history_of-every q db rows,
    )

history_of-any :
    (q : Upload → Bool) (db : Db) (rows : List Upload)
    → any (λ e. q e.upload) (history_of db rows) ≡ any (λ r. is_completed r.status && q r) rows
unfolding history_of any
history_of-any q db [] = refl
history_of-any q db (r ∷ rows) =
    let new : ExecutionTotals = record { upload = r; lists = list_totals_for_upload db r.id } in
    ground (
      arith,
      any-append (λ e. q e.upload) (history_of db rows) (new ∷ []),
      history_of-any q db rows,
    )

after_newest :
    (r : Upload) (rows : List Upload)
    → is_none r.sequence_no ≡ false
    → every (newest_le r) rows ≡ true
    → every
        (λ s. not (is_completed s.status) || leb (date_key s.sequence_no) (date_key r.sequence_no))
        rows
      ≡ true
unfolding newest_le
after_newest r rows n h = every_mono (newest_le r) _ rows (λ s e. ground arith) h

history_of-is_sorted :
    (db : Db) (rows : List Upload)
    → is_sorted newest_le rows ≡ true
    → every (λ r. not (is_completed r.status) || not (is_none r.sequence_no)) rows ≡ true
    → is_sorted older (history_of db rows) ≡ true
unfolding history_of is_sorted every
history_of-is_sorted db [] s h = refl
history_of-is_sorted db (r ∷ rows) s h =
    let new : ExecutionTotals = record { upload = r; lists = list_totals_for_upload db r.id } in
    elim (Bool-cases (is_completed r.status)) [
      | inl done ↦ ground (
        arith,
        is_sorted-append_last (history_of db rows) new,
        history_of-every (λ x. leb (date_key x.sequence_no) (date_key r.sequence_no)) db rows,
        after_newest r rows (ground arith) (ground arith),
        history_of-is_sorted db rows (ground arith) (ground arith),
      )
      | inr other ↦ ground (arith, history_of-is_sorted db rows (ground arith) (ground arith))
    ]

-- The history of an account whose executions have numbers lists them in the order of the numbers,
-- and holds an upload of the account exactly if it is completed.
pub account_history-is_sorted :
    (db : Db) (account : ℕ) (p : Upload → Bool)
    → IsAllNumbered db account
    → (is_sorted older (account_history db account) ≡ true)
      × (any (λ e. p e.upload) (account_history db account)
          ≡ any (λ r. r.account_id == account && (is_completed r.status && p r)) db.uploads)
unfolding account_history list_uploads
account_history-is_sorted db account p numbered = (
  history_of-is_sorted db (list_uploads db account)
      (sort-is_sorted newest_le newest_le_total newest_le_trans
        (select (λ r. r.account_id == account) db.uploads))
      (every-sort newest_le _ (select (λ r. r.account_id == account) db.uploads)
        ∙ every_intro _ (select (λ r. r.account_id == account) db.uploads) (λ r m.
          let (n, e) = In-select (λ r. r.account_id == account) r db.uploads m in
          ground (arith, numbered r n))),
  history_of-any p db (list_uploads db account)
      ∙ any-sort newest_le (λ r. is_completed r.status && p r)
          (select (λ r. r.account_id == account) db.uploads)
      ∙ any-select (λ r. is_completed r.status && p r) (λ r. r.account_id == account) db.uploads,
)
