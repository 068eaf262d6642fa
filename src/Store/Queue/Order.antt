-- ===== src/Store/Queue/Order.antt =====
-- The order in which the queues are served, and what is put on the rereading queue.
use insta_follower_tracker.Prelude.{
  ℕ, ◌+◌, ◌≡◌, ◌<◌, ◌≤◌, ◌⊎◌, ltb, refl, sym, ◌∙◌, inl, inr, Bool, true, false, not, ◌&&◌, List, [],
  ◌∷◌, Option, none, some, arith, ◌==◌, Option-cases, Bool-cases,
}
use insta_follower_tracker.Prelude.Table.{every, count, select, update_where}
use insta_follower_tracker.Prelude.In.{In, In-select_of, every_at}
use insta_follower_tracker.Prelude.Sort.{sort, is_sorted, sort-is_sorted, every-sort}
use insta_follower_tracker.Store.Models.{is_pending, is_completed, Upload, Db, ok}
use insta_follower_tracker.Store.Queue.{
  first_by, upload_le, claim_next_pending, is_none, mark_for_reprocess, reprocess_count,
}
use insta_follower_tracker.Store.Queue.Claims.{first_by-some, read_back-row}

module _ (le : Upload → Upload → Bool) (total : (a b : Upload) → le a b ≡ false → le b a ≡ true)
    (trans : (a b c : Upload) → le a b ≡ true → le b c ≡ true → le a c ≡ true) where
  le_refl : (a : Upload) → le a a ≡ true
  le_refl a = elim (Bool-cases (le a a)) [ inl e ↦ e | inr e ↦ total a a e ]

  head-every :
      (xs : List Upload) (r : Upload)
      → is_sorted le xs ≡ true
      → ◌≡◌ {A = Option Upload} (elim xs [ [] ↦ none | x ∷ rest ↦ some x ]) (some r)
      → every (le r) xs ≡ true
  unfolding is_sorted every
  head-every [] r s e = refl
  head-every (x ∷ xs) r s e = ground (arith, le_refl r)

  -- What ORDER BY ... LIMIT 1 returns is not after any row that passes.
  pub first_by-least :
      (p : Upload → Bool) (rows : List Upload) (r a : Upload)
      → first_by le (select p rows) ≡ some r
      → In a rows
      → p a ≡ true
      → le r a ≡ true
  unfolding first_by
  first_by-least p rows r a e m h =
      every_at (le r) a (select p rows)
        (sym (every-sort le (le r) (select p rows))
          ∙ head-every (sort le (select p rows)) r (sort-is_sorted le total trans (select p rows))
              e)
        (In-select_of p a rows m h)

upload_le_total : (a b : Upload) → upload_le a b ≡ false → upload_le b a ≡ true
unfolding upload_le
upload_le_total a b h = ground arith

upload_le_trans :
    (a b c : Upload) → upload_le a b ≡ true → upload_le b c ≡ true → upload_le a c ≡ true
unfolding upload_le
upload_le_trans a b c h k = ground arith

-- Uploaded before, or in the same second with an id that is not greater.
abbrev pub IsOlder : Upload → Upload → Type 0
IsOlder a b = (a.uploaded_at < b.uploaded_at) ⊎ ((a.uploaded_at ≡ b.uploaded_at) × (a.id ≤ b.id))

upload_le-IsOlder : (a b : Upload) → upload_le a b ≡ true → IsOlder a b
unfolding upload_le
upload_le-IsOlder a b h = elim (Bool-cases (ltb a.uploaded_at b.uploaded_at)) [
  | inl sooner ↦ inl (ground arith)
  | inr later ↦ inr (ground arith, ground arith)
]

-- The upload that is claimed is a waiting one, and none that waits was uploaded before it; of two
-- uploaded in one second the lesser id is taken.
pub claim_next_pending-oldest :
    (now : ℕ) (db db' : Db) (up : Upload)
    → claim_next_pending now db ≡ (ok up, db')
    → (row : Upload) × In row db.uploads
      × (is_pending row.status ≡ true)
      × (up.id ≡ row.id)
      × ((a : Upload) → In a db.uploads → is_pending a.status ≡ true → IsOlder row a)
unfolding claim_next_pending
claim_next_pending-oldest now db db' up h =
    elim (Option-cases (first_by upload_le (select (λ r. is_pending r.status) db.uploads))) [
      | inl n ↦ absurd (ground arith)
      | inr (r, s) ↦
          let (m, w) = first_by-some upload_le (λ r. is_pending r.status) db.uploads r s in
          let (b, f, i) = read_back-row now r db m in
          (
            r,
            m,
            w,
            ground arith,
            λ a n k. upload_le-IsOlder r a (
                first_by-least upload_le upload_le_total upload_le_trans (λ x. is_pending x.status)
                  db.uploads r a s n k),
          )
    ]

-- The number that is reported by queueing the executions of an account is the growth of the queue.
pub mark_for_reprocess-count :
    (account now : ℕ) (db : Db)
    → reprocess_count (mark_for_reprocess account now db).1
      ≡ reprocess_count db + (mark_for_reprocess account now db).0
unfolding mark_for_reprocess reprocess_count count
mark_for_reprocess-count account now db = grow db.uploads
  where
    grow :
        (rows : List Upload)
        → let chosen = λ (r : Upload).
          r.account_id == account && is_completed r.status && is_none r.reprocess_at in
          count
            (λ r. not (is_none r.reprocess_at))
            (update_where chosen (λ r. record r { reprocess_at = some now }) rows)
          ≡ count (λ r. not (is_none r.reprocess_at)) rows + count chosen rows
    grow [] = omega arith
    grow (r ∷ rows) = ground (arith, grow rows)
