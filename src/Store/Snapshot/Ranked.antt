-- ===== src/Store/Snapshot/Ranked.antt =====
-- The number of an execution, counted from the dates of the others.
use insta_follower_tracker.Prelude.{
  ℕ, suc, ◌≤◌, ◌≡◌, refl, sym, ap, ◌∙◌, inl, inr, Bool, true, false, ◌&&◌, ◌||◌, List, [], ◌∷◌, map,
  Option, none, some, arith, ltb, ◌==◌, ==_refl, if◌then◌else◌, Bool-cases,
}
use insta_follower_tracker.Prelude.Table.{any, count, every, select}
use insta_follower_tracker.Prelude.In.{
  In, unique_row, any-false_intro, In-select_of, any_of_In, any_of_count, every_at, count-select-le,
}
use insta_follower_tracker.Prelude.Sort.{is_sorted, count-sort, In-sort_of}
use insta_follower_tracker.Store.Models.{is_completed, Upload, Db, ok}
use insta_follower_tracker.Store.Snapshot.{
  date_le, is_execution_of, executions_by_date, executions_in_date_order, recompute_account,
}
use insta_follower_tracker.Store.Snapshot.Numbering.{position}
use insta_follower_tracker.Store.Snapshot.Steps.{recomputed}
use insta_follower_tracker.Store.Snapshot.Order.{
  IsKeyed, executions_by_date-is_sorted, executions_in_date_order-any,
}
use insta_follower_tracker.Store.Snapshot.Rebuild.{recompute_account-recomputed}
use insta_follower_tracker.Store.Snapshot.Rows.{recomputed-SameRows}

-- A date that is not known is before all others.
abbrev pub is_before : Option ℕ → Option ℕ → Bool
is_before none none = false
is_before none (some t) = true
is_before (some s) none = false
is_before (some s) (some t) = ltb s t

abbrev pub is_same : Option ℕ → Option ℕ → Bool
is_same none none = true
is_same none (some t) = false
is_same (some s) none = false
is_same (some s) (some t) = s == t

-- The date of the export decides, then the time of the upload, then the id.
unfoldable pub is_earlier : Upload → Upload → Bool
is_earlier a b =
    is_before a.snapshot_taken_at b.snapshot_taken_at
    || (is_same a.snapshot_taken_at b.snapshot_taken_at
        && (ltb a.uploaded_at b.uploaded_at || (a.uploaded_at == b.uploaded_at && ltb a.id b.id)))

-- The number that a row should have: one more than there are completed executions of the account
-- earlier than it, and none if it is no completed execution.
unfoldable pub number_of_row : Db → ℕ → Upload → Option ℕ
unfolding is_earlier
number_of_row db account r =
    if is_completed r.status
    then some (
        suc (
          count (λ s. (s.account_id == account && is_completed s.status) && is_earlier s r)
            db.uploads))
    else none

date_le-not_earlier : (a b : Upload) → date_le a b ≡ true → is_earlier b a ≡ false
unfolding date_le is_earlier
date_le-not_earlier a b h = dates a.snapshot_taken_at b.snapshot_taken_at refl refl
  where
    dates :
        (s t : Option ℕ)
        → a.snapshot_taken_at ≡ s
        → b.snapshot_taken_at ≡ t
        → is_earlier b a ≡ false
    dates none none e f = ground arith
    dates none (some t) e f = ground arith
    dates (some s) none e f = ground arith
    dates (some s) (some t) e f = ground arith

date_le-earlier :
    (a b : Upload) → date_le a b ≡ true → (a.id == b.id) ≡ false → is_earlier a b ≡ true
unfolding date_le is_earlier
date_le-earlier a b h n = dates a.snapshot_taken_at b.snapshot_taken_at refl refl
  where
    dates :
        (s t : Option ℕ) → a.snapshot_taken_at ≡ s → b.snapshot_taken_at ≡ t → is_earlier a b ≡ true
    dates none none e f = ground arith
    dates none (some t) e f = ground arith
    dates (some s) none e f = ground arith
    dates (some s) (some t) e f = ground arith

earlier_self : (r : Upload) → is_earlier r r ≡ false
unfolding is_earlier
earlier_self r = dates r.snapshot_taken_at refl
  where
    dates : (s : Option ℕ) → r.snapshot_taken_at ≡ s → is_earlier r r ≡ false
    dates none e = ground arith
    dates (some s) e = ground arith

count-none_earlier :
    (r : Upload) (xs : List Upload)
    → every (date_le r) xs ≡ true
    → count (λ s. is_earlier s r) xs ≡ 0
unfolding count every
count-none_earlier r [] h = refl
count-none_earlier r (x ∷ xs) h = ground (arith, date_le-not_earlier r x, count-none_earlier r xs)

position-count :
    (r : Upload) (xs : List Upload)
    → is_sorted date_le xs ≡ true
    → ((x : ℕ) → count (λ s. s.id == x) xs ≤ 1)
    → In r xs
    → position (map (λ u. u.id) xs) r.id ≡ some (suc (count (λ s. is_earlier s r) xs))
unfolding position count is_sorted
position-count r [] s keyed m = absurd m
position-count r (x ∷ xs) s keyed (inl e) =
    ground (arith, e, ==_refl r.id, earlier_self r, count-none_earlier r xs)
position-count r (x ∷ xs) s keyed (inr m) =
    let least = every_at (date_le x) r xs (ground arith) m in
    let again = any_of_In (λ t. t.id == r.id) r xs m (==_refl r.id) in
    elim (Bool-cases (x.id == r.id)) [
      | inl same ↦ absurd (ground (arith, keyed r.id, any_of_count (λ t. t.id == r.id) xs))
      | inr other ↦ ground (
        arith,
        date_le-earlier x r least other,
        position-count r xs (ground arith) (λ y. ground (arith, keyed y)) m,
      )
    ]

count-select :
    (p q : Upload → Bool) (xs : List Upload) → count p (select q xs) ≡ count (λ x. q x && p x) xs
unfolding count select
count-select p q [] = refl
count-select p q (x ∷ xs) = ground (arith, count-select p q xs)

executions-keyed :
    (db : Db) (account : ℕ)
    → IsKeyed db.uploads
    → (x : ℕ) → count (λ s. s.id == x) (executions_by_date db account) ≤ 1
unfolding executions_by_date
executions-keyed db account keyed x =
    let p = λ (s : Upload). s.id == x in
    ground (
      arith,
      count-sort date_le p (select (is_execution_of account) db.uploads),
      count-select-le p (is_execution_of account) db.uploads,
      keyed x,
    )

executed-position :
    (db : Db) (account : ℕ) (r : Upload)
    → IsKeyed db.uploads
    → In r db.uploads
    → is_execution_of account r ≡ true
    → position (executions_in_date_order db account) r.id
      ≡ some (suc (count (λ s. is_execution_of account s && is_earlier s r) db.uploads))
unfolding executions_in_date_order executions_by_date
executed-position db account r keyed m h =
    let chosen = select (is_execution_of account) db.uploads in
    position-count r (executions_by_date db account) (executions_by_date-is_sorted db account)
      (executions-keyed db account keyed)
      (In-sort_of date_le r chosen (In-select_of (is_execution_of account) r db.uploads m h))
    ∙ ap (λ n. some (suc n))
        (count-sort date_le (λ s. is_earlier s r) chosen
          ∙ count-select (λ s. is_earlier s r) (is_execution_of account) db.uploads)

absent-position : (us : List ℕ) (x : ℕ) → any (λ v. v == x) us ≡ false → position us x ≡ none
unfolding position any
absent-position [] x h = refl
absent-position (u ∷ us) x h = ground (arith, absent-position us x)

-- A row that is not completed has no place, as no other row has its id.
waiting-position :
    (db : Db) (account : ℕ) (r : Upload)
    → IsKeyed db.uploads
    → In r db.uploads
    → is_completed r.status ≡ false
    → position (executions_in_date_order db account) r.id ≡ none
waiting-position db account r keyed m h =
    absent-position (executions_in_date_order db account) r.id (
      executions_in_date_order-any db account r.id
      ∙ any-false_intro (λ s. is_execution_of account s && s.id == r.id) db.uploads
          (λ s n. elim (Bool-cases (s.id == r.id)) [
            | inl same ↦
                let one =
                  unique_row (λ t. t.id == r.id) s r db.uploads (keyed r.id) n m same
                    (==_refl r.id) in
                ground (arith, one)
            | inr other ↦ ground arith
          ]))

placed-number :
    (db : Db) (account : ℕ) (r : Upload)
    → IsKeyed db.uploads
    → In r db.uploads
    → r.account_id ≡ account
    → position (executions_in_date_order db account) r.id ≡ number_of_row db account r
unfolding number_of_row
placed-number db account r keyed m own = elim (Bool-cases (is_completed r.status)) [
  | inl done ↦
      rw done (executed-position db account r keyed m (ground (arith, own, ==_refl account)))
  | inr waits ↦ rw waits (waiting-position db account r keyed m waits)
]

-- Where the ids of uploads are distinct the rebuild succeeds, the unique index included. Each row of
-- the account is then an upload that was there, with the same status. A completed one has as number
-- one more than there are completed executions of the account that are earlier by date, then time of
-- upload, then id, an unknown date first; one that is not completed has no number.
pub recompute_account-number :
    (account now : ℕ) (db : Db)
    → IsKeyed db.uploads
    → (db' : Db) × (recompute_account account now db ≡ ok db')
      × ((r' : Upload)
          → In r' db'.uploads
          → r'.account_id ≡ account
          → (r : Upload) × In r db.uploads
            × (r'.id ≡ r.id)
            × (r'.status ≡ r.status)
            × (r'.sequence_no ≡ number_of_row db account r))
recompute_account-number account now db keyed =
    let (e, numbered) = recompute_account-recomputed account now db keyed in
    (
      recomputed account now db,
      e,
      λ r' m own.
          let (r, n, same) = (recomputed-SameRows account now db).back r' m in
          (
            r,
            n,
            same.id,
            same.status,
            numbered r' m own
                ∙ ap (position (executions_in_date_order db account)) same.id
                ∙ placed-number db account r keyed n (sym same.account ∙ own),
          ),
    )
