-- ===== src/Store/Accounts/Ensure.antt =====
-- What EnsureAccount leaves in the table of accounts.
use insta_follower_tracker.Prelude.{
  ℕ, ◌≡◌, ◌≢◌, refl, sym, ◌∙◌, ap, subst, inl, inr, Bool, true, false, List, [], ◌∷◌, none, arith,
  Bool-cases,
}
use insta_follower_tracker.Prelude.Table.{any, any-append, find}
use insta_follower_tracker.Prelude.In.{In, In-find, find_of_In, In-of_any}
use insta_follower_tracker.Prelude.Text.{Text, text_eq, text_eq_refl, text_eq→eq}
use insta_follower_tracker.Store.Models.{Account, Db, Result, ok, err, not_found}
use insta_follower_tracker.Store.Accounts.{
  normalize_handle, account_by_handle, insert_account, ensure_account,
}

-- The row of a handle.
abbrev pub has_handle : Text → Account → Bool
has_handle h a = text_eq a.handle h

pub insert_account-has_handle :
    (h : Text) (now : ℕ) (db : Db) → any (has_handle h) (insert_account h now db).accounts ≡ true
unfolding insert_account any
insert_account-has_handle h now db = elim (Bool-cases (any (has_handle h) db.accounts)) [
  | inl e ↦ ground arith
  | inr e ↦ ground (
    arith,
    any-append (has_handle h) db.accounts
        (record { id = db.next_account; handle = h; created_at = now } ∷ []),
    text_eq_refl h,
  )
]

pub ensure_account_lem :
    (handle h : Text) (now : ℕ) (db : Db)
    → normalize_handle handle ≡ h
    → h ≢ []
    → ensure_account handle now db
      ≡ (account_by_handle h (insert_account h now db), insert_account h now db)
unfolding ensure_account
ensure_account_lem handle [] now db e n = absurd (n refl)
ensure_account_lem handle (c ∷ s) now db e n = rw (ensure_account, e) refl

-- The account of a handle, as a row of the table.
pub record IsAccount (h : Text) (db : Db) (a : Account) : Type 0 where
  pub handle : a.handle ≡ h
  pub stored : In a db.accounts

account_by_handle-stored :
    (h : Text) (db : Db)
    → normalize_handle h ≡ h
    → any (has_handle h) db.accounts ≡ true
    → (a : Account) × (account_by_handle h db ≡ ok a) × IsAccount h db a
unfolding account_by_handle
account_by_handle-stored h db normal stored =
    let (a, m, k) = In-of_any (has_handle h) db.accounts stored in
    let (b, e) = find_of_In (has_handle h) a db.accounts m k in
    let (n, l) = In-find (has_handle h) b db.accounts e in
    (
      b,
      rw (account_by_handle, normal, e) refl,
      record { handle = text_eq→eq b.handle h l; stored = n },
    )

-- A handle whose normal form is not empty and is its own normal form gives an account with that
-- handle, and the table then holds it.
pub ensure_account-IsAccount :
    (handle : Text) (now : ℕ) (db : Db)
    → normalize_handle handle ≢ []
    → normalize_handle (normalize_handle handle) ≡ normalize_handle handle
    → (a : Account) × ((ensure_account handle now db).0 ≡ ok a)
      × IsAccount (normalize_handle handle) (ensure_account handle now db).1 a
ensure_account-IsAccount handle now db filled normal =
    let h = normalize_handle handle in
    let e = ensure_account_lem handle h now db refl filled in
    let (a, found, w) =
      account_by_handle-stored h (insert_account h now db) normal
        (insert_account-has_handle h now db) in
    (
      a,
      ap (λ (r : Result Account × Db). r.0) e ∙ found,
      subst (λ (d : Db). IsAccount h d a) (sym (ap (λ (r : Result Account × Db). r.1) e)) w,
    )

find_of_absent : (p : Account → Bool) (xs : List Account) → any p xs ≡ false → find p xs ≡ none
unfolding find any
find_of_absent p [] h = refl
find_of_absent p (x ∷ xs) h = ground (arith, find_of_absent p xs)

insert_account-absent :
    (h k : Text) (now : ℕ) (db : Db)
    → h ≢ k
    → any (has_handle k) db.accounts ≡ false
    → any (has_handle k) (insert_account h now db).accounts ≡ false
unfolding insert_account any
insert_account-absent h k now db n absent =
    let new : Account = record { id = db.next_account; handle = h; created_at = now } in
    elim (Bool-cases (text_eq h k)) [
      | inl same ↦ absurd (n (text_eq→eq h k same))
      | inr other ↦ ground (arith, any-append (has_handle k) db.accounts (new ∷ []))
    ]

-- Where the normal form is not its own normal form and no account has the latter, the call reports
-- that there is no such account, and leaves one with the former.
pub ensure_account-lost :
    (handle : Text) (now : ℕ) (db : Db)
    → normalize_handle handle ≢ []
    → normalize_handle (normalize_handle handle) ≢ normalize_handle handle
    → any (has_handle (normalize_handle (normalize_handle handle))) db.accounts ≡ false
    → ((ensure_account handle now db).0 ≡ err not_found)
      × (any (has_handle (normalize_handle handle)) (ensure_account handle now db).1.accounts
          ≡ true)
unfolding account_by_handle
ensure_account-lost handle now db filled abnormal absent =
    let h = normalize_handle handle in
    let e = ensure_account_lem handle h now db refl filled in
    (
      ap (λ (r : Result Account × Db). r.0) e
          ∙ (let h2 = normalize_handle h in
              rw
                (
                  account_by_handle,
                  find_of_absent (has_handle h2) (insert_account h now db).accounts
                      (insert_account-absent h h2 now db (λ same. abnormal (sym same)) absent),
                )
                refl),
      ap (λ (r : Result Account × Db). any (has_handle h) r.1.accounts) e
          ∙ insert_account-has_handle h now db,
    )
