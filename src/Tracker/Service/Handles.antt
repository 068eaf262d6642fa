-- ===== src/Tracker/Service/Handles.antt =====
-- The account that an upload without a typed handle is filed under.
use insta_follower_tracker.Prelude.{
  ℕ, zero, suc, ◌≡◌, ◌≢◌, refl, sym, ap, subst, ◌∙◌, inl, inr, true, not, ◌||◌, List, [], ◌∷◌,
  Option, none, some, arith, Bool-cases, Option-cases,
}
use insta_follower_tracker.Prelude.Text.{Text}
use insta_follower_tracker.Store.Models.{Account, Db, ok}
use insta_follower_tracker.Store.Accounts.{normalize_handle, ensure_account}
use insta_follower_tracker.Store.Accounts.Ensure.{IsAccount, ensure_account-IsAccount}
use insta_follower_tracker.Instagram.Followers.{normalize_username}
use insta_follower_tracker.Instagram.Readers.{Readers}
use insta_follower_tracker.Instagram.Page.{is_handle}
use insta_follower_tracker.Instagram.Dates.{text_from_html, valid_handle, owner_from_metadata}
use insta_follower_tracker.Instagram.Archive.{
  ZipEntry, read_archive_entry, max_json_bytes, max_archive_entries, owner_of_files,
  owner_from_archive,
}
use insta_follower_tracker.Instagram.Archive.Budget.{Parsing-cases}
use insta_follower_tracker.Instagram.FileName.{archive_name, filename_handle}
use insta_follower_tracker.Instagram.FileName.Printed.{normalize_username_plain, handle_filled}
use insta_follower_tracker.Tracker.Service.{or_owner, stored_owner, resolve_handle}

-- Where there is a handle, it is one.
abbrev Fits : Option Text → Type 0
Fits o = (h : Text) → o ≡ some h → is_handle h ≡ true

valid_handle-Fits : (s : Text) → Fits (valid_handle s)
valid_handle-Fits s h e = elim (Bool-cases (is_handle s)) [
  | inl fine ↦ ground arith
  | inr bad ↦ absurd (ground arith)
]

none-Fits : Fits none
none-Fits h e = cc e

filename_handle-Fits : (name : Text) → Fits (filename_handle name)
unfolding filename_handle
filename_handle-Fits name = elim (Option-cases (archive_name name)) [
  | inl nothing ↦ rw (filename_handle, nothing) none-Fits
  | inr (m, e) ↦ rw (filename_handle, e) (valid_handle-Fits (normalize_username m.handle))
]

module _ (readers : Readers) where
  owner_from_metadata-Fits : (body : Text) → Fits (owner_from_metadata readers body)
  unfolding owner_from_metadata
  owner_from_metadata-Fits body =
      elim (Option-cases (readers.owner_name (text_from_html readers body))) [
        | inl nothing ↦ rw (owner_from_metadata, nothing) none-Fits
        | inr (name, e) ↦ rw (owner_from_metadata, e) (valid_handle-Fits (normalize_username name))
      ]

  owner_of_files-Fits :
      (left : ℕ) (files : List ZipEntry) → Fits (owner_of_files readers left files)
  unfolding owner_of_files
  owner_of_files-Fits left [] = none-Fits
  owner_of_files-Fits zero (f ∷ fs) = none-Fits
  owner_of_files-Fits (suc left) (f ∷ fs) =
      elim (Bool-cases (f.is_dir || not (readers.is_start_here f.name))) [
        | inl other ↦ rw (owner_of_files, other) (owner_of_files-Fits left fs)
        | inr page ↦ elim (Parsing-cases (read_archive_entry f max_json_bytes)) [
          | inl (x, fail) ↦ rw (owner_of_files, page, fail) none-Fits
          | inr ((body, used), got) ↦ rw (owner_of_files, page, got) (owner_from_metadata-Fits body)
        ]
      ]

  module _ (open_zip : Text → Option (List ZipEntry)) where
    owner_from_archive-Fits : (s : Text) → Fits (owner_from_archive readers open_zip s)
    unfolding owner_from_archive
    owner_from_archive-Fits [] = none-Fits
    owner_from_archive-Fits (c ∷ s) = elim (Option-cases (open_zip (c ∷ s))) [
      | inl nothing ↦ rw (owner_from_archive, nothing) none-Fits
      | inr (files, e) ↦ rw (owner_from_archive, e) (owner_of_files-Fits max_archive_entries files)
    ]

    stored_owner-Fits : (o : Option Text) → Fits (stored_owner readers open_zip o)
    stored_owner-Fits none = none-Fits
    stored_owner-Fits (some s) = owner_from_archive-Fits s

    or_owner-Fits : (a b : Option Text) → Fits a → Fits b → Fits (or_owner a b)
    or_owner-Fits none b h k = k
    or_owner-Fits (some x) b h k = h

    normal_lem : (h : Text) → is_handle h ≡ true → normalize_handle h ≡ h
    unfolding normalize_handle normalize_username
    normal_lem h fine = normalize_username_plain h (handle_filled h fine).1

    filled_lem : (h : Text) → is_handle h ≡ true → h ≢ []
    unfolding is_handle
    filled_lem h fine e = absurd (ground arith)

    -- An upload without a typed handle, if its account can be told at all, goes to one with a handle
    -- of allowed characters, and the account of that very handle is found or made.
    pub resolve_handle-IsAccount :
        (handle filename h : Text) (stored : Option Text) (now : ℕ) (db : Db)
        → normalize_handle handle ≡ []
        → resolve_handle readers open_zip handle filename stored ≡ some h
        → (is_handle h ≡ true)
          × (a : Account) × ((ensure_account h now db).0 ≡ ok a)
          × IsAccount h (ensure_account h now db).1 a
    unfolding resolve_handle
    resolve_handle-IsAccount handle filename h stored now db untyped e =
        let fine : is_handle h ≡ true =
          or_owner-Fits (filename_handle filename) (stored_owner readers open_zip stored)
            (filename_handle-Fits filename) (stored_owner-Fits stored) h
            (sym (rw (resolve_handle, untyped) refl) ∙ e) in
        let normal = normal_lem h fine in
        let (a, found, w) =
          ensure_account-IsAccount h now db (subst (λ x. x ≢ []) (sym normal) (filled_lem h fine))
            (ap normalize_handle normal) in
        (fine, a, found, subst (λ x. IsAccount x (ensure_account h now db).1 a) normal w)
