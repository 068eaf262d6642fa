-- ===== src/Store/Accounts.antt =====
-- internal/store/queries.go: accounts and their handles. Handles are read as ASCII: a letter or a
-- space outside it is left as it is.
pub mod Ensure
pub mod Listing
pub mod History
pub mod Kinds
mod Tests
use insta_follower_tracker.Prelude.{ℕ, suc, [], ◌∷◌, ◌++◌, if◌then◌else◌}
use insta_follower_tracker.Prelude.Table.{any, find}
use insta_follower_tracker.Strings.{to_lower, trim_space, trim_prefix, trim_suffix}
use insta_follower_tracker.Prelude.Text.{Text, text_eq}
use insta_follower_tracker.Store.Models.{Account, Db, handle_required, Result, err}
use insta_follower_tracker.Store.Apply.{or_not_found}

-- A leading @ and a trailing / are taken off, once each.
unfoldable pub normalize_handle : Text → Text
unfolding trim_space to_lower trim_prefix trim_suffix
normalize_handle handle = trim_suffix 47 (trim_prefix 64 (to_lower (trim_space handle)))

unfoldable pub account_by_handle : Text → Db → Result Account
unfolding normalize_handle find
account_by_handle handle db =
    or_not_found (find (λ a. text_eq a.handle (normalize_handle handle)) db.accounts)

-- INSERT ... ON CONFLICT(handle) DO NOTHING
unfoldable pub insert_account : Text → ℕ → Db → Db
insert_account handle now db =
    if any (λ a. text_eq a.handle handle) db.accounts then db else record db {
      accounts =
          db.accounts ++ record { id = db.next_account; handle = handle; created_at = now } ∷ [];
      next_account = suc db.next_account;
    }

unfoldable pub ensure_account : Text → ℕ → Db → Result Account × Db
unfolding normalize_handle insert_account account_by_handle
ensure_account handle now db = elim (normalize_handle handle) [
  | [] ↦ (err handle_required, db)
  | c ∷ s ↦
      (account_by_handle (c ∷ s) (insert_account (c ∷ s) now db), insert_account (c ∷ s) now db)
]
