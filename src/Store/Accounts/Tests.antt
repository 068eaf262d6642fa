-- ===== src/Store/Accounts/Tests.antt =====
-- Handles at concrete texts, and the theorems at them.
use insta_follower_tracker.Prelude.{
  if◌then◌else◌, ◌≡◌, refl, inl, inr, true, ◌&&◌, [], ◌∷◌, map, none, some, ◌==◌, arith,
}
use insta_follower_tracker.Prelude.Sort.{is_sorted}
use insta_follower_tracker.Prelude.Table.{any, count, select}
use insta_follower_tracker.Prelude.Text.{codes, text_eq}
use insta_follower_tracker.Store.Models.{
  is_completed, completed, pending, followers, following, kind_eq, Db, Account, ok, err, not_found,
}
use insta_follower_tracker.Store.Accounts.{normalize_handle, ensure_account}
use insta_follower_tracker.Store.Accounts.Ensure.{
  has_handle, IsAccount, ensure_account-IsAccount, ensure_account-lost,
}
use insta_follower_tracker.Store.Samples.{sample, upload_at}
use insta_follower_tracker.Store.Accounts.Listing.{account_history, list_kinds_for_account}
use insta_follower_tracker.Store.Accounts.Kinds.{
  name_le, ever_recorded, list_kinds_for_account-once,
}
use insta_follower_tracker.Store.Accounts.History.{IsAllNumbered, older, account_history-is_sorted}

normalize_handle_run : normalize_handle (codes " @Bob_1/ ") ≡ codes "bob_1"
unfolding normalize_handle
normalize_handle_run = refl

normalize_handle_twice_run : normalize_handle (codes "@@bob") ≡ codes "@bob"
unfolding normalize_handle
normalize_handle_twice_run = refl

ensure_account-IsAccount_example :
    (a : Account) × ((ensure_account (codes "@Bob") 7 sample).0 ≡ ok a)
    × IsAccount (normalize_handle (codes "@Bob")) (ensure_account (codes "@Bob") 7 sample).1 a
unfolding normalize_handle
ensure_account-IsAccount_example = ensure_account-IsAccount (codes "@Bob") 7 sample (λ e. cc e) refl

ensure_account-lost_example :
    ((ensure_account (codes "@@bob") 7 sample).0 ≡ err not_found)
    × (any
          (has_handle (normalize_handle (codes "@@bob")))
          (ensure_account (codes "@@bob") 7 sample).1.accounts
        ≡ true)
unfolding normalize_handle any text_eq
ensure_account-lost_example =
    ensure_account-lost (codes "@@bob") 7 sample (λ e. cc e) (λ e. cc e) refl

-- Two executions with numbers, the later one first in the table.
abbrev numbered : Db
numbered = record sample {
  uploads =
      record (upload_at 3 completed (some 300) 30) { sequence_no = some 2 }
      ∷ record (upload_at 2 completed (some 100) 20) { sequence_no = some 1 }
      ∷ upload_at 4 pending none 40
      ∷ [];
}

numbered-IsAllNumbered : IsAllNumbered numbered 1
numbered-IsAllNumbered r (inl e) o c = ground arith
numbered-IsAllNumbered r (inr (inl e)) o c = ground arith
numbered-IsAllNumbered r (inr (inr (inl e))) o c = ground arith
numbered-IsAllNumbered r (inr (inr (inr m))) o c = absurd m

account_history_run : map (λ e. e.upload.id) (account_history numbered 1) ≡ 2 ∷ 3 ∷ []
unfolding account_history select
account_history_run = refl

account_history-is_sorted_example :
    (is_sorted older (account_history numbered 1) ≡ true)
    × (any (λ e. e.upload.id == 2) (account_history numbered 1)
        ≡ any (λ r. r.account_id == 1 && (is_completed r.status && r.id == 2)) numbered.uploads)
account_history-is_sorted_example =
    account_history-is_sorted numbered 1 (λ r. r.id == 2) numbered-IsAllNumbered

list_kinds_for_account_run : list_kinds_for_account sample 1 ≡ followers ∷ following ∷ []
unfolding list_kinds_for_account any
list_kinds_for_account_run = refl

list_kinds_for_account-once_example :
    (is_sorted name_le (list_kinds_for_account sample 1) ≡ true)
    × (count (kind_eq following) (list_kinds_for_account sample 1)
        ≡ (if ever_recorded sample 1 following then 1 else 0))
list_kinds_for_account-once_example = list_kinds_for_account-once sample 1 following
