-- ===== src/Store/Accounts/Listing.antt =====
-- internal/store/queries.go and diff.go: the listings that the pages read.
use insta_follower_tracker.Prelude.{
  ℕ, Bool, true, not, ◌&&◌, ◌||◌, List, [], ◌∷◌, ◌++◌, Option, none, some, map, leb, ltb, ◌==◌,
  if◌then◌else◌,
}
use insta_follower_tracker.Prelude.Table.{any, count, select}
use insta_follower_tracker.Prelude.Sort.{sort}
use insta_follower_tracker.Prelude.Text.{Text, text_eq, text_le, codes}
use insta_follower_tracker.Store.Models.{
  is_completed, ListKind, rank, kind_eq, followers, Account, User, SnapshotMember, Upload,
  UploadList, Db, ok, err,
}
use insta_follower_tracker.Store.Snapshot.{date_key}
use insta_follower_tracker.Store.Queue.{first_by, number_ge, boundary_upload, is_none}
use insta_follower_tracker.Store.Diff.{in_list, kind_or_default}

pub record AccountSummary : Type 0 where
  pub account : Account
  pub upload_count : ℕ
  pub completed_count : ℕ
  pub follower_count : ℕ
  pub last_upload_at : Option ℕ

-- MAX, which is NULL over no rows.
unfoldable pub latest_upload_at : List Upload → Option ℕ
latest_upload_at [] = none
latest_upload_at (r ∷ rs) = elim (latest_upload_at rs) [
  | none ↦ some r.uploaded_at
  | some t ↦ some (if ltb t r.uploaded_at then r.uploaded_at else t)
]

abbrev pub count_or_zero : Option Upload → ℕ
count_or_zero none = 0
count_or_zero (some r) = r.follower_count

unfoldable pub summary_of : Db → Account → AccountSummary
unfolding latest_upload_at first_by
summary_of db a =
    let own = select (λ r. r.account_id == a.id) db.uploads in
    record {
      account = a;
      upload_count = count (λ r. true) own;
      completed_count = count (λ r. is_completed r.status) own;
      follower_count = count_or_zero (
          first_by number_ge
            (select (λ r. r.account_id == a.id && is_completed r.status) db.uploads));
      last_upload_at = latest_upload_at own;
    }

-- ORDER BY a.handle
unfoldable pub list_accounts : Db → List AccountSummary
unfolding sort summary_of
list_accounts db = map (summary_of db) (sort (λ a b. text_le a.handle b.handle) db.accounts)

-- ORDER BY sequence_no IS NULL DESC, sequence_no DESC, uploaded_at DESC
unfoldable pub newest_le : Upload → Upload → Bool
newest_le a b =
    is_none a.sequence_no && not (is_none b.sequence_no)
    || (if is_none a.sequence_no then is_none b.sequence_no else not (is_none b.sequence_no))
      && (ltb (date_key b.sequence_no) (date_key a.sequence_no)
          || (date_key a.sequence_no == date_key b.sequence_no && leb b.uploaded_at a.uploaded_at))

unfoldable pub list_uploads : Db → ℕ → List Upload
unfolding sort newest_le
list_uploads db account = sort newest_le (select (λ r. r.account_id == account) db.uploads)

-- ErrNotFound is none.
unfoldable pub latest_completed_upload : Db → ℕ → Option Upload
unfolding boundary_upload
latest_completed_upload db account = elim (boundary_upload db account true) [
  | ok r ↦ some r
  | err e ↦ none
]

abbrev pub source_processing_order : Text
source_processing_order = codes "processing order"

unfoldable pub uploads_with_unknown_snapshot_date : Db → List Upload
unfolding sort
uploads_with_unknown_snapshot_date db =
    sort (λ a b. leb a.id b.id)
      (select (λ r. is_completed r.status && text_eq r.snapshot_source source_processing_order)
        db.uploads)

pub record ListTotals : Type 0 where
  pub kind : ListKind
  pub member_count : ℕ
  pub added_count : ℕ
  pub removed_count : ℕ

abbrev pub totals_of : UploadList → ListTotals
totals_of l = record {
  kind = l.list_kind;
  member_count = l.member_count;
  added_count = l.added_count;
  removed_count = l.removed_count;
}

unfoldable pub list_totals_for_upload : Db → ℕ → List ListTotals
unfolding sort
list_totals_for_upload db u = map totals_of (
    sort (λ a b. leb (rank a.list_kind) (rank b.list_kind))
      (select (λ l. l.upload_id == u) db.upload_lists))

-- FROM upload_lists ul JOIN uploads u ON u.id = ul.upload_id, with the WHERE on the upload: a row for
-- each pair.
unfoldable pub kinds_of_executions : Db → ℕ → List UploadList → List ListKind
unfolding select
kinds_of_executions db account [] = []
kinds_of_executions db account (l ∷ ls) =
    map (λ r. l.list_kind)
      (select (λ r. r.id == l.upload_id && (r.account_id == account && is_completed r.status))
        db.uploads)
    ++ kinds_of_executions db account ls

-- DISTINCT
unfoldable pub distinct_kinds : List ListKind → List ListKind
unfolding kind_eq any
distinct_kinds [] = []
distinct_kinds (k ∷ ks) =
    let rest = distinct_kinds ks in if any (kind_eq k) ks then rest else k ∷ rest

abbrev pub kind_le : ListKind → ListKind → Bool
kind_le a b = leb (rank a) (rank b)

-- ORDER BY ul.list_kind
unfoldable pub list_kinds_for_account : Db → ℕ → List ListKind
unfolding kinds_of_executions distinct_kinds sort
list_kinds_for_account db account =
    sort kind_le (distinct_kinds (kinds_of_executions db account db.upload_lists))

pub record ExecutionTotals : Type 0 where
  pub upload : Upload
  pub lists : List ListTotals

-- The loop of AccountHistory goes through the uploads from the last to the first.
unfoldable pub history_of : Db → List Upload → List ExecutionTotals
unfolding list_totals_for_upload
history_of db [] = []
history_of db (r ∷ rs) =
    let rest = history_of db rs in
    if is_completed r.status
    then rest ++ record { upload = r; lists = list_totals_for_upload db r.id } ∷ []
    else rest

unfoldable pub account_history : Db → ℕ → List ExecutionTotals
unfolding history_of list_uploads
account_history db account = history_of db (list_uploads db account)

-- A member of a list with the time of the follow.
pub record MemberRow : Type 0 where
  pub user : User
  pub followed_at : Option ℕ

unfoldable pub member_rows : List User → List SnapshotMember → List MemberRow
member_rows us [] = []
member_rows us (m ∷ ms) =
    map (λ w. record { user = w; followed_at = m.followed_at }) (select (λ w. w.id == m.user_id) us)
    ++ member_rows us ms

unfoldable pub members_for_upload : Db → ℕ → Option ListKind → List MemberRow
unfolding sort member_rows
members_for_upload db u kind =
    sort (λ a b. text_le a.user.username b.user.username)
      (member_rows db.users (select (in_list u (kind_or_default kind)) db.snapshot_members))

unfoldable pub current_followers : Db → ℕ → List MemberRow
unfolding boundary_upload members_for_upload
current_followers db account = elim (boundary_upload db account true) [
  | ok r ↦ members_for_upload db r.id (some followers)
  | err e ↦ []
]
