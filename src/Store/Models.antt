-- ===== src/Store/Models.antt =====
-- internal/store/models.go, the reasons of departure.go, and the tables of
-- internal/store/migrations, one record to a row. A time is in Unix seconds, and a column that may
-- be NULL is an Option.
use insta_follower_tracker.Prelude.{ℕ, ◌≡◌, Bool, true, false, List, Option, arith, ◌==◌}
use insta_follower_tracker.Prelude.Text.{Text}

pub data Status : Type 0 where
  pending processing completed failed : Status

pub data ChangeType : Type 0 where
  followed unfollowed : ChangeType

pub data DepartureReason : Type 0 where
  you_blocked renamed unfollowed vanished unknown : DepartureReason

-- The list kinds in the order of their stored names.
pub data ListKind : Type 0 where
  blocked close_friends favourited followers following pending_requests recent_requests : ListKind
  recently_unfollowed removed_suggestions restricted : ListKind

abbrev pub is_completed : Status → Bool
is_completed completed = true
is_completed _ = false

abbrev pub is_pending : Status → Bool
is_pending pending = true
is_pending _ = false

abbrev pub is_processing : Status → Bool
is_processing processing = true
is_processing _ = false

abbrev pub is_unfollowed : ChangeType → Bool
is_unfollowed ChangeType.followed = false
is_unfollowed ChangeType.unfollowed = true

abbrev pub is_followed : ChangeType → Bool
is_followed ChangeType.followed = true
is_followed ChangeType.unfollowed = false

abbrev pub type_eq : ChangeType → ChangeType → Bool
type_eq ChangeType.followed t = is_followed t
type_eq ChangeType.unfollowed t = is_unfollowed t

-- The place of a kind in the order of the stored names.
abbrev pub rank : ListKind → ℕ
rank blocked = 0
rank close_friends = 1
rank favourited = 2
rank followers = 3
rank following = 4
rank pending_requests = 5
rank recent_requests = 6
rank recently_unfollowed = 7
rank removed_suggestions = 8
rank restricted = 9

unfoldable pub kind_eq : ListKind → ListKind → Bool
kind_eq a b = rank a == rank b

pub kind_eq_refl : (k : ListKind) → kind_eq k k ≡ true
unfolding kind_eq
kind_eq_refl k = ground arith

pub kind_eq_sym : (a b : ListKind) → kind_eq a b ≡ kind_eq b a
unfolding kind_eq
kind_eq_sym a b = ground arith

pub kind_eq→eq : (a b : ListKind) → kind_eq a b ≡ true → a ≡ b
unfolding kind_eq
kind_eq→eq a b h = ground arith

pub record Account : Type 0 where
  pub id : ℕ
  pub handle : Text
  pub created_at : ℕ

pub record User : Type 0 where
  pub id : ℕ
  pub account_id : ℕ
  pub username : Text
  pub href : Text

pub record Upload : Type 0 where
  pub id : ℕ
  pub account_id : ℕ
  pub sequence_no : Option ℕ
  pub original_filename : Text
  pub stored_path : Text
  pub sha256 : Text
  pub size_bytes : ℕ
  pub status : Status
  pub error_message : Text
  pub uploaded_at : ℕ
  pub started_at : Option ℕ
  pub processed_at : Option ℕ
  pub follower_count : ℕ
  pub added_count : ℕ
  pub removed_count : ℕ
  pub allow_partial : Bool
  pub snapshot_taken_at : Option ℕ
  pub snapshot_source : Text
  pub snapshot_date_override : Option ℕ
  pub reprocess_at : Option ℕ

pub record SnapshotMember : Type 0 where
  pub upload_id : ℕ
  pub list_kind : ListKind
  pub user_id : ℕ
  pub followed_at : Option ℕ

pub record UploadList : Type 0 where
  pub upload_id : ℕ
  pub list_kind : ListKind
  pub member_count : ℕ
  pub added_count : ℕ
  pub removed_count : ℕ

pub record Change : Type 0 where
  pub account_id : ℕ
  pub upload_id : ℕ
  pub prev_upload_id : ℕ
  pub user_id : ℕ
  pub change_type : ChangeType
  pub created_at : ℕ
  pub list_kind : ListKind
  pub departure_reason : Option DepartureReason
  pub renamed_to_user_id : Option ℕ
  pub renamed_from_user_id : Option ℕ

-- The database. `next_user`, `next_upload` and `next_account` are the AUTOINCREMENT counters.
pub record Db : Type 0 where
  pub accounts : List Account
  pub users : List User
  pub uploads : List Upload
  pub snapshot_members : List SnapshotMember
  pub upload_lists : List UploadList
  pub changes : List Change
  pub next_account : ℕ
  pub next_user : ℕ
  pub next_upload : ℕ

-- One follower within a snapshot, and one list of it, as handed to ApplySnapshot.
pub record Member : Type 0 where
  pub username : Text
  pub href : Text
  pub followed_at : Option ℕ

pub record ListSnapshot : Type 0 where
  pub kind : ListKind
  pub members : List Member

pub data StoreError : Type 0 where
  not_found scan_failed constraint_failed handle_required not_processed : StoreError

pub data Result {ℓ} (A : Type ℓ) : Type ℓ where
  ok : A → Result A
  err : StoreError → Result A

infixl 5 ◌>>=◌
abbrev pub ◌>>=◌ {ℓ κ} : {A : Type ℓ} {B : Type κ} → Result A → (A → Result B) → Result B
ok a >>= f = f a
err e >>= f = err e
