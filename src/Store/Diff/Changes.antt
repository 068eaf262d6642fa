-- ===== src/Store/Diff/Changes.antt =====
-- internal/store/diff.go: the listings of recorded changes.
use insta_follower_tracker.Prelude.{
  ℕ, Bool, true, ◌&&◌, ◌||◌, List, [], ◌∷◌, ◌++◌, Option, none, some, ltb, ◌==◌, if◌then◌else◌,
}
use insta_follower_tracker.Prelude.Table.{find, select}
use insta_follower_tracker.Prelude.Sort.{sort}
use insta_follower_tracker.Prelude.Text.{Text, text_le}
use insta_follower_tracker.Store.Models.{
  ChangeType, type_eq, is_unfollowed, DepartureReason, ListKind, kind_eq, User, Upload, Change, Db,
}
use insta_follower_tracker.Store.Snapshot.{date_key}
use insta_follower_tracker.Store.Diff.{kind_or_default}

-- A recorded change as it is returned, with the names of both sides of a rename.
pub record ChangeRow : Type 0 where
  pub username : Text
  pub href : Text
  pub change_type : ChangeType
  pub upload_id : ℕ
  pub sequence_no : Option ℕ
  pub prev_upload_id : ℕ
  pub detected_at : ℕ
  pub reason : Option DepartureReason
  pub renamed_to : Option Text
  pub renamed_from : Option Text

abbrev pub name_of : Option User → Option Text
name_of none = none
name_of (some u) = some u.username

-- LEFT JOIN users
unfoldable pub name_at : Db → Option ℕ → Option Text
unfolding find
name_at db none = none
name_at db (some id) = name_of (find (λ u. u.id == id) db.users)

abbrev pub row_of : Db → Change → User → Upload → ChangeRow
row_of db c u r = record {
  username = u.username;
  href = u.href;
  change_type = c.change_type;
  upload_id = c.upload_id;
  sequence_no = r.sequence_no;
  prev_upload_id = c.prev_upload_id;
  detected_at = c.created_at;
  reason = c.departure_reason;
  renamed_to = name_at db c.renamed_to_user_id;
  renamed_from = name_at db c.renamed_from_user_id;
}

-- JOIN users u ... JOIN uploads cu, by their primary keys.
abbrev pub joined : Db → Change → Option User → Option Upload → List ChangeRow
joined db c (some u) (some r) = row_of db c u r ∷ []
joined db c _ _ = []

unfoldable pub change_rows : Db → List Change → List ChangeRow
unfolding find name_at
change_rows db [] = []
change_rows db (c ∷ cs) =
    joined db c (find (λ u. u.id == c.user_id) db.users)
      (find (λ r. r.id == c.upload_id) db.uploads)
    ++ change_rows db cs

-- The types in the order of their names, followed before unfollowed.
unfoldable pub type_name_le : ChangeRow → ChangeRow → Bool
unfolding text_le
type_name_le a b =
    if type_eq a.change_type b.change_type
    then text_le a.username b.username
    else is_unfollowed b.change_type

abbrev pub of_type : Option ChangeType → ChangeType → Bool
of_type none t = true
of_type (some s) t = type_eq s t

unfoldable pub changes_for_upload : Db → ℕ → Option ListKind → Option ChangeType → List ChangeRow
unfolding sort change_rows select
changes_for_upload db upload kind only = sort type_name_le (
    change_rows db (
      select
        (λ c.
          c.upload_id == upload
          && kind_eq c.list_kind (kind_or_default kind)
          && of_type only c.change_type)
        db.changes))

-- ORDER BY cu.sequence_no, u.username
unfoldable pub number_name_le : ChangeRow → ChangeRow → Bool
unfolding text_le
number_name_le a b =
    ltb (date_key a.sequence_no) (date_key b.sequence_no)
    || (date_key a.sequence_no == date_key b.sequence_no && text_le a.username b.username)

unfoldable pub all_unfollowers : Db → ℕ → Option ListKind → List ChangeRow
unfolding sort change_rows select
all_unfollowers db account kind = sort number_name_le (
    change_rows db (
      select
        (λ c.
          c.account_id == account
          && kind_eq c.list_kind (kind_or_default kind)
          && is_unfollowed c.change_type)
        db.changes))
