-- ===== src/Store/Diff.antt =====
-- internal/store/diff.go: the comparison of two executions, and the readings of one.
pub mod Buckets
pub mod Changes
pub mod Accounted
pub mod Rebuilt
use insta_follower_tracker.Prelude.{
  ℕ, Bool, false, not, ◌&&◌, List, [], ◌∷◌, ◌++◌, map, Option, none, some, ltb, leb, ◌==◌,
  if◌then◌else◌,
}
use insta_follower_tracker.Prelude.Table.{any, select}
use insta_follower_tracker.Prelude.Sort.{sort}
use insta_follower_tracker.Prelude.Text.{Text, text_eq, text_le}
use insta_follower_tracker.Store.Models.{
  ListKind, followers, following, kind_eq, is_unfollowed, is_completed, User, Upload,
  SnapshotMember, Db, not_processed, Result, ok, err,
}
use insta_follower_tracker.Store.Departure.{is_member}

-- A follower returned from a query.
pub record Follower : Type 0 where
  pub username : Text
  pub href : Text

pub record NetDiff : Type 0 where
  pub list_kind : ListKind
  pub from : Upload
  pub to : Upload
  pub lost : List Follower
  pub gained : List Follower
  pub returned : List Follower
  pub transient : List Follower

-- JOIN users u ON u.id = sm.user_id
unfoldable pub join_users : List User → List SnapshotMember → List User
join_users us [] = []
join_users us (m ∷ ms) = select (λ w. w.id == m.user_id) us ++ join_users us ms

abbrev pub name_le : User → User → Bool
name_le a b = text_le a.username b.username

abbrev pub follower : User → Follower
follower w = record { username = w.username; href = w.href }

-- The users of the rows that pass a test, ORDER BY u.username.
unfoldable pub users_where : Db → (SnapshotMember → Bool) → List User
unfolding join_users
users_where db test = sort name_le (join_users db.users (select test db.snapshot_members))

abbrev pub in_list : ℕ → ListKind → SnapshotMember → Bool
in_list u k m = m.upload_id == u && kind_eq m.list_kind k

-- sequence_no > lo AND sequence_no <= hi, false at NULL.
abbrev pub numbered_within : ℕ → ℕ → Option ℕ → Bool
numbered_within lo hi none = false
numbered_within lo hi (some n) = ltb lo n && leb n hi

-- sequence_no > lo AND sequence_no < hi, false at NULL.
abbrev pub numbered_between : ℕ → ℕ → Option ℕ → Bool
numbered_between lo hi none = false
numbered_between lo hi (some n) = ltb lo n && ltb n hi

-- An unfollow of `x` recorded at an execution of the account numbered in (lo, hi].
unfoldable pub unfollowed_within : Db → ℕ → ListKind → ℕ → ℕ → ℕ → Bool
unfollowed_within db account k lo hi x =
    any
      (λ c.
        c.user_id == x
        && is_unfollowed c.change_type
        && kind_eq c.list_kind k
        && any
            (λ cu.
              cu.id == c.upload_id
              && cu.account_id == account
              && numbered_within lo hi cu.sequence_no)
            db.uploads)
      db.changes

-- The join of a snapshot row with a completed execution of the account strictly in between.
unfoldable pub is_between : Db → ℕ → ℕ → ℕ → ℕ → Bool
is_between db account lo hi u =
    any
      (λ mu.
        mu.id == u
        && mu.account_id == account
        && is_completed mu.status
        && numbered_between lo hi mu.sequence_no)
      db.uploads

abbrev pub is_in : Db → ℕ → ListKind → SnapshotMember → Bool
is_in db u k m = is_member db.snapshot_members u k m.user_id

unfoldable pub lost_users : Db → ℕ → ℕ → ListKind → List User
unfolding users_where is_member
lost_users db from to k = users_where db λ m. in_list from k m && not (is_in db to k m)

unfoldable pub gained_users : Db → ℕ → ℕ → ListKind → List User
unfolding users_where is_member
gained_users db from to k = users_where db λ m. in_list to k m && not (is_in db from k m)

unfoldable pub returned_users : Db → ℕ → ℕ → ℕ → ListKind → ℕ → ℕ → List User
unfolding users_where is_member unfollowed_within
returned_users db account from to k lo hi =
    users_where db
      λ m. in_list from k m && is_in db to k m && unfollowed_within db account k lo hi m.user_id

-- SELECT DISTINCT u.username, u.href: a row equal to a later one is dropped.
unfoldable pub distinct : List User → List User
distinct [] = []
distinct (w ∷ ws) =
    if any (λ v. text_eq v.username w.username && text_eq v.href w.href) ws
    then distinct ws
    else w ∷ distinct ws

unfoldable pub transient_users : Db → ℕ → ℕ → ℕ → ListKind → ℕ → ℕ → List User
unfolding users_where is_member is_between distinct
transient_users db account from to k lo hi = distinct (
    users_where db λ m.
      kind_eq m.list_kind k
      && is_between db account lo hi m.upload_id
      && not (is_in db from k m)
      && not (is_in db to k m))

unfoldable pub diff_numbered :
    Db → ℕ → Upload → Upload → ListKind → Option ℕ → Option ℕ → Result NetDiff
unfolding lost_users gained_users returned_users transient_users
diff_numbered db account from to k none n = err not_processed
diff_numbered db account from to k (some lo) none = err not_processed
diff_numbered db account from to k (some lo) (some hi) = ok (record {
  list_kind = k;
  from = from;
  to = to;
  lost = map follower (lost_users db from.id to.id k);
  gained = map follower (gained_users db from.id to.id k);
  returned = map follower (returned_users db account from.id to.id k lo hi);
  transient = map follower (transient_users db account from.id to.id k lo hi);
})

-- An empty list kind stands for the followers.
abbrev pub kind_or_default : Option ListKind → ListKind
kind_or_default none = followers
kind_or_default (some k) = k

unfoldable pub diff : Db → ℕ → Upload → Upload → Option ListKind → Result NetDiff
unfolding diff_numbered
diff db account from to kind =
    diff_numbered db account from to (kind_or_default kind) from.sequence_no to.sequence_no

unfoldable pub not_following_back : Db → ℕ → List User
unfolding users_where is_member
not_following_back db u =
    users_where db λ m. in_list u following m && not (is_in db m.upload_id followers m)

unfoldable pub fans : Db → ℕ → List User
unfolding users_where is_member
fans db u = users_where db λ m. in_list u followers m && not (is_in db m.upload_id following m)
