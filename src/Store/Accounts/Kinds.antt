-- ===== src/Store/Accounts/Kinds.antt =====
-- The kinds of lists that an account ever recorded.
use insta_follower_tracker.Prelude.{
  ℕ, ◌≡◌, refl, ap, ◌∙◌, inl, inr, Bool, true, false, not, ◌&&◌, ◌||◌, List, [], ◌∷◌, map, arith,
  ◌==◌, if◌then◌else◌, Bool-cases,
}
use insta_follower_tracker.Prelude.Table.{any, every, every_mono, count, select, any-append}
use insta_follower_tracker.Prelude.Sort.{sort, is_sorted, sort-is_sorted, count-sort}
use insta_follower_tracker.Prelude.Text.{Text, codes, text_le}
use insta_follower_tracker.Store.Snapshot.{all_kinds}
use insta_follower_tracker.Store.Models.{
  followers, following, close_friends, pending_requests, recent_requests, recently_unfollowed,
  blocked, restricted, removed_suggestions, favourited, is_completed, ListKind, kind_eq,
  kind_eq_sym, kind_eq→eq, Upload, UploadList, Db,
}
use insta_follower_tracker.Store.Accounts.Listing.{
  kinds_of_executions, distinct_kinds, kind_le, list_kinds_for_account,
}

-- The text that a kind is stored as.
abbrev pub kind_name : ListKind → Text
kind_name followers = codes "followers"
kind_name following = codes "following"
kind_name close_friends = codes "close_friends"
kind_name pending_requests = codes "pending_follow_requests"
kind_name recent_requests = codes "recent_follow_requests"
kind_name recently_unfollowed = codes "recently_unfollowed"
kind_name blocked = codes "blocked"
kind_name restricted = codes "restricted"
kind_name removed_suggestions = codes "removed_suggestions"
kind_name favourited = codes "favourited"

abbrev pub name_le : ListKind → ListKind → Bool
name_le a b = text_le (kind_name a) (kind_name b)

every_kind : (p : ListKind → Bool) → every p all_kinds ≡ true → (k : ListKind) → p k ≡ true
unfolding every
every_kind p h followers = ground arith
every_kind p h following = ground arith
every_kind p h close_friends = ground arith
every_kind p h pending_requests = ground arith
every_kind p h recent_requests = ground arith
every_kind p h recently_unfollowed = ground arith
every_kind p h blocked = ground arith
every_kind p h restricted = ground arith
every_kind p h removed_suggestions = ground arith
every_kind p h favourited = ground arith

-- The order of the constructors is that of the stored texts.
kind_le-name_le : (a b : ListKind) → kind_le a b ≡ true → name_le a b ≡ true
unfolding text_le every
kind_le-name_le a b h =
    let implied = λ (x y : ListKind). not (kind_le x y) || name_le x y in
    let row = every_kind (λ x. every (implied x) all_kinds) refl a in
    let cell = every_kind (implied a) row b in ground arith

is_sorted-name_le : (ks : List ListKind) → is_sorted kind_le ks ≡ true → is_sorted name_le ks ≡ true
unfolding is_sorted
is_sorted-name_le [] h = refl
is_sorted-name_le (k ∷ ks) h =
    let later = every_mono (kind_le k) (name_le k) ks (kind_le-name_le k) (ground arith) in
    ground (arith, later, is_sorted-name_le ks)

-- Whether some completed execution of the account carried a list of the kind.
abbrev pub ever_recorded : Db → ℕ → ListKind → Bool
ever_recorded db account k =
    any
      (λ l.
        any
          (λ r.
            (r.account_id == account && is_completed r.status)
            && (r.id == l.upload_id && kind_eq l.list_kind k))
          db.uploads)
      db.upload_lists

pair_kinds-any :
    (k j : ListKind) (u account : ℕ) (rows : List Upload)
    → any (kind_eq k) (
        map
          (λ r. j)
          (select (λ r. r.id == u && (r.account_id == account && is_completed r.status)) rows))
      ≡ any
          (λ r. (r.account_id == account && is_completed r.status) && (r.id == u && kind_eq j k))
          rows
unfolding any select
pair_kinds-any k j u account [] = refl
pair_kinds-any k j u account (r ∷ rows) =
    ground (arith, pair_kinds-any k j u account rows, kind_eq_sym k j)

kinds_of_executions-any :
    (db : Db) (account : ℕ) (k : ListKind) (ls : List UploadList)
    → any (kind_eq k) (kinds_of_executions db account ls)
      ≡ any
          (λ l.
            any
              (λ r.
                (r.account_id == account && is_completed r.status)
                && (r.id == l.upload_id && kind_eq l.list_kind k))
              db.uploads)
          ls
unfolding kinds_of_executions any
kinds_of_executions-any db account k [] = refl
kinds_of_executions-any db account k (l ∷ ls) =
    any-append (kind_eq k)
      (map (λ r. l.list_kind)
        (select (λ r. r.id == l.upload_id && (r.account_id == account && is_completed r.status))
          db.uploads))
      (kinds_of_executions db account ls)
    ∙ rw
        (
          pair_kinds-any k l.list_kind l.upload_id account db.uploads,
          kinds_of_executions-any db account k ls,
        )
        refl

distinct_kinds-count :
    (k : ListKind) (ks : List ListKind)
    → count (kind_eq k) (distinct_kinds ks) ≡ (if any (kind_eq k) ks then 1 else 0)
unfolding distinct_kinds any count
distinct_kinds-count k [] = refl
distinct_kinds-count k (j ∷ ks) = elim (Bool-cases (kind_eq k j)) [
  | inl same ↦
      ground (arith, distinct_kinds-count k ks, ap (λ x. any (kind_eq x) ks) (kind_eq→eq k j same))
  | inr other ↦ ground (arith, distinct_kinds-count k ks)
]

kind_le_total : (a b : ListKind) → kind_le a b ≡ false → kind_le b a ≡ true
kind_le_total a b h = ground arith

kind_le_trans : (a b c : ListKind) → kind_le a b ≡ true → kind_le b c ≡ true → kind_le a c ≡ true
kind_le_trans a b c h k = ground arith

-- The listing is in the byte order of the stored texts. It has a kind once if some completed
-- execution of the account carried a list of it, and not at all otherwise.
pub list_kinds_for_account-once :
    (db : Db) (account : ℕ) (k : ListKind)
    → (is_sorted name_le (list_kinds_for_account db account) ≡ true)
      × (count (kind_eq k) (list_kinds_for_account db account)
          ≡ (if ever_recorded db account k then 1 else 0))
unfolding list_kinds_for_account
list_kinds_for_account-once db account k =
    let ks = kinds_of_executions db account db.upload_lists in
    (
      is_sorted-name_le (sort kind_le (distinct_kinds ks))
          (sort-is_sorted kind_le kind_le_total kind_le_trans (distinct_kinds ks)),
      count-sort kind_le (kind_eq k) (distinct_kinds ks)
          ∙ distinct_kinds-count k ks
          ∙ ap (λ (b : Bool). if b then 1 else 0)
              (kinds_of_executions-any db account k db.upload_lists),
    )
