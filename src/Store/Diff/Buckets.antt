-- ===== src/Store/Diff/Buckets.antt =====
-- Who is in which list of a comparison, said of the users and of where they are members.
use insta_follower_tracker.Prelude.{
  ℕ, ◌≡◌, refl, sym, ◌∙◌, ap, ap₂, fun_ext, inl, inr, Bool, true, not, ◌&&◌, ◌||◌, List, [], ◌∷◌,
  map, Option, some, arith, ◌==◌, ==_iff, Bool-cases,
}
use insta_follower_tracker.Prelude.Table.{
  any, any-append, any-map, any-select, any-and, any_congr, any-swap, select,
}
use insta_follower_tracker.Prelude.In.{In-of_any, any_of_In}
use insta_follower_tracker.Prelude.Sort.{any-sort}
use insta_follower_tracker.Prelude.Text.{text_eq, text_eq→eq}
use insta_follower_tracker.Store.Models.{ListKind, kind_eq, User, Upload, SnapshotMember, Db, ok}
use insta_follower_tracker.Store.Departure.{is_member}
use insta_follower_tracker.Store.Diff.{
  Follower, NetDiff, join_users, name_le, follower, users_where, in_list, is_in, lost_users,
  gained_users, returned_users, distinct, transient_users, unfollowed_within, is_between, diff,
  diff_numbered, kind_or_default,
}

-- The row of `f` in a result.
abbrev pub shows : Follower → Follower → Bool
shows f g = text_eq g.username f.username && text_eq g.href f.href

-- `f` is the row of a user that passes the test.
abbrev pub is_shown : Db → Follower → (ℕ → Bool) → Bool
is_shown db f test = any (λ w. shows f (follower w) && test w.id) db.users

join_users-any :
    (p : User → Bool) (us : List User) (ms : List SnapshotMember)
    → any p (join_users us ms) ≡ any (λ m. any (λ w. w.id == m.user_id && p w) us) ms
unfolding join_users any
join_users-any p us [] = refl
join_users-any p us (m ∷ ms) =
    any-append p (select (λ w. w.id == m.user_id) us) (join_users us ms)
    ∙ ap₂ ◌||◌ (any-select p (λ w. w.id == m.user_id) us) (join_users-any p us ms)

-- A test of a snapshot row that looks at its user by `id` only, read off the users.
users_where-any :
    (db : Db) (test : SnapshotMember → Bool) (p : User → Bool)
    → any p (users_where db test)
      ≡ any (λ w. p w && any (λ m. test m && m.user_id == w.id) db.snapshot_members) db.users
unfolding users_where
users_where-any db test p =
    any-sort name_le p (join_users db.users (select test db.snapshot_members))
    ∙ join_users-any p db.users (select test db.snapshot_members)
    ∙ any-select _ test db.snapshot_members
    ∙ any_congr _ _ db.snapshot_members (λ m. sym (any-and (test m) _ db.users))
    ∙ any-swap _ db.snapshot_members db.users
    ∙ any_congr _ _ db.users (λ w.
      any_congr _ _ db.snapshot_members (swap_tests w) ∙ any-and (p w) _ db.snapshot_members)
  where
    swap_tests :
        (w : User) (m : SnapshotMember)
        → (test m && (w.id == m.user_id && p w)) ≡ (p w && (test m && m.user_id == w.id))
    swap_tests w m = ground arith

in_list-any :
    (rows : List SnapshotMember) (u : ℕ) (k : ListKind) (test : ℕ → Bool) (x : ℕ)
    → any (λ m. (in_list u k m && test m.user_id) && m.user_id == x) rows
      ≡ (is_member rows u k x && test x)
unfolding is_member
in_list-any rows u k test x =
    any_congr _ _ rows row
    ∙ any-and (test x) (λ m. m.upload_id == u && kind_eq m.list_kind k && m.user_id == x) rows
    ∙ ground arith
  where
    row :
        (m : SnapshotMember)
        → ((in_list u k m && test m.user_id) && m.user_id == x)
          ≡ (test x && (m.upload_id == u && kind_eq m.list_kind k && m.user_id == x))
    row m = elim (Bool-cases (m.user_id == x)) [
      | inl e ↦ rw ((==_iff m.user_id x).0 e) (ground arith)
      | inr e ↦ rw e (ground arith)
    ]

-- The user was in the list at a completed execution strictly between the two.
unfoldable pub seen_between : Db → ℕ → ListKind → ℕ → ℕ → ℕ → Bool
seen_between db account k lo hi x =
    any (λ m. kind_eq m.list_kind k && is_between db account lo hi m.upload_id && m.user_id == x)
      db.snapshot_members

same_row :
    (f : Follower) (v w : User)
    → text_eq v.username w.username ≡ true
    → text_eq v.href w.href ≡ true
    → shows f (follower w) ≡ shows f (follower v)
same_row f v w e h = rw (text_eq→eq v.username w.username e, text_eq→eq v.href w.href h)

-- DISTINCT keeps a row of each kind.
distinct-any :
    (f : Follower) (ws : List User)
    → any (λ w. shows f (follower w)) (distinct ws) ≡ any (λ w. shows f (follower w)) ws
unfolding distinct any
distinct-any f [] = refl
distinct-any f (w ∷ ws) =
    elim (Bool-cases (any (λ v. text_eq v.username w.username && text_eq v.href w.href) ws)) [
      | inl e ↦
          let (v, n, h) =
            In-of_any (λ v. text_eq v.username w.username && text_eq v.href w.href) ws e in
          let same = same_row f v w (ground arith) (ground arith) in
          ground (arith, distinct-any f ws, same, any_of_In (λ u. shows f (follower u)) v ws n)
      | inr e ↦ ground (arith, distinct-any f ws)
    ]

module _ (db : Db) (f : Follower) (from to : ℕ) (k : ListKind) where
  -- A list read from the rows of one execution.
  any-shown :
      (u : ℕ) (test : ℕ → Bool)
      → any (λ w. shows f (follower w)) (users_where db λ m. in_list u k m && test m.user_id)
        ≡ is_shown db f (λ x. is_member db.snapshot_members u k x && test x)
  any-shown u test =
      users_where-any db (λ m. in_list u k m && test m.user_id) (λ w. shows f (follower w))
      ∙ any_congr _ _ db.users (λ w.
        ap (λ (b : Bool). shows f (follower w) && b)
          (in_list-any db.snapshot_members u k test w.id))

  lost-shown :
      any (shows f) (map follower (lost_users db from to k))
      ≡ is_shown db f (λ x.
        is_member db.snapshot_members from k x && not (is_member db.snapshot_members to k x))
  unfolding lost_users
  lost-shown =
      any-map (shows f) follower _
      ∙ any-shown from (λ x. not (is_member db.snapshot_members to k x))

  gained-shown :
      any (shows f) (map follower (gained_users db from to k))
      ≡ is_shown db f (λ x.
        is_member db.snapshot_members to k x && not (is_member db.snapshot_members from k x))
  unfolding gained_users
  gained-shown =
      any-map (shows f) follower _
      ∙ any-shown to (λ x. not (is_member db.snapshot_members from k x))

  between-any :
      (account lo hi x : ℕ)
      → any
          (λ m.
            (kind_eq m.list_kind k
              && is_between db account lo hi m.upload_id
              && not (is_in db from k m)
              && not (is_in db to k m))
            && m.user_id == x)
          db.snapshot_members
        ≡ (seen_between db account k lo hi x
            && (not (is_member db.snapshot_members from k x)
                && not (is_member db.snapshot_members to k x)))
  unfolding seen_between
  between-any account lo hi x =
      any_congr _ _ db.snapshot_members row
      ∙ any-and away
          (λ m. kind_eq m.list_kind k && is_between db account lo hi m.upload_id && m.user_id == x)
          db.snapshot_members
      ∙ ground arith
    where
      away : Bool
      away =
          not (is_member db.snapshot_members from k x) && not (is_member db.snapshot_members to k x)

      row :
          (m : SnapshotMember)
          → ((kind_eq m.list_kind k
                && is_between db account lo hi m.upload_id
                && not (is_in db from k m)
                && not (is_in db to k m))
              && m.user_id == x)
            ≡ (away
                && (kind_eq m.list_kind k
                    && is_between db account lo hi m.upload_id
                    && m.user_id == x))
      row m = elim (Bool-cases (m.user_id == x)) [
        | inl e ↦ rw ((==_iff m.user_id x).0 e) (ground arith)
        | inr e ↦ rw e (ground arith)
      ]

  module _ (account lo hi : ℕ) where
    returned-shown :
        any (shows f) (map follower (returned_users db account from to k lo hi))
        ≡ is_shown db f (λ x.
          is_member db.snapshot_members from k x
          && (is_member db.snapshot_members to k x && unfollowed_within db account k lo hi x))
    unfolding returned_users
    returned-shown =
        any-map (shows f) follower _
        ∙ ap
            (λ (test : SnapshotMember → Bool).
              any (λ w. shows f (follower w)) (users_where db test))
            (fun_ext λ m. ground arith)
        ∙ any-shown from
            (λ x. is_member db.snapshot_members to k x && unfollowed_within db account k lo hi x)

    transient-shown :
        any (shows f) (map follower (transient_users db account from to k lo hi))
        ≡ is_shown db f (λ x.
          seen_between db account k lo hi x
          && (not (is_member db.snapshot_members from k x)
              && not (is_member db.snapshot_members to k x)))
    unfolding transient_users seen_between
    transient-shown =
        any-map (shows f) follower _
        ∙ distinct-any f _
        ∙ users_where-any db _ (λ w. shows f (follower w))
        ∙ any_congr _ _ db.users
            (λ w. ap (λ (b : Bool). shows f (follower w) && b) (between-any account lo hi w.id))

-- The four lists of a comparison, each said of where its users are members: lost are those of the
-- first execution who are not in the last, gained the other way round, returned those of both with
-- an unfollow recorded in between, transient those of neither who were seen strictly in between.
pub diff-shown :
    (db : Db) (account : ℕ) (from to : Upload) (kind : Option ListKind) (lo hi : ℕ) (d : NetDiff)
    (f : Follower)
    → from.sequence_no ≡ some lo
    → to.sequence_no ≡ some hi
    → diff db account from to kind ≡ ok d
    → let k = kind_or_default kind in
      let first = is_member db.snapshot_members from.id k in
      let last = is_member db.snapshot_members to.id k in
      (any (shows f) d.lost ≡ is_shown db f (λ x. first x && not (last x)))
      × (any (shows f) d.gained ≡ is_shown db f (λ x. last x && not (first x)))
      × (any (shows f) d.returned
          ≡ is_shown db f (λ x. first x && (last x && unfollowed_within db account k lo hi x)))
      × (any (shows f) d.transient
          ≡ is_shown db f
              (λ x. seen_between db account k lo hi x && (not (first x) && not (last x))))
unfolding diff diff_numbered
diff-shown db account from to kind lo hi d f low high e =
    let k = kind_or_default kind in
    ground (
      arith,
      lost-shown db f from.id to.id k,
      gained-shown db f from.id to.id k,
      returned-shown db f from.id to.id k account lo hi,
      transient-shown db f from.id to.id k account lo hi,
    )
