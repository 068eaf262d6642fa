-- ===== src/Store/Diff/Accounted.antt =====
-- Every unfollow in the log between two executions is accounted for by their comparison.
use insta_follower_tracker.Prelude.{
  ℕ, ◌+◌, ◌≡◌, sym, ◌∙◌, ap, ◌≢◌, Bool, true, false, not, ◌&&◌, ◌||◌, List, ◌++◌, Option, some,
  arith, ◌==◌,
}
use insta_follower_tracker.Prelude.Table.{any, any-append}
use insta_follower_tracker.Prelude.In.{In, In-of_any, any_of_In}
use insta_follower_tracker.Prelude.Text.{text_eq_refl}
use insta_follower_tracker.Store.Models.{
  ListKind, kind_eq→eq, is_unfollowed, is_completed, User, Upload, Change, Db, ok,
}
use insta_follower_tracker.Store.Departure.{is_member}
use insta_follower_tracker.Store.Diff.{
  Follower, NetDiff, follower, unfollowed_within, is_between, diff, kind_or_default,
  numbered_within,
}
use insta_follower_tracker.Store.Diff.Buckets.{shows, is_shown, seen_between, diff-shown}

-- The execution before the one of the change: it stands one number below, and has the user.
pub record IsStep (db : Db) (account : ℕ) (c : Change) (cu : Upload) : Type 0 where
  pub before : Upload
  pub stored : In before db.uploads
  pub named : before.id ≡ c.prev_upload_id
  pub owned : before.account_id ≡ account
  pub done : is_completed before.status ≡ true
  pub number : ℕ
  pub before_number : before.sequence_no ≡ some number
  pub next_number : cu.sequence_no ≡ some (number + 1)
  pub was_member : is_member db.snapshot_members c.prev_upload_id c.list_kind c.user_id ≡ true

-- A rebuilt history: numbers name one execution, and an unfollow is a step between neighbours.
pub record IsHistory (db : Db) (account : ℕ) : Type 0 where
  pub one_number :
      (r s : Upload) (n : ℕ)
      → In r db.uploads
      → In s db.uploads
      → r.account_id ≡ account
      → s.account_id ≡ account
      → r.sequence_no ≡ some n
      → s.sequence_no ≡ some n
      → r.id ≡ s.id
  pub steps :
      (c : Change) (cu : Upload)
      → In c db.changes
      → is_unfollowed c.change_type ≡ true
      → In cu db.uploads
      → cu.id ≡ c.upload_id
      → cu.account_id ≡ account
      → IsStep db account c cu

module _ {db : Db} {account : ℕ} (h : IsHistory db account) where
  -- The execution before is not the first of the comparison, which does not have the user.
  before-between :
      (c : Change) (cu from : Upload) (lo hi : ℕ)
      → IsStep db account c cu
      → In from db.uploads
      → from.account_id ≡ account
      → from.sequence_no ≡ some lo
      → numbered_within lo hi cu.sequence_no ≡ true
      → is_member db.snapshot_members from.id c.list_kind c.user_id ≡ false
      → is_between db account lo hi c.prev_upload_id ≡ true
  unfolding is_between
  before-between c cu from lo hi s stored owned low within absent =
      let not_first : s.number ≢ lo = λ e.
        let same =
          h.one_number s.before from lo s.stored stored s.owned owned (s.before_number ∙ ap some e)
            low in
        cc (sym same ∙ s.named, s.was_member, absent) in
      any_of_In _ s.before db.uploads s.stored
        (ground (arith, s.named, s.owned, s.done, s.before_number, s.next_number, not_first))

  step-seen_between :
      (c : Change) (cu from : Upload) (lo hi : ℕ)
      → IsStep db account c cu
      → In from db.uploads
      → from.account_id ≡ account
      → from.sequence_no ≡ some lo
      → numbered_within lo hi cu.sequence_no ≡ true
      → is_member db.snapshot_members from.id c.list_kind c.user_id ≡ false
      → seen_between db account c.list_kind lo hi c.user_id ≡ true
  unfolding seen_between is_member
  step-seen_between c cu from lo hi s stored owned low within absent =
      let (m, n, e) = In-of_any _ db.snapshot_members s.was_member in
      any_of_In _ m db.snapshot_members n
        (ground (arith, before-between c cu from lo hi s stored owned low within absent))

  -- A user with an unfollow in the interval, at neither end, was seen in between.
  unfollowed-seen :
      (from : Upload) (k : ListKind) (lo hi x : ℕ)
      → In from db.uploads
      → from.account_id ≡ account
      → from.sequence_no ≡ some lo
      → unfollowed_within db account k lo hi x ≡ true
      → is_member db.snapshot_members from.id k x ≡ false
      → seen_between db account k lo hi x ≡ true
  unfolding unfollowed_within
  unfollowed-seen from k lo hi x stored owned low e absent =
      let (c, n, w) = In-of_any _ db.changes e in
      let (cu, m, v) =
        In-of_any
          (λ cu.
            cu.id == c.upload_id
            && cu.account_id == account
            && numbered_within lo hi cu.sequence_no)
          db.uploads (ground arith) in
      let same_user : c.user_id ≡ x = ground arith in
      let same_kind : c.list_kind ≡ k = kind_eq→eq c.list_kind k (ground arith) in
      let step = h.steps c cu n (ground arith) m (ground arith) (ground arith) in
      ground (
        arith,
        same_user,
        same_kind,
        step-seen_between c cu from lo hi step stored owned low (ground arith),
      )

shown_of :
    (db : Db) (w : User) (test : ℕ → Bool)
    → In w db.users
    → test w.id ≡ true
    → is_shown db (follower w) test ≡ true
shown_of db w test known e =
    any_of_In _ w db.users known (ground (arith, text_eq_refl w.username, text_eq_refl w.href))

any-append_four :
    (p : Follower → Bool) (xs ys zs ws : List Follower)
    → any p (xs ++ ys ++ zs ++ ws) ≡ (any p xs || any p ys || any p zs || any p ws)
any-append_four p xs ys zs ws =
    ground (arith, any-append p (xs ++ ys ++ zs) ws, any-append p (xs ++ ys) zs, any-append p xs ys)

-- In a rebuilt history no stored user in the unfollow log between two numbered executions of the
-- account, the first of them stored, is missing from their comparison: each is listed as lost, gained, returned or transient.
pub diff_accounts_for_unfollows :
    (db : Db) (account : ℕ) (from to : Upload) (kind : Option ListKind) (lo hi : ℕ) (d : NetDiff)
    (w : User)
    → IsHistory db account
    → In from db.uploads
    → from.account_id ≡ account
    → from.sequence_no ≡ some lo
    → to.sequence_no ≡ some hi
    → diff db account from to kind ≡ ok d
    → In w db.users
    → unfollowed_within db account (kind_or_default kind) lo hi w.id ≡ true
    → any (shows (follower w)) (d.lost ++ d.gained ++ d.returned ++ d.transient) ≡ true
diff_accounts_for_unfollows db account from to kind lo hi d w h stored owned low high e known unf =
    let k = kind_or_default kind in
    let first = is_member db.snapshot_members from.id k in
    let last = is_member db.snapshot_members to.id k in
    let shown = diff-shown db account from to kind lo hi d (follower w) low high e in
    ground (
      arith,
      any-append_four (shows (follower w)) d.lost d.gained d.returned d.transient,
      shown,
      shown_of db w (λ x. first x && not (last x)) known,
      shown_of db w (λ x. last x && not (first x)) known,
      shown_of db w (λ x. first x && (last x && unfollowed_within db account k lo hi x)) known,
      shown_of db w (λ x. seen_between db account k lo hi x && (not (first x) && not (last x)))
          known,
      unfollowed-seen h from k lo hi w.id stored owned low unf,
    )
