-- ===== src/Store/Diff/Rebuilt.antt =====
-- What a rebuild leaves is a history: the state that the comparisons are made from.
use insta_follower_tracker.Prelude.{
  ℕ, ◌≡◌, sym, ◌∙◌, subst, inl, inr, true, List, none, some, arith, ◌==◌, ==_refl, Bool-cases,
  if◌then◌else◌,
}
use insta_follower_tracker.Prelude.In.{In, In-of_any, any_of_In}
use insta_follower_tracker.Store.Models.{
  kind_eq_refl, is_unfollowed, is_completed, SnapshotMember, Upload, Change, Db, ok,
}
use insta_follower_tracker.Store.Departure.{is_member}
use insta_follower_tracker.Store.Snapshot.{recompute_account, executions_in_date_order}
use insta_follower_tracker.Store.Snapshot.Steps.{recomputed}
use insta_follower_tracker.Store.Snapshot.Order.{
  IsKeyed, executions_in_date_order-any, executions_in_date_order-once,
}
use insta_follower_tracker.Store.Snapshot.Numbering.{position}
use insta_follower_tracker.Store.Snapshot.Changes.{Key, has_key, is_recorded, crossed, on_one_side}
use insta_follower_tracker.Store.Snapshot.History.{adjacent, described}
use insta_follower_tracker.Store.Snapshot.Rebuild.{
  recompute_account-recomputed, recompute_account-recorded,
}
use insta_follower_tracker.Store.Snapshot.Rows.{recomputed-SameRows, recomputed-members}
use insta_follower_tracker.Store.Snapshot.Neighbours.{
  adjacent_positions, position_injective, any_of_position,
}
use insta_follower_tracker.Store.Diff.Accounted.{IsStep, IsHistory}

-- The changes carry the account of their execution.
abbrev pub IsOwned : Db → Type 0
IsOwned db =
    (c : Change) (u : Upload)
    → In c db.changes
    → In u db.uploads
    → u.id ≡ c.upload_id
    → u.account_id ≡ c.account_id

abbrev key_of : Change → Key
key_of c = record {
  account = c.account_id;
  upload = c.upload_id;
  prev = c.prev_upload_id;
  kind = c.list_kind;
  type = c.change_type;
  user = c.user_id;
}

has_key_self : (c : Change) → has_key (key_of c) c ≡ true
unfolding has_key
has_key_self c = ground (
  arith,
  ==_refl c.account_id,
  ==_refl c.upload_id,
  ==_refl c.prev_upload_id,
  ==_refl c.user_id,
  kind_eq_refl c.list_kind,
)

-- Whoever left was in the list before.
crossed_left :
    (rows : List SnapshotMember) (c : Change)
    → is_unfollowed c.change_type ≡ true
    → crossed rows (key_of c) c.change_type ≡ true
    → is_member rows c.prev_upload_id c.list_kind c.user_id ≡ true
unfolding on_one_side
crossed_left rows c unf h = ground arith

module _ (account now : ℕ) (db : Db) (keyed : IsKeyed db.uploads) (owned : IsOwned db) where
  after : Db
  after = recomputed account now db

  order : List ℕ
  order = executions_in_date_order db account

  recorded_after :
      (c : Change)
      → In c after.changes
      → (if account == c.account_id
          then described (key_of c) account none order db.upload_lists db.snapshot_members
          else is_recorded (key_of c) db.changes)
        ≡ true
  unfolding after order
  recorded_after c m =
      sym (
        recompute_account-recorded account now db after (key_of c) keyed
          (recompute_account-recomputed account now db keyed).0)
      ∙ any_of_In (has_key (key_of c)) c after.changes m (has_key_self c)

  -- A change at an execution of the account is one of the account.
  owned_after :
      (c : Change) (cu : Upload)
      → In c after.changes
      → In cu after.uploads
      → cu.id ≡ c.upload_id
      → cu.account_id ≡ account
      → (account == c.account_id) ≡ true
  unfolding has_key after
  owned_after c cu m n e a = elim (Bool-cases (account == c.account_id)) [
    | inl hit ↦ hit
    | inr miss ↦
        let (c0, m0, k) =
          In-of_any (has_key (key_of c)) db.changes (rw miss at (recorded_after c m)) in
        let (u0, n0, same) = (recomputed-SameRows account now db).back cu n in
        let whose = owned c0 u0 m0 n0 (ground (arith, same.id)) in
        ground (arith, whose, same.account)
  ]

  -- The row that the execution at place `n` has after the rebuild.
  placed_row :
      (x n : ℕ)
      → position order x ≡ some n
      → (r : Upload) × In r after.uploads
        × (r.id ≡ x)
        × (r.account_id ≡ account)
        × (is_completed r.status ≡ true)
        × (r.sequence_no ≡ some n)
  unfolding after order
  placed_row x n e =
      let listed = any_of_position order x n e in
      let (r0, m0, k) =
        In-of_any _ db.uploads (sym (executions_in_date_order-any db account x) ∙ listed) in
      let (r, m, same) = (recomputed-SameRows account now db).forth r0 m0 in
      let numbered =
        (recompute_account-recomputed account now db keyed).1 r m (ground (arith, same.account)) in
      (
        r,
        m,
        ground (arith, same.id),
        ground (arith, same.account),
        ground (arith, same.status),
        ground (arith, numbered, e, same.id),
      )

  unfollow-IsStep :
      (c : Change) (cu : Upload)
      → In c after.changes
      → is_unfollowed c.change_type ≡ true
      → In cu after.uploads
      → cu.id ≡ c.upload_id
      → cu.account_id ≡ account
      → IsStep after account c cu
  unfolding after order on_one_side
  unfollow-IsStep c cu m unf n e a =
      let fact = rw (owned_after c cu m n e a) at (recorded_after c m) in
      let next_to : adjacent none order c.prev_upload_id c.upload_id ≡ true = ground arith in
      let (i, before, behind) =
        adjacent_positions order c.prev_upload_id c.upload_id
          (executions_in_date_order-once db account keyed) next_to in
      let (r, k, named, mine, done, low) = placed_row c.prev_upload_id i before in
      let numbered = (recompute_account-recomputed account now db keyed).1 cu n a in
      record {
        before = r;
        stored = k;
        named = named;
        owned = mine;
        done = done;
        number = i;
        before_number = low;
        next_number = ground (arith, numbered, behind, e);
        was_member =
            rw (recomputed-members account now db)
              (crossed_left db.snapshot_members c unf (ground arith));
      }

  after-IsHistory : IsHistory after account
  unfolding after
  after-IsHistory = record {
    one_number = λ r s n m k a b e f.
        let place = (recompute_account-recomputed account now db keyed).1 in
        position_injective (executions_in_date_order db account) r.id s.id n (sym (place r m a) ∙ e)
          (sym (place s k b) ∙ f);
    steps = unfollow-IsStep;
  }

-- Where the ids of uploads are distinct and each change carries the account of its execution, a
-- rebuild that succeeds leaves a history: each number of the account names one execution, and each unfollow is
-- a step from the execution numbered directly below, which had the user.
pub recompute_account-IsHistory :
    (account now : ℕ) (db db' : Db)
    → IsKeyed db.uploads
    → IsOwned db
    → recompute_account account now db ≡ ok db'
    → IsHistory db' account
recompute_account-IsHistory account now db db' keyed owned e =
    let same : recomputed account now db ≡ db' =
      cc (e, (recompute_account-recomputed account now db keyed).0) in
    subst (λ d. IsHistory d account) same
      (unfold after in after-IsHistory account now db keyed owned)
