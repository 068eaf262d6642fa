-- ===== src/Store/Snapshot/Rebuild.antt =====
-- recomputeAccount as a whole: it always succeeds, and what it leaves behind.
use insta_follower_tracker.Prelude.{
  ℕ, ◌≡◌, refl, ◌∙◌, not, ◌&&◌, List, [], none, arith, ◌==◌, if◌then◌else◌,
}
use insta_follower_tracker.Prelude.Table.{any-select, any-and, any_congr}
use insta_follower_tracker.Prelude.In.{In-map}
use insta_follower_tracker.Store.Models.{Upload, Change, Db, ok}
use insta_follower_tracker.Store.Snapshot.{
  recompute_account, executions_in_date_order, clear_changes, clear_sequence_numbers,
}
use insta_follower_tracker.Store.Snapshot.Steps.{recomputed}
use insta_follower_tracker.Store.Snapshot.Order.{
  IsKeyed, executions_in_date_order-once, executions_in_date_order-Belongs,
}
use insta_follower_tracker.Store.Snapshot.Numbering.{IsNumbered, Belongs, position, rebuild-rounds}
use insta_follower_tracker.Store.Snapshot.Changes.{Key, has_key, is_recorded}
use insta_follower_tracker.Store.Snapshot.History.{described, rounds-recorded}

cleared-row :
    (account : ℕ) (r : Upload)
    → let r' = if r.account_id == account then record r { sequence_no = none } else r in
      (r'.id ≡ r.id)
      × (r'.account_id ≡ r.account_id)
      × (r'.account_id ≡ account → r'.sequence_no ≡ none)
cleared-row account r = ground arith

clear-IsNumbered :
    (account : ℕ) (db : Db) → IsNumbered account [] (clear_sequence_numbers account db).uploads
unfolding clear_sequence_numbers position
clear-IsNumbered account db r' m e =
    let (r, n, w) = In-map _ r' db.uploads m in
    let facts = cleared-row account r in ground (arith, facts.2)

clear-Belongs :
    (account : ℕ) (us : List ℕ) (db : Db)
    → Belongs account us db.uploads
    → Belongs account us (clear_sequence_numbers account db).uploads
unfolding clear_sequence_numbers
clear-Belongs account us db h r' m k =
    let (r, n, w) = In-map _ r' db.uploads m in
    let facts = cleared-row account r in ground (arith, facts, h r n)

pub recompute_account-recomputed :
    (account now : ℕ) (db : Db)
    → IsKeyed db.uploads
    → (recompute_account account now db ≡ ok (recomputed account now db))
      × IsNumbered account (executions_in_date_order db account) (recomputed account now db).uploads
unfolding recompute_account recomputed
recompute_account-recomputed account now db keyed =
    let start = clear_changes account (clear_sequence_numbers account db) in
    let order = executions_in_date_order db account in
    rebuild-rounds account now 0 none [] order start refl
      (executions_in_date_order-once db account keyed)
      (unfold clear_changes in clear-IsNumbered account db)
      (unfold clear_changes in
        clear-Belongs account order db (executions_in_date_order-Belongs db account keyed))

cleared-key :
    (key : Key) (account : ℕ) (c : Change)
    → (not (c.account_id == account) && has_key key c)
      ≡ (not (account == key.account) && has_key key c)
unfolding has_key
cleared-key key account c = ground arith

cleared-recorded :
    (key : Key) (account : ℕ) (db : Db)
    → is_recorded key (clear_changes account (clear_sequence_numbers account db)).changes
      ≡ (not (account == key.account) && is_recorded key db.changes)
unfolding clear_changes clear_sequence_numbers
cleared-recorded key account db =
    any-select (has_key key) (λ c. not (c.account_id == account)) db.changes
    ∙ any_congr _ _ db.changes (cleared-key key account)
    ∙ any-and (not (account == key.account)) (has_key key) db.changes

-- Where the ids of uploads are distinct and the rebuild succeeds, the changes of the account are
-- afterwards exactly those described by its snapshots: the key names neighbours in date order, both
-- carried the list, and the user crossed. The changes of other accounts are as they were.
pub recompute_account-recorded :
    (account now : ℕ) (db db' : Db) (key : Key)
    → IsKeyed db.uploads
    → recompute_account account now db ≡ ok db'
    → is_recorded key db'.changes ≡ (
        if account == key.account
        then described key account none
            (executions_in_date_order db account)
            db.upload_lists
            db.snapshot_members
        else is_recorded key db.changes)
unfolding recomputed clear_changes clear_sequence_numbers
recompute_account-recorded account now db db' key keyed e =
    let start = clear_changes account (clear_sequence_numbers account db) in
    ground (
      arith,
      (recompute_account-recomputed account now db keyed).0,
      rounds-recorded key account now 0 none (executions_in_date_order db account) start,
      cleared-recorded key account db,
    )
