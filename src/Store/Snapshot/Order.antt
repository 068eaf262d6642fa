-- ===== src/Store/Snapshot/Order.antt =====
-- The order in which a history is rebuilt: every completed execution of the account, once, by date.
use insta_follower_tracker.Prelude.{ℕ, ◌≤◌, ◌≡◌, ◌∙◌, Bool, true, false, ◌&&◌, List, arith, ◌==◌}
use insta_follower_tracker.Prelude.Table.{any, count, select, any-map, any-select}
use insta_follower_tracker.Prelude.In.{In-of_any, unique_row, count-map, count-select-le}
use insta_follower_tracker.Prelude.Sort.{sort, any-sort, count-sort, is_sorted, sort-is_sorted}
use insta_follower_tracker.Store.Models.{Upload, Db}
use insta_follower_tracker.Store.Snapshot.{
  date_le, is_execution_of, executions_by_date, executions_in_date_order,
}
use insta_follower_tracker.Store.Snapshot.Numbering.{Belongs}

-- Upload ids are a primary key.
abbrev pub IsKeyed : List Upload → Type 0
IsKeyed rows = (x : ℕ) → count (λ r. r.id == x) rows ≤ 1

date_le_total : (a b : Upload) → date_le a b ≡ false → date_le b a ≡ true
unfolding date_le
date_le_total a b h = ground arith

date_le_trans : (a b c : Upload) → date_le a b ≡ true → date_le b c ≡ true → date_le a c ≡ true
unfolding date_le
date_le_trans a b c h k = ground arith

pub executions_by_date-is_sorted :
    (db : Db) (account : ℕ) → is_sorted date_le (executions_by_date db account) ≡ true
unfolding executions_by_date
executions_by_date-is_sorted db account =
    sort-is_sorted date_le date_le_total date_le_trans (select (is_execution_of account) db.uploads)

pub executions_by_date-any :
    (db : Db) (account : ℕ) (p : Upload → Bool)
    → any p (executions_by_date db account) ≡ any (λ r. is_execution_of account r && p r) db.uploads
unfolding executions_by_date
executions_by_date-any db account p =
    any-sort date_le p (select (is_execution_of account) db.uploads)
    ∙ any-select p (is_execution_of account) db.uploads

pub executions_in_date_order-any :
    (db : Db) (account x : ℕ)
    → any (λ v. v == x) (executions_in_date_order db account)
      ≡ any (λ r. is_execution_of account r && r.id == x) db.uploads
unfolding executions_in_date_order
executions_in_date_order-any db account x =
    any-map (λ v. v == x) (λ u. u.id) (executions_by_date db account)
    ∙ executions_by_date-any db account (λ r. r.id == x)

-- Where the ids of uploads are distinct, the date order lists no execution twice.
pub executions_in_date_order-once :
    (db : Db) (account : ℕ)
    → IsKeyed db.uploads
    → (x : ℕ) → count (λ v. v == x) (executions_in_date_order db account) ≤ 1
unfolding executions_in_date_order executions_by_date
executions_in_date_order-once db account keyed x =
    let p = λ (r : Upload). r.id == x in
    let chosen = select (is_execution_of account) db.uploads in
    ground (
      arith,
      count-map (λ v. v == x) (λ u. u.id) (sort date_le chosen),
      count-sort date_le p chosen,
      count-select-le p (is_execution_of account) db.uploads,
      keyed x,
    )

pub executions_in_date_order-Belongs :
    (db : Db) (account : ℕ)
    → IsKeyed db.uploads
    → Belongs account (executions_in_date_order db account) db.uploads
executions_in_date_order-Belongs db account keyed r m h =
    let listed = λ (s : Upload). is_execution_of account s && s.id == r.id in
    let (s, n, k) =
      In-of_any listed db.uploads (rw (executions_in_date_order-any db account r.id) at h) in
    let same =
      unique_row (λ t. t.id == r.id) r s db.uploads (keyed r.id) m n (ground arith)
        (ground arith) in
    ground arith
