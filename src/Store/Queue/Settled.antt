-- ===== src/Store/Queue/Settled.antt =====
-- What completing or failing a claimed upload does to the queues, counted on the rows.
use insta_follower_tracker.Prelude.{
  ℕ, ◌+◌, ◌≤◌, ◌<◌, ◌≡◌, refl, sym, subst, ◌∙◌, ap, Bool, true, false, not, ◌&&◌, List, [], ◌∷◌,
  none, some, arith, ◌==◌, ==_refl,
}
use insta_follower_tracker.Prelude.Table.{count, count-update, update_where}
use insta_follower_tracker.Prelude.In.{In, count-update-le, count-update-lt, count-update-le-add}
use insta_follower_tracker.Store.Models.{
  processing, failed, is_pending, is_processing, Upload, Db, ListSnapshot, ok,
}
use insta_follower_tracker.Prelude.Text.{Text}
use insta_follower_tracker.Store.Snapshot.Order.{IsKeyed}
use insta_follower_tracker.Store.Apply.{SnapshotResult, completed_row, apply_body}
use insta_follower_tracker.Store.Apply.Uploads.{IsStable, apply_body-count}
use insta_follower_tracker.Store.Queue.{start_upload, fail_upload, awaits_reread, finish_reprocess}
use insta_follower_tracker.Store.Queue.Claims.{IsClaim}

-- The rows of `db'` count as those of `db` with the row of `u` settled.
pub record IsSettled (u : ℕ) (db db' : Db) : Type 0 where
  pub change : Upload → Upload
  pub settled :
      (r : Upload)
      → (is_pending (change r).status ≡ false) × (is_processing (change r).status ≡ false)
  pub same_id : (r : Upload) → (change r).id ≡ r.id
  pub counted :
      (p : Upload → Bool)
      → IsStable p
      → count p db'.uploads ≡ count p (update_where (λ r. r.id == u) change db.uploads)

pub fail_upload-IsSettled :
    (u : ℕ) (reason : Text) (now : ℕ) (db : Db) → IsSettled u db (fail_upload u reason now db)
unfolding fail_upload
fail_upload-IsSettled u reason now db = record {
  change = λ r. record r { status = failed; error_message = reason; processed_at = some now };
  settled = λ r. (refl, refl);
  same_id = λ r. refl;
  counted = λ p stable. refl;
}

pub apply_body-IsSettled :
    (u : ℕ) (lists : List ListSnapshot) (taken_at : ℕ) (source : Text) (now later : ℕ) (db db' : Db)
    (result : SnapshotResult)
    → IsKeyed db.uploads
    → apply_body u lists taken_at source now later db ≡ ok (result, db')
    → IsSettled u db db'
apply_body-IsSettled u lists taken_at source now later db db' result keyed e = record {
  change = completed_row now taken_at source;
  settled = λ r. (refl, refl);
  same_id = λ r. refl;
  counted =
      λ p stable. apply_body-count p u lists taken_at source now later db db' result stable keyed e;
}

abbrev pub waits : Upload → Bool
waits r = is_pending r.status

abbrev pub runs : Upload → Bool
runs r = is_processing r.status

waits-IsStable : IsStable waits
waits-IsStable = record { numbers = λ r n. refl; counts = λ r ls. refl }

runs-IsStable : IsStable runs
runs-IsStable = record { numbers = λ r n. refl; counts = λ r ls. refl }

awaits_reread-IsStable : IsStable awaits_reread
awaits_reread-IsStable = record { numbers = λ r n. refl; counts = λ r ls. refl }

id-IsStable : (x : ℕ) → IsStable (λ r. r.id == x)
id-IsStable x = record { numbers = λ r n. refl; counts = λ r ls. refl }

-- Two UPDATEs of the rows of one id, of which the second leaves no row that passes.
count-update_twice-le :
    (p : Upload → Bool) (u : ℕ) (f g : Upload → Upload) (rows : List Upload)
    → ((r : Upload) → p (g r) ≡ false)
    → ((r : Upload) → (f r).id ≡ r.id)
    → count p (update_where (λ r. r.id == u) g (update_where (λ r. r.id == u) f rows))
      ≤ count p rows
unfolding count
count-update_twice-le p u f g [] h k = omega arith
count-update_twice-le p u f g (r ∷ rows) h k =
    ground (arith, h r, h (f r), k r, count-update_twice-le p u f g rows h k)

pub settled-IsKeyed :
    (u : ℕ) (db db' : Db) → IsSettled u db db' → IsKeyed db.uploads → IsKeyed db'.uploads
settled-IsKeyed u db db' s keyed x = rw (s.counted (λ r. r.id == x) (id-IsStable x)) (
    rw
      (count-update (λ r. r.id == x) (λ r. r.id == u) s.change db.uploads
        (λ r. ap (λ (i : ℕ). i == x) (s.same_id r)))
      (keyed x))

pub start_upload-IsKeyed :
    (u now : ℕ) (db : Db) → IsKeyed db.uploads → IsKeyed (start_upload u now db).uploads
unfolding start_upload
start_upload-IsKeyed u now db keyed x =
    rw
      (count-update (λ r. r.id == x) (λ r. r.id == u)
        (λ r. record r { status = processing; started_at = some now }) db.uploads (λ r. refl))
      (keyed x)

-- After a claimed upload is settled fewer wait, no more run, and at most one more awaits rereading.
pub record IsSmaller (db db' : Db) : Type 0 where
  pub keyed : IsKeyed db'.uploads
  pub waiting : count waits db'.uploads < count waits db.uploads
  pub running : count runs db'.uploads ≤ count runs db.uploads
  pub awaiting : count awaits_reread db'.uploads ≤ count awaits_reread db.uploads + 1

started-IsSmaller :
    (now u : ℕ) (row : Upload) (db db2 : Db)
    → IsKeyed db.uploads
    → In row db.uploads
    → waits row ≡ true
    → (row.id == u) ≡ true
    → IsSettled u (start_upload u now db) db2
    → IsSmaller db db2
unfolding start_upload
started-IsSmaller now u row db db2 keyed m w i s =
    let start = λ (r : Upload). record r { status = processing; started_at = some now } in
    let mine = λ (r : Upload). r.id == u in
    let rows = update_where mine start db.uploads in
    record {
      keyed = settled-IsKeyed u (start_upload u now db) db2 s (start_upload-IsKeyed u now db keyed);
      waiting = omega (
        arith,
        s.counted waits waits-IsStable,
        count-update-le waits mine s.change rows (λ r e. absurd (cc (e, (s.settled r).0))),
        count-update-lt waits mine start row db.uploads (λ r. refl) m w i,
      );
      running = omega (
        arith,
        s.counted runs runs-IsStable,
        count-update_twice-le runs u start s.change db.uploads (λ r. (s.settled r).1) (λ r. refl),
      );
      awaiting = omega (
        arith,
        s.counted awaits_reread awaits_reread-IsStable,
        count-update-le-add awaits_reread mine s.change rows,
        count-update-le awaits_reread mine start db.uploads (λ r e. ground arith),
        start_upload-IsKeyed u now db keyed u,
      );
    }

pub claimed-IsSmaller :
    (now : ℕ) (db : Db) (up : Upload) (db1 db2 : Db)
    → IsKeyed db.uploads
    → IsClaim now db up db1
    → IsSettled up.id db1 db2
    → IsSmaller db db2
claimed-IsSmaller now db up db1 db2 keyed c s =
    started-IsSmaller now up.id c.row db db2 keyed c.stored c.waits
      (subst (λ (i : ℕ). (i == up.id) ≡ true) c.same_id (==_refl up.id))
      (subst (λ d. IsSettled up.id d db2)
        (c.after ∙ ap (λ (i : ℕ). start_upload i now db) (sym c.same_id)) s)

-- The rows that await rereading, the row of `u` left out.
abbrev others : ℕ → Upload → Bool
others u r = awaits_reread r && not (r.id == u)

finished-count :
    (u : ℕ) (rows : List Upload)
    → count awaits_reread
        (update_where (λ r. r.id == u) (λ r. record r { reprocess_at = none }) rows)
      ≡ count (others u) rows
unfolding count
finished-count u [] = refl
finished-count u (r ∷ rows) = ground (arith, finished-count u rows)

others-update :
    (u : ℕ) (f : Upload → Upload) (rows : List Upload)
    → ((r : Upload) → (f r).id ≡ r.id)
    → count (others u) (update_where (λ r. r.id == u) f rows) ≡ count (others u) rows
unfolding count
others-update u f [] h = refl
others-update u f (r ∷ rows) h = ground (arith, h r, others-update u f rows h)

others-lt :
    (u : ℕ) (row : Upload) (rows : List Upload)
    → In row rows
    → awaits_reread row ≡ true
    → (row.id == u) ≡ true
    → count (others u) rows < count awaits_reread rows
others-lt u row rows m a i = omega (
  arith,
  finished-count u rows,
  count-update-lt awaits_reread (λ r. r.id == u) (λ r. record r { reprocess_at = none }) row rows
      (λ r. refl) m a i,
)

others-IsStable : (u : ℕ) → IsStable (others u)
others-IsStable u = record { numbers = λ r n. refl; counts = λ r ls. refl }

-- After a reread is finished fewer await one, and no more wait or run.
pub record IsFewer (db db' : Db) : Type 0 where
  pub keyed : IsKeyed db'.uploads
  pub waiting : count waits db'.uploads ≤ count waits db.uploads
  pub running : count runs db'.uploads ≤ count runs db.uploads
  pub awaiting : count awaits_reread db'.uploads < count awaits_reread db.uploads

-- A reread that leaves the other rows, and queues nothing.
pub record IsReread (u : ℕ) (db db' : Db) : Type 0 where
  pub keyed : IsKeyed db'.uploads
  pub waiting : count waits db'.uploads ≤ count waits db.uploads
  pub running : count runs db'.uploads ≤ count runs db.uploads
  pub left : count (others u) db'.uploads ≡ count (others u) db.uploads

pub same-IsReread : (u : ℕ) (db : Db) → IsKeyed db.uploads → IsReread u db db
same-IsReread u db keyed = record {
  keyed = keyed;
  waiting = omega arith;
  running = omega arith;
  left = refl;
}

pub settled-IsReread :
    (u : ℕ) (db db' : Db) → IsKeyed db.uploads → IsSettled u db db' → IsReread u db db'
settled-IsReread u db db' keyed s =
    let mine = λ (r : Upload). r.id == u in
    record {
      keyed = settled-IsKeyed u db db' s keyed;
      waiting = omega (
        arith,
        s.counted waits waits-IsStable,
        count-update-le waits mine s.change db.uploads (λ r e. absurd (cc (e, (s.settled r).0))),
      );
      running = omega (
        arith,
        s.counted runs runs-IsStable,
        count-update-le runs mine s.change db.uploads (λ r e. absurd (cc (e, (s.settled r).1))),
      );
      left =
          s.counted (others u) (others-IsStable u) ∙ others-update u s.change db.uploads s.same_id;
    }

pub finished-IsFewer :
    (row : Upload) (db db' : Db)
    → In row db.uploads
    → awaits_reread row ≡ true
    → IsReread row.id db db'
    → IsFewer db (finish_reprocess row.id db')
unfolding finish_reprocess
finished-IsFewer row db db' m a s =
    let u = row.id in
    let mine = λ (r : Upload). r.id == u in
    let clear = λ (r : Upload). record r { reprocess_at = none } in
    record {
      keyed =
          λ x. rw (count-update (λ r. r.id == x) mine clear db'.uploads (λ r. refl)) (s.keyed x);
      waiting = omega (arith, s.waiting, count-update waits mine clear db'.uploads (λ r. refl));
      running = omega (arith, s.running, count-update runs mine clear db'.uploads (λ r. refl));
      awaiting =
          omega (
            arith,
            s.left,
            finished-count u db'.uploads,
            others-lt u row db.uploads m a (==_refl u),
          );
    }
