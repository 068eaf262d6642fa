-- ===== src/Store/Snapshot/History.antt =====
-- The history after a rebuild, against an independent description: which changes there are.
use insta_follower_tracker.Prelude.{
  ℕ, ◌+◌, ◌≡◌, refl, ◌∙◌, Bool, true, false, ◌&&◌, ◌||◌, List, [], ◌∷◌, Option, none, some, arith,
  ◌==◌,
}
use insta_follower_tracker.Prelude.Table.{any, any-select, any-and, any_congr, any-update}
use insta_follower_tracker.Store.Models.{
  ListKind, kind_eq, kind_eq→eq, SnapshotMember, Db, UploadList,
}
use insta_follower_tracker.Store.Snapshot.{
  set_number, refresh_list_counts, sync_follower_columns, carries, shared_kinds, all_kinds,
  recompute_lists_between, diff_lists,
}
use insta_follower_tracker.Store.Snapshot.Frame.{round-members, round-carries}
use insta_follower_tracker.Store.Snapshot.Steps.{round, rounds}
use insta_follower_tracker.Store.Snapshot.Changes.{
  Key, is_recorded, crossed, diffs_of_kinds, diff_lists-recorded, classify_departures-recorded,
}

all_kinds-any : (k : ListKind) → any (λ j. kind_eq j k) all_kinds ≡ true
unfolding any kind_eq
all_kinds-any k = ground arith

shared_kinds-row :
    (rows : List UploadList) (u prev : ℕ) (k j : ListKind)
    → ((carries rows u j && carries rows prev j) && kind_eq j k)
      ≡ ((carries rows u k && carries rows prev k) && kind_eq j k)
shared_kinds-row rows u prev k j = ground (arith, kind_eq→eq j k)

shared_kinds-any :
    (rows : List UploadList) (u prev : ℕ) (k : ListKind)
    → any (λ j. kind_eq j k) (shared_kinds rows u prev) ≡ (carries rows u k && carries rows prev k)
unfolding shared_kinds
shared_kinds-any rows u prev k =
    any-select (λ j. kind_eq j k) _ all_kinds
    ∙ any_congr _ _ all_kinds (shared_kinds-row rows u prev k)
    ∙ any-and (carries rows u k && carries rows prev k) _ all_kinds
    ∙ ground (arith, all_kinds-any k)

-- What one pair of neighbours adds: nothing, unless the key names the pair, both of its executions
-- carried the list, and the user of the key crossed between them.
abbrev pub pair_adds : Key → ℕ → ℕ → ℕ → List UploadList → List SnapshotMember → Bool
pair_adds key account u prev lists rows =
    account == key.account
    && u == key.upload
    && prev == key.prev
    && (carries lists key.upload key.kind && carries lists key.prev key.kind)
    && crossed rows key key.type

recompute-recorded :
    (key : Key) (account u prev now : ℕ) (db : Db)
    → is_recorded key (recompute_lists_between account u prev now db).changes ≡ (
        is_recorded key db.changes
        || pair_adds key account u prev db.upload_lists db.snapshot_members)
unfolding recompute_lists_between diffs_of_kinds
recompute-recorded key account u prev now db =
    let ks = shared_kinds db.upload_lists u prev in
    ground (
      arith,
      classify_departures-recorded key u prev (diff_lists account u prev now ks db),
      diff_lists-recorded key account u prev now ks db,
      shared_kinds-any db.upload_lists u prev key.kind,
    )

-- `p` stands directly before `u`, in `prev` followed by `us`.
unfoldable pub adjacent : Option ℕ → List ℕ → ℕ → ℕ → Bool
adjacent prev [] p u = false
adjacent none (v ∷ vs) p u = adjacent (some v) vs p u
adjacent (some q) (v ∷ vs) p u = (q == p && v == u) || adjacent (some v) vs p u

-- The description of a rebuilt history: the key names two neighbours of the order, both carried the
-- list, and the user is in the list at one and not at the other.
abbrev pub described : Key → ℕ → Option ℕ → List ℕ → List UploadList → List SnapshotMember → Bool
described key account prev us lists rows =
    account == key.account
    && adjacent prev us key.prev key.upload
    && (carries lists key.upload key.kind && carries lists key.prev key.kind)
    && crossed rows key key.type

round-none-recorded :
    (key : Key) (account now i u : ℕ) (db : Db)
    → is_recorded key (round account now i none u db).changes ≡ is_recorded key db.changes
unfolding round sync_follower_columns refresh_list_counts set_number
round-none-recorded key account now i u db = refl

-- The counts are refreshed before the lists are compared, which changes no row's list.
refresh-carries :
    (u : ℕ) (db : Db) (v : ℕ) (k : ListKind)
    → carries (refresh_list_counts u db).upload_lists v k ≡ carries db.upload_lists v k
unfolding refresh_list_counts carries
refresh-carries u db v k = any-update _ _ _ db.upload_lists (λ l. refl)

round-recorded :
    (key : Key) (account now i p u : ℕ) (db : Db)
    → is_recorded key (round account now i (some p) u db).changes ≡ (
        is_recorded key db.changes || pair_adds key account u p db.upload_lists db.snapshot_members)
unfolding round sync_follower_columns refresh_list_counts set_number
round-recorded key account now i p u db =
    recompute-recorded key account u p now (refresh_list_counts u (set_number u (i + 1) db))
    ∙ ground (
      arith,
      refresh-carries u (set_number u (i + 1) db) key.upload key.kind,
      refresh-carries u (set_number u (i + 1) db) key.prev key.kind,
    )

pub rounds-recorded :
    (key : Key) (account now i : ℕ) (prev : Option ℕ) (us : List ℕ) (db : Db)
    → is_recorded key (rounds account now i prev us db).changes ≡ (
        is_recorded key db.changes
        || described key account prev us db.upload_lists db.snapshot_members)
unfolding rounds adjacent
rounds-recorded key account now i prev [] db = ground arith
rounds-recorded key account now i none (u ∷ us) db = ground (
  arith,
  rounds-recorded key account now (i + 1) (some u) us (round account now i none u db),
  round-none-recorded key account now i u db,
  round-members account now i none u db,
  round-carries account now i none u db key.upload key.kind,
  round-carries account now i none u db key.prev key.kind,
)
rounds-recorded key account now i (some p) (u ∷ us) db = ground (
  arith,
  rounds-recorded key account now (i + 1) (some u) us (round account now i (some p) u db),
  round-recorded key account now i p u db,
  round-members account now i (some p) u db,
  round-carries account now i (some p) u db key.upload key.kind,
  round-carries account now i (some p) u db key.prev key.kind,
)
