-- ===== src/Store/Departure.antt =====
-- internal/store/departure.go: why somebody left the follower list. Each UPDATE is a pass over
-- the changes of one execution.
pub mod Reasons
pub mod Renames
use insta_follower_tracker.Prelude.{
  ℕ, Bool, true, false, not, ◌&&◌, ◌||◌, List, [], ◌∷◌, ◌++◌, map, Option, none, some, ◌==◌,
  if◌then◌else◌,
}
use insta_follower_tracker.Prelude.Table.{any, count, select, update_where}
use insta_follower_tracker.Prelude.Text.{Text, codes}
use insta_follower_tracker.Store.Models.{
  DepartureReason, you_blocked, renamed, vanished, unknown, ListKind, blocked, followers, following,
  kind_eq, is_unfollowed, is_followed, SnapshotMember, UploadList, Change, Db,
}

-- SELECT 1 FROM snapshot_members WHERE upload_id = ? AND list_kind = ? AND user_id = ?
unfoldable pub is_member : List SnapshotMember → ℕ → ListKind → ℕ → Bool
is_member rows u k x = any (λ m. m.upload_id == u && kind_eq m.list_kind k && m.user_id == x) rows

-- A change with `departure_reason IS NULL`.
abbrev pub is_unset : Option DepartureReason → Bool
is_unset none = true
is_unset (some r) = false

abbrev pub is_departure : ℕ → Change → Bool
is_departure u c = c.upload_id == u && kind_eq c.list_kind followers && is_unfollowed c.change_type

abbrev pub is_arrival : ℕ → Change → Bool
is_arrival u c = c.upload_id == u && kind_eq c.list_kind followers && is_followed c.change_type

unfoldable pub recorded : List UploadList → ℕ → ListKind → Bool
recorded rows u k = count (λ l. l.upload_id == u && kind_eq l.list_kind k) rows == 1

unfoldable pub both_recorded : List UploadList → ℕ → ℕ → ListKind → Bool
both_recorded rows u p k =
    count (λ l. kind_eq l.list_kind k && (l.upload_id == u || l.upload_id == p)) rows == 2

-- A row of `gone` or of `arrived`: a user and the follow time that one execution gives for them.
pub record Timed : Type 0 where
  pub user_id : ℕ
  pub followed_at : ℕ

-- The join of one change with the snapshot rows of its user; a NULL time is left out.
unfoldable pub times_of : ℕ → Change → List SnapshotMember → List Timed
times_of u c [] = []
times_of u c (m ∷ ms) =
    if m.upload_id == u && kind_eq m.list_kind followers && m.user_id == c.user_id
    then elim m.followed_at [
      | none ↦ times_of u c ms
      | some t ↦ record { user_id = c.user_id; followed_at = t } ∷ times_of u c ms
    ]
    else times_of u c ms

-- `gone` with `source` the previous execution and `gone` with the current one as `arrived`.
unfoldable pub timed_changes : (Change → Bool) → ℕ → List SnapshotMember → List Change → List Timed
unfolding times_of
timed_changes p source ms [] = []
timed_changes p source ms (c ∷ cs) =
    if p c
    then times_of source c ms ++ timed_changes p source ms cs
    else timed_changes p source ms cs

abbrev pub at_time : ℕ → Timed → Bool
at_time t r = r.followed_at == t

pub record Rename : Type 0 where
  pub from : ℕ
  pub to : ℕ

-- The pairs of one departure: the arrivals at its time, if the time names one of each.
unfoldable pub renames_of : List Timed → List Timed → Timed → List Rename
renames_of gone arrived g =
    if count (at_time g.followed_at) gone == 1 && count (at_time g.followed_at) arrived == 1
    then map (λ a. record { from = g.user_id; to = a.user_id })
        (select (at_time g.followed_at) arrived)
    else []

unfoldable pub rename_pairs : List Timed → List Timed → List Timed → List Rename
unfolding renames_of
rename_pairs gone arrived [] = []
rename_pairs gone arrived (g ∷ gs) = renames_of gone arrived g ++ rename_pairs gone arrived gs

abbrev pub mark_departure : ℕ → Rename → Change → Change
mark_departure u p c =
    if is_departure u c && c.user_id == p.from
    then record c { departure_reason = some renamed; renamed_to_user_id = some p.to }
    else c

abbrev pub mark_arrival : ℕ → Rename → Change → Change
mark_arrival u p c =
    if is_arrival u c && c.user_id == p.to
    then record c { renamed_from_user_id = some p.from }
    else c

-- The two UPDATEs for each pair, in turn.
unfoldable pub mark_renames : ℕ → List Rename → List Change → List Change
mark_renames u [] cs = cs
mark_renames u (p ∷ ps) cs =
    mark_renames u ps (map (mark_arrival u p) (map (mark_departure u p) cs))

unfoldable pub renames : ℕ → ℕ → Db → List Rename
unfolding timed_changes rename_pairs
renames u prev db =
    let gone = timed_changes (is_departure u) prev db.snapshot_members db.changes in
    let arrived = timed_changes (is_arrival u) u db.snapshot_members db.changes in
    rename_pairs gone arrived gone

unfoldable pub classify_renames : ℕ → ℕ → Db → Db
unfolding renames mark_renames
classify_renames u prev db = record db { changes = mark_renames u (renames u prev db) db.changes }

-- UPDATE changes SET departure_reason = r WHERE ... AND departure_reason IS NULL AND test(user_id)
unfoldable pub set_reason : ℕ → (ℕ → Bool) → DepartureReason → List Change → List Change
set_reason u test r =
    update_where (λ c. is_departure u c && is_unset c.departure_reason && test c.user_id)
      λ c. record c { departure_reason = some r }

-- The four passes after the renames, each over what is still unset.
unfoldable pub classify_blocked : ℕ → Db → List Change → List Change
unfolding set_reason recorded
classify_blocked u db cs =
    if recorded db.upload_lists u blocked
    then set_reason u (is_member db.snapshot_members u blocked) you_blocked cs
    else cs

unfoldable pub classify_following : ℕ → ℕ → Db → List Change → List Change
unfolding set_reason both_recorded
classify_following u prev db cs =
    if both_recorded db.upload_lists u prev following
    then set_reason u
        (λ x.
          is_member db.snapshot_members prev following x
          && not (is_member db.snapshot_members u following x))
        vanished
        (set_reason u (is_member db.snapshot_members u following) DepartureReason.unfollowed cs)
    else cs

unfoldable pub classify_rest : ℕ → List Change → List Change
unfolding set_reason
classify_rest u = set_reason u (λ x. true) unknown

unfoldable pub classify_departures : ℕ → ℕ → Db → Db
unfolding classify_renames classify_blocked classify_following classify_rest
classify_departures u prev db =
    let db' = classify_renames u prev db in
    record db' {
      changes =
          classify_rest u (classify_following u prev db' (classify_blocked u db' db'.changes));
    }

-- DepartureReason.Label; a reason that is not recorded is unknown too.
unfoldable pub label : Option DepartureReason → Text
label (some you_blocked) = codes "you blocked them"
label (some renamed) = codes "renamed"
label (some DepartureReason.unfollowed) = codes "unfollowed you"
label (some vanished) = codes "gone from Instagram"
label (some unknown) = codes "unknown"
label none = codes "unknown"
