-- ===== src/Store/Snapshot/Changes.antt =====
-- The changes that a rebuild leaves: the one-sided differences of neighbours in date order.
use insta_follower_tracker.Prelude.{
  ℕ, ◌≡◌, refl, ap, ◌∙◌, inl, inr, Bool, true, not, ◌&&◌, ◌||◌, List, [], ◌∷◌, ◌++◌, map, arith,
  ◌==◌, ==_iff, Bool-cases,
}
use insta_follower_tracker.Prelude.Table.{
  any, any-append, any-map, any-select, any-and, any_congr, any-update,
}
use insta_follower_tracker.Store.Models.{
  ChangeType, type_eq, ListKind, kind_eq, kind_eq→eq, SnapshotMember, Change, Db, DepartureReason,
  you_blocked, vanished, unknown, blocked, following,
}
use insta_follower_tracker.Store.Snapshot.Frame.{diff_list-members}
use insta_follower_tracker.Store.Departure.{
  is_member, classify_departures, classify_renames, mark_renames, mark_departure, mark_arrival,
  set_reason, Rename, classify_blocked, classify_following, classify_rest, is_departure, is_arrival,
  recorded, both_recorded, renames,
}
use insta_follower_tracker.Store.Snapshot.{
  new_change, one_sided, record_changes, update_list_counts, diff_list, diff_lists,
}

-- What identifies a change: its columns other than the time and the reason.
pub record Key : Type 0 where
  pub account : ℕ
  pub upload : ℕ
  pub prev : ℕ
  pub kind : ListKind
  pub type : ChangeType
  pub user : ℕ

unfoldable pub has_key : Key → Change → Bool
has_key key c =
    c.account_id == key.account
    && c.upload_id == key.upload
    && c.prev_upload_id == key.prev
    && kind_eq c.list_kind key.kind
    && type_eq c.change_type key.type
    && c.user_id == key.user

-- There is a change with the key.
abbrev pub is_recorded : Key → List Change → Bool
is_recorded key cs = any (has_key key) cs

-- In the list at `present`, and not in the list at `absent`.
unfoldable pub on_one_side : List SnapshotMember → ListKind → ℕ → ℕ → ℕ → Bool
on_one_side rows k present absent x = is_member rows present k x && not (is_member rows absent k x)

-- The user of the key changed sides between its two executions, the way the key says.
abbrev pub crossed : List SnapshotMember → Key → ChangeType → Bool
crossed rows key ChangeType.followed = on_one_side rows key.kind key.upload key.prev key.user
crossed rows key ChangeType.unfollowed = on_one_side rows key.kind key.prev key.upload key.user

module _ (rows : List SnapshotMember) (k : ListKind) (present absent x : ℕ) where
  one_sided-row :
      (m : SnapshotMember)
      → ((m.upload_id == present
            && kind_eq m.list_kind k
            && not (is_member rows absent k m.user_id))
          && m.user_id == x)
        ≡ (not (is_member rows absent k x)
            && (m.upload_id == present && kind_eq m.list_kind k && m.user_id == x))
  one_sided-row m = elim (Bool-cases (m.user_id == x)) [
    | inl e ↦ rw ((==_iff m.user_id x).0 e) (ground arith)
    | inr e ↦ rw e (ground arith)
  ]

  any-one_sided :
      any (λ m. m.user_id == x) (one_sided rows k present absent)
      ≡ on_one_side rows k present absent x
  unfolding one_sided on_one_side is_member
  any-one_sided =
      any-select (λ m. m.user_id == x) _ rows
      ∙ any_congr _ _ rows one_sided-row
      ∙ any-and (not (is_member rows absent k x)) _ rows
      ∙ ground arith

-- The row that an INSERT writes has the key exactly if the columns given to it do.
abbrev writes : Key → ℕ → ℕ → ℕ → ListKind → ChangeType → Bool
writes key account u prev k t =
    account == key.account
    && u == key.upload
    && prev == key.prev
    && kind_eq k key.kind
    && type_eq t key.type

new_change-row :
    (key : Key) (account u prev : ℕ) (k : ListKind) (t : ChangeType) (now : ℕ) (m : SnapshotMember)
    → has_key key (new_change account u prev k t now m)
      ≡ (writes key account u prev k t && m.user_id == key.user)
unfolding has_key
new_change-row key account u prev k t now m = ground arith

any-new_change :
    (key : Key) (account u prev : ℕ) (k : ListKind) (t : ChangeType) (now : ℕ)
    (rows : List SnapshotMember) (present absent : ℕ)
    → any (has_key key) (map (new_change account u prev k t now) (one_sided rows k present absent))
      ≡ (writes key account u prev k t && on_one_side rows k present absent key.user)
any-new_change key account u prev k t now rows present absent =
    any-map (has_key key) (new_change account u prev k t now) (one_sided rows k present absent)
    ∙ any_congr _ _ (one_sided rows k present absent) (new_change-row key account u prev k t now)
    ∙ any-and (writes key account u prev k t) _ (one_sided rows k present absent)
    ∙ ap (λ (b : Bool). writes key account u prev k t && b)
        (any-one_sided rows k present absent key.user)

-- The differences of one list, in both directions.
abbrev pub diffs : Key → ℕ → ℕ → ℕ → ListKind → List SnapshotMember → Bool
diffs key account u prev k rows =
    account == key.account
    && u == key.upload
    && prev == key.prev
    && kind_eq k key.kind
    && crossed rows key key.type

module _ (rows : List SnapshotMember) (account u prev : ℕ) (k : ListKind) (account' u' prev' : ℕ)
    (k' : ListKind) (x : ℕ) where
  both_sides :
      (t : ChangeType)
      → let key : Key = record {
        account = account';
        upload = u';
        prev = prev';
        kind = k';
        type = t;
        user = x;
      } in
        ((writes key account u prev k ChangeType.followed && on_one_side rows k u prev x)
          || (writes key account u prev k ChangeType.unfollowed && on_one_side rows k prev u x))
        ≡ diffs key account u prev k rows
  both_sides ChangeType.followed = ground (arith, kind_eq→eq k k')
  both_sides ChangeType.unfollowed = ground (arith, kind_eq→eq k k')

diff_list-recorded :
    (key : Key) (account u prev now : ℕ) (k : ListKind) (db : Db)
    → is_recorded key (diff_list account u prev now k db).changes
      ≡ (is_recorded key db.changes || diffs key account u prev k db.snapshot_members)
unfolding diff_list record_changes update_list_counts
diff_list-recorded key account u prev now k db =
    let rows = db.snapshot_members in
    ground (
      arith,
      any-append (has_key key)
          (db.changes
            ++ map (new_change account u prev k ChangeType.followed now) (one_sided rows k u prev))
          (map (new_change account u prev k ChangeType.unfollowed now) (one_sided rows k prev u)),
      any-append (has_key key) db.changes
          (map (new_change account u prev k ChangeType.followed now) (one_sided rows k u prev)),
      any-new_change key account u prev k ChangeType.followed now rows u prev,
      any-new_change key account u prev k ChangeType.unfollowed now rows prev u,
      both_sides rows account u prev k key.account key.upload key.prev key.kind key.user key.type,
    )

-- The same for all lists of a pair of executions.
unfoldable pub diffs_of_kinds : Key → ℕ → ℕ → ℕ → List ListKind → List SnapshotMember → Bool
diffs_of_kinds key account u prev ks rows =
    account == key.account
    && u == key.upload
    && prev == key.prev
    && any (λ k. kind_eq k key.kind) ks
    && crossed rows key key.type

pub diff_lists-recorded :
    (key : Key) (account u prev now : ℕ) (ks : List ListKind) (db : Db)
    → is_recorded key (diff_lists account u prev now ks db).changes
      ≡ (is_recorded key db.changes || diffs_of_kinds key account u prev ks db.snapshot_members)
unfolding diff_lists diffs_of_kinds any
diff_lists-recorded key account u prev now [] db = ground arith
diff_lists-recorded key account u prev now (k ∷ ks) db = ground (
  arith,
  diff_lists-recorded key account u prev now ks (diff_list account u prev now k db),
  diff_list-recorded key account u prev now k db,
  diff_list-members account u prev now k db,
)

module _ (key : Key) where
  set_reason-recorded :
      (u : ℕ) (test : ℕ → Bool) (r : DepartureReason) (cs : List Change)
      → is_recorded key (set_reason u test r cs) ≡ is_recorded key cs
  unfolding set_reason has_key
  set_reason-recorded u test r cs = any-update (has_key key) _ _ cs (λ c. refl)

  mark_departure-key :
      (u : ℕ) (p : Rename) (c : Change) → has_key key (mark_departure u p c) ≡ has_key key c
  unfolding has_key
  mark_departure-key u p c = elim (Bool-cases (is_departure u c && c.user_id == p.from)) [
    | inl e ↦ rw e
    | inr e ↦ rw e
  ]

  mark_arrival-key :
      (u : ℕ) (p : Rename) (c : Change) → has_key key (mark_arrival u p c) ≡ has_key key c
  unfolding has_key
  mark_arrival-key u p c = elim (Bool-cases (is_arrival u c && c.user_id == p.to)) [
    | inl e ↦ rw e
    | inr e ↦ rw e
  ]

  mark_renames-recorded :
      (u : ℕ) (ps : List Rename) (cs : List Change)
      → is_recorded key (mark_renames u ps cs) ≡ is_recorded key cs
  unfolding mark_renames
  mark_renames-recorded u [] cs = refl
  mark_renames-recorded u (p ∷ ps) cs =
      mark_renames-recorded u ps (map (mark_arrival u p) (map (mark_departure u p) cs))
      ∙ any-map (has_key key) (mark_arrival u p) (map (mark_departure u p) cs)
      ∙ any_congr _ _ (map (mark_departure u p) cs) (mark_arrival-key u p)
      ∙ any-map (has_key key) (mark_departure u p) cs
      ∙ any_congr _ _ cs (mark_departure-key u p)

  classify_blocked-recorded :
      (u : ℕ) (db : Db) (cs : List Change)
      → is_recorded key (classify_blocked u db cs) ≡ is_recorded key cs
  unfolding classify_blocked
  classify_blocked-recorded u db cs = elim (Bool-cases (recorded db.upload_lists u blocked)) [
    | inl e ↦ rw e (set_reason-recorded u _ you_blocked cs)
    | inr e ↦ rw e
  ]

  classify_following-recorded :
      (u prev : ℕ) (db : Db) (cs : List Change)
      → is_recorded key (classify_following u prev db cs) ≡ is_recorded key cs
  unfolding classify_following
  classify_following-recorded u prev db cs =
      elim (Bool-cases (both_recorded db.upload_lists u prev following)) [
        | inl e ↦ rw e (
            set_reason-recorded u _ vanished _
            ∙ set_reason-recorded u _ DepartureReason.unfollowed cs)
        | inr e ↦ rw e
      ]

  -- Classifying sets reasons and the two names of a rename, and neither adds nor drops a change.
  pub classify_departures-recorded :
      (u prev : ℕ) (db : Db)
      → is_recorded key (classify_departures u prev db).changes ≡ is_recorded key db.changes
  unfolding classify_departures classify_renames classify_rest
  classify_departures-recorded u prev db =
      set_reason-recorded u (λ x. true) unknown _
      ∙ classify_following-recorded u prev (classify_renames u prev db) _
      ∙ classify_blocked-recorded u (classify_renames u prev db) _
      ∙ mark_renames-recorded u (renames u prev db) db.changes
