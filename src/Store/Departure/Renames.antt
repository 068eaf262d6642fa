-- ===== src/Store/Departure/Renames.antt =====
-- When a departure and an arrival are taken for one person: classifyRenames against the rule that
-- their follow time names exactly one of each.
use insta_follower_tracker.Prelude.{
  ℕ, ◌≤◌, ◌≡◌, refl, sym, subst, ap, inl, inr, Bool, ◌&&◌, List, [], ◌∷◌, map, arith, ◌==◌, ==_iff,
  ==_refl, if◌then◌else◌, Bool-cases, ◌↔◌,
}
use insta_follower_tracker.Prelude.Table.{count, select}
use insta_follower_tracker.Prelude.In.{
  In, In-map, In-map_of, In-append, In-append_left, In-append_right, In-select, In-select_of,
  unique_row,
}
use insta_follower_tracker.Store.Models.{Db}
use insta_follower_tracker.Store.Departure.{
  Timed, at_time, Rename, renames_of, rename_pairs, renames, timed_changes, is_departure,
  is_arrival,
}

-- The departures and the arrivals of an execution whose follow time is known.
abbrev pub gone : ℕ → ℕ → Db → List Timed
gone u prev db = timed_changes (is_departure u) prev db.snapshot_members db.changes

abbrev pub arrived : ℕ → Db → List Timed
arrived u db = timed_changes (is_arrival u) u db.snapshot_members db.changes

-- The time `t` names one departure of `gs` and one arrival of `hs`, `x` and `y`.
pub record IsMatch (gs hs : List Timed) (x y t : ℕ) : Type 0 where
  pub left : In (record { user_id = x; followed_at = t }) gs
  pub came : In (record { user_id = y; followed_at = t }) hs
  pub one_left : count (at_time t) gs ≡ 1
  pub one_came : count (at_time t) hs ≡ 1

module _ (gs hs : List Timed) where
  pairs_at : Timed → List Rename
  pairs_at g =
      map (λ a. record { from = g.user_id; to = a.user_id }) (select (at_time g.followed_at) hs)

  pairs_at-IsMatch :
      (g : Timed) (p : Rename)
      → In g gs
      → count (at_time g.followed_at) gs ≡ 1
      → count (at_time g.followed_at) hs ≡ 1
      → In p (pairs_at g)
      → IsMatch gs hs p.from p.to g.followed_at
  unfolding pairs_at
  pairs_at-IsMatch g p n one_left one_came m =
      let (a, k, e) =
        In-map (λ a. record { from = g.user_id; to = a.user_id }) p
          (select (at_time g.followed_at) hs) m in
      let (k', t) = In-select (at_time g.followed_at) a hs k in
      let same = (==_iff a.followed_at g.followed_at).0 t in
      record {
        left =
            subst (λ (x : ℕ). In (record { user_id = x; followed_at = g.followed_at }) gs)
              (sym (ap (λ (r : Rename). r.from) e)) n;
        came =
            subst (λ (r : Timed). In r hs)
              (λ i. record { user_id = ap (λ (r : Rename). r.to) (sym e) i; followed_at = same i })
              k';
        one_left = one_left;
        one_came = one_came;
      }

  renames_of-IsMatch :
      (g : Timed) (p : Rename)
      → In g gs
      → In p (renames_of gs hs g)
      → IsMatch gs hs p.from p.to g.followed_at
  unfolding renames_of pairs_at
  renames_of-IsMatch g p n m =
      let b = count (at_time g.followed_at) gs == 1 && count (at_time g.followed_at) hs == 1 in
      elim (Bool-cases b) [
        | inl e ↦
            pairs_at-IsMatch g p n (ground arith) (ground arith)
              (subst (λ (c : Bool). In p (if c then pairs_at g else [])) e m)
        | inr e ↦ absurd (subst (λ (c : Bool). In p (if c then pairs_at g else [])) e m)
      ]

  rename_pairs-IsMatch :
      (rest : List Timed) (p : Rename)
      → ((g : Timed) → In g rest → In g gs)
      → In p (rename_pairs gs hs rest)
      → (t : ℕ) × IsMatch gs hs p.from p.to t
  unfolding rename_pairs
  rename_pairs-IsMatch [] p h m = absurd m
  rename_pairs-IsMatch (g ∷ rest) p h m =
      elim (In-append p (renames_of gs hs g) (rename_pairs gs hs rest) m) [
        | inl n ↦ (g.followed_at, renames_of-IsMatch g p (h g (inl refl)) n)
        | inr n ↦ rename_pairs-IsMatch rest p (λ f k. h f (inr k)) n
      ]

  rename_pairs_of :
      (rest : List Timed) (x y t : ℕ)
      → In (record { user_id = x; followed_at = t }) rest
      → IsMatch gs hs x y t
      → In (record { from = x; to = y }) (rename_pairs gs hs rest)
  unfolding rename_pairs renames_of
  rename_pairs_of [] x y t m w = absurd m
  rename_pairs_of (g ∷ rest) x y t (inr m) w =
      In-append_right _ (renames_of gs hs g) (rename_pairs gs hs rest)
        (rename_pairs_of rest x y t m w)
  rename_pairs_of (g ∷ rest) x y t (inl e) w =
      In-append_left _ (renames_of gs hs g) (rename_pairs gs hs rest) (
        subst (λ (f : Timed). In (record { from = x; to = y }) (renames_of gs hs f)) e
          (rw (w.one_left, w.one_came)
            (In-map_of (λ a. record { from = x; to = a.user_id })
              (record { user_id = y; followed_at = t }) (select (at_time t) hs)
              (In-select_of (at_time t) _ hs w.came (==_refl t)))))

-- A rename is found exactly if some follow time names one departure and one arrival, and they are
-- the two of the rename. A time that several share pairs nobody.
pub renames-IsMatch :
    (u prev : ℕ) (db : Db) (p : Rename)
    → In p (renames u prev db) ↔ ((t : ℕ) × IsMatch (gone u prev db) (arrived u db) p.from p.to t)
unfolding renames
renames-IsMatch u prev db p = (
  rename_pairs-IsMatch (gone u prev db) (arrived u db) (gone u prev db) p (λ g m. m),
  λ (t, w). rename_pairs_of (gone u prev db) (arrived u db) (gone u prev db) p.from p.to t w.left w,
)

-- Where each user has one follow time at an execution, no arrival is given to two departures.
pub renames-injective :
    (u prev : ℕ) (db : Db) (p q : Rename)
    → ((x : ℕ) → count (λ a. a.user_id == x) (arrived u db) ≤ 1)
    → In p (renames u prev db)
    → In q (renames u prev db)
    → p.to ≡ q.to
    → p ≡ q
renames-injective u prev db p q single m n e =
    let (t, w) = (renames-IsMatch u prev db p).0 m in
    let (s, v) = (renames-IsMatch u prev db q).0 n in
    let same_arrival =
      unique_row (λ a. a.user_id == p.to) (record { user_id = p.to; followed_at = t })
        (record { user_id = q.to; followed_at = s }) (arrived u db) (single p.to) w.came v.came
        (==_refl p.to) (ground arith) in
    let same_time = ap (λ (a : Timed). a.followed_at) same_arrival in
    let same_departure =
      unique_row (at_time t) (record { user_id = p.from; followed_at = t })
        (record { user_id = q.from; followed_at = s }) (gone u prev db) (omega (arith, w.one_left))
        w.left v.left (==_refl t) (ground arith) in
    let same_from = ap (λ (a : Timed). a.user_id) same_departure in
    λ i. record { from = same_from i; to = e i }
