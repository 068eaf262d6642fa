-- ===== src/Httpapi/Dashboard/Ends.antt =====
-- The headline row compares the ends of a history.
use insta_follower_tracker.Prelude.{
  ℕ, ◌+◌, suc, ◌≡◌, refl, sym, ap, subst, inl, inr, ◌↔◌, true, List, [], ◌∷◌, ◌++◌, Option, none,
  some, arith, leb, ℤ, pos, negsuc, ◌⊖◌, Bool-cases,
}
use insta_follower_tracker.Prelude.In.{In, In-append, In-append_left, In-append_right}
use insta_follower_tracker.Prelude.Text.{Text}
use insta_follower_tracker.Httpapi.Dashboard.{
  Execution, ListSeries, StatTile, total_of, tiles_of, stat_tiles, last_of, is_several, build_stats,
}

last_of-append : (e l : Execution) (mid : List Execution) → last_of e (mid ++ l ∷ []) ≡ l
unfolding last_of
last_of-append e l [] = refl
last_of-append e l (f ∷ mid) = last_of-append f l mid

is_several-append : (l : Execution) (mid : List Execution) → is_several (mid ++ l ∷ []) ≡ true
is_several-append l [] = refl
is_several-append l (f ∷ mid) = refl

-- What is added to the start, or lost from it, gives the current count.
abbrev pub IsChange : ℕ → ℕ → ℤ → Type 0
IsChange start current (pos n) = current ≡ start + n
IsChange start current (negsuc n) = start ≡ current + suc n

-- The change since the start, or no change without a start.
abbrev pub IsSince : Option ℕ → ℕ → ℕ → StatTile → Type 0
IsSince none at current t = (t.delta ≡ pos 0) × (t.since ≡ none)
IsSince (some start) at current t = IsChange start current t.delta × (t.since ≡ some at)

-- The tile of a list: its count in the last execution, and the change since the first.
abbrev pub IsTile : Execution → Execution → ListSeries → StatTile → Type 0
IsTile first last l t =
    (t.label ≡ l.label)
    × (total_of l.kind last.totals ≡ some t.value)
    × IsSince (total_of l.kind first.totals) first.taken_at t.value t

⊖-IsChange : (start current : ℕ) → IsChange start current (current ⊖ start)
unfolding ◌⊖◌
⊖-IsChange start current = elim (Bool-cases (leb start current)) [
  | inl e ↦ rw e (ground arith)
  | inr e ↦ rw e (ground arith)
]

IsChange-eq : (start current : ℕ) (z : ℤ) → IsChange start current z → z ≡ current ⊖ start
unfolding ◌⊖◌
IsChange-eq start current (pos n) h = ground arith
IsChange-eq start current (negsuc n) h = ground arith

abbrev IsOf : Text → Option ℕ → Option ℕ → ℕ → StatTile → Type 0
IsOf label current start at t =
    (t.label ≡ label) × (current ≡ some t.value) × IsSince start at t.value t

tiles_of-IsOf :
    (label : Text) (current start : Option ℕ) (at : ℕ) (t : StatTile)
    → In t (tiles_of label current at true start)
    → IsOf label current start at t
tiles_of-IsOf label none start at t m = absurd m
tiles_of-IsOf label (some c) start at t (inr m) = absurd m
tiles_of-IsOf label (some c) none at t (inl e) = (
  ap (λ x. x.label) e,
  ap (λ x. some x.value) (sym e),
  (ap (λ x. x.delta) e, ap (λ x. x.since) e),
)
tiles_of-IsOf label (some c) (some s) at t (inl e) = (
  ap (λ x. x.label) e,
  ap (λ x. some x.value) (sym e),
  (subst (λ x. IsChange s x.value x.delta) (sym e) (⊖-IsChange s c), ap (λ x. x.since) e),
)

IsOf-tiles_of :
    (label : Text) (current start : Option ℕ) (at : ℕ) (t : StatTile)
    → IsOf label current start at t
    → In t (tiles_of label current at true start)
IsOf-tiles_of label none start at t (a, b, c) = cc b
IsOf-tiles_of label (some c) none at t (a, b, (d, e)) = inl (cc (a, b, d, e))
IsOf-tiles_of label (some c) (some s) at t (a, b, (d, e)) =
    let z = IsChange-eq s t.value t.delta d in inl (cc (a, b, z, e))

stat_tiles-IsTile :
    (first last : Execution) (series : List ListSeries) (t : StatTile)
    → In t (stat_tiles first last true series)
      ↔ ((l : ListSeries) × In l series × IsTile first last l t)
unfolding stat_tiles
stat_tiles-IsTile first last [] t = (λ m. absurd m, λ (l, n, w). absurd n)
stat_tiles-IsTile first last (l ∷ ls) t =
    let (there, back) = stat_tiles-IsTile first last ls t in
    let here =
      tiles_of l.label (total_of l.kind last.totals) first.taken_at true
        (total_of l.kind first.totals) in
    (
      λ m. elim (In-append t here (stat_tiles first last true ls) m) [
        | inl a ↦ (
          l,
          inl refl,
          tiles_of-IsOf l.label (total_of l.kind last.totals) (total_of l.kind first.totals)
              first.taken_at t a,
        )
        | inr a ↦ let (k, n, w) = there a in (k, inr n, w)
      ],
      λ (k, n, w). elim n [
        | inl e ↦ In-append_left t here (stat_tiles first last true ls) (
            IsOf-tiles_of l.label (total_of l.kind last.totals) (total_of l.kind first.totals)
              first.taken_at t (subst (λ x. IsTile first last x t) e w))
        | inr n' ↦ In-append_right t here (stat_tiles first last true ls) (back (k, n', w))
      ],
    )

-- A tile is in the headline row of two executions or more exactly if it is that of some list of the
-- series: it has its label, its count in the last execution, and the change that leads from its count in
-- the first one to it, with the time of the first. A list without a count in the last execution has
-- no tile, one without a count in the first no change. What lies between plays no part.
pub build_stats-IsTile :
    (first last : Execution) (mid : List Execution) (series : List ListSeries) (t : StatTile)
    → In t (build_stats (first ∷ (mid ++ last ∷ [])) series)
      ↔ ((l : ListSeries) × In l series × IsTile first last l t)
unfolding build_stats last_of
build_stats-IsTile first last mid series t =
    rw (last_of-append first last mid, is_several-append last mid)
      (stat_tiles-IsTile first last series t)
