-- ===== src/Store/Departure/Reasons.antt =====
-- The reason that a departure gets, against a cascade written from the reasons' own descriptions.
use insta_follower_tracker.Prelude.{
  ℕ, ◌≡◌, refl, sym, subst, ◌∙◌, ap₂, inl, inr, Bool, true, false, not, ◌&&◌, List, [], ◌∷◌, map,
  Option, none, some, arith, ◌==◌, if◌then◌else◌, Bool-cases,
}
use insta_follower_tracker.Prelude.Table.{any}
use insta_follower_tracker.Prelude.In.{In, In-map}
use insta_follower_tracker.Store.Models.{
  DepartureReason, you_blocked, renamed, vanished, unknown, blocked, following, Change, Db,
}
use insta_follower_tracker.Store.Departure.{
  is_member, is_unset, is_departure, is_arrival, recorded, both_recorded, Rename, mark_departure,
  mark_arrival, mark_renames, renames, classify_renames, set_reason, classify_blocked,
  classify_following, classify_rest, classify_departures,
}

-- The first of these that applies: renamed, blocked by you, still followed, no longer followed.
abbrev pub explanation : (paired you_block still_followed was_followed : Bool) → DepartureReason
explanation paired you_block still_followed was_followed =
    if paired
    then renamed
    else if you_block
    then you_blocked
    else if still_followed
    then DepartureReason.unfollowed
    else if was_followed
    then vanished
    else unknown

-- The four findings about the user `x`, each read from lists that the executions carried.
abbrev pub expected : ℕ → ℕ → Db → ℕ → DepartureReason
expected u prev db x =
    explanation (any (λ p. p.from == x) (renames u prev db))
      (recorded db.upload_lists u blocked && is_member db.snapshot_members u blocked x)
      (both_recorded db.upload_lists u prev following
        && is_member db.snapshot_members u following x)
      (both_recorded db.upload_lists u prev following
        && is_member db.snapshot_members prev following x)

-- A pass takes a row to one of the same user, a departure still if it was one, and its reason to
-- what `f` makes of it.
record IsPass (u : ℕ) (f : ℕ → Option DepartureReason → Option DepartureReason) (c c' : Change)
    : Type 0 where
  departs : is_departure u c' ≡ is_departure u c
  user : c'.user_id ≡ c.user_id
  reason : is_departure u c ≡ true → c'.departure_reason ≡ f c.user_id c.departure_reason

abbrev if_paired : List Rename → ℕ → Option DepartureReason → Option DepartureReason
if_paired ps x o = if any (λ p. p.from == x) ps then some renamed else o

abbrev if_unset : (ℕ → Bool) → DepartureReason → ℕ → Option DepartureReason → Option DepartureReason
if_unset test r x o = if is_unset o && test x then some r else o

departure-row :
    (u : ℕ) (p : Rename) (c : Change) → IsPass u (if_paired (p ∷ [])) c (mark_departure u p c)
unfolding any
departure-row u p c = elim (Bool-cases (is_departure u c && c.user_id == p.from)) [
  | inl e ↦ ground arith
  | inr e ↦ ground arith
]

arrival-row : (u : ℕ) (p : Rename) (c : Change) → IsPass u (λ x o. o) c (mark_arrival u p c)
arrival-row u p c = elim (Bool-cases (is_arrival u c && c.user_id == p.to)) [
  | inl e ↦ ground arith
  | inr e ↦ ground arith
]

set_reason-row :
    (u : ℕ) (test : ℕ → Bool) (r : DepartureReason) (c : Change)
    → IsPass u (if_unset test r) c (
        if is_departure u c && is_unset c.departure_reason && test c.user_id
        then record c { departure_reason = some r }
        else c)
set_reason-row u test r c =
    elim (Bool-cases (is_departure u c && is_unset c.departure_reason && test c.user_id)) [
      | inl e ↦ ground arith
      | inr e ↦ ground arith
    ]

-- Every row of the second table comes from one of the first by a pass.
abbrev Traces :
    ℕ → (ℕ → Option DepartureReason → Option DepartureReason) → List Change → List Change → Type 0
Traces u f cs cs' = (c' : Change) → In c' cs' → (c : Change) × In c cs × IsPass u f c c'

IsPass-trans :
    (u : ℕ) (f g : ℕ → Option DepartureReason → Option DepartureReason) (c c1 c2 : Change)
    → IsPass u f c c1
    → IsPass u g c1 c2
    → IsPass u (λ x o. g x (f x o)) c c2
IsPass-trans u f g c c1 c2 p q = record {
  departs = q.departs ∙ p.departs;
  user = q.user ∙ p.user;
  reason = λ h. q.reason (p.departs ∙ h) ∙ ap₂ g p.user (p.reason h);
}

Traces-trans :
    (u : ℕ) (f g : ℕ → Option DepartureReason → Option DepartureReason) (cs cs1 cs2 : List Change)
    → Traces u f cs cs1
    → Traces u g cs1 cs2
    → Traces u (λ x o. g x (f x o)) cs cs2
Traces-trans u f g cs cs1 cs2 s t c2 m =
    let (c1, m1, q) = t c2 m in let (c, m0, p) = s c1 m1 in (c, m0, IsPass-trans u f g c c1 c2 p q)

Traces-map :
    (u : ℕ) (f : ℕ → Option DepartureReason → Option DepartureReason) (h : Change → Change)
    (cs : List Change)
    → ((c : Change) → IsPass u f c (h c))
    → Traces u f cs (map h cs)
Traces-map u f h cs row c' m =
    let (c, n, e) = In-map h c' cs m in (c, n, subst (IsPass u f c) (sym e) (row c))

Traces-same : (u : ℕ) (cs : List Change) → Traces u (λ x o. o) cs cs
Traces-same u cs c m = (c, m, record { departs = refl; user = refl; reason = λ h. refl })

mark_renames-Traces :
    (u : ℕ) (ps : List Rename) (cs : List Change)
    → Traces u (if_paired ps) cs (mark_renames u ps cs)
unfolding mark_renames any
mark_renames-Traces u [] cs = Traces-same u cs
mark_renames-Traces u (p ∷ ps) cs =
    let marked = map (mark_departure u p) cs in
    let arrived = map (mark_arrival u p) marked in
    let both =
      Traces-trans u (if_paired (p ∷ [])) (λ x o. o) cs marked arrived
        (Traces-map u (if_paired (p ∷ [])) (mark_departure u p) cs (departure-row u p))
        (Traces-map u (λ x o. o) (mark_arrival u p) marked (arrival-row u p)) in
    λ c' m.
      let (c, n, w) =
        Traces-trans u (if_paired (p ∷ [])) (if_paired ps) cs arrived (mark_renames u ps arrived)
          both (mark_renames-Traces u ps arrived) c' m in
      (c, n, record { departs = w.departs; user = w.user; reason = λ h. w.reason h ∙ ground arith })

set_reason-Traces :
    (u : ℕ) (test : ℕ → Bool) (r : DepartureReason) (cs : List Change)
    → Traces u (if_unset test r) cs (set_reason u test r cs)
unfolding set_reason
set_reason-Traces u test r cs = Traces-map u (if_unset test r) _ cs (set_reason-row u test r)

Traces-if :
    (u : ℕ) (g : ℕ → Option DepartureReason → Option DepartureReason) (b : Bool)
    (cs cs' : List Change)
    → Traces u g cs cs'
    → Traces u (λ x o. if b then g x o else o) cs (if b then cs' else cs)
Traces-if u g true cs cs' t = t
Traces-if u g false cs cs' t = Traces-same u cs

abbrev block_pass : ℕ → Db → ℕ → Option DepartureReason → Option DepartureReason
block_pass u db x o =
    if recorded db.upload_lists u blocked
    then if_unset (is_member db.snapshot_members u blocked) you_blocked x o
    else o

blocked-Traces :
    (u : ℕ) (db : Db) (cs : List Change) → Traces u (block_pass u db) cs (classify_blocked u db cs)
unfolding classify_blocked
blocked-Traces u db cs =
    Traces-if u (if_unset (is_member db.snapshot_members u blocked) you_blocked)
      (recorded db.upload_lists u blocked) cs _
      (set_reason-Traces u (is_member db.snapshot_members u blocked) you_blocked cs)

-- The two passes over the following list, if both executions carried it.
abbrev follow_pass : ℕ → ℕ → Db → ℕ → Option DepartureReason → Option DepartureReason
follow_pass u prev db x o =
    let still = is_member db.snapshot_members u following x in
    let was = is_member db.snapshot_members prev following x in
    if both_recorded db.upload_lists u prev following
    then if_unset (λ y. was && not still) vanished x
        (if_unset (λ y. still) DepartureReason.unfollowed x o)
    else o

following-Traces :
    (u prev : ℕ) (db : Db) (cs : List Change)
    → Traces u (follow_pass u prev db) cs (classify_following u prev db cs)
unfolding classify_following
following-Traces u prev db cs =
    let still = is_member db.snapshot_members u following in
    let gone = λ (x : ℕ).
      is_member db.snapshot_members prev following x
      && not (is_member db.snapshot_members u following x) in
    let survivors = set_reason u still DepartureReason.unfollowed cs in
    Traces-if u (λ x o. if_unset gone vanished x (if_unset still DepartureReason.unfollowed x o))
      (both_recorded db.upload_lists u prev following) cs (set_reason u gone vanished survivors)
      (Traces-trans u (if_unset still DepartureReason.unfollowed) (if_unset gone vanished) cs
        survivors (set_reason u gone vanished survivors)
        (set_reason-Traces u still DepartureReason.unfollowed cs)
        (set_reason-Traces u gone vanished survivors))

-- The passes in their order, from a reason that is unset.
passes-explanation :
    (u prev : ℕ) (db : Db) (x : ℕ)
    → if_unset
        (λ y. true)
        unknown
        x
        (follow_pass u prev db x (block_pass u db x (if_paired (renames u prev db) x none)))
      ≡ some (expected u prev db x)
passes-explanation u prev db x = ground arith

-- After classifying, each departure of the execution has a reason, and it is the first that
-- applies; before, the departures have none, as the INSERT leaves them.
pub classify_departures-expected :
    (u prev : ℕ) (db : Db) (c' : Change)
    → ((c : Change) → In c db.changes → is_departure u c ≡ true → c.departure_reason ≡ none)
    → In c' (classify_departures u prev db).changes
    → is_departure u c' ≡ true
    → c'.departure_reason ≡ some (expected u prev db c'.user_id)
unfolding classify_departures classify_renames classify_rest
classify_departures-expected u prev db c' unset m h =
    let db1 = classify_renames u prev db in
    let cs1 = mark_renames u (renames u prev db) db.changes in
    let cs2 = classify_blocked u db1 cs1 in
    let cs3 = classify_following u prev db1 cs2 in
    let f1 = if_paired (renames u prev db) in
    let f2 = block_pass u db in
    let f3 = follow_pass u prev db in
    let (c, n, w) =
      Traces-trans u (λ x o. f3 x (f2 x (f1 x o))) (if_unset (λ y. true) unknown) db.changes cs3
        (classify_rest u cs3)
        (Traces-trans u (λ x o. f2 x (f1 x o)) f3 db.changes cs2 cs3
          (Traces-trans u f1 f2 db.changes cs1 cs2
            (mark_renames-Traces u (renames u prev db) db.changes) (blocked-Traces u db1 cs1))
          (following-Traces u prev db1 cs2))
        (set_reason-Traces u (λ y. true) unknown cs3) c' m in
    ground (arith, w.departs, w.user, w.reason, unset c n, passes-explanation u prev db c.user_id)
