-- ===== src/Store/Snapshot/Numbering.antt =====
-- The sequence numbers that a rebuild gives, and that it never runs into the unique index.
use mathlib.Core.Option
use insta_follower_tracker.Prelude.{
  ℕ, suc, ◌+◌, ◌≤◌, ◌≡◌, refl, sym, ap, subst, ◌∙◌, inl, inr, true, false, not, ◌&&◌, List, [], ◌∷◌,
  ◌++◌, Option, none, some, arith, ◌==◌, ==_iff, ==_refl, Bool-cases, Option-cases, if◌then◌else◌,
  length, opt_eq, append_assoc, append-nil, length-append,
}
use insta_follower_tracker.Prelude.Table.{any, count, count-append, update_where}
use insta_follower_tracker.Prelude.In.{In, In-map, any-false_intro, any_of_count}
use insta_follower_tracker.Store.Models.{Upload, UploadList, Db, ok}
use insta_follower_tracker.Store.Snapshot.{
  set_number, holds_number, assign_sequence_no, refresh_list_counts, sync_follower_columns,
  sync_row, rebuild,
}
use insta_follower_tracker.Store.Snapshot.Frame.{recompute-uploads}
use insta_follower_tracker.Store.Snapshot.Steps.{round, rounds}

-- The place of an execution in the order, from 1.
unfoldable pub position : List ℕ → ℕ → Option ℕ
position [] x = none
position (u ∷ us) x = if u == x then some 1 else Option.map suc (position us x)

position-le-length : (us : List ℕ) (x : ℕ) (n : ℕ) → position us x ≡ some n → n ≤ length us
unfolding position
position-le-length [] x n h = cc
position-le-length (u ∷ us) x n h = elim (Option-cases (position us x)) [
  | inl e ↦ ground arith
  | inr (m, e) ↦ ground (arith, position-le-length us x m e)
]

position-append_self :
    (us : List ℕ) (u : ℕ)
    → any (λ v. v == u) us ≡ false
    → position (us ++ u ∷ []) u ≡ some (length us + 1)
unfolding position any
position-append_self [] u h = ground arith
position-append_self (v ∷ us) u h = ground (arith, position-append_self us u)

position-append_ne :
    (us : List ℕ) (u x : ℕ) → (x == u) ≡ false → position (us ++ u ∷ []) x ≡ position us x
unfolding position
position-append_ne [] u x h = ground arith
position-append_ne (v ∷ us) u x h = ground (arith, position-append_ne us u x h)

-- A row after a round: the row before it, with its new number if it is the one that the round is about.
pub round-uploads :
    (account now i : ℕ) (prev : Option ℕ) (u : ℕ) (db : Db)
    → (lists : List UploadList) × ((round account now i prev u db).uploads
        ≡ update_where (λ r. r.id == u) (sync_row lists) (set_number u (i + 1) db).uploads)
unfolding round sync_follower_columns refresh_list_counts
round-uploads account now i none u db = (_, refl)
round-uploads account now i (some p) u db =
    (_, ap (update_where (λ r. r.id == u) (sync_row _)) (recompute-uploads account u p now _))

-- A row after a round keeps its id and account, and only the row of `u` is numbered anew.
record IsRenumbered (u n : ℕ) (r r' : Upload) : Type 0 where
  same_id : r'.id ≡ r.id
  same_account : r'.account_id ≡ r.account_id
  number : r'.sequence_no ≡ (if r.id == u then some n else r.sequence_no)

renumber-row :
    (u n : ℕ) (lists : List UploadList) (r : Upload)
    → let r1 = if r.id == u then record r { sequence_no = some n } else r in
      IsRenumbered u n r (if r1.id == u then sync_row lists r1 else r1)
renumber-row u n lists r = ground arith

round-row :
    (account now i : ℕ) (prev : Option ℕ) (u : ℕ) (db : Db) (r' : Upload)
    → In r' (round account now i prev u db).uploads
    → (r : Upload) × In r db.uploads × IsRenumbered u (i + 1) r r'
unfolding set_number
round-row account now i prev u db r' m =
    let (lists, e) = round-uploads account now i prev u db in
    let (r1, m1, e1) = In-map _ r' (set_number u (i + 1) db).uploads (subst (In r') e m) in
    let (r, m2, e2) = In-map _ r1 db.uploads m1 in
    (r, m2, subst (IsRenumbered u (i + 1) r) (sym (cc)) (renumber-row u (i + 1) lists r))

-- The rows of an account are numbered by their places in `done`, and have no number off it.
abbrev pub IsNumbered : ℕ → List ℕ → List Upload → Type 0
IsNumbered account done rows =
    (r : Upload) → In r rows → r.account_id ≡ account → r.sequence_no ≡ position done r.id

-- The executions of the list are rows of the account.
abbrev pub Belongs : ℕ → List ℕ → List Upload → Type 0
Belongs account us rows =
    (r : Upload) → In r rows → any (λ v. v == r.id) us ≡ true → r.account_id ≡ account

round-IsNumbered :
    (account now : ℕ) (prev : Option ℕ) (u : ℕ) (done : List ℕ) (db : Db)
    → any (λ v. v == u) done ≡ false
    → IsNumbered account done db.uploads
    → IsNumbered account (done ++ u ∷ []) (round account now (length done) prev u db).uploads
round-IsNumbered account now prev u done db fresh h r' m e =
    let (r, n, w) = round-row account now (length done) prev u db r' m in
    elim (Bool-cases (r.id == u)) [
      | inl hit ↦ ground (arith, w.number, w.same_id, position-append_self done u fresh)
      | inr miss ↦ ground (
        arith,
        w.number,
        w.same_id,
        w.same_account,
        h r n (sym w.same_account ∙ e),
        position-append_ne done u r.id miss,
      )
    ]

round-Belongs :
    (account now i : ℕ) (prev : Option ℕ) (u : ℕ) (us : List ℕ) (db : Db)
    → Belongs account us db.uploads
    → Belongs account us (round account now i prev u db).uploads
round-Belongs account now i prev u us db h r' m k =
    let (r, n, w) = round-row account now i prev u db r' m in
    w.same_account ∙ h r n (subst (λ x. any (λ v. v == x) us ≡ true) w.same_id k)

-- No other row of the account holds the next number.
number_is_free :
    (account u : ℕ) (done us : List ℕ) (rows : List Upload)
    → IsNumbered account done rows
    → Belongs account (u ∷ us) rows
    → any (λ r. r.id == u && holds_number rows (length done + 1) r) rows ≡ false
unfolding holds_number any
number_is_free account u done us rows h b = any-false_intro _ rows λ r m.
    elim (Bool-cases (r.id == u)) [
      | inl e ↦ rw e (any-false_intro _ rows λ o n. taken_false r o n (b r m (ground arith)))
      | inr e ↦ rw e
    ]
  where
    taken_false :
        (r o : Upload)
        → In o rows
        → r.account_id ≡ account
        → (not (o.id == r.id)
            && o.account_id == r.account_id
            && opt_eq o.sequence_no (some (length done + 1)))
          ≡ false
    taken_false r o n e = elim (Bool-cases (o.account_id == r.account_id)) [
      | inl k ↦
          let same = h o n ((==_iff o.account_id r.account_id).0 k ∙ e) in
          ground (arith, same, position-le-length done o.id (length done + 1))
      | inr k ↦ ground arith
    ]

-- Ids that occur once, and the next of them among those done.
fresh_of_unique :
    (done us : List ℕ) (u : ℕ)
    → ((x : ℕ) → count (λ v. v == x) (done ++ u ∷ us) ≤ 1)
    → any (λ v. v == u) done ≡ false
unfolding count
fresh_of_unique done us u c =
    any_of_count _ done (ground (arith, c u, count-append (λ v. v == u) done (u ∷ us), ==_refl u))

pub rebuild-rounds :
    (account now i : ℕ) (prev : Option ℕ) (done us : List ℕ) (db : Db)
    → i ≡ length done
    → ((x : ℕ) → count (λ v. v == x) (done ++ us) ≤ 1)
    → IsNumbered account done db.uploads
    → Belongs account us db.uploads
    → (rebuild account now i prev us db ≡ ok (rounds account now i prev us db))
      × IsNumbered account (done ++ us) (rounds account now i prev us db).uploads
unfolding rebuild rounds round assign_sequence_no
rebuild-rounds account now i prev done [] db e c h b = (refl, rw append-nil h)
rebuild-rounds account now i prev done (u ∷ us) db e c h b =
    let next = done ++ u ∷ [] in
    let (steps, numbered) =
      rebuild-rounds account now (i + 1) (some u) next us (round account now i prev u db)
        (omega (arith, length-append done (u ∷ []))) (rw append_assoc c)
        (rw e (round-IsNumbered account now prev u done db (fresh_of_unique done us u c) h))
        (round-Belongs account now i prev u us db (λ r m k. b r m (unfold any in ground arith))) in
    (
      rw (e, number_is_free account u done us db.uploads h b) (rw (← e) steps),
      rw append_assoc at numbered,
    )
