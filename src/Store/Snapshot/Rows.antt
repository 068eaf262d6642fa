-- ===== src/Store/Snapshot/Rows.antt =====
-- A rebuild renumbers and recounts the rows of `uploads`, and adds, drops or moves none.
use insta_follower_tracker.Prelude.{
  ℕ, ◌+◌, ◌≡◌, refl, sym, subst, ◌∙◌, List, [], ◌∷◌, map, Option, none, some, arith,
}
use insta_follower_tracker.Prelude.In.{In, In-map, In-map_of}
use insta_follower_tracker.Store.Models.{Upload, Db}
use insta_follower_tracker.Store.Snapshot.{
  set_number, clear_sequence_numbers, clear_changes, executions_in_date_order,
}
use insta_follower_tracker.Store.Snapshot.Frame.{rounds-members}
use insta_follower_tracker.Store.Snapshot.Steps.{round, rounds, recomputed}
use insta_follower_tracker.Store.Snapshot.Numbering.{round-uploads}

-- What a rebuild leaves alone in a row.
pub record SameExecution (r r' : Upload) : Type 0 where
  pub id : r'.id ≡ r.id
  pub account : r'.account_id ≡ r.account_id
  pub status : r'.status ≡ r.status

SameExecution-trans : (r s t : Upload) → SameExecution r s → SameExecution s t → SameExecution r t
SameExecution-trans r s t p q = record {
  id = q.id ∙ p.id;
  account = q.account ∙ p.account;
  status = q.status ∙ p.status;
}

-- The rows of the second table are those of the first, each still the same execution.
pub record SameRows (rows rows' : List Upload) : Type 0 where
  pub back : (r' : Upload) → In r' rows' → (r : Upload) × In r rows × SameExecution r r'
  pub forth : (r : Upload) → In r rows → (r' : Upload) × In r' rows' × SameExecution r r'

SameRows-refl : (rows : List Upload) → SameRows rows rows
SameRows-refl rows = record {
  back = λ r m. (r, m, record { id = refl; account = refl; status = refl });
  forth = λ r m. (r, m, record { id = refl; account = refl; status = refl });
}

SameRows-trans : (xs ys zs : List Upload) → SameRows xs ys → SameRows ys zs → SameRows xs zs
SameRows-trans xs ys zs p q = record {
  back = λ r m.
      let (s, n, e) = q.back r m in
      let (t, k, f) = p.back s n in (t, k, SameExecution-trans t s r f e);
  forth = λ r m.
      let (s, n, e) = p.forth r m in
      let (t, k, f) = q.forth s n in (t, k, SameExecution-trans r s t e f);
}

SameRows-map :
    (f : Upload → Upload) (rows : List Upload)
    → ((r : Upload) → SameExecution r (f r))
    → SameRows rows (map f rows)
SameRows-map f rows same = record {
  back = λ r' m.
      let (r, n, e) = In-map f r' rows m in (r, n, subst (SameExecution r) (sym e) (same r));
  forth = λ r m. (f r, In-map_of f r rows m, same r);
}

round-SameRows :
    (account now i : ℕ) (prev : Option ℕ) (u : ℕ) (db : Db)
    → SameRows db.uploads (round account now i prev u db).uploads
unfolding set_number
round-SameRows account now i prev u db =
    let (lists, e) = round-uploads account now i prev u db in
    let numbered = (set_number u (i + 1) db).uploads in
    subst (SameRows db.uploads) (sym e) (
      SameRows-trans db.uploads numbered _ (SameRows-map _ db.uploads (λ r. ground arith))
        (SameRows-map _ numbered (λ r. ground arith)))

rounds-SameRows :
    (account now i : ℕ) (prev : Option ℕ) (us : List ℕ) (db : Db)
    → SameRows db.uploads (rounds account now i prev us db).uploads
unfolding rounds
rounds-SameRows account now i prev [] db = SameRows-refl db.uploads
rounds-SameRows account now i prev (u ∷ us) db =
    SameRows-trans db.uploads (round account now i prev u db).uploads _
      (round-SameRows account now i prev u db)
      (rounds-SameRows account now (i + 1) (some u) us (round account now i prev u db))

pub recomputed-SameRows :
    (account now : ℕ) (db : Db) → SameRows db.uploads (recomputed account now db).uploads
unfolding recomputed clear_sequence_numbers clear_changes
recomputed-SameRows account now db =
    let start = clear_changes account (clear_sequence_numbers account db) in
    SameRows-trans db.uploads start.uploads _ (SameRows-map _ db.uploads (λ r. ground arith))
      (rounds-SameRows account now 0 none (executions_in_date_order db account) start)

pub recomputed-members :
    (account now : ℕ) (db : Db) → (recomputed account now db).snapshot_members ≡ db.snapshot_members
unfolding recomputed clear_sequence_numbers clear_changes
recomputed-members account now db =
    rounds-members account now 0 none (executions_in_date_order db account)
      (clear_changes account (clear_sequence_numbers account db))
