-- ===== src/Store/Snapshot/Frame.antt =====
-- What the statements of a rebuild leave alone.
use insta_follower_tracker.Prelude.{ℕ, ◌+◌, ◌≡◌, refl, ◌∙◌, List, [], ◌∷◌, Option, none, some}
use insta_follower_tracker.Prelude.Table.{any-update}
use insta_follower_tracker.Store.Models.{ListKind, Db}
use insta_follower_tracker.Store.Departure.{classify_departures, classify_renames}
use insta_follower_tracker.Store.Snapshot.{
  set_number, refresh_list_counts, sync_follower_columns, carries, record_changes,
  update_list_counts, diff_list, diff_lists, recompute_lists_between, shared_kinds,
}
use insta_follower_tracker.Store.Snapshot.Steps.{round, rounds}

module _ (account u prev now : ℕ) where
  pub diff_list-members :
      (k : ListKind) (db : Db)
      → (diff_list account u prev now k db).snapshot_members ≡ db.snapshot_members
  unfolding diff_list record_changes update_list_counts
  diff_list-members k db = refl

  diff_lists-members :
      (ks : List ListKind) (db : Db)
      → (diff_lists account u prev now ks db).snapshot_members ≡ db.snapshot_members
  unfolding diff_lists diff_list record_changes update_list_counts
  diff_lists-members [] db = refl
  diff_lists-members (k ∷ ks) db = diff_lists-members ks (diff_list account u prev now k db)

  pub diff_lists-uploads :
      (ks : List ListKind) (db : Db) → (diff_lists account u prev now ks db).uploads ≡ db.uploads
  unfolding diff_lists diff_list record_changes update_list_counts
  diff_lists-uploads [] db = refl
  diff_lists-uploads (k ∷ ks) db = diff_lists-uploads ks (diff_list account u prev now k db)

  diff_list-carries :
      (k : ListKind) (db : Db) (v : ℕ) (j : ListKind)
      → carries (diff_list account u prev now k db).upload_lists v j ≡ carries db.upload_lists v j
  unfolding diff_list record_changes update_list_counts carries
  diff_list-carries k db v j = any-update _ _ _ db.upload_lists (λ l. refl)

  diff_lists-carries :
      (ks : List ListKind) (db : Db) (v : ℕ) (j : ListKind)
      → carries (diff_lists account u prev now ks db).upload_lists v j ≡ carries db.upload_lists v j
  unfolding diff_lists
  diff_lists-carries [] db v j = refl
  diff_lists-carries (k ∷ ks) db v j =
      diff_lists-carries ks (diff_list account u prev now k db) v j ∙ diff_list-carries k db v j

  recompute-members :
      (db : Db)
      → (recompute_lists_between account u prev now db).snapshot_members ≡ db.snapshot_members
  unfolding recompute_lists_between classify_departures classify_renames
  recompute-members db = diff_lists-members (shared_kinds db.upload_lists u prev) db

  recompute-carries :
      (db : Db) (v : ℕ) (j : ListKind)
      → carries (recompute_lists_between account u prev now db).upload_lists v j
        ≡ carries db.upload_lists v j
  unfolding recompute_lists_between classify_departures classify_renames
  recompute-carries db v j = diff_lists-carries (shared_kinds db.upload_lists u prev) db v j

  pub recompute-uploads :
      (db : Db) → (recompute_lists_between account u prev now db).uploads ≡ db.uploads
  unfolding recompute_lists_between classify_departures classify_renames
  recompute-uploads db = diff_lists-uploads (shared_kinds db.upload_lists u prev) db

module _ (account now : ℕ) where
  pub round-members :
      (i : ℕ) (prev : Option ℕ) (u : ℕ) (db : Db)
      → (round account now i prev u db).snapshot_members ≡ db.snapshot_members
  unfolding round sync_follower_columns refresh_list_counts set_number
  round-members i none u db = refl
  round-members i (some p) u db = recompute-members account u p now _

  pub round-carries :
      (i : ℕ) (prev : Option ℕ) (u : ℕ) (db : Db) (v : ℕ) (j : ListKind)
      → carries (round account now i prev u db).upload_lists v j ≡ carries db.upload_lists v j
  unfolding round sync_follower_columns refresh_list_counts set_number
  round-carries i none u db v j = unfold carries in any-update _ _ _ db.upload_lists (λ l. refl)
  round-carries i (some p) u db v j =
      recompute-carries account u p now _ v j
      ∙ (unfold carries in any-update _ _ _ db.upload_lists (λ l. refl))

  pub rounds-members :
      (i : ℕ) (prev : Option ℕ) (us : List ℕ) (db : Db)
      → (rounds account now i prev us db).snapshot_members ≡ db.snapshot_members
  unfolding rounds
  rounds-members i prev [] db = refl
  rounds-members i prev (u ∷ us) db =
      rounds-members (i + 1) (some u) us (round account now i prev u db) ∙ round-members i prev u db

  pub rounds-carries :
      (i : ℕ) (prev : Option ℕ) (us : List ℕ) (db : Db) (v : ℕ) (j : ListKind)
      → carries (rounds account now i prev us db).upload_lists v j ≡ carries db.upload_lists v j
  unfolding rounds
  rounds-carries i prev [] db v j = refl
  rounds-carries i prev (u ∷ us) db v j =
      rounds-carries (i + 1) (some u) us (round account now i prev u db) v j
      ∙ round-carries i prev u db v j
