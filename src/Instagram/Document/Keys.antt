-- ===== src/Instagram/Document/Keys.antt =====
-- Which key of a JSON object gives the list.
use insta_follower_tracker.Prelude.{
  ◌≡◌, ◌≢◌, refl, sym, ap, subst, inl, inr, ◌↔◌, ◌⊎◌, true, false, List, [], ◌∷◌, none, some, arith,
  Bool-cases, Option-cases,
}
use insta_follower_tracker.Prelude.In.{In, every_at}
use insta_follower_tracker.Prelude.Sort.{sort, is_sorted, sort-is_sorted, In-sort, In-sort_of}
use insta_follower_tracker.Prelude.Text.{Text}
use insta_follower_tracker.Instagram.Export.{Follower}
use insta_follower_tracker.Instagram.Followers.{Entry, flatten}
use insta_follower_tracker.Instagram.Readers.{Readers}
use insta_follower_tracker.Instagram.Document.Order.{
  key_le_total, key_le_trans, IsRelationship, IsBefore, is_relationships-split, IsRelationship-test,
  key_le-IsBefore,
}
use insta_follower_tracker.Instagram.Document.{
  listed, unrecognised, is_relationships, some_follower, key_le, list_of_key, first_list,
}

nobody : (fs : List Follower) → some_follower fs ≡ false → fs ≡ []
nobody [] h = refl
nobody (f ∷ fs) h = cc h

module _ (readers : Readers) where
  -- The value decodes, and holds somebody or stands under a key of relationships.
  abbrev pub Counts : Text × Text → List Entry → Type 0
  Counts row entries =
      (readers.decode_entries row.1 ≡ some entries)
      × ((flatten entries ≢ []) ⊎ IsRelationship row.0)

  abbrev pub IsFirst : List (Text × Text) → List Follower → Type 0
  IsFirst rows fs =
      (row : Text × Text) × (entries : List Entry) × In row rows
      × Counts row entries
      × (fs ≡ flatten entries)
      × ((other : Text × Text)
          → (others : List Entry) → In other rows
          → Counts other others
          → IsBefore row.0 other.0)

  abbrev pub NoneCounts : List (Text × Text) → Type 0
  NoneCounts rows =
      (row : Text × Text) → (entries : List Entry) → In row rows → ¬ (Counts row entries)

  list_of_key-Counts :
      (row : Text × Text) (fs : List Follower)
      → list_of_key readers row ≡ some fs
      → (entries : List Entry) × Counts row entries × (fs ≡ flatten entries)
  unfolding list_of_key
  list_of_key-Counts (k, raw) fs h = elim (Option-cases (readers.decode_entries raw)) [
    | inl e ↦ absurd (ground arith)
    | inr (entries, e) ↦ elim (Bool-cases (some_follower (flatten entries))) [
      | inl full ↦ (entries, (e, inl (λ z. cc (ap some_follower z, full))), ground arith)
      | inr empty ↦ elim (Bool-cases (is_relationships k)) [
        | inl r ↦ (entries, (e, inr (is_relationships-split k r)), ground arith)
        | inr r ↦ absurd (ground arith)
      ]
    ]
  ]

  Counts-list_of_key :
      (row : Text × Text) (entries : List Entry)
      → Counts row entries
      → list_of_key readers row ≡ some (flatten entries)
  unfolding list_of_key
  Counts-list_of_key (k, raw) entries (e, inr r) = let t = IsRelationship-test k r in ground arith
  Counts-list_of_key (k, raw) entries (e, inl full) =
      elim (Bool-cases (some_follower (flatten entries))) [
        | inl t ↦ ground arith
        | inr t ↦ absurd (full (nobody (flatten entries) t))
      ]

  key_le_refl : (a : Text × Text) → key_le a a ≡ true
  key_le_refl a = elim (Bool-cases (key_le a a)) [ inl e ↦ e | inr e ↦ key_le_total a a e ]

  abbrev IsLeast : List (Text × Text) → List Follower → Type 0
  IsLeast rows fs =
      (row : Text × Text) × In row rows
      × (list_of_key readers row ≡ some fs)
      × ((other : Text × Text)
          → (gs : List Follower) → In other rows
          → list_of_key readers other ≡ some gs
          → key_le row other ≡ true)

  first_list-IsLeast :
      (rows : List (Text × Text)) (fs : List Follower)
      → is_sorted key_le rows ≡ true
      → first_list readers rows ≡ listed fs
      → IsLeast rows fs
  unfolding first_list is_sorted
  first_list-IsLeast [] fs s e = cc e
  first_list-IsLeast (row ∷ rest) fs s e = elim (Option-cases (list_of_key readers row)) [
    | inl skip ↦
        let (found, m, k, least) = first_list-IsLeast rest fs (ground arith) (ground arith) in
        (
          found,
          inr m,
          k,
          λ other gs n c. elim n [
            | inl same ↦ absurd (cc (same, c, skip))
            | inr later ↦ least other gs later c
          ],
        )
    | inr (gs, hit) ↦ (
      row,
      inl refl,
      ground arith,
      λ other _ n c. elim n [
        | inl same ↦ subst (λ x. key_le row x ≡ true) (sym same) (key_le_refl row)
        | inr later ↦ every_at (key_le row) other rest (ground arith) later
      ],
    )
  ]

  first_list-none :
      (rows : List (Text × Text)) (row : Text × Text)
      → first_list readers rows ≡ unrecognised
      → In row rows
      → list_of_key readers row ≡ none
  unfolding first_list
  first_list-none [] row e m = elim m [ ]
  first_list-none (a ∷ rest) row e m = elim (Option-cases (list_of_key readers a)) [
    | inl skip ↦ elim m [
      | inl same ↦ cc (same, skip)
      | inr later ↦ first_list-none rest row (ground arith) later
    ]
    | inr (fs, hit) ↦ absurd (ground arith)
  ]

  none-first_list :
      (rows : List (Text × Text))
      → ((row : Text × Text) → In row rows → list_of_key readers row ≡ none)
      → first_list readers rows ≡ unrecognised
  unfolding first_list
  none-first_list [] h = refl
  none-first_list (a ∷ rest) h =
      rw (first_list, h a (inl refl)) (none-first_list rest (λ row m. h row (inr m)))

  -- The list that a JSON object gives stands under the first key that counts: a key that begins with
  -- the word of relationships before any other, and in byte order. A key counts if its value decodes,
  -- and holds somebody or the key begins so. The order in which the keys are handed over plays no part.
  pub first_list-key :
      (rows : List (Text × Text)) (fs : List Follower)
      → first_list readers (sort key_le rows) ≡ listed fs
      → IsFirst rows fs
  first_list-key rows fs e =
      let (row, m, k, least) =
        first_list-IsLeast (sort key_le rows) fs
          (sort-is_sorted key_le key_le_total key_le_trans rows) e in
      let (entries, c, f) = list_of_key-Counts row fs k in
      (
        row,
        entries,
        In-sort key_le row rows m,
        c,
        f,
        λ other others n d. key_le-IsBefore row other (
            least other (flatten others) (In-sort_of key_le other rows n)
              (Counts-list_of_key other others d)),
      )

  -- A JSON object is no list exactly if none of its keys counts: wherever the value of a key decodes it
  -- holds nobody, and the key does not begin with the word of relationships.
  pub first_list-unrecognised :
      (rows : List (Text × Text))
      → (first_list readers (sort key_le rows) ≡ unrecognised) ↔ NoneCounts rows
  first_list-unrecognised rows = (
    λ e row entries m c. cc (
      first_list-none (sort key_le rows) row e (In-sort_of key_le row rows m),
      Counts-list_of_key row entries c,
    ),
    λ h. none-first_list (sort key_le rows) (λ row m.
        elim (Option-cases (list_of_key readers row)) [
          | inl e ↦ e
          | inr (fs, e) ↦
              let (entries, c, f) = list_of_key-Counts row fs e in
              absurd (h row entries (In-sort key_le row rows m) c)
        ]),
  )
