-- ===== src/Tracker/Service/Intake/Files.antt =====
-- The files after one is removed, renamed or written.
use insta_follower_tracker.Prelude.{
  ◌≡◌, refl, sym, ap, ◌∙◌, inl, inr, true, false, not, ◌&&◌, ◌||◌, List, [], ◌∷◌, ◌++◌, some, arith,
  Bool-cases,
}
use insta_follower_tracker.Prelude.Table.{any, find, select, update_where, any-append}
use insta_follower_tracker.Prelude.Text.{Text, text_eq, text_eq_refl, text_eq→eq, text_eq_sym}
use insta_follower_tracker.Tracker.Service.Intake.{
  File, at, has_file, remove_file, rename_file, read_file, content_of,
}

text_eq_left : (a b c : Text) → text_eq a b ≡ true → text_eq a c ≡ text_eq b c
text_eq_left a b c h = ap (λ x. text_eq x c) (text_eq→eq a b h)

pub has_file-remove_file :
    (q p : Text) (files : List File)
    → has_file q (remove_file p files) ≡ (not (text_eq p q) && has_file q files)
unfolding remove_file any select
has_file-remove_file q p [] = ground arith
has_file-remove_file q p (f ∷ fs) = elim (Bool-cases (text_eq f.path p)) [
  | inl hit ↦ ground (arith, has_file-remove_file q p fs, text_eq_left f.path p q hit)
  | inr miss ↦ elim (Bool-cases (text_eq f.path q)) [
    | inl same ↦
        ground (arith, has_file-remove_file q p fs, text_eq_left f.path q p same, text_eq_sym p q)
    | inr other ↦ ground (arith, has_file-remove_file q p fs)
  ]
]

abbrev pub moved : Text → Text → List File → List File
moved from to = update_where (at from) (λ f. record f { path = to })

has_file-moved :
    (q a b : Text) (files : List File)
    → has_file q (moved a b files)
      ≡ ((text_eq b q && has_file a files) || (not (text_eq a q) && has_file q files))
unfolding any
has_file-moved q a b [] = ground arith
has_file-moved q a b (f ∷ fs) = elim (Bool-cases (text_eq f.path a)) [
  | inl hit ↦ ground (arith, has_file-moved q a b fs, text_eq_left f.path a q hit)
  | inr miss ↦ elim (Bool-cases (text_eq f.path q)) [
    | inl same ↦
        ground (arith, has_file-moved q a b fs, text_eq_left f.path q a same, text_eq_sym a q)
    | inr other ↦ ground (arith, has_file-moved q a b fs)
  ]
]

-- A file that is written and then removed again leaves no path behind.
pub undone :
    (q a : Text) (f : File) (files : List File)
    → f.path ≡ a
    → (has_file q (remove_file a (files ++ f ∷ [])) && not (has_file q files)) ≡ false
unfolding any
undone q a f files e = ground (
  arith,
  has_file-remove_file q a (files ++ f ∷ []),
  any-append (at q) files (f ∷ []),
  ap (λ x. text_eq x q) e,
)

-- So does one that was moved in between.
pub undone_moved :
    (q a b : Text) (f : File) (files : List File)
    → f.path ≡ a
    → (has_file q (remove_file b (rename_file a b (files ++ f ∷ []))) && not (has_file q files))
      ≡ false
unfolding rename_file any
undone_moved q a b f files e = elim (Bool-cases (text_eq a b)) [
  | inl same ↦ rw (rename_file, same) (undone q b f files (e ∙ text_eq→eq a b same))
  | inr other ↦
      rw (rename_file, other)
        (ground (
          arith,
          has_file-remove_file q b (moved a b (remove_file b (files ++ f ∷ []))),
          has_file-moved q a b (remove_file b (files ++ f ∷ [])),
          has_file-remove_file q b (files ++ f ∷ []),
          any-append (at q) files (f ∷ []),
          ap (λ x. text_eq x q) e,
        ))
]

find-remove_file :
    (a p : Text) (files : List File)
    → text_eq p a ≡ false
    → find (at a) (remove_file p files) ≡ find (at a) files
unfolding remove_file find select
find-remove_file a p [] h = refl
find-remove_file a p (f ∷ fs) h = elim (Bool-cases (text_eq f.path p)) [
  | inl hit ↦ ground (arith, find-remove_file a p fs, text_eq_left f.path p a hit)
  | inr miss ↦ ground (arith, find-remove_file a p fs)
]

find-moved :
    (a b : Text) (f : File) (files : List File)
    → has_file b files ≡ false
    → find (at a) files ≡ some f
    → find (at b) (moved a b files) ≡ some (record f { path = b })
unfolding find any
find-moved a b f [] h e = cc e
find-moved a b f (g ∷ gs) h e = elim (Bool-cases (text_eq g.path a)) [
  | inl hit ↦ ground (arith, text_eq_refl b)
  | inr miss ↦ ground (arith, find-moved a b f gs)
]

find-written :
    (a : Text) (f : File) (files : List File)
    → f.path ≡ a
    → has_file a files ≡ false
    → find (at a) (files ++ f ∷ []) ≡ some f
unfolding find any
find-written a f [] e h = ground (arith, ap (λ x. text_eq x a) e, text_eq_refl a)
find-written a f (g ∷ gs) e h = ground (arith, find-written a f gs e)

-- A file that is written where there was none keeps its content under its new path.
pub read_file-rename_file :
    (a b content : Text) (files : List File)
    → has_file a files ≡ false
    → read_file b (rename_file a b (files ++ record { path = a; content = content } ∷ []))
      ≡ some content
unfolding read_file rename_file
read_file-rename_file a b content files h =
    let f : File = record { path = a; content = content } in
    elim (Bool-cases (text_eq a b)) [
      | inl same ↦
          rw (rename_file, same)
            (ap content_of (
              ap (λ x. find (at x) (files ++ f ∷ [])) (sym (text_eq→eq a b same))
              ∙ find-written a f files refl h))
      | inr other ↦
          rw (rename_file, other)
            (ap content_of (
              find-moved a b f (remove_file b (files ++ f ∷ []))
                (has_file-remove_file b b (files ++ f ∷ []) ∙ rw (text_eq_refl b) refl)
                (find-remove_file a b (files ++ f ∷ []) (text_eq_sym b a ∙ other)
                  ∙ find-written a f files refl h)))
    ]
