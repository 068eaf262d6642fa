-- ===== src/Strings/Every.antt =====
-- What holds of every byte of a text holds of every byte of a part of it.
use insta_follower_tracker.Prelude.{
  ℕ, zero, suc, ◌≡◌, refl, inl, inr, ◌⊎◌, Bool, true, false, not, List, [], ◌∷◌, arith, ◌==◌,
  if◌then◌else◌, Bool-cases,
}
use insta_follower_tracker.Prelude.Table.{any, every, every-append}
use insta_follower_tracker.Prelude.Text.{Text, text_eq, codes}
use insta_follower_tracker.Strings.{
  trim_left_of, trim_right_of, trim_of, after_last, contains, split, extend, take, join, base,
  last_piece,
}
use insta_follower_tracker.Strings.Path.{
  is_rooted, step_up, is_skipped, clean_pieces, backwards, or_dot, clean,
}

module _ (p : ℕ → Bool) where
  abbrev pub holds : Text → Bool
  holds = every p

  every-trim_left_of : (q : ℕ → Bool) (s : Text) → holds s ≡ true → holds (trim_left_of q s) ≡ true
  unfolding trim_left_of every
  every-trim_left_of q [] h = refl
  every-trim_left_of q (c ∷ s) h = ground (arith, every-trim_left_of q s)

  every-trim_right_of :
      (q : ℕ → Bool) (s : Text) → holds s ≡ true → holds (trim_right_of q s) ≡ true
  unfolding trim_right_of every
  every-trim_right_of q [] h = refl
  every-trim_right_of q (c ∷ s) h = ground (arith, every-trim_right_of q s)

  pub every-trim_of : (q : ℕ → Bool) (s : Text) → holds s ≡ true → holds (trim_of q s) ≡ true
  unfolding trim_of
  every-trim_of q s h = every-trim_left_of q (trim_right_of q s) (every-trim_right_of q s h)

  every-after_last : (c : ℕ) (s : Text) → holds s ≡ true → holds (after_last c s) ≡ true
  unfolding after_last every
  every-after_last c [] h = refl
  every-after_last c (d ∷ s) h = ground (arith, every-after_last c s)

  pub every-take : (n : ℕ) (s : Text) → holds s ≡ true → holds (take n s) ≡ true
  unfolding take every
  every-take zero s h = refl
  every-take (suc n) [] h = refl
  every-take (suc n) (c ∷ s) h = ground (arith, every-take n s)

  every-extend :
      (d : ℕ) (ps : List Text)
      → p d ≡ true
      → every holds ps ≡ true
      → every holds (extend d ps) ≡ true
  unfolding every
  every-extend d [] h k = ground arith
  every-extend d (q ∷ ps) h k = ground arith

  every-split : (c : ℕ) (s : Text) → holds s ≡ true → every holds (split c s) ≡ true
  unfolding split every
  every-split c [] h = refl
  every-split c (d ∷ s) h = ground (arith, every-split c s, every-extend d (split c s))

  every-join :
      (c : ℕ) (ps : List Text) → p c ≡ true → every holds ps ≡ true → holds (join c ps) ≡ true
  unfolding join every
  every-join c [] h k = refl
  every-join c (q ∷ []) h k = ground arith
  every-join c (q ∷ r ∷ ps) h k =
      ground (arith, every-append p q (c ∷ join c (r ∷ ps)), every-join c (r ∷ ps) h)

  every-backwards :
      (out ps : List Text)
      → every holds out ≡ true
      → every holds ps ≡ true
      → every holds (backwards out ps) ≡ true
  unfolding backwards every
  every-backwards out [] h k = h
  every-backwards out (q ∷ ps) h k = every-backwards (q ∷ out) ps (ground arith) (ground arith)

  every-step_up :
      (rooted : Bool) (ps : List Text)
      → p 46 ≡ true
      → every holds ps ≡ true
      → every holds (step_up rooted ps) ≡ true
  unfolding step_up every
  every-step_up rooted [] h k = ground arith
  every-step_up rooted (q ∷ ps) h k = elim (Bool-cases (text_eq q (codes ".."))) [
    | inl up ↦ rw (step_up, up) (ground arith)
    | inr other ↦ rw (step_up, other) (ground arith)
  ]

  every-clean_pieces :
      (rooted : Bool) (back ps : List Text)
      → p 46 ≡ true
      → every holds back ≡ true
      → every holds ps ≡ true
      → every holds (clean_pieces rooted back ps) ≡ true
  unfolding clean_pieces every
  every-clean_pieces rooted back [] h k l = k
  every-clean_pieces rooted back (q ∷ ps) h k l =
      let rest = λ (b : List Text) (m : every holds b ≡ true).
        every-clean_pieces rooted b ps h m (ground arith) in
      elim (Bool-cases (is_skipped q)) [
        | inl skip ↦ rw (clean_pieces, skip) (rest back k)
        | inr keep ↦ elim (Bool-cases (text_eq q (codes ".."))) [
          | inl up ↦
              rw (clean_pieces, keep, up)
                (rest (step_up rooted back) (every-step_up rooted back h k))
          | inr down ↦ rw (clean_pieces, keep, down) (rest (q ∷ back) (ground arith))
        ]
      ]

  or_dot_lem : (s : Text) → p 46 ≡ true → holds s ≡ true → holds (or_dot s) ≡ true
  unfolding every
  or_dot_lem [] h k = ground arith
  or_dot_lem (c ∷ s) h k = k

  every-cleaned :
      (rooted : Bool) (ps : List Text)
      → p 46 ≡ true
      → p 47 ≡ true
      → every holds ps ≡ true
      → holds (if rooted then 47 ∷ join 47 ps else or_dot (join 47 ps)) ≡ true
  unfolding every
  every-cleaned true ps h k l = ground (arith, every-join 47 ps k l)
  every-cleaned false ps h k l = or_dot_lem (join 47 ps) h (every-join 47 ps k l)

  pub every-clean : (s : Text) → p 46 ≡ true → p 47 ≡ true → holds s ≡ true → holds (clean s) ≡ true
  unfolding clean every
  every-clean s h k l =
      let ps = clean_pieces (is_rooted s) [] (split 47 s) in
      every-cleaned (is_rooted s) (backwards [] ps) h k (
        every-backwards [] ps refl
          (every-clean_pieces (is_rooted s) [] (split 47 s) h refl (every-split 47 s l)))

  every-last_piece : (s : Text) → p 47 ≡ true → holds s ≡ true → holds (last_piece s) ≡ true
  unfolding every
  every-last_piece [] h k = ground arith
  every-last_piece (d ∷ t) h k = every-after_last 47 (d ∷ t) k

  pub every-base : (s : Text) → p 46 ≡ true → p 47 ≡ true → holds s ≡ true → holds (base s) ≡ true
  unfolding base every
  every-base [] h k l = ground arith
  every-base (c ∷ s) h k l =
      every-last_piece (trim_right_of (λ d. d == 47) (c ∷ s)) k
        (every-trim_right_of (λ d. d == 47) (c ∷ s) l)

every-contains : (c : ℕ) (s : Text) → contains c s ≡ false → every (λ d. not (d == c)) s ≡ true
unfolding contains any every
every-contains c [] h = refl
every-contains c (d ∷ s) h = ground (arith, every-contains c s)

after_last-every : (c : ℕ) (s : Text) → every (λ d. not (d == c)) (after_last c s) ≡ true
unfolding after_last contains any every
after_last-every c [] = refl
after_last-every c (d ∷ s) = elim (Bool-cases (contains c s)) [
  | inl more ↦ ground (arith, after_last-every c s)
  | inr last ↦ ground (arith, every-contains c s last)
]

last_piece-cases :
    (s : Text) → (last_piece s ≡ 47 ∷ []) ⊎ (every (λ d. not (d == 47)) (last_piece s) ≡ true)
last_piece-cases [] = inl refl
last_piece-cases (d ∷ t) = inr (after_last-every 47 (d ∷ t))

-- The last piece of a path is the slash or has none.
pub base-cases : (s : Text) → (base s ≡ 47 ∷ []) ⊎ (every (λ d. not (d == 47)) (base s) ≡ true)
unfolding base every
base-cases [] = inr refl
base-cases (c ∷ s) = last_piece-cases (trim_right_of (λ d. d == 47) (c ∷ s))
