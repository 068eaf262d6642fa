-- ===== src/Chart/Trend/Line.antt =====
-- The path that is drawn for a list.
use insta_follower_tracker.Prelude.{
  ℕ, ◌≡◌, refl, sym, ap, ◌∙◌, Bool, true, false, not, ◌&&◌, List, [], ◌∷◌, ◌++◌, append_assoc,
  append-nil, Option, none, some, arith, if◌then◌else◌,
}
use insta_follower_tracker.Prelude.Text.{Text, text_eq}
use insta_follower_tracker.Strings.{trim_suffix_text}
use insta_follower_tracker.Strings.Plain.{trim_suffix_text-append}
use insta_follower_tracker.Chart.Trend.{
  has_suffix, break_mark, starts, extend_path, path_from, series_path,
}

-- A move to the first point of each run of executions that carry the list, and a line to the others.
unfoldable pub commands : Bool → List (Option Text) → Text
commands first [] = []
commands first (none ∷ vs) = commands true vs
commands first (some at ∷ vs) =
    let rest = commands false vs in (if first then 77 else 76) ∷ (at ++ 32 ∷ rest)

-- No two neighbours lack the list.
unfoldable pub gaps_apart : Bool → List (Option Text) → Bool
gaps_apart missing [] = true
gaps_apart missing (none ∷ vs) = let rest = gaps_apart true vs in not missing && rest
gaps_apart missing (some at ∷ vs) = gaps_apart false vs

differs : (q : Text) → text_eq (q ++ 32 ∷ []) break_mark ≡ false
unfolding text_eq
differs [] = refl
differs (x ∷ []) = ground arith
differs (x ∷ y ∷ []) = ground arith
differs (x ∷ y ∷ z ∷ q) = ground arith

kept : (q : Text) → trim_suffix_text break_mark (q ++ 32 ∷ []) ≡ q ++ 32 ∷ []
unfolding trim_suffix_text
kept [] = refl
kept (c ∷ q) = rw (trim_suffix_text, differs (c ∷ q)) (ap (λ t. c ∷ t) (kept q))

has_suffix-space : (q : Text) → has_suffix break_mark (q ++ 32 ∷ []) ≡ false
unfolding has_suffix
has_suffix-space [] = refl
has_suffix-space (c ∷ q) = rw (has_suffix, differs (c ∷ q)) (has_suffix-space q)

has_suffix-mark : (q : Text) → has_suffix break_mark (q ++ break_mark) ≡ true
unfolding has_suffix text_eq
has_suffix-mark [] = refl
has_suffix-mark (c ∷ q) = ground (arith, has_suffix-mark q)

starts-space : (q : Text) → starts (q ++ 32 ∷ []) ≡ false
unfolding text_eq
starts-space [] = has_suffix-space []
starts-space (c ∷ q) = has_suffix-space (c ∷ q)

starts-mark : (q : Text) → starts (q ++ break_mark) ≡ true
starts-mark q = ground (arith, has_suffix-mark q)

regroup :
    (q at rest : Text) (c : ℕ) → (q ++ c ∷ (at ++ 32 ∷ [])) ++ rest ≡ q ++ c ∷ (at ++ 32 ∷ rest)
regroup q at rest c =
    append_assoc q (c ∷ (at ++ 32 ∷ [])) rest
    ∙ ap (λ t. q ++ c ∷ t) (append_assoc at (32 ∷ []) rest)

spaced : (q at : Text) (c : ℕ) → q ++ c ∷ (at ++ 32 ∷ []) ≡ (q ++ c ∷ at) ++ 32 ∷ []
spaced q at c = sym (append_assoc q (c ∷ at) (32 ∷ []))

-- A point is appended.
point :
    (q at : Text) (c : ℕ) (vs : List (Option Text))
    → path_from ((q ++ c ∷ at) ++ 32 ∷ []) vs ≡ ((q ++ c ∷ at) ++ 32 ∷ []) ++ commands false vs
    → path_from (q ++ c ∷ (at ++ 32 ∷ [])) vs ≡ q ++ c ∷ (at ++ 32 ∷ commands false vs)
point q at c vs h =
    ap (λ t. path_from t vs) (spaced q at c)
    ∙ h
    ∙ ap (λ t. t ++ commands false vs) (sym (spaced q at c))
    ∙ regroup q at (commands false vs) c

mutual
  unfolding path_from extend_path commands gaps_apart

  from_space :
      (q : Text) (vs : List (Option Text))
      → gaps_apart false vs ≡ true
      → path_from (q ++ 32 ∷ []) vs ≡ (q ++ 32 ∷ []) ++ commands false vs
  from_space q [] h = kept q ∙ sym (append-nil (q ++ 32 ∷ []))
  from_space q (none ∷ vs) h = from_mark (q ++ 32 ∷ []) vs (ground arith)
  from_space q (some at ∷ vs) h =
      rw (path_from, starts-space q)
        (point (q ++ 32 ∷ []) at 76 vs (from_space ((q ++ 32 ∷ []) ++ 76 ∷ at) vs h))

  from_mark :
      (q : Text) (vs : List (Option Text))
      → gaps_apart true vs ≡ true
      → path_from (q ++ break_mark) vs ≡ q ++ commands true vs
  from_mark q [] h = trim_suffix_text-append 32 (77 ∷ []) q ∙ sym (append-nil q)
  from_mark q (none ∷ vs) h = absurd (ground arith)
  from_mark q (some at ∷ vs) h =
      rw (path_from, starts-mark q, trim_suffix_text-append 32 (77 ∷ []) q)
        (point q at 77 vs (from_space (q ++ 77 ∷ at) vs h))

-- Where no two neighbouring executions lack the list, the path moves to the first point of each run of
-- executions that carry it and draws a line to each other point.
pub series_path-commands :
    (vs : List (Option Text)) → gaps_apart false vs ≡ true → series_path vs ≡ commands true vs
unfolding series_path path_from extend_path commands gaps_apart trim_suffix_text
series_path-commands [] h = refl
series_path-commands (none ∷ vs) h = from_mark [] vs h
series_path-commands (some at ∷ vs) h = point [] at 77 vs (from_space (77 ∷ at) vs h)
