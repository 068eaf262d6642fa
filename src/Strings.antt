-- ===== src/Strings.antt =====
-- The operations of Go's strings and path packages that the program uses, over bytes. Letters and
-- spaces outside ASCII are left as they are.
pub mod Pieces
pub mod Plain
pub mod Path
pub mod Every
use insta_follower_tracker.Prelude.{
  ℕ, zero, suc, ◌+◌, ◌-◌, Bool, true, false, length, ◌&&◌, ◌||◌, List, [], ◌∷◌, ◌++◌, map, leb,
  ◌==◌, if◌then◌else◌,
}
use insta_follower_tracker.Prelude.Table.{any}
use insta_follower_tracker.Prelude.Text.{Text, text_eq}

abbrev pub is_upper : ℕ → Bool
is_upper c = leb 65 c && leb c 90

unfoldable pub to_lower : Text → Text
to_lower = map (λ c. if is_upper c then c + 32 else c)

-- Tab, line feed, vertical tab, form feed, carriage return, space.
abbrev pub is_space : ℕ → Bool
is_space c = leb 9 c && leb c 13 || c == 32

-- strings.TrimLeft, TrimRight and Trim, with the set of bytes as a test.
unfoldable pub trim_left_of : (ℕ → Bool) → Text → Text
trim_left_of p [] = []
trim_left_of p (c ∷ s) = let rest = trim_left_of p s in if p c then rest else c ∷ s

unfoldable pub trim_right_of : (ℕ → Bool) → Text → Text
trim_right_of p [] = []
trim_right_of p (c ∷ s) = elim (trim_right_of p s) [
  | [] ↦ if p c then [] else c ∷ []
  | d ∷ t ↦ c ∷ d ∷ t
]

unfoldable pub trim_of : (ℕ → Bool) → Text → Text
unfolding trim_left_of trim_right_of
trim_of p s = trim_left_of p (trim_right_of p s)

unfoldable pub trim_space : Text → Text
unfolding trim_of
trim_space s = trim_of is_space s

unfoldable pub trim_prefix : ℕ → Text → Text
trim_prefix p [] = []
trim_prefix p (c ∷ s) = if c == p then s else c ∷ s

unfoldable pub trim_suffix : ℕ → Text → Text
trim_suffix p [] = []
trim_suffix p (c ∷ s) =
    let rest = trim_suffix p s in elim s [ [] ↦ if c == p then [] else c ∷ [] | d ∷ t ↦ c ∷ rest ]

-- strings.HasPrefix
unfoldable pub has_prefix : Text → Text → Bool
has_prefix [] s = true
has_prefix (p ∷ ps) [] = false
has_prefix (p ∷ ps) (c ∷ s) = p == c && has_prefix ps s

-- The text before the first byte that passes, as s[:strings.IndexAny(s, ...)] or all of it.
unfoldable pub cut_before : (ℕ → Bool) → Text → Text
cut_before p [] = []
cut_before p (c ∷ s) = let rest = cut_before p s in if p c then [] else c ∷ rest

unfoldable pub contains : ℕ → Text → Bool
contains c = any (λ d. d == c)

-- The text behind the last `c`, as s[strings.LastIndex(s, ...)+1:] or all of it.
unfoldable pub after_last : ℕ → Text → Text
unfolding contains
after_last c [] = []
after_last c (d ∷ s) =
    let rest = after_last c s in if contains c s then rest else (if d == c then s else d ∷ s)

-- The first piece takes one more byte.
abbrev pub extend : ℕ → List Text → List Text
extend d [] = (d ∷ []) ∷ []
extend d (p ∷ ps) = (d ∷ p) ∷ ps

-- strings.Split by one byte.
unfoldable pub split : ℕ → Text → List Text
split c [] = [] ∷ []
split c (d ∷ s) = let rest = split c s in if d == c then [] ∷ rest else extend d rest

-- The first `n` bytes.
unfoldable pub take : ℕ → Text → Text
take zero s = []
take (suc n) [] = []
take (suc n) (c ∷ s) = c ∷ take n s

-- strings.Contains
unfoldable pub has_text : Text → Text → Bool
unfolding has_prefix
has_text p [] = has_prefix p []
has_text p (c ∷ s) = has_prefix p (c ∷ s) || has_text p s

-- strings.TrimPrefix and TrimSuffix of a text.
unfoldable pub drop : Text → Text → Text
drop [] s = s
drop (p ∷ ps) [] = []
drop (p ∷ ps) (c ∷ s) = drop ps s

unfoldable pub trim_prefix_text : Text → Text → Text
unfolding has_prefix drop
trim_prefix_text p s = if has_prefix p s then drop p s else s

unfoldable pub trim_suffix_text : Text → Text → Text
unfolding text_eq
trim_suffix_text p [] = []
trim_suffix_text p (c ∷ s) =
    let rest = trim_suffix_text p s in if text_eq (c ∷ s) p then [] else c ∷ rest

-- strings.ReplaceAll of a text that is not empty; `skip` counts the bytes still to leave out.
unfoldable pub replace_from : ℕ → Text → Text → Text → Text
unfolding has_prefix
replace_from skip old new [] = []
replace_from (suc skip) old new (c ∷ s) = replace_from skip old new s
replace_from zero old new (c ∷ s) =
    let hit = replace_from (length old - 1) old new s in
    let miss = replace_from zero old new s in
    if has_prefix old (c ∷ s) then new ++ hit else c ∷ miss

unfoldable pub replace_all : Text → Text → Text → Text
unfolding replace_from
replace_all old new s = replace_from zero old new s

-- strings.Fields: the runs of bytes that are not spaces.
unfoldable pub words_from : Text → Text → List Text
words_from word [] = elim word [ [] ↦ [] | c ∷ s ↦ (c ∷ s) ∷ [] ]
words_from word (c ∷ s) =
    let next = words_from [] s in
    let more = words_from (word ++ c ∷ []) s in
    if is_space c then elim word [ [] ↦ next | d ∷ w ↦ (d ∷ w) ∷ next ] else more

unfoldable pub words : Text → List Text
unfolding words_from
words s = words_from [] s

-- strings.Join by one byte.
unfoldable pub join : ℕ → List Text → Text
join c [] = []
join c (w ∷ ws) = let rest = join c ws in elim ws [ [] ↦ w | v ∷ vs ↦ w ++ c ∷ rest ]

abbrev pub last_piece : Text → Text
last_piece [] = 47 ∷ []
last_piece (d ∷ t) = after_last 47 (d ∷ t)

-- path.Base
unfoldable pub base : Text → Text
unfolding trim_right_of after_last
base [] = 46 ∷ []
base (c ∷ s) = last_piece (trim_right_of (λ d. d == 47) (c ∷ s))
