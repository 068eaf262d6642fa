-- ===== src/Strings/Path.antt =====
-- The operations of Go's path/filepath that the program uses, with the slash as separator.
use insta_follower_tracker.Prelude.{Bool, false, ◌||◌, List, [], ◌∷◌, ◌++◌, ◌==◌, if◌then◌else◌}
use insta_follower_tracker.Prelude.Text.{Text, text_eq, codes}
use insta_follower_tracker.Strings.{contains, after_last, split, join}

abbrev pub is_rooted : Text → Bool
is_rooted [] = false
is_rooted (c ∷ s) = c == 47

-- A step up from the pieces so far, the last piece first.
unfoldable pub step_up : Bool → List Text → List Text
unfolding text_eq
step_up rooted [] = if rooted then [] else codes ".." ∷ []
step_up rooted (p ∷ ps) = if text_eq p (codes "..") then codes ".." ∷ p ∷ ps else ps

abbrev pub is_skipped : Text → Bool
is_skipped p = text_eq p [] || text_eq p (codes ".")

unfoldable pub clean_pieces : Bool → List Text → List Text → List Text
unfolding step_up text_eq
clean_pieces rooted back [] = back
clean_pieces rooted back (p ∷ ps) =
    clean_pieces rooted
      (if is_skipped p
        then back
        else (if text_eq p (codes "..") then step_up rooted back else p ∷ back))
      ps

unfoldable pub backwards : List Text → List Text → List Text
backwards out [] = out
backwards out (p ∷ ps) = backwards (p ∷ out) ps

abbrev pub or_dot : Text → Text
or_dot [] = codes "."
or_dot (c ∷ s) = c ∷ s

-- filepath.Clean
unfoldable pub clean : Text → Text
unfolding clean_pieces backwards split join
clean s =
    let body = join 47 (backwards [] (clean_pieces (is_rooted s) [] (split 47 s))) in
    if is_rooted s then 47 ∷ body else or_dot body

-- filepath.Join of two elements; leading empty ones are left out.
unfoldable pub join_path : Text → Text → Text
unfolding clean
join_path [] [] = []
join_path [] (c ∷ s) = clean (c ∷ s)
join_path (d ∷ t) s = clean ((d ∷ t) ++ 47 ∷ s)

-- filepath.Ext
unfoldable pub ext : Text → Text
unfolding after_last contains
ext s = let name = after_last 47 s in if contains 46 name then 46 ∷ after_last 46 name else []
