-- ===== src/Chart/Trend.antt =====
-- internal/chart/chart.go: the line of a list in BuildTrend, and the executions that are labelled.
-- The coordinates are floating point, and stand here as the text that is printed of them.
pub mod Line
use insta_follower_tracker.Prelude.{
  Bool, ◌||◌, List, [], ◌∷◌, ◌++◌, Option, none, some, if◌then◌else◌,
}
use insta_follower_tracker.Prelude.Text.{Text, text_eq, codes}
use insta_follower_tracker.Strings.{trim_suffix_text}

-- strings.HasSuffix
unfoldable pub has_suffix : Text → Text → Bool
unfolding text_eq
has_suffix p [] = text_eq [] p
has_suffix p (c ∷ s) = let rest = has_suffix p s in text_eq (c ∷ s) p || rest

abbrev pub break_mark : Text
break_mark = codes " M"

abbrev pub starts : Text → Bool
starts path = text_eq path [] || has_suffix break_mark path

-- One step of the loop; none is an execution that does not carry the list.
unfoldable pub extend_path : Text → Option Text → Text
unfolding has_suffix trim_suffix_text
extend_path path none = path ++ break_mark
extend_path path (some at) =
    if starts path
    then trim_suffix_text break_mark path ++ 77 ∷ (at ++ 32 ∷ [])
    else path ++ 76 ∷ (at ++ 32 ∷ [])

unfoldable pub path_from : Text → List (Option Text) → Text
unfolding extend_path trim_suffix_text
path_from path [] = trim_suffix_text break_mark path
path_from path (v ∷ vs) = path_from (extend_path path v) vs

unfoldable pub series_path : List (Option Text) → Text
unfolding path_from
series_path vs = path_from [] vs
