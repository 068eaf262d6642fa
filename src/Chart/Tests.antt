-- ===== src/Chart/Tests.antt =====
-- The axes at concrete values.
use insta_follower_tracker.Prelude.{◌≡◌, ◌≤◌, ◌*◌, ◌/◌, refl, true, none, some, [], ◌∷◌, arith}
use insta_follower_tracker.Prelude.Text.{codes}
use insta_follower_tracker.Chart.Trend.{series_path}
use insta_follower_tracker.Chart.Trend.Line.{commands, gaps_apart, series_path-commands}
use insta_follower_tracker.Chart.Scale.{nice_ceiling, value_ticks, divisions_of}
use insta_follower_tracker.Chart.Scale.Bounds.{
  multiples_from, nice_ceiling-bounds, value_ticks-nice_ceiling,
}

-- Two gaps beside each other leave a move without a point in the path.
series_path_run : series_path (none ∷ none ∷ some (codes "3 3") ∷ []) ≡ codes " MM3 3 "
unfolding series_path
series_path_run = refl

series_path-commands_example :
    series_path (some (codes "1 1") ∷ none ∷ some (codes "3 3") ∷ some (codes "4 4") ∷ [])
    ≡ commands true (some (codes "1 1") ∷ none ∷ some (codes "3 3") ∷ some (codes "4 4") ∷ [])
unfolding gaps_apart
series_path-commands_example =
    series_path-commands (some (codes "1 1") ∷ none ∷ some (codes "3 3") ∷ some (codes "4 4") ∷ [])
      refl

nice_ceiling_run : nice_ceiling 187 ≡ 200
unfolding nice_ceiling
nice_ceiling_run = refl

-- An axis of one has its gradations at 0, 0, 0, 0 and 1.
value_ticks_run : value_ticks (nice_ceiling 1) ≡ 0 ∷ 0 ∷ 0 ∷ 0 ∷ 1 ∷ []
unfolding value_ticks nice_ceiling
value_ticks_run = refl

nice_ceiling-bounds_example : (187 ≤ nice_ceiling 187) × (nice_ceiling 187 ≤ 2 * 187)
nice_ceiling-bounds_example = nice_ceiling-bounds 187 (omega arith)

value_ticks-nice_ceiling_example :
    (value_ticks (nice_ceiling 187)
      ≡ multiples_from 0
          (nice_ceiling 187 / divisions_of (nice_ceiling 187))
          (divisions_of (nice_ceiling 187)))
    × (divisions_of (nice_ceiling 187) * (nice_ceiling 187 / divisions_of (nice_ceiling 187))
        ≡ nice_ceiling 187)
value_ticks-nice_ceiling_example = value_ticks-nice_ceiling 187 (omega arith)
