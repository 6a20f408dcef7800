-- ===== src/Schedule/Examples.antt =====
-- Four teams and five, the theorems on the schedule at them.
use ht_mvp_backend.Prelude.{◌≤◌, ◌≡◌, false, List, [], ◌∷◌, map, length, arith, refl}
use ht_mvp_backend.Prelude.{ℤ, pos, eqb_ℤ, ◌%◌}
use ht_mvp_backend.Schedule.{bye, with_bye, week_matchups, rotate_teams}
use ht_mvp_backend.Schedule.Rotation.{rotate_teams_round_trip}
use ht_mvp_backend.Schedule.Weeks.{
  occurrences, appearances, pairing, each_roster_plays, weeks_repeat,
}

abbrev four : List ℤ
four = pos 11 ∷ pos 12 ∷ pos 13 ∷ pos 14 ∷ []

rotate_teams_round_trip_example : rotate_teams four 3 ≡ four
rotate_teams_round_trip_example = rotate_teams_round_trip four

each_roster_plays_example :
    (length four % 2 ≡ 0
      → appearances (pos 12) (week_matchups (with_bye four) 2) ≡ occurrences (pos 12) four)
    × (eqb_ℤ bye (pos 12) ≡ false
        → appearances (pos 12) (week_matchups (with_bye four) 2) ≤ occurrences (pos 12) four)
each_roster_plays_example = each_roster_plays four 2 (pos 12) refl

weeks_repeat_example : map pairing (week_matchups four 5) ≡ map pairing (week_matchups four 2)
weeks_repeat_example = weeks_repeat four 2 (omega arith) (omega arith)
