-- ===== src/Schedule.antt =====
-- modules/matchups/schedule-generator.service.ts: the round-robin schedule of a regular season.
pub mod Rotation
pub mod Weeks
pub mod Examples
use ht_mvp_backend.Prelude.{
  ℕ, zero, suc, ◌+◌, ◌-◌, ◌%◌, ◌/◌, Bool, true, false, not, Option, none, some, List, [], ◌∷◌, ◌++◌,
  map, length, get_elem?, ℤ, pos, negsuc, ltb_ℤ, eqb_ℤ, ◌==◌, if◌then◌else◌,
}

pub record GeneratedMatchup : Type 0 where
  pub week : ℕ
  pub roster1_id : ℤ
  pub roster2_id : ℤ

-- the placeholder of a bye week
abbrev pub bye : ℤ
bye = negsuc 0

-- Array.prototype.pop of a list with a first element: the last one, and the others
abbrev pub last_of : ℤ → List ℤ → ℤ
last_of x [] = x
last_of x (y ∷ ys) = last_of y ys

abbrev pub init_of : ℤ → List ℤ → List ℤ
init_of x [] = []
init_of x (y ∷ ys) = x ∷ init_of y ys

-- pop, then splice at 1, of the teams after the first
abbrev pub rotate_rest : List ℤ → List ℤ
rotate_rest [] = []
rotate_rest (x ∷ xs) = last_of x xs ∷ init_of x xs

abbrev pub rotate_times : ℕ → List ℤ → List ℤ
rotate_times zero rest = rest
rotate_times (suc round) rest = rotate_times round (rotate_rest rest)

unfoldable pub rotate_teams : List ℤ → ℕ → List ℤ
rotate_teams [] round = []
rotate_teams (team ∷ []) round = team ∷ []
rotate_teams (team ∷ other ∷ teams) round = team ∷ rotate_times round (other ∷ teams)

abbrev pub is_bye : ℤ → ℤ → Bool
is_bye team1 team2 = if eqb_ℤ team1 bye then true else eqb_ℤ team2 bye

-- the smaller id is at home in even rounds
abbrev pub home_and_away : ℕ → ℕ → ℤ → ℤ → GeneratedMatchup
home_and_away week round team1 team2 =
    if ltb_ℤ team1 team2
    then (if round % 2 == 0
        then record { week = week; roster1_id = team1; roster2_id = team2 }
        else record { week = week; roster1_id = team2; roster2_id = team1 })
    else (if round % 2 == 0
        then record { week = week; roster1_id = team2; roster2_id = team1 }
        else record { week = week; roster1_id = team1; roster2_id = team2 })

abbrev pub push_pair : ℕ → ℕ → Option ℤ → Option ℤ → List GeneratedMatchup → List GeneratedMatchup
push_pair week round (some team1) (some team2) matchups =
    if is_bye team1 team2 then matchups else home_and_away week round team1 team2 ∷ matchups
push_pair week round _ _ matchups = matchups

-- the pairs i and n - 1 - i, for `count` values of i from `i` on
abbrev pub pairs_from : ℕ → ℕ → List ℤ → ℕ → ℕ → ℕ → List GeneratedMatchup
pairs_from week round rotated n i zero = []
pairs_from week round rotated n i (suc count) =
    push_pair week round (get_elem? rotated i) (get_elem? rotated (n - 1 - i))
      (pairs_from week round rotated n (suc i) count)

-- the teams, with a bye when their number is odd
unfoldable pub with_bye : List ℤ → List ℤ
with_bye roster_ids = if length roster_ids % 2 == 0 then roster_ids else roster_ids ++ bye ∷ []

unfoldable pub week_matchups : List ℤ → ℕ → List GeneratedMatchup
week_matchups teams week =
    let n = length teams in
    let round = (week - 1) % (n - 1) in pairs_from week round (rotate_teams teams round) n 0 (n / 2)

-- the weeks from `week` on, `weeks` of them
abbrev pub weeks_from : List ℤ → ℕ → ℕ → List GeneratedMatchup
weeks_from teams week zero = []
weeks_from teams week (suc weeks) = week_matchups teams week ++ weeks_from teams (suc week) weeks

unfoldable pub generate_round_robin_matchups : List ℤ → ℕ → List GeneratedMatchup
generate_round_robin_matchups roster_ids weeks = weeks_from (with_bye roster_ids) 1 weeks
