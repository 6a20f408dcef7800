-- ===== src/Playoff/Weeks.antt =====
-- modules/playoffs/playoff.model.ts: rounds, first-round pairings and weeks. Rounds count from 1.
pub mod Tiling
use ht_mvp_backend.Prelude.{
  ℕ, zero, suc, ◌+◌, ◌-◌, Bool, true, false, ◌&&◌, Option, none, some, List, [], ◌∷◌, ◌==◌,
  get_elem?, if◌then◌else◌,
}

pub data RoundName : Type 0 where
  championship : RoundName
  semifinals : RoundName
  quarterfinals : RoundName
  wild_card : RoundName
  round_number : ℕ → RoundName

-- `round === totalRounds - 1`, on integers: never true of a round from 1 where totalRounds is 0 or 1.
unfoldable pub get_round_name : ℕ → ℕ → ℕ → RoundName
get_round_name playoff_teams round total_rounds =
    if round == total_rounds
    then championship
    else (if suc round == total_rounds
        then semifinals
        else (if (playoff_teams == 8) && (round == 1)
            then quarterfinals
            else (if (playoff_teams == 6) && (round == 1) then wild_card else round_number round)))

unfoldable pub calculate_total_rounds : ℕ → ℕ
calculate_total_rounds playoff_teams = if playoff_teams == 4 then 2 else 3

pub record BracketMatchupConfig : Type 0 where
  pub week : ℕ
  pub round : ℕ
  pub seed1 : ℕ
  -- null for a bye
  pub seed2 : Option ℕ
  pub bracket_position : ℕ

abbrev pub first_round : ℕ → ℕ → ℕ → ℕ → BracketMatchupConfig
first_round w s t p = record {
  week = w;
  round = 1;
  seed1 = s;
  seed2 = some t;
  bracket_position = p;
}

unfoldable pub generate_bracket_config : ℕ → ℕ → List BracketMatchupConfig
generate_bracket_config playoff_teams start_week =
    if playoff_teams == 4
    then first_round start_week 1 4 1 ∷ first_round start_week 2 3 2 ∷ []
    else (if playoff_teams == 6
        then first_round start_week 3 6 1 ∷ first_round start_week 4 5 2 ∷ []
        else (if playoff_teams == 8
            then first_round start_week 1 8 1
              ∷ first_round start_week 4 5 2
              ∷ first_round start_week 3 6 3
              ∷ first_round start_week 2 7 4
              ∷ []
            else []))

unfoldable pub generate_consolation_bracket_config : ℕ → ℕ → List BracketMatchupConfig
generate_consolation_bracket_config consolation_teams start_week =
    if consolation_teams == 4
    then first_round start_week 1 4 1 ∷ first_round start_week 2 3 2 ∷ []
    else (if consolation_teams == 6
        then first_round start_week 3 6 1 ∷ first_round start_week 4 5 2 ∷ []
        else (if consolation_teams == 8
            then first_round start_week 1 8 1
              ∷ first_round start_week 4 5 2
              ∷ first_round start_week 3 6 3
              ∷ first_round start_week 2 7 4
              ∷ []
            else []))

-- `xs[i] ?? 1`
unfoldable pub week_at : List ℕ → ℕ → ℕ
week_at [] i = 1
week_at (w ∷ ws) zero = w
week_at (w ∷ ws) (suc i) = week_at ws i

unfoldable pub weeks_array : Option (List ℕ) → List ℕ
weeks_array none = []
weeks_array (some ws) = ws

-- the loop of getWeekRangeForRound, after its first `rounds` passes
unfoldable pub weeks_before : List ℕ → ℕ → ℕ → ℕ
unfolding week_at
weeks_before ws start_week zero = start_week
weeks_before ws start_week (suc r) = weeks_before ws start_week r + week_at ws r

unfoldable pub get_week_range_for_round : ℕ → Option (List ℕ) → ℕ → ℕ × ℕ
unfolding weeks_before weeks_array
get_week_range_for_round start_week weeks_by_round round =
    let ws = weeks_array weeks_by_round in
    let week_start = weeks_before ws start_week (round - 1) in
    (week_start, week_start + week_at ws (round - 1) - 1)

unfoldable pub get_week_for_round_game : ℕ → Option (List ℕ) → ℕ → ℕ → ℕ
unfolding get_week_range_for_round
get_week_for_round_game start_week weeks_by_round round game =
    (get_week_range_for_round start_week weeks_by_round round).0 + game - 1

abbrev pub sum_weeks : List ℕ → ℕ
sum_weeks [] = 0
sum_weeks (w ∷ ws) = w + sum_weeks ws

unfoldable pub calculate_total_playoff_weeks : Option (List ℕ) → ℕ → ℕ
calculate_total_playoff_weeks none total_rounds = total_rounds
calculate_total_playoff_weeks (some ws) total_rounds = sum_weeks ws

unfoldable pub get_default_weeks_by_round : ℕ → List ℕ
get_default_weeks_by_round zero = []
get_default_weeks_by_round (suc n) = 1 ∷ get_default_weeks_by_round n

pub data ConsolationRoundName : Type 0 where
  consolation_final : ConsolationRoundName
  consolation_semifinals : ConsolationRoundName
  consolation_quarterfinals : ConsolationRoundName
  consolation_wild_card : ConsolationRoundName
  consolation_round : ℕ → ConsolationRoundName

unfoldable pub get_consolation_round_name : ℕ → ℕ → ℕ → ConsolationRoundName
get_consolation_round_name consolation_teams round total_rounds =
    if round == total_rounds
    then consolation_final
    else (if suc round == total_rounds
        then consolation_semifinals
        else (if (consolation_teams == 8) && (round == 1)
            then consolation_quarterfinals
            else (if (consolation_teams == 6) && (round == 1)
                then consolation_wild_card
                else consolation_round round)))
