-- ===== src/Playoff/Seeding.antt =====
-- domain/playoff/seeding.ts. Points are hundredths, as integers.
pub mod Ranking
pub mod Config
use ht_mvp_backend.Prelude.{
  ℕ, suc, zero, Bool, true, false, not, ◌&&◌, Option, none, some, List, [], ◌∷◌, ◌++◌, ltb, leb,
  ◌==◌, ℤ, pos, ◌-ℤ◌, eqb_ℤ, ltb_ℤ, leb_ℤ, length, take, any, sort, if◌then◌else◌,
}

pub record StandingForSeeding : Type 0 where
  pub roster_id : ℕ
  pub wins : ℕ
  pub losses : ℕ
  pub ties : ℕ
  pub points_for : ℤ

-- wins, losses, and the ties that are shown: the string is `wins-losses` or `wins-losses-ties`
abbrev pub Record : Type 0
Record = ℕ × ℕ × Option ℕ

pub record PlayoffSeedInput : Type 0 where
  pub roster_id : ℕ
  pub seed : ℕ
  pub regular_season_record : Record
  pub points_for : ℤ
  pub has_bye : Bool

unfoldable pub compare_standings : StandingForSeeding → StandingForSeeding → ℤ
compare_standings a b =
    if not (a.wins == b.wins)
    then pos b.wins -ℤ pos a.wins
    else (if not (eqb_ℤ a.points_for b.points_for)
        then b.points_for -ℤ a.points_for
        else pos a.roster_id -ℤ pos b.roster_id)

unfoldable pub sort_standings_for_seeding : List StandingForSeeding → List StandingForSeeding
sort_standings_for_seeding standings = sort compare_standings standings

unfoldable pub compute_bye_seeds : ℕ → List ℕ
compute_bye_seeds playoff_teams = if playoff_teams == 6 then 1 ∷ 2 ∷ [] else []

abbrev pub includes : List ℕ → ℕ → Bool
includes xs n = any (λ x. x == n) xs

unfoldable pub seed_input : List ℕ → StandingForSeeding → ℕ → PlayoffSeedInput
seed_input bye_seeds standing index = record {
  roster_id = standing.roster_id;
  seed = suc index;
  regular_season_record =
      (standing.wins, standing.losses, if ltb 0 standing.ties then some standing.ties else none);
  points_for = standing.points_for;
  has_bye = includes bye_seeds (suc index);
}

-- Array.prototype.map with an index, from a first index
unfoldable pub seed_from : List ℕ → ℕ → List StandingForSeeding → List PlayoffSeedInput
unfolding seed_input
seed_from bye_seeds index [] = []
seed_from bye_seeds index (s ∷ ss) =
    seed_input bye_seeds s index ∷ seed_from bye_seeds (suc index) ss

unfoldable pub seed_from_standings : List StandingForSeeding → ℕ → List PlayoffSeedInput
unfolding seed_from compute_bye_seeds
seed_from_standings sorted_standings playoff_teams =
    seed_from (compute_bye_seeds playoff_teams) 0 (take playoff_teams sorted_standings)

-- validatePlayoffConfig's messages
pub data ConfigError : Type 0 where
  playoff_teams_invalid : ConfigError
  weeks_length_mismatch : (expected actual : ℕ) → ConfigError
  weeks_value_invalid : (index value : ℕ) → ConfigError
  too_few_non_playoff_teams : ℤ → ConfigError
  consolation_teams_invalid : ConfigError
  consolation_teams_exceed : (teams : ℕ) → ℤ → ConfigError

pub record PlayoffConfig : Type 0 where
  pub playoff_teams : ℕ
  pub total_rounds : ℕ
  pub weeks_by_round : Option (List ℕ)
  -- consolationType === 'CONSOLATION'
  pub is_consolation : Bool
  pub consolation_teams : Option ℕ
  pub total_league_teams : Option ℕ

abbrev pub push_if : Bool → ConfigError → List ConfigError
push_if true e = e ∷ []
push_if false e = []

abbrev pub is_bracket_size : ℕ → Bool
is_bracket_size n = includes (4 ∷ 6 ∷ 8 ∷ []) n

unfoldable pub weeks_errors : ℕ → List ℕ → List ConfigError
weeks_errors i [] = []
weeks_errors i (w ∷ ws) =
    push_if (not (w == 1) && not (w == 2)) (weeks_value_invalid i w) ++ weeks_errors (suc i) ws

unfoldable pub schedule_errors : ℕ → Option (List ℕ) → List ConfigError
unfolding weeks_errors
schedule_errors total_rounds none = []
schedule_errors total_rounds (some ws) =
    push_if (not (length ws == total_rounds)) (weeks_length_mismatch total_rounds (length ws))
    ++ weeks_errors 0 ws

unfoldable pub size_errors : Option ℕ → ℤ → List ConfigError
size_errors none non_playoff = []
size_errors (some teams) non_playoff =
    push_if (not (is_bracket_size teams)) consolation_teams_invalid
    ++ push_if (ltb_ℤ non_playoff (pos teams)) (consolation_teams_exceed teams non_playoff)

unfoldable pub consolation_errors : Bool → Option ℕ → ℕ → Option ℕ → List ConfigError
unfolding size_errors
consolation_errors false teams playoff_teams total = []
consolation_errors true teams playoff_teams none = []
consolation_errors true teams playoff_teams (some total) =
    let non_playoff = pos total -ℤ pos playoff_teams in
    push_if (ltb_ℤ non_playoff (pos 4)) (too_few_non_playoff_teams non_playoff)
    ++ size_errors teams non_playoff

unfoldable pub validate_playoff_config : PlayoffConfig → List ConfigError
unfolding schedule_errors consolation_errors
validate_playoff_config c =
    push_if (not (is_bracket_size c.playoff_teams)) playoff_teams_invalid
    ++ (schedule_errors c.total_rounds c.weeks_by_round
        ++ consolation_errors c.is_consolation c.consolation_teams c.playoff_teams
            c.total_league_teams)
