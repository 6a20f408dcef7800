-- ===== src/Playoff/Examples.antt =====
-- The theorems on playoffs at concrete inputs.
use ht_mvp_backend.Prelude.{ℕ, ◌-◌, ◌≡◌, ◌⊎◌, true, false, none, some, List, [], ◌∷◌, arith, pos}
use mathlib.Core.List.Perm
use ht_mvp_backend.Playoff.Bracket.{
  MatchupForResolution, BracketState, resolve_matchup_winner, resolve_matchup_loser,
}
use ht_mvp_backend.Playoff.Bracket.Winner.{Beats, winner_ranks_above}
use ht_mvp_backend.Playoff.Seeding.{
  StandingForSeeding, PlayoffConfig, sort_standings_for_seeding, seed_from_standings,
}
use ht_mvp_backend.Playoff.Seeding.Ranking.{seeds_independent}

-- a tie on points, that the seeds decide
abbrev matchup : MatchupForResolution
matchup = record {
  roster1_id = 11;
  roster2_id = 12;
  roster1_points = some (pos 10050);
  roster2_points = some (pos 10050);
  roster1_seed = 4;
  roster2_seed = 1;
}

winner_ranks_above_example :
    ((resolve_matchup_winner matchup false ≡ some 11)
      × (resolve_matchup_loser matchup false ≡ some 12)
      × Beats (pos 10050) 4 11 (pos 10050) 1 12)
    ⊎ ((resolve_matchup_winner matchup false ≡ some 12)
        × (resolve_matchup_loser matchup false ≡ some 11)
        × Beats (pos 10050) 1 12 (pos 10050) 4 11)
winner_ranks_above_example = winner_ranks_above matchup (omega arith)

abbrev bracket : BracketState
bracket = record {
  champion_roster_id = some 12;
  enable_third_place = true;
  third_place_roster_id = none;
  has_consolation = false;
  consolation_winner_roster_id = none;
}

abbrev standing : ℕ → ℕ → ℕ → StandingForSeeding
standing r w p = record { roster_id = r; wins = w; losses = 13 - w; ties = 0; points_for = pos p }

abbrev standings : List StandingForSeeding
standings = standing 1 5 120000 ∷ standing 2 9 110000 ∷ []

seeds_independent_example :
    seed_from_standings (sort_standings_for_seeding standings) 4
    ≡ seed_from_standings
        (sort_standings_for_seeding (standing 2 9 110000 ∷ standing 1 5 120000 ∷ []))
        4
seeds_independent_example =
    seeds_independent standings (standing 2 9 110000 ∷ standing 1 5 120000 ∷ []) 4
      ((omega arith, tt), (tt, tt)) (Perm.swap (standing 2 9 110000) (standing 1 5 120000) [])

abbrev config : PlayoffConfig
config = record {
  playoff_teams = 6;
  total_rounds = 3;
  weeks_by_round = some (1 ∷ 1 ∷ 2 ∷ []);
  is_consolation = true;
  consolation_teams = some 4;
  total_league_teams = some 12;
}
