-- ===== src/Playoff/Bracket/Winner.antt =====
-- The one order behind every winner: more points, then the lower seed number, then the lower id.
use ht_mvp_backend.Prelude.{
  ℕ, ◌<◌, ◌≡◌, ◌≢◌, ◌⊎◌, ◌↔◌, Bool, true, false, some, ℤ, ◌<ℤ◌, truthy, arith,
}
use ht_mvp_backend.Playoff.Bracket.{
  MatchupForResolution, SeriesForResolution, BracketState, points_or_zero, resolve_matchup_winner,
  resolve_matchup_loser, is_bracket_complete,
}

-- Side `a` ranks above side `b`.
abbrev pub Beats : ℤ → ℕ → ℕ → ℤ → ℕ → ℕ → Type 0
Beats points_a seed_a id_a points_b seed_b id_b =
    (points_b <ℤ points_a)
    ⊎ ((points_a ≡ points_b) × ((seed_a < seed_b) ⊎ ((seed_a ≡ seed_b) × (id_a < id_b))))

-- The same two sides with their roles exchanged.
abbrev pub swapped : MatchupForResolution → MatchupForResolution
swapped m = record {
  roster1_id = m.roster2_id;
  roster2_id = m.roster1_id;
  roster1_points = m.roster2_points;
  roster2_points = m.roster1_points;
  roster1_seed = m.roster2_seed;
  roster2_seed = m.roster1_seed;
}

-- A matchup as a series of its own.
abbrev pub as_series : MatchupForResolution → SeriesForResolution
as_series m = record {
  roster1_id = m.roster1_id;
  roster2_id = m.roster2_id;
  roster1_total_points = points_or_zero m.roster1_points;
  roster2_total_points = points_or_zero m.roster2_points;
  roster1_seed = m.roster1_seed;
  roster2_seed = m.roster2_seed;
}

module _ (m : MatchupForResolution) where
  -- Two different rosters: side 1 wins exactly when it ranks above side 2, and otherwise side 2 wins;
  -- the loser is the other side. Missing scores count as zero when they are allowed.
  pub winner_ranks_above :
      m.roster1_id ≢ m.roster2_id
      → ((resolve_matchup_winner m false ≡ some m.roster1_id)
          × (resolve_matchup_loser m false ≡ some m.roster2_id)
          × Beats
              (points_or_zero m.roster1_points)
              m.roster1_seed
              m.roster1_id
              (points_or_zero m.roster2_points)
              m.roster2_seed
              m.roster2_id)
        ⊎ ((resolve_matchup_winner m false ≡ some m.roster2_id)
            × (resolve_matchup_loser m false ≡ some m.roster1_id)
            × Beats
                (points_or_zero m.roster2_points)
                m.roster2_seed
                m.roster2_id
                (points_or_zero m.roster1_points)
                m.roster1_seed
                m.roster1_id)
  unfolding resolve_matchup_winner resolve_matchup_loser
  winner_ranks_above h = ground arith

  -- Of two different rosters, which one is written first does not matter, to the winner nor to the
  -- loser.
  winner_swapped :
      (require_points : Bool)
      → m.roster1_id ≢ m.roster2_id
      → (resolve_matchup_winner (swapped m) require_points
          ≡ resolve_matchup_winner m require_points)
        × (resolve_matchup_loser (swapped m) require_points
            ≡ resolve_matchup_loser m require_points)
  unfolding resolve_matchup_winner resolve_matchup_loser
  winner_swapped require_points h = (ground arith, ground arith)

-- A bracket is complete exactly when there is a champion, and a third place and a consolation winner
-- where these are played.
bracket_complete_iff :
    (b : BracketState)
    → (is_bracket_complete b ≡ true) ↔ (
        (truthy b.champion_roster_id ≡ true)
        × (b.enable_third_place ≡ true → truthy b.third_place_roster_id ≡ true)
        × (b.has_consolation ≡ true → truthy b.consolation_winner_roster_id ≡ true))
unfolding is_bracket_complete
bracket_complete_iff b = ground arith
