-- ===== src/Playoff/Bracket.antt =====
-- domain/playoff/bracket.ts. Points are hundredths, so that they are integers; an absent score is
-- null, and a call that throws is none.
pub mod Winner
use ht_mvp_backend.Prelude.{
  ℕ, Bool, true, false, not, ◌&&◌, Option, none, some, ltb, ◌==◌, ℤ, pos, ltb_ℤ, truthy,
  if◌then◌else◌,
}

pub record MatchupForResolution : Type 0 where
  pub roster1_id : ℕ
  pub roster2_id : ℕ
  pub roster1_points : Option ℤ
  pub roster2_points : Option ℤ
  pub roster1_seed : ℕ
  pub roster2_seed : ℕ

pub record SeriesForResolution : Type 0 where
  pub roster1_id : ℕ
  pub roster2_id : ℕ
  pub roster1_total_points : ℤ
  pub roster2_total_points : ℤ
  pub roster1_seed : ℕ
  pub roster2_seed : ℕ

abbrev pub points_or_zero : Option ℤ → ℤ
points_or_zero none = pos 0
points_or_zero (some p) = p

abbrev pub is_missing : Option ℤ → Bool
is_missing none = true
is_missing (some p) = false

unfoldable pub winner_by_points : MatchupForResolution → ℤ → ℤ → ℕ
winner_by_points m pts1 pts2 =
    if ltb_ℤ pts2 pts1
    then m.roster1_id
    else (if ltb_ℤ pts1 pts2
        then m.roster2_id
        else (if ltb m.roster1_seed m.roster2_seed
            then m.roster1_id
            else (if ltb m.roster2_seed m.roster1_seed
                then m.roster2_id
                else (if ltb m.roster1_id m.roster2_id then m.roster1_id else m.roster2_id))))

unfoldable pub resolve_matchup_winner : MatchupForResolution → Bool → Option ℕ
unfolding winner_by_points
resolve_matchup_winner m require_points =
    if require_points && (if is_missing m.roster1_points then true else is_missing m.roster2_points)
    then none
    else some
        (winner_by_points m (points_or_zero m.roster1_points) (points_or_zero m.roster2_points))

unfoldable pub loser_of : MatchupForResolution → Option ℕ → Option ℕ
loser_of m none = none
loser_of m (some winner_id) =
    some (if winner_id == m.roster1_id then m.roster2_id else m.roster1_id)

unfoldable pub resolve_matchup_loser : MatchupForResolution → Bool → Option ℕ
unfolding loser_of
resolve_matchup_loser m require_points = loser_of m (resolve_matchup_winner m require_points)

unfoldable pub resolve_series_winner : SeriesForResolution → ℕ
resolve_series_winner s =
    if ltb_ℤ s.roster2_total_points s.roster1_total_points
    then s.roster1_id
    else (if ltb_ℤ s.roster1_total_points s.roster2_total_points
        then s.roster2_id
        else (if ltb s.roster1_seed s.roster2_seed
            then s.roster1_id
            else (if ltb s.roster2_seed s.roster1_seed
                then s.roster2_id
                else (if ltb s.roster1_id s.roster2_id then s.roster1_id else s.roster2_id))))

unfoldable pub resolve_series_loser : SeriesForResolution → ℕ
unfolding resolve_series_winner
resolve_series_loser s =
    let winner_id = resolve_series_winner s in
    if winner_id == s.roster1_id then s.roster2_id else s.roster1_id

pub record BracketState : Type 0 where
  pub champion_roster_id : Option ℕ
  pub enable_third_place : Bool
  pub third_place_roster_id : Option ℕ
  -- consolationType === 'CONSOLATION'
  pub has_consolation : Bool
  pub consolation_winner_roster_id : Option ℕ

unfoldable pub is_bracket_complete : BracketState → Bool
is_bracket_complete b =
    if not (truthy b.champion_roster_id)
    then false
    else (if b.enable_third_place && not (truthy b.third_place_roster_id)
        then false
        else (if b.has_consolation && not (truthy b.consolation_winner_roster_id)
            then false
            else true))
