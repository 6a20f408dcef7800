-- ===== src/Standings.antt =====
-- modules/matchups/standings.service.ts: results, streaks and head-to-head records, from the
-- matchups that a query has returned. Points are hundredths; an absent score is none.
pub mod Records
pub mod Examples
use ht_mvp_backend.Prelude.{
  ℕ, suc, Bool, true, false, ◌&&◌, Option, none, some, List, [], ◌∷◌, ℤ, pos, ◌-ℤ◌, ltb_ℤ, ◌==◌,
  sort, if◌then◌else◌,
}

pub record Matchup : Type 0 where
  pub week : ℕ
  pub roster1_id : ℕ
  pub roster2_id : ℕ
  pub roster1_points : Option ℤ
  pub roster2_points : Option ℤ

pub data MatchupResult : Type 0 where
  w : MatchupResult
  l : MatchupResult
  t : MatchupResult

-- the result for `my_points` against `opp_points`
unfoldable pub result_of : Option ℤ → Option ℤ → Option MatchupResult
result_of none opp_points = none
result_of (some my_points) none = none
result_of (some my_points) (some opp_points) =
    if ltb_ℤ opp_points my_points
    then some w
    else (if ltb_ℤ my_points opp_points then some l else some t)

unfoldable pub get_matchup_result : Matchup → ℕ → Option MatchupResult
unfolding result_of
get_matchup_result matchup roster_id =
    let is_roster1 = matchup.roster1_id == roster_id in
    result_of (if is_roster1 then matchup.roster1_points else matchup.roster2_points)
      (if is_roster1 then matchup.roster2_points else matchup.roster1_points)

pub record HeadToHead : Type 0 where
  pub roster1_wins : ℕ
  pub roster2_wins : ℕ
  pub ties : ℕ

unfoldable pub count_result : Option MatchupResult → HeadToHead → HeadToHead
count_result none h = h
count_result (some w) h = record h { roster1_wins = suc h.roster1_wins }
count_result (some l) h = record h { roster2_wins = suc h.roster2_wins }
count_result (some t) h = record h { ties = suc h.ties }

abbrev pub is_relevant : ℕ → ℕ → Matchup → Bool
is_relevant id1 id2 m =
    if (m.roster1_id == id1) && (m.roster2_id == id2)
    then true
    else (m.roster1_id == id2) && (m.roster2_id == id1)

-- the counts of the loop, in any order of the matchups
unfoldable pub get_head_to_head_record : List Matchup → ℕ → ℕ → HeadToHead
unfolding count_result
get_head_to_head_record [] id1 id2 = record { roster1_wins = 0; roster2_wins = 0; ties = 0 }
get_head_to_head_record (m ∷ ms) id1 id2 =
    let rest = get_head_to_head_record ms id1 id2 in
    if is_relevant id1 id2 m then count_result (get_matchup_result m id1) rest else rest

abbrev pub same_result : MatchupResult → MatchupResult → Bool
same_result w w = true
same_result l l = true
same_result t t = true
same_result _ _ = false

-- the loop once a streak of `n` games of one result has begun
unfoldable pub extend_streak : MatchupResult → ℕ → List (Option MatchupResult) → ℕ
extend_streak r n [] = n
extend_streak r n (none ∷ rs) = extend_streak r n rs
extend_streak r n (some s ∷ rs) =
    let longer = extend_streak r (suc n) rs in if same_result s r then longer else n

unfoldable pub streak_of : List (Option MatchupResult) → Option (MatchupResult × ℕ)
unfolding extend_streak
streak_of [] = none
streak_of (none ∷ rs) = streak_of rs
streak_of (some r ∷ rs) = some (r, extend_streak r 1 rs)

abbrev pub results_for : ℕ → List Matchup → List (Option MatchupResult)
results_for roster_id [] = []
results_for roster_id (m ∷ ms) = get_matchup_result m roster_id ∷ results_for roster_id ms

abbrev pub compare_weeks : Matchup → Matchup → ℤ
compare_weeks a b = pos b.week -ℤ pos a.week

-- the streak's type and length, which the source prints one after the other; none prints nothing
unfoldable pub calculate_streak_from_matchups : List Matchup → ℕ → Option (MatchupResult × ℕ)
unfolding streak_of
calculate_streak_from_matchups matchups roster_id =
    streak_of (results_for roster_id (sort compare_weeks matchups))
