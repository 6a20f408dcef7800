-- ===== src/Playoff/Weeks/Tiling.antt =====
-- Weeks: the rounds follow one another without a gap. Pairings: high seeds meet low seeds.
use ht_mvp_backend.Prelude.{
  ℕ, zero, suc, ◌+◌, ◌-◌, ◌*◌, ◌≤◌, ◌<◌, ◌≡◌, ◌⊎◌, inl, inr, refl, Option, none, some, List, [],
  ◌∷◌, All, length, arith,
}
use ht_mvp_backend.Playoff.Seeding.Config.{IsSchedule, IsBracketSize}
use ht_mvp_backend.Playoff.Seeding.{compute_bye_seeds}
use ht_mvp_backend.Playoff.Weeks.{
  generate_bracket_config, generate_consolation_bracket_config, week_at, weeks_array, weeks_before,
  get_week_range_for_round, sum_weeks, calculate_total_playoff_weeks,
}

week_at-positive :
    (rounds i : ℕ) (weeks : Option (List ℕ))
    → IsSchedule rounds weeks
    → (1 ≤ week_at (weeks_array weeks) i) × (week_at (weeks_array weeks) i ≤ 2)
unfolding weeks_array week_at
week_at-positive rounds i none h = ground arith
week_at-positive rounds i (some []) h = ground arith
week_at-positive rounds zero (some (w ∷ ws)) h = ground arith
week_at-positive rounds (suc i) (some (w ∷ ws)) h =
    week_at-positive (length ws) i (some ws) (refl, h.1.1)

-- With a valid schedule, every round takes one or two weeks, and the next round starts in the week
-- after the one it ends in.
rounds_tile :
    (start_week rounds r : ℕ) (weeks : Option (List ℕ))
    → IsSchedule rounds weeks
    → let this = get_week_range_for_round start_week weeks (suc r) in
      let next = get_week_range_for_round start_week weeks (suc (suc r)) in
      (next.0 ≡ this.1 + 1) × (this.0 ≤ this.1) × (this.1 ≤ this.0 + 1)
unfolding get_week_range_for_round weeks_before
rounds_tile start_week rounds r weeks h =
    let p = week_at-positive rounds r weeks h in
    let here : suc r - 1 ≡ r = omega arith in
    let there : suc (suc r) - 1 ≡ suc r = omega arith in
    rw (here, there) (omega arith, omega arith, omega arith)

-- the weeks of the first rounds, each round's by its place in the list
weeks_before-cons :
    (w start_week r : ℕ) (ws : List ℕ)
    → weeks_before (w ∷ ws) start_week (suc r) ≡ weeks_before ws (start_week + w) r
unfolding weeks_before week_at
weeks_before-cons w start_week zero ws = refl
weeks_before-cons w start_week (suc r) ws = omega (arith, weeks_before-cons w start_week r ws)

weeks_before-all :
    (start_week : ℕ) (ws : List ℕ)
    → weeks_before ws start_week (length ws) ≡ start_week + sum_weeks ws
unfolding weeks_before
weeks_before-all start_week [] = omega arith
weeks_before-all start_week (w ∷ ws) =
    omega
      (arith, weeks_before-cons w start_week (length ws) ws, weeks_before-all (start_week + w) ws)

weeks_before-none : (start_week r : ℕ) → weeks_before [] start_week r ≡ start_week + r
unfolding weeks_before week_at
weeks_before-none start_week zero = omega arith
weeks_before-none start_week (suc r) = omega (arith, weeks_before-none start_week r)

-- The playoffs of a valid schedule take as many weeks as are announced: the round after the last
-- would start that many weeks after the first one.
total_weeks :
    (start_week rounds : ℕ) (weeks : Option (List ℕ))
    → IsSchedule rounds weeks
    → (get_week_range_for_round start_week weeks (suc rounds)).0
      ≡ start_week + calculate_total_playoff_weeks weeks rounds
unfolding get_week_range_for_round calculate_total_playoff_weeks weeks_array
total_weeks start_week rounds none h =
    let here : suc rounds - 1 ≡ rounds = omega arith in
    rw here (weeks_before-none start_week rounds)
total_weeks start_week rounds (some ws) h =
    let here : suc rounds - 1 ≡ length ws = omega arith in rw here (weeks_before-all start_week ws)

sized_or_empty :
    (teams start_week : ℕ) → IsBracketSize teams ⊎ (generate_bracket_config teams start_week ≡ [])
unfolding generate_bracket_config
sized_or_empty teams start_week = ground arith

-- In the first round of a playoff or consolation bracket, each matchup pairs a seed of the better
-- half of those without a bye with the one that mirrors it from the bottom; and in a bracket of 4, 6
-- or 8 teams, the teams in matchups and the teams with a bye are as many as all the teams.
pairings_mirror :
    (teams start_week : ℕ)
    → let byes = length (compute_bye_seeds teams) in
      All
        (λ m.
          (m.seed2 ≡ some (teams + byes + 1 - m.seed1))
          × (m.seed1 + m.seed1 ≤ teams + byes)
          × (byes < m.seed1))
        (generate_bracket_config teams start_week)
      × (generate_consolation_bracket_config teams start_week
          ≡ generate_bracket_config teams start_week)
      × (IsBracketSize teams → 2 * length (generate_bracket_config teams start_week) + byes ≡ teams)
unfolding generate_bracket_config generate_consolation_bracket_config compute_bye_seeds
pairings_mirror teams start_week = (
  elim (sized_or_empty teams start_week) [
    | inl (inl e) ↦ rw e (ground arith)
    | inl (inr (inl e)) ↦ rw e (ground arith)
    | inl (inr (inr e)) ↦ rw e (ground arith)
    | inr e ↦ rw e tt
  ],
  refl,
  λ h. ground arith,
)
