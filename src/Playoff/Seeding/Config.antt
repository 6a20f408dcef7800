-- ===== src/Playoff/Seeding/Config.antt =====
-- What the configuration check accepts.
use ht_mvp_backend.Prelude.{
  ℕ, suc, ◌+◌, ◌≤◌, ◌≡◌, ◌↔◌, ◌⊎◌, refl, Bool, true, false, not, ◌&&◌, Option, none, some, List, [],
  ◌∷◌, ◌++◌, ◌==◌, ◌-ℤ◌, length, All, arith,
}
use ht_mvp_backend.Playoff.Seeding.{
  PlayoffConfig, ConfigError, weeks_value_invalid, weeks_length_mismatch, playoff_teams_invalid,
  push_if, is_bracket_size, weeks_errors, schedule_errors, size_errors, consolation_errors,
  validate_playoff_config,
}

abbrev pub IsBracketSize : ℕ → Type 0
IsBracketSize n = (n ≡ 4) ⊎ (n ≡ 6) ⊎ (n ≡ 8)

-- The weeks are given for each round, one or two for each; no weeks given is fine.
abbrev pub IsSchedule : ℕ → Option (List ℕ) → Type 0
IsSchedule rounds none = Unit
IsSchedule rounds (some ws) = (length ws ≡ rounds) × All (λ w. (w ≡ 1) ⊎ (w ≡ 2)) ws

-- Where the league's size is known, four teams are left over, and as many as the consolation takes.
abbrev pub HasConsolation : Bool → Option ℕ → ℕ → Option ℕ → Type 0
HasConsolation false teams playoff_teams total = Unit
HasConsolation true teams playoff_teams none = Unit
HasConsolation true none playoff_teams (some total) = playoff_teams + 4 ≤ total
HasConsolation true (some teams) playoff_teams (some total) =
    (playoff_teams + 4 ≤ total) × IsBracketSize teams × (playoff_teams + teams ≤ total)

append_iff :
    {P Q : Type 0} (xs ys : List ConfigError)
    → (xs ≡ []) ↔ P
    → (ys ≡ []) ↔ Q
    → (xs ++ ys ≡ []) ↔ (P × Q)
append_iff [] ys p q = (λ h. (p.0 refl, q.0 h), λ h. q.1 h.1)
append_iff (x ∷ xs) ys p q =
    (λ h. ground arith, λ h. let bad : x ∷ xs ≡ [] = p.1 h.0 in ground arith)

size_iff : (n : ℕ) (e : ConfigError) → (push_if (not (is_bracket_size n)) e ≡ []) ↔ IsBracketSize n
size_iff n e = ground arith

week_iff :
    (w : ℕ) (e : ConfigError)
    → (push_if (not (w == 1) && not (w == 2)) e ≡ []) ↔ ((w ≡ 1) ⊎ (w ≡ 2))
week_iff w e = ground arith

weeks_iff : (ws : List ℕ) (i : ℕ) → (weeks_errors i ws ≡ []) ↔ All (λ w. (w ≡ 1) ⊎ (w ≡ 2)) ws
unfolding weeks_errors
weeks_iff [] i = (λ h. tt, λ h. refl)
weeks_iff (w ∷ ws) i =
    append_iff (push_if (not (w == 1) && not (w == 2)) (weeks_value_invalid i w))
      (weeks_errors (suc i) ws) (week_iff w (weeks_value_invalid i w)) (weeks_iff ws (suc i))

IsSchedule-iff :
    (rounds : ℕ) (weeks : Option (List ℕ))
    → (schedule_errors rounds weeks ≡ []) ↔ IsSchedule rounds weeks
unfolding schedule_errors
IsSchedule-iff rounds none = (λ h. tt, λ h. refl)
IsSchedule-iff rounds (some ws) =
    append_iff (push_if (not (length ws == rounds)) (weeks_length_mismatch rounds (length ws)))
      (weeks_errors 0 ws) (ground arith) (weeks_iff ws 0)

consolation_iff :
    (on : Bool) (teams : Option ℕ) (playoff_teams : ℕ) (total : Option ℕ)
    → (consolation_errors on teams playoff_teams total ≡ [])
      ↔ HasConsolation on teams playoff_teams total
unfolding consolation_errors size_errors ◌-ℤ◌
consolation_iff false teams p total = (λ h. tt, λ h. refl)
consolation_iff true teams p none = (λ h. tt, λ h. refl)
consolation_iff true none p (some total) = ground arith
consolation_iff true (some teams) p (some total) = ground arith

-- No error is reported exactly for a bracket of 4, 6 or 8 teams, with weeks for every round of one
-- or two each if any are given, and, with a consolation bracket in a league of known size, at least
-- four teams outside the playoffs and a consolation bracket of 4, 6 or 8 of them if its size is given.
config_valid_iff :
    (c : PlayoffConfig)
    → (validate_playoff_config c ≡ []) ↔ (
        IsBracketSize c.playoff_teams
        × (IsSchedule c.total_rounds c.weeks_by_round
            × HasConsolation c.is_consolation c.consolation_teams c.playoff_teams
                c.total_league_teams))
unfolding validate_playoff_config
config_valid_iff c =
    append_iff (push_if (not (is_bracket_size c.playoff_teams)) playoff_teams_invalid)
      (schedule_errors c.total_rounds c.weeks_by_round
        ++ consolation_errors c.is_consolation c.consolation_teams c.playoff_teams
            c.total_league_teams)
      (size_iff c.playoff_teams playoff_teams_invalid)
      (append_iff (schedule_errors c.total_rounds c.weeks_by_round)
        (consolation_errors c.is_consolation c.consolation_teams c.playoff_teams
          c.total_league_teams)
        (IsSchedule-iff c.total_rounds c.weeks_by_round)
        (consolation_iff c.is_consolation c.consolation_teams c.playoff_teams c.total_league_teams))
