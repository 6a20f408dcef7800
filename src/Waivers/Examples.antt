-- ===== src/Waivers/Examples.antt =====
-- The theorems on waivers at concrete inputs.
use ht_mvp_backend.Prelude.{
  ℕ, ◌≤◌, Bool-cases, inl, inr, ◌==◌, ◌<◌, ◌≡◌, ◌↔◌, ◌⊎◌, refl, true, false, none, some, List, [],
  ◌∷◌, pos, ◌≤ℤ◌, truthy, arith,
}
use mathlib.Core.List.{Mem, Perm}
use mathlib.Core.List.Perm
use ht_mvp_backend.Waivers.{
  WaiverClaim, RosterProcessingState, standard, faab, is_faab, has, is_gone,
  validate_claim_with_state, winner_state, state_after_win, update_roster_state_after_win,
  sort_claims_by_roster_state, state_of, has_unprocessed_claims,
}
use ht_mvp_backend.Rosters.{
  RosterPlayer, draft, League, RosterError, Outcome, get_max_roster_size, remove_player, find_owner,
}
use ht_mvp_backend.Rosters.Invariant.{IsWithin}
use ht_mvp_backend.Waivers.Run.{Run, RunConfig, process_rounds, execute_claim}
use ht_mvp_backend.Waivers.Finished.{Entry, waiver_run_ends}
use ht_mvp_backend.Waivers.Keeping.{waiver_run_keeps_sizes, failed_claim_drops}
use ht_mvp_backend.Waivers.Ranking.{Wins, first_claim-Wins, claims_independent}
use ht_mvp_backend.Waivers.Winning.{
  IsRanking, eligible_claim_iff, win_keeps_bounds, rotation_keeps_IsRanking, winner_goes_last,
}

abbrev claim_of : ℕ → ℕ → ℕ → WaiverClaim
claim_of i r bid = record {
  id = i;
  roster_id = r;
  player_id = 50;
  drop_player_id = some 60;
  bid_amount = bid;
  created_at = 1000;
}

abbrev roster : ℕ → ℕ → RosterProcessingState
roster r p = record {
  roster_id = r;
  current_priority = p;
  remaining_budget = pos 40;
  current_roster_size = 15;
  owned_player_ids = 60 ∷ 61 ∷ [];
  processed_claim_ids = [];
}

abbrev states : List RosterProcessingState
states = roster 1 2 ∷ roster 2 1 ∷ roster 3 3 ∷ []

abbrev claims : List WaiverClaim
claims = claim_of 7 1 20 ∷ claim_of 8 2 20 ∷ []

first_claim-Wins_example :
    Perm (sort_claims_by_roster_state claims faab states) claims
    × ((first : WaiverClaim) (rest : List WaiverClaim)
        → sort_claims_by_roster_state claims faab states ≡ first ∷ rest
        → (c : WaiverClaim) → Mem c claims
        → Wins faab states first c)
first_claim-Wins_example = first_claim-Wins faab states claims

claims_independent_example :
    sort_claims_by_roster_state claims faab states
    ≡ sort_claims_by_roster_state (claim_of 8 2 20 ∷ claim_of 7 1 20 ∷ []) faab states
claims_independent_example =
    claims_independent faab states claims (claim_of 8 2 20 ∷ claim_of 7 1 20 ∷ [])
      ((omega arith, tt), (tt, tt)) (Perm.swap (claim_of 8 2 20) (claim_of 7 1 20) [])

eligible_claim_iff_example :
    (validate_claim_with_state (claim_of 7 1 20) (roster 1 2) faab 15 ≡ none) ↔ (
      (has (60 ∷ 61 ∷ []) 50 ≡ false)
      × (is_gone (60 ∷ 61 ∷ []) (some 60) ≡ false)
      × ((truthy (some 60) ≡ true) ⊎ (15 < 15))
      × (is_faab faab ≡ true → 0 < 20 → pos 20 ≤ℤ pos 40))
eligible_claim_iff_example = eligible_claim_iff (claim_of 7 1 20) (roster 1 2) faab 15

win_keeps_bounds_example :
    let after = winner_state (claim_of 7 1 20) faab 3 (roster 1 2) in
    (pos 0 ≤ℤ after.remaining_budget)
    × (after.current_roster_size ≤ 15)
    × (has after.owned_player_ids 50 ≡ true)
unfolding validate_claim_with_state
win_keeps_bounds_example =
    win_keeps_bounds (claim_of 7 1 20) (roster 1 2) faab 15 3 refl (omega arith) (omega arith)

first_found : state_of 1 states ≡ some (roster 1 2)
unfolding state_of
first_found = refl

states_ranked : IsRanking 3 states
states_ranked = ground arith

rotation_keeps_IsRanking_example :
    IsRanking 3 (update_roster_state_after_win (roster 1 2) (claim_of 7 1 20) standard states 3)
rotation_keeps_IsRanking_example =
    rotation_keeps_IsRanking (roster 1 2) (claim_of 7 1 20) states 3 first_found states_ranked

winner_goes_last_example :
    let after = state_after_win (roster 1 2) (claim_of 7 1 20) standard 3 in
    ((after (roster 2 1)).current_priority < (after (roster 1 2)).current_priority)
    × (((after (roster 2 1)).current_priority < (after (roster 3 3)).current_priority) ↔ (1 < 3))
winner_goes_last_example =
    winner_goes_last (roster 1 2) (roster 2 1) (roster 3 3) (claim_of 7 1 20) 3
      (omega arith, omega arith) (omega arith, omega arith) (omega arith, omega arith)
      (omega arith, omega arith)

-- rosters of at most two players, and two claims of roster 1 on the player that roster 2 owns or drops
abbrev small_league : League
small_league = record {
  id = 1;
  settings = some (record {
    roster_size = some 2;
    trade_deadline = none;
    trade_review_enabled = false;
    trade_voting_enabled = false;
    trade_review_hours = none;
    trade_expiry_hours = none;
    trade_veto_count = none;
  });
}

abbrev on_roster : ℕ → ℕ → RosterPlayer
on_roster r p = record { roster_id = r; player_id = p; acquired_type = draft }

abbrev rows : List RosterPlayer
rows = on_roster 1 60 ∷ on_roster 2 50 ∷ on_roster 1 61 ∷ []

abbrev config : RunConfig
config = record { league = small_league; waiver_type = faab; max_roster_size = 2; max_priority = 3 }

abbrev start_run : Run
start_run = record {
  states = states;
  owned_player_ids = [];
  rows = rows;
  decisions = [];
  successes = 0;
}

abbrev entries : List Entry
entries = (1, claim_of 7 1 20 ∷ []) ∷ (3, claim_of 8 3 20 ∷ []) ∷ []

waiver_run_ends_example :
    has_unprocessed_claims entries (process_rounds config entries 3 start_run).states ≡ false
waiver_run_ends_example =
    waiver_run_ends config entries 3 start_run ((refl, tt), ((refl, tt), tt)) (omega arith)

rows-IsWithin : IsWithin (get_max_roster_size small_league.settings) rows
unfolding get_max_roster_size
rows-IsWithin r = elim (Bool-cases (1 == r)) [
  | inl e ↦ let other : (2 == r) ≡ false = ground arith in rw (e, other) (omega arith)
  | inr e ↦ elim (Bool-cases (2 == r)) [
    | inl f ↦ rw (e, f) (omega arith)
    | inr f ↦ rw (e, f) (omega arith)
  ]
]

waiver_run_keeps_sizes_example :
    IsWithin
      (get_max_roster_size small_league.settings)
      (process_rounds config entries 3 start_run).rows
waiver_run_keeps_sizes_example = waiver_run_keeps_sizes config entries 3 start_run rows-IsWithin

failed_claim_drops_example :
    (execute_claim small_league (claim_of 7 1 20) rows
      ≡ Outcome.failed RosterError.already_on_a_roster (remove_player 1 60 rows))
    × (find_owner 60 (remove_player 1 60 rows) ≡ none)
failed_claim_drops_example =
    failed_claim_drops small_league (claim_of 7 1 20) 59 1 rows (on_roster 1 60)
      (
        ((omega arith, (omega arith, tt)), ((omega arith, tt), (tt, tt))),
        (omega arith, (omega arith, (omega arith, tt))),
      )
      refl refl (omega arith) refl
