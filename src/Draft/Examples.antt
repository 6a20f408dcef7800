-- ===== src/Draft/Examples.antt =====
-- The theorems on drafts at concrete inputs.
use ht_mvp_backend.Prelude.{
  ℕ, ◌+◌, ◌≤◌, ◌<◌, ◌≡◌, ◌↔◌, ◌⊎◌, refl, true, false, none, some, List, [], ◌∷◌, arith, length,
}
use ht_mvp_backend.Draft.Order.{
  DraftOrderEntry, DraftPickAsset, snake, pick_position, owner_of, find_asset,
}
use ht_mvp_backend.Draft.Order.Rounds.{pick_of, one_pick_each_round}
use ht_mvp_backend.Draft.NextPick.{
  Draft, in_progress, compute_next_pick_state, calculate_pick_deadline,
}
use ht_mvp_backend.Draft.NextPick.Progress.{next_pick_of-turn}
use ht_mvp_backend.Draft.Validation.{
  PickValidationContext, validate_pick_preconditions, PlayerForRanking,
}
use ht_mvp_backend.Draft.Validation.Accepted.{IfGiven, accepted_iff}

abbrev entry : ℕ → ℕ → DraftOrderEntry
entry r p = record { roster_id = r; draft_position = p }

abbrev order : List DraftOrderEntry
order = entry 31 1 ∷ entry 32 2 ∷ entry 33 3 ∷ []

-- roster 33 owns the second pick of roster 32
abbrev assets : List DraftPickAsset
assets = record { round = 2; original_roster_id = 32; current_owner_roster_id = 33 } ∷ []

one_pick_each_round_example :
    (i : ℕ) × (i < 3)
    × (pick_position snake 3 (pick_of 3 1 i) ≡ 2 + 1)
    × ((j : ℕ) → j < 3 → pick_position snake 3 (pick_of 3 1 j) ≡ 2 + 1 → j ≡ i)
one_pick_each_round_example = one_pick_each_round snake 3 1 2 (omega arith)

abbrev draft_at : ℕ → Draft
draft_at pick = record {
  status = in_progress;
  current_pick = pick;
  rounds = 4;
  pick_time_seconds = 90;
  pick_deadline = some 5000;
  total_teams = some 3;
  is_chess_clock = false;
  chess_clock_min_pick_seconds = none;
}

next_pick_of-turn_example :
    let owner = owner_of (entry 32 2) (find_asset (1 + 1) 32 assets) in
    compute_next_pick_state 1000 (draft_at 4) order snake assets none
    ≡ some record {
      current_pick = some (pick_of (length order) 1 1);
      current_round = some (1 + 1);
      current_roster_id = some owner.roster_id;
      original_roster_id = some owner.original_roster_id;
      is_traded = owner.is_traded;
      pick_deadline = some (calculate_pick_deadline 1000 (draft_at 4) none);
      status = in_progress;
      completed_at = none;
    }
next_pick_of-turn_example =
    next_pick_of-turn 1000 (draft_at 4) order snake assets none 1 1 (entry 32 2) refl
      (refl, (refl, (refl, tt))) (omega arith) (omega arith) refl refl

abbrev context : PickValidationContext
context = record {
  is_in_progress = true;
  is_auction = false;
  scheduled_start = some 500;
  order_confirmed = true;
  current_pick = 4;
  pick_deadline = some 5000;
  current_picker_roster_id = some 33;
}

accepted_iff_example : (validate_pick_preconditions context 33 1000 false ≡ []) ↔ (
    (context.is_in_progress ≡ true)
    × IfGiven (λ start. start ≤ 1000) context.scheduled_start
    × ((context.order_confirmed ≡ true) ⊎ (context.is_auction ≡ true))
    × ((false ≡ true) ⊎ IfGiven (λ current. current ≡ 33) context.current_picker_roster_id)
    × IfGiven (λ deadline. 1000 ≤ deadline) context.pick_deadline)
accepted_iff_example = accepted_iff context 33 1000 false

abbrev players : List PlayerForRanking
players = record { id = 1; adp = none } ∷ record { id = 2; adp = some 150 } ∷ []
