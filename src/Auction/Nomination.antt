-- ===== src/Auction/Nomination.antt =====
-- domain/auction/nomination.ts: who may nominate, and what a nominator's timeout does.
pub mod Eligibility
use ht_mvp_backend.Prelude.{ℕ, Bool, true, false, not, leb, ◌||◌, if◌then◌else◌}
use ht_mvp_backend.Auction.Budget.{RosterBudgetSnapshot, can_afford_min_bid}

pub data NominatorEligibilityReason : Type 0 where
  is_eligible roster_full insufficient_budget : NominatorEligibilityReason

pub record NominatorEligibility : Type 0 where
  pub eligible : Bool
  pub reason : NominatorEligibilityReason

unfoldable pub assess_nominator_eligibility :
    RosterBudgetSnapshot → ℕ → ℕ → ℕ → NominatorEligibility
assess_nominator_eligibility snapshot total_budget roster_slots min_bid =
    if leb roster_slots snapshot.won_count
    then record { eligible = false; reason = roster_full }
    else (if not (can_afford_min_bid total_budget roster_slots snapshot min_bid)
        then record { eligible = false; reason = insufficient_budget }
        else record { eligible = true; reason = is_eligible })

pub data FastAuctionTimeoutAction : Type 0 where
  auto_skip_nominator auto_nominate_no_open_bid auto_nominate_and_open_bid :
      FastAuctionTimeoutAction

pub data TimeoutResolution : Type 0 where
  create_lot_with_open_bid create_lot_no_open_bid skip : TimeoutResolution

unfoldable pub resolve_timeout_action :
    FastAuctionTimeoutAction → Bool → NominatorEligibility → TimeoutResolution
resolve_timeout_action auto_skip_nominator has_eligible_player eligibility = skip
resolve_timeout_action auto_nominate_no_open_bid has_eligible_player eligibility =
    if not has_eligible_player || not eligibility.eligible then skip else create_lot_no_open_bid
resolve_timeout_action auto_nominate_and_open_bid has_eligible_player eligibility =
    if not has_eligible_player || not eligibility.eligible then skip else create_lot_with_open_bid
