-- ===== src/Auction/Budget.antt =====
-- domain/auction/budget.ts. Amounts are whole dollars; differences may be negative, so they are ℤ.
pub mod Affordable
use ht_mvp_backend.Prelude.{
  ℕ, ◌/◌, ◌*◌, Bool, ℤ, pos, pos_part, ◌+ℤ◌, ◌-ℤ◌, ◌*ℤ◌, leb_ℤ, max_ℤ, min_ℤ, ◌||◌, if◌then◌else◌,
}

pub record RosterBudgetSnapshot : Type 0 where
  pub spent : ℕ
  pub won_count : ℕ
  pub leading_commitment : ℕ

unfoldable pub calculate_max_affordable_bid : ℕ → ℕ → RosterBudgetSnapshot → ℕ → Bool → ℕ → ℤ
calculate_max_affordable_bid total_budget roster_slots snapshot current_lot_bid is_leading min_bid =
    let remaining_slots = pos roster_slots -ℤ pos snapshot.won_count -ℤ pos 1 in
    let reserved_for_min_bids = max_ℤ (pos 0) remaining_slots *ℤ pos min_bid in
    let max_affordable =
      pos total_budget
      -ℤ pos snapshot.spent
      -ℤ reserved_for_min_bids
      -ℤ pos snapshot.leading_commitment in
    if is_leading then max_affordable +ℤ pos current_lot_bid else max_affordable

unfoldable pub can_afford_min_bid : ℕ → ℕ → RosterBudgetSnapshot → ℕ → Bool
can_afford_min_bid total_budget roster_slots snapshot min_bid =
    let remaining_slots = pos roster_slots -ℤ pos snapshot.won_count -ℤ pos 1 in
    let reserved_for_min_bids = max_ℤ (pos 0) remaining_slots *ℤ pos min_bid in
    let max_affordable =
      pos total_budget
      -ℤ pos snapshot.spent
      -ℤ reserved_for_min_bids
      -ℤ pos snapshot.leading_commitment in
    leb_ℤ (pos min_bid) max_affordable

unfoldable pub calculate_fallback_max_bid : ℕ → ℕ → RosterBudgetSnapshot → ℕ → ℤ
calculate_fallback_max_bid total_budget roster_slots snapshot min_bid =
    let remaining_budget =
      pos total_budget -ℤ pos snapshot.spent -ℤ pos snapshot.leading_commitment in
    let remaining_slots = pos roster_slots -ℤ pos snapshot.won_count in
    let max_legal = remaining_budget -ℤ max_ℤ (pos 0) (remaining_slots -ℤ pos 1) *ℤ pos min_bid in
    -- Math.floor of a quotient of two positive numbers
    let even_spread = pos (pos_part remaining_budget / pos_part remaining_slots * 2) in
    if leb_ℤ remaining_slots (pos 0) || leb_ℤ remaining_budget (pos 0)
    then pos min_bid
    else max_ℤ (pos min_bid) (min_ℤ max_legal even_spread)

unfoldable pub compute_available_budget : ℕ → ℕ → RosterBudgetSnapshot → ℕ → ℤ
compute_available_budget total_budget roster_slots snapshot min_bid =
    let remaining_slots = pos roster_slots -ℤ pos snapshot.won_count in
    let reserved_for_min_bids = max_ℤ (pos 0) (remaining_slots -ℤ pos 1) *ℤ pos min_bid in
    let available =
      pos total_budget
      -ℤ pos snapshot.spent
      -ℤ reserved_for_min_bids
      -ℤ pos snapshot.leading_commitment in
    max_ℤ (pos 0) available
