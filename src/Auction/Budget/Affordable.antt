-- ===== src/Auction/Budget/Affordable.antt =====
-- What the budget formulas promise: a bid that they allow leaves the minimum for every open slot.
use ht_mvp_backend.Prelude.{
  ℕ, ◌+◌, ◌-◌, ◌*◌, ◌/◌, ◌≤◌, ◌≡◌, ◌↔◌, refl, ◌||◌, Bool, true, false, ℤ, pos, ◌-ℤ◌, ◌*ℤ◌, ◌≤ℤ◌,
  max_ℤ, min_ℤ, leb_ℤ, arith, if◌then◌else◌, int_laws, pos_part,
}
use ht_mvp_backend.Auction.Budget.{
  RosterBudgetSnapshot, calculate_max_affordable_bid, can_afford_min_bid,
  calculate_fallback_max_bid, compute_available_budget,
}

-- Dollars held back for the slots that stay open once the current lot is won.
abbrev pub reserve : ℕ → ℕ → ℕ → ℕ
reserve roster_slots won_count min_bid = (roster_slots - won_count - 1) * min_bid

-- The reserve as the code computes it.
reserved_lem :
    (slots won m : ℕ)
    → max_ℤ (pos 0) (pos slots -ℤ pos won -ℤ pos 1) *ℤ pos m ≡ pos (reserve slots won m)
unfolding max_ℤ ◌-ℤ◌ ◌*ℤ◌
reserved_lem slots won m = ground arith

-- `m` itself, or the lower of two bounds floored at `m`.
fallback_bounds :
    (give_up : Bool) (m legal spread affordable : ℤ)
    → legal ≡ affordable
    → leb_ℤ m affordable ≡ true
    → (m ≤ℤ (if give_up then m else max_ℤ m (min_ℤ legal spread)))
      × ((if give_up then m else max_ℤ m (min_ℤ legal spread)) ≤ℤ affordable)
unfolding max_ℤ min_ℤ
fallback_bounds give_up m legal spread affordable e h = rw e (ground arith)

regroup : (a b c d : ℤ) → a -ℤ b -ℤ c -ℤ d ≡ a -ℤ b -ℤ d -ℤ c
regroup a b c d = omega int_laws

module _ (total slots : ℕ) (snapshot : RosterBudgetSnapshot) where
  open snapshot use {spent, won_count, leading_commitment}

  -- A bid is affordable exactly when the money already spent, the other commitments, the bid and
  -- the reserve for the open slots fit in the budget.
  pub affordable_iff :
      (lot_bid : ℕ) (is_leading : Bool) (min_bid bid : ℕ)
      → (pos bid ≤ℤ calculate_max_affordable_bid total slots snapshot lot_bid is_leading min_bid)
        ↔ (spent + leading_commitment + bid + reserve slots won_count min_bid
            ≤ total + (if is_leading then lot_bid else 0))
  unfolding calculate_max_affordable_bid
  affordable_iff lot_bid true min_bid bid =
      rw (reserved_lem slots won_count min_bid) (λ h. omega int_laws, λ h. omega int_laws)
  affordable_iff lot_bid false min_bid bid =
      rw (reserved_lem slots won_count min_bid) (λ h. omega int_laws, λ h. omega int_laws)

  pub can_afford-calculate_max :
      (min_bid : ℕ)
      → can_afford_min_bid total slots snapshot min_bid
        ≡ leb_ℤ (pos min_bid) (calculate_max_affordable_bid total slots snapshot 0 false min_bid)
  unfolding can_afford_min_bid calculate_max_affordable_bid
  can_afford-calculate_max min_bid = refl

  -- The fallback bid of an absent nominator is at least the minimum, and never above what the
  -- nominator can afford on a new lot, provided the minimum itself is affordable.
  pub fallback_affordable :
      (min_bid : ℕ)
      → can_afford_min_bid total slots snapshot min_bid ≡ true
      → (pos min_bid ≤ℤ calculate_fallback_max_bid total slots snapshot min_bid)
        × (calculate_fallback_max_bid total slots snapshot min_bid
            ≤ℤ calculate_max_affordable_bid total slots snapshot 0 false min_bid)
  unfolding can_afford_min_bid calculate_max_affordable_bid calculate_fallback_max_bid
  fallback_affordable min_bid h =
      let remaining = pos total -ℤ pos spent -ℤ pos leading_commitment in
      let slots_left = pos slots -ℤ pos won_count in
      let kept = max_ℤ (pos 0) (slots_left -ℤ pos 1) *ℤ pos min_bid in
      fallback_bounds (leb_ℤ slots_left (pos 0) || leb_ℤ remaining (pos 0)) (pos min_bid)
        (remaining -ℤ kept) (pos (pos_part remaining / pos_part slots_left * 2))
        (pos total -ℤ pos spent -ℤ kept -ℤ pos leading_commitment)
        (regroup (pos total) (pos spent) (pos leading_commitment) kept) h

  -- What is shown as available is the affordable bid on a new lot, never below zero.
  pub available-eq_max_affordable :
      (min_bid : ℕ)
      → compute_available_budget total slots snapshot min_bid
        ≡ max_ℤ (pos 0) (calculate_max_affordable_bid total slots snapshot 0 false min_bid)
  unfolding compute_available_budget calculate_max_affordable_bid
  available-eq_max_affordable min_bid = refl
