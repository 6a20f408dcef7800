-- ===== src/Auction/Nomination/Eligibility.antt =====
-- When a lot is opened for an absent nominator, the nominator has a free slot and the money.
use ht_mvp_backend.Prelude.{
  ℕ, ◌+◌, ◌<◌, ◌≤◌, ◌≡◌, ◌≢◌, ◌↔◌, Bool, true, false, leb_ℤ, ℤ, pos, ◌≤ℤ◌, arith,
}
use ht_mvp_backend.Auction.Budget.{RosterBudgetSnapshot, can_afford_min_bid}
use ht_mvp_backend.Auction.Budget.Affordable.{affordable_iff, can_afford-calculate_max, reserve}
use ht_mvp_backend.Auction.Nomination.{
  assess_nominator_eligibility, resolve_timeout_action, FastAuctionTimeoutAction,
  auto_skip_nominator, auto_nominate_no_open_bid, auto_nominate_and_open_bid, skip,
}

leb_ℤ_iff : (a b : ℤ) → (leb_ℤ a b ≡ true) ↔ (a ≤ℤ b)
leb_ℤ_iff a b = ground arith

module _ (snapshot : RosterBudgetSnapshot) (total slots min_bid : ℕ) where
  open snapshot use {spent, won_count, leading_commitment}

  can_afford_iff :
      (can_afford_min_bid total slots snapshot min_bid ≡ true)
      ↔ (spent + leading_commitment + min_bid + reserve slots won_count min_bid ≤ total + 0)
  can_afford_iff = rw (can_afford-calculate_max total slots snapshot min_bid) (
    λ h.
        (affordable_iff total slots snapshot 0 false min_bid min_bid).0
          ((leb_ℤ_iff (pos min_bid) _).0 h),
    λ h.
        (leb_ℤ_iff (pos min_bid) _).1
          ((affordable_iff total slots snapshot 0 false min_bid min_bid).1 h),
  )

  -- A roster is eligible exactly when it has an open slot and the minimum bid fits in its budget
  -- beside what it has spent, what it leads, and the reserve for the slots left after this one.
  pub eligible_iff :
      ((assess_nominator_eligibility snapshot total slots min_bid).eligible ≡ true) ↔ (
        (won_count < slots)
        × (spent + leading_commitment + min_bid + reserve slots won_count min_bid ≤ total))
  unfolding assess_nominator_eligibility
  eligible_iff = ground (arith, can_afford_iff)

  -- A timeout opens a lot exactly when the action is not to skip, a player can be nominated, and the
  -- nominator has an open slot and can pay the minimum.
  opens_lot_iff :
      (action : FastAuctionTimeoutAction) (has_player : Bool)
      → (resolve_timeout_action action has_player
            (assess_nominator_eligibility snapshot total slots min_bid)
          ≢ skip)
        ↔ ((action ≢ auto_skip_nominator)
            × (has_player ≡ true)
            × (won_count < slots)
            × (spent + leading_commitment + min_bid + reserve slots won_count min_bid ≤ total))
  unfolding resolve_timeout_action
  opens_lot_iff auto_skip_nominator has_player = ground arith
  opens_lot_iff auto_nominate_no_open_bid has_player = ground (arith, eligible_iff)
  opens_lot_iff auto_nominate_and_open_bid has_player = ground (arith, eligible_iff)
