-- ===== src/Auction/Examples.antt =====
-- The theorems on the auction at concrete inputs.
use ht_mvp_backend.Prelude.{
  ℕ, ◌+◌, ◌-◌, ◌*◌, ◌≤◌, ◌<◌, ◌≡◌, ◌↔◌, refl, true, false, String, Option, none, some, List, [],
  ◌∷◌, pos, ◌≤ℤ◌, ◌-ℤ◌, ◌*ℤ◌, max_ℤ, if◌then◌else◌, arith, All, max, length, ltb,
}
use ht_mvp_backend.Auction.Budget.{
  RosterBudgetSnapshot, calculate_max_affordable_bid, calculate_fallback_max_bid,
  can_afford_min_bid,
}
use ht_mvp_backend.Auction.Budget.Affordable.{reserve, fallback_affordable}
use ht_mvp_backend.Auction.Pricing.{
  ProxyBidSnapshot, PriceResolutionInput, PriceResolutionOutput, resolve_second_price,
}
use ht_mvp_backend.Auction.Pricing.SecondPrice.{next_input, runner_up, winner_pays_second_price}
use ht_mvp_backend.Auction.Slow.{
  AuctionLot, AuctionProxyBid, AuctionDb, Draft, League, Env, active, in_progress, auction, ok, err,
  type_error, get_settings, roster_slots,
}
use ht_mvp_backend.Auction.Slow.Rows.{
  find_lot, find_bid, is_active, is_id, get_roster_budget_data, has_history,
}
use ht_mvp_backend.Auction.Slow.SetMaxBid.{validate_bid, set_max_bid}
use ht_mvp_backend.Auction.Slow.Settle.{award, candidate_price}
use ht_mvp_backend.Auction.Slow.Prices.{charged_within_offer_iff}
use ht_mvp_backend.Auction.Slow.Ledger.{ids}
use ht_mvp_backend.Auction.Slow.Bids.{validate_bid_iff}
use ht_mvp_backend.Auction.Slow.Run.{Command, nominates, bids, settles, run, auction_solvent}
use ht_mvp_backend.Auction.Slow.Refused.{refused_auction_stands}
use ht_mvp_backend.Auction.Slow.Replay.{replayed_after_award}

abbrev snapshot : RosterBudgetSnapshot
snapshot = record { spent = 40; won_count = 3; leading_commitment = 10 }

fallback_affordable_example :
    (pos 2 ≤ℤ calculate_fallback_max_bid 100 8 snapshot 2)
    × (calculate_fallback_max_bid 100 8 snapshot 2
        ≤ℤ calculate_max_affordable_bid 100 8 snapshot 0 false 2)
unfolding can_afford_min_bid ◌-ℤ◌ ◌*ℤ◌ max_ℤ
fallback_affordable_example = fallback_affordable 100 8 snapshot 2 refl

-- roster 7 leads with 5, when roster 8 offers 30 against its 20
abbrev first_bid : ProxyBidSnapshot
first_bid = record { roster_id = 8; max_bid = 30 }

abbrev second_bid : ProxyBidSnapshot
second_bid = record { roster_id = 7; max_bid = 20 }

abbrev price_input : PriceResolutionInput
price_input = record {
  lot_id = 1;
  current_bid = 5;
  current_bidder_roster_id = some 7;
  proxy_bids = first_bid ∷ second_bid ∷ [];
  min_bid = 1;
  min_increment = 2;
}

abbrev price_output : PriceResolutionOutput
price_output = record {
  new_leader = 8;
  new_price = 22;
  leader_changed = true;
  price_changed = true;
  new_bid_count = 4;
  outbid_notifications =
      record { roster_id = 7; lot_id = 1; previous_bid = 5; new_leading_bid = 22 } ∷ [];
}

price_resolved : resolve_second_price price_input 3 ≡ some price_output
unfolding resolve_second_price
price_resolved = refl

winner_pays_second_price_example :
    (price_output.new_leader ≡ 8)
    × All (λ b. b.max_bid ≤ 30) (second_bid ∷ [])
    × (5 ≤ price_output.new_price)
    × (price_output.new_price ≤ 30)
    × (runner_up (second_bid ∷ []) ≤ price_output.new_price)
    × (second_bid ∷ [] ≡ [] → 1 ≤ price_output.new_price)
    × (0 < length (second_bid ∷ [])
        → price_output.new_price ≤ max 5 (runner_up (second_bid ∷ []) + 2))
winner_pays_second_price_example =
    winner_pays_second_price price_input 3 first_bid (second_bid ∷ []) price_output refl
      price_resolved (omega arith, tt) (omega arith) (omega arith)

abbrev again : PriceResolutionOutput
again = record {
  new_leader = 8;
  new_price = 22;
  leader_changed = false;
  price_changed = false;
  new_bid_count = 4;
  outbid_notifications = [];
}

resolved_again : resolve_second_price (next_input price_input price_output) 4 ≡ some again
unfolding resolve_second_price
resolved_again = refl

abbrev draft : Draft
draft = record {
  id = 1;
  league_id = 4;
  status = in_progress;
  draft_type = auction;
  settings = record {
    bid_window_seconds = none;
    max_active_nominations_per_team = none;
    max_active_nominations_global = none;
    daily_nomination_limit = some 1;
    min_bid = none;
    min_increment = none;
  };
}

abbrev league : League
league = record { auction_budget = some 100; roster_slots = some 3 }

-- the Eastern day starts five hours after the UTC day; the server takes FOR UPDATE with aggregates
abbrev env : Env
env = record {
  find_draft = λ _. some draft;
  find_league = λ _. some league;
  player_exists = λ _. true;
  utc_day = λ t. if ltb t 18000000 then 1 else 2;
  eastern_day = λ t. 1;
  locks_aggregates = true;
}

abbrev empty_db : AuctionDb
empty_db = record {
  lots = [];
  proxy_bids = [];
  bid_history = [];
  draft_picks = [];
  draft_queue = [];
  next_lot_id = 1;
}

abbrev commands : List (ℕ × Command)
commands =
    (1000, nominates 1 7 50 none)
    ∷ (2000, bids 1 1 7 30 none)
    ∷ (3000, bids 1 1 8 20 none)
    ∷ (50000000, settles 1)
    ∷ []

auction_solvent_example :
    let b = get_roster_budget_data (run env empty_db commands).lots 1 7 in
    (b.won_count ≤ 3) × (b.spent + (3 - b.won_count) * 1 ≤ 100)
unfolding get_settings
auction_solvent_example =
    auction_solvent env 1 draft league refl refl empty_db commands 7 refl (omega arith)

abbrev key : Option String
key = some "k"

abbrev lot : AuctionLot
lot = record {
  id = 1;
  draft_id = 1;
  player_id = 50;
  nominator_roster_id = 7;
  current_bid = 1;
  current_bidder_roster_id = some 7;
  bid_count = 1;
  bid_deadline = 90000;
  status = active;
  winning_roster_id = none;
  winning_bid = none;
  nomination_date = 1;
  idempotency_key = none;
}

abbrev proxy_bid : AuctionProxyBid
proxy_bid = record { lot_id = 1; roster_id = 7; max_bid = 30; created_at = 2000 }

abbrev bid_db : AuctionDb
bid_db = record {
  lots = lot ∷ [];
  proxy_bids = proxy_bid ∷ [];
  bid_history =
      record { lot_id = 1; roster_id = 7; bid_amount = 30; is_proxy = true; idempotency_key = key }
      ∷ [];
  draft_picks = [];
  draft_queue = [];
  next_lot_id = 2;
}

lot_found : find_lot 1 bid_db.lots ≡ some lot
lot_found = refl

validate_bid_iff_example :
    let settings = get_settings draft in
    let budget = get_roster_budget_data bid_db.lots 1 8 in
    let held = reserve (roster_slots league) budget.won_count settings.min_bid in
    (validate_bid env 3000 bid_db 1 1 8 40 ≡ ok (lot, settings)) ↔ (
      (env.locks_aggregates ≡ true)
      × (is_active lot.status ≡ true)
      × (lot.draft_id ≡ 1)
      × (3000 < 90000)
      × (settings.min_bid ≤ 40)
      × (budget.won_count < 3)
      × (40 + budget.spent + held ≤ 100)
      × (budget.spent + budget.leading_commitment + 40 + held
          ≤ 100 + (if is_id lot.current_bidder_roster_id 8 then 1 else 0)))
validate_bid_iff_example =
    validate_bid_iff env 3000 bid_db 1 1 8 40 lot draft league lot_found refl refl

key_seen : has_history 1 7 key bid_db.bid_history ≡ true
unfolding has_history
key_seen = refl

bid_found : find_bid 1 7 bid_db.proxy_bids ≡ some proxy_bid
unfolding find_bid
bid_found = refl

replayed_after_award_example :
    set_max_bid env 4000 (award bid_db lot 7 1) 1 1 7 30 key ≡ err type_error
replayed_after_award_example = replayed_after_award env 4000 bid_db 1 7 30 key lot 7 1 refl key_seen

-- the second bidder of a lot whose first bidder cannot pay
charged_within_offer_iff_example :
    let price =
      candidate_price
        (get_settings draft)
        (record lot { current_bid = 22 })
        (record proxy_bid { max_bid = 20 })
        [] in
    ((price ≤ 20) ↔ (22 ≤ 20)) × (20 < 22 → price ≡ 22) × (22 ≤ price)
unfolding get_settings
charged_within_offer_iff_example =
    charged_within_offer_iff (get_settings draft) (record lot { current_bid = 22 })
      (record proxy_bid { max_bid = 20 }) [] (omega arith)

-- PostgreSQL
abbrev refusing : Env
refusing = record env { locks_aggregates = false }

refused_auction_stands_example :
    (ids (run refusing bid_db commands).lots ≡ ids bid_db.lots)
    × ((run refusing bid_db commands).draft_picks ≡ bid_db.draft_picks)
    × ((run refusing bid_db commands).bid_history ≡ bid_db.bid_history)
refused_auction_stands_example = refused_auction_stands refusing refl bid_db commands
