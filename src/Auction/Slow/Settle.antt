-- ===== src/Auction/Slow/Settle.antt =====
-- modules/drafts/auction/slow-auction.service.ts, `settleLot`: the lot goes to the first bidder, in
-- the order of the bids, who has an open slot and the money; or it is passed.
use ht_mvp_backend.Prelude.{
  ℕ, ◌+◌, ◌-◌, ◌*◌, Bool, not, ◌&&◌, Option, none, some, List, [], ◌∷◌, ◌==◌, keep, ltb, leb, min,
  max, if◌then◌else◌,
}
use ht_mvp_backend.Auction.Slow.{
  AuctionLot, AuctionProxyBid, AuctionDb, League, Env, SlowAuctionSettings, Result, ok, ◌>>=◌, ◌>>◌,
  require, or_throw, get_settings, total_budget, roster_slots, won, passed, lot_not_found,
  lot_not_active, draft_not_found, league_not_found,
}
use ht_mvp_backend.Auction.Slow.Rows.{
  find_lot, update_lot, is_active, get_roster_budget_data, locked_budget_data, bids_of_lot,
  delete_bids,
}

pub record Winner : Type 0 where
  pub roster_id : ℕ
  pub amount : ℕ

-- The result is the lot's winner, or none when the lot is passed.
pub record SettlementResult : Type 0 where
  pub winner : Option Winner

-- The price for a candidate, given the bids below it: never under the lot's current bid.
unfoldable pub candidate_price :
    SlowAuctionSettings → AuctionLot → AuctionProxyBid → List AuctionProxyBid → ℕ
candidate_price settings lot candidate [] = max settings.min_bid lot.current_bid
candidate_price settings lot candidate (next ∷ rest) =
    max (min candidate.max_bid (next.max_bid + settings.min_increment)) lot.current_bid

-- The slot test, then the budget test.
unfoldable pub can_settle :
    List AuctionLot → SlowAuctionSettings → League → AuctionLot → ℕ → ℕ → Bool
can_settle lots settings league lot roster_id price =
    let budget = get_roster_budget_data lots lot.draft_id roster_id in
    let required_reserve = (roster_slots league - budget.won_count - 1) * settings.min_bid in
    ltb budget.won_count (roster_slots league)
    && leb (budget.spent + price + required_reserve) (total_budget league)

unfoldable pub mark_won : ℕ → ℕ → AuctionLot → AuctionLot
mark_won roster_id price l = record l {
  status = won;
  winning_roster_id = some roster_id;
  winning_bid = some price;
  current_bidder_roster_id = some roster_id;
  current_bid = price;
}

-- The UPDATE tests `status = 'active'` once more, on the row that is locked and was found active.
unfoldable pub award : AuctionDb → AuctionLot → ℕ → ℕ → AuctionDb
unfolding mark_won
award db lot roster_id price = record db {
  lots = update_lot lot.id (mark_won roster_id price) db.lots;
  draft_picks =
      record { draft_id = lot.draft_id; roster_id = roster_id; player_id = lot.player_id }
      ∷ db.draft_picks;
  draft_queue =
      keep (λ q. not (q.draft_id == lot.draft_id && q.player_id == lot.player_id)) db.draft_queue;
  proxy_bids = delete_bids lot.id db.proxy_bids;
}

unfoldable pub pass_lot : AuctionDb → AuctionLot → AuctionDb
pass_lot db lot = record db {
  lots = update_lot lot.id (λ l. record l { status = passed }) db.lots;
  proxy_bids = delete_bids lot.id db.proxy_bids;
}

-- The loop over the bids.
unfoldable pub try_bidders :
    AuctionDb
    → SlowAuctionSettings
    → League
    → AuctionLot
    → List AuctionProxyBid
    → AuctionDb × SettlementResult
unfolding can_settle
try_bidders db settings league lot [] = (pass_lot db lot, record { winner = none })
try_bidders db settings league lot (candidate ∷ rest) =
    let price = candidate_price settings lot candidate rest in
    if can_settle db.lots settings league lot candidate.roster_id price
    then (
      award db lot candidate.roster_id price,
      record { winner = some (record { roster_id = candidate.roster_id; amount = price }) },
    )
    else try_bidders db settings league lot rest

-- The first candidate's budget is read at once: a refused query throws before any bidder is tried.
unfoldable pub settle_bids :
    Env → AuctionDb → AuctionLot → List AuctionProxyBid → Result (AuctionDb × SettlementResult)
settle_bids env db lot [] = ok (
  record db { lots = update_lot lot.id (λ l. record l { status = passed }) db.lots },
  record { winner = none },
)
settle_bids env db lot (bid ∷ bids) = do
  draft ← or_throw (env.find_draft lot.draft_id) draft_not_found
  league ← or_throw (env.find_league draft.league_id) league_not_found
  budget ← locked_budget_data env db.lots lot.draft_id bid.roster_id
  ok (try_bidders db (get_settings draft) league lot (bid ∷ bids))

unfoldable pub settle_lot : Env → AuctionDb → ℕ → Result (AuctionDb × SettlementResult)
unfolding settle_bids
settle_lot env db lot_id = do
  lot ← or_throw (find_lot lot_id db.lots) lot_not_found
  require (is_active lot.status) lot_not_active
  settle_bids env db lot (bids_of_lot lot_id db.proxy_bids)
