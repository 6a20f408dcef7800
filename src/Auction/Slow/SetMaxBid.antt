-- ===== src/Auction/Slow/SetMaxBid.antt =====
-- modules/drafts/auction/slow-auction.service.ts, `setMaxBid`: one transaction under the roster's
-- lock, with the lot's row locked; an error rolls everything back.
use ht_mvp_backend.Prelude.{
  ℕ, ◌+◌, ◌-◌, ◌*◌, Bool, true, false, not, ◌&&◌, String, Option, none, some, List, [], ◌==◌, ltb,
  leb, ltb_ℤ, pos, if◌then◌else◌,
}
use ht_mvp_backend.Auction.Budget.{calculate_max_affordable_bid}
use ht_mvp_backend.Auction.Pricing.{OutbidNotification}
use ht_mvp_backend.Auction.Slow.{
  AuctionLot, AuctionDb, League, Env, SlowAuctionSettings, Result, ok, err, ◌>>=◌, ◌>>◌, require,
  or_throw, get_settings, total_budget, roster_slots, lot_not_found, lot_not_active, wrong_draft,
  lot_expired, draft_not_found, league_not_found, below_min_bid, roster_full, unsafe_bid,
  unaffordable_bid, simultaneous_bid, type_error,
}
use ht_mvp_backend.Auction.Slow.Rows.{
  find_lot, update_lot, find_bid, upsert_bid, is_active, is_id, locked_budget_data, has_history,
  record_history,
}
use ht_mvp_backend.Auction.Slow.Resolve.{PriceResolutionResult, resolve_price_with_client}

pub record SetMaxBidResult : Type 0 where
  pub lot : AuctionLot
  pub outbid_notifications : List OutbidNotification

-- `if (idempotencyKey)`: an absent key and the empty one are falsy.
abbrev pub key_given : Option String → Bool
key_given none = false
key_given (some String.[]) = false
key_given (some (String.◌∷◌ c s)) = true

-- The result that a request with a key already seen is given again.
unfoldable pub replay : AuctionDb → ℕ → ℕ → Result (AuctionDb × SetMaxBidResult)
replay db lot_id roster_id = do
  lot ← or_throw (find_lot lot_id db.lots) type_error
  proxy_bid ← or_throw (find_bid lot_id roster_id db.proxy_bids) type_error
  ok (db, record { lot = lot; outbid_notifications = [] })

-- Steps 3 and 4: the minimum, the open slot, and the two budget tests.
unfoldable pub check_bid :
    Env → AuctionDb → SlowAuctionSettings → League → AuctionLot → ℕ → ℕ → ℕ → Result (Unit {0})
check_bid env db settings league lot draft_id roster_id max_bid = do
  require (leb settings.min_bid max_bid) below_min_bid
  budget ← locked_budget_data env db.lots draft_id roster_id
  let slots = roster_slots league
  require (ltb budget.won_count slots) roster_full
  let reserve = (slots - budget.won_count - 1) * settings.min_bid
  require (leb (max_bid + budget.spent + reserve) (total_budget league)) unsafe_bid
  require
      (not (
        ltb_ℤ
          (calculate_max_affordable_bid (total_budget league) slots budget lot.current_bid
            (is_id lot.current_bidder_roster_id roster_id) settings.min_bid)
          (pos max_bid)))
      unaffordable_bid

-- A second try on the row as it is now, if the first one lost a race.
unfoldable pub retry :
    AuctionDb
    → ℕ
    → SlowAuctionSettings
    → Result (AuctionDb × PriceResolutionResult)
    → Result (AuctionDb × PriceResolutionResult)
retry db lot_id settings (err simultaneous_bid) = do
  refreshed ← or_throw (find_lot lot_id db.lots) type_error
  require (is_active refreshed.status) lot_not_active
  resolve_price_with_client db refreshed settings none
retry db lot_id settings result = result

-- A change of leader restarts the bidding window.
unfoldable pub restart_window :
    ℕ → ℕ → SlowAuctionSettings → AuctionDb × PriceResolutionResult → AuctionDb × SetMaxBidResult
restart_window now lot_id settings (db, result) =
    let deadline = now + settings.bid_window_seconds * 1000 in
    if result.leader_changed
    then (
      record db { lots = update_lot lot_id (λ l. record l { bid_deadline = deadline }) db.lots },
      record {
        lot = record (result.updated_lot) { bid_deadline = deadline };
        outbid_notifications = result.outbid_notifications;
      },
    )
    else (
      db,
      record { lot = result.updated_lot; outbid_notifications = result.outbid_notifications },
    )

-- The rows that a bid writes before the price is resolved.
unfoldable pub write_bid : ℕ → AuctionDb → ℕ → ℕ → ℕ → Option String → AuctionDb
write_bid now db lot_id roster_id max_bid key = record db {
  proxy_bids =
      upsert_bid
        (record { lot_id = lot_id; roster_id = roster_id; max_bid = max_bid; created_at = now })
        db.proxy_bids;
  bid_history =
      record_history
        (record {
          lot_id = lot_id;
          roster_id = roster_id;
          bid_amount = max_bid;
          is_proxy = true;
          idempotency_key = key;
        })
        db.bid_history;
}

-- Steps 1 to 4: the lot as it was read, and the draft's settings, if the bid may be placed.
unfoldable pub validate_bid :
    Env → ℕ → AuctionDb → ℕ → ℕ → ℕ → ℕ → Result (AuctionLot × SlowAuctionSettings)
unfolding check_bid
validate_bid env now db draft_id lot_id roster_id max_bid = do
  lot ← or_throw (find_lot lot_id db.lots) lot_not_found
  require (is_active lot.status) lot_not_active
  require (lot.draft_id == draft_id) wrong_draft
  require (ltb now lot.bid_deadline) lot_expired
  draft ← or_throw (env.find_draft draft_id) draft_not_found
  league ← or_throw (env.find_league draft.league_id) league_not_found
  check_bid env db (get_settings draft) league lot draft_id roster_id max_bid
  ok (lot, get_settings draft)

-- Steps 5 and 6: the rows of the bid, the price, and the bidding window.
unfoldable pub commit_bid :
    ℕ
    → AuctionDb
    → AuctionLot
    → SlowAuctionSettings
    → ℕ
    → ℕ
    → ℕ
    → Option String
    → Result (AuctionDb × SetMaxBidResult)
unfolding retry restart_window
commit_bid now db lot settings lot_id roster_id max_bid key = do
  let db' = write_bid now db lot_id roster_id max_bid key
  result ← retry db' lot_id settings (resolve_price_with_client db' lot settings none)
  ok (restart_window now lot_id settings result)

unfoldable pub place_bid :
    Env → ℕ → AuctionDb → ℕ → ℕ → ℕ → ℕ → Option String → Result (AuctionDb × SetMaxBidResult)
place_bid env now db draft_id lot_id roster_id max_bid key = do
  (lot, settings) ← validate_bid env now db draft_id lot_id roster_id max_bid
  commit_bid now db lot settings lot_id roster_id max_bid key

unfoldable pub set_max_bid :
    Env → ℕ → AuctionDb → ℕ → ℕ → ℕ → ℕ → Option String → Result (AuctionDb × SetMaxBidResult)
unfolding replay place_bid
set_max_bid env now db draft_id lot_id roster_id max_bid key =
    if key_given key && has_history lot_id roster_id key db.bid_history
    then replay db lot_id roster_id
    else place_bid env now db draft_id lot_id roster_id max_bid key
