-- ===== src/Auction/Slow/Resolve.antt =====
-- modules/drafts/auction/auction-price-resolver.ts: fetch the proxy bids, price them, and write the
-- result if the lot is still as it was read.
use ht_mvp_backend.Prelude.{
  ℕ, Bool, true, false, ◌&&◌, ◌||◌, Option, none, some, List, [], ◌∷◌, map, ◌==◌, if◌then◌else◌,
}
use ht_mvp_backend.Auction.Pricing.{
  ProxyBidSnapshot, OutbidNotification, PriceResolutionInput, PriceResolutionOutput,
  resolve_second_price,
}
use ht_mvp_backend.Auction.Slow.{
  AuctionLot, AuctionProxyBid, AuctionDb, SlowAuctionSettings, Result, ok, err, simultaneous_bid,
  or_else,
}
use ht_mvp_backend.Auction.Slow.Rows.{find_lot, update_lot, same_id, is_active, bids_of_lot}

pub record PriceResolutionResult : Type 0 where
  pub updated_lot : AuctionLot
  pub outbid_notifications : List OutbidNotification
  pub leader_changed : Bool
  pub price_changed : Bool

abbrev pub to_snapshot : AuctionProxyBid → ProxyBidSnapshot
to_snapshot b = record { roster_id = b.roster_id; max_bid = b.max_bid }

abbrev pub resolution_input : AuctionDb → AuctionLot → SlowAuctionSettings → PriceResolutionInput
resolution_input db lot settings = record {
  lot_id = lot.id;
  current_bid = lot.current_bid;
  current_bidder_roster_id = lot.current_bidder_roster_id;
  proxy_bids = map to_snapshot (bids_of_lot lot.id db.proxy_bids);
  min_bid = settings.min_bid;
  min_increment = settings.min_increment;
}

-- WHERE id = $1 AND current_bid = $6 AND current_bidder_roster_id IS NOT DISTINCT FROM $7
--   AND status = 'active'
abbrev pub is_unchanged : AuctionLot → AuctionLot → Bool
is_unchanged read row =
    row.current_bid == read.current_bid
    && (same_id row.current_bidder_roster_id read.current_bidder_roster_id && is_active row.status)

-- SET current_bidder_roster_id = $2, current_bid = $3, bid_count = $4, bid_deadline = $5
abbrev pub write_resolution : PriceResolutionOutput → ℕ → AuctionLot → AuctionLot
write_resolution out deadline row = record row {
  current_bidder_roster_id = some out.new_leader;
  current_bid = out.new_price;
  bid_count = out.new_bid_count;
  bid_deadline = deadline;
}

-- The UPDATE … RETURNING, and the history row; no row is an error.
unfoldable pub write_price :
    AuctionDb
    → AuctionLot
    → PriceResolutionOutput
    → ℕ
    → Option AuctionLot
    → Result (AuctionDb × PriceResolutionResult)
write_price db lot out deadline none = err simultaneous_bid
write_price db lot out deadline (some row) =
    if is_unchanged lot row
    then ok (
      record db {
        lots = update_lot lot.id (write_resolution out deadline) db.lots;
        bid_history =
            record {
              lot_id = lot.id;
              roster_id = out.new_leader;
              bid_amount = out.new_price;
              is_proxy = true;
              idempotency_key = none;
            }
            ∷ db.bid_history;
      },
      record {
        updated_lot = write_resolution out deadline row;
        outbid_notifications = out.outbid_notifications;
        leader_changed = out.leader_changed;
        price_changed = out.price_changed;
      },
    )
    else err simultaneous_bid

unfoldable pub apply_resolution :
    AuctionDb
    → AuctionLot
    → Option ℕ
    → Option PriceResolutionOutput
    → Result (AuctionDb × PriceResolutionResult)
unfolding write_price
apply_resolution db lot new_bid_deadline none = ok (
  db,
  record {
    updated_lot = lot;
    outbid_notifications = [];
    leader_changed = false;
    price_changed = false;
  },
)
apply_resolution db lot new_bid_deadline (some out) =
    if out.leader_changed || out.price_changed
    then write_price db lot out (or_else new_bid_deadline lot.bid_deadline)
        (find_lot lot.id db.lots)
    else ok (
      db,
      record {
        updated_lot = lot;
        outbid_notifications = out.outbid_notifications;
        leader_changed = out.leader_changed;
        price_changed = out.price_changed;
      },
    )

unfoldable pub resolve_price_with_client :
    AuctionDb
    → AuctionLot
    → SlowAuctionSettings
    → Option ℕ
    → Result (AuctionDb × PriceResolutionResult)
unfolding apply_resolution
resolve_price_with_client db lot settings new_bid_deadline =
    apply_resolution db lot new_bid_deadline
      (resolve_second_price (resolution_input db lot settings) lot.bid_count)
