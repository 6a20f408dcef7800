-- ===== src/Auction/Slow/Prices.antt =====
-- modules/drafts/auction/slow-auction.service.ts, `settleLot`: what a bidder is charged.
use ht_mvp_backend.Prelude.{◌≤◌, ◌<◌, ◌≡◌, ◌↔◌, List, [], ◌∷◌, arith}
use ht_mvp_backend.Auction.Slow.{AuctionLot, AuctionProxyBid, SlowAuctionSettings}
use ht_mvp_backend.Auction.Slow.Settle.{candidate_price}

-- A candidate whose offer is at least the minimum is charged no more than it offered exactly when
-- the lot's current bid is within the offer; otherwise it is charged the current bid. The charge is
-- never below the current bid.
pub charged_within_offer_iff :
    (settings : SlowAuctionSettings) (lot : AuctionLot) (candidate : AuctionProxyBid)
    (rest : List AuctionProxyBid)
    → settings.min_bid ≤ candidate.max_bid
    → let price = candidate_price settings lot candidate rest in
      ((price ≤ candidate.max_bid) ↔ (lot.current_bid ≤ candidate.max_bid))
      × (candidate.max_bid < lot.current_bid → price ≡ lot.current_bid)
      × (lot.current_bid ≤ price)
unfolding candidate_price
charged_within_offer_iff settings lot candidate [] h =
    (ground arith, λ k. ground arith, ground arith)
charged_within_offer_iff settings lot candidate (next ∷ rest) h =
    (ground arith, λ k. ground arith, ground arith)
