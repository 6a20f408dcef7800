-- ===== src/Auction/Slow/Replay.antt =====
-- Idempotency keys: a repeated bid is answered without being placed again, until the lot is settled.
use ht_mvp_backend.Prelude.{
  ℕ, ◌≡◌, refl, true, String, Option, none, Option-cases, inl, inr, List, [], ◌∷◌, arith,
}
use ht_mvp_backend.Auction.Slow.{AuctionLot, AuctionDb, AuctionProxyBid, Env, err, type_error}
use ht_mvp_backend.Auction.Slow.Rows.{find_lot, update_lot, find_bid, has_history, delete_bids}
use ht_mvp_backend.Auction.Slow.SetMaxBid.{set_max_bid, replay, key_given}
use ht_mvp_backend.Auction.Slow.Settle.{award, mark_won}

find_bid-delete_bids :
    (lot_id r : ℕ) (bs : List AuctionProxyBid) → find_bid lot_id r (delete_bids lot_id bs) ≡ none
unfolding find_bid delete_bids
find_bid-delete_bids lot_id r [] = refl
find_bid-delete_bids lot_id r (b ∷ bs) = ground (arith, find_bid-delete_bids lot_id r bs)

module _ (env : Env) (now : ℕ) (db : AuctionDb) (draft_id roster_id max_bid : ℕ)
    (key : Option String) where
  -- Once the lot has been awarded its proxy bids are gone, and a request whose key is on record
  -- for the lot and the roster ends in a read of a property of `undefined`.
  pub replayed_after_award :
      (lot : AuctionLot) (winner price : ℕ)
      → key_given key ≡ true
      → has_history lot.id roster_id key db.bid_history ≡ true
      → set_max_bid env now (award db lot winner price) draft_id lot.id roster_id max_bid key
        ≡ err type_error
  unfolding set_max_bid replay award
  replayed_after_award lot winner price given seen =
      elim (Option-cases (find_lot lot.id (update_lot lot.id (mark_won winner price) db.lots))) [
        | inl e ↦ rw (given, seen, e)
        | inr (l, e) ↦
            rw (given, seen, e) (rw (find_bid-delete_bids lot.id roster_id db.proxy_bids))
      ]
