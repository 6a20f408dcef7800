-- ===== src/Trades/Overwritten.antt =====
-- The unconditional update of cancelTrade against transactions that do not take the TRADE lock.
use ht_mvp_backend.Prelude.{ℕ, ◌≡◌, true, none, some, List, arith, refl, inr}
use ht_mvp_backend.Trades.{
  pending, cancelled, Trade, TradeDb, find_by_id, find_roster, update_status, matches, with_status,
}
use ht_mvp_backend.Trades.Resolve.{with_trades, is_user, cancel_trade}
use ht_mvp_backend.Trades.Lifecycle.{found_id}
use ht_mvp_backend.Trades.Reviewed.{hits}

overwrites :
    (trade_id now : ℕ) (xs : List Trade) (u : Trade)
    → find_by_id trade_id xs ≡ some u
    → (zs : List Trade) × (update_status trade_id cancelled none now xs ≡ some zs)
      × (find_by_id trade_id zs ≡ some (with_status cancelled now u))
unfolding update_status
overwrites trade_id now xs u h =
    let id = found_id trade_id xs u h in
    let self : matches trade_id none u ≡ true = ground (arith, id) in
    let hit =
      hits (matches trade_id none) (with_status cancelled now) trade_id u xs (λ x. refl) h self in
    (_, hit.0, hit.1)

-- When the proposer cancels a trade that is pending at both reads, the trade ends up cancelled whatever a
-- transaction without the TRADE lock made of its row in between: also when that one expired it.
pub cancel_overwrites :
    (trade_id user_id now : ℕ) (meanwhile : List Trade → List Trade) (seen db : TradeDb)
    (trade t u : Trade)
    → find_by_id trade_id seen.trades ≡ some trade
    → is_user user_id (find_roster trade.proposer_roster_id seen.rosters) ≡ true
    → trade.status ≡ pending
    → find_by_id trade_id db.trades ≡ some t
    → t.status ≡ pending
    → find_by_id trade_id (meanwhile db.trades) ≡ some u
    → (zs : List Trade) × (cancel_trade trade_id user_id now meanwhile seen db
        ≡ inr (with_trades db zs))
      × (find_by_id trade_id zs ≡ some (with_status cancelled now u))
unfolding cancel_trade
cancel_overwrites trade_id user_id now meanwhile seen db trade t u hs ok s h s' hu =
    let w = overwrites trade_id now (meanwhile db.trades) u hu in
    rw (hs, ok, s, h, s', w.1) (w.0, refl, w.2)
