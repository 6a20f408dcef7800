-- ===== src/Auction/Slow/Rows.antt =====
-- The queries of the auction's repositories, over the rows of their tables.
use text.Mathlib.Text.{◌==◌ as str_eq}
use ht_mvp_backend.Prelude.{
  ℕ, ◌+◌, Bool, true, false, not, ◌&&◌, String, Option, none, some, List, [], ◌∷◌, ◌==◌, find, any,
  keep, sort, ℤ, pos, ◌-ℤ◌, if◌then◌else◌,
}
use ht_mvp_backend.Auction.Budget.{RosterBudgetSnapshot}
use ht_mvp_backend.Auction.Slow.{
  LotStatus, active, won, AuctionLot, AuctionProxyBid, AuctionBidHistory, AuctionPick, Env, Result,
  ok, require, query_refused, ◌>>◌,
}

abbrev pub is_active : LotStatus → Bool
is_active active = true
is_active _ = false

abbrev pub is_won : LotStatus → Bool
is_won won = true
is_won _ = false

-- `nullable = id`, which is not true of NULL
abbrev pub is_id : Option ℕ → ℕ → Bool
is_id none r = false
is_id (some n) r = n == r

-- IS NOT DISTINCT FROM
abbrev pub same_id : Option ℕ → Option ℕ → Bool
same_id none none = true
same_id (some a) (some b) = a == b
same_id _ _ = false

abbrev pub same_key : Option String → Option String → Bool
same_key (some a) (some b) = str_eq a b
same_key _ _ = false

-- SELECT * FROM auction_lots WHERE id = $1
abbrev pub find_lot : ℕ → List AuctionLot → Option AuctionLot
find_lot id [] = none
find_lot id (l ∷ ls) = if l.id == id then some l else find_lot id ls

-- UPDATE auction_lots SET … WHERE id = $1
abbrev pub update_lot : ℕ → (AuctionLot → AuctionLot) → List AuctionLot → List AuctionLot
update_lot id f [] = []
update_lot id f (l ∷ ls) = (if l.id == id then f l else l) ∷ update_lot id f ls

-- SUM(CASE WHEN status = 'won' AND winning_roster_id = $2 THEN winning_bid ELSE 0 END)
unfoldable pub spent_on : ℕ → AuctionLot → ℕ
spent_on roster_id l =
    if is_won l.status && is_id l.winning_roster_id roster_id
    then elim l.winning_bid [ none ↦ 0 | some b ↦ b ]
    else 0

-- COUNT(CASE WHEN status = 'won' AND winning_roster_id = $2 THEN 1 END)
unfoldable pub counts_as_won : ℕ → AuctionLot → ℕ
counts_as_won roster_id l = if is_won l.status && is_id l.winning_roster_id roster_id then 1 else 0

-- SUM(CASE WHEN status = 'active' AND current_bidder_roster_id = $2 THEN current_bid ELSE 0 END)
unfoldable pub leads_with : ℕ → AuctionLot → ℕ
leads_with roster_id l =
    if is_active l.status && is_id l.current_bidder_roster_id roster_id then l.current_bid else 0

-- A sum over the lots of one draft.
abbrev pub sum_lots : ℕ → (AuctionLot → ℕ) → List AuctionLot → ℕ
sum_lots draft_id f [] = 0
sum_lots draft_id f (l ∷ ls) = (if l.draft_id == draft_id then f l else 0) + sum_lots draft_id f ls

unfoldable pub get_roster_budget_data : List AuctionLot → ℕ → ℕ → RosterBudgetSnapshot
unfolding spent_on counts_as_won leads_with
get_roster_budget_data lots draft_id roster_id = record {
  spent = sum_lots draft_id (spent_on roster_id) lots;
  won_count = sum_lots draft_id (counts_as_won roster_id) lots;
  leading_commitment = sum_lots draft_id (leads_with roster_id) lots;
}

-- getRosterBudgetDataWithClient: the same sums with FOR UPDATE
abbrev pub locked_budget_data : Env → List AuctionLot → ℕ → ℕ → Result RosterBudgetSnapshot
locked_budget_data env lots draft_id roster_id = do
  require env.locks_aggregates query_refused
  ok (get_roster_budget_data lots draft_id roster_id)

-- ORDER BY max_bid DESC, created_at ASC
abbrev pub compare_bids : AuctionProxyBid → AuctionProxyBid → ℤ
compare_bids a b =
    if a.max_bid == b.max_bid
    then pos a.created_at -ℤ pos b.created_at
    else pos b.max_bid -ℤ pos a.max_bid

unfoldable pub bids_of_lot : ℕ → List AuctionProxyBid → List AuctionProxyBid
bids_of_lot lot_id bids = sort compare_bids (keep (λ b. b.lot_id == lot_id) bids)

unfoldable pub find_bid : ℕ → ℕ → List AuctionProxyBid → Option AuctionProxyBid
find_bid lot_id roster_id = find (λ b. b.lot_id == lot_id && b.roster_id == roster_id)

-- INSERT … ON CONFLICT (lot_id, roster_id) DO UPDATE SET max_bid: the row keeps its created_at.
unfoldable pub upsert_bid : AuctionProxyBid → List AuctionProxyBid → List AuctionProxyBid
upsert_bid bid [] = bid ∷ []
upsert_bid bid (b ∷ bs) =
    if b.lot_id == bid.lot_id && b.roster_id == bid.roster_id
    then record b { max_bid = bid.max_bid } ∷ bs
    else b ∷ upsert_bid bid bs

-- DELETE FROM auction_proxy_bids WHERE lot_id = $1
unfoldable pub delete_bids : ℕ → List AuctionProxyBid → List AuctionProxyBid
delete_bids lot_id = keep (λ b. not (b.lot_id == lot_id))

unfoldable pub has_history : ℕ → ℕ → Option String → List AuctionBidHistory → Bool
has_history lot_id roster_id key =
    any (λ h. h.lot_id == lot_id && h.roster_id == roster_id && same_key h.idempotency_key key)

-- INSERT … ON CONFLICT (lot_id, roster_id, idempotency_key) DO NOTHING
unfoldable pub record_history : AuctionBidHistory → List AuctionBidHistory → List AuctionBidHistory
unfolding has_history
record_history h hs = if has_history h.lot_id h.roster_id h.idempotency_key hs then hs else h ∷ hs

unfoldable pub is_player_drafted : ℕ → ℕ → List AuctionPick → Bool
is_player_drafted draft_id player_id = any (λ p. p.draft_id == draft_id && p.player_id == player_id)
