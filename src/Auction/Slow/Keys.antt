-- ===== src/Auction/Slow/Keys.antt =====
-- A settlement keeps the ids of the lots.
use ht_mvp_backend.Prelude.{ℕ, ◌≡◌, refl, List, [], ◌∷◌, Bool-cases, inl, inr, Option-cases}
use ht_mvp_backend.Auction.Slow.{
  AuctionLot, AuctionProxyBid, AuctionDb, League, Env, SlowAuctionSettings, after, get_settings,
}
use ht_mvp_backend.Auction.Slow.Rows.{find_lot, bids_of_lot, is_active}
use ht_mvp_backend.Auction.Slow.Settle.{
  settle_bids, settle_lot, try_bidders, award, pass_lot, can_settle, mark_won, candidate_price,
}
use ht_mvp_backend.Auction.Slow.Ledger.{ids, ids-update}

-- A settlement touches no lot's id and creates none.
abbrev pub SameKeys : AuctionDb → AuctionDb → Type 0
SameKeys a b = (ids b.lots ≡ ids a.lots) × (b.next_lot_id ≡ a.next_lot_id)

try_bidders-SameKeys :
    (db : AuctionDb) (settings : SlowAuctionSettings) (league : League) (lot : AuctionLot)
    (bids : List AuctionProxyBid)
    → SameKeys db (try_bidders db settings league lot bids).0
unfolding try_bidders award pass_lot mark_won
try_bidders-SameKeys db settings league lot [] = (ids-update lot.id _ db.lots (λ l. refl), refl)
try_bidders-SameKeys db settings league lot (b ∷ bs) =
    elim (Bool-cases
      (can_settle db.lots settings league lot b.roster_id (candidate_price settings lot b bs))) [
        | inl fits ↦ rw (fits, try_bidders) (ids-update lot.id _ db.lots (λ l. refl), refl)
        | inr short ↦ rw (short, try_bidders) (try_bidders-SameKeys db settings league lot bs)
      ]

settle_bids-SameKeys :
    (env : Env) (db : AuctionDb) (lot : AuctionLot) (bids : List AuctionProxyBid)
    → SameKeys db (after db (settle_bids env db lot bids))
unfolding settle_bids
settle_bids-SameKeys env db lot [] = (ids-update lot.id _ db.lots (λ l. refl), refl)
settle_bids-SameKeys env db lot (b ∷ bs) = elim (Option-cases (env.find_draft lot.draft_id)) [
  | inl e ↦ rw e (refl, refl)
  | inr (dr, ed) ↦ elim (Option-cases (env.find_league dr.league_id)) [
    | inl e ↦ rw (ed, e) (refl, refl)
    | inr (lg, el) ↦ elim (Bool-cases env.locks_aggregates) [
      | inl e ↦ rw (ed, el, e) (try_bidders-SameKeys db (get_settings dr) lg lot (b ∷ bs))
      | inr e ↦ rw (ed, el, e) (refl, refl)
    ]
  ]
]

pub settle_lot-SameKeys :
    (env : Env) (db : AuctionDb) (lot_id : ℕ) → SameKeys db (after db (settle_lot env db lot_id))
unfolding settle_lot
settle_lot-SameKeys env db lot_id = elim (Option-cases (find_lot lot_id db.lots)) [
  | inl missing ↦ rw missing (refl, refl)
  | inr (lot, found) ↦ elim (Bool-cases (is_active lot.status)) [
    | inl act ↦ rw (found, act) (settle_bids-SameKeys env db lot (bids_of_lot lot_id db.proxy_bids))
    | inr idle ↦ rw (found, idle) (refl, refl)
  ]
]
