-- ===== src/Auction/Slow/Refused.antt =====
-- The handlers on a server that refuses FOR UPDATE in a query of aggregates, as PostgreSQL does.
use ht_mvp_backend.Prelude.{
  ℕ, ◌≡◌, ◌∙◌, refl, false, not, ◌&&◌, List, [], ◌∷◌, Bool-cases, Option-cases, inl, inr, ltb, leb,
  ◌==◌,
}
use ht_mvp_backend.Auction.Slow.{
  AuctionLot, AuctionProxyBid, AuctionDb, Env, SlowAuctionSettings, get_settings, ok, after,
  not_in_progress, not_auction, player_not_found, already_drafted, draft_not_found,
  league_not_found, lot_not_found, lot_not_active, wrong_draft, lot_expired,
}
use ht_mvp_backend.Auction.Slow.Rows.{
  find_lot, find_bid, is_active, is_player_drafted, has_history, bids_of_lot,
}
use ht_mvp_backend.Auction.Slow.Nominate.{is_in_progress, is_auction, validate_nomination, nominate}
use ht_mvp_backend.Auction.Slow.SetMaxBid.{
  set_max_bid, validate_bid, check_bid, place_bid, replay, key_given,
}
use ht_mvp_backend.Auction.Slow.Settle.{settle_bids, settle_lot}
use ht_mvp_backend.Auction.Slow.Ledger.{ids, ids-update}
use ht_mvp_backend.Auction.Slow.Ensures.{
  Ensures, Ensures-bind, Ensures-or_throw, Ensures-require, after-Ensures,
}
use ht_mvp_backend.Auction.Slow.Run.{Command, nominates, bids, settles, step, run}

-- The same lots, picks and bids placed.
abbrev pub IsStanding : AuctionDb → AuctionDb → Type 0
IsStanding a b =
    (ids b.lots ≡ ids a.lots) × (b.draft_picks ≡ a.draft_picks) × (b.bid_history ≡ a.bid_history)

replay-IsStanding :
    (db : AuctionDb) (lot_id roster_id : ℕ)
    → Ensures (λ x. IsStanding db x.0) (replay db lot_id roster_id)
unfolding replay
replay-IsStanding db lot_id roster_id = elim (Option-cases (find_lot lot_id db.lots)) [
  | inl e ↦ rw e tt
  | inr (lot, e) ↦ elim (Option-cases (find_bid lot_id roster_id db.proxy_bids)) [
    | inl f ↦ rw (e, f) tt
    | inr (bid, f) ↦ rw (e, f) (refl, refl, refl)
  ]
]

module _ (env : Env) (refuses : env.locks_aggregates ≡ false) where
  nomination_refused :
      (P : SlowAuctionSettings → Type 0) (now : ℕ) (db : AuctionDb)
      (draft_id roster_id player_id : ℕ)
      → Ensures P (validate_nomination env now db draft_id roster_id player_id)
  unfolding validate_nomination
  nomination_refused P now db draft_id roster_id player_id =
      Ensures-or_throw P (env.find_draft draft_id) draft_not_found _ (λ draft e.
        Ensures-require P (is_in_progress draft.status) not_in_progress _ (λ a.
          Ensures-require P (is_auction draft.draft_type) not_auction _ (λ b.
            Ensures-require P (env.player_exists player_id) player_not_found _ (λ c.
              Ensures-require P (not (is_player_drafted draft_id player_id db.draft_picks))
                already_drafted _
                (λ g.
                  Ensures-or_throw P (env.find_league draft.league_id) league_not_found _
                    (λ league h. rw refuses tt))))))

  bid_refused :
      (P : AuctionLot × SlowAuctionSettings → Type 0) (now : ℕ) (db : AuctionDb)
      (draft_id lot_id roster_id max_bid : ℕ)
      → Ensures P (validate_bid env now db draft_id lot_id roster_id max_bid)
  unfolding validate_bid check_bid
  bid_refused P now db draft_id lot_id roster_id max_bid =
      Ensures-or_throw P (find_lot lot_id db.lots) lot_not_found _ (λ lot e.
        Ensures-require P (is_active lot.status) lot_not_active _ (λ a.
          Ensures-require P (lot.draft_id == draft_id) wrong_draft _ (λ b.
            Ensures-require P (ltb now lot.bid_deadline) lot_expired _ (λ c.
              Ensures-or_throw P (env.find_draft draft_id) draft_not_found _ (λ draft g.
                Ensures-or_throw P (env.find_league draft.league_id) league_not_found _ (λ league h.
                  elim (Bool-cases (leb (get_settings draft).min_bid max_bid)) [
                    | inl k ↦ rw (k, refuses) tt
                    | inr k ↦ rw k tt
                  ]))))))

  settle-IsStanding :
      (db : AuctionDb) (lot_id : ℕ) → IsStanding db (after db (settle_lot env db lot_id))
  unfolding settle_lot settle_bids
  settle-IsStanding db lot_id = elim (Option-cases (find_lot lot_id db.lots)) [
    | inl e ↦ rw e (refl, refl, refl)
    | inr (lot, e) ↦ elim (Bool-cases (is_active lot.status)) [
      | inl a ↦ rw (e, a) (settle lot (bids_of_lot lot_id db.proxy_bids))
      | inr a ↦ rw (e, a) (refl, refl, refl)
    ]
  ]
    where
      settle :
          (lot : AuctionLot) (bs : List AuctionProxyBid)
          → IsStanding db (after db (settle_bids env db lot bs))
      settle lot [] = (ids-update lot.id _ db.lots (λ l. refl), refl, refl)
      settle lot (b ∷ bs) = elim (Option-cases (env.find_draft lot.draft_id)) [
        | inl e ↦ rw e (refl, refl, refl)
        | inr (dr, ed) ↦ elim (Option-cases (env.find_league dr.league_id)) [
          | inl e ↦ rw (ed, e) (refl, refl, refl)
          | inr (lg, el) ↦ rw (ed, el, refuses) (refl, refl, refl)
        ]
      ]

  step-IsStanding : (db : AuctionDb) (c : ℕ × Command) → IsStanding db (step env db c)
  unfolding step nominate set_max_bid place_bid
  step-IsStanding db (now, nominates d r p key) =
      after-Ensures (IsStanding db) db (nominate env now db d r p key) (refl, refl, refl)
        (Ensures-bind (λ x. IsStanding db x.0) (validate_nomination env now db d r p) _
          (λ s e. refused s e (nomination_refused (λ s. ⊥) now db d r p)))
    where
      refused :
          {P : Type 0} (s : SlowAuctionSettings)
          → validate_nomination env now db d r p ≡ ok s
          → Ensures (λ s. ⊥) (validate_nomination env now db d r p)
          → P
      refused s e h = absurd (rw e at h)
  step-IsStanding db (now, bids d l r b key) =
      elim (Bool-cases (key_given key && has_history l r key db.bid_history)) [
        | inl e ↦ rw e (
            after-Ensures (IsStanding db) db (replay db l r) (refl, refl, refl)
              (replay-IsStanding db l r))
        | inr e ↦ rw e (
            after-Ensures (IsStanding db) db (place_bid env now db d l r b key) (refl, refl, refl)
              (Ensures-bind (λ x. IsStanding db x.0) (validate_bid env now db d l r b) _
                (λ s e. refused s e (bid_refused (λ s. ⊥) now db d l r b))))
      ]
    where
      refused :
          {P : Type 0} (s : AuctionLot × SlowAuctionSettings)
          → validate_bid env now db d l r b ≡ ok s
          → Ensures (λ s. ⊥) (validate_bid env now db d l r b)
          → P
      refused s e h = absurd (rw e at h)
  step-IsStanding db (now, settles l) = settle-IsStanding db l

  -- On a server that refuses FOR UPDATE in a query of aggregates, as PostgreSQL does, the auction stands
  -- still: whatever nominations, bids and settlements are called, no lot is made, no bid is recorded and
  -- no player is awarded.
  pub refused_auction_stands :
      (db : AuctionDb) (cs : List (ℕ × Command))
      → (ids (run env db cs).lots ≡ ids db.lots)
        × ((run env db cs).draft_picks ≡ db.draft_picks)
        × ((run env db cs).bid_history ≡ db.bid_history)
  unfolding run
  refused_auction_stands db [] = (refl, refl, refl)
  refused_auction_stands db (c ∷ cs) =
      let first = step-IsStanding db c in
      let rest = refused_auction_stands (step env db c) cs in
      (rest.0 ∙ first.0, rest.1 ∙ first.1, rest.2 ∙ first.2)
