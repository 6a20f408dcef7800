-- ===== src/Auction/Slow/Bids.antt =====
-- A bid changes prices, deadlines and leaders, and nothing that a settlement has written; an
-- accepted bid has passed every test, and never fails on a race with itself.
use ht_mvp_backend.Prelude.{
  ℕ, ◌+◌, ◌≤◌, ◌<◌, ◌≡◌, ◌↔◌, refl, true, ◌&&◌, String, Option, none, some, if◌then◌else◌, arith,
  Bool-cases, Option-cases, inl, inr,
}
use ht_mvp_backend.Auction.Slow.{
  AuctionLot, AuctionDb, Draft, League, Env, SlowAuctionSettings, Result, ok, err, simultaneous_bid,
  after, get_settings, total_budget, roster_slots, lot_not_active, type_error,
}
use ht_mvp_backend.Auction.Budget.Affordable.{affordable_iff, reserve}
use ht_mvp_backend.Auction.Slow.Rows.{
  find_lot, find_bid, is_id, get_roster_budget_data, has_history, is_active,
}
use ht_mvp_backend.Auction.Slow.Resolve.{PriceResolutionResult, resolve_price_with_client}
use ht_mvp_backend.Auction.Slow.SetMaxBid.{
  set_max_bid, write_bid, replay, check_bid, retry, restart_window, place_bid, key_given,
  validate_bid, commit_bid,
}
use ht_mvp_backend.Auction.Slow.Ensures.{
  Ensures, Ensures-bind, Ensures-or_throw, Ensures-require, Ensures-map, Ensures-weaken,
  after-Ensures,
}
use ht_mvp_backend.Auction.Slow.Books.{
  SameBooks, SameBooks-refl, SameBooks-trans, update-SameBooks, deadline-IsQuiet, resolve-SameBooks,
}

retry-SameBooks :
    (db : AuctionDb) (lot_id : ℕ) (settings : SlowAuctionSettings)
    (r : Result (AuctionDb × PriceResolutionResult))
    → Ensures (λ x. SameBooks db x.0) r
    → Ensures (λ x. SameBooks db x.0) (retry db lot_id settings r)
unfolding retry
retry-SameBooks db lot_id settings (err simultaneous_bid) h =
    Ensures-or_throw _ (find_lot lot_id db.lots) type_error _ λ refreshed _.
      Ensures-require _ (is_active refreshed.status) lot_not_active _
        λ _. resolve-SameBooks db refreshed settings none
retry-SameBooks db lot_id settings (ok x) h = h
retry-SameBooks db lot_id settings (err _) h = tt

restart_window-SameBooks :
    (now lot_id : ℕ) (settings : SlowAuctionSettings) (x : AuctionDb × PriceResolutionResult)
    → SameBooks (x.0) (restart_window now lot_id settings x).0
unfolding restart_window
restart_window-SameBooks now lot_id settings (db, result) =
    elim (Bool-cases result.leader_changed) [
      | inl e ↦ rw e (update-SameBooks lot_id _ db (deadline-IsQuiet _) db.bid_history)
      | inr e ↦ rw e (SameBooks-refl db)
    ]

module _ (env : Env) (now : ℕ) (db : AuctionDb) (draft_id lot_id roster_id max_bid : ℕ)
    (key : Option String) where
  commit_bid-SameBooks :
      (lot : AuctionLot) (settings : SlowAuctionSettings)
      → Ensures
          (λ x. SameBooks db x.0)
          (commit_bid now db lot settings lot_id roster_id max_bid key)
  unfolding commit_bid write_bid
  commit_bid-SameBooks lot settings =
      let db' = write_bid now db lot_id roster_id max_bid key in
      let first = resolve_price_with_client db' lot settings none in
      Ensures-map (λ x. SameBooks db x.0) (λ x. SameBooks db x.0) (retry db' lot_id settings first)
        (restart_window now lot_id settings)
        (λ x h. SameBooks-trans h (restart_window-SameBooks now lot_id settings x))
        (Ensures-weaken _ _ (retry db' lot_id settings first) (λ x h. SameBooks-trans written h)
          (retry-SameBooks db' lot_id settings first (resolve-SameBooks db' lot settings none)))
    where
      written : SameBooks db (write_bid now db lot_id roster_id max_bid key)
      written = record {
        same_ids = refl;
        same_next = refl;
        same_spent = λ d r. refl;
        same_won = λ d r. refl;
      }

  replay-SameBooks : Ensures (λ x. SameBooks db x.0) (replay db lot_id roster_id)
  unfolding replay
  replay-SameBooks = elim (Option-cases (find_lot lot_id db.lots)) [
    | inl e ↦ rw e tt
    | inr (lot, e) ↦ elim (Option-cases (find_bid lot_id roster_id db.proxy_bids)) [
      | inl f ↦ rw (e, f) tt
      | inr (bid, f) ↦ rw (e, f) (SameBooks-refl db)
    ]
  ]

  pub set_max_bid-SameBooks :
      SameBooks db (after db (set_max_bid env now db draft_id lot_id roster_id max_bid key))
  unfolding set_max_bid place_bid
  set_max_bid-SameBooks =
      elim (Bool-cases (key_given key && has_history lot_id roster_id key db.bid_history)) [
        | inl e ↦ rw e (
            after-Ensures (λ x. SameBooks db x) db (replay db lot_id roster_id) (SameBooks-refl db)
              replay-SameBooks)
        | inr e ↦ rw e (
            after-Ensures (λ x. SameBooks db x) db
              (place_bid env now db draft_id lot_id roster_id max_bid key) (SameBooks-refl db)
              (Ensures-bind (λ x. SameBooks db x.0)
                (validate_bid env now db draft_id lot_id roster_id max_bid) _
                (λ v _. commit_bid-SameBooks v.0 v.1)))
      ]

-- A bid passes validation exactly when the server takes the query that locks the budget, the lot is active, belongs to the draft and is not past its
-- deadline, the bid is at least the minimum, the roster has an open slot, and the bid fits in the
-- budget beside the money spent, the reserve for the slots left, and the other commitments.
pub validate_bid_iff :
    (env : Env) (now : ℕ) (db : AuctionDb) (draft_id lot_id roster_id max_bid : ℕ)
    (lot : AuctionLot) (draft : Draft) (league : League)
    → find_lot lot_id db.lots ≡ some lot
    → env.find_draft draft_id ≡ some draft
    → env.find_league draft.league_id ≡ some league
    → let settings = get_settings draft in
      let budget = get_roster_budget_data db.lots draft_id roster_id in
      let held = reserve (roster_slots league) budget.won_count settings.min_bid in
      (validate_bid env now db draft_id lot_id roster_id max_bid ≡ ok (lot, settings)) ↔ (
        (env.locks_aggregates ≡ true)
        × (is_active lot.status ≡ true)
        × (lot.draft_id ≡ draft_id)
        × (now < lot.bid_deadline)
        × (settings.min_bid ≤ max_bid)
        × (budget.won_count < roster_slots league)
        × (max_bid + budget.spent + held ≤ total_budget league)
        × (budget.spent + budget.leading_commitment + max_bid + held
            ≤ total_budget league
              + (if is_id lot.current_bidder_roster_id roster_id then lot.current_bid else 0)))
unfolding validate_bid check_bid
validate_bid_iff env now db draft_id lot_id roster_id max_bid lot draft league found known leagued =
    let settings = get_settings draft in
    let budget = get_roster_budget_data db.lots draft_id roster_id in
    let leads = is_id lot.current_bidder_roster_id roster_id in
    let affordable =
      affordable_iff (total_budget league) (roster_slots league) budget lot.current_bid leads
        settings.min_bid max_bid in
    rw (found, known, leagued) (ground (arith, affordable))
