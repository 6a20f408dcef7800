-- ===== src/Auction/Slow/Solvency.antt =====
-- No settlement makes a roster spend more than its budget allows or fill more slots than it has.
use ht_mvp_backend.Prelude.{
  ℕ, ◌+◌, ◌-◌, ◌*◌, ◌≤◌, ◌<◌, ◌≡◌, true, some, List, [], ◌∷◌, arith, Bool-cases, inl, inr, ◌⊎◌, ◌∙◌,
  sym, Option-cases,
}
use ht_mvp_backend.Auction.Slow.{
  AuctionLot, AuctionProxyBid, AuctionDb, Draft, League, Env, SlowAuctionSettings, passed, after,
  get_settings, total_budget, roster_slots,
}
use ht_mvp_backend.Auction.Slow.Rows.{
  find_lot, update_lot, bids_of_lot, sum_lots, spent_on, counts_as_won, is_active,
  get_roster_budget_data,
}
use ht_mvp_backend.Auction.Slow.Settle.{
  settle_bids, settle_lot, try_bidders, award, pass_lot, can_settle, mark_won, candidate_price,
}
use ht_mvp_backend.Auction.Slow.Ledger.{ids, Distinct, share, sum-update}

-- What roster `r` has spent and won in draft `d` leaves the minimum for each of its open slots.
abbrev pub IsSolventFor : ℕ → League → ℕ → List AuctionLot → ℕ → Type 0
IsSolventFor min_bid league d lots r =
    let b = get_roster_budget_data lots d r in
    (b.won_count ≤ roster_slots league)
    × (b.spent + (roster_slots league - b.won_count) * min_bid ≤ total_budget league)

pub record IsSolvent (min_bid : ℕ) (league : League) (d : ℕ) (lots : List AuctionLot) : Type 0 where
  pub all_rosters : (r : ℕ) → IsSolventFor min_bid league d lots r

settle_room :
    (won slots spent price m total : ℕ)
    → won < slots
    → spent + price + (slots - won - 1) * m ≤ total
    → (won + 1 ≤ slots) × (spent + price + (slots - (won + 1)) * m ≤ total)
settle_room won slots spent price m total h k =
    let e : slots - won - 1 ≡ slots - (won + 1) = omega arith in (omega arith, rw e at k)

-- An active lot counts for nobody's spending, and a lot marked won counts for its winner's.
pub active_counts_nothing :
    (d r : ℕ) (lot : AuctionLot)
    → is_active lot.status ≡ true
    → (share d (spent_on r) lot ≡ 0) × (share d (counts_as_won r) lot ≡ 0)
unfolding spent_on counts_as_won
active_counts_nothing d r lot h = ground arith

passed_counts_nothing :
    (d r : ℕ) (lot : AuctionLot)
    → (share d (spent_on r) (record lot { status = passed }) ≡ 0)
      × (share d (counts_as_won r) (record lot { status = passed }) ≡ 0)
unfolding spent_on counts_as_won
passed_counts_nothing d r lot = ground arith

won_counts :
    (d r w p : ℕ) (lot : AuctionLot)
    → ((lot.draft_id ≡ d)
        × (w ≡ r)
        × (share d (spent_on r) (mark_won w p lot) ≡ p)
        × (share d (counts_as_won r) (mark_won w p lot) ≡ 1))
      ⊎ ((share d (spent_on r) (mark_won w p lot) ≡ 0)
          × (share d (counts_as_won r) (mark_won w p lot) ≡ 0))
unfolding spent_on counts_as_won mark_won
won_counts d r w p lot = ground arith

-- The two tests that a settlement makes, as inequalities.
abbrev FitsIn : ℕ → League → ℕ → List AuctionLot → ℕ → ℕ → Type 0
FitsIn min_bid league d lots w p =
    let b = get_roster_budget_data lots d w in
    (b.won_count < roster_slots league)
    × (b.spent + p + (roster_slots league - b.won_count - 1) * min_bid ≤ total_budget league)

FitsIn-cast :
    (m m' : ℕ) (l l' : League) (d d' : ℕ) (lots : List AuctionLot) (w p : ℕ)
    → m ≡ m'
    → l ≡ l'
    → d ≡ d'
    → FitsIn m l d lots w p
    → FitsIn m' l' d' lots w p
FitsIn-cast m m' l l' d d' lots w p em el ed h = rw (em, el, ed) at h

can_settle_books :
    (lots : List AuctionLot) (settings : SlowAuctionSettings) (league : League) (lot : AuctionLot)
    (w p : ℕ)
    → can_settle lots settings league lot w p ≡ true
    → FitsIn settings.min_bid league lot.draft_id lots w p
unfolding can_settle
can_settle_books lots settings league lot w p h = ground arith

module _ (min_bid : ℕ) (league : League) (d : ℕ) (lots : List AuctionLot) (lot : AuctionLot)
    (u : Distinct (ids lots)) (found : find_lot lot.id lots ≡ some lot) where
  -- An update that leaves a row's draft and what it counts for does not change the books.
  pub update-IsSolvent :
      (g : AuctionLot → AuctionLot)
      → ((r : ℕ) → share d (spent_on r) (g lot) ≡ share d (spent_on r) lot)
      → ((r : ℕ) → share d (counts_as_won r) (g lot) ≡ share d (counts_as_won r) lot)
      → IsSolvent min_bid league d lots
      → IsSolvent min_bid league d (update_lot lot.id g lots)
  unfolding get_roster_budget_data
  update-IsSolvent g same_spent same_won s = record {
    all_rosters = λ r.
        let spent_same : sum_lots d (spent_on r) (update_lot lot.id g lots)
            ≡ sum_lots d (spent_on r) lots =
          omega (arith, sum-update d lot.id (spent_on r) g lots lot u found, same_spent r) in
        let won_same : sum_lots d (counts_as_won r) (update_lot lot.id g lots)
            ≡ sum_lots d (counts_as_won r) lots =
          omega (arith, sum-update d lot.id (counts_as_won r) g lots lot u found, same_won r) in
        rw (spent_same, won_same) (s.all_rosters r);
  }

  -- An award adds what the marked row counts for.
  award_sums :
      (w p r : ℕ)
      → is_active lot.status ≡ true
      → (sum_lots d (spent_on r) (update_lot lot.id (mark_won w p) lots)
          ≡ sum_lots d (spent_on r) lots + share d (spent_on r) (mark_won w p lot))
        × (sum_lots d (counts_as_won r) (update_lot lot.id (mark_won w p) lots)
            ≡ sum_lots d (counts_as_won r) lots + share d (counts_as_won r) (mark_won w p lot))
  award_sums w p r act =
      let nothing = active_counts_nothing d r lot act in
      (
        omega (arith, sum-update d lot.id (spent_on r) (mark_won w p) lots lot u found, nothing),
        omega
            (arith, sum-update d lot.id (counts_as_won r) (mark_won w p) lots lot u found, nothing),
      )

  pub award-IsSolvent :
      (w p : ℕ)
      → is_active lot.status ≡ true
      → (lot.draft_id ≡ d → FitsIn min_bid league d lots w p)
      → IsSolvent min_bid league d lots
      → IsSolvent min_bid league d (update_lot lot.id (mark_won w p) lots)
  unfolding get_roster_budget_data
  award-IsSolvent w p act fits s = record {
    all_rosters = λ r.
        let sums = award_sums w p r act in
        elim (won_counts d r w p lot) [
          | inl (here, who, p_spent, one) ↦
              let books : FitsIn min_bid league d lots r p = rw who at (fits here) in
              rw (sums.0, sums.1, p_spent, one)
                (settle_room _ (roster_slots league) _ p min_bid (total_budget league) books.0
                  books.1)
          | inr (no_spent, no_won) ↦
              let all = s.all_rosters r in
              let same_spent : sum_lots d (spent_on r) (update_lot lot.id (mark_won w p) lots)
                  ≡ sum_lots d (spent_on r) lots =
                omega (arith, sums.0, no_spent) in
              let same_won : sum_lots d (counts_as_won r) (update_lot lot.id (mark_won w p) lots)
                  ≡ sum_lots d (counts_as_won r) lots =
                omega (arith, sums.1, no_won) in
              rw (same_spent, same_won) all
        ];
  }

-- The loop awards the lot only to a bidder who passes both tests, and otherwise passes it.
try_bidders-IsSolvent :
    (db : AuctionDb) (settings : SlowAuctionSettings) (league : League) (lot : AuctionLot)
    (bids : List AuctionProxyBid) (min_bid : ℕ) (law : League) (d : ℕ)
    → Distinct (ids db.lots)
    → find_lot lot.id db.lots ≡ some lot
    → is_active lot.status ≡ true
    → (lot.draft_id ≡ d → (settings.min_bid ≡ min_bid) × (league ≡ law))
    → IsSolvent min_bid law d db.lots
    → IsSolvent min_bid law d (try_bidders db settings league lot bids).0.lots
unfolding try_bidders award pass_lot
try_bidders-IsSolvent db settings league lot [] min_bid law d u found act same s =
    update-IsSolvent min_bid law d db.lots lot u found (λ l. record l { status = passed })
      (λ r. (passed_counts_nothing d r lot).0 ∙ sym (active_counts_nothing d r lot act).0)
      (λ r. (passed_counts_nothing d r lot).1 ∙ sym (active_counts_nothing d r lot act).1) s
try_bidders-IsSolvent db settings league lot (b ∷ bs) min_bid law d u found act same s =
    let p = candidate_price settings lot b bs in
    elim (Bool-cases (can_settle db.lots settings league lot b.roster_id p)) [
      | inl fits ↦
          rw (fits, try_bidders)
            (award-IsSolvent min_bid law d db.lots lot u found b.roster_id p act
              (λ here.
                let (m, l) = same here in
                FitsIn-cast settings.min_bid min_bid league law lot.draft_id d db.lots b.roster_id p
                  m l here (can_settle_books db.lots settings league lot b.roster_id p fits))
              s)
      | inr short ↦
          rw (short, try_bidders)
            (try_bidders-IsSolvent db settings league lot bs min_bid law d u found act same s)
    ]

find_lot-id :
    (id : ℕ) (ls : List AuctionLot) (lot : AuctionLot) → find_lot id ls ≡ some lot → lot.id ≡ id
find_lot-id id [] lot e = cc
find_lot-id id (l ∷ ls) lot e = ground (arith, find_lot-id id ls lot)

module _ (env : Env) (d : ℕ) (draft : Draft) (league : League)
    (known : env.find_draft d ≡ some draft)
    (leagued : env.find_league draft.league_id ≡ some league) where
  settle_bids-IsSolvent :
      (db : AuctionDb) (lot : AuctionLot) (bids : List AuctionProxyBid)
      → Distinct (ids db.lots)
      → find_lot lot.id db.lots ≡ some lot
      → is_active lot.status ≡ true
      → IsSolvent (get_settings draft).min_bid league d db.lots
      → IsSolvent
          (get_settings draft).min_bid
          league
          d
          (after db (settle_bids env db lot bids)).lots
  unfolding settle_bids
  settle_bids-IsSolvent db lot [] u found act s =
      update-IsSolvent (get_settings draft).min_bid league d db.lots lot u found
        (λ l. record l { status = passed })
        (λ r. (passed_counts_nothing d r lot).0 ∙ sym (active_counts_nothing d r lot act).0)
        (λ r. (passed_counts_nothing d r lot).1 ∙ sym (active_counts_nothing d r lot act).1) s
  settle_bids-IsSolvent db lot (b ∷ bs) u found act s =
      elim (Option-cases (env.find_draft lot.draft_id)) [
        | inl e ↦ rw e s
        | inr (dr, ed) ↦ elim (Option-cases (env.find_league dr.league_id)) [
          | inl e ↦ rw (ed, e) s
          | inr (lg, el) ↦
              let same =
                try_bidders-IsSolvent db (get_settings dr) lg lot (b ∷ bs)
                  (get_settings draft).min_bid league d u found act (λ here. (cc, cc)) s in
              elim (Bool-cases env.locks_aggregates) [
                | inl e ↦ rw (ed, el, e) same
                | inr e ↦ rw (ed, el, e) s
              ]
        ]
      ]

  -- Settling any lot, of this draft or another, keeps every roster of the draft solvent.
  pub settle_lot-IsSolvent :
      (db : AuctionDb) (lot_id : ℕ)
      → Distinct (ids db.lots)
      → IsSolvent (get_settings draft).min_bid league d db.lots
      → IsSolvent (get_settings draft).min_bid league d (after db (settle_lot env db lot_id)).lots
  unfolding settle_lot
  settle_lot-IsSolvent db lot_id u s = elim (Option-cases (find_lot lot_id db.lots)) [
    | inl missing ↦ rw missing s
    | inr (lot, found) ↦ elim (Bool-cases (is_active lot.status)) [
      | inl act ↦
          rw (found, act)
            (settle_bids-IsSolvent db lot (bids_of_lot lot_id db.proxy_bids) u
              (rw (← find_lot-id lot_id db.lots lot found) at found) act s)
      | inr idle ↦ rw (found, idle) s
    ]
  ]
