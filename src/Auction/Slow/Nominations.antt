-- ===== src/Auction/Slow/Nominations.antt =====
-- A nomination adds at most one active lot, with a fresh id, so it keeps the books and the keys; and
-- what the daily limit makes of the day that the lot is stamped with.
use ht_mvp_backend.Prelude.{
  ℕ, ◌≡◌, ◌≢◌, ◌<◌, refl, String, Option, none, some, [], ◌∷◌, ◌++◌, arith, All,
}
use ht_mvp_backend.Auction.Slow.{AuctionLot, AuctionDb, League, Env, SlowAuctionSettings, after}
use ht_mvp_backend.Auction.Slow.Rows.{sum_lots, spent_on, counts_as_won, get_roster_budget_data}
use ht_mvp_backend.Auction.Slow.Nominate.{
  nominate, validate_nomination, new_lot, create_lot, insert_lot, nominated_on,
}
use ht_mvp_backend.Auction.Slow.Ensures.{Ensures-bind, after-Ensures}
use ht_mvp_backend.Auction.Slow.Ledger.{
  ids, Distinct, share, sum-append_one, ids-append_one, Distinct-append_one, bounded_append_one,
}
use ht_mvp_backend.Auction.Slow.Solvency.{IsSolvent, active_counts_nothing}

-- The ids of the lots are distinct and below the sequence's next value.
pub record IsKeyed (db : AuctionDb) : Type 0 where
  pub distinct : Distinct (ids db.lots)
  pub bounded : All (λ j. j < db.next_lot_id) (ids db.lots)

module _ (db : AuctionDb) (lot : AuctionLot) where
  insert_lot-IsKeyed :
      (old : Option AuctionLot)
      → lot.id ≡ db.next_lot_id
      → IsKeyed db
      → IsKeyed (insert_lot db lot old).0
  unfolding insert_lot
  insert_lot-IsKeyed (some l) e k = k
  insert_lot-IsKeyed none e k = record {
    distinct =
        rw (ids-append_one, e)
          (Distinct-append_one (ids db.lots) db.next_lot_id k.bounded k.distinct);
    bounded = rw (ids-append_one, e) (bounded_append_one (ids db.lots) db.next_lot_id k.bounded);
  }

  insert_lot-IsSolvent :
      (min_bid : ℕ) (league : League) (d : ℕ) (old : Option AuctionLot)
      → ((r : ℕ) → (share d (spent_on r) lot ≡ 0) × (share d (counts_as_won r) lot ≡ 0))
      → IsSolvent min_bid league d db.lots
      → IsSolvent min_bid league d (insert_lot db lot old).0.lots
  unfolding insert_lot get_roster_budget_data
  insert_lot-IsSolvent min_bid league d (some l) q s = s
  insert_lot-IsSolvent min_bid league d none q s = record {
    all_rosters = λ r.
        let spent : sum_lots d (spent_on r) (db.lots ++ lot ∷ [])
            ≡ sum_lots d (spent_on r) db.lots =
          omega (arith, sum-append_one d (spent_on r) db.lots lot, q r) in
        let won : sum_lots d (counts_as_won r) (db.lots ++ lot ∷ [])
            ≡ sum_lots d (counts_as_won r) db.lots =
          omega (arith, sum-append_one d (counts_as_won r) db.lots lot, q r) in
        rw (spent, won) (s.all_rosters r);
  }

module _ (env : Env) (now : ℕ) (db : AuctionDb) (draft_id roster_id player_id : ℕ)
    (key : Option String) where
  -- A nomination either leaves the database or inserts the new lot.
  nominate_rule {ℓ} :
      (P : AuctionDb → Type ℓ)
      → P db
      → ((settings : SlowAuctionSettings) (old : Option AuctionLot)
          → P (insert_lot db (new_lot env now db settings draft_id roster_id player_id key) old).0)
      → P (after db (nominate env now db draft_id roster_id player_id key))
  unfolding nominate create_lot
  nominate_rule P h k =
      after-Ensures P db (nominate env now db draft_id roster_id player_id key) h (
        Ensures-bind (λ x. P x.0) (validate_nomination env now db draft_id roster_id player_id) _
          (λ settings _. k settings _))

  new_lot_counts_nothing :
      (settings : SlowAuctionSettings) (d r : ℕ)
      → let lot = new_lot env now db settings draft_id roster_id player_id key in
        (share d (spent_on r) lot ≡ 0) × (share d (counts_as_won r) lot ≡ 0)
  unfolding new_lot
  new_lot_counts_nothing settings d r =
      active_counts_nothing d r (new_lot env now db settings draft_id roster_id player_id key) refl

  pub nominate-IsKeyed :
      IsKeyed db → IsKeyed (after db (nominate env now db draft_id roster_id player_id key))
  unfolding new_lot
  nominate-IsKeyed k = nominate_rule IsKeyed k λ settings old.
      insert_lot-IsKeyed db (new_lot env now db settings draft_id roster_id player_id key) old refl
        k

  pub nominate-IsSolvent :
      (min_bid : ℕ) (league : League) (d : ℕ)
      → IsSolvent min_bid league d db.lots
      → IsSolvent min_bid league d
          (after db (nominate env now db draft_id roster_id player_id key)).lots
  nominate-IsSolvent min_bid league d s =
      nominate_rule (λ x. IsSolvent min_bid league d x.lots) s
        λ settings old.
          insert_lot-IsSolvent db (new_lot env now db settings draft_id roster_id player_id key)
            min_bid league d old (new_lot_counts_nothing settings d) s

  -- When the UTC day differs from the Eastern day, a nomination does not raise the number of
  -- nominations that the daily limit counts for the roster.
  nominate_uncounted :
      env.utc_day now ≢ env.eastern_day now
      → sum_lots draft_id
          (nominated_on roster_id (env.eastern_day now))
          (after db (nominate env now db draft_id roster_id player_id key)).lots
        ≡ sum_lots draft_id (nominated_on roster_id (env.eastern_day now)) db.lots
  unfolding new_lot nominated_on insert_lot
  nominate_uncounted h =
      let counted = sum_lots draft_id (nominated_on roster_id (env.eastern_day now)) in
      nominate_rule (λ x. counted x.lots ≡ counted db.lots) refl uncounted_insert
    where
      uncounted_insert :
          (settings : SlowAuctionSettings) (old : Option AuctionLot)
          → sum_lots draft_id
              (nominated_on roster_id (env.eastern_day now))
              (insert_lot db
                (new_lot env now db settings draft_id roster_id player_id key)
                old).0.lots
            ≡ sum_lots draft_id (nominated_on roster_id (env.eastern_day now)) db.lots
      uncounted_insert settings (some l) = refl
      uncounted_insert settings none = ground (
        arith,
        sum-append_one draft_id (nominated_on roster_id (env.eastern_day now)) db.lots
            (new_lot env now db settings draft_id roster_id player_id key),
      )
