-- ===== src/Auction/Slow/Run.antt =====
-- Any sequence of the three transactions, each under its locks: the invariant of the auction.
use ht_mvp_backend.Prelude.{ℕ, ◌+◌, ◌-◌, ◌*◌, ◌≤◌, ◌≡◌, String, Option, some, List, [], ◌∷◌, arith}
use ht_mvp_backend.Auction.Slow.{
  AuctionDb, Draft, League, Env, after, get_settings, total_budget, roster_slots,
}
use ht_mvp_backend.Auction.Slow.Ledger.{ids, Distinct}
use ht_mvp_backend.Auction.Slow.Rows.{get_roster_budget_data}
use ht_mvp_backend.Auction.Slow.SetMaxBid.{set_max_bid}
use ht_mvp_backend.Auction.Slow.Nominate.{nominate}
use ht_mvp_backend.Auction.Slow.Settle.{settle_lot}
use ht_mvp_backend.Auction.Slow.Solvency.{IsSolvent, settle_lot-IsSolvent}
use ht_mvp_backend.Auction.Slow.Keys.{settle_lot-SameKeys}
use ht_mvp_backend.Auction.Slow.Books.{SameBooks-IsSolvent}
use ht_mvp_backend.Auction.Slow.Bids.{set_max_bid-SameBooks}
use ht_mvp_backend.Auction.Slow.Nominations.{IsKeyed, nominate-IsKeyed, nominate-IsSolvent}

pub data Command : Type 0 where
  nominates : (draft_id roster_id player_id : ℕ) → Option String → Command
  bids : (draft_id lot_id roster_id max_bid : ℕ) → Option String → Command
  settles : (lot_id : ℕ) → Command

unfoldable pub step : Env → AuctionDb → ℕ × Command → AuctionDb
step env db (now, nominates d r p key) = after db (nominate env now db d r p key)
step env db (now, bids d l r b key) = after db (set_max_bid env now db d l r b key)
step env db (now, settles l) = after db (settle_lot env db l)

unfoldable pub run : Env → AuctionDb → List (ℕ × Command) → AuctionDb
run env db [] = db
run env db (c ∷ cs) = run env (step env db c) cs

pub record IsSound (min_bid : ℕ) (league : League) (d : ℕ) (db : AuctionDb) : Type 0 where
  pub keyed : IsKeyed db
  pub solvent : IsSolvent min_bid league d db.lots

IsKeyed-of_same :
    {a b : AuctionDb}
    → ids b.lots ≡ ids a.lots
    → b.next_lot_id ≡ a.next_lot_id
    → IsKeyed a
    → IsKeyed b
IsKeyed-of_same i n k = record { distinct = rw i k.distinct; bounded = rw (i, n) k.bounded }

module _ (env : Env) (d : ℕ) (draft : Draft) (league : League)
    (known : env.find_draft d ≡ some draft)
    (leagued : env.find_league draft.league_id ≡ some league) where
  abbrev IsSoundHere : AuctionDb → Type 0
  IsSoundHere = IsSound (get_settings draft).min_bid league d

  step-IsSound : (db : AuctionDb) (c : ℕ × Command) → IsSoundHere db → IsSoundHere (step env db c)
  unfolding step
  step-IsSound db (now, nominates d' r p key) s = record {
    keyed = nominate-IsKeyed env now db d' r p key s.keyed;
    solvent =
        nominate-IsSolvent env now db d' r p key (get_settings draft).min_bid league d s.solvent;
  }
  step-IsSound db (now, bids d' l r b key) s =
      let same = set_max_bid-SameBooks env now db d' l r b key in
      record {
        keyed = IsKeyed-of_same same.same_ids same.same_next s.keyed;
        solvent = SameBooks-IsSolvent (get_settings draft).min_bid league d same s.solvent;
      }
  step-IsSound db (now, settles l) s =
      let same = settle_lot-SameKeys env db l in
      record {
        keyed = IsKeyed-of_same same.0 same.1 s.keyed;
        solvent =
            settle_lot-IsSolvent env d draft league known leagued db l s.keyed.distinct s.solvent;
      }

  run-IsSound :
      (db : AuctionDb) (cs : List (ℕ × Command)) → IsSoundHere db → IsSoundHere (run env db cs)
  unfolding run
  run-IsSound db [] s = s
  run-IsSound db (c ∷ cs) s = run-IsSound (step env db c) cs (step-IsSound db c s)

  start-IsSound :
      (db : AuctionDb)
      → db.lots ≡ []
      → roster_slots league * (get_settings draft).min_bid ≤ total_budget league
      → IsSoundHere db
  unfolding get_roster_budget_data
  start-IsSound db e room = record {
    keyed = record { distinct = rw e tt; bounded = rw e tt };
    solvent = record {
      all_rosters = λ r.
          let whole : roster_slots league - 0 ≡ roster_slots league = omega arith in
          rw e (omega arith, rw whole (omega arith));
    };
  }

  -- Whatever nominations, bids and settlements follow one another from an auction with no lots, in
  -- whatever order and with whatever errors, refused queries too, in a draft that is found with its league: no roster
  -- wins more lots than it has slots, and what it has spent leaves the minimum bid for each of its
  -- open slots, if the budget covers the minimum for every slot.
  pub auction_solvent :
      (db : AuctionDb) (cs : List (ℕ × Command)) (r : ℕ)
      → db.lots ≡ []
      → roster_slots league * (get_settings draft).min_bid ≤ total_budget league
      → let b = get_roster_budget_data (run env db cs).lots d r in
        (b.won_count ≤ roster_slots league)
        × (b.spent + (roster_slots league - b.won_count) * (get_settings draft).min_bid
            ≤ total_budget league)
  auction_solvent db cs r e room =
      (run-IsSound db cs (start-IsSound db e room)).solvent.all_rosters r

step-IsKeyed : (env : Env) (db : AuctionDb) (c : ℕ × Command) → IsKeyed db → IsKeyed (step env db c)
unfolding step
step-IsKeyed env db (now, nominates d r p key) k = nominate-IsKeyed env now db d r p key k
step-IsKeyed env db (now, bids d l r b key) k =
    let same = set_max_bid-SameBooks env now db d l r b key in
    IsKeyed-of_same same.same_ids same.same_next k
step-IsKeyed env db (now, settles l) k =
    let same = settle_lot-SameKeys env db l in IsKeyed-of_same same.0 same.1 k

run-IsKeyed :
    (env : Env) (db : AuctionDb) (cs : List (ℕ × Command)) → IsKeyed db → IsKeyed (run env db cs)
unfolding run
run-IsKeyed env db [] k = k
run-IsKeyed env db (c ∷ cs) k = run-IsKeyed env (step env db c) cs (step-IsKeyed env db c k)

-- Whatever nominations, bids and settlements follow one another from an auction with no lots, no two
-- lots ever have the same id.
auction_keys :
    (env : Env) (db : AuctionDb) (cs : List (ℕ × Command))
    → db.lots ≡ []
    → Distinct (ids (run env db cs).lots)
auction_keys env db cs e =
    (run-IsKeyed env db cs (record { distinct = rw e tt; bounded = rw e tt })).distinct
