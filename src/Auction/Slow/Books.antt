-- ===== src/Auction/Slow/Books.antt =====
-- Bids and nominations leave the books alone: no lot becomes won, and no won lot changes.
use ht_mvp_backend.Prelude.{
  ℕ, ◌≡◌, refl, ◌∙◌, ◌||◌, Option, none, some, List, [], ◌∷◌, ◌==◌, arith, Bool-cases, inl, inr,
}
use ht_mvp_backend.Auction.Slow.{
  AuctionLot, AuctionBidHistory, AuctionDb, League, SlowAuctionSettings,
}
use ht_mvp_backend.Auction.Slow.Rows.{
  find_lot, update_lot, sum_lots, spent_on, counts_as_won, get_roster_budget_data,
}
use ht_mvp_backend.Auction.Slow.Resolve.{
  resolve_price_with_client, write_resolution, is_unchanged, write_price, apply_resolution,
}
use ht_mvp_backend.Auction.Slow.Ensures.{Ensures}
use ht_mvp_backend.Auction.Pricing.{PriceResolutionOutput}
use ht_mvp_backend.Auction.Slow.Ledger.{ids, ids-update, share}
use ht_mvp_backend.Auction.Slow.Solvency.{IsSolvent}

-- Two states with the same lots, by id, that have the same sums of won lots.
pub record SameBooks (before after : AuctionDb) : Type 0 where
  pub same_ids : ids after.lots ≡ ids before.lots
  pub same_next : after.next_lot_id ≡ before.next_lot_id
  pub same_spent :
      (d r : ℕ) → sum_lots d (spent_on r) after.lots ≡ sum_lots d (spent_on r) before.lots
  pub same_won :
      (d r : ℕ) → sum_lots d (counts_as_won r) after.lots ≡ sum_lots d (counts_as_won r) before.lots

pub SameBooks-refl : (db : AuctionDb) → SameBooks db db
SameBooks-refl db = record {
  same_ids = refl;
  same_next = refl;
  same_spent = λ d r. refl;
  same_won = λ d r. refl;
}

pub SameBooks-trans : {a b c : AuctionDb} → SameBooks a b → SameBooks b c → SameBooks a c
SameBooks-trans h k = record {
  same_ids = k.same_ids ∙ h.same_ids;
  same_next = k.same_next ∙ h.same_next;
  same_spent = λ d r. k.same_spent d r ∙ h.same_spent d r;
  same_won = λ d r. k.same_won d r ∙ h.same_won d r;
}

-- A state with the same won lots is solvent too.
pub SameBooks-IsSolvent :
    {a b : AuctionDb} (min_bid : ℕ) (league : League) (d : ℕ)
    → SameBooks a b
    → IsSolvent min_bid league d a.lots
    → IsSolvent min_bid league d b.lots
unfolding get_roster_budget_data
SameBooks-IsSolvent min_bid league d h s = record {
  all_rosters = λ r. rw (h.same_spent d r, h.same_won d r) (s.all_rosters r);
}

-- An update that keeps what a row counts for.
pub record IsQuiet (g : AuctionLot → AuctionLot) : Type 0 where
  pub quiet_id : (l : AuctionLot) → (g l).id ≡ l.id
  pub quiet_spent : (d r : ℕ) (l : AuctionLot) → share d (spent_on r) (g l) ≡ share d (spent_on r) l
  pub quiet_won :
      (d r : ℕ) (l : AuctionLot) → share d (counts_as_won r) (g l) ≡ share d (counts_as_won r) l

sum-quiet :
    (d id : ℕ) (f : AuctionLot → ℕ) (g : AuctionLot → AuctionLot) (ls : List AuctionLot)
    → ((l : AuctionLot) → share d f (g l) ≡ share d f l)
    → sum_lots d f (update_lot id g ls) ≡ sum_lots d f ls
sum-quiet d id f g [] q = refl
sum-quiet d id f g (l ∷ ls) q = elim (Bool-cases (l.id == id)) [
  | inl hit ↦ rw hit (omega (arith, sum-quiet d id f g ls q, q l))
  | inr miss ↦ rw miss (omega (arith, sum-quiet d id f g ls q))
]

pub update-SameBooks :
    (id : ℕ) (g : AuctionLot → AuctionLot) (db : AuctionDb)
    → IsQuiet g
    → (history : List AuctionBidHistory)
    → SameBooks db (record db { lots = update_lot id g db.lots; bid_history = history })
update-SameBooks id g db q history = record {
  same_ids = ids-update id g db.lots q.quiet_id;
  same_next = refl;
  same_spent = λ d r. sum-quiet d id (spent_on r) g db.lots (q.quiet_spent d r);
  same_won = λ d r. sum-quiet d id (counts_as_won r) g db.lots (q.quiet_won d r);
}

write_resolution-IsQuiet :
    (out : PriceResolutionOutput) (deadline : ℕ) → IsQuiet (write_resolution out deadline)
unfolding spent_on counts_as_won
write_resolution-IsQuiet out deadline = record {
  quiet_id = λ l. refl;
  quiet_spent = λ d r l. refl;
  quiet_won = λ d r l. refl;
}

pub deadline-IsQuiet : (t : ℕ) → IsQuiet (λ l. record l { bid_deadline = t })
unfolding spent_on counts_as_won
deadline-IsQuiet t = record {
  quiet_id = λ l. refl;
  quiet_spent = λ d r l. refl;
  quiet_won = λ d r l. refl;
}

write_price-SameBooks :
    (db : AuctionDb) (lot : AuctionLot) (out : PriceResolutionOutput) (t : ℕ)
    (row : Option AuctionLot)
    → Ensures (λ x. SameBooks db x.0) (write_price db lot out t row)
unfolding write_price
write_price-SameBooks db lot out t none = tt
write_price-SameBooks db lot out t (some row) = elim (Bool-cases (is_unchanged lot row)) [
  | inl e ↦ rw e (update-SameBooks lot.id _ db (write_resolution-IsQuiet out t) _)
  | inr e ↦ rw e tt
]

apply_resolution-SameBooks :
    (db : AuctionDb) (lot : AuctionLot) (t : Option ℕ) (o : Option PriceResolutionOutput)
    → Ensures (λ x. SameBooks db x.0) (apply_resolution db lot t o)
unfolding apply_resolution
apply_resolution-SameBooks db lot t none = SameBooks-refl db
apply_resolution-SameBooks db lot t (some out) =
    elim (Bool-cases (out.leader_changed || out.price_changed)) [
      | inl e ↦ rw e (write_price-SameBooks db lot out _ (find_lot lot.id db.lots))
      | inr e ↦ rw e (SameBooks-refl db)
    ]

pub resolve-SameBooks :
    (db : AuctionDb) (lot : AuctionLot) (settings : SlowAuctionSettings) (t : Option ℕ)
    → Ensures (λ x. SameBooks db x.0) (resolve_price_with_client db lot settings t)
unfolding resolve_price_with_client
resolve-SameBooks db lot settings t = apply_resolution-SameBooks db lot t _
