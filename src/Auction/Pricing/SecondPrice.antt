-- ===== src/Auction/Pricing/SecondPrice.antt =====
-- The second-price rule: who wins, what the winner pays, and that resolving twice changes nothing.
use ht_mvp_backend.Prelude.{
  ℕ, suc, ◌+◌, ◌≤◌, ◌<◌, ◌≡◌, ◌≢◌, ◌↔◌, refl, true, false, none, some, List, [], ◌∷◌, max, arith,
  All, length,
}
use ht_mvp_backend.Auction.Pricing.{
  ProxyBidSnapshot, PriceResolutionInput, PriceResolutionOutput, resolve_second_price, resolve_with,
}

-- Highest first: every later bid is at most the one before it.
abbrev pub DescendingFrom : ℕ → List ProxyBidSnapshot → Type 0
DescendingFrom bound [] = Unit {0}
DescendingFrom bound (b ∷ bs) = (b.max_bid ≤ bound) × DescendingFrom b.max_bid bs

-- The bids that compete with the highest one, by the highest of them.
abbrev pub runner_up : List ProxyBidSnapshot → ℕ
runner_up [] = 0
runner_up (b ∷ bs) = b.max_bid

DescendingFrom-All :
    (bound top : ℕ) (bs : List ProxyBidSnapshot)
    → bound ≤ top
    → DescendingFrom bound bs
    → All (λ b. b.max_bid ≤ top) bs
DescendingFrom-All bound top [] h d = tt
DescendingFrom-All bound top (b ∷ bs) h d =
    (omega arith, DescendingFrom-All b.max_bid top bs (omega arith) d.1)

price_bounds :
    (input : PriceResolutionInput) (count : ℕ) (highest : ProxyBidSnapshot)
    (rest : List ProxyBidSnapshot)
    → DescendingFrom highest.max_bid rest
    → input.current_bid ≤ highest.max_bid
    → input.min_bid ≤ highest.max_bid
    → let out = resolve_with input count highest rest in
      (out.new_leader ≡ highest.roster_id)
      × (input.current_bid ≤ out.new_price)
      × (out.new_price ≤ highest.max_bid)
      × (runner_up rest ≤ out.new_price)
      × (rest ≡ [] → input.min_bid ≤ out.new_price)
      × (0 < length rest
          → out.new_price ≤ max input.current_bid (runner_up rest + input.min_increment))
unfolding resolve_with
price_bounds input count highest [] d c m =
    (refl, ground arith, ground arith, ground arith, λ _. ground arith, λ h. ground arith)
price_bounds input count highest (b ∷ bs) d c m =
    (refl, ground arith, ground arith, ground arith, λ e. cc, λ _. ground arith)

resolved_with :
    (input : PriceResolutionInput) (count : ℕ) (highest : ProxyBidSnapshot)
    (rest : List ProxyBidSnapshot) (out : PriceResolutionOutput)
    → input.proxy_bids ≡ highest ∷ rest
    → resolve_second_price input count ≡ some out
    → out ≡ resolve_with input count highest rest
unfolding resolve_second_price
resolved_with input count highest rest out bids resolved = ground arith

-- The input that a resolution leaves for the next one.
abbrev pub next_input : PriceResolutionInput → PriceResolutionOutput → PriceResolutionInput
next_input input out = record input {
  current_bid = out.new_price;
  current_bidder_roster_id = some out.new_leader;
}

resolve_with_stable :
    (input : PriceResolutionInput) (count : ℕ) (highest : ProxyBidSnapshot)
    (rest : List ProxyBidSnapshot)
    → let out = resolve_with input count highest rest in
      let again = resolve_with (next_input input out) out.new_bid_count highest rest in
      (again.new_leader ≡ out.new_leader)
      × (again.new_price ≡ out.new_price)
      × (again.leader_changed ≡ false)
      × (again.price_changed ≡ false)
      × (again.new_bid_count ≡ out.new_bid_count)
      × (again.outbid_notifications ≡ [])
unfolding resolve_with
resolve_with_stable input count highest [] = ground arith
resolve_with_stable input count highest (b ∷ bs) = ground arith

module _ (input : PriceResolutionInput) (count : ℕ) where
  -- Without proxy bids there is nothing to resolve; with any there is a result.
  resolves_iff : (resolve_second_price input count ≡ none) ↔ (input.proxy_bids ≡ [])
  unfolding resolve_second_price
  resolves_iff = ground arith

  module _ (highest : ProxyBidSnapshot) (rest : List ProxyBidSnapshot) (out : PriceResolutionOutput)
      (bids : input.proxy_bids ≡ highest ∷ rest)
      (resolved : resolve_second_price input count ≡ some out) where
    out_lem : out ≡ resolve_with input count highest rest
    out_lem = resolved_with input count highest rest out bids resolved

    -- With the bids in descending order, and the current bid and the minimum within the first of
    -- them: the winner is the first bid and nobody offered more; the price is at least the current
    -- bid, the best competing offer, and, without competition, the minimum; it is at most what the
    -- winner offered, and, with competition, at most an increment over the best competing offer, or
    -- the current bid.
    pub winner_pays_second_price :
        DescendingFrom highest.max_bid rest
        → input.current_bid ≤ highest.max_bid
        → input.min_bid ≤ highest.max_bid
        → (out.new_leader ≡ highest.roster_id)
          × All (λ b. b.max_bid ≤ highest.max_bid) rest
          × (input.current_bid ≤ out.new_price)
          × (out.new_price ≤ highest.max_bid)
          × (runner_up rest ≤ out.new_price)
          × (rest ≡ [] → input.min_bid ≤ out.new_price)
          × (0 < length rest
              → out.new_price ≤ max input.current_bid (runner_up rest + input.min_increment))
    winner_pays_second_price sorted cur_le min_le =
        let p = price_bounds input count highest rest sorted cur_le min_le in
        rw out_lem (
          p.0,
          DescendingFrom-All highest.max_bid highest.max_bid rest (omega arith) sorted,
          p.1,
          p.2,
          p.3,
          p.4,
          p.5,
        )

    -- Where there was a leader: the lead changes exactly when another roster has the highest bid,
    -- and exactly then the old leader, and nobody else, is told the new price; the price changes
    -- exactly when it rises, and exactly then the count of bids grows by one.
    reports_changes :
        (previous : ℕ)
        → input.current_bidder_roster_id ≡ some (suc previous)
        → ((out.leader_changed ≡ true) ↔ (suc previous ≢ highest.roster_id))
          × ((out.leader_changed ≡ true) ↔ (
              out.outbid_notifications
              ≡ record {
                roster_id = suc previous;
                lot_id = input.lot_id;
                previous_bid = input.current_bid;
                new_leading_bid = out.new_price;
              }
                ∷ []))
          × ((out.price_changed ≡ true) ↔ (out.new_bid_count ≡ count + 1))
          × ((out.price_changed ≡ true) ↔ (input.current_bid < out.new_price))
    unfolding resolve_with
    reports_changes previous e = rw out_lem (ground arith)

    -- Resolving once more, with the same bids and the price, leader and count that a resolution
    -- leaves, gives that price, leader and count again, changes nothing and notifies nobody.
    resolve_twice :
        (again : PriceResolutionOutput)
        → resolve_second_price (next_input input out) out.new_bid_count ≡ some again
        → (again.new_leader ≡ out.new_leader)
          × (again.new_price ≡ out.new_price)
          × (again.leader_changed ≡ false)
          × (again.price_changed ≡ false)
          × (again.new_bid_count ≡ out.new_bid_count)
          × (again.outbid_notifications ≡ [])
    resolve_twice again e =
        rw
          (
            resolved_with (next_input input out) out.new_bid_count highest rest again bids e,
            out_lem,
          )
          (resolve_with_stable input count highest rest)
