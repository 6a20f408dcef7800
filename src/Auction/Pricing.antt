-- ===== src/Auction/Pricing.antt =====
-- domain/auction/pricing.ts: second-price resolution over proxy bids, highest first.
pub mod SecondPrice
use ht_mvp_backend.Prelude.{
  ℕ, zero, suc, ◌+◌, Bool, true, false, not, ◌&&◌, Option, none, some, List, [], ◌∷◌, ◌==◌, truthy,
  min, max, if◌then◌else◌,
}

pub record ProxyBidSnapshot : Type 0 where
  pub roster_id : ℕ
  pub max_bid : ℕ

pub record OutbidNotification : Type 0 where
  pub roster_id : ℕ
  pub lot_id : ℕ
  pub previous_bid : ℕ
  pub new_leading_bid : ℕ

pub record PriceResolutionInput : Type 0 where
  pub lot_id : ℕ
  pub current_bid : ℕ
  pub current_bidder_roster_id : Option ℕ
  pub proxy_bids : List ProxyBidSnapshot
  pub min_bid : ℕ
  pub min_increment : ℕ

pub record PriceResolutionOutput : Type 0 where
  pub new_leader : ℕ
  pub new_price : ℕ
  pub leader_changed : Bool
  pub price_changed : Bool
  pub new_bid_count : ℕ
  pub outbid_notifications : List OutbidNotification

-- `id !== nullable`
abbrev pub differs : ℕ → Option ℕ → Bool
differs a none = true
differs a (some b) = not (a == b)

-- The price before the monotonic guard, for the highest bid and the ones below it.
unguarded_price : PriceResolutionInput → ProxyBidSnapshot → List ProxyBidSnapshot → ℕ
unguarded_price input highest [] = max input.current_bid input.min_bid
unguarded_price input highest (second_highest ∷ rest) =
    min highest.max_bid (second_highest.max_bid + input.min_increment)

notifications : Bool → Option ℕ → PriceResolutionInput → ℕ → List OutbidNotification
notifications true (some (suc n)) input new_price =
    record {
      roster_id = suc n;
      lot_id = input.lot_id;
      previous_bid = input.current_bid;
      new_leading_bid = new_price;
    }
    ∷ []
notifications changed previous input new_price = []

resolve_with :
    PriceResolutionInput → ℕ → ProxyBidSnapshot → List ProxyBidSnapshot → PriceResolutionOutput
unfolding unguarded_price notifications
resolve_with input current_bid_count highest rest =
    let new_price = max (unguarded_price input highest rest) input.current_bid in
    let leader_changed = differs highest.roster_id input.current_bidder_roster_id in
    let price_changed = not (new_price == input.current_bid) in
    record {
      new_leader = highest.roster_id;
      new_price = new_price;
      leader_changed = leader_changed;
      price_changed = price_changed;
      new_bid_count = if price_changed then current_bid_count + 1 else current_bid_count;
      outbid_notifications =
          notifications leader_changed input.current_bidder_roster_id input new_price;
    }

resolve_bids : PriceResolutionInput → ℕ → List ProxyBidSnapshot → Option PriceResolutionOutput
unfolding resolve_with
resolve_bids input current_bid_count [] = none
resolve_bids input current_bid_count (highest ∷ rest) =
    some (resolve_with input current_bid_count highest rest)

unfoldable pub resolve_second_price : PriceResolutionInput → ℕ → Option PriceResolutionOutput
unfolding resolve_bids
resolve_second_price input current_bid_count = resolve_bids input current_bid_count input.proxy_bids
