-- ===== src/Auction/Slow.antt =====
-- modules/drafts/auction: the data of the slow auction. A database table is the list of its rows; a
-- Date is its time in milliseconds, a calendar day is its number.
pub mod Rows
pub mod Resolve
pub mod SetMaxBid
pub mod Nominate
pub mod Settle
pub mod Ledger
pub mod Solvency
pub mod Keys
pub mod Ensures
pub mod Books
pub mod Bids
pub mod Nominations
pub mod Prices
pub mod Run
pub mod Replay
pub mod Refused
use ht_mvp_backend.Prelude.{ℕ, Bool, String, Option, none, some, List, truthy}

pub data LotStatus : Type 0 where
  pending active won passed : LotStatus

pub record AuctionLot : Type 0 where
  pub id : ℕ
  pub draft_id : ℕ
  pub player_id : ℕ
  pub nominator_roster_id : ℕ
  pub current_bid : ℕ
  pub current_bidder_roster_id : Option ℕ
  pub bid_count : ℕ
  pub bid_deadline : ℕ
  pub status : LotStatus
  pub winning_roster_id : Option ℕ
  pub winning_bid : Option ℕ
  pub nomination_date : ℕ
  pub idempotency_key : Option String

pub record AuctionProxyBid : Type 0 where
  pub lot_id : ℕ
  pub roster_id : ℕ
  pub max_bid : ℕ
  pub created_at : ℕ

pub record AuctionBidHistory : Type 0 where
  pub lot_id : ℕ
  pub roster_id : ℕ
  pub bid_amount : ℕ
  pub is_proxy : Bool
  pub idempotency_key : Option String

pub record AuctionPick : Type 0 where
  pub draft_id : ℕ
  pub roster_id : ℕ
  pub player_id : ℕ

pub record QueueEntry : Type 0 where
  pub draft_id : ℕ
  pub player_id : ℕ

pub record AuctionDb : Type 0 where
  pub lots : List AuctionLot
  pub proxy_bids : List AuctionProxyBid
  pub bid_history : List AuctionBidHistory
  pub draft_picks : List AuctionPick
  pub draft_queue : List QueueEntry
  -- the next value of the lots' id sequence
  pub next_lot_id : ℕ

pub record SlowAuctionSettings : Type 0 where
  pub bid_window_seconds : ℕ
  pub max_active_nominations_per_team : ℕ
  pub max_active_nominations_global : Option ℕ
  pub daily_nomination_limit : Option ℕ
  pub min_bid : ℕ
  pub min_increment : ℕ

-- draft.settings, as stored: every field may be absent.
pub record StoredSettings : Type 0 where
  pub bid_window_seconds : Option ℕ
  pub max_active_nominations_per_team : Option ℕ
  pub max_active_nominations_global : Option ℕ
  pub daily_nomination_limit : Option ℕ
  pub min_bid : Option ℕ
  pub min_increment : Option ℕ

pub data DraftStatus : Type 0 where
  not_started in_progress paused completed : DraftStatus

pub data DraftType : Type 0 where
  snake linear auction matchups : DraftType

pub record Draft : Type 0 where
  pub id : ℕ
  pub league_id : ℕ
  pub status : DraftStatus
  pub draft_type : DraftType
  pub settings : StoredSettings

pub record League : Type 0 where
  pub auction_budget : Option ℕ
  pub roster_slots : Option ℕ

-- What the handlers read and never write: other tables, the clock's two calendars, and the server:
-- `locks_aggregates` is whether it takes FOR UPDATE in a query of aggregates, which PostgreSQL refuses.
pub record Env : Type 0 where
  pub find_draft : ℕ → Option Draft
  pub find_league : ℕ → Option League
  pub player_exists : ℕ → Bool
  pub utc_day : ℕ → ℕ
  pub eastern_day : ℕ → ℕ
  pub locks_aggregates : Bool

pub data AuctionError : Type 0 where
  draft_not_found league_not_found lot_not_found : AuctionError
  not_in_progress not_auction player_not_found already_drafted : AuctionError
  roster_full team_cap global_cap daily_cap already_nominated : AuctionError
  lot_not_active wrong_draft lot_expired : AuctionError
  below_min_bid unsafe_bid unaffordable_bid : AuctionError
  simultaneous_bid already_settled : AuctionError
  -- the server refuses a statement
  query_refused : AuctionError
  -- a property of `undefined` is read
  type_error : AuctionError

-- What a transaction throws, or what it returns.
pub data Result {ℓ} (T : Type ℓ) : Type ℓ where
  err : AuctionError → Result T
  ok : T → Result T

-- `value ?? fallback`
abbrev pub or_else {ℓ} : {T : Type ℓ} → Option T → T → T
or_else (some value) fallback = value
or_else none fallback = fallback

-- `if (!value) throw`, of a row or a record
abbrev pub or_throw {ℓ} : {T : Type ℓ} → Option T → AuctionError → Result T
or_throw (some value) reason = ok value
or_throw none reason = err reason

-- `if (!test) throw`
abbrev pub require : Bool → AuctionError → Result (Unit {0})
require Bool.false reason = err reason
require Bool.true reason = ok tt

infixl 5 ◌>>=◌
abbrev pub ◌>>=◌ {ℓ κ} : {S : Type ℓ} {T : Type κ} → Result S → (S → Result T) → Result T
err reason >>= next = err reason
ok value >>= next = next value

infixl 5 ◌>>◌
abbrev pub ◌>>◌ {κ} : {T : Type κ} → Result (Unit {0}) → Result T → Result T
check >> next = check >>= λ _. next

unfoldable pub get_settings : Draft → SlowAuctionSettings
get_settings draft = record {
  bid_window_seconds = or_else draft.settings.bid_window_seconds 43200;
  max_active_nominations_per_team = or_else draft.settings.max_active_nominations_per_team 2;
  max_active_nominations_global = some (or_else draft.settings.max_active_nominations_global 25);
  daily_nomination_limit = draft.settings.daily_nomination_limit;
  min_bid = or_else draft.settings.min_bid 1;
  min_increment = or_else draft.settings.min_increment 1;
}

abbrev pub total_budget : League → ℕ
total_budget league = or_else league.auction_budget 200

abbrev pub roster_slots : League → ℕ
roster_slots league = or_else league.roster_slots 15

-- The database after a transaction: an error rolls it back.
abbrev pub after {ℓ} : {A : Type ℓ} → AuctionDb → Result (AuctionDb × A) → AuctionDb
after db (ok (db', a)) = db'
after db (err e) = db
