-- ===== src/Trades.antt =====
-- modules/trades: the trades, items, votes, rosters and pick assets that the use cases read and write, and the
-- statements of trades.repository.ts and draft-pick-asset.repository.ts that they run. A use case runs
-- in a transaction, so one that throws leaves the database as it was.
pub mod Resolve
pub mod Propose
pub mod Proposed
pub mod Backed
pub mod Execute
pub mod Accept
pub mod Lifecycle
pub mod Deltas
pub mod Moved
pub mod Swapped
pub mod Transferred
pub mod Completed
pub mod Reviewed
pub mod Overwritten
pub mod Examples
use ht_mvp_backend.Prelude.{
  ℕ, zero, suc, ◌+◌, Bool, true, false, Option, none, some, List, [], ◌∷◌, map, length, keep, find,
  any, ltb, ◌==◌, truthy, if◌then◌else◌, ◌⊎◌, inl, inr,
}
use ht_mvp_backend.Rosters.{RosterPlayer, League}

pub data TradeStatus : Type 0 where
  pending : TradeStatus
  countered : TradeStatus
  accepted : TradeStatus
  in_review : TradeStatus
  completed : TradeStatus
  rejected : TradeStatus
  cancelled : TradeStatus
  expired : TradeStatus
  vetoed : TradeStatus
  failed : TradeStatus

abbrev pub status_code : TradeStatus → ℕ
status_code pending = 0
status_code countered = 1
status_code accepted = 2
status_code in_review = 3
status_code completed = 4
status_code rejected = 5
status_code cancelled = 6
status_code expired = 7
status_code vetoed = 8
status_code failed = 9

abbrev pub is_status : TradeStatus → TradeStatus → Bool
is_status a b = status_code a == status_code b

-- what the message of validateRosterSizesForTrade is built from
pub record FailureReason : Type 0 where
  pub roster_id : ℕ
  pub projected_size : ℕ
  pub max_roster_size : ℕ

pub record Trade : Type 0 where
  pub id : ℕ
  pub league_id : ℕ
  pub proposer_roster_id : ℕ
  pub recipient_roster_id : ℕ
  pub status : TradeStatus
  pub expires_at : ℕ
  pub review_starts_at : Option ℕ
  pub review_ends_at : Option ℕ
  pub completed_at : Option ℕ
  pub failure_reason : Option FailureReason

pub data TradeItemType : Type 0 where
  player : TradeItemType
  draft_pick : TradeItemType

pub record TradeItem : Type 0 where
  pub trade_id : ℕ
  pub item_type : TradeItemType
  pub player_id : Option ℕ
  pub draft_pick_asset_id : Option ℕ
  pub from_roster_id : ℕ
  pub to_roster_id : ℕ

pub data Vote : Type 0 where
  approve : Vote
  veto : Vote

pub record TradeVote : Type 0 where
  pub trade_id : ℕ
  pub roster_id : ℕ
  pub vote : Vote

pub record Roster : Type 0 where
  pub id : ℕ
  pub roster_id : ℕ
  pub league_id : ℕ
  pub user_id : ℕ

pub data DraftStatus : Type 0 where
  not_started : DraftStatus
  in_progress : DraftStatus
  paused : DraftStatus
  completed : DraftStatus

pub record Draft : Type 0 where
  pub id : ℕ
  pub status : DraftStatus
  pub current_round : ℕ

pub record DraftPickAsset : Type 0 where
  pub id : ℕ
  pub league_id : ℕ
  pub draft_id : Option ℕ
  pub round : ℕ
  pub current_owner_roster_id : ℕ

-- a row of trade_block_items
pub record BlockItem : Type 0 where
  pub roster_id : ℕ
  pub player_id : ℕ

-- The tables, and the server: `infers_integers` is whether it gives a CASE over untyped parameters the type of
-- the column that it is assigned to. PostgreSQL takes it as text, and refuses it for an integer column.
pub record TradeDb : Type 0 where
  pub leagues : List League
  pub rosters : List Roster
  pub trades : List Trade
  pub trade_items : List TradeItem
  pub trade_votes : List TradeVote
  pub roster_players : List RosterPlayer
  pub draft_pick_assets : List DraftPickAsset
  pub drafts : List Draft
  pub used_pick_assets : List ℕ
  pub trade_block_items : List BlockItem
  pub infers_integers : Bool

pub data TradeError : Type 0 where
  trade_not_found : TradeError
  league_not_found : TradeError
  forbidden : TradeError
  own_trade : TradeError
  wrong_status : TradeStatus → TradeError
  not_in_review : TradeError
  status_changed : TradeError
  -- the server refuses a statement
  query_refused : TradeError
  deadline_passed : TradeError
  player_moved : TradeError
  pick_not_owned : TradeError
  pick_used : TradeError
  round_has_passed : TradeError
  pick_asset_not_found : TradeError
  recipient_not_found : TradeError
  empty_trade : TradeError
  wrong_league : TradeError
  not_owned : TradeError
  in_pending_trade : TradeError
  player_not_found : TradeError
  roster_would_exceed : ℕ → TradeError
  not_all_moved : TradeError

abbrev pub Result : Type 0 → Type 0
Result A = TradeError ⊎ A

abbrev pub and_then : {A B : Type 0} → Result A → (A → Result B) → Result B
and_then (inl e) f = inl e
and_then (inr a) f = f a

-- a guard that throws
abbrev pub reject_if : {A : Type 0} → Bool → TradeError → Result A → Result A
reject_if true e rest = inl e
reject_if false e rest = rest

abbrev pub find_by_id : ℕ → List Trade → Option Trade
find_by_id trade_id trades = find (λ t. t.id == trade_id) trades

abbrev pub find_roster : ℕ → List Roster → Option Roster
find_roster roster_id rosters = find (λ r. r.id == roster_id) rosters

abbrev pub find_by_league_and_user : ℕ → ℕ → List Roster → Option Roster
find_by_league_and_user league_id user_id rosters =
    find (λ r. if r.league_id == league_id then r.user_id == user_id else false) rosters

abbrev pub find_by_league_and_roster_id : ℕ → ℕ → List Roster → Option Roster
find_by_league_and_roster_id league_id roster_id rosters =
    find (λ r. if r.league_id == league_id then r.roster_id == roster_id else false) rosters

abbrev pub find_league : ℕ → List League → Option League
find_league league_id leagues = find (λ l. l.id == league_id) leagues

-- UPDATE trades SET … WHERE …
abbrev pub update_where : (Trade → Bool) → (Trade → Trade) → List Trade → List Trade
update_where p f trades = map (λ t. if p t then f t else t) trades

abbrev pub matches : ℕ → Option TradeStatus → Trade → Bool
matches trade_id none t = t.id == trade_id
matches trade_id (some expected) t = if t.id == trade_id then is_status t.status expected else false

abbrev pub completed_time : TradeStatus → ℕ → Option ℕ → Option ℕ
completed_time TradeStatus.completed now previous = some now
completed_time _ now previous = previous

abbrev pub with_status : TradeStatus → ℕ → Trade → Trade
with_status status now t = record t {
  status = status;
  completed_at = completed_time status now t.completed_at;
}

abbrev pub with_reason : TradeStatus → FailureReason → Trade → Trade
with_reason status reason t = record t { status = status; failure_reason = some reason }

abbrev pub with_review : ℕ → ℕ → Trade → Trade
with_review starts_at ends_at t = record t {
  status = in_review;
  review_starts_at = some starts_at;
  review_ends_at = some ends_at;
}

-- the rows that an update leaves, or none when it matched no row
abbrev pub updated_rows : (Trade → Bool) → (Trade → Trade) → List Trade → Option (List Trade)
updated_rows p f trades = if any p trades then some (update_where p f trades) else none

unfoldable pub update_status :
    ℕ → TradeStatus → Option TradeStatus → ℕ → List Trade → Option (List Trade)
update_status trade_id status expected now trades =
    updated_rows (matches trade_id expected) (with_status status now) trades

unfoldable pub update_status_with_reason :
    ℕ → TradeStatus → FailureReason → Option TradeStatus → List Trade → Option (List Trade)
update_status_with_reason trade_id status reason expected trades =
    updated_rows (matches trade_id expected) (with_reason status reason) trades

unfoldable pub set_review_period : ℕ → ℕ → ℕ → List Trade → Option (List Trade)
set_review_period trade_id starts_at ends_at trades =
    updated_rows (matches trade_id (some pending)) (with_review starts_at ends_at) trades

abbrev pub count_vetoes : ℕ → List TradeVote → ℕ
count_vetoes trade_id votes =
    length (keep (λ v. if v.trade_id == trade_id then is_veto v.vote else false) votes)
  where
    is_veto : Vote → Bool
    is_veto veto = true
    is_veto approve = false

abbrev pub has_voted : ℕ → ℕ → List TradeVote → Bool
has_voted trade_id roster_id votes =
    any (λ v. if v.trade_id == trade_id then v.roster_id == roster_id else false) votes

abbrev pub find_pick_asset : ℕ → List DraftPickAsset → Option DraftPickAsset
find_pick_asset asset_id assets = find (λ a. a.id == asset_id) assets

abbrev pub transfer_row : ℕ → ℕ → DraftPickAsset → DraftPickAsset
transfer_row asset_id new_owner a =
    if a.id == asset_id then record a { current_owner_roster_id = new_owner } else a

unfoldable pub transfer_ownership : ℕ → ℕ → List DraftPickAsset → Result (List DraftPickAsset)
transfer_ownership asset_id new_owner assets =
    if any (λ a. a.id == asset_id) assets
    then inr (map (transfer_row asset_id new_owner) assets)
    else inl pick_asset_not_found
