-- ===== src/Trades/Propose.antt =====
-- propose-trade.use-case.ts and validate-pick-trade.use-case.ts, under the league's TRADE lock. The notes, chat
-- settings and names that the rows also carry are left out.
use ht_mvp_backend.Prelude.{
  ℕ, zero, suc, ◌+◌, ◌-◌, ◌*◌, inr, Bool, true, false, not, Option, none, some, List, [], ◌∷◌, ◌++◌,
  map, any, length, ◌==◌, ltb, if◌then◌else◌,
}
use ht_mvp_backend.Rosters.{
  RosterPlayer, League, LeagueSettings, get_max_roster_size, find_by_roster_and_player,
  player_count,
}
use ht_mvp_backend.Trades.{
  TradeStatus, pending, countered, accepted, in_review, Trade, TradeItem, player, draft_pick,
  Roster, TradeDb, forbidden, recipient_not_found, own_trade, league_not_found, deadline_passed,
  empty_trade, not_owned, in_pending_trade, player_not_found, wrong_league, pick_asset_not_found,
  pick_not_owned, pick_used, round_has_passed, roster_would_exceed, Result, and_then, reject_if,
  find_by_league_and_user, find_by_league_and_roster_id, find_league, find_pick_asset,
}
use ht_mvp_backend.Trades.Resolve.{found_or_throw, is_active_status, is_item_player}
use ht_mvp_backend.Trades.Accept.{is_pick_used, is_round_passed, has_passed, deadline_of}

pub record ProposeTradeRequest : Type 0 where
  pub recipient_roster_id : ℕ
  pub offering_player_ids : List ℕ
  pub requesting_player_ids : List ℕ
  pub offering_pick_asset_ids : List ℕ
  pub requesting_pick_asset_ids : List ℕ

abbrev pub default_trade_expiry_hours : ℕ
default_trade_expiry_hours = 48

abbrev expiry_or_default : Option ℕ → ℕ
expiry_or_default none = default_trade_expiry_hours
expiry_or_default (some zero) = default_trade_expiry_hours
expiry_or_default (some (suc n)) = suc n

abbrev pub expiry_hours : Option LeagueSettings → ℕ
expiry_hours none = default_trade_expiry_hours
expiry_hours (some settings) = expiry_or_default settings.trade_expiry_hours

abbrev pub is_absent : Option RosterPlayer → Bool
is_absent none = true
is_absent (some row) = false

-- batchValidateRosterPlayers finds one missing
abbrev pub any_missing : ℕ → List ℕ → List RosterPlayer → Bool
any_missing roster_id player_ids rows =
    any (λ p. is_absent (find_by_roster_and_player roster_id p rows)) player_ids

-- an item of an active trade of the league has the player
abbrev pub is_in_active_trade : ℕ → ℕ → TradeDb → Bool
is_in_active_trade league_id player_id db =
    any
      (λ t.
        if t.league_id == league_id
        then (if is_active_status t.status
            then any (is_item_player t.id player_id) db.trade_items
            else false)
        else false)
      db.trades

unfoldable pub validate_players : ℕ → ℕ → List ℕ → TradeDb → Result (Unit {0})
validate_players league_id roster_id player_ids db =
    reject_if (any_missing roster_id player_ids db.roster_players) not_owned (
      reject_if (any (λ p. is_in_active_trade league_id p db) player_ids) in_pending_trade (inr tt))

abbrev pub is_item_asset : ℕ → ℕ → TradeItem → Bool
is_item_asset trade_id asset_id item =
    if item.trade_id == trade_id then same item.draft_pick_asset_id else false
  where
    same : Option ℕ → Bool
    same none = false
    same (some a) = a == asset_id

-- the statuses of isInPendingTrade
abbrev pub holds_picks : TradeStatus → Bool
holds_picks pending = true
holds_picks countered = true
holds_picks accepted = true
holds_picks in_review = true
holds_picks _ = false

abbrev pub is_in_pending_trade : ℕ → TradeDb → Bool
is_in_pending_trade asset_id db =
    any
      (λ t.
        if holds_picks t.status then any (is_item_asset t.id asset_id) db.trade_items else false)
      db.trades

abbrev pub has_draft : Option ℕ → Bool
has_draft none = false
has_draft (some draft_id) = true

unfoldable pub validate_single_pick : ℕ → ℕ → ℕ → TradeDb → Result (Unit {0})
validate_single_pick league_id asset_id expected_owner db =
    and_then (found_or_throw pick_asset_not_found (find_pick_asset asset_id db.draft_pick_assets))
      (λ asset. reject_if (not (asset.league_id == league_id)) wrong_league (
        reject_if (not (asset.current_owner_roster_id == expected_owner)) pick_not_owned (
          reject_if (is_in_pending_trade asset_id db) in_pending_trade (
            reject_if (if has_draft asset.draft_id then is_pick_used asset_id db else false)
              pick_used
              (reject_if (if has_draft asset.draft_id then is_round_passed asset_id db else false)
                round_has_passed (inr tt))))))

abbrev pub validate_picks : ℕ → ℕ → List ℕ → TradeDb → Result (Unit {0})
validate_picks league_id expected_owner [] db = inr tt
validate_picks league_id expected_owner (asset_id ∷ asset_ids) db =
    and_then (validate_single_pick league_id asset_id expected_owner db)
      (λ u. validate_picks league_id expected_owner asset_ids db)

-- a roster that gains players and would have more than the maximum
abbrev would_exceed : ℕ → ℕ → ℕ → ℕ → Bool
would_exceed max_roster_size current_size incoming outgoing =
    if ltb outgoing incoming
    then ltb max_roster_size (current_size + (incoming - outgoing))
    else false

unfoldable pub validate_roster_sizes :
    League → ℕ → ℕ → ProposeTradeRequest → TradeDb → Result (Unit {0})
validate_roster_sizes league proposer_id recipient_id request db =
    let max_roster_size = get_max_roster_size league.settings in
    let offered = length request.offering_player_ids in
    let requested = length request.requesting_player_ids in
    reject_if
      (would_exceed max_roster_size (player_count proposer_id db.roster_players) requested offered)
      (roster_would_exceed proposer_id)
      (reject_if
        (would_exceed max_roster_size (player_count recipient_id db.roster_players) offered
          requested)
        (roster_would_exceed recipient_id) (inr tt))

abbrev pub player_item : ℕ → ℕ → ℕ → ℕ → TradeItem
player_item trade_id from to p = record {
  trade_id = trade_id;
  item_type = player;
  player_id = some p;
  draft_pick_asset_id = none;
  from_roster_id = from;
  to_roster_id = to;
}

abbrev pub pick_item : ℕ → ℕ → ℕ → ℕ → TradeItem
pick_item trade_id from to a = record {
  trade_id = trade_id;
  item_type = draft_pick;
  player_id = none;
  draft_pick_asset_id = some a;
  from_roster_id = from;
  to_roster_id = to;
}

abbrev pub build_items : ℕ → ℕ → ℕ → ProposeTradeRequest → List TradeItem
build_items trade_id proposer_id recipient_id request =
    map (player_item trade_id proposer_id recipient_id) request.offering_player_ids
    ++ (map (player_item trade_id recipient_id proposer_id) request.requesting_player_ids
        ++ (map (pick_item trade_id proposer_id recipient_id) request.offering_pick_asset_ids
            ++ map (pick_item trade_id recipient_id proposer_id) request.requesting_pick_asset_ids))

abbrev pub proposed_trade : ℕ → ℕ → ℕ → ℕ → ℕ → Trade
proposed_trade trade_id league_id proposer_id recipient_id expires_at = record {
  id = trade_id;
  league_id = league_id;
  proposer_roster_id = proposer_id;
  recipient_roster_id = recipient_id;
  status = pending;
  expires_at = expires_at;
  review_starts_at = none;
  review_ends_at = none;
  completed_at = none;
  failure_reason = none;
}

-- the insert of a trade with the next id and of its items; a replayed key inserts nothing
abbrev pub insert_trade :
    List ℕ → Bool → ℕ → ℕ → ℕ → League → ℕ → ℕ → ProposeTradeRequest → TradeDb → Result TradeDb
insert_trade player_ids replayed now trade_id league_id league proposer_id recipient_id request db =
    if replayed
    then inr db
    else reject_if
        (any (λ p. not (any (λ q. q == p) player_ids))
          (request.offering_player_ids ++ request.requesting_player_ids))
        player_not_found
        (inr (record db {
          trades =
              proposed_trade trade_id league_id proposer_id recipient_id
                (now + expiry_hours league.settings * 60 * 60 * 1000)
              ∷ db.trades;
          trade_items = build_items trade_id proposer_id recipient_id request ++ db.trade_items;
        }))

unfoldable pub propose_trade_core :
    List ℕ → Bool → ℕ → ℕ → ℕ → League → ℕ → ℕ → ProposeTradeRequest → TradeDb → Result TradeDb
propose_trade_core player_ids replayed now trade_id league_id league proposer_id recipient_id
      request db =
    and_then (validate_players league_id proposer_id request.offering_player_ids db) (λ a.
      and_then (validate_players league_id recipient_id request.requesting_player_ids db) (λ b.
        and_then (validate_picks league_id proposer_id request.offering_pick_asset_ids db) (λ c.
          and_then (validate_picks league_id recipient_id request.requesting_pick_asset_ids db)
            (λ d. and_then (validate_roster_sizes league proposer_id recipient_id request db) (λ e.
              insert_trade player_ids replayed now trade_id league_id league proposer_id
                recipient_id request db)))))

abbrev is_empty_request : ProposeTradeRequest → Bool
is_empty_request request =
    length request.offering_player_ids
      + length request.requesting_player_ids
      + length request.offering_pick_asset_ids
      + length request.requesting_pick_asset_ids
    == 0

unfoldable propose_to :
    List ℕ → Bool → ℕ → ℕ → ℕ → ProposeTradeRequest → TradeDb → Roster → Roster → Result TradeDb
propose_to player_ids replayed now trade_id league_id request db proposer recipient =
    reject_if (proposer.id == recipient.id) own_trade (
      and_then (found_or_throw league_not_found (find_league league_id db.leagues)) (λ league.
        reject_if (has_passed now (deadline_of league.settings)) deadline_passed (
          reject_if (is_empty_request request) empty_trade (
            propose_trade_core player_ids replayed now trade_id league_id league proposer.id
              recipient.id request db))))

-- `trade_id` is the next id of the sequence, `replayed` whether the idempotency key is on record, and
-- `player_ids` the players table
unfoldable pub propose_trade :
    List ℕ → Bool → ℕ → ℕ → ℕ → ℕ → ProposeTradeRequest → TradeDb → Result TradeDb
unfolding propose_to
propose_trade player_ids replayed now trade_id league_id user_id request db =
    and_then (found_or_throw forbidden (find_by_league_and_user league_id user_id db.rosters))
      (λ proposer.
        and_then
          (found_or_throw recipient_not_found
            (find_by_league_and_roster_id league_id request.recipient_roster_id db.rosters))
          (propose_to player_ids replayed now trade_id league_id request db proposer))
