-- ===== src/Trades/Execute.antt =====
-- executeTrade (accept-trade.use-case.ts) and validateRosterSizesForTrade (process-trades.use-case.ts). The rows
-- of roster_transactions that executeTrade also writes are a log, and are left out.
use ht_mvp_backend.Prelude.{
  ℕ, zero, suc, ◌+◌, Bool, true, false, not, Option, none, some, List, [], ◌∷◌, map, length, any,
  keep, find, ltb, ◌==◌, if◌then◌else◌, inl, inr, ℤ, pos, negsuc, ◌+ℤ◌,
}
use ht_mvp_backend.Rosters.{
  RosterPlayer, AcquiredType, League, get_max_roster_size, find_by_roster_and_player, player_count,
}
use ht_mvp_backend.Trades.{
  Trade, TradeItem, TradeItemType, player, draft_pick, DraftPickAsset, BlockItem, FailureReason,
  TradeDb, league_not_found, player_moved, pick_not_owned, roster_would_exceed, not_all_moved,
  query_refused, Result, and_then, reject_if, find_league, find_pick_asset, transfer_ownership,
}

pub record PlayerMove : Type 0 where
  pub player_id : ℕ
  pub from_roster_id : ℕ
  pub to_roster_id : ℕ

pub record PickMove : Type 0 where
  pub draft_pick_asset_id : ℕ
  pub from_roster_id : ℕ
  pub to_roster_id : ℕ

abbrev pub find_by_trade : ℕ → List TradeItem → List TradeItem
find_by_trade trade_id items = keep (λ item. item.trade_id == trade_id) items

-- the items of type 'player' whose player id is truthy
abbrev pub player_move : TradeItemType → Option ℕ → TradeItem → List PlayerMove → List PlayerMove
player_move player (some (suc p)) item moves =
    record {
      player_id = suc p;
      from_roster_id = item.from_roster_id;
      to_roster_id = item.to_roster_id;
    }
    ∷ moves
player_move player (some zero) item moves = moves
player_move player none item moves = moves
player_move draft_pick id item moves = moves

unfoldable pub player_items : List TradeItem → List PlayerMove
player_items [] = []
player_items (item ∷ items) = player_move item.item_type item.player_id item (player_items items)

abbrev pub pick_move : TradeItemType → Option ℕ → TradeItem → List PickMove → List PickMove
pick_move draft_pick (some (suc a)) item moves =
    record {
      draft_pick_asset_id = suc a;
      from_roster_id = item.from_roster_id;
      to_roster_id = item.to_roster_id;
    }
    ∷ moves
pick_move draft_pick (some zero) item moves = moves
pick_move draft_pick none item moves = moves
pick_move player id item moves = moves

unfoldable pub pick_items : List TradeItem → List PickMove
pick_items [] = []
pick_items (item ∷ items) =
    pick_move item.item_type item.draft_pick_asset_id item (pick_items items)

abbrev pub owned_by : ℕ → Option DraftPickAsset → Bool
owned_by roster_id none = false
owned_by roster_id (some asset) = asset.current_owner_roster_id == roster_id

abbrev pub any_pick_moved : List PickMove → List DraftPickAsset → Bool
any_pick_moved moves assets =
    any (λ m. not (owned_by m.from_roster_id (find_pick_asset m.draft_pick_asset_id assets))) moves

abbrev pub is_none : Option RosterPlayer → Bool
is_none none = true
is_none (some row) = false

abbrev pub any_player_missing : List PlayerMove → List RosterPlayer → Bool
any_player_missing moves rows =
    any (λ m. is_none (find_by_roster_and_player m.from_roster_id m.player_id rows)) moves

-- the Map from a roster to what it gains less what it gives, in the order of first insertion
pub record RosterDelta : Type 0 where
  pub roster_id : ℕ
  pub delta : ℤ

abbrev pub bump : ℕ → ℤ → List RosterDelta → List RosterDelta
bump roster_id change [] = record { roster_id = roster_id; delta = change } ∷ []
bump roster_id change (d ∷ ds) =
    if d.roster_id == roster_id
    then record d { delta = d.delta +ℤ change } ∷ ds
    else d ∷ bump roster_id change ds

abbrev pub add_deltas : List PlayerMove → List RosterDelta → List RosterDelta
add_deltas [] deltas = deltas
add_deltas (m ∷ moves) deltas =
    add_deltas moves (bump m.to_roster_id (pos 1) (bump m.from_roster_id (negsuc 0) deltas))

abbrev pub roster_deltas : List PlayerMove → List RosterDelta
roster_deltas moves = add_deltas moves []

-- whether a roster that gains players would have more than the maximum
abbrev pub exceeds : ℕ → ℤ → ℕ → Bool
exceeds max_roster_size (pos delta) current_size =
    if ltb 0 delta then ltb max_roster_size (current_size + delta) else false
exceeds max_roster_size (negsuc n) current_size = false

abbrev pub find_exceeding : ℕ → List RosterPlayer → List RosterDelta → Option RosterDelta
find_exceeding max_roster_size rows deltas =
    find (λ d. exceeds max_roster_size d.delta (player_count d.roster_id rows)) deltas

-- CASE WHEN player_id = … THEN … END, of a row's two ids; the rows updated match some WHEN
abbrev pub destination : List PlayerMove → ℕ → ℕ → ℕ
destination [] player_id roster_id = roster_id
destination (m ∷ moves) player_id roster_id =
    if m.player_id == player_id then m.to_roster_id else destination moves player_id roster_id

-- WHERE player_id = ANY(…) AND roster_id = ANY(…)
abbrev pub is_moved : List PlayerMove → RosterPlayer → Bool
is_moved moves row =
    if any (λ m. m.player_id == row.player_id) moves
    then any (λ m. m.from_roster_id == row.roster_id) moves
    else false

abbrev pub swap_row : List PlayerMove → RosterPlayer → RosterPlayer
swap_row moves row =
    if is_moved moves row
    then record row {
      roster_id = destination moves row.player_id row.roster_id;
      acquired_type = AcquiredType.trade;
    }
    else row

abbrev pub swap_rows : List PlayerMove → List RosterPlayer → List RosterPlayer
swap_rows moves rows = map (swap_row moves) rows

abbrev pub clear_block : List PlayerMove → List BlockItem → List BlockItem
clear_block [] block = block
clear_block (m ∷ moves) block = clear_block moves (
    keep (λ b. not (if b.roster_id == m.from_roster_id then b.player_id == m.player_id else false))
      block)

abbrev pub check_exceeding : Option RosterDelta → Result TradeDb → Result TradeDb
check_exceeding none rest = rest
check_exceeding (some d) rest = inl (roster_would_exceed d.roster_id)

abbrev pub move_checked : ℕ → List PlayerMove → TradeDb → Result TradeDb
move_checked max_roster_size moves db =
    check_exceeding (find_exceeding max_roster_size db.roster_players (roster_deltas moves)) (
      reject_if (not db.infers_integers) query_refused (
        reject_if (not (length (keep (is_moved moves) db.roster_players) == length moves))
          not_all_moved
          (inr (record db {
            roster_players = swap_rows moves db.roster_players;
            trade_block_items = clear_block moves db.trade_block_items;
          }))))

abbrev pub move_in_league : Option League → List PlayerMove → TradeDb → Result TradeDb
move_in_league none moves db = inl league_not_found
move_in_league (some league) moves db = move_checked (get_max_roster_size league.settings) moves db

unfoldable pub move_players : ℕ → List PlayerMove → TradeDb → Result TradeDb
move_players league_id [] db = inr db
move_players league_id (m ∷ moves) db =
    reject_if (any_player_missing (m ∷ moves) db.roster_players) player_moved
      (move_in_league (find_league league_id db.leagues) (m ∷ moves) db)

abbrev pub transfer_all : List PickMove → List DraftPickAsset → Result (List DraftPickAsset)
transfer_all [] assets = inr assets
transfer_all (m ∷ moves) assets =
    and_then (transfer_ownership m.draft_pick_asset_id m.to_roster_id assets) (transfer_all moves)

unfoldable pub transfer_picks : List PickMove → TradeDb → Result TradeDb
transfer_picks moves db =
    and_then (transfer_all moves db.draft_pick_assets)
      (λ assets. inr (record db { draft_pick_assets = assets }))

unfoldable pub execute_trade : Trade → TradeDb → Result TradeDb
execute_trade trade db =
    let items = find_by_trade trade.id db.trade_items in
    reject_if (any_pick_moved (pick_items items) db.draft_pick_assets) pick_not_owned (
      and_then (move_players trade.league_id (player_items items) db)
        (transfer_picks (pick_items items)))

abbrev pub reason_of : ℕ → List RosterPlayer → Option RosterDelta → Option FailureReason
reason_of max_roster_size rows none = none
reason_of max_roster_size rows (some d) = some (record {
  roster_id = d.roster_id;
  projected_size = projected (player_count d.roster_id rows) d.delta;
  max_roster_size = max_roster_size;
})
  where
    projected : ℕ → ℤ → ℕ
    projected current_size (pos n) = current_size + n
    projected current_size (negsuc n) = current_size

unfoldable pub validate_roster_sizes_for_trade : Trade → League → TradeDb → Option FailureReason
validate_roster_sizes_for_trade trade league db =
    let max_roster_size = get_max_roster_size league.settings in
    reason_of max_roster_size db.roster_players (
      find_exceeding max_roster_size db.roster_players
        (roster_deltas (player_items (find_by_trade trade.id db.trade_items))))
