-- ===== src/Trades/Examples.antt =====
-- A trade of a pick in a league of two-player rosters, on a server that infers types as PostgreSQL does, and the
-- theorems on trades at it.
use ht_mvp_backend.Prelude.{
  ℕ, zero, suc, ◌+◌, ◌-◌, ◌*◌, ◌≤◌, ◌<◌, ◌≡◌, ◌≢◌, ◌↔◌, ◌⊎◌, inl, inr, Bool, true, false, not,
  Option, none, some, List, [], ◌∷◌, map, find, any, all, keep, length, All, All-append, All-split,
  get_elem?, take, arith, Bool-cases, Option-cases, ◌==◌, ltb, leb, truthy, HasDistinct,
  if◌then◌else◌, sym, refl, ap, ◌∙◌,
}
use ht_mvp_backend.Rosters.{RosterPlayer, AcquiredType, League, get_max_roster_size, find_owner}
use ht_mvp_backend.Rosters.Invariant.{IsWithin}
use ht_mvp_backend.Trades.{
  TradeStatus, pending, cancelled, in_review, expired, completed, Trade, TradeItem, player, Roster,
  TradeDb, DraftPickAsset, TradeItemType, TradeError, find_by_id, find_league, with_status,
  count_vetoes, update_status, update_where, transfer_ownership,
}
use ht_mvp_backend.Trades.Resolve.{cancel_trade, veto_threshold, with_trades}
use ht_mvp_backend.Trades.Execute.{
  find_by_trade, player_items, pick_items, execute_trade, move_players, transfer_picks,
  validate_roster_sizes_for_trade,
}
use ht_mvp_backend.Trades.Accept.{process_review_complete, skipped}
use ht_mvp_backend.Trades.Lifecycle.{Follows}
use ht_mvp_backend.Trades.Lifecycle.UseCases.{IsKept, IsSparing}
use ht_mvp_backend.Trades.Lifecycle.Events.{
  Event, cancel, process_reviews, run_events, trades_follow_the_graph, closed_trades_are_final,
}
use ht_mvp_backend.Trades.Propose.{
  ProposeTradeRequest, validate_single_pick, proposed_trade, build_items,
}
use ht_mvp_backend.Trades.Proposed.{countered_picks_are_stuck}
use ht_mvp_backend.Trades.Transferred.{IsTransferred, DistinctPicks}
use ht_mvp_backend.Trades.Overwritten.{cancel_overwrites}
use ht_mvp_backend.Trades.Moved.{DistinctPlayers, DistinctMoves}
use ht_mvp_backend.Trades.Completed.{executed_trade_is_right}
use ht_mvp_backend.Trades.Reviewed.{IsDecided, review_decides, skipped_trade_changes_hands}

abbrev league_1 : League
league_1 = record {
  id = 1;
  settings = some (record {
    roster_size = some 2;
    trade_deadline = none;
    trade_review_enabled = true;
    trade_voting_enabled = false;
    trade_review_hours = none;
    trade_expiry_hours = none;
    trade_veto_count = some 2;
  });
}

abbrev reviewed : Trade
reviewed = record {
  id = 5;
  league_id = 1;
  proposer_roster_id = 1;
  recipient_roster_id = 2;
  status = in_review;
  expires_at = 100;
  review_starts_at = some 10;
  review_ends_at = some 50;
  completed_at = none;
  failure_reason = none;
}

abbrev item : ℕ → ℕ → ℕ → TradeItem
item p from to = record {
  trade_id = 5;
  item_type = player;
  player_id = some p;
  draft_pick_asset_id = none;
  from_roster_id = from;
  to_roster_id = to;
}

abbrev on_roster : ℕ → ℕ → RosterPlayer
on_roster r p = record { roster_id = r; player_id = p; acquired_type = AcquiredType.draft }

abbrev rows : List RosterPlayer
rows = on_roster 1 10 ∷ on_roster 2 20 ∷ on_roster 1 30 ∷ []

abbrev pick_90 : DraftPickAsset
pick_90 = record { id = 90; league_id = 1; draft_id = none; round = 2; current_owner_roster_id = 1 }

abbrev pick_traded : TradeItem
pick_traded = record {
  trade_id = 5;
  item_type = TradeItemType.draft_pick;
  player_id = none;
  draft_pick_asset_id = some 90;
  from_roster_id = 1;
  to_roster_id = 2;
}

abbrev db : TradeDb
db = record {
  leagues = league_1 ∷ [];
  rosters =
      record { id = 1; roster_id = 1; league_id = 1; user_id = 7 }
      ∷ record { id = 2; roster_id = 2; league_id = 1; user_id = 8 }
      ∷ [];
  trades = reviewed ∷ [];
  trade_items = pick_traded ∷ [];
  trade_votes = [];
  roster_players = rows;
  draft_pick_assets = pick_90 ∷ [];
  drafts = [];
  used_pick_assets = [];
  trade_block_items = [];
  infers_integers = false;
}

abbrev after : TradeDb
after = record db { draft_pick_assets = record pick_90 { current_owner_roster_id = 2 } ∷ [] }

execute_lem : execute_trade reviewed db ≡ inr after
unfolding execute_trade player_items pick_items move_players transfer_picks transfer_ownership
execute_lem = refl

rows-Distinct : DistinctPlayers rows
rows-Distinct = ((omega arith, (omega arith, tt)), ((omega arith, tt), (tt, tt)))

moves-Distinct : DistinctMoves (player_items (find_by_trade 5 db.trade_items))
unfolding player_items
moves-Distinct = tt

picks-Distinct : DistinctPicks (pick_items (find_by_trade 5 db.trade_items))
unfolding pick_items
picks-Distinct = (tt, tt)

rows-IsWithin : IsWithin (get_max_roster_size league_1.settings) rows
unfolding get_max_roster_size
rows-IsWithin r = elim (Bool-cases (1 == r)) [
  | inl e ↦ let other : (2 == r) ≡ false = ground arith in rw (e, other) (omega arith)
  | inr e ↦ elim (Bool-cases (2 == r)) [
    | inl f ↦ rw (e, f) (omega arith)
    | inr f ↦ rw (e, f) (omega arith)
  ]
]

abbrev trade_5 : ℕ
trade_5 = 5

-- the job runs after the review, then the proposer tries to cancel
abbrev job_then_cancel : List Event
job_then_cancel = process_reviews 60 (λ xs. xs) db ∷ cancel trade_5 7 61 (λ xs. xs) db ∷ []

idle-IsSparing : IsSparing trade_5 (λ xs. xs)
idle-IsSparing xs = (λ i t h. (t, (h, ht_mvp_backend.Trades.Lifecycle.same)), λ t h. h)

trades_follow_the_graph_example : Follows db.trades (run_events job_then_cancel db).trades
trades_follow_the_graph_example =
    trades_follow_the_graph job_then_cancel db
      ((λ xs i t h. (t, (h, ht_mvp_backend.Trades.Lifecycle.same))), (idle-IsSparing, tt))

abbrev done_trade : Trade
done_trade = with_status TradeStatus.completed 60 reviewed

abbrev done_db : TradeDb
done_db = record db { trades = done_trade ∷ [] }

closed_trades_are_final_example :
    find_by_id trade_5 (run_events (cancel trade_5 7 61 (λ xs. xs) db ∷ []) done_db).trades
    ≡ some done_trade
closed_trades_are_final_example =
    closed_trades_are_final (cancel trade_5 7 61 (λ xs. xs) db ∷ []) done_db trade_5 done_trade
      (idle-IsSparing, tt) refl refl

executed_trade_is_right_example :
    All
      (λ m. find_owner m.player_id after.roster_players ≡ some m.to_roster_id)
      (player_items (find_by_trade 5 db.trade_items))
    × (((p : ℕ)
          → All (λ m. p ≢ m.player_id) (player_items (find_by_trade 5 db.trade_items))
          → find_owner p after.roster_players ≡ find_owner p rows)
        × IsWithin (get_max_roster_size league_1.settings) after.roster_players
        × IsTransferred
            (pick_items (find_by_trade 5 db.trade_items))
            db.draft_pick_assets
            after.draft_pick_assets)
executed_trade_is_right_example =
    executed_trade_is_right reviewed league_1 db after refl rows-Distinct rows-IsWithin
      moves-Distinct picks-Distinct execute_lem

review_decides_example :
    IsKept
      (IsDecided reviewed league_1 60 db)
      (process_review_complete reviewed league_1 60 (λ xs. xs) db)
review_decides_example = review_decides reviewed league_1 60 db (refl, refl)

-- a statement that does not take the TRADE lock
abbrev expire_every : List Trade → List Trade
expire_every trades = map (with_status expired 55) trades

valid_lem : validate_roster_sizes_for_trade reviewed league_1 db ≡ none
unfolding validate_roster_sizes_for_trade player_items get_max_roster_size
    ht_mvp_backend.Prelude.◌+ℤ◌
valid_lem = refl

no_hit :
    update_status trade_5 TradeStatus.completed (some in_review) 60 (expire_every db.trades) ≡ none
unfolding update_status
no_hit = refl

threshold_lem : count_vetoes trade_5 db.trade_votes < veto_threshold (some league_1)
unfolding veto_threshold
threshold_lem = omega arith

skipped_trade_changes_hands_example :
    (process_review_complete reviewed league_1 60 expire_every db
      ≡ inr (skipped (with_trades after (expire_every db.trades))))
    × All
        (λ m. find_owner m.player_id after.roster_players ≡ some m.to_roster_id)
        (player_items (find_by_trade 5 db.trade_items))
    × IsTransferred
        (pick_items (find_by_trade 5 db.trade_items))
        db.draft_pick_assets
        after.draft_pick_assets
skipped_trade_changes_hands_example =
    skipped_trade_changes_hands reviewed league_1 60 expire_every db after (refl, refl) refl
      rows-Distinct rows-IsWithin moves-Distinct picks-Distinct threshold_lem valid_lem execute_lem
      no_hit

-- a trade that was countered, with a pick of roster 1
abbrev countered_trade : Trade
countered_trade = with_status TradeStatus.countered 20 reviewed

abbrev countered_db : TradeDb
countered_db = record db { trades = countered_trade ∷ [] }

countered_picks_are_stuck_example :
    (e : TradeError) × (validate_single_pick 1 90 1 countered_db ≡ inl e)
countered_picks_are_stuck_example =
    countered_picks_are_stuck 1 90 1 trade_5 countered_trade countered_db refl refl refl

abbrev open_db : TradeDb
open_db = record db { trades = []; trade_items = []; draft_pick_assets = pick_90 ∷ [] }

-- roster 1 gives player 10 and a pick for player 20
abbrev request : ProposeTradeRequest
request = record {
  recipient_roster_id = 2;
  offering_player_ids = 10 ∷ [];
  requesting_player_ids = 20 ∷ [];
  offering_pick_asset_ids = 90 ∷ [];
  requesting_pick_asset_ids = [];
}

abbrev league_players : List ℕ
league_players = 10 ∷ 20 ∷ 30 ∷ []

abbrev proposed_db : TradeDb
proposed_db = record open_db {
  trades = proposed_trade 6 1 1 2 172800060 ∷ [];
  trade_items = build_items 6 1 2 request;
}

abbrev player_db : TradeDb
player_db = record db { trade_items = item 10 1 2 ∷ item 20 2 1 ∷ [] }

abbrev pending_trade : Trade
pending_trade = record reviewed { status = pending }

abbrev pending_db : TradeDb
pending_db = record db { trades = pending_trade ∷ [] }

cancel_overwrites_example :
    (zs : List Trade) × (cancel_trade trade_5 7 120 expire_every pending_db pending_db
      ≡ inr (with_trades pending_db zs))
    × (find_by_id trade_5 zs
        ≡ some (with_status cancelled 120 (with_status expired 55 pending_trade)))
cancel_overwrites_example =
    cancel_overwrites trade_5 7 120 expire_every pending_db pending_db pending_trade pending_trade
      (with_status expired 55 pending_trade) refl refl refl refl refl refl
