-- ===== src/Auction/Slow/Nominate.antt =====
-- modules/drafts/auction/slow-auction.service.ts, `nominate`: under the roster's and the draft's
-- locks. `createLotWithClient` is handed no date, so the lot is stamped with the UTC day, while the
-- daily limit counts lots of the Eastern day.
use ht_mvp_backend.Prelude.{
  ℕ, suc, ◌+◌, ◌*◌, Bool, true, false, not, ◌&&◌, String, Option, none, some, List, [], ◌∷◌, ◌++◌,
  ◌==◌, find, any, ltb, truthy, if◌then◌else◌,
}
use ht_mvp_backend.Auction.Slow.{
  AuctionLot, AuctionDb, Env, SlowAuctionSettings, DraftStatus, DraftType, Result, ok, ◌>>=◌, ◌>>◌,
  require, or_throw, get_settings, roster_slots, active, draft_not_found, league_not_found,
  not_in_progress, not_auction, player_not_found, already_drafted, roster_full, team_cap,
  global_cap, daily_cap, already_nominated,
}
use ht_mvp_backend.Auction.Slow.Rows.{
  is_active, is_won, same_key, sum_lots, locked_budget_data, is_player_drafted,
}

abbrev pub is_in_progress : DraftStatus → Bool
is_in_progress DraftStatus.in_progress = true
is_in_progress _ = false

abbrev pub is_auction : DraftType → Bool
is_auction DraftType.auction = true
is_auction _ = false

-- The lots that each of the three limits counts.
unfoldable pub nominated_active : ℕ → AuctionLot → ℕ
nominated_active roster_id l =
    if l.nominator_roster_id == roster_id && is_active l.status then 1 else 0

unfoldable pub any_active : AuctionLot → ℕ
any_active l = if is_active l.status then 1 else 0

unfoldable pub nominated_on : ℕ → ℕ → AuctionLot → ℕ
nominated_on roster_id day l =
    if l.nominator_roster_id == roster_id && l.nomination_date == day then 1 else 0

-- `if (cap) { if (count >= cap) throw }`
unfoldable pub within_cap : ℕ → Option ℕ → Bool
within_cap count none = true
within_cap count (some cap) = if truthy (some cap) then ltb count cap else true

-- status IN ('active', 'won')
unfoldable pub is_nominated : ℕ → ℕ → List AuctionLot → Bool
is_nominated draft_id player_id = any (λ l.
    l.draft_id == draft_id
    && (l.player_id == player_id && (if is_active l.status then true else is_won l.status)))

-- INSERT … ON CONFLICT (draft_id, nominator_roster_id, idempotency_key): an old row is returned.
unfoldable pub insert_lot : AuctionDb → AuctionLot → Option AuctionLot → AuctionDb × AuctionLot
insert_lot db lot (some existing) = (db, existing)
insert_lot db lot none =
    (record db { lots = db.lots ++ lot ∷ []; next_lot_id = suc db.next_lot_id }, lot)

unfoldable pub create_lot : AuctionDb → AuctionLot → AuctionDb × AuctionLot
unfolding insert_lot
create_lot db lot = insert_lot db lot (
    find
      (λ l.
        l.draft_id == lot.draft_id
        && (l.nominator_roster_id == lot.nominator_roster_id
            && same_key l.idempotency_key lot.idempotency_key))
      db.lots)

-- `idempotencyKey || null`
abbrev key_or_null : Option String → Option String
key_or_null none = none
key_or_null (some String.[]) = none
key_or_null (some (String.◌∷◌ c s)) = some (String.◌∷◌ c s)

-- Every test before the lot is created.
unfoldable pub validate_nomination : Env → ℕ → AuctionDb → ℕ → ℕ → ℕ → Result SlowAuctionSettings
unfolding nominated_active any_active nominated_on within_cap is_nominated
validate_nomination env now db draft_id roster_id player_id = do
  draft ← or_throw (env.find_draft draft_id) draft_not_found
  require (is_in_progress draft.status) not_in_progress
  require (is_auction draft.draft_type) not_auction
  require (env.player_exists player_id) player_not_found
  require (not (is_player_drafted draft_id player_id db.draft_picks)) already_drafted
  league ← or_throw (env.find_league draft.league_id) league_not_found
  let settings = get_settings draft
  budget ← locked_budget_data env db.lots draft_id roster_id
  require (ltb budget.won_count (roster_slots league)) roster_full
  require
      (ltb (sum_lots draft_id (nominated_active roster_id) db.lots)
        settings.max_active_nominations_per_team)
      team_cap
  require (within_cap (sum_lots draft_id any_active db.lots) settings.max_active_nominations_global)
      global_cap
  require
      (within_cap (sum_lots draft_id (nominated_on roster_id (env.eastern_day now)) db.lots)
        settings.daily_nomination_limit)
      daily_cap
  require (not (is_nominated draft_id player_id db.lots)) already_nominated
  ok settings

unfoldable pub new_lot :
    Env → ℕ → AuctionDb → SlowAuctionSettings → ℕ → ℕ → ℕ → Option String → AuctionLot
new_lot env now db settings draft_id roster_id player_id key = record {
  id = db.next_lot_id;
  draft_id = draft_id;
  player_id = player_id;
  nominator_roster_id = roster_id;
  current_bid = settings.min_bid;
  current_bidder_roster_id = none;
  bid_count = 0;
  bid_deadline = now + settings.bid_window_seconds * 1000;
  status = active;
  winning_roster_id = none;
  winning_bid = none;
  nomination_date = env.utc_day now;
  idempotency_key = key_or_null key;
}

unfoldable pub nominate :
    Env → ℕ → AuctionDb → ℕ → ℕ → ℕ → Option String → Result (AuctionDb × AuctionLot)
nominate env now db draft_id roster_id player_id key = do
  settings ← validate_nomination env now db draft_id roster_id player_id
  ok (create_lot db (new_lot env now db settings draft_id roster_id player_id key))
