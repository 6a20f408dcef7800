-- ===== src/Trades/Accept.antt =====
-- acceptTrade (accept-trade.use-case.ts) and processReviewCompleteTrades (process-trades.use-case.ts). `seen` is the
-- database read before the locks; `meanwhile` is what transactions without the TRADE lock commit to the
-- trades between the last read and the last update.
use ht_mvp_backend.Prelude.{
  ℕ, zero, suc, ◌+◌, ◌*◌, Bool, true, false, not, Option, none, some, List, [], ◌∷◌, any, find,
  keep, leb, ltb, ◌==◌, if◌then◌else◌, inl, inr,
}
use ht_mvp_backend.Rosters.{League, LeagueSettings}
use ht_mvp_backend.Trades.{
  TradeStatus, pending, accepted, in_review, vetoed, failed, is_status, Trade, DraftStatus, Draft,
  DraftPickAsset, FailureReason, TradeDb, trade_not_found, league_not_found, forbidden,
  wrong_status, deadline_passed, player_moved, pick_not_owned, pick_used, round_has_passed, Result,
  and_then, reject_if, find_by_id, find_roster, find_league, find_pick_asset, update_status,
  update_status_with_reason, set_review_period, count_vetoes,
}
use ht_mvp_backend.Trades.Resolve.{
  found_or_throw, is_user, with_trades, updated_or_throw, veto_threshold,
}
use ht_mvp_backend.Trades.Execute.{
  PlayerMove, PickMove, find_by_trade, player_items, pick_items, any_player_missing, any_pick_moved,
  execute_trade, validate_roster_sizes_for_trade,
}

abbrev pub default_review_hours : ℕ
default_review_hours = 24

abbrev pub is_pick_used : ℕ → TradeDb → Bool
is_pick_used asset_id db = any (λ used. used == asset_id) db.used_pick_assets

abbrev is_draft_past : ℕ → Option Draft → Bool
is_draft_past round none = false
is_draft_past round (some draft) = past draft.status
  where
    past : DraftStatus → Bool
    past DraftStatus.completed = true
    past DraftStatus.in_progress = ltb round draft.current_round
    past DraftStatus.not_started = false
    past DraftStatus.paused = false

abbrev draft_of : Option ℕ → List Draft → Option Draft
draft_of none drafts = none
draft_of (some draft_id) drafts = find (λ d. d.id == draft_id) drafts

abbrev asset_past : Option DraftPickAsset → List Draft → Bool
asset_past none drafts = false
asset_past (some asset) drafts = is_draft_past asset.round (draft_of asset.draft_id drafts)

abbrev pub is_round_passed : ℕ → TradeDb → Bool
is_round_passed asset_id db = asset_past (find_pick_asset asset_id db.draft_pick_assets) db.drafts

abbrev pub has_passed : ℕ → Option ℕ → Bool
has_passed now none = false
has_passed now (some trade_deadline) = ltb trade_deadline now

abbrev pub deadline_of : Option LeagueSettings → Option ℕ
deadline_of none = none
deadline_of (some settings) = settings.trade_deadline

abbrev pub is_review_enabled : Option LeagueSettings → Bool
is_review_enabled none = false
is_review_enabled (some settings) =
    if settings.trade_review_enabled then true else settings.trade_voting_enabled

abbrev hours_or_default : Option ℕ → ℕ
hours_or_default none = default_review_hours
hours_or_default (some zero) = default_review_hours
hours_or_default (some (suc n)) = suc n

abbrev pub review_hours : Option LeagueSettings → ℕ
review_hours none = default_review_hours
review_hours (some settings) = hours_or_default settings.trade_review_hours

-- the items are still where the trade expects them
abbrev pub check_items : List PlayerMove → List PickMove → TradeDb → Result TradeDb → Result TradeDb
check_items players picks db rest =
    reject_if (any_player_missing players db.roster_players) player_moved (
      reject_if (any_pick_moved picks db.draft_pick_assets) pick_not_owned (
        reject_if (any (λ m. is_pick_used m.draft_pick_asset_id db) picks) pick_used (
          reject_if (any (λ m. is_round_passed m.draft_pick_asset_id db) picks) round_has_passed
            rest)))

abbrev pub start_review :
    Option LeagueSettings → ℕ → ℕ → (List Trade → List Trade) → TradeDb → Result TradeDb
start_review settings trade_id now meanwhile db =
    updated_or_throw
      (set_review_period trade_id now (now + review_hours settings * 60 * 60 * 1000)
        (meanwhile db.trades))
      db

abbrev pub complete_now : Trade → ℕ → ℕ → (List Trade → List Trade) → TradeDb → Result TradeDb
complete_now trade trade_id now meanwhile db = and_then (execute_trade trade db) (λ moved.
    updated_or_throw
      (update_status trade_id TradeStatus.completed (some pending) now (meanwhile moved.trades))
      moved)

abbrev pub accept_locked :
    League → ℕ → ℕ → (List Trade → List Trade) → TradeDb → Trade → Result TradeDb
accept_locked league trade_id now meanwhile db t =
    let items = find_by_trade trade_id db.trade_items in
    if is_status t.status accepted
    then inr db
    else reject_if (not (is_status t.status pending)) (wrong_status t.status) (
        reject_if (has_passed now (deadline_of league.settings)) deadline_passed (
          check_items (player_items items) (pick_items items) db (
            if is_review_enabled league.settings
            then start_review league.settings trade_id now meanwhile db
            else complete_now t trade_id now meanwhile db)))

abbrev pub is_accepted_already : TradeStatus → Bool
is_accepted_already accepted = true
is_accepted_already TradeStatus.completed = true
is_accepted_already in_review = true
is_accepted_already _ = false

abbrev pub accept_seen :
    ℕ → ℕ → ℕ → (List Trade → List Trade) → TradeDb → TradeDb → Trade → Result TradeDb
accept_seen trade_id user_id now meanwhile seen db trade =
    reject_if (not (is_user user_id (find_roster trade.recipient_roster_id seen.rosters))) forbidden
      (if is_accepted_already trade.status
        then inr db
        else reject_if (not (is_status trade.status pending)) (wrong_status trade.status) (
            and_then (found_or_throw league_not_found (find_league trade.league_id seen.leagues))
              (λ league.
                and_then (found_or_throw trade_not_found (find_by_id trade_id db.trades))
                  (accept_locked league trade_id now meanwhile db))))

unfoldable pub accept_trade :
    ℕ → ℕ → ℕ → (List Trade → List Trade) → TradeDb → TradeDb → Result TradeDb
accept_trade trade_id user_id now meanwhile seen db =
    and_then (found_or_throw trade_not_found (find_by_id trade_id seen.trades))
      (accept_seen trade_id user_id now meanwhile seen db)

-- what the transaction of one reviewed trade returns, with the database that it commits
pub data Processed : Type 0 where
  skipped : TradeDb → Processed
  was_vetoed : TradeDb → Processed
  was_failed : FailureReason → TradeDb → Processed
  was_completed : TradeDb → Processed

abbrev pub db_of : Processed → TradeDb
db_of (skipped db) = db
db_of (was_vetoed db) = db
db_of (was_failed reason db) = db
db_of (was_completed db) = db

-- `if (!updated) return { skipped: true }`, after which the transaction commits
abbrev pub updated_or_skip :
    Option (List Trade) → (List Trade) → TradeDb → (TradeDb → Processed) → Processed
updated_or_skip none trades db event = skipped (with_trades db trades)
updated_or_skip (some updated) trades db event = event (with_trades db updated)

abbrev pub complete_or_fail :
    Trade → ℕ → (List Trade → List Trade) → Option FailureReason → TradeDb → Result Processed
complete_or_fail trade now meanwhile (some reason) db = inr (
    updated_or_skip
      (update_status_with_reason trade.id failed reason (some in_review) (meanwhile db.trades))
      (meanwhile db.trades) db (was_failed reason))
complete_or_fail trade now meanwhile none db = and_then (execute_trade trade db) (λ moved. inr (
    updated_or_skip
      (update_status trade.id TradeStatus.completed (some in_review) now (meanwhile moved.trades))
      (meanwhile moved.trades) moved was_completed))

abbrev pub is_still_in_review : Option Trade → Bool
is_still_in_review none = false
is_still_in_review (some t) = is_status t.status in_review

-- one pass of processReviewCompleteTrades, under the trade's locks
unfoldable pub process_review_complete :
    Trade → League → ℕ → (List Trade → List Trade) → TradeDb → Result Processed
process_review_complete trade league now meanwhile db =
    if leb (veto_threshold (some league)) (count_vetoes trade.id db.trade_votes)
    then inr (
        updated_or_skip (update_status trade.id vetoed (some in_review) now (meanwhile db.trades))
          (meanwhile db.trades) db was_vetoed)
    else (if not (is_still_in_review (find_by_id trade.id db.trades))
        then inr (skipped db)
        else complete_or_fail trade now meanwhile (validate_roster_sizes_for_trade trade league db)
            db)

-- an error is caught and logged, and its transaction rolled back
abbrev pub committed : TradeDb → Result Processed → TradeDb
committed db (inl e) = db
committed db (inr processed) = db_of processed

abbrev pub process_one : Trade → Option League → ℕ → (List Trade → List Trade) → TradeDb → TradeDb
process_one trade none now meanwhile db = db
process_one trade (some league) now meanwhile db =
    committed db (process_review_complete trade league now meanwhile db)

abbrev pub is_review_over : ℕ → Trade → Bool
is_review_over now t =
    if is_status t.status in_review then has_passed now t.review_ends_at else false

abbrev pub process_each : List Trade → ℕ → (List Trade → List Trade) → TradeDb → TradeDb → TradeDb
process_each [] now meanwhile seen db = db
process_each (trade ∷ trades) now meanwhile seen db =
    process_each trades now meanwhile seen
      (process_one trade (find_league trade.league_id seen.leagues) now meanwhile db)

unfoldable pub process_review_complete_trades :
    ℕ → (List Trade → List Trade) → TradeDb → TradeDb → TradeDb
process_review_complete_trades now meanwhile seen db =
    process_each (keep (is_review_over now) seen.trades) now meanwhile seen db
