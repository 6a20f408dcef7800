-- ===== src/Trades/Resolve.antt =====
-- The use cases that change a trade's status alone: cancel-, reject-, admin-cancel-, counter- and
-- vote-trade.use-case.ts, processExpiredTrades and trade-invalidation.utils.ts. `seen` is the database read
-- before the lock is taken and `db` the one under the lock.
use ht_mvp_backend.Prelude.{
  ℕ, zero, suc, Bool, true, false, not, Option, none, some, List, [], ◌∷◌, any, keep, leb, ltb,
  ◌==◌, if◌then◌else◌, inl, inr,
}
use ht_mvp_backend.Rosters.{League, LeagueSettings}
use ht_mvp_backend.Trades.{
  TradeStatus, pending, countered, accepted, in_review, rejected, cancelled, expired, vetoed,
  is_status, Trade, TradeItem, Vote, Roster, TradeDb, TradeError, trade_not_found, forbidden,
  own_trade, wrong_status, not_in_review, status_changed, Result, and_then, reject_if, find_by_id,
  find_roster, find_by_league_and_user, find_league, update_status, count_vetoes, has_voted,
}

abbrev pub with_trades : TradeDb → List Trade → TradeDb
with_trades db trades = record db { trades = trades }

-- an update whose result is not looked at
abbrev pub updated_or_same : Option (List Trade) → TradeDb → TradeDb
updated_or_same none db = db
updated_or_same (some trades) db = with_trades db trades

-- an update that throws when it matched no row
abbrev pub updated_or_throw : Option (List Trade) → TradeDb → Result TradeDb
updated_or_throw none db = inl status_changed
updated_or_throw (some trades) db = inr (with_trades db trades)

abbrev pub found_or_throw : {A : Type 0} → TradeError → Option A → Result A
found_or_throw e none = inl e
found_or_throw e (some a) = inr a

abbrev pub is_user : ℕ → Option Roster → Bool
is_user user_id none = false
is_user user_id (some roster) = roster.user_id == user_id

-- Under the lock of cancelTrade and rejectTrade: done already, refused, or the unconditional update. The read
-- locks no row: `meanwhile` is what transactions without the TRADE lock commit between it and the update.
abbrev pub settle_locked :
    TradeStatus → ℕ → ℕ → (List Trade → List Trade) → TradeDb → Trade → Result TradeDb
settle_locked target trade_id now meanwhile db t =
    if is_status t.status target
    then inr db
    else reject_if (not (is_status t.status pending)) (wrong_status t.status) (
        inr (
          updated_or_same (update_status trade_id target none now (meanwhile db.trades))
            (with_trades db (meanwhile db.trades))))

abbrev pub settle_seen :
    TradeStatus
    → ℕ
    → ℕ
    → ℕ
    → (List Trade → List Trade)
    → TradeDb
    → TradeDb
    → Trade
    → ℕ
    → Result TradeDb
settle_seen target trade_id user_id now meanwhile seen db trade roster_id =
    reject_if (not (is_user user_id (find_roster roster_id seen.rosters))) forbidden (
      if is_status trade.status target
      then inr db
      else reject_if (not (is_status trade.status pending)) (wrong_status trade.status) (
          and_then (found_or_throw trade_not_found (find_by_id trade_id db.trades))
            (settle_locked target trade_id now meanwhile db)))

unfoldable pub cancel_trade :
    ℕ → ℕ → ℕ → (List Trade → List Trade) → TradeDb → TradeDb → Result TradeDb
cancel_trade trade_id user_id now meanwhile seen db =
    and_then (found_or_throw trade_not_found (find_by_id trade_id seen.trades)) (λ trade.
      settle_seen cancelled trade_id user_id now meanwhile seen db trade trade.proposer_roster_id)

unfoldable pub reject_trade :
    ℕ → ℕ → ℕ → (List Trade → List Trade) → TradeDb → TradeDb → Result TradeDb
reject_trade trade_id user_id now meanwhile seen db =
    and_then (found_or_throw trade_not_found (find_by_id trade_id seen.trades)) (λ trade.
      settle_seen rejected trade_id user_id now meanwhile seen db trade trade.recipient_roster_id)

-- ALLOWED_STATUSES of the commissioner, and INVALIDATABLE_TRADE_STATUSES
abbrev pub is_active_status : TradeStatus → Bool
is_active_status pending = true
is_active_status accepted = true
is_active_status in_review = true
is_active_status _ = false

abbrev pub admin_locked : ℕ → ℕ → (List Trade → List Trade) → TradeDb → Trade → Result TradeDb
admin_locked trade_id now meanwhile db t =
    if is_status t.status cancelled
    then inr db
    else reject_if (not (is_active_status t.status)) (wrong_status t.status) (
        inr (
          updated_or_same (update_status trade_id cancelled none now (meanwhile db.trades))
            (with_trades db (meanwhile db.trades))))

unfoldable pub admin_cancel_trade :
    ℕ → ℕ → ℕ → (List Trade → List Trade) → TradeDb → TradeDb → Result TradeDb
admin_cancel_trade league_id trade_id now meanwhile seen db =
    and_then (found_or_throw trade_not_found (find_by_id trade_id seen.trades)) (λ trade.
      reject_if (not (trade.league_id == league_id)) trade_not_found (
        reject_if (not (is_active_status trade.status)) (wrong_status trade.status) (
          and_then (found_or_throw trade_not_found (find_by_id trade_id db.trades))
            (admin_locked trade_id now meanwhile db))))

-- Under the lock of counterTrade, up to the proposal of the new trade.
abbrev pub counter_locked : ℕ → ℕ → TradeDb → Trade → Result TradeDb
counter_locked trade_id now db t =
    if is_status t.status countered
    then inr db
    else reject_if (not (is_status t.status pending)) (wrong_status t.status)
        (updated_or_throw (update_status trade_id countered (some pending) now db.trades) db)

unfoldable pub counter_trade : ℕ → ℕ → Bool → ℕ → TradeDb → TradeDb → Result TradeDb
counter_trade trade_id user_id has_idempotency_key now seen db =
    and_then (found_or_throw trade_not_found (find_by_id trade_id seen.trades)) (λ trade.
      reject_if (not (is_user user_id (find_roster trade.recipient_roster_id seen.rosters)))
        forbidden
        (reject_if (if is_status trade.status countered then not has_idempotency_key else false)
          (wrong_status trade.status)
          (reject_if
            (if is_status trade.status pending
              then false
              else not (is_status trade.status countered))
            (wrong_status trade.status)
            (and_then (found_or_throw trade_not_found (find_by_id trade_id db.trades))
              (counter_locked trade_id now db)))))

abbrev pub default_veto_count : ℕ
default_veto_count = 4

abbrev count_or_default : Option ℕ → ℕ
count_or_default none = default_veto_count
count_or_default (some zero) = default_veto_count
count_or_default (some (suc n)) = suc n

abbrev threshold_of_settings : Option LeagueSettings → ℕ
threshold_of_settings none = default_veto_count
threshold_of_settings (some settings) = count_or_default settings.trade_veto_count

unfoldable pub veto_threshold : Option League → ℕ
veto_threshold none = default_veto_count
veto_threshold (some league) = threshold_of_settings league.settings

-- the vote is stored, counted with the others, and the trade vetoed at the threshold
abbrev pub count_and_veto : ℕ → ℕ → ℕ → TradeDb → Result TradeDb
count_and_veto trade_id threshold now db =
    if leb threshold (count_vetoes trade_id db.trade_votes)
    then updated_or_throw (update_status trade_id vetoed (some in_review) now db.trades) db
    else inr db

abbrev pub with_vote : ℕ → ℕ → Vote → TradeDb → TradeDb
with_vote trade_id roster_id vote db = record db {
  trade_votes = record { trade_id = trade_id; roster_id = roster_id; vote = vote } ∷ db.trade_votes;
}

abbrev pub vote_locked : ℕ → ℕ → Vote → ℕ → ℕ → TradeDb → Trade → Result TradeDb
vote_locked trade_id roster_id vote threshold now db t =
    if is_status t.status vetoed
    then inr db
    else (if is_status t.status TradeStatus.completed
        then inr db
        else reject_if (not (is_status t.status in_review)) not_in_review (
            if has_voted trade_id roster_id db.trade_votes
            then inr db
            else count_and_veto trade_id threshold now (with_vote trade_id roster_id vote db)))

abbrev pub is_closed_by_review : TradeStatus → Bool
is_closed_by_review vetoed = true
is_closed_by_review TradeStatus.completed = true
is_closed_by_review _ = false

abbrev pub vote_seen : ℕ → Vote → ℕ → TradeDb → TradeDb → Trade → Roster → Result TradeDb
vote_seen trade_id vote now seen db trade roster =
    reject_if
      (if roster.id == trade.proposer_roster_id
        then true
        else roster.id == trade.recipient_roster_id)
      own_trade
      (if (if is_closed_by_review trade.status
          then has_voted trade_id roster.id seen.trade_votes
          else false)
        then inr db
        else reject_if (not (is_status trade.status in_review)) not_in_review (
            and_then (found_or_throw trade_not_found (find_by_id trade_id db.trades)) (
              vote_locked trade_id roster.id vote
                (veto_threshold (find_league trade.league_id seen.leagues)) now db)))

unfoldable pub vote_trade : ℕ → ℕ → Vote → ℕ → TradeDb → TradeDb → Result TradeDb
vote_trade trade_id user_id vote now seen db =
    and_then (found_or_throw trade_not_found (find_by_id trade_id seen.trades)) (λ trade.
      and_then
        (found_or_throw forbidden (find_by_league_and_user trade.league_id user_id seen.rosters))
        (vote_seen trade_id vote now seen db trade))

abbrev pub is_overdue : ℕ → Trade → Bool
is_overdue now t = if is_status t.status pending then ltb t.expires_at now else false

abbrev pub expire_all : ℕ → List Trade → TradeDb → TradeDb
expire_all now [] db = db
expire_all now (trade ∷ expired_trades) db =
    expire_all now expired_trades
      (updated_or_same (update_status trade.id expired (some pending) now db.trades) db)

-- processExpiredTrades: the overdue trades are those of `seen`, the updates run on `db`.
unfoldable pub process_expired_trades : ℕ → TradeDb → TradeDb → TradeDb
process_expired_trades now seen db = expire_all now (keep (is_overdue now) seen.trades) db

-- the loop over INVALIDATABLE_TRADE_STATUSES, up to the first update that matches
abbrev pub try_each : ℕ → ℕ → List TradeStatus → TradeDb → TradeDb
try_each trade_id now [] db = db
try_each trade_id now (status ∷ statuses) db =
    try_next (update_status trade_id expired (some status) now db.trades)
      (try_each trade_id now statuses db) db
  where
    try_next : Option (List Trade) → TradeDb → TradeDb → TradeDb
    try_next none next db = next
    try_next (some trades) next db = with_trades db trades

abbrev pub invalidatable_trade_statuses : List TradeStatus
invalidatable_trade_statuses = pending ∷ accepted ∷ in_review ∷ []

unfoldable pub invalidate_affected_trades : ℕ → List Trade → TradeDb → TradeDb
invalidate_affected_trades now [] db = db
invalidate_affected_trades now (trade ∷ affected) db =
    invalidate_affected_trades now affected (try_each trade.id now invalidatable_trade_statuses db)

abbrev pub is_item_player : ℕ → ℕ → TradeItem → Bool
is_item_player trade_id player_id item =
    if item.trade_id == trade_id then is_player item.player_id else false
  where
    is_player : Option ℕ → Bool
    is_player none = false
    is_player (some p) = p == player_id

abbrev pub find_pending_by_player : ℕ → ℕ → TradeDb → List Trade
find_pending_by_player league_id player_id db =
    keep
      (λ t.
        if t.league_id == league_id
        then (if any (is_item_player t.id player_id) db.trade_items
            then is_active_status t.status
            else false)
        else false)
      db.trades

unfoldable pub invalidate_trades_for_player : ℕ → ℕ → ℕ → TradeDb → TradeDb
invalidate_trades_for_player league_id player_id now db =
    invalidate_affected_trades now (find_pending_by_player league_id player_id db) db
