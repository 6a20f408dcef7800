-- ===== src/Trades/Lifecycle/Events.antt =====
-- Sequences of the module's use cases, interleaved with statements that do not hold the TRADE lock.
use ht_mvp_backend.Prelude.{
  ℕ, ◌≡◌, ◌≢◌, inl, inr, Bool, true, false, not, Option, none, some, List, [], ◌∷◌, keep, All, ◌==◌,
  if◌then◌else◌, sym, refl, ap, ◌∙◌,
}
use ht_mvp_backend.Rosters.{League}
use ht_mvp_backend.Trades.{
  TradeStatus, pending, countered, in_review, rejected, cancelled, is_status, Trade, TradeDb,
  Result, find_by_id, find_roster, find_league, Vote, wrong_status, trade_not_found,
  league_not_found, forbidden, own_trade, not_in_review, has_voted, find_by_league_and_user,
}
use ht_mvp_backend.Trades.Resolve.{
  is_active_status, is_user, settle_seen, is_closed_by_review, veto_threshold, is_overdue,
  settle_locked, admin_locked, counter_locked, cancel_trade, reject_trade, admin_cancel_trade,
  counter_trade, vote_trade, process_expired_trades, invalidate_trades_for_player,
  find_pending_by_player,
}
use ht_mvp_backend.Trades.Accept.{
  accept_trade, process_review_complete, process_review_complete_trades, process_each, process_one,
  committed, db_of, Processed, is_accepted_already, is_review_over,
}
use ht_mvp_backend.Trades.Lifecycle.{
  Moves, is_countered, is_rejected, is_cancelled, is_expired, starts_review, completes,
  completes_review, is_vetoed, fails, Progress, same, moved, Follows, Follows-refl, Follows-trans,
}
use ht_mvp_backend.Trades.Lifecycle.UseCases.{
  IsKept, FollowsDb, IsSparing, IsKept-reject_if, IsKept-found, IsKept-if, settle-Follows,
  admin-Follows, counter-Follows,
}
use ht_mvp_backend.Trades.Lifecycle.Review.{
  vote-Follows, expire-Follows, invalidate-Follows, accept-Follows, process-Follows,
}

-- A call, with the database that it read before its lock and what others commit while it runs.
pub data Event : Type 0 where
  cancel : ℕ → ℕ → ℕ → (List Trade → List Trade) → TradeDb → Event
  reject : ℕ → ℕ → ℕ → (List Trade → List Trade) → TradeDb → Event
  admin_cancel : ℕ → ℕ → ℕ → (List Trade → List Trade) → TradeDb → Event
  counter : ℕ → ℕ → Bool → ℕ → TradeDb → Event
  vote_on : ℕ → ℕ → Vote → ℕ → TradeDb → Event
  expire : ℕ → TradeDb → Event
  invalidate : ℕ → ℕ → ℕ → Event
  accept : ℕ → ℕ → ℕ → (List Trade → List Trade) → TradeDb → Event
  process_reviews : ℕ → (List Trade → List Trade) → TradeDb → Event

abbrev pub IsLawful : Event → Type 0
IsLawful (accept trade_id user_id now meanwhile seen) =
    (xs : List Trade) → Follows xs (meanwhile xs)
IsLawful (process_reviews now meanwhile seen) = (xs : List Trade) → Follows xs (meanwhile xs)
IsLawful (cancel trade_id user_id now meanwhile seen) = IsSparing trade_id meanwhile
IsLawful (reject trade_id user_id now meanwhile seen) = IsSparing trade_id meanwhile
IsLawful (admin_cancel league_id trade_id now meanwhile seen) = IsSparing trade_id meanwhile
IsLawful _ = Unit {0}

abbrev commit : TradeDb → Result TradeDb → TradeDb
commit db (inl e) = db
commit db (inr db') = db'

abbrev pub run_event : Event → TradeDb → TradeDb
run_event (cancel trade_id user_id now meanwhile seen) db =
    commit db (cancel_trade trade_id user_id now meanwhile seen db)
run_event (reject trade_id user_id now meanwhile seen) db =
    commit db (reject_trade trade_id user_id now meanwhile seen db)
run_event (admin_cancel league_id trade_id now meanwhile seen) db =
    commit db (admin_cancel_trade league_id trade_id now meanwhile seen db)
run_event (counter trade_id user_id key now seen) db =
    commit db (counter_trade trade_id user_id key now seen db)
run_event (vote_on trade_id user_id vote now seen) db =
    commit db (vote_trade trade_id user_id vote now seen db)
run_event (expire now seen) db = process_expired_trades now seen db
run_event (invalidate league_id player_id now) db =
    invalidate_trades_for_player league_id player_id now db
run_event (accept trade_id user_id now meanwhile seen) db =
    commit db (accept_trade trade_id user_id now meanwhile seen db)
run_event (process_reviews now meanwhile seen) db =
    process_review_complete_trades now meanwhile seen db

abbrev pub run_events : List Event → TradeDb → TradeDb
run_events [] db = db
run_events (event ∷ events) db = run_events events (run_event event db)

commit-Follows :
    (db : TradeDb) (r : Result TradeDb)
    → IsKept (FollowsDb db.trades) r
    → Follows db.trades (commit db r).trades
commit-Follows db (inl e) h = Follows-refl db.trades
commit-Follows db (inr db') h = h

committed-Follows :
    (db : TradeDb) (r : Result Processed)
    → IsKept (λ p. Follows db.trades (db_of p).trades) r
    → Follows db.trades (committed db r).trades
committed-Follows db (inl e) h = Follows-refl db.trades
committed-Follows db (inr p) h = h

module _ (meanwhile : List Trade → List Trade)
    (lawful : (xs : List Trade) → Follows xs (meanwhile xs)) where
  one-Follows :
      (trade : Trade) (league : Option League) (now : ℕ) (db : TradeDb)
      → Follows db.trades (process_one trade league now meanwhile db).trades
  one-Follows trade none now db = Follows-refl db.trades
  one-Follows trade (some league) now db =
      committed-Follows db (process_review_complete trade league now meanwhile db)
        (process-Follows meanwhile lawful trade league now db)

  each-Follows :
      (trades : List Trade) (now : ℕ) (seen db : TradeDb)
      → Follows db.trades (process_each trades now meanwhile seen db).trades
  each-Follows [] now seen db = Follows-refl db.trades
  each-Follows (t ∷ trades) now seen db =
      let league = find_league t.league_id seen.leagues in
      let db' = process_one t league now meanwhile db in
      Follows-trans db.trades db'.trades _ (one-Follows t league now db)
        (each-Follows trades now seen db')

settle_seen-Follows :
    (target : TradeStatus) (trade_id user_id now : ℕ) (meanwhile : List Trade → List Trade)
    (seen db : TradeDb) (trade : Trade) (roster_id : ℕ)
    → IsSparing trade_id meanwhile
    → Moves pending target
    → IsKept
        (FollowsDb db.trades)
        (settle_seen target trade_id user_id now meanwhile seen db trade roster_id)
settle_seen-Follows target trade_id user_id now meanwhile seen db trade roster_id l m =
    let P = FollowsDb db.trades in
    IsKept-reject_if P (not (is_user user_id (find_roster roster_id seen.rosters))) forbidden _
      (λ e1. IsKept-if P (is_status trade.status target) _ _ (Follows-refl db.trades) (λ e2.
        IsKept-reject_if P (not (is_status trade.status pending)) (wrong_status trade.status) _
          (λ e3.
            IsKept-found P trade_not_found (find_by_id trade_id db.trades)
              (settle_locked target trade_id now meanwhile db)
              (λ t h. settle-Follows trade_id now meanwhile l db t h target m))))

module _ (trade_id user_id now : ℕ) (seen db : TradeDb) where
  cancel-Follows :
      (meanwhile : List Trade → List Trade)
      → IsSparing trade_id meanwhile
      → IsKept (FollowsDb db.trades) (cancel_trade trade_id user_id now meanwhile seen db)
  unfolding cancel_trade
  cancel-Follows meanwhile l =
      IsKept-found (FollowsDb db.trades) trade_not_found (find_by_id trade_id seen.trades) _
        (λ trade h.
          settle_seen-Follows cancelled trade_id user_id now meanwhile seen db trade
            trade.proposer_roster_id l (is_cancelled refl))

  reject-Follows :
      (meanwhile : List Trade → List Trade)
      → IsSparing trade_id meanwhile
      → IsKept (FollowsDb db.trades) (reject_trade trade_id user_id now meanwhile seen db)
  unfolding reject_trade
  reject-Follows meanwhile l =
      IsKept-found (FollowsDb db.trades) trade_not_found (find_by_id trade_id seen.trades) _
        (λ trade h.
          settle_seen-Follows rejected trade_id user_id now meanwhile seen db trade
            trade.recipient_roster_id l is_rejected)

  admin_cancel-Follows :
      (league_id : ℕ) (meanwhile : List Trade → List Trade)
      → IsSparing trade_id meanwhile
      → IsKept (FollowsDb db.trades) (admin_cancel_trade league_id trade_id now meanwhile seen db)
  unfolding admin_cancel_trade
  admin_cancel-Follows league_id meanwhile l =
      let P = FollowsDb db.trades in
      IsKept-found P trade_not_found (find_by_id trade_id seen.trades) _ (λ trade h.
        IsKept-reject_if P (not (trade.league_id == league_id)) trade_not_found _ (λ e1.
          IsKept-reject_if P (not (is_active_status trade.status)) (wrong_status trade.status) _
            (λ e2.
              IsKept-found P trade_not_found (find_by_id trade_id db.trades)
                (admin_locked trade_id now meanwhile db)
                (λ t g. admin-Follows trade_id now meanwhile l db t g))))

  counter_trade-Follows :
      (key : Bool) → IsKept (FollowsDb db.trades) (counter_trade trade_id user_id key now seen db)
  unfolding counter_trade
  counter_trade-Follows key =
      let P = FollowsDb db.trades in
      IsKept-found P trade_not_found (find_by_id trade_id seen.trades) _ (λ trade h.
        IsKept-reject_if P
          (not (is_user user_id (find_roster trade.recipient_roster_id seen.rosters))) forbidden _
          (λ e1.
            IsKept-reject_if P (if is_status trade.status countered then not key else false)
              (wrong_status trade.status) _
              (λ e2.
                IsKept-reject_if P
                  (if is_status trade.status pending
                    then false
                    else not (is_status trade.status countered))
                  (wrong_status trade.status) _
                  (λ e3.
                    IsKept-found P trade_not_found (find_by_id trade_id db.trades)
                      (counter_locked trade_id now db)
                      (λ t g. counter-Follows trade_id now db t)))))

  vote_trade-Follows :
      (vote : Vote) → IsKept (FollowsDb db.trades) (vote_trade trade_id user_id vote now seen db)
  unfolding vote_trade
  vote_trade-Follows vote =
      let P = FollowsDb db.trades in
      IsKept-found P trade_not_found (find_by_id trade_id seen.trades) _ (λ trade h.
        IsKept-found P forbidden (find_by_league_and_user trade.league_id user_id seen.rosters) _
          (λ roster g.
            IsKept-reject_if P
              (if roster.id == trade.proposer_roster_id
                then true
                else roster.id == trade.recipient_roster_id)
              own_trade _
              (λ e1.
                IsKept-if P
                  (if is_closed_by_review trade.status
                    then has_voted trade_id roster.id seen.trade_votes
                    else false)
                  _ _ (Follows-refl db.trades)
                  (λ e2.
                    IsKept-reject_if P (not (is_status trade.status in_review)) not_in_review _
                      (λ e3.
                        IsKept-found P trade_not_found (find_by_id trade_id db.trades) _ (λ t k.
                          vote-Follows trade_id roster.id vote
                            (veto_threshold (find_league trade.league_id seen.leagues)) now db
                            t))))))

  accept_trade-Follows :
      (meanwhile : List Trade → List Trade)
      → ((xs : List Trade) → Follows xs (meanwhile xs))
      → IsKept (FollowsDb db.trades) (accept_trade trade_id user_id now meanwhile seen db)
  unfolding accept_trade
  accept_trade-Follows meanwhile lawful =
      let P = FollowsDb db.trades in
      IsKept-found P trade_not_found (find_by_id trade_id seen.trades) _ (λ trade h.
        IsKept-reject_if P
          (not (is_user user_id (find_roster trade.recipient_roster_id seen.rosters))) forbidden _
          (λ e1. IsKept-if P (is_accepted_already trade.status) _ _ (Follows-refl db.trades) (λ e2.
            IsKept-reject_if P (not (is_status trade.status pending)) (wrong_status trade.status) _
              (λ e3.
                IsKept-found P league_not_found (find_league trade.league_id seen.leagues) _
                  (λ league g.
                    IsKept-found P trade_not_found (find_by_id trade_id db.trades) _
                      (λ t k. accept-Follows meanwhile lawful league trade_id now db t))))))

event-Follows :
    (event : Event) (db : TradeDb) → IsLawful event → Follows db.trades (run_event event db).trades
unfolding process_expired_trades invalidate_trades_for_player process_review_complete_trades
event-Follows (cancel trade_id user_id now meanwhile seen) db l =
    commit-Follows db _ (cancel-Follows trade_id user_id now seen db meanwhile l)
event-Follows (reject trade_id user_id now meanwhile seen) db l =
    commit-Follows db _ (reject-Follows trade_id user_id now seen db meanwhile l)
event-Follows (admin_cancel league_id trade_id now meanwhile seen) db l =
    commit-Follows db (admin_cancel_trade league_id trade_id now meanwhile seen db)
      (admin_cancel-Follows trade_id 0 now seen db league_id meanwhile l)
event-Follows (counter trade_id user_id key now seen) db l =
    commit-Follows db _ (counter_trade-Follows trade_id user_id now seen db key)
event-Follows (vote_on trade_id user_id vote now seen) db l =
    commit-Follows db _ (vote_trade-Follows trade_id user_id now seen db vote)
event-Follows (expire now seen) db l = expire-Follows now (keep (is_overdue now) seen.trades) db
event-Follows (invalidate league_id player_id now) db l =
    invalidate-Follows now (find_pending_by_player league_id player_id db) db
event-Follows (accept trade_id user_id now meanwhile seen) db l =
    commit-Follows db (accept_trade trade_id user_id now meanwhile seen db)
      (accept_trade-Follows trade_id user_id now seen db meanwhile l)
event-Follows (process_reviews now meanwhile seen) db l =
    each-Follows meanwhile l (keep (is_review_over now) seen.trades) now seen db

-- Whatever sequence of calls is made (cancel, reject, admin cancel, counter up to its proposal, vote,
-- expire, invalidate, accept, end of review), every trade is still there and has moved only along the
-- status graph, whether the calls succeed or throw. (What transactions without the TRADE lock commit to
-- the trades while a call runs follows the graph too; and between the read and the unconditional update of
-- a cancel, a reject or an admin cancel they leave that trade's row alone.)
pub trades_follow_the_graph :
    (events : List Event) (db : TradeDb)
    → All IsLawful events
    → Follows db.trades (run_events events db).trades
trades_follow_the_graph [] db l = Follows-refl db.trades
trades_follow_the_graph (event ∷ events) db l =
    Follows-trans db.trades (run_event event db).trades _ (event-Follows event db l.0)
      (trades_follow_the_graph events (run_event event db) l.1)

-- pending, accepted and in_review are the statuses that a trade can leave
is_final : {s t : TradeStatus} → Moves s t → is_active_status s ≡ true
is_final is_countered = refl
is_final is_rejected = refl
is_final (is_cancelled h) = h
is_final (is_expired h) = h
is_final starts_review = refl
is_final completes = refl
is_final completes_review = refl
is_final is_vetoed = refl
is_final fails = refl

stays : {t u : Trade} → is_active_status t.status ≡ false → Progress t u → u ≡ t
stays h same = refl
stays {t} h (moved {u} {v} p m) =
    let eq = stays h p in
    let active : is_active_status t.status ≡ true = rw (sym eq) (is_final m) in
    absurd (true_not_false (sym active ∙ h))
  where
    true_not_false : true ≢ false
    true_not_false e = cc

-- A trade that was completed, countered, rejected, cancelled, expired, vetoed or failed keeps its row
-- unchanged through any sequence of calls, with the same conditions on what is committed while one runs.
pub closed_trades_are_final :
    (events : List Event) (db : TradeDb) (trade_id : ℕ) (t : Trade)
    → All IsLawful events
    → find_by_id trade_id db.trades ≡ some t
    → is_active_status t.status ≡ false
    → find_by_id trade_id (run_events events db).trades ≡ some t
closed_trades_are_final events db trade_id t l h closed =
    let after = trades_follow_the_graph events db l trade_id t h in
    after.1.0 ∙ ap some (stays closed after.1.1)
