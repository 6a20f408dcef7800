-- ===== src/Trades/Lifecycle/Review.antt =====
-- Votes, expiry, invalidation, acceptance and the end of a review against the status graph.
use ht_mvp_backend.Prelude.{
  ℕ, ◌+◌, ◌*◌, ◌≡◌, inl, inr, true, not, Option, none, some, List, [], ◌∷◌, any, keep, length, All,
  Option-cases, ◌==◌, leb, sym, refl,
}
use ht_mvp_backend.Rosters.{League, LeagueSettings, get_max_roster_size}
use ht_mvp_backend.Trades.{
  TradeStatus, pending, accepted, in_review, expired, vetoed, is_status, Trade, FailureReason,
  TradeDb, Result, and_then, find_by_id, find_league, matches, with_reason, with_review,
  update_status, update_status_with_reason, set_review_period, Vote, wrong_status, has_voted,
  count_vetoes, not_all_moved, query_refused, player_moved, pick_not_owned, deadline_passed,
  pick_used, round_has_passed,
}
use ht_mvp_backend.Trades.Resolve.{
  is_active_status, updated_or_same, count_and_veto, vote_locked, with_vote, expire_all, try_each,
  invalidatable_trade_statuses, veto_threshold, invalidate_affected_trades,
}
use ht_mvp_backend.Trades.Execute.{
  PlayerMove, PickMove, execute_trade, move_players, move_in_league, check_exceeding,
  transfer_picks, validate_roster_sizes_for_trade, RosterDelta, find_exceeding, roster_deltas,
  is_moved, any_player_missing, any_pick_moved, find_by_trade, player_items, pick_items,
  transfer_all,
}
use ht_mvp_backend.Trades.Accept.{
  process_review_complete, db_of, Processed, skipped, start_review, complete_now, accept_locked,
  was_vetoed, was_failed, was_completed, review_hours, has_passed, deadline_of, is_pick_used,
  is_round_passed, is_review_enabled, complete_or_fail, is_still_in_review,
}
use ht_mvp_backend.Trades.Lifecycle.{
  is_expired, starts_review, completes, completes_review, is_vetoed, fails, Follows, Follows-refl,
  Follows-trans, conditional-Follows,
}
use ht_mvp_backend.Trades.Lifecycle.UseCases.{
  IsKept, FollowsDb, IsKept-reject_if, IsKept-and_then, IsKept-if, same-Follows, throw-Follows,
  skip-Follows, status-Follows, rows-Follows,
}

pub count-Follows :
    (trade_id threshold now : ℕ) (db : TradeDb)
    → IsKept (FollowsDb db.trades) (count_and_veto trade_id threshold now db)
count-Follows trade_id threshold now db =
    IsKept-if (FollowsDb db.trades) (leb threshold (count_vetoes trade_id db.trade_votes)) _
      (inr db)
      (throw-Follows db.trades (update_status trade_id vetoed (some in_review) now db.trades) db (
        status-Follows db.trades db.trades trade_id now in_review vetoed (Follows-refl db.trades)
          is_vetoed))
      (λ e. Follows-refl db.trades)

pub vote-Follows :
    (trade_id roster_id : ℕ) (vote : Vote) (threshold now : ℕ) (db : TradeDb) (t : Trade)
    → IsKept (FollowsDb db.trades) (vote_locked trade_id roster_id vote threshold now db t)
vote-Follows trade_id roster_id vote threshold now db t =
    let here = Follows-refl db.trades in
    IsKept-if (FollowsDb db.trades) (is_status t.status vetoed) _ _ here (λ e.
      IsKept-if (FollowsDb db.trades) (is_status t.status TradeStatus.completed) _ _ here (λ e'.
        IsKept-reject_if (FollowsDb db.trades) (not (is_status t.status in_review)) _ _ (λ e''.
          IsKept-if (FollowsDb db.trades) (has_voted trade_id roster_id db.trade_votes) _ _ here
            (λ new. count-Follows trade_id threshold now (with_vote trade_id roster_id vote db)))))

pub expire-Follows :
    (now : ℕ) (overdue : List Trade) (db : TradeDb)
    → Follows db.trades (expire_all now overdue db).trades
expire-Follows now [] db = Follows-refl db.trades
expire-Follows now (t ∷ overdue) db =
    let db' = updated_or_same (update_status t.id expired (some pending) now db.trades) db in
    Follows-trans db.trades db'.trades _
      (same-Follows db.trades (update_status t.id expired (some pending) now db.trades) db
        (Follows-refl db.trades)
        (status-Follows db.trades db.trades t.id now pending expired (Follows-refl db.trades)
          (is_expired refl)))
      (expire-Follows now overdue db')

try-Follows :
    (trade_id now : ℕ) (statuses : List TradeStatus) (db : TradeDb)
    → All (λ s. is_active_status s ≡ true) statuses
    → Follows db.trades (try_each trade_id now statuses db).trades
try-Follows trade_id now [] db a = Follows-refl db.trades
try-Follows trade_id now (s ∷ statuses) db a =
    elim (Option-cases (update_status trade_id expired (some s) now db.trades)) [
      | inl e ↦ rw e (try-Follows trade_id now statuses db a.1)
      | inr hit ↦ rw hit.1 (
          status-Follows db.trades db.trades trade_id now s expired (Follows-refl db.trades)
            (is_expired a.0) hit.0 hit.1)
    ]

pub invalidate-Follows :
    (now : ℕ) (affected : List Trade) (db : TradeDb)
    → Follows db.trades (invalidate_affected_trades now affected db).trades
unfolding invalidate_affected_trades
invalidate-Follows now [] db = Follows-refl db.trades
invalidate-Follows now (t ∷ affected) db =
    let db' = try_each t.id now invalidatable_trade_statuses db in
    Follows-trans db.trades db'.trades _
      (try-Follows t.id now invalidatable_trade_statuses db (refl, (refl, (refl, tt))))
      (invalidate-Follows now affected db')

pub kept_value : {A : Type 0} (P : A → Type 0) (r : Result A) (a : A) → IsKept P r → r ≡ inr a → P a
kept_value P (inl e) a h eq = absurd cc
kept_value P (inr b) a h eq = let same_value : b ≡ a = cc in rw (sym same_value) h

abbrev pub SameTrades : TradeDb → TradeDb → Type 0
SameTrades db db' = db'.trades ≡ db.trades

checked-SameTrades :
    (o : Option RosterDelta) (db : TradeDb) (rest : Result TradeDb)
    → IsKept (SameTrades db) rest
    → IsKept (SameTrades db) (check_exceeding o rest)
checked-SameTrades none db rest h = h
checked-SameTrades (some d) db rest h = tt

league-SameTrades :
    (o : Option League) (moves : List PlayerMove) (db : TradeDb)
    → IsKept (SameTrades db) (move_in_league o moves db)
league-SameTrades none moves db = tt
league-SameTrades (some league) moves db =
    checked-SameTrades
      (find_exceeding (get_max_roster_size league.settings) db.roster_players (roster_deltas moves))
      db _
      (IsKept-reject_if (SameTrades db) (not db.infers_integers) query_refused _ (λ typed.
        IsKept-reject_if (SameTrades db)
          (not (length (keep (is_moved moves) db.roster_players) == length moves)) not_all_moved _
          (λ e. refl)))

move_players-SameTrades :
    (league_id : ℕ) (moves : List PlayerMove) (db : TradeDb)
    → IsKept (SameTrades db) (move_players league_id moves db)
unfolding move_players
move_players-SameTrades league_id [] db = refl
move_players-SameTrades league_id (m ∷ moves) db =
    IsKept-reject_if (SameTrades db) (any_player_missing (m ∷ moves) db.roster_players) player_moved
      _ (λ e. league-SameTrades (find_league league_id db.leagues) (m ∷ moves) db)

transfer_picks-SameTrades :
    (moves : List PickMove) (db : TradeDb) → IsKept (SameTrades db) (transfer_picks moves db)
unfolding transfer_picks
transfer_picks-SameTrades moves db =
    IsKept-and_then (SameTrades db) (transfer_all moves db.draft_pick_assets) _ (λ assets e. refl)

pub execute_trade-SameTrades :
    (trade : Trade) (db : TradeDb) → IsKept (SameTrades db) (execute_trade trade db)
unfolding execute_trade
execute_trade-SameTrades trade db =
    let items = find_by_trade trade.id db.trade_items in
    IsKept-reject_if (SameTrades db) (any_pick_moved (pick_items items) db.draft_pick_assets)
      pick_not_owned
      (and_then (move_players trade.league_id (player_items items) db)
        (transfer_picks (pick_items items)))
      (λ e.
        IsKept-and_then (SameTrades db) (move_players trade.league_id (player_items items) db)
          (transfer_picks (pick_items items))
          (λ a h.
            let first =
              kept_value (SameTrades db) (move_players trade.league_id (player_items items) db) a
                (move_players-SameTrades trade.league_id (player_items items) db) h in
            rw (sym first) (transfer_picks-SameTrades (pick_items items) a)))

module _ (meanwhile : List Trade → List Trade)
    (lawful : (xs : List Trade) → Follows xs (meanwhile xs)) where
  pub executed-Follows :
      (trade : Trade) (db moved_db : TradeDb)
      → execute_trade trade db ≡ inr moved_db
      → Follows db.trades (meanwhile moved_db.trades)
  executed-Follows trade db moved_db h =
      let eq =
        kept_value (SameTrades db) (execute_trade trade db) moved_db
          (execute_trade-SameTrades trade db) h in
      let first : Follows db.trades moved_db.trades = rw eq (Follows-refl db.trades) in
      Follows-trans db.trades moved_db.trades _ first (lawful moved_db.trades)

  start_review-Follows :
      (settings : Option LeagueSettings) (trade_id now : ℕ) (db : TradeDb)
      → IsKept (FollowsDb db.trades) (start_review settings trade_id now meanwhile db)
  unfolding set_review_period
  start_review-Follows settings trade_id now db =
      let ends = now + review_hours settings * 60 * 60 * 1000 in
      throw-Follows db.trades (set_review_period trade_id now ends (meanwhile db.trades)) db (
        rows-Follows db.trades (matches trade_id (some pending)) (with_review now ends)
          (meanwhile db.trades)
          (Follows-trans db.trades (meanwhile db.trades) _ (lawful db.trades) (
            conditional-Follows (with_review now ends) trade_id pending in_review
              (meanwhile db.trades) (λ x. refl) (λ x. refl) starts_review)))

  complete_now-Follows :
      (trade : Trade) (trade_id now : ℕ) (db : TradeDb)
      → IsKept (FollowsDb db.trades) (complete_now trade trade_id now meanwhile db)
  complete_now-Follows trade trade_id now db =
      IsKept-and_then (FollowsDb db.trades) (execute_trade trade db) _ (λ a h.
        throw-Follows db.trades
          (update_status trade_id TradeStatus.completed (some pending) now (meanwhile a.trades)) a
          (status-Follows db.trades (meanwhile a.trades) trade_id now pending TradeStatus.completed
            (executed-Follows trade db a h) completes))

  pub accept-Follows :
      (league : League) (trade_id now : ℕ) (db : TradeDb) (t : Trade)
      → IsKept (FollowsDb db.trades) (accept_locked league trade_id now meanwhile db t)
  accept-Follows league trade_id now db t =
      let P = FollowsDb db.trades in
      let items = find_by_trade trade_id db.trade_items in
      let picks = pick_items items in
      let players = player_items items in
      IsKept-if P (is_status t.status accepted) _ _ (Follows-refl db.trades) (λ e1.
        IsKept-reject_if P (not (is_status t.status pending)) (wrong_status t.status) _ (λ e2.
          IsKept-reject_if P (has_passed now (deadline_of league.settings)) deadline_passed _ (λ e3.
            IsKept-reject_if P (any_player_missing players db.roster_players) player_moved _ (λ e4.
              IsKept-reject_if P (any_pick_moved picks db.draft_pick_assets) pick_not_owned _ (λ e5.
                IsKept-reject_if P (any (λ m. is_pick_used m.draft_pick_asset_id db) picks)
                  pick_used _
                  (λ e6.
                    IsKept-reject_if P (any (λ m. is_round_passed m.draft_pick_asset_id db) picks)
                      round_has_passed _
                      (λ e7.
                        IsKept-if P (is_review_enabled league.settings) _
                          (complete_now t trade_id now meanwhile db)
                          (start_review-Follows league.settings trade_id now db)
                          (λ e8. complete_now-Follows t trade_id now db))))))))

  fail-Follows :
      (trade : Trade) (now : ℕ) (reason : Option FailureReason) (db : TradeDb)
      → IsKept
          (λ p. Follows db.trades (db_of p).trades)
          (complete_or_fail trade now meanwhile reason db)
  unfolding update_status_with_reason
  fail-Follows trade now (some reason) db =
      skip-Follows db.trades
        (update_status_with_reason trade.id TradeStatus.failed reason (some in_review)
          (meanwhile db.trades))
        (meanwhile db.trades) db (was_failed reason) (lawful db.trades) (λ d. refl)
        (rows-Follows db.trades (matches trade.id (some in_review))
          (with_reason TradeStatus.failed reason) (meanwhile db.trades)
          (Follows-trans db.trades (meanwhile db.trades) _ (lawful db.trades) (
            conditional-Follows (with_reason TradeStatus.failed reason) trade.id in_review
              TradeStatus.failed (meanwhile db.trades) (λ x. refl) (λ x. refl) fails)))
  fail-Follows trade now none db =
      IsKept-and_then (λ p. Follows db.trades (db_of p).trades) (execute_trade trade db) _
        (λ a h.
          let w = executed-Follows trade db a h in
          skip-Follows db.trades
            (update_status trade.id TradeStatus.completed (some in_review) now (meanwhile a.trades))
            (meanwhile a.trades) a was_completed w (λ d. refl)
            (status-Follows db.trades (meanwhile a.trades) trade.id now in_review
              TradeStatus.completed w completes_review))

  pub process-Follows :
      (trade : Trade) (league : League) (now : ℕ) (db : TradeDb)
      → IsKept
          (λ p. Follows db.trades (db_of p).trades)
          (process_review_complete trade league now meanwhile db)
  unfolding process_review_complete
  process-Follows trade league now db =
      let P = λ (p : Processed). Follows db.trades (db_of p).trades in
      IsKept-if P (leb (veto_threshold (some league)) (count_vetoes trade.id db.trade_votes)) _ _
        (skip-Follows db.trades
          (update_status trade.id vetoed (some in_review) now (meanwhile db.trades))
          (meanwhile db.trades) db was_vetoed (lawful db.trades) (λ d. refl)
          (status-Follows db.trades (meanwhile db.trades) trade.id now in_review vetoed
            (lawful db.trades) is_vetoed))
        (λ e.
          IsKept-if P (not (is_still_in_review (find_by_id trade.id db.trades))) (inr (skipped db))
            _ (Follows-refl db.trades)
            (λ e'. fail-Follows trade now (validate_roster_sizes_for_trade trade league db) db))
