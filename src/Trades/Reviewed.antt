-- ===== src/Trades/Reviewed.antt =====
-- How the end of a review decides a trade.
use ht_mvp_backend.Prelude.{
  ℕ, ◌≤◌, ◌<◌, ◌≡◌, inl, inr, Bool, true, false, Option, none, some, List, [], ◌∷◌, any, All, arith,
  Bool-cases, ◌==◌, leb, refl, ap, ◌∙◌,
}
use ht_mvp_backend.Rosters.{League, get_max_roster_size, find_owner}
use ht_mvp_backend.Rosters.Invariant.{IsWithin}
use ht_mvp_backend.Trades.{
  TradeStatus, in_review, vetoed, is_status, Trade, FailureReason, TradeDb, find_by_id, find_league,
  count_vetoes, update_status, update_status_with_reason, update_where, matches, with_status,
  with_reason, updated_rows,
}
use ht_mvp_backend.Trades.Resolve.{veto_threshold, with_trades}
use ht_mvp_backend.Trades.Execute.{
  find_by_trade, player_items, pick_items, execute_trade, validate_roster_sizes_for_trade,
}
use ht_mvp_backend.Trades.Accept.{
  Processed, skipped, was_vetoed, was_failed, was_completed, complete_or_fail,
  process_review_complete,
}
use ht_mvp_backend.Trades.Lifecycle.{find-update_where, updated}
use ht_mvp_backend.Trades.Lifecycle.UseCases.{IsKept, IsKept-and_then}
use ht_mvp_backend.Trades.Lifecycle.Review.{kept_value, SameTrades, execute_trade-SameTrades}
use ht_mvp_backend.Trades.Moved.{DistinctPlayers, DistinctMoves}
use ht_mvp_backend.Trades.Transferred.{IsTransferred, DistinctPicks}
use ht_mvp_backend.Trades.Completed.{executed_trade_is_right}

-- A trade of the database that is in review.
abbrev pub InReview : Trade → TradeDb → Type 0
InReview t db = (find_by_id t.id db.trades ≡ some t) × (is_status t.status in_review ≡ true)

-- What is decided: never skipped; a veto at the threshold and not below it; a failure moves nobody.
abbrev pub IsDecided : Trade → League → ℕ → TradeDb → Processed → Type 0
IsDecided t league now db (skipped d) = ⊥
IsDecided t league now db (was_vetoed d) =
    (veto_threshold (some league) ≤ count_vetoes t.id db.trade_votes)
    × ((find_by_id t.id d.trades ≡ some (with_status vetoed now t))
        × (d.roster_players ≡ db.roster_players))
IsDecided t league now db (was_failed reason d) =
    (count_vetoes t.id db.trade_votes < veto_threshold (some league))
    × ((find_by_id t.id d.trades ≡ some (with_reason TradeStatus.failed reason t))
        × (d.roster_players ≡ db.roster_players))
IsDecided t league now db (was_completed d) =
    (count_vetoes t.id db.trade_votes < veto_threshold (some league))
    × (find_by_id t.id d.trades ≡ some (with_status TradeStatus.completed now t))

found_any :
    (p : Trade → Bool) (trade_id : ℕ) (t : Trade) (trades : List Trade)
    → find_by_id trade_id trades ≡ some t
    → p t ≡ true
    → any p trades ≡ true
found_any p trade_id t [] h e = absurd cc
found_any p trade_id t (x ∷ xs) h e = elim (Bool-cases (x.id == trade_id)) [
  | inl f ↦ let here : some x ≡ some t = rw f at h in let eq : x ≡ t = cc in rw (eq, e) refl
  | inr f ↦
      let there : find_by_id trade_id xs ≡ some t = rw f at h in
      elim (Bool-cases (p x)) [
        | inl g ↦ rw g refl
        | inr g ↦ rw (g, found_any p trade_id t xs there e) refl
      ]
]

-- an update that matches the trade leaves it updated
pub hits :
    (p : Trade → Bool) (f : Trade → Trade) (trade_id : ℕ) (t : Trade) (trades : List Trade)
    → ((x : Trade) → (f x).id ≡ x.id)
    → find_by_id trade_id trades ≡ some t
    → p t ≡ true
    → (updated_rows p f trades ≡ some (update_where p f trades))
      × (find_by_id trade_id (update_where p f trades) ≡ some (f t))
hits p f trade_id t trades k h e =
    let gone : updated p f t ≡ f t = rw e refl in
    (
      rw (found_any p trade_id t trades h e) refl,
      find-update_where p f trade_id trades t k h ∙ ap some gone,
    )

self_matches :
    (t : Trade) → is_status t.status in_review ≡ true → matches t.id (some in_review) t ≡ true
self_matches t h = let self : (t.id == t.id) ≡ true = ground arith in rw self h

status_hits :
    (t : Trade) (target : TradeStatus) (now : ℕ) (trades : List Trade)
    → find_by_id t.id trades ≡ some t
    → is_status t.status in_review ≡ true
    → (zs : List Trade) × ((update_status t.id target (some in_review) now trades ≡ some zs)
        × (find_by_id t.id zs ≡ some (with_status target now t)))
unfolding update_status
status_hits t target now trades h r =
    let hit =
      hits (matches t.id (some in_review)) (with_status target now) t.id t trades (λ x. refl) h
        (self_matches t r) in
    (update_where (matches t.id (some in_review)) (with_status target now) trades, (hit.0, hit.1))

fail-IsDecided :
    (t : Trade) (league : League) (now : ℕ) (db : TradeDb) (reason : Option FailureReason)
    → InReview t db
    → count_vetoes t.id db.trade_votes < veto_threshold (some league)
    → IsKept (IsDecided t league now db) (complete_or_fail t now (λ xs. xs) reason db)
unfolding update_status_with_reason
fail-IsDecided t league now db (some reason) r lt =
    let hit =
      hits (matches t.id (some in_review)) (with_reason TradeStatus.failed reason) t.id t db.trades
        (λ x. refl) r.0 (self_matches t r.1) in
    rw hit.0 (lt, (hit.1, refl))
fail-IsDecided t league now db none r lt =
    IsKept-and_then (IsDecided t league now db) (execute_trade t db) _ (λ a h.
      let eq =
        kept_value (SameTrades db) (execute_trade t db) a (execute_trade-SameTrades t db) h in
      let hit = status_hits t TradeStatus.completed now a.trades (rw eq r.0) r.1 in
      rw hit.1.0 (lt, hit.1.1))

-- When the review of a trade ends and nobody changes the trade at the same time, the trade is decided: it
-- is vetoed exactly when its vetoes reach the league's threshold, else it is completed, or it fails with
-- a reason; a veto or a failure leaves the rosters as they were; it is never skipped. (Or an error is
-- thrown, and the transaction rolled back.)
pub review_decides :
    (t : Trade) (league : League) (now : ℕ) (db : TradeDb)
    → InReview t db
    → IsKept (IsDecided t league now db) (process_review_complete t league now (λ xs. xs) db)
unfolding process_review_complete
review_decides t league now db r =
    elim (Bool-cases (leb (veto_threshold (some league)) (count_vetoes t.id db.trade_votes))) [
      | inl e ↦
          let hit = status_hits t vetoed now db.trades r.0 r.1 in
          rw (e, hit.1.0) (ground arith, (hit.1.1, refl))
      | inr e ↦
          rw (e, r.0, r.1)
            (fail-IsDecided t league now db (validate_roster_sizes_for_trade t league db) r
              (ground arith))
    ]

-- When the trade has left review by the time of the last update (the update matches no row), the pass
-- returns `skipped`, and yet its transaction commits a database where the trade's picks, and its players if
-- it has any, belong to the rosters that its items name. (Each player is on at most one roster and no roster
-- exceeds the maximum, the items name each player and each pick once, the vetoes are below the threshold,
-- the roster sizes are valid and executeTrade does not throw.)
pub skipped_trade_changes_hands :
    (t : Trade) (league : League) (now : ℕ) (meanwhile : List Trade → List Trade)
    (db moved_db : TradeDb)
    → InReview t db
    → find_league t.league_id db.leagues ≡ some league
    → DistinctPlayers db.roster_players
    → IsWithin (get_max_roster_size league.settings) db.roster_players
    → DistinctMoves (player_items (find_by_trade t.id db.trade_items))
    → DistinctPicks (pick_items (find_by_trade t.id db.trade_items))
    → count_vetoes t.id db.trade_votes < veto_threshold (some league)
    → validate_roster_sizes_for_trade t league db ≡ none
    → execute_trade t db ≡ inr moved_db
    → update_status t.id TradeStatus.completed (some in_review) now (meanwhile moved_db.trades)
      ≡ none
    → (process_review_complete t league now meanwhile db
        ≡ inr (skipped (with_trades moved_db (meanwhile moved_db.trades))))
      × All
          (λ m. find_owner m.player_id moved_db.roster_players ≡ some m.to_roster_id)
          (player_items (find_by_trade t.id db.trade_items))
      × IsTransferred
          (pick_items (find_by_trade t.id db.trade_items))
          db.draft_pick_assets
          moved_db.draft_pick_assets
unfolding process_review_complete
skipped_trade_changes_hands t league now meanwhile db moved_db r hl d w dm dp lt valid ex none_hit =
    let below : leb (veto_threshold (some league)) (count_vetoes t.id db.trade_votes) ≡ false =
      ground arith in
    let right = executed_trade_is_right t league db moved_db hl d w dm dp ex in
    (rw (below, r.0, r.1, valid, ex, none_hit) refl, right.0, right.1.2)
