-- ===== src/Trades/Completed.antt =====
-- A trade that executeTrade carries out: who is on which roster after it, and how many.
use ht_mvp_backend.Prelude.{
  ℕ, ◌≡◌, ◌≢◌, inl, inr, false, not, Option, none, some, List, [], ◌∷◌, keep, length, All, ◌==◌,
  sym, refl, ◌∙◌,
}
use ht_mvp_backend.Rosters.{RosterPlayer, League, get_max_roster_size, find_owner}
use ht_mvp_backend.Rosters.Invariant.{IsWithin}
use ht_mvp_backend.Trades.{
  Trade, TradeDb, Result, and_then, find_league, player_moved, not_all_moved, query_refused,
  pick_not_owned,
}
use ht_mvp_backend.Trades.Execute.{
  PlayerMove, PickMove, RosterDelta, any_player_missing, any_pick_moved, is_moved, swap_rows,
  find_exceeding, roster_deltas, find_by_trade, player_items, pick_items, execute_trade,
  move_players, move_in_league, check_exceeding, transfer_picks, transfer_all,
}
use ht_mvp_backend.Trades.Moved.{DistinctPlayers, DistinctMoves, validated}
use ht_mvp_backend.Trades.Lifecycle.UseCases.{IsKept, IsKept-reject_if, IsKept-and_then}
use ht_mvp_backend.Trades.Lifecycle.Review.{kept_value}
use ht_mvp_backend.Trades.Transferred.{IsTransferred, DistinctPicks, execute_trade-IsTransferred}
use ht_mvp_backend.Trades.Swapped.{swap-IsWithin, arrive, owners_arrive, owner_unmoved}

-- What the player part of a trade leaves when it does not throw.
abbrev pub IsSwapped : ℕ → List PlayerMove → TradeDb → TradeDb → Type 0
IsSwapped max_size moves db db' =
    (any_player_missing moves db.roster_players ≡ false)
    × ((find_exceeding max_size db.roster_players (roster_deltas moves) ≡ none)
        × (db'.roster_players ≡ swap_rows moves db.roster_players))

swap_nothing : (rows : List RosterPlayer) → swap_rows [] rows ≡ rows
swap_nothing [] = refl
swap_nothing (row ∷ rows) = rw (swap_nothing rows) refl

checked-IsSwapped :
    (P : TradeDb → Type 0) (o : Option RosterDelta) (rest : Result TradeDb)
    → (o ≡ none → IsKept P rest)
    → IsKept P (check_exceeding o rest)
checked-IsSwapped P none rest h = h refl
checked-IsSwapped P (some d) rest h = tt

league-IsSwapped :
    (o : Option League) (league : League) (moves : List PlayerMove) (db : TradeDb)
    → o ≡ some league
    → any_player_missing moves db.roster_players ≡ false
    → IsKept (IsSwapped (get_max_roster_size league.settings) moves db) (move_in_league o moves db)
league-IsSwapped none league moves db e present = tt
league-IsSwapped (some l) league moves db e present =
    let eq : l ≡ league = cc in
    let max_size = get_max_roster_size league.settings in
    rw eq (
      checked-IsSwapped (IsSwapped max_size moves db)
        (find_exceeding max_size db.roster_players (roster_deltas moves)) _
        (λ fits.
          IsKept-reject_if (IsSwapped max_size moves db) (not db.infers_integers) query_refused _
            (λ typed.
              IsKept-reject_if (IsSwapped max_size moves db)
                (not (length (keep (is_moved moves) db.roster_players) == length moves))
                not_all_moved _ (λ e'. (present, (fits, refl))))))

move_players-IsSwapped :
    (league_id : ℕ) (league : League) (moves : List PlayerMove) (db : TradeDb)
    → find_league league_id db.leagues ≡ some league
    → IsKept
        (IsSwapped (get_max_roster_size league.settings) moves db)
        (move_players league_id moves db)
unfolding move_players
move_players-IsSwapped league_id league [] db h =
    (refl, (refl, sym (swap_nothing db.roster_players)))
move_players-IsSwapped league_id league (m ∷ moves) db h =
    IsKept-reject_if (IsSwapped (get_max_roster_size league.settings) (m ∷ moves) db)
      (any_player_missing (m ∷ moves) db.roster_players) player_moved _
      (λ e. league-IsSwapped (find_league league_id db.leagues) league (m ∷ moves) db h e)

picks_keep_rows :
    (moves : List PickMove) (db : TradeDb)
    → IsKept (λ db'. db'.roster_players ≡ db.roster_players) (transfer_picks moves db)
unfolding transfer_picks
picks_keep_rows moves db =
    IsKept-and_then (λ db'. db'.roster_players ≡ db.roster_players)
      (transfer_all moves db.draft_pick_assets) _ (λ assets e. refl)

execute_trade-IsSwapped :
    (trade : Trade) (league : League) (db : TradeDb)
    → find_league trade.league_id db.leagues ≡ some league
    → IsKept
        (IsSwapped
          (get_max_roster_size league.settings)
          (player_items (find_by_trade trade.id db.trade_items))
          db)
        (execute_trade trade db)
unfolding execute_trade
execute_trade-IsSwapped trade league db h =
    let items = find_by_trade trade.id db.trade_items in
    let moves = player_items items in
    let P = IsSwapped (get_max_roster_size league.settings) moves db in
    IsKept-reject_if P (any_pick_moved (pick_items items) db.draft_pick_assets) pick_not_owned
      (and_then (move_players trade.league_id moves db) (transfer_picks (pick_items items)))
      (λ e.
        IsKept-and_then P (move_players trade.league_id moves db)
          (transfer_picks (pick_items items))
          (λ a k.
            let first =
              kept_value P (move_players trade.league_id moves db) a
                (move_players-IsSwapped trade.league_id league moves db h) k in
            picks_after moves (pick_items items) a first))
  where
    picks_after :
        (moves : List PlayerMove) (picks : List PickMove) (a : TradeDb)
        → IsSwapped (get_max_roster_size league.settings) moves db a
        → IsKept (IsSwapped (get_max_roster_size league.settings) moves db) (transfer_picks picks a)
    picks_after moves picks a first = weaken (transfer_picks picks a) (picks_keep_rows picks a)
      where
        weaken :
            (r : Result TradeDb)
            → IsKept (λ db'. db'.roster_players ≡ a.roster_players) r
            → IsKept (IsSwapped (get_max_roster_size league.settings) moves db) r
        weaken (inl e) k = tt
        weaken (inr b) k = (first.0, (first.1.0, k ∙ first.1.1))

-- A trade that executeTrade carries out puts each of its players on the roster that the item names, leaves
-- the owner of every other player as it was, takes no roster past the league's maximum, and gives each of
-- its picks to the roster that the item names and no other pick to anyone. (Before it each player is on at
-- most one roster, no roster exceeds the maximum, and the items name each player and each pick once.)
pub executed_trade_is_right :
    (trade : Trade) (league : League) (db db' : TradeDb)
    → find_league trade.league_id db.leagues ≡ some league
    → DistinctPlayers db.roster_players
    → IsWithin (get_max_roster_size league.settings) db.roster_players
    → DistinctMoves (player_items (find_by_trade trade.id db.trade_items))
    → DistinctPicks (pick_items (find_by_trade trade.id db.trade_items))
    → execute_trade trade db ≡ inr db'
    → All
        (λ m. find_owner m.player_id db'.roster_players ≡ some m.to_roster_id)
        (player_items (find_by_trade trade.id db.trade_items))
      × (((p : ℕ)
            → All (λ m. p ≢ m.player_id) (player_items (find_by_trade trade.id db.trade_items))
            → find_owner p db'.roster_players ≡ find_owner p db.roster_players)
          × IsWithin (get_max_roster_size league.settings) db'.roster_players
          × IsTransferred
              (pick_items (find_by_trade trade.id db.trade_items))
              db.draft_pick_assets
              db'.draft_pick_assets)
executed_trade_is_right trade league db db' hl d w dm dp h =
    let moves = player_items (find_by_trade trade.id db.trade_items) in
    let picks = pick_items (find_by_trade trade.id db.trade_items) in
    let max_size = get_max_roster_size league.settings in
    let s =
      kept_value (IsSwapped max_size moves db) (execute_trade trade db) db'
        (execute_trade-IsSwapped trade league db hl) h in
    let given =
      kept_value (λ x. IsTransferred picks db.draft_pick_assets x.draft_pick_assets)
        (execute_trade trade db) db' (execute_trade-IsTransferred trade db dp) h in
    let v = validated moves db.roster_players d s.0 in
    rw (s.1.1) (
      owners_arrive moves moves db.roster_players d v (arrive moves dm) v,
      (
        λ p a. owner_unmoved p moves db.roster_players d v a,
        swap-IsWithin max_size moves db.roster_players d dm v s.1.0 w,
        given,
      ),
    )
