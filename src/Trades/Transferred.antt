-- ===== src/Trades/Transferred.antt =====
-- The pick part of executeTrade, and what a server does to the player part.
use mathlib.Core.Path.{subst}
use ht_mvp_backend.Prelude.{
  ℕ, ◌≡◌, ◌≢◌, inl, inr, true, false, not, Option, none, some, List, [], ◌∷◌, map, any, keep,
  length, All, HasDistinct, arith, Bool-cases, ◌==◌, refl, ◌∙◌,
}
use ht_mvp_backend.Rosters.{League, get_max_roster_size}
use ht_mvp_backend.Trades.{
  Trade, DraftPickAsset, TradeDb, Result, find_league, find_pick_asset, transfer_row,
  transfer_ownership, player_moved, pick_not_owned, not_all_moved, query_refused,
}
use ht_mvp_backend.Trades.Execute.{
  PlayerMove, PickMove, RosterDelta, find_by_trade, player_items, pick_items, any_player_missing,
  any_pick_moved, find_exceeding, roster_deltas, check_exceeding, is_moved, move_in_league,
  move_players, transfer_all, transfer_picks, execute_trade,
}
use ht_mvp_backend.Trades.Lifecycle.UseCases.{IsKept, IsKept-reject_if, IsKept-and_then}
use ht_mvp_backend.Trades.Lifecycle.Review.{kept_value}

abbrev owner_of : Option DraftPickAsset → Option ℕ
owner_of none = none
owner_of (some asset) = some asset.current_owner_roster_id

-- the roster that owns a pick
abbrev pub pick_owner : ℕ → List DraftPickAsset → Option ℕ
pick_owner asset_id assets = owner_of (find_pick_asset asset_id assets)

abbrev pub DistinctPicks : List PickMove → Type 0
DistinctPicks moves = HasDistinct (λ m. m.draft_pick_asset_id) moves

-- Each pick is where its item says, and the other picks are where they were.
abbrev pub IsTransferred : List PickMove → List DraftPickAsset → List DraftPickAsset → Type 0
IsTransferred moves assets assets' =
    All (λ m. pick_owner m.draft_pick_asset_id assets' ≡ some m.to_roster_id) moves
    × ((a : ℕ)
        → All (λ m. a ≢ m.draft_pick_asset_id) moves
        → pick_owner a assets' ≡ pick_owner a assets)

owner-other :
    (a b to : ℕ) (assets : List DraftPickAsset)
    → a ≢ b
    → pick_owner a (map (transfer_row b to) assets) ≡ pick_owner a assets
owner-other a b to [] n = refl
owner-other a b to (x ∷ xs) n = elim (Bool-cases (x.id == b)) [
  | inl e ↦ let miss : (x.id == a) ≡ false = ground arith in rw (e, miss) (owner-other a b to xs n)
  | inr e ↦ elim (Bool-cases (x.id == a)) [
    | inl f ↦ rw (e, f) refl
    | inr f ↦ rw (e, f) (owner-other a b to xs n)
  ]
]

owner-moved :
    (b to : ℕ) (assets : List DraftPickAsset)
    → any (λ a. a.id == b) assets ≡ true
    → pick_owner b (map (transfer_row b to) assets) ≡ some to
owner-moved b to [] h = absurd cc
owner-moved b to (x ∷ xs) h = elim (Bool-cases (x.id == b)) [
  | inl e ↦ rw (e, e) refl
  | inr e ↦
      let there : any (λ a. a.id == b) xs ≡ true = rw e at h in
      rw (e, e) (owner-moved b to xs there)
]

all-IsTransferred :
    (moves : List PickMove) (assets : List DraftPickAsset)
    → DistinctPicks moves
    → IsKept (IsTransferred moves assets) (transfer_all moves assets)
unfolding transfer_ownership
all-IsTransferred [] assets d = (tt, λ a h. refl)
all-IsTransferred (m ∷ moves) assets d =
    let id = m.draft_pick_asset_id in
    elim (Bool-cases (any (λ a. a.id == id) assets)) [
      | inr e ↦ rw e tt
      | inl e ↦
          let next = map (transfer_row id m.to_roster_id) assets in
          rw e (first e (transfer_all moves next) (all-IsTransferred moves next d.1))
    ]
  where
    first :
        any (λ a. a.id == m.draft_pick_asset_id) assets ≡ true
        → (r : Result (List DraftPickAsset))
        → IsKept
            (IsTransferred moves (map (transfer_row m.draft_pick_asset_id m.to_roster_id) assets))
            r
        → IsKept (IsTransferred (m ∷ moves) assets) r
    first e (inl x) h = tt
    first e (inr after) h = (
      (
        h.1 m.draft_pick_asset_id d.0 ∙ owner-moved m.draft_pick_asset_id m.to_roster_id assets e,
        h.0,
      ),
      λ a n. h.1 a n.1 ∙ owner-other a m.draft_pick_asset_id m.to_roster_id assets n.0,
    )

abbrev SamePicks : TradeDb → TradeDb → Type 0
SamePicks db db' = db'.draft_pick_assets ≡ db.draft_pick_assets

checked-IsKept :
    (P : TradeDb → Type 0) (o : Option RosterDelta) (rest : Result TradeDb)
    → IsKept P rest
    → IsKept P (check_exceeding o rest)
checked-IsKept P none rest h = h
checked-IsKept P (some d) rest h = tt

league-SamePicks :
    (o : Option League) (moves : List PlayerMove) (db : TradeDb)
    → IsKept (SamePicks db) (move_in_league o moves db)
league-SamePicks none moves db = tt
league-SamePicks (some league) moves db =
    checked-IsKept (SamePicks db)
      (find_exceeding (get_max_roster_size league.settings) db.roster_players (roster_deltas moves))
      _
      (IsKept-reject_if (SamePicks db) (not db.infers_integers) query_refused _ (λ typed.
        IsKept-reject_if (SamePicks db)
          (not (length (keep (is_moved moves) db.roster_players) == length moves)) not_all_moved _
          (λ e. refl)))

players-SamePicks :
    (league_id : ℕ) (moves : List PlayerMove) (db : TradeDb)
    → IsKept (SamePicks db) (move_players league_id moves db)
unfolding move_players
players-SamePicks league_id [] db = refl
players-SamePicks league_id (m ∷ moves) db =
    IsKept-reject_if (SamePicks db) (any_player_missing (m ∷ moves) db.roster_players) player_moved
      _ (λ e. league-SamePicks (find_league league_id db.leagues) (m ∷ moves) db)

picks-IsTransferred :
    (moves : List PickMove) (db : TradeDb)
    → DistinctPicks moves
    → IsKept
        (λ x. IsTransferred moves db.draft_pick_assets x.draft_pick_assets)
        (transfer_picks moves db)
unfolding transfer_picks
picks-IsTransferred moves db d =
    IsKept-and_then (λ x. IsTransferred moves db.draft_pick_assets x.draft_pick_assets)
      (transfer_all moves db.draft_pick_assets) _
      (λ assets e.
        kept_value (IsTransferred moves db.draft_pick_assets)
          (transfer_all moves db.draft_pick_assets) assets
          (all-IsTransferred moves db.draft_pick_assets d) e)

pub execute_trade-IsTransferred :
    (trade : Trade) (db : TradeDb)
    → DistinctPicks (pick_items (find_by_trade trade.id db.trade_items))
    → IsKept
        (λ x.
          IsTransferred
            (pick_items (find_by_trade trade.id db.trade_items))
            db.draft_pick_assets
            x.draft_pick_assets)
        (execute_trade trade db)
unfolding execute_trade
execute_trade-IsTransferred trade db d =
    let items = find_by_trade trade.id db.trade_items in
    let P : TradeDb → Type 0 =
      λ x. IsTransferred (pick_items items) db.draft_pick_assets x.draft_pick_assets in
    IsKept-reject_if P (any_pick_moved (pick_items items) db.draft_pick_assets) pick_not_owned _
      (λ e.
        IsKept-and_then P (move_players trade.league_id (player_items items) db)
          (transfer_picks (pick_items items))
          (λ a h.
            let same =
              kept_value (SamePicks db) (move_players trade.league_id (player_items items) db) a
                (players-SamePicks trade.league_id (player_items items) db) h in
            subst
              (λ s.
                IsKept (λ x. IsTransferred (pick_items items) s x.draft_pick_assets)
                  (transfer_picks (pick_items items) a))
              same (picks-IsTransferred (pick_items items) a d)))
