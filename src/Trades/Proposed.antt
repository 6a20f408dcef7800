-- ===== src/Trades/Proposed.antt =====
-- What a proposal that is accepted has checked, and what blocks one.
use ht_mvp_backend.Prelude.{
  ℕ, ◌≡◌, inl, inr, true, false, some, List, [], ◌∷◌, any, Bool-cases, Option-cases, ◌==◌,
  if◌then◌else◌, refl,
}
use ht_mvp_backend.Trades.{
  countered, Trade, TradeItem, TradeDb, TradeError, find_by_id, find_pick_asset, in_pending_trade,
  pick_not_owned, wrong_league,
}
use ht_mvp_backend.Trades.Propose.{
  is_item_asset, holds_picks, is_in_pending_trade, validate_single_pick,
}

found_any :
    (trade_id asset_id : ℕ) (t : Trade) (items : List TradeItem) (trades : List Trade)
    → find_by_id trade_id trades ≡ some t
    → t.status ≡ countered
    → any (is_item_asset t.id asset_id) items ≡ true
    → any
        (λ x. if holds_picks x.status then any (is_item_asset x.id asset_id) items else false)
        trades
      ≡ true
found_any trade_id asset_id t items [] h s a = absurd cc
found_any trade_id asset_id t items (x ∷ xs) h s a = elim (Bool-cases (x.id == trade_id)) [
  | inl e ↦
      let here : some x ≡ some t = rw e at h in
      let eq : x ≡ t = cc in
      let held : (if holds_picks t.status then any (is_item_asset t.id asset_id) items else false)
          ≡ true =
        rw s a in
      rw (eq, held) refl
  | inr e ↦
      let there : find_by_id trade_id xs ≡ some t = rw e at h in
      let rest = found_any trade_id asset_id t items xs there s a in
      elim (Bool-cases
        (if holds_picks x.status then any (is_item_asset x.id asset_id) items else false)) [
          | inl f ↦ rw f refl
          | inr f ↦ rw (f, rest) refl
        ]
]

-- While a trade is countered, no pick of its items passes the checks of a proposal, whoever proposes it:
-- the call throws, for a pick that its proposer owns as well.
pub countered_picks_are_stuck :
    (league_id asset_id owner trade_id : ℕ) (t : Trade) (db : TradeDb)
    → find_by_id trade_id db.trades ≡ some t
    → t.status ≡ countered
    → any (is_item_asset t.id asset_id) db.trade_items ≡ true
    → (e : TradeError) × (validate_single_pick league_id asset_id owner db ≡ inl e)
unfolding validate_single_pick
countered_picks_are_stuck league_id asset_id owner trade_id t db h s a =
    let held : is_in_pending_trade asset_id db ≡ true =
      found_any trade_id asset_id t db.trade_items db.trades h s a in
    elim (Option-cases (find_pick_asset asset_id db.draft_pick_assets)) [
      | inl e ↦ rw e (_, refl)
      | inr asset ↦ elim (Bool-cases (asset.0.league_id == league_id)) [
        | inl f ↦ elim (Bool-cases (asset.0.current_owner_roster_id == owner)) [
          | inl g ↦ rw (asset.1, f, g, held) (in_pending_trade, refl)
          | inr g ↦ rw (asset.1, f, g) (pick_not_owned, refl)
        ]
        | inr f ↦ rw (asset.1, f) (wrong_league, refl)
      ]
    ]
