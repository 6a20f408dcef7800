-- ===== src/Trades/Backed.antt =====
-- The rows of a proposal that is accepted, as executeTrade reads them.
use ht_mvp_backend.Prelude.{ℕ, List, map}
use ht_mvp_backend.Trades.Execute.{PlayerMove, PickMove}

-- What a request asks for: these players, or these picks, from one roster to the other.
abbrev pub moves_of : ℕ → ℕ → List ℕ → List PlayerMove
moves_of from to ps =
    map (λ p. record { player_id = p; from_roster_id = from; to_roster_id = to }) ps

abbrev pub pick_moves_of : ℕ → ℕ → List ℕ → List PickMove
pick_moves_of from to as_ =
    map (λ a. record { draft_pick_asset_id = a; from_roster_id = from; to_roster_id = to }) as_
