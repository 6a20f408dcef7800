-- ===== src/Trades/Swapped.antt =====
-- The swap of executeTrade as a whole: sizes of rosters, and owners of players.
use ht_mvp_backend.Prelude.{
  ℕ, ◌+◌, ◌≡◌, ◌≢◌, inl, inr, true, false, Option, none, some, List, [], ◌∷◌, All, arith,
  Bool-cases, Option-cases, ◌==◌, sym, refl,
}
use ht_mvp_backend.Rosters.{RosterPlayer, player_count, find_owner}
use ht_mvp_backend.Rosters.Owners.{find_owner-cons}
use ht_mvp_backend.Rosters.Invariant.{IsWithin}
use ht_mvp_backend.Trades.Execute.{
  PlayerMove, destination, swap_row, swap_rows, find_exceeding, roster_deltas,
}
use ht_mvp_backend.Trades.Deltas.{indicator, gained, given, sizes_fit}
use ht_mvp_backend.Trades.Moved.{
  DistinctPlayers, DistinctMoves, IsValidated, IsOwn, IsOwn-rows, swapped, sent, sent_none,
  sent_absent, count-swap,
}

-- no other move has the player
apart_from_moves :
    (p r : ℕ) (moves : List PlayerMove)
    → All (λ m. p ≢ m.player_id) moves
    → destination moves p r ≡ r
apart_from_moves p r [] a = refl
apart_from_moves p r (m ∷ moves) a =
    let ne = a.0 in
    let other : (m.player_id == p) ≡ false = ground arith in
    rw other (apart_from_moves p r moves a.1)

-- A move takes one player from the roster that it leaves to the one that it goes to.
sent_first :
    (r : ℕ) (m : PlayerMove) (moves : List PlayerMove) (rows : List RosterPlayer)
    → DistinctPlayers rows
    → find_owner m.player_id rows ≡ some m.from_roster_id
    → All (λ x. m.player_id ≢ x.player_id) moves
    → sent r (m ∷ moves) rows + indicator (m.from_roster_id == r)
      ≡ sent r moves rows + indicator (m.to_roster_id == r)
sent_first r m moves [] d h a = absurd cc
sent_first r m moves (row ∷ rows) d h a = elim (Bool-cases (row.player_id == m.player_id)) [
  | inl e ↦
      let eq : row.player_id ≡ m.player_id = ground arith in
      let here : (m.player_id == row.player_id) ≡ true = ground arith in
      let owner : some row.roster_id ≡ some m.from_roster_id = rw e at h in
      let roster : row.roster_id ≡ m.from_roster_id = cc in
      let rest = sent_absent r m moves rows (rw (sym eq) d.0) in
      let apart : All (λ x. row.player_id ≢ x.player_id) moves = rw eq a in
      let stays = apart_from_moves row.player_id row.roster_id moves apart in
      rw (here, stays, rest, roster) (omega arith)
  | inr e ↦
      let other : (m.player_id == row.player_id) ≡ false = ground arith in
      let later : find_owner m.player_id rows ≡ some m.from_roster_id = rw e at h in
      let ih = sent_first r m moves rows d.1 later a in rw other (omega (arith, ih))
]

sent_lem :
    (r : ℕ) (moves : List PlayerMove) (rows : List RosterPlayer)
    → DistinctPlayers rows
    → DistinctMoves moves
    → IsValidated moves rows
    → sent r moves rows + given r moves ≡ player_count r rows + gained r moves
sent_lem r [] rows d dm v = omega (arith, sent_none r rows)
sent_lem r (m ∷ moves) rows d dm v =
    omega (arith, sent_first r m moves rows d v.0 dm.0, sent_lem r moves rows d dm.1 v.1)

pub swap-IsWithin :
    (max_size : ℕ) (moves : List PlayerMove) (rows : List RosterPlayer)
    → DistinctPlayers rows
    → DistinctMoves moves
    → IsValidated moves rows
    → find_exceeding max_size rows (roster_deltas moves) ≡ none
    → IsWithin max_size rows
    → IsWithin max_size (swap_rows moves rows)
swap-IsWithin max_size moves rows d dm v h w r = omega (
  arith,
  count-swap r rows rows moves (IsOwn-rows rows d) v,
  sent_lem r moves rows d dm v,
  sizes_fit r max_size rows moves h (w r),
)

-- where the CASE sends the owner that a player has
abbrev owner_after : List PlayerMove → ℕ → Option ℕ → Option ℕ
owner_after moves p none = none
owner_after moves p (some r) = some (destination moves p r)

owner-swap :
    (p : ℕ) (all_rows rows : List RosterPlayer) (moves : List PlayerMove)
    → All (IsOwn all_rows) rows
    → IsValidated moves all_rows
    → find_owner p (swap_rows moves rows) ≡ owner_after moves p (find_owner p rows)
owner-swap p all_rows [] moves own v = refl
owner-swap p all_rows (row ∷ rows) moves own v =
    let ids = swapped all_rows row moves own.0 v in
    elim (Bool-cases (row.player_id == p)) [
      | inl e ↦
          let eq : row.player_id ≡ p = ground arith in
          rw (find_owner-cons p (swap_row moves row) (swap_rows moves rows), ids.0, ids.1, e, eq)
            refl
      | inr e ↦
          rw (find_owner-cons p (swap_row moves row) (swap_rows moves rows), ids.1, e)
            (owner-swap p all_rows rows moves own.1 v)
    ]

-- A move is carried out by the first WHEN of its player, which is its own.
abbrev pub Arrives : List PlayerMove → PlayerMove → Type 0
Arrives moves m = (r : ℕ) → destination moves m.player_id r ≡ m.to_roster_id

Arrives-later :
    (x : PlayerMove) (all_moves moves : List PlayerMove)
    → All (λ m. x.player_id ≢ m.player_id) moves
    → All (Arrives all_moves) moves
    → All (Arrives (x ∷ all_moves)) moves
Arrives-later x all_moves [] a h = tt
Arrives-later x all_moves (m ∷ moves) a h =
    let ne = a.0 in
    let other : (x.player_id == m.player_id) ≡ false = ground arith in
    (λ r. rw other (h.0 r), Arrives-later x all_moves moves a.1 h.1)

pub arrive : (moves : List PlayerMove) → DistinctMoves moves → All (Arrives moves) moves
arrive [] d = tt
arrive (m ∷ moves) d =
    let self : (m.player_id == m.player_id) ≡ true = ground arith in
    (λ r. rw self refl, Arrives-later m moves moves d.0 (arrive moves d.1))

pub owners_arrive :
    (all_moves moves : List PlayerMove) (rows : List RosterPlayer)
    → DistinctPlayers rows
    → IsValidated all_moves rows
    → All (Arrives all_moves) moves
    → IsValidated moves rows
    → All (λ m. find_owner m.player_id (swap_rows all_moves rows) ≡ some m.to_roster_id) moves
owners_arrive all_moves [] rows d va ar v = tt
owners_arrive all_moves (m ∷ moves) rows d va ar v = (
  rw (owner-swap m.player_id rows rows all_moves (IsOwn-rows rows d) va, v.0, ar.0 m.from_roster_id)
      refl,
  owners_arrive all_moves moves rows d va ar.1 v.1,
)

pub owner_unmoved :
    (p : ℕ) (moves : List PlayerMove) (rows : List RosterPlayer)
    → DistinctPlayers rows
    → IsValidated moves rows
    → All (λ m. p ≢ m.player_id) moves
    → find_owner p (swap_rows moves rows) ≡ find_owner p rows
owner_unmoved p moves rows d v a = elim (Option-cases (find_owner p rows)) [
  | inl e ↦ rw (owner-swap p rows rows moves (IsOwn-rows rows d) v, e) refl
  | inr o ↦
      rw (owner-swap p rows rows moves (IsOwn-rows rows d) v, o.1, apart_from_moves p o.0 moves a)
        refl
]
