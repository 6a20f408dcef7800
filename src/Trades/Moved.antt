-- ===== src/Trades/Moved.antt =====
-- What the swap of executeTrade does to one league's rows of roster_players.
use ht_mvp_backend.Prelude.{
  ℕ, ◌+◌, ◌≡◌, ◌≢◌, inl, inr, Bool, true, false, none, some, List, [], ◌∷◌, any, All, arith,
  Bool-cases, Option-cases, ◌==◌, HasDistinct, if◌then◌else◌, sym, refl, ◌∙◌,
}
use ht_mvp_backend.Rosters.{
  RosterPlayer, player_count, find_owner, find_by_roster_and_player, is_row,
}
use ht_mvp_backend.Rosters.Counts.{player_count-cons, find_skip}
use ht_mvp_backend.Rosters.Owners.{find_owner-cons, present_not, row_player}
use ht_mvp_backend.Trades.Execute.{PlayerMove, any_player_missing, destination, swap_row, swap_rows}
use ht_mvp_backend.Trades.Deltas.{indicator}

abbrev pub DistinctPlayers : List RosterPlayer → Type 0
DistinctPlayers rows = HasDistinct (λ row. row.player_id) rows

abbrev pub DistinctMoves : List PlayerMove → Type 0
DistinctMoves moves = HasDistinct (λ m. m.player_id) moves

-- Every player moved is on the roster it leaves.
abbrev pub IsValidated : List PlayerMove → List RosterPlayer → Type 0
IsValidated moves rows = All (λ m. find_owner m.player_id rows ≡ some m.from_roster_id) moves

owner_of_row :
    (r p : ℕ) (found : RosterPlayer) (rows : List RosterPlayer)
    → DistinctPlayers rows
    → find_by_roster_and_player r p rows ≡ some found
    → find_owner p rows ≡ some r
owner_of_row r p found [] d h = absurd cc
owner_of_row r p found (row ∷ rows) d h = elim (Bool-cases (is_row r p row)) [
  | inl e ↦
      let ids = row_player r p row e in
      let ids0 = ids.0 in
      let here : (row.player_id == p) ≡ true = ground arith in
      rw (find_owner-cons p row rows, here, ids.1) refl
  | inr e ↦
      let there = owner_of_row r p found rows d.1 (find_skip (is_row r p) row found rows e h) in
      elim (Bool-cases (row.player_id == p)) [
        | inl f ↦
            let eq : row.player_id ≡ p = ground arith in
            let gone = present_not p rows (rw (sym eq) d.0) in
            let stuck : none ≡ some r = sym gone ∙ there in absurd cc
        | inr f ↦ rw (find_owner-cons p row rows, f) there
      ]
]

pub validated :
    (moves : List PlayerMove) (rows : List RosterPlayer)
    → DistinctPlayers rows
    → any_player_missing moves rows ≡ false
    → IsValidated moves rows
validated [] rows d h = tt
validated (m ∷ moves) rows d h =
    elim (Option-cases (find_by_roster_and_player m.from_roster_id m.player_id rows)) [
      | inl e ↦ let stuck : true ≡ false = rw e at h in absurd cc
      | inr found ↦
          let rest : any_player_missing moves rows ≡ false = rw found.1 at h in
          (
            owner_of_row m.from_roster_id m.player_id found.0 rows d found.1,
            validated moves rows d rest,
          )
    ]

-- A row is its player's.
abbrev pub IsOwn : List RosterPlayer → RosterPlayer → Type 0
IsOwn rows row = find_owner row.player_id rows ≡ some row.roster_id

IsOwn-tail :
    (x : RosterPlayer) (all_rows rows : List RosterPlayer)
    → All (λ y. x.player_id ≢ y.player_id) rows
    → All (IsOwn all_rows) rows
    → All (IsOwn (x ∷ all_rows)) rows
IsOwn-tail x all_rows [] a h = tt
IsOwn-tail x all_rows (row ∷ rows) a h =
    let ne = a.0 in
    let other : (x.player_id == row.player_id) ≡ false = ground arith in
    (rw (find_owner-cons row.player_id x all_rows, other) h.0, IsOwn-tail x all_rows rows a.1 h.1)

pub IsOwn-rows : (rows : List RosterPlayer) → DistinctPlayers rows → All (IsOwn rows) rows
IsOwn-rows [] d = tt
IsOwn-rows (row ∷ rows) d =
    let self : (row.player_id == row.player_id) ≡ true = ground arith in
    (
      rw (find_owner-cons row.player_id row rows, self) refl,
      IsOwn-tail row rows rows d.0 (IsOwn-rows rows d.1),
    )

-- For a row of its player, the CASE and the two conditions of the WHERE agree.
from_matches :
    (rows : List RosterPlayer) (row : RosterPlayer) (moves : List PlayerMove)
    → IsOwn rows row
    → IsValidated moves rows
    → any (λ m. m.player_id == row.player_id) moves ≡ true
    → any (λ m. m.from_roster_id == row.roster_id) moves ≡ true
from_matches rows row [] own v h = absurd cc
from_matches rows row (m ∷ moves) own v h = elim (Bool-cases (m.player_id == row.player_id)) [
  | inl e ↦
      let eq : m.player_id ≡ row.player_id = ground arith in
      let there : find_owner row.player_id rows ≡ some m.from_roster_id = rw (sym eq) v.0 in
      let both : some m.from_roster_id ≡ some row.roster_id = sym there ∙ own in
      let rosters : m.from_roster_id ≡ row.roster_id = cc in
      let here : (m.from_roster_id == row.roster_id) ≡ true = ground arith in rw here refl
  | inr e ↦
      let rest : any (λ x. x.player_id == row.player_id) moves ≡ true = rw e at h in
      let later = from_matches rows row moves own v.1 rest in
      elim (Bool-cases (m.from_roster_id == row.roster_id)) [
        | inl f ↦ rw f refl
        | inr f ↦ rw f later
      ]
]

pub unmatched :
    (moves : List PlayerMove) (p r : ℕ)
    → any (λ m. m.player_id == p) moves ≡ false
    → destination moves p r ≡ r
unmatched [] p r h = refl
unmatched (m ∷ moves) p r h = elim (Bool-cases (m.player_id == p)) [
  | inl e ↦ let stuck : true ≡ false = rw e at h in absurd cc
  | inr e ↦
      let rest : any (λ x. x.player_id == p) moves ≡ false = rw e at h in
      rw e (unmatched moves p r rest)
]

pub swapped :
    (rows : List RosterPlayer) (row : RosterPlayer) (moves : List PlayerMove)
    → IsOwn rows row
    → IsValidated moves rows
    → ((swap_row moves row).roster_id ≡ destination moves row.player_id row.roster_id)
      × ((swap_row moves row).player_id ≡ row.player_id)
swapped rows row moves own v = elim (Bool-cases (any (λ m. m.player_id == row.player_id) moves)) [
  | inl e ↦ rw (e, from_matches rows row moves own v e) (refl, refl)
  | inr e ↦ rw (e, unmatched moves row.player_id row.roster_id e) (refl, refl)
]

-- the rows that the CASE sends to a roster
abbrev pub sent : ℕ → List PlayerMove → List RosterPlayer → ℕ
sent r moves [] = 0
sent r moves (row ∷ rows) =
    indicator (destination moves row.player_id row.roster_id == r) + sent r moves rows

indicator_if : (b : Bool) → (if b then 1 else 0) ≡ indicator b
indicator_if true = refl
indicator_if false = refl

pub count-swap :
    (r : ℕ) (all_rows rows : List RosterPlayer) (moves : List PlayerMove)
    → All (IsOwn all_rows) rows
    → IsValidated moves all_rows
    → player_count r (swap_rows moves rows) ≡ sent r moves rows
count-swap r all_rows [] moves own v = refl
count-swap r all_rows (row ∷ rows) moves own v =
    rw
      (
        player_count-cons r (swap_row moves row) (swap_rows moves rows),
        (swapped all_rows row moves own.0 v).0,
        indicator_if (destination moves row.player_id row.roster_id == r),
        count-swap r all_rows rows moves own.1 v,
      )
      refl

pub sent_none : (r : ℕ) (rows : List RosterPlayer) → sent r [] rows ≡ player_count r rows
sent_none r [] = refl
sent_none r (row ∷ rows) =
    rw (player_count-cons r row rows, indicator_if (row.roster_id == r), sent_none r rows) refl

pub sent_absent :
    (r : ℕ) (m : PlayerMove) (moves : List PlayerMove) (rows : List RosterPlayer)
    → All (λ row. m.player_id ≢ row.player_id) rows
    → sent r (m ∷ moves) rows ≡ sent r moves rows
sent_absent r m moves [] a = refl
sent_absent r m moves (row ∷ rows) a =
    let ne = a.0 in
    let other : (m.player_id == row.player_id) ≡ false = ground arith in
    rw (other, sent_absent r m moves rows a.1) refl
