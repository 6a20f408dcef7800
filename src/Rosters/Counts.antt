-- ===== src/Rosters/Counts.antt =====
-- What the statements of rosters.repository.ts do to the number of players on a roster.
use ht_mvp_backend.Prelude.{
  ℕ, suc, ◌+◌, ◌≤◌, ◌<◌, ◌≡◌, inl, inr, Bool, true, false, some, List, [], ◌∷◌, find, arith,
  Bool-cases, ◌==◌, if◌then◌else◌, sym, refl,
}
use ht_mvp_backend.Rosters.{
  RosterPlayer, Outcome, done, failed, player_count, find_by_roster_and_player, is_row,
  remove_player,
}

unfoldable pub rows_after : Outcome → List RosterPlayer
rows_after (done rows) = rows
rows_after (failed e rows) = rows

pub player_count-cons :
    (r : ℕ) (row : RosterPlayer) (rows : List RosterPlayer)
    → player_count r (row ∷ rows) ≡ (if row.roster_id == r then 1 else 0) + player_count r rows
player_count-cons r row rows = elim (Bool-cases (row.roster_id == r)) [
  | inl e ↦ rw e (omega arith)
  | inr e ↦ rw e (omega arith)
]

pub remove-cons :
    (r p : ℕ) (row : RosterPlayer) (rows : List RosterPlayer)
    → remove_player r p (row ∷ rows)
      ≡ (if is_row r p row then remove_player r p rows else row ∷ remove_player r p rows)
remove-cons r p row rows = elim (Bool-cases (is_row r p row)) [
  | inl e ↦ rw e refl
  | inr e ↦ rw e refl
]

pub count-remove_le :
    (q r p : ℕ) (rows : List RosterPlayer)
    → player_count q (remove_player r p rows) ≤ player_count q rows
count-remove_le q r p [] = omega arith
count-remove_le q r p (row ∷ rows) =
    let ih = count-remove_le q r p rows in
    let here = player_count-cons q row rows in
    elim (Bool-cases (is_row r p row)) [
      | inl e ↦ rw (remove-cons r p row rows, e) (omega (arith, ih, here))
      | inr e ↦
          rw (remove-cons r p row rows, e)
            (omega (arith, ih, here, player_count-cons q row (remove_player r p rows)))
    ]

row_here : (r p : ℕ) (row : RosterPlayer) → is_row r p row ≡ true → (row.roster_id == r) ≡ true
row_here r p row e = ground arith

pub find_skip :
    (f : RosterPlayer → Bool) (row found : RosterPlayer) (rows : List RosterPlayer)
    → f row ≡ false
    → find f (row ∷ rows) ≡ some found
    → find f rows ≡ some found
find_skip f row found rows e h = rw (sym (find_skipped f row rows e)) h
  where
    find_skipped :
        (f : RosterPlayer → Bool) (row : RosterPlayer) (rows : List RosterPlayer)
        → f row ≡ false
        → find f (row ∷ rows) ≡ find f rows
    find_skipped f row rows e = rw e refl

-- A row that is there leaves the roster.
pub count-remove_lt :
    (r p : ℕ) (found : RosterPlayer) (rows : List RosterPlayer)
    → find_by_roster_and_player r p rows ≡ some found
    → player_count r (remove_player r p rows) < player_count r rows
count-remove_lt r p found [] h = absurd cc
count-remove_lt r p found (row ∷ rows) h =
    let here = player_count-cons r row rows in
    elim (Bool-cases (is_row r p row)) [
      | inl e ↦
          let counted : player_count r (row ∷ rows) ≡ suc (player_count r rows) =
            rw (here, row_here r p row e) (omega arith) in
          rw (remove-cons r p row rows, e) (omega (arith, count-remove_le r r p rows, counted))
      | inr e ↦
          let ih = count-remove_lt r p found rows (find_skip (is_row r p) row found rows e h) in
          rw (remove-cons r p row rows, e)
            (omega (arith, ih, here, player_count-cons r row (remove_player r p rows)))
    ]
