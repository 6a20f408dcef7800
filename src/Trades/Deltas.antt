-- ===== src/Trades/Deltas.antt =====
-- The net changes that executeTrade and validateRosterSizesForTrade compute for each roster.
use ht_mvp_backend.Prelude.{
  ℕ, ◌+◌, ◌*◌, ◌≤◌, ◌≡◌, inl, inr, Bool, true, false, none, some, List, [], ◌∷◌, arith, Bool-cases,
  ◌==◌, if◌then◌else◌, sym, refl,
}
use ht_mvp_backend.Prelude.{ℤ, pos, negsuc, pos_part, neg_part, +ℤ_parts}
use ht_mvp_backend.Rosters.{RosterPlayer, player_count}
use ht_mvp_backend.Trades.Execute.{
  PlayerMove, RosterDelta, bump, add_deltas, roster_deltas, exceeds, find_exceeding,
}

abbrev pub indicator : Bool → ℕ
indicator true = 1
indicator false = 0

-- the players that a roster receives, and those that it gives
abbrev pub gained : ℕ → List PlayerMove → ℕ
gained r [] = 0
gained r (m ∷ moves) = indicator (m.to_roster_id == r) + gained r moves

abbrev pub given : ℕ → List PlayerMove → ℕ
given r [] = 0
given r (m ∷ moves) = indicator (m.from_roster_id == r) + given r moves

abbrev pub net : ℕ → List RosterDelta → ℤ
net r [] = pos 0
net r (d ∷ ds) = if d.roster_id == r then d.delta else net r ds

net-bump :
    (r k : ℕ) (c : ℤ) (ds : List RosterDelta)
    → pos_part (net r (bump k c ds)) + neg_part (net r ds) + indicator (k == r) * neg_part c
      ≡ neg_part (net r (bump k c ds)) + pos_part (net r ds) + indicator (k == r) * pos_part c
net-bump r k c [] = elim (Bool-cases (k == r)) [
  | inl e ↦ rw e (omega arith)
  | inr e ↦ rw e (omega arith)
]
net-bump r k c (d ∷ ds) = elim (Bool-cases (d.roster_id == k)) [
  | inl e ↦
      let same_roster : d.roster_id ≡ k = ground arith in
      elim (Bool-cases (k == r)) [
        | inl f ↦
            let parts = +ℤ_parts d.delta c in
            let at_r : (d.roster_id == r) ≡ true = rw same_roster f in
            rw (e, f, at_r) (omega (arith, parts))
        | inr f ↦
            let at_r : (d.roster_id == r) ≡ false = rw same_roster f in
            rw (e, f, at_r) (omega arith)
      ]
  | inr e ↦ elim (Bool-cases (d.roster_id == r)) [
    | inl f ↦ let other : (k == r) ≡ false = ground arith in rw (e, f, other) (omega arith)
    | inr f ↦ rw (e, f) (net-bump r k c ds)
  ]
]

-- the sum that the Map holds for a roster
net-add_deltas :
    (r : ℕ) (moves : List PlayerMove) (ds : List RosterDelta)
    → pos_part (net r (add_deltas moves ds)) + neg_part (net r ds) + given r moves
      ≡ neg_part (net r (add_deltas moves ds)) + pos_part (net r ds) + gained r moves
net-add_deltas r [] ds = omega arith
net-add_deltas r (m ∷ moves) ds =
    let ds1 = bump m.from_roster_id (negsuc 0) ds in
    let ds2 = bump m.to_roster_id (pos 1) ds1 in
    omega (
      arith,
      net-add_deltas r moves ds2,
      net-bump r m.to_roster_id (pos 1) ds1,
      net-bump r m.from_roster_id (negsuc 0) ds,
    )

pub net-roster_deltas :
    (r : ℕ) (moves : List PlayerMove)
    → pos_part (net r (roster_deltas moves)) + given r moves
      ≡ neg_part (net r (roster_deltas moves)) + gained r moves
net-roster_deltas r moves = omega (arith, net-add_deltas r moves [])

none-exceeds :
    (r m : ℕ) (rows : List RosterPlayer) (ds : List RosterDelta)
    → find_exceeding m rows ds ≡ none
    → exceeds m (net r ds) (player_count r rows) ≡ false
none-exceeds r m rows [] h = refl
none-exceeds r m rows (d ∷ ds) h =
    elim (Bool-cases (exceeds m d.delta (player_count d.roster_id rows))) [
      | inl e ↦ let stuck : some d ≡ none = rw e at h in absurd cc
      | inr e ↦
          let rest : find_exceeding m rows ds ≡ none = rw e at h in
          elim (Bool-cases (d.roster_id == r)) [
            | inl f ↦ let eq : d.roster_id ≡ r = ground arith in rw (f, sym eq) e
            | inr f ↦ rw f (none-exceeds r m rows ds rest)
          ]
    ]

not_exceeding :
    (m count : ℕ) (d : ℤ)
    → exceeds m d count ≡ false
    → count ≤ m
    → count + pos_part d ≤ m + neg_part d
not_exceeding m count (pos d) h le = ground arith
not_exceeding m count (negsuc d) h le = omega arith

-- When no roster exceeds the maximum, what each roster has and gains is at most the maximum and what it gives.
pub sizes_fit :
    (r m : ℕ) (rows : List RosterPlayer) (moves : List PlayerMove)
    → find_exceeding m rows (roster_deltas moves) ≡ none
    → player_count r rows ≤ m
    → player_count r rows + gained r moves ≤ m + given r moves
sizes_fit r m rows moves h le = omega (
  arith,
  net-roster_deltas r moves,
  not_exceeding m (player_count r rows) (net r (roster_deltas moves))
      (none-exceeds r m rows (roster_deltas moves) h) le,
)
