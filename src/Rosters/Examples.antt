-- ===== src/Rosters/Examples.antt =====
-- A league of two-player rosters, the theorems on the roster mutation service at it.
use ht_mvp_backend.Prelude.{
  ℕ, ◌≡◌, inl, inr, false, none, some, List, [], ◌∷◌, arith, Bool-cases, ◌==◌, refl,
}
use ht_mvp_backend.Rosters.{
  RosterPlayer, AcquiredType, draft, waiver, League, MutationOptions, done, get_max_roster_size,
  find_owner, swap_players, add_player,
}
use ht_mvp_backend.Rosters.Invariant.{
  Operation, add, swap, run_all, apply, IsWithin, mutations_keep_sizes,
}
use ht_mvp_backend.Rosters.Owners.{IsOneOwner, transfer, mutations_refine_owners}

abbrev league_1 : League
league_1 = record {
  id = 1;
  settings = some (record {
    roster_size = some 2;
    trade_deadline = none;
    trade_review_enabled = false;
    trade_voting_enabled = false;
    trade_review_hours = none;
    trade_expiry_hours = none;
    trade_veto_count = none;
  });
}

abbrev on_roster : ℕ → ℕ → AcquiredType → RosterPlayer
on_roster r p t = record { roster_id = r; player_id = p; acquired_type = t }

abbrev rows : List RosterPlayer
rows = on_roster 1 10 draft ∷ on_roster 2 20 draft ∷ on_roster 1 30 draft ∷ []

abbrev checked : MutationOptions
checked = record { skip_ownership_check = false; skip_roster_size_check = false }

rows-IsWithin : IsWithin (get_max_roster_size league_1.settings) rows
unfolding get_max_roster_size
rows-IsWithin r = elim (Bool-cases (1 == r)) [
  | inl e ↦ let other : (2 == r) ≡ false = ground arith in rw (e, other) (omega arith)
  | inr e ↦ elim (Bool-cases (2 == r)) [
    | inl f ↦ rw (e, f) (omega arith)
    | inr f ↦ rw (e, f) (omega arith)
  ]
]

abbrev calls : List Operation
calls = add 1 40 waiver checked ∷ swap 1 40 10 waiver ∷ add 2 10 waiver checked ∷ []

mutations_keep_sizes_example :
    IsWithin (get_max_roster_size league_1.settings) (run_all league_1 calls rows)
mutations_keep_sizes_example =
    mutations_keep_sizes league_1 calls rows (refl, (refl, (refl, tt))) rows-IsWithin

abbrev swapped_rows : List RosterPlayer
swapped_rows = on_roster 1 40 waiver ∷ on_roster 2 20 draft ∷ on_roster 1 30 draft ∷ []

swap_lem : apply league_1 (swap 1 40 10 waiver) rows ≡ done swapped_rows
unfolding swap_players add_player
swap_lem = refl

mutations_refine_owners_example :
    IsOneOwner swapped_rows
    × ((q : ℕ)
        → find_owner q swapped_rows ≡ transfer (swap 1 40 10 waiver) (λ p. find_owner p rows) q)
mutations_refine_owners_example =
    mutations_refine_owners league_1 (swap 1 40 10 waiver) rows swapped_rows
      (
        ((omega arith, (omega arith, tt)), ((omega arith, tt), (tt, tt))),
        (omega arith, (omega arith, (omega arith, tt))),
      )
      refl (omega arith) swap_lem
