-- ===== src/Rosters/Owners.antt =====
-- Who owns whom: the service's calls on one league's rows against moves of an ownership map.
use ht_mvp_backend.Prelude.{
  ℕ, zero, suc, ◌≤◌, ◌≡◌, ◌≢◌, inl, inr, Bool, true, false, not, Option, none, some, List, [], ◌∷◌,
  All, arith, Bool-cases, Option-cases, ◌==◌, truthy, HasDistinct, if◌then◌else◌, sym, refl,
}
use ht_mvp_backend.Rosters.{
  RosterPlayer, AcquiredType, Outcome, done, failed, RosterError, League, find_by_roster_and_player,
  is_row, remove_player, add_player, unless_error, size_error, ownership_error, missing_error,
  find_owner, add_player_to_roster, remove_player_from_roster, swap_players,
}
use ht_mvp_backend.Rosters.Counts.{remove-cons, find_skip}
use ht_mvp_backend.Rosters.Invariant.{
  Operation, add, remove, swap, bulk_remove, bulk_add, apply, not_missing,
}

-- A player is on one roster of the league at most, and roster ids are positive (SERIAL).
abbrev pub IsOneOwner : List RosterPlayer → Type 0
IsOneOwner rows = HasDistinct (λ row. row.player_id) rows × All (λ row. 1 ≤ row.roster_id) rows

abbrev pub checks_owner : Operation → Bool
checks_owner (add roster_id player_id acquired_type options) = not options.skip_ownership_check
checks_owner (remove roster_id player_id) = true
checks_owner (swap roster_id add_player_id drop_player_id acquired_type) = true
checks_owner (bulk_remove removals) = false
checks_owner (bulk_add additions) = false

abbrev pub roster_named : Operation → ℕ
roster_named (add roster_id player_id acquired_type options) = roster_id
roster_named (remove roster_id player_id) = roster_id
roster_named (swap roster_id add_player_id drop_player_id acquired_type) = roster_id
roster_named (bulk_remove removals) = 0
roster_named (bulk_add additions) = 0

-- The abstract view: what a call that succeeds makes of the map from players to their owners.
abbrev pub transfer : Operation → (ℕ → Option ℕ) → ℕ → Option ℕ
transfer (add r p t options) owner q = if p == q then some r else owner q
transfer (remove r p) owner q = if p == q then none else owner q
transfer (swap r a d t) owner q = if a == q then some r else (if d == q then none else owner q)
transfer (bulk_remove removals) owner q = owner q
transfer (bulk_add additions) owner q = owner q

pub find_owner-cons :
    (q : ℕ) (row : RosterPlayer) (rows : List RosterPlayer)
    → find_owner q (row ∷ rows)
      ≡ (if row.player_id == q then some row.roster_id else find_owner q rows)
find_owner-cons q row rows = elim (Bool-cases (row.player_id == q)) [
  | inl e ↦ rw e refl
  | inr e ↦ rw e refl
]

pub absent :
    (p : ℕ) (rows : List RosterPlayer)
    → find_owner p rows ≡ none
    → All (λ row. p ≢ row.player_id) rows
absent p [] h = tt
absent p (row ∷ rows) h = elim (Bool-cases (row.player_id == p)) [
  | inl e ↦ let stuck : some row.roster_id ≡ none = rw e at h in absurd cc
  | inr e ↦ let rest : find_owner p rows ≡ none = rw e at h in (ground arith, absent p rows rest)
]

pub present_not :
    (p : ℕ) (rows : List RosterPlayer)
    → All (λ row. p ≢ row.player_id) rows
    → find_owner p rows ≡ none
present_not p [] a = refl
present_not p (row ∷ rows) a =
    let other : (row.player_id == p) ≡ false = (let ne = a.0 in ground arith) in
    rw (find_owner-cons p row rows, other) (present_not p rows a.1)

All-remove_player :
    (P : RosterPlayer → Type 0) (r p : ℕ) (rows : List RosterPlayer)
    → All P rows
    → All P (remove_player r p rows)
All-remove_player P r p [] a = tt
All-remove_player P r p (row ∷ rows) a = elim (Bool-cases (is_row r p row)) [
  | inl e ↦ rw (remove-cons r p row rows, e) (All-remove_player P r p rows a.1)
  | inr e ↦ rw (remove-cons r p row rows, e) (a.0, All-remove_player P r p rows a.1)
]

remove_player-IsOneOwner :
    (r p : ℕ) (rows : List RosterPlayer) → IsOneOwner rows → IsOneOwner (remove_player r p rows)
remove_player-IsOneOwner r p rows h =
    (distinct r p rows h.0, All-remove_player (λ row. 1 ≤ row.roster_id) r p rows h.1)
  where
    distinct :
        (r p : ℕ) (rows : List RosterPlayer)
        → HasDistinct (λ row. row.player_id) rows
        → HasDistinct (λ row. row.player_id) (remove_player r p rows)
    distinct r p [] d = tt
    distinct r p (row ∷ rows) d = elim (Bool-cases (is_row r p row)) [
      | inl e ↦ rw (remove-cons r p row rows, e) (distinct r p rows d.1)
      | inr e ↦
          rw (remove-cons r p row rows, e)
            (
              All-remove_player (λ y. row.player_id ≢ y.player_id) r p rows d.0,
              distinct r p rows d.1,
            )
    ]

pub row_player :
    (r p : ℕ) (row : RosterPlayer)
    → is_row r p row ≡ true
    → (row.player_id ≡ p) × (row.roster_id ≡ r)
row_player r p row e = (ground arith, ground arith)

pub owner-remove_other :
    (q r p : ℕ) (rows : List RosterPlayer)
    → p ≢ q
    → find_owner q (remove_player r p rows) ≡ find_owner q rows
owner-remove_other q r p [] ne = refl
owner-remove_other q r p (row ∷ rows) ne =
    let ih = owner-remove_other q r p rows ne in
    elim (Bool-cases (is_row r p row)) [
      | inl e ↦
          let eq = (row_player r p row e).0 in
          let other : (row.player_id == q) ≡ false = ground arith in
          rw (remove-cons r p row rows, e, find_owner-cons q row rows, other) ih
      | inr e ↦
          rw
            (
              remove-cons r p row rows,
              e,
              find_owner-cons q row rows,
              find_owner-cons q row (remove_player r p rows),
              ih,
            )
            refl
    ]

pub owner-remove_same :
    (r p : ℕ) (found : RosterPlayer) (rows : List RosterPlayer)
    → HasDistinct (λ row. row.player_id) rows
    → find_by_roster_and_player r p rows ≡ some found
    → find_owner p (remove_player r p rows) ≡ none
owner-remove_same r p found [] d h = absurd cc
owner-remove_same r p found (row ∷ rows) d h = elim (Bool-cases (is_row r p row)) [
  | inl e ↦
      let apart : All (λ y. p ≢ y.player_id) rows = rw (sym (row_player r p row e).0) d.0 in
      rw (remove-cons r p row rows, e)
        (present_not p (remove_player r p rows)
          (All-remove_player (λ y. p ≢ y.player_id) r p rows apart))
  | inr e ↦
      let deeper = find_skip (is_row r p) row found rows e h in
      let other : (row.player_id == p) ≡ false = not_here r p found row rows d.0 deeper in
      rw (remove-cons r p row rows, e, find_owner-cons p row (remove_player r p rows), other)
        (owner-remove_same r p found rows d.1 deeper)
]
  where
    not_here :
        (r p : ℕ) (found row : RosterPlayer) (rows : List RosterPlayer)
        → All (λ y. row.player_id ≢ y.player_id) rows
        → find_by_roster_and_player r p rows ≡ some found
        → (row.player_id == p) ≡ false
    not_here r p found row [] a h = absurd cc
    not_here r p found row (y ∷ rows) a h = elim (Bool-cases (is_row r p y)) [
      | inl e ↦ let eq = (row_player r p y e).0 in let ne = a.0 in ground arith
      | inr e ↦ not_here r p found row rows a.1 (find_skip (is_row r p) y found rows e h)
    ]

unowned :
    (p : ℕ) (rows : List RosterPlayer)
    → All (λ row. 1 ≤ row.roster_id) rows
    → truthy (find_owner p rows) ≡ false
    → find_owner p rows ≡ none
unowned p [] a h = refl
unowned p (row ∷ rows) a h = elim (Bool-cases (row.player_id == p)) [
  | inl e ↦
      let falsy : truthy (some row.roster_id) ≡ false = rw e at h in
      absurd (not_falsy row.roster_id a.0 falsy)
  | inr e ↦
      let rest : truthy (find_owner p rows) ≡ false = rw e at h in
      rw (find_owner-cons p row rows, e) (unowned p rows a.1 rest)
]
  where
    not_falsy : (n : ℕ) → 1 ≤ n → truthy (some n) ≢ false
    not_falsy zero h e = omega arith
    not_falsy (suc n) h e = cc

free_of_owner :
    (p : ℕ) (rows : List RosterPlayer)
    → All (λ row. 1 ≤ row.roster_id) rows
    → ownership_error p rows ≡ none
    → find_owner p rows ≡ none
free_of_owner p rows a h = elim (Bool-cases (truthy (find_owner p rows))) [
  | inl e ↦ let stuck : some RosterError.already_on_a_roster ≡ none = rw e at h in absurd cc
  | inr e ↦ unowned p rows a e
]

passed :
    (e : Option RosterError) (rows rows' : List RosterPlayer) (rest : Outcome)
    → unless_error e rows rest ≡ done rows'
    → (e ≡ none) × (rest ≡ done rows')
passed none rows rows' rest h = (refl, h)
passed (some e) rows rows' rest h = absurd cc

-- what a successful INSERT leaves
inserted :
    (r p : ℕ) (t : AcquiredType) (rows rows' : List RosterPlayer)
    → add_player r p t rows ≡ done rows'
    → rows' ≡ record { roster_id = r; player_id = p; acquired_type = t } ∷ rows
unfolding add_player
inserted r p t rows rows' h = elim (Option-cases (find_by_roster_and_player r p rows)) [
  | inl e ↦
      let same : done (record { roster_id = r; player_id = p; acquired_type = t } ∷ rows)
          ≡ done rows' =
        rw e at h in
      cc
  | inr found ↦
      let stuck : failed RosterError.unique_violation rows ≡ done rows' = rw found.1 at h in
      absurd cc
]

insert-IsOneOwner :
    (r p : ℕ) (t : AcquiredType) (rows rows' : List RosterPlayer)
    → IsOneOwner rows
    → 1 ≤ r
    → find_owner p rows ≡ none
    → add_player r p t rows ≡ done rows'
    → IsOneOwner rows'
      × ((q : ℕ) → find_owner q rows' ≡ (if p == q then some r else find_owner q rows))
insert-IsOneOwner r p t rows rows' one pos free h =
    let row : RosterPlayer = record { roster_id = r; player_id = p; acquired_type = t } in
    rw (inserted r p t rows rows' h)
      (((absent p rows free, one.0), (pos, one.1)), find_owner-cons-row)
  where
    find_owner-cons-row :
        (q : ℕ)
        → find_owner q (record { roster_id = r; player_id = p; acquired_type = t } ∷ rows)
          ≡ (if p == q then some r else find_owner q rows)
    find_owner-cons-row q =
        find_owner-cons q (record { roster_id = r; player_id = p; acquired_type = t }) rows

owner-remove :
    (r p : ℕ) (found : RosterPlayer) (rows : List RosterPlayer) (q : ℕ)
    → IsOneOwner rows
    → find_by_roster_and_player r p rows ≡ some found
    → find_owner q (remove_player r p rows) ≡ (if p == q then none else find_owner q rows)
owner-remove r p found rows q one h = elim (Bool-cases (p == q)) [
  | inl e ↦
      let eq : p ≡ q = ground arith in rw (e, sym eq) (owner-remove_same r p found rows one.0 h)
  | inr e ↦ rw e (owner-remove_other q r p rows (ground arith))
]

-- The service refines an ownership map: a checked addition, a removal or a swap that succeeds changes the
-- owner of the players it names as the map's move says and of nobody else, and leaves each player on at
-- most one roster of the league. (Before it each player is on at most one roster, and roster ids are positive.)
pub mutations_refine_owners :
    (league : League) (op : Operation) (rows rows' : List RosterPlayer)
    → IsOneOwner rows
    → checks_owner op ≡ true
    → 1 ≤ roster_named op
    → apply league op rows ≡ done rows'
    → IsOneOwner rows' × ((q : ℕ) → find_owner q rows' ≡ transfer op (λ p. find_owner p rows) q)
unfolding add_player_to_roster remove_player_from_roster swap_players
mutations_refine_owners league (add r p t options) rows rows' one c pos h =
    let checked : options.skip_ownership_check ≡ false = ground arith in
    let h1 =
      passed (if options.skip_ownership_check then none else ownership_error p rows) rows rows'
        (unless_error
          (if options.skip_roster_size_check then none else size_error (some league) r rows) rows
          (add_player r p t rows))
        h in
    let free : ownership_error p rows ≡ none = rw checked at h1.0 in
    let h2 =
      passed (if options.skip_roster_size_check then none else size_error (some league) r rows) rows
        rows' (add_player r p t rows) h1.1 in
    insert-IsOneOwner r p t rows rows' one pos (free_of_owner p rows one.1 free) h2.1
mutations_refine_owners league (remove r p) rows rows' one c pos h =
    let missing =
      missing_error RosterError.not_on_this_roster (find_by_roster_and_player r p rows) in
    let h1 = passed missing rows rows' (done (remove_player r p rows)) h in
    let found =
      not_missing RosterError.not_on_this_roster (find_by_roster_and_player r p rows) h1.0 in
    let done_eq = h1.1 in
    let same : remove_player r p rows ≡ rows' = cc in
    rw (sym same)
      (remove_player-IsOneOwner r p rows one, λ q. owner-remove r p found.0 rows q one found.1)
mutations_refine_owners league (swap r a d t) rows rows' one c pos h =
    let missing =
      missing_error RosterError.drop_not_on_this_roster (find_by_roster_and_player r d rows) in
    let added = add_player r a t (remove_player r d rows) in
    let h1 = passed (ownership_error a rows) rows rows' (unless_error missing rows added) h in
    let h2 = passed missing rows rows' added h1.1 in
    let found =
      not_missing RosterError.drop_not_on_this_roster (find_by_roster_and_player r d rows) h2.0 in
    let free = free_of_owner a rows one.1 h1.0 in
    let dropped = owner-remove r d found.0 rows in
    let still_free =
      present_not a (remove_player r d rows)
        (All-remove_player (λ y. a ≢ y.player_id) r d rows (absent a rows free)) in
    let result =
      insert-IsOneOwner r a t (remove_player r d rows) rows' (remove_player-IsOneOwner r d rows one)
        pos still_free h2.1 in
    (result.0, λ q. rw (result.1 q, dropped q one found.1) refl)
mutations_refine_owners league (bulk_remove removals) rows rows' one c pos h = absurd cc
mutations_refine_owners league (bulk_add additions) rows rows' one c pos h = absurd cc
