-- ===== src/Rosters/Invariant.antt =====
-- Sequences of calls of RosterMutationService in one league, and what every one of them keeps.
use ht_mvp_backend.Prelude.{
  ℕ, ◌≤◌, ◌<◌, ◌≡◌, inl, inr, Bool, true, false, not, Option, none, some, List, [], ◌∷◌, any, All,
  arith, Bool-cases, Option-cases, ◌==◌, leb, if◌then◌else◌, sym, refl,
}
use ht_mvp_backend.Rosters.{
  RosterPlayer, AcquiredType, Outcome, done, failed, RosterError, League, MutationOptions, Removal,
  Addition, player_count, find_by_roster_and_player, remove_player, add_player, unless_error,
  size_error, ownership_error, missing_error, remove_all, add_all, after_adding, is_none,
  get_max_roster_size, add_player_to_roster, remove_player_from_roster, swap_players,
  bulk_remove_players, bulk_add_players,
}
use ht_mvp_backend.Rosters.Counts.{rows_after, player_count-cons, count-remove_le, count-remove_lt}

pub data Operation : Type 0 where
  add : ℕ → ℕ → AcquiredType → MutationOptions → Operation
  remove : ℕ → ℕ → Operation
  swap : ℕ → ℕ → ℕ → AcquiredType → Operation
  bulk_remove : List Removal → Operation
  bulk_add : List Addition → Operation

abbrev pub apply : League → Operation → List RosterPlayer → Outcome
apply league (add roster_id player_id acquired_type options) rows =
    add_player_to_roster (some league) roster_id player_id acquired_type options rows
apply league (remove roster_id player_id) rows = remove_player_from_roster roster_id player_id rows
apply league (swap roster_id add_player_id drop_player_id acquired_type) rows =
    swap_players roster_id add_player_id drop_player_id acquired_type rows
apply league (bulk_remove removals) rows = bulk_remove_players removals rows
apply league (bulk_add additions) rows = bulk_add_players (some league) additions rows

-- the calls in turn, each on what the one before left, thrown or not
abbrev pub run_all : League → List Operation → List RosterPlayer → List RosterPlayer
run_all league [] rows = rows
run_all league (op ∷ ops) rows = run_all league ops (rows_after (apply league op rows))

abbrev pub checks_size : Operation → Bool
checks_size (add roster_id player_id acquired_type options) = not options.skip_roster_size_check
checks_size (remove roster_id player_id) = true
checks_size (swap roster_id add_player_id drop_player_id acquired_type) = true
checks_size (bulk_remove removals) = true
checks_size (bulk_add additions) = true

-- No roster has more players than the league allows.
abbrev pub IsWithin : ℕ → List RosterPlayer → Type 0
IsWithin max_roster_size rows = (roster_id : ℕ) → player_count roster_id rows ≤ max_roster_size

add_player-IsWithin :
    (m r p : ℕ) (t : AcquiredType) (rows : List RosterPlayer)
    → IsWithin m rows
    → player_count r rows < m
    → IsWithin m (rows_after (add_player r p t rows))
unfolding add_player rows_after
add_player-IsWithin m r p t rows w lt q =
    let row : RosterPlayer = record { roster_id = r; player_id = p; acquired_type = t } in
    let wq = w q in
    elim (Option-cases (find_by_roster_and_player r p rows)) [
      | inl e ↦
          rw (e, player_count-cons q row rows)
            (elim (Bool-cases (r == q)) [
              | inl same ↦
                  let eq : r ≡ q = ground arith in
                  let ltq : player_count q rows < m = rw (sym eq) lt in rw same (omega (arith, ltq))
              | inr other ↦ rw other (omega (arith, wq))
            ])
      | inr found ↦ rw found.1 wq
    ]

unless_error-IsWithin :
    (m : ℕ) (e : Option RosterError) (rows : List RosterPlayer) (rest : Outcome)
    → IsWithin m rows
    → (e ≡ none → IsWithin m (rows_after rest))
    → IsWithin m (rows_after (unless_error e rows rest))
unfolding rows_after
unless_error-IsWithin m none rows rest w h = h refl
unless_error-IsWithin m (some e) rows rest w h = w

room :
    (league : League) (r : ℕ) (rows : List RosterPlayer)
    → size_error (some league) r rows ≡ none
    → player_count r rows < get_max_roster_size league.settings
room league r rows h =
    elim (Bool-cases (leb (get_max_roster_size league.settings) (player_count r rows))) [
      | inl full ↦ let stuck : some RosterError.roster_is_full ≡ none = rw full at h in absurd cc
      | inr free ↦ ground arith
    ]

remove_all-IsWithin :
    (m : ℕ) (removals : List Removal) (rows : List RosterPlayer)
    → IsWithin m rows
    → IsWithin m (remove_all removals rows)
remove_all-IsWithin m [] rows w = w
remove_all-IsWithin m (r ∷ removals) rows w =
    remove_all-IsWithin m removals (remove_player r.roster_id r.player_id rows)
      (λ q. let wq = w q in omega (arith, wq, count-remove_le q r.roster_id r.player_id rows))

after_adding-IsWithin :
    (m : ℕ) (o : Outcome) (rest : List RosterPlayer → Outcome)
    → IsWithin m (rows_after o)
    → ((rows : List RosterPlayer) → IsWithin m rows → IsWithin m (rows_after (rest rows)))
    → IsWithin m (rows_after (after_adding o rest))
unfolding rows_after
after_adding-IsWithin m (done rows) rest w h = h rows w
after_adding-IsWithin m (failed e rows) rest w h = w

add_all-IsWithin :
    (m : ℕ) (additions : List Addition) (rows : List RosterPlayer)
    → IsWithin m rows
    → IsWithin m (rows_after (add_all m additions rows))
unfolding rows_after
add_all-IsWithin m [] rows w = w
add_all-IsWithin m (a ∷ additions) rows w =
    elim (Bool-cases (leb m (player_count a.roster_id rows))) [
      | inl e ↦ rw e w
      | inr e ↦ rw e (
          after_adding-IsWithin m (add_player a.roster_id a.player_id a.acquired_type rows)
            (add_all m additions)
            (add_player-IsWithin m a.roster_id a.player_id a.acquired_type rows w (ground arith))
            (add_all-IsWithin m additions))
    ]

pub not_missing :
    (e : RosterError) (o : Option RosterPlayer)
    → missing_error e o ≡ none
    → (row : RosterPlayer) × (o ≡ some row)
not_missing e none h = absurd cc
not_missing e (some row) h = (row, refl)

pub apply-IsWithin :
    (league : League) (op : Operation) (rows : List RosterPlayer)
    → checks_size op ≡ true
    → IsWithin (get_max_roster_size league.settings) rows
    → IsWithin (get_max_roster_size league.settings) (rows_after (apply league op rows))
unfolding add_player_to_roster remove_player_from_roster swap_players bulk_remove_players
    bulk_add_players rows_after
apply-IsWithin league (add r p t options) rows c w =
    let m = get_max_roster_size league.settings in
    let checked : options.skip_roster_size_check ≡ false = ground arith in
    rw checked (
      unless_error-IsWithin m
        (if options.skip_ownership_check then none else ownership_error p rows) rows
        (unless_error (size_error (some league) r rows) rows (add_player r p t rows)) w
        (λ e.
          unless_error-IsWithin m (size_error (some league) r rows) rows (add_player r p t rows) w
            (λ e'. add_player-IsWithin m r p t rows w (room league r rows e'))))
apply-IsWithin league (remove r p) rows c w =
    unless_error-IsWithin (get_max_roster_size league.settings) _ rows
      (done (remove_player r p rows)) w
      (λ e q. let wq = w q in omega (arith, wq, count-remove_le q r p rows))
apply-IsWithin league (swap r a d t) rows c w =
    let m = get_max_roster_size league.settings in
    let missing =
      missing_error RosterError.drop_not_on_this_roster (find_by_roster_and_player r d rows) in
    let added = add_player r a t (remove_player r d rows) in
    unless_error-IsWithin m (ownership_error a rows) rows (unless_error missing rows added) w (λ e.
      unless_error-IsWithin m missing rows added w (λ e'.
        let found =
          not_missing RosterError.drop_not_on_this_roster (find_by_roster_and_player r d rows) e' in
        let smaller = count-remove_lt r d found.0 rows found.1 in
        let wr = w r in
        add_player-IsWithin m r a t (remove_player r d rows)
          (λ q. let wq = w q in omega (arith, wq, count-remove_le q r d rows))
          (omega (arith, smaller, wr))))
apply-IsWithin league (bulk_remove removals) rows c w =
    elim (Bool-cases
      (any (λ r. is_none (find_by_roster_and_player r.roster_id r.player_id rows)) removals)) [
        | inl e ↦ rw e w
        | inr e ↦ rw e (remove_all-IsWithin (get_max_roster_size league.settings) removals rows w)
      ]
apply-IsWithin league (bulk_add additions) rows c w =
    add_all-IsWithin (get_max_roster_size league.settings) additions rows w

-- Whatever sequence of additions, removals, swaps and bulk calls is made, failed calls included, no roster
-- grows past the league's maximum, as long as no addition skips the size check.
pub mutations_keep_sizes :
    (league : League) (ops : List Operation) (rows : List RosterPlayer)
    → All (λ op. checks_size op ≡ true) ops
    → IsWithin (get_max_roster_size league.settings) rows
    → IsWithin (get_max_roster_size league.settings) (run_all league ops rows)
mutations_keep_sizes league [] rows c w = w
mutations_keep_sizes league (op ∷ ops) rows c w =
    mutations_keep_sizes league ops (rows_after (apply league op rows)) c.1
      (apply-IsWithin league op rows c.0 w)
