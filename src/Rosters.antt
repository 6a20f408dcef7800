-- ===== src/Rosters.antt =====
-- modules/rosters/roster-mutation.service.ts and the statements of rosters.repository.ts that it runs,
-- on one league's rows of roster_players. An outcome keeps the rows as they are when an error is thrown.
pub mod Counts
pub mod Invariant
pub mod Owners
pub mod Examples
use ht_mvp_backend.Prelude.{
  ℕ, zero, suc, ◌+◌, Bool, true, false, not, Option, none, some, List, [], ◌∷◌, length, keep, find,
  any, leb, ◌==◌, truthy, if◌then◌else◌,
}

pub data AcquiredType : Type 0 where
  draft : AcquiredType
  free_agent : AcquiredType
  trade : AcquiredType
  waiver : AcquiredType

pub record RosterPlayer : Type 0 where
  pub roster_id : ℕ
  pub player_id : ℕ
  pub acquired_type : AcquiredType

-- the settings that the roster and trade code reads
pub record LeagueSettings : Type 0 where
  pub roster_size : Option ℕ
  pub trade_deadline : Option ℕ
  pub trade_review_enabled : Bool
  pub trade_voting_enabled : Bool
  pub trade_review_hours : Option ℕ
  pub trade_expiry_hours : Option ℕ
  pub trade_veto_count : Option ℕ

pub record League : Type 0 where
  pub id : ℕ
  pub settings : Option LeagueSettings

pub record MutationOptions : Type 0 where
  pub skip_ownership_check : Bool
  pub skip_roster_size_check : Bool

pub data RosterError : Type 0 where
  already_on_a_roster : RosterError
  league_not_found : RosterError
  roster_is_full : RosterError
  not_on_this_roster : RosterError
  drop_not_on_this_roster : RosterError
  no_longer_on_roster : RosterError
  unique_violation : RosterError

pub data Outcome : Type 0 where
  done : List RosterPlayer → Outcome
  failed : RosterError → List RosterPlayer → Outcome

abbrev pub default_max_roster_size : ℕ
default_max_roster_size = 15

abbrev or_default : Option ℕ → ℕ
or_default none = default_max_roster_size
or_default (some zero) = default_max_roster_size
or_default (some (suc n)) = suc n

unfoldable pub get_max_roster_size : Option LeagueSettings → ℕ
get_max_roster_size none = default_max_roster_size
get_max_roster_size (some settings) = or_default settings.roster_size

abbrev pub is_row : ℕ → ℕ → RosterPlayer → Bool
is_row roster_id player_id row =
    if row.roster_id == roster_id then row.player_id == player_id else false

abbrev pub find_by_roster_and_player : ℕ → ℕ → List RosterPlayer → Option RosterPlayer
find_by_roster_and_player roster_id player_id rows = find (is_row roster_id player_id) rows

abbrev pub owner_in : Option RosterPlayer → Option ℕ
owner_in none = none
owner_in (some row) = some row.roster_id

abbrev pub find_owner : ℕ → List RosterPlayer → Option ℕ
find_owner player_id rows = owner_in (find (λ row. row.player_id == player_id) rows)

abbrev pub player_count : ℕ → List RosterPlayer → ℕ
player_count roster_id rows = length (keep (λ row. row.roster_id == roster_id) rows)

-- INSERT, under the table's UNIQUE (roster_id, player_id)
abbrev insert_unless : Option RosterPlayer → RosterPlayer → List RosterPlayer → Outcome
insert_unless none row rows = done (row ∷ rows)
insert_unless (some existing) row rows = failed unique_violation rows

unfoldable pub add_player : ℕ → ℕ → AcquiredType → List RosterPlayer → Outcome
add_player roster_id player_id acquired_type rows =
    insert_unless (find_by_roster_and_player roster_id player_id rows)
      (record { roster_id = roster_id; player_id = player_id; acquired_type = acquired_type }) rows

abbrev pub remove_player : ℕ → ℕ → List RosterPlayer → List RosterPlayer
remove_player roster_id player_id rows = keep (λ row. not (is_row roster_id player_id row)) rows

-- a check that throws, before the rest of a method
abbrev pub unless_error : Option RosterError → List RosterPlayer → Outcome → Outcome
unless_error none rows rest = rest
unless_error (some e) rows rest = failed e rows

abbrev pub ownership_error : ℕ → List RosterPlayer → Option RosterError
ownership_error player_id rows =
    if truthy (find_owner player_id rows) then some already_on_a_roster else none

abbrev pub size_error : Option League → ℕ → List RosterPlayer → Option RosterError
size_error none roster_id rows = some league_not_found
size_error (some league) roster_id rows =
    if leb (get_max_roster_size league.settings) (player_count roster_id rows)
    then some roster_is_full
    else none

unfoldable pub add_player_to_roster :
    Option League → ℕ → ℕ → AcquiredType → MutationOptions → List RosterPlayer → Outcome
add_player_to_roster league roster_id player_id acquired_type options rows =
    unless_error (if options.skip_ownership_check then none else ownership_error player_id rows)
      rows
      (unless_error
        (if options.skip_roster_size_check then none else size_error league roster_id rows) rows
        (add_player roster_id player_id acquired_type rows))

abbrev missing_error : RosterError → Option RosterPlayer → Option RosterError
missing_error e none = some e
missing_error e (some row) = none

unfoldable pub remove_player_from_roster : ℕ → ℕ → List RosterPlayer → Outcome
remove_player_from_roster roster_id player_id rows =
    unless_error
      (missing_error not_on_this_roster (find_by_roster_and_player roster_id player_id rows)) rows
      (done (remove_player roster_id player_id rows))

unfoldable pub swap_players : ℕ → ℕ → ℕ → AcquiredType → List RosterPlayer → Outcome
swap_players roster_id add_player_id drop_player_id acquired_type rows =
    unless_error (ownership_error add_player_id rows) rows (
      unless_error
        (missing_error drop_not_on_this_roster
          (find_by_roster_and_player roster_id drop_player_id rows))
        rows
        (add_player roster_id add_player_id acquired_type
          (remove_player roster_id drop_player_id rows)))

pub record Removal : Type 0 where
  pub roster_id : ℕ
  pub player_id : ℕ

pub record Addition : Type 0 where
  pub roster_id : ℕ
  pub player_id : ℕ
  pub acquired_type : AcquiredType

abbrev is_none : Option RosterPlayer → Bool
is_none none = true
is_none (some row) = false

abbrev pub remove_all : List Removal → List RosterPlayer → List RosterPlayer
remove_all [] rows = rows
remove_all (r ∷ removals) rows = remove_all removals (remove_player r.roster_id r.player_id rows)

unfoldable pub bulk_remove_players : List Removal → List RosterPlayer → Outcome
bulk_remove_players removals rows =
    if any (λ r. is_none (find_by_roster_and_player r.roster_id r.player_id rows)) removals
    then failed no_longer_on_roster rows
    else done (remove_all removals rows)

abbrev pub after_adding : Outcome → (List RosterPlayer → Outcome) → Outcome
after_adding (done rows) rest = rest rows
after_adding (failed e rows) rest = failed e rows

abbrev pub add_all : ℕ → List Addition → List RosterPlayer → Outcome
add_all max_roster_size [] rows = done rows
add_all max_roster_size (a ∷ additions) rows =
    if leb max_roster_size (player_count a.roster_id rows)
    then failed roster_is_full rows
    else after_adding (add_player a.roster_id a.player_id a.acquired_type rows)
        (add_all max_roster_size additions)

unfoldable pub bulk_add_players : Option League → List Addition → List RosterPlayer → Outcome
bulk_add_players none additions rows = failed league_not_found rows
bulk_add_players (some league) additions rows =
    add_all (get_max_roster_size league.settings) additions rows
