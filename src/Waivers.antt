-- ===== src/Waivers.antt =====
-- modules/waivers/use-cases/process-waivers.use-case.ts: the in-memory rules of a waiver run. Sets
-- of ids are lists; a map from roster ids to states is the list of its states.
pub mod Ranking
pub mod Winning
pub mod Run
pub mod Decided
pub mod Rounds
pub mod Finished
pub mod Keeping
pub mod Examples
use ht_mvp_backend.Prelude.{
  ℕ, zero, suc, ◌+◌, ◌-◌, Bool, true, false, not, ◌&&◌, Option, none, some, List, [], ◌∷◌, map, ℤ,
  pos, negsuc, ◌-ℤ◌, ltb_ℤ, ltb, leb, ◌==◌, any, find, keep, truthy, sort, if◌then◌else◌,
}

pub data WaiverType : Type 0 where
  standard : WaiverType
  faab : WaiverType
  no_waivers : WaiverType

pub record WaiverClaim : Type 0 where
  pub id : ℕ
  pub roster_id : ℕ
  pub player_id : ℕ
  pub drop_player_id : Option ℕ
  pub bid_amount : ℕ
  pub created_at : ℕ

-- The priority of a roster that has one. (A claim with none gets Infinity in the source, which is left out.)
pub record RosterProcessingState : Type 0 where
  pub roster_id : ℕ
  pub current_priority : ℕ
  pub remaining_budget : ℤ
  pub current_roster_size : ℕ
  pub owned_player_ids : List ℕ
  pub processed_claim_ids : List ℕ

pub data IneligibleReason : Type 0 where
  already_on_roster : IneligibleReason
  drop_player_gone : IneligibleReason
  roster_full : IneligibleReason
  insufficient_budget : ℤ → IneligibleReason

abbrev pub is_standard : WaiverType → Bool
is_standard standard = true
is_standard faab = false
is_standard no_waivers = false

abbrev pub is_faab : WaiverType → Bool
is_faab standard = false
is_faab faab = true
is_faab no_waivers = false

-- Set.prototype.has and delete
abbrev pub has : List ℕ → ℕ → Bool
has xs n = any (λ x. x == n) xs

abbrev pub delete : List ℕ → ℕ → List ℕ
delete xs n = keep (λ x. not (x == n)) xs

-- rosterStates.get(rosterId)
unfoldable pub state_of : ℕ → List RosterProcessingState → Option RosterProcessingState
state_of roster_id states = find (λ s. s.roster_id == roster_id) states

abbrev pub is_unprocessed : RosterProcessingState → WaiverClaim → Bool
is_unprocessed state c = not (has state.processed_claim_ids c.id)

abbrev pub unprocessed_in : Option RosterProcessingState → List WaiverClaim → Bool
unprocessed_in none claims = false
unprocessed_in (some state) claims = any (is_unprocessed state) claims

-- claimsByRoster is a list of rosters with their claims
unfoldable pub has_unprocessed_claims :
    List (ℕ × List WaiverClaim) → List RosterProcessingState → Bool
has_unprocessed_claims claims_by_roster states =
    any (λ entry. unprocessed_in (state_of entry.0 states) entry.1) claims_by_roster

abbrev pub next_claim : Option RosterProcessingState → List WaiverClaim → Option WaiverClaim
next_claim none claims = none
next_claim (some state) claims = find (is_unprocessed state) claims

abbrev pub push_some : Option WaiverClaim → List WaiverClaim → List WaiverClaim
push_some none cs = cs
push_some (some c) cs = c ∷ cs

unfoldable pub extract_round_claims :
    List (ℕ × List WaiverClaim) → List RosterProcessingState → List WaiverClaim
extract_round_claims [] states = []
extract_round_claims ((roster_id, claims) ∷ rest) states =
    push_some (next_claim (state_of roster_id states) claims) (extract_round_claims rest states)

-- `?.currentPriority ?? Infinity`: none is Infinity
abbrev pub priority_of : Option RosterProcessingState → Option ℕ
priority_of none = none
priority_of (some state) = some state.current_priority

-- A difference of priorities where they differ, else what follows; only the sign of a difference
-- with Infinity matters.
abbrev pub by_priority : Option ℕ → Option ℕ → ℤ → ℤ
by_priority none none tied = tied
by_priority none (some q) tied = pos 1
by_priority (some p) none tied = negsuc 0
by_priority (some p) (some q) tied = if not (p == q) then pos p -ℤ pos q else tied

abbrev pub by_time : WaiverClaim → WaiverClaim → ℤ
by_time a b =
    if not (a.created_at == b.created_at)
    then pos a.created_at -ℤ pos b.created_at
    else pos a.id -ℤ pos b.id

abbrev pub by_bid : WaiverType → WaiverClaim → WaiverClaim → ℤ → ℤ
by_bid faab a b tied =
    if not (a.bid_amount == b.bid_amount) then pos b.bid_amount -ℤ pos a.bid_amount else tied
by_bid standard a b tied = tied
by_bid no_waivers a b tied = tied

unfoldable pub compare_claims :
    WaiverType → List RosterProcessingState → WaiverClaim → WaiverClaim → ℤ
unfolding state_of
compare_claims waiver_type states a b = by_bid waiver_type a b (
    by_priority (priority_of (state_of a.roster_id states))
      (priority_of (state_of b.roster_id states)) (by_time a b))

unfoldable pub sort_claims_by_roster_state :
    List WaiverClaim → WaiverType → List RosterProcessingState → List WaiverClaim
sort_claims_by_roster_state claims waiver_type states =
    sort (compare_claims waiver_type states) claims

-- `claim.dropPlayerId && ...`: a player to drop, unless null or 0
abbrev pub is_gone : List ℕ → Option ℕ → Bool
is_gone owned none = false
is_gone owned (some zero) = false
is_gone owned (some (suc p)) = not (has owned (suc p))

unfoldable pub validate_claim_with_state :
    WaiverClaim → RosterProcessingState → WaiverType → ℕ → Option IneligibleReason
validate_claim_with_state claim state waiver_type max_roster_size =
    if has state.owned_player_ids claim.player_id
    then some already_on_roster
    else (if is_gone state.owned_player_ids claim.drop_player_id
        then some drop_player_gone
        else (if not (truthy claim.drop_player_id) && leb max_roster_size state.current_roster_size
            then some roster_full
            else (if is_faab waiver_type
                  && ltb 0 claim.bid_amount
                  && ltb_ℤ state.remaining_budget (pos claim.bid_amount)
                then some (insufficient_budget state.remaining_budget)
                else none)))

-- Set.prototype.add
abbrev pub add : List ℕ → ℕ → List ℕ
add xs n = if has xs n then xs else n ∷ xs

abbrev pub without : Option ℕ → List ℕ → List ℕ
without none xs = xs
without (some zero) xs = xs
without (some (suc p)) xs = delete xs (suc p)

-- the winner's own changes
unfoldable pub winner_state :
    WaiverClaim → WaiverType → ℕ → RosterProcessingState → RosterProcessingState
winner_state claim waiver_type max_priority state = record {
  roster_id = state.roster_id;
  current_priority = if is_standard waiver_type then max_priority else state.current_priority;
  remaining_budget =
      if is_faab waiver_type && ltb 0 claim.bid_amount
      then state.remaining_budget -ℤ pos claim.bid_amount
      else state.remaining_budget;
  current_roster_size =
      if truthy claim.drop_player_id
      then state.current_roster_size
      else suc state.current_roster_size;
  owned_player_ids = without claim.drop_player_id (add state.owned_player_ids claim.player_id);
  processed_claim_ids = state.processed_claim_ids;
}

-- the shift of everyone else, who moves up where behind the winner's old priority
unfoldable pub shifted_state : WaiverType → ℕ → RosterProcessingState → RosterProcessingState
shifted_state waiver_type winner_old_priority s = record {
  roster_id = s.roster_id;
  current_priority =
      if is_standard waiver_type && ltb winner_old_priority s.current_priority
      then s.current_priority - 1
      else s.current_priority;
  remaining_budget = s.remaining_budget;
  current_roster_size = s.current_roster_size;
  owned_player_ids = s.owned_player_ids;
  processed_claim_ids = s.processed_claim_ids;
}

unfoldable pub state_after_win :
    RosterProcessingState
    → WaiverClaim
    → WaiverType
    → ℕ
    → RosterProcessingState
    → RosterProcessingState
unfolding winner_state shifted_state
state_after_win state claim waiver_type max_priority s =
    if s.roster_id == state.roster_id
    then winner_state claim waiver_type max_priority state
    else shifted_state waiver_type state.current_priority s

unfoldable pub update_roster_state_after_win :
    RosterProcessingState
    → WaiverClaim
    → WaiverType
    → List RosterProcessingState
    → ℕ
    → List RosterProcessingState
unfolding state_after_win
update_roster_state_after_win state claim waiver_type all_states max_priority =
    map (state_after_win state claim waiver_type max_priority) all_states
