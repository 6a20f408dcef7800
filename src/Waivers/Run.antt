-- ===== src/Waivers/Run.antt =====
-- processLeagueClaims (process-waivers.use-case.ts): the loop over rounds and groups of competing claims, with
-- the rows of roster_players that executeClaim changes. The budget and priority tables, the wire and the
-- trades that a win invalidates are left out.
use ht_mvp_backend.Prelude.{
  ℕ, zero, suc, false, not, Option, none, some, List, [], ◌∷◌, ◌++◌, map, ◌==◌, if◌then◌else◌,
}
use ht_mvp_backend.Rosters.{
  RosterPlayer, AcquiredType, League, MutationOptions, RosterError, Outcome, done,
  add_player_to_roster, remove_player_from_roster,
}
use ht_mvp_backend.Waivers.{
  WaiverType, WaiverClaim, RosterProcessingState, IneligibleReason, has, state_of, is_unprocessed,
  has_unprocessed_claims, extract_round_claims, sort_claims_by_roster_state,
  validate_claim_with_state, add, without, update_roster_state_after_win,
}

pub data ClaimStatus : Type 0 where
  successful : ClaimStatus
  invalid : ClaimStatus
  failed : ClaimStatus

-- a call of claimsRepo.updateStatus
pub record Decision : Type 0 where
  pub claim_id : ℕ
  pub status : ClaimStatus

pub record Run : Type 0 where
  pub states : List RosterProcessingState
  pub owned_player_ids : List ℕ
  pub rows : List RosterPlayer
  pub decisions : List Decision
  pub successes : ℕ

pub record RunConfig : Type 0 where
  pub league : League
  pub waiver_type : WaiverType
  pub max_roster_size : ℕ
  pub max_priority : ℕ

abbrev pub add_options : MutationOptions
add_options = record { skip_ownership_check = false; skip_roster_size_check = false }

abbrev pub add_claimed : League → WaiverClaim → List RosterPlayer → Outcome
add_claimed league claim rows =
    add_player_to_roster (some league) claim.roster_id claim.player_id AcquiredType.waiver
      add_options rows

-- the catch around the drop: a player who is not there is passed over, any other error is thrown again
abbrev pub after_drop : League → WaiverClaim → Outcome → Outcome
after_drop league claim (done rows) = add_claimed league claim rows
after_drop league claim (Outcome.failed RosterError.not_on_this_roster rows) =
    add_claimed league claim rows
after_drop league claim (Outcome.failed e rows) = Outcome.failed e rows

abbrev pub execute_drop : League → WaiverClaim → Option ℕ → List RosterPlayer → Outcome
execute_drop league claim none rows = add_claimed league claim rows
execute_drop league claim (some zero) rows = add_claimed league claim rows
execute_drop league claim (some (suc p)) rows =
    after_drop league claim (remove_player_from_roster claim.roster_id (suc p) rows)

unfoldable pub execute_claim : League → WaiverClaim → List RosterPlayer → Outcome
execute_claim league claim rows = execute_drop league claim claim.drop_player_id rows

abbrev pub mark_state : WaiverClaim → RosterProcessingState → RosterProcessingState
mark_state claim s =
    if s.roster_id == claim.roster_id
    then record s { processed_claim_ids = add s.processed_claim_ids claim.id }
    else s

-- updateStatus, and processedClaimIds.add
abbrev pub mark : WaiverClaim → ClaimStatus → Run → Run
mark claim status run = record run {
  states = map (mark_state claim) run.states;
  decisions = record { claim_id = claim.id; status = status } ∷ run.decisions;
}

abbrev pub win : RunConfig → RosterProcessingState → WaiverClaim → List RosterPlayer → Run → Run
win config state claim rows run = mark claim successful (record {
  states =
      update_roster_state_after_win state claim config.waiver_type run.states config.max_priority;
  owned_player_ids = without claim.drop_player_id (add run.owned_player_ids claim.player_id);
  rows = rows;
  decisions = run.decisions;
  successes = suc run.successes;
})

abbrev pub status_of_error : RosterError → ClaimStatus
status_of_error RosterError.already_on_a_roster = invalid
status_of_error _ = ClaimStatus.failed

abbrev pub after_execute :
    RunConfig → RosterProcessingState → WaiverClaim → Outcome → Run → (Run → Run) → Run
after_execute config state claim (done rows) run rest = win config state claim rows run
after_execute config state claim (Outcome.failed e rows) run rest =
    rest (mark claim (status_of_error e) (record run { rows = rows }))

abbrev pub try_valid :
    RunConfig
    → RosterProcessingState
    → WaiverClaim
    → Option IneligibleReason
    → Run
    → (Run → Run)
    → Run
try_valid config state claim (some reason) run rest = rest (mark claim invalid run)
try_valid config state claim none run rest =
    after_execute config state claim (execute_claim config.league claim run.rows) run rest

abbrev pub try_one :
    RunConfig → WaiverClaim → Option RosterProcessingState → Run → (Run → Run) → Run
try_one config claim none run rest = rest run
try_one config claim (some state) run rest =
    if not (is_unprocessed state claim)
    then rest run
    else (if has run.owned_player_ids claim.player_id
        then rest (mark claim invalid run)
        else try_valid config state claim
            (validate_claim_with_state claim state config.waiver_type config.max_roster_size) run
            rest)

-- the candidates in order, up to the first that is executed
abbrev pub try_all : RunConfig → List WaiverClaim → Run → Run
try_all config [] run = run
try_all config (claim ∷ claims) run =
    try_one config claim (state_of claim.roster_id run.states) run (try_all config claims)

abbrev pub lose : WaiverClaim → Option RosterProcessingState → Run → Run
lose claim none run = run
lose claim (some state) run =
    if is_unprocessed state claim then mark claim ClaimStatus.failed run else run

-- the rest of the group loses
abbrev pub mark_losers : List WaiverClaim → Run → Run
mark_losers [] run = run
mark_losers (claim ∷ claims) run =
    mark_losers claims (lose claim (state_of claim.roster_id run.states) run)

unfoldable pub process_group : RunConfig → List WaiverClaim → Run → Run
process_group config competing run =
    let sorted = sort_claims_by_roster_state competing config.waiver_type run.states in
    mark_losers sorted (try_all config sorted run)

pub record ConflictGroup : Type 0 where
  pub player_id : ℕ
  pub claims : List WaiverClaim

abbrev pub add_to_group : WaiverClaim → List ConflictGroup → List ConflictGroup
add_to_group claim [] = record { player_id = claim.player_id; claims = claim ∷ [] } ∷ []
add_to_group claim (g ∷ groups) =
    if g.player_id == claim.player_id
    then record g { claims = g.claims ++ claim ∷ [] } ∷ groups
    else g ∷ add_to_group claim groups

abbrev pub group_claims : List WaiverClaim → List ConflictGroup → List ConflictGroup
group_claims [] groups = groups
group_claims (claim ∷ claims) groups = group_claims claims (add_to_group claim groups)

abbrev pub process_groups : RunConfig → List ConflictGroup → Run → Run
process_groups config [] run = run
process_groups config (g ∷ groups) run =
    process_groups config groups (process_group config g.claims run)

abbrev pub next_round : RunConfig → List WaiverClaim → Run → (Run → Run) → Run
next_round config [] run rest = run
next_round config (c ∷ cs) run rest = rest (process_groups config (group_claims (c ∷ cs) []) run)

-- the while loop, on fuel
abbrev pub process_rounds : RunConfig → List (ℕ × List WaiverClaim) → ℕ → Run → Run
process_rounds config claims_by_roster zero run = run
process_rounds config claims_by_roster (suc fuel) run =
    if has_unprocessed_claims claims_by_roster run.states
    then next_round config (extract_round_claims claims_by_roster run.states) run
        (process_rounds config claims_by_roster fuel)
    else run
