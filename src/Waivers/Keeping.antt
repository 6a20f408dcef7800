-- ===== src/Waivers/Keeping.antt =====
-- What a waiver run keeps of the rosters, and what executeClaim leaves when it throws.
use ht_mvp_backend.Prelude.{
  ℕ, zero, suc, ◌≡◌, ◌≢◌, inl, inr, Option, none, some, List, [], ◌∷◌, Bool-cases, refl, ◌∙◌,
}
use ht_mvp_backend.Rosters.{
  RosterPlayer, AcquiredType, League, RosterError, Outcome, done, get_max_roster_size, find_owner,
  find_by_roster_and_player, add_player_to_roster, remove_player_from_roster, remove_player,
}
use ht_mvp_backend.Rosters.Counts.{rows_after}
use ht_mvp_backend.Rosters.Invariant.{Operation, IsWithin, apply-IsWithin}
use ht_mvp_backend.Rosters.Owners.{IsOneOwner, owner-remove_same, owner-remove_other}
use ht_mvp_backend.Waivers.{
  WaiverClaim, RosterProcessingState, IneligibleReason, has, state_of, is_unprocessed,
  has_unprocessed_claims, extract_round_claims, sort_claims_by_roster_state,
  validate_claim_with_state,
}
use ht_mvp_backend.Waivers.Run.{
  invalid, Run, RunConfig, add_options, add_claimed, after_drop, execute_drop, execute_claim, mark,
  status_of_error, after_execute, try_valid, try_one, try_all, lose, mark_losers, process_group,
  ConflictGroup, group_claims, process_groups, next_round, process_rounds,
}

add-IsWithin :
    (league : League) (claim : WaiverClaim) (rows : List RosterPlayer)
    → IsWithin (get_max_roster_size league.settings) rows
    → IsWithin (get_max_roster_size league.settings) (rows_after (add_claimed league claim rows))
add-IsWithin league claim rows w =
    apply-IsWithin league
      (Operation.add claim.roster_id claim.player_id AcquiredType.waiver add_options) rows refl w

after_drop-IsWithin :
    (league : League) (claim : WaiverClaim) (o : Outcome)
    → IsWithin (get_max_roster_size league.settings) (rows_after o)
    → IsWithin (get_max_roster_size league.settings) (rows_after (after_drop league claim o))
unfolding rows_after
after_drop-IsWithin league claim (done rows) w = add-IsWithin league claim rows w
after_drop-IsWithin league claim (Outcome.failed RosterError.not_on_this_roster rows) w =
    add-IsWithin league claim rows w
after_drop-IsWithin league claim (Outcome.failed RosterError.already_on_a_roster rows) w = w
after_drop-IsWithin league claim (Outcome.failed RosterError.league_not_found rows) w = w
after_drop-IsWithin league claim (Outcome.failed RosterError.roster_is_full rows) w = w
after_drop-IsWithin league claim (Outcome.failed RosterError.drop_not_on_this_roster rows) w = w
after_drop-IsWithin league claim (Outcome.failed RosterError.no_longer_on_roster rows) w = w
after_drop-IsWithin league claim (Outcome.failed RosterError.unique_violation rows) w = w

drop-IsWithin :
    (league : League) (claim : WaiverClaim) (o : Option ℕ) (rows : List RosterPlayer)
    → IsWithin (get_max_roster_size league.settings) rows
    → IsWithin (get_max_roster_size league.settings) (rows_after (execute_drop league claim o rows))
drop-IsWithin league claim none rows w = add-IsWithin league claim rows w
drop-IsWithin league claim (some zero) rows w = add-IsWithin league claim rows w
drop-IsWithin league claim (some (suc p)) rows w =
    after_drop-IsWithin league claim (remove_player_from_roster claim.roster_id (suc p) rows)
      (apply-IsWithin league (Operation.remove claim.roster_id (suc p)) rows refl w)

execute-IsWithin :
    (league : League) (claim : WaiverClaim) (rows : List RosterPlayer)
    → IsWithin (get_max_roster_size league.settings) rows
    → IsWithin (get_max_roster_size league.settings) (rows_after (execute_claim league claim rows))
unfolding execute_claim
execute-IsWithin league claim rows w = drop-IsWithin league claim claim.drop_player_id rows w

module _ (config : RunConfig) (P : List RosterPlayer → Type 0)
    (keeps : (claim : WaiverClaim) (rows : List RosterPlayer)
      → P rows
      → P (rows_after (execute_claim config.league claim rows))) where
  Carried : (Run → Run) → Type 0
  Carried rest = (run : Run) → P run.rows → P (rest run).rows

  execute_keeps :
      (s : RosterProcessingState) (c : WaiverClaim) (o : Outcome) (run : Run) (rest : Run → Run)
      → P (rows_after o)
      → Carried rest
      → P (after_execute config s c o run rest).rows
  unfolding rows_after Carried
  execute_keeps s c (done rows) run rest p k = p
  execute_keeps s c (Outcome.failed e rows) run rest p k =
      k (mark c (status_of_error e) (record run { rows = rows })) p

  valid_keeps :
      (s : RosterProcessingState) (c : WaiverClaim) (o : Option IneligibleReason) (run : Run)
      (rest : Run → Run)
      → P run.rows
      → Carried rest
      → P (try_valid config s c o run rest).rows
  unfolding Carried
  valid_keeps s c (some reason) run rest p k = k (mark c invalid run) p
  valid_keeps s c none run rest p k =
      execute_keeps s c (execute_claim config.league c run.rows) run rest (keeps c run.rows p) k

  one_keeps :
      (c : WaiverClaim) (o : Option RosterProcessingState) (run : Run) (rest : Run → Run)
      → P run.rows
      → Carried rest
      → P (try_one config c o run rest).rows
  unfolding Carried
  one_keeps c none run rest p k = k run p
  one_keeps c (some s) run rest p k = elim (Bool-cases (is_unprocessed s c)) [
    | inl e ↦ elim (Bool-cases (has run.owned_player_ids c.player_id)) [
      | inl f ↦ rw (e, f) (k (mark c invalid run) p)
      | inr f ↦
          rw (e, f)
            (valid_keeps s c
              (validate_claim_with_state c s config.waiver_type config.max_roster_size) run rest p
              k)
    ]
    | inr e ↦ rw e (k run p)
  ]

  all_keeps : (cs : List WaiverClaim) (run : Run) → P run.rows → P (try_all config cs run).rows
  unfolding Carried
  all_keeps [] run p = p
  all_keeps (c ∷ cs) run p =
      one_keeps c (state_of c.roster_id run.states) run (try_all config cs) p (all_keeps cs)

  lose_keeps :
      (c : WaiverClaim) (o : Option RosterProcessingState) (run : Run)
      → P run.rows
      → P (lose c o run).rows
  lose_keeps c none run p = p
  lose_keeps c (some s) run p = elim (Bool-cases (is_unprocessed s c)) [
    | inl e ↦ rw e p
    | inr e ↦ rw e p
  ]

  losers_keep : (cs : List WaiverClaim) (run : Run) → P run.rows → P (mark_losers cs run).rows
  losers_keep [] run p = p
  losers_keep (c ∷ cs) run p =
      let o = state_of c.roster_id run.states in
      losers_keep cs (lose c o run) (lose_keeps c o run p)

  groups_keep :
      (gs : List ConflictGroup) (run : Run) → P run.rows → P (process_groups config gs run).rows
  unfolding process_group
  groups_keep [] run p = p
  groups_keep (g ∷ gs) run p =
      let sorted = sort_claims_by_roster_state g.claims config.waiver_type run.states in
      groups_keep gs (process_group config g.claims run)
        (losers_keep sorted (try_all config sorted run) (all_keeps sorted run p))

  next_keeps :
      (rc : List WaiverClaim) (run : Run) (rest : Run → Run)
      → P run.rows
      → Carried rest
      → P (next_round config rc run rest).rows
  unfolding Carried
  next_keeps [] run rest p k = p
  next_keeps (c ∷ cs) run rest p k =
      let gs = group_claims (c ∷ cs) [] in k (process_groups config gs run) (groups_keep gs run p)

  pub rounds_keep :
      (entries : List (ℕ × List WaiverClaim)) (fuel : ℕ) (run : Run)
      → P run.rows
      → P (process_rounds config entries fuel run).rows
  unfolding Carried
  rounds_keep entries zero run p = p
  rounds_keep entries (suc fuel) run p =
      elim (Bool-cases (has_unprocessed_claims entries run.states)) [
        | inl e ↦ rw e (
            next_keeps (extract_round_claims entries run.states) run
              (process_rounds config entries fuel) p (rounds_keep entries fuel))
        | inr e ↦ rw e p
      ]

-- A waiver run, whatever its claims, leaves no roster with more players than the league allows, if none
-- had more before, through any number of rounds, wins and executions that throw.
pub waiver_run_keeps_sizes :
    (config : RunConfig) (entries : List (ℕ × List WaiverClaim)) (fuel : ℕ) (run : Run)
    → IsWithin (get_max_roster_size config.league.settings) run.rows
    → IsWithin
        (get_max_roster_size config.league.settings)
        (process_rounds config entries fuel run).rows
waiver_run_keeps_sizes config entries fuel run w =
    rounds_keep config (IsWithin (get_max_roster_size config.league.settings))
      (λ claim rows p. execute-IsWithin config.league claim rows p) entries fuel run w

-- A claim whose player someone owns, and whose drop player is on the claimant's roster, throws `already on
-- a roster`, and leaves the claimant without the player to drop: the rows that the run goes on with have
-- no owner for him. (Each player is on at most one roster, and roster ids are positive.)
pub failed_claim_drops :
    (league : League) (claim : WaiverClaim) (p owner : ℕ) (rows : List RosterPlayer)
    (found : RosterPlayer)
    → IsOneOwner rows
    → claim.drop_player_id ≡ some (suc p)
    → find_by_roster_and_player claim.roster_id (suc p) rows ≡ some found
    → suc p ≢ claim.player_id
    → find_owner claim.player_id rows ≡ some (suc owner)
    → (execute_claim league claim rows
        ≡ Outcome.failed RosterError.already_on_a_roster
            (remove_player claim.roster_id (suc p) rows))
      × (find_owner (suc p) (remove_player claim.roster_id (suc p) rows) ≡ none)
unfolding execute_claim remove_player_from_roster add_player_to_roster
failed_claim_drops league claim p owner rows found one hd hf ne ho =
    let still = owner-remove_other claim.player_id claim.roster_id (suc p) rows ne ∙ ho in
    (rw (hd, hf, still) refl, owner-remove_same claim.roster_id (suc p) found rows one.0 hf)
