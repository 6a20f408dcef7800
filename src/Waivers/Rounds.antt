-- ===== src/Waivers/Rounds.antt =====
-- Rounds and groups of a waiver run: a round decides every claim that it takes.
use ht_mvp_backend.Prelude.{
  suc, ◌≡◌, inl, inr, Option, none, some, List, [], ◌∷◌, ◌++◌, All, All-split, Bool-cases, ◌==◌,
  refl,
}
use ht_mvp_backend.Prelude.{insert_by, sort, before, ℤ}
use ht_mvp_backend.Rosters.{Outcome, done}
use ht_mvp_backend.Waivers.{
  WaiverClaim, RosterProcessingState, IneligibleReason, has, state_of, is_unprocessed,
  sort_claims_by_roster_state, compare_claims, validate_claim_with_state, add, without,
  update_roster_state_after_win,
}
use ht_mvp_backend.Waivers.Run.{
  ClaimStatus, successful, invalid, Run, RunConfig, execute_claim, mark, status_of_error,
  after_execute, try_valid, try_one, try_all, lose, mark_losers, process_group, ConflictGroup,
  add_to_group, group_claims, process_groups,
}
use ht_mvp_backend.Waivers.Decided.{
  IsDone, Extends, Extends-trans, mark-Extends, mark-IsDone, win-Extends,
}

-- what is left of a group's candidates after one of them
abbrev Carries : (Run → Run) → Type 0
Carries rest = (run : Run) → Extends run.states (rest run).states

marked_then :
    (c : WaiverClaim) (status : ClaimStatus) (run : Run) (rest : Run → Run)
    → Carries rest
    → Extends run.states (rest (mark c status run)).states
marked_then c status run rest k =
    Extends-trans run.states (mark c status run).states _ (mark-Extends c status run)
      (k (mark c status run))

execute-Extends :
    (config : RunConfig) (state : RosterProcessingState) (c : WaiverClaim) (o : Outcome) (run : Run)
    (rest : Run → Run)
    → state_of c.roster_id run.states ≡ some state
    → Carries rest
    → Extends run.states (after_execute config state c o run rest).states
execute-Extends config state c (done rows) run rest found k =
    let won =
      update_roster_state_after_win state c config.waiver_type run.states config.max_priority in
    Extends-trans run.states won _
      (win-Extends state c config.waiver_type config.max_priority c.roster_id run.states found)
      (mark-Extends c successful (record {
        states = won;
        owned_player_ids = without c.drop_player_id (add run.owned_player_ids c.player_id);
        rows = rows;
        decisions = run.decisions;
        successes = suc run.successes;
      }))
execute-Extends config state c (Outcome.failed e rows) run rest found k =
    marked_then c (status_of_error e) (record run { rows = rows }) rest k

valid-Extends :
    (config : RunConfig) (state : RosterProcessingState) (c : WaiverClaim)
    (o : Option IneligibleReason) (run : Run) (rest : Run → Run)
    → state_of c.roster_id run.states ≡ some state
    → Carries rest
    → Extends run.states (try_valid config state c o run rest).states
valid-Extends config state c (some reason) run rest found k = marked_then c invalid run rest k
valid-Extends config state c none run rest found k =
    execute-Extends config state c (execute_claim config.league c run.rows) run rest found k

one-Extends :
    (config : RunConfig) (c : WaiverClaim) (o : Option RosterProcessingState) (run : Run)
    (rest : Run → Run)
    → state_of c.roster_id run.states ≡ o
    → Carries rest
    → Extends run.states (try_one config c o run rest).states
one-Extends config c none run rest found k = k run
one-Extends config c (some state) run rest found k = elim (Bool-cases (is_unprocessed state c)) [
  | inl e ↦ elim (Bool-cases (has run.owned_player_ids c.player_id)) [
    | inl f ↦ rw (e, f) (marked_then c invalid run rest k)
    | inr f ↦
        rw (e, f)
          (valid-Extends config state c
            (validate_claim_with_state c state config.waiver_type config.max_roster_size) run rest
            found k)
  ]
  | inr e ↦ rw e (k run)
]

all-Extends :
    (config : RunConfig) (cs : List WaiverClaim) (run : Run)
    → Extends run.states (try_all config cs run).states
all-Extends config [] run = λ d h. h
all-Extends config (c ∷ cs) run =
    one-Extends config c (state_of c.roster_id run.states) run (try_all config cs) refl
      (all-Extends config cs)

lose_lem :
    (c : WaiverClaim) (o : Option RosterProcessingState) (run : Run)
    → state_of c.roster_id run.states ≡ o
    → Extends run.states (lose c o run).states × IsDone (lose c o run).states c
lose_lem c none run found = (λ d h. h, rw found refl)
lose_lem c (some state) run found = elim (Bool-cases (has state.processed_claim_ids c.id)) [
  | inl e ↦ rw e (λ d h. h, rw found e)
  | inr e ↦ rw e (mark-Extends c ClaimStatus.failed run, mark-IsDone c ClaimStatus.failed run)
]

losers_lem :
    (cs : List WaiverClaim) (run : Run)
    → Extends run.states (mark_losers cs run).states × All (IsDone (mark_losers cs run).states) cs
losers_lem [] run = (λ d h. h, tt)
losers_lem (c ∷ cs) run =
    let o = state_of c.roster_id run.states in
    let first = lose_lem c o run refl in
    let later = losers_lem cs (lose c o run) in
    (Extends-trans run.states (lose c o run).states _ first.0 later.0, (later.0 c first.1, later.1))

module _ (P : WaiverClaim → Type 0) (cmp : WaiverClaim → WaiverClaim → ℤ) where
  All-uninsert :
      (c : WaiverClaim) (cs : List WaiverClaim) → All P (insert_by cmp c cs) → P c × All P cs
  unfolding insert_by
  All-uninsert c [] h = (h.0, tt)
  All-uninsert c (d ∷ cs) h = elim (Bool-cases (before cmp c d)) [
    | inl e ↦ let here : All P (c ∷ d ∷ cs) = rw e at h in (here.0, here.1)
    | inr e ↦
        let here : All P (d ∷ insert_by cmp c cs) = rw e at h in
        let rest = All-uninsert c cs here.1 in (rest.0, (here.0, rest.1))
  ]

  All-unsort : (cs : List WaiverClaim) → All P (sort cmp cs) → All P cs
  unfolding sort
  All-unsort [] h = tt
  All-unsort (c ∷ cs) h =
      let parts = All-uninsert c (sort cmp cs) h in (parts.0, All-unsort cs parts.1)

group_lem :
    (config : RunConfig) (cs : List WaiverClaim) (run : Run)
    → Extends run.states (process_group config cs run).states
      × All (IsDone (process_group config cs run).states) cs
unfolding process_group sort_claims_by_roster_state
group_lem config cs run =
    let cmp = compare_claims config.waiver_type run.states in
    let sorted = sort cmp cs in
    let losers = losers_lem sorted (try_all config sorted run) in
    (
      Extends-trans run.states (try_all config sorted run).states _ (all-Extends config sorted run)
          losers.0,
      All-unsort (IsDone (process_group config cs run).states) cmp cs losers.1,
    )

All-Extends :
    (xs ys : List RosterProcessingState) (cs : List WaiverClaim)
    → Extends xs ys
    → All (IsDone xs) cs
    → All (IsDone ys) cs
All-Extends xs ys [] f h = tt
All-Extends xs ys (c ∷ cs) f h = (f c h.0, All-Extends xs ys cs f h.1)

groups_lem :
    (config : RunConfig) (gs : List ConflictGroup) (run : Run)
    → Extends run.states (process_groups config gs run).states
      × All (λ g. All (IsDone (process_groups config gs run).states) g.claims) gs
groups_lem config [] run = (λ d h. h, tt)
groups_lem config (g ∷ gs) run =
    let run' = process_group config g.claims run in
    let first = group_lem config g.claims run in
    let later = groups_lem config gs run' in
    (
      Extends-trans run.states run'.states _ first.0 later.0,
      (All-Extends run'.states _ g.claims later.0 first.1, later.1),
    )

module _ (P : WaiverClaim → Type 0) where
  in_group :
      (c : WaiverClaim) (gs : List ConflictGroup)
      → All (λ g. All P g.claims) (add_to_group c gs)
      → P c × All (λ g. All P g.claims) gs
  in_group c [] h = (h.0.0, tt)
  in_group c (g ∷ gs) h = elim (Bool-cases (g.player_id == c.player_id)) [
    | inl e ↦
        let here : All (λ x. All P x.claims) (record g { claims = g.claims ++ c ∷ [] } ∷ gs) =
          rw e at h in
        let parts = All-split P g.claims (c ∷ []) here.0 in (parts.1.0, (parts.0, here.1))
    | inr e ↦
        let here : All (λ x. All P x.claims) (g ∷ add_to_group c gs) = rw e at h in
        let rest = in_group c gs here.1 in (rest.0, (here.0, rest.1))
  ]

  in_groups :
      (cs : List WaiverClaim) (gs : List ConflictGroup)
      → All (λ g. All P g.claims) (group_claims cs gs)
      → All P cs × All (λ g. All P g.claims) gs
  in_groups [] gs h = (tt, h)
  in_groups (c ∷ cs) gs h =
      let later = in_groups cs (add_to_group c gs) h in
      let first = in_group c gs later.1 in ((first.0, later.0), first.1)

-- A round decides every claim that it takes, and undoes nothing.
pub round_lem :
    (config : RunConfig) (cs : List WaiverClaim) (run : Run)
    → Extends run.states (process_groups config (group_claims cs []) run).states
      × All (IsDone (process_groups config (group_claims cs []) run).states) cs
round_lem config cs run =
    let result = groups_lem config (group_claims cs []) run in
    (
      result.0,
      (in_groups (IsDone (process_groups config (group_claims cs []) run).states) cs [] result.1).0,
    )
