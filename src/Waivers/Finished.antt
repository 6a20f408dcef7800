-- ===== src/Waivers/Finished.antt =====
-- The waiver run's loop ends with every claim decided.
use ht_mvp_backend.Prelude.{
  ℕ, zero, suc, ◌+◌, ◌≤◌, ◌<◌, ◌≡◌, inl, inr, true, false, Option, none, some, List, [], ◌∷◌, find,
  any, length, All, arith, Bool-cases, if◌then◌else◌, sym, refl,
}
use ht_mvp_backend.Waivers.{
  WaiverClaim, RosterProcessingState, has, state_of, is_unprocessed, unprocessed_in,
  has_unprocessed_claims, next_claim, push_some, extract_round_claims,
}
use ht_mvp_backend.Waivers.Run.{
  Run, RunConfig, process_rounds, next_round, process_groups, group_claims,
}
use ht_mvp_backend.Waivers.Decided.{decided_in, IsDone, Extends}
use ht_mvp_backend.Waivers.Rounds.{round_lem}

abbrev pub Entry : Type 0
Entry = ℕ × List WaiverClaim

-- claimsByRoster holds each claim under its roster.
abbrev pub IsGrouped : List Entry → Type 0
IsGrouped entries = All (λ e. All (λ c. c.roster_id ≡ e.0) e.1) entries

abbrev pub claim_count : List Entry → ℕ
claim_count [] = 0
claim_count (e ∷ entries) = length e.1 + claim_count entries

-- the claims that are not done
abbrev open_claims : List RosterProcessingState → List WaiverClaim → ℕ
open_claims states [] = 0
open_claims states (c ∷ cs) =
    (if decided_in (state_of c.roster_id states) c then 0 else 1) + open_claims states cs

abbrev pending_claims : List RosterProcessingState → List Entry → ℕ
pending_claims states [] = 0
pending_claims states (e ∷ entries) = open_claims states e.1 + pending_claims states entries

open_bound :
    (states : List RosterProcessingState) (cs : List WaiverClaim)
    → open_claims states cs ≤ length cs
open_bound states [] = omega arith
open_bound states (c ∷ cs) =
    let rest = open_bound states cs in
    elim (Bool-cases (decided_in (state_of c.roster_id states) c)) [
      | inl e ↦ rw e (omega (arith, rest))
      | inr e ↦ rw e (omega (arith, rest))
    ]

pending_bound :
    (states : List RosterProcessingState) (entries : List Entry)
    → pending_claims states entries ≤ claim_count entries
pending_bound states [] = omega arith
pending_bound states (e ∷ entries) =
    omega (arith, open_bound states e.1, pending_bound states entries)

open_le :
    (xs ys : List RosterProcessingState) (cs : List WaiverClaim)
    → Extends xs ys
    → open_claims ys cs ≤ open_claims xs cs
open_le xs ys [] f = omega arith
open_le xs ys (c ∷ cs) f =
    let rest = open_le xs ys cs f in
    elim (Bool-cases (decided_in (state_of c.roster_id xs) c)) [
      | inl e ↦ rw (e, f c e) (omega (arith, rest))
      | inr e ↦ elim (Bool-cases (decided_in (state_of c.roster_id ys) c)) [
        | inl g ↦ rw (e, g) (omega (arith, rest))
        | inr g ↦ rw (e, g) (omega (arith, rest))
      ]
    ]

pending_le :
    (xs ys : List RosterProcessingState) (entries : List Entry)
    → Extends xs ys
    → pending_claims ys entries ≤ pending_claims xs entries
pending_le xs ys [] f = omega arith
pending_le xs ys (e ∷ entries) f = omega (arith, open_le xs ys e.1 f, pending_le xs ys entries f)

-- a roster's next claim, once decided, is one claim less
open_lt :
    (xs ys : List RosterProcessingState) (r : ℕ) (s : RosterProcessingState) (cs : List WaiverClaim)
    → state_of r xs ≡ some s
    → All (λ c. c.roster_id ≡ r) cs
    → any (is_unprocessed s) cs ≡ true
    → Extends xs ys
    → ((c : WaiverClaim) → find (is_unprocessed s) cs ≡ some c → IsDone ys c)
    → open_claims ys cs < open_claims xs cs
open_lt xs ys r s [] hs g u f d = absurd cc
open_lt xs ys r s (c ∷ cs) hs g u f d = elim (Bool-cases (has s.processed_claim_ids c.id)) [
  | inl e ↦
      let unprocessed : is_unprocessed s c ≡ false = rw e refl in
      let u' : any (is_unprocessed s) cs ≡ true = rw e at u in
      let ih = open_lt xs ys r s cs hs g.1 u' f (λ x h. d x (rw e h)) in
      let done_x : decided_in (state_of c.roster_id xs) c ≡ true = rw (g.0, hs) e in
      rw (done_x, f c done_x) (omega (arith, ih))
  | inr e ↦
      let rest = open_le xs ys cs f in
      let open_x : decided_in (state_of c.roster_id xs) c ≡ false = rw (g.0, hs) e in
      let done_y : decided_in (state_of c.roster_id ys) c ≡ true = d c (rw e refl) in
      rw (open_x, done_y) (omega (arith, rest))
]

entry_lt :
    (xs ys : List RosterProcessingState) (r : ℕ) (o : Option RosterProcessingState)
    (cs : List WaiverClaim)
    → state_of r xs ≡ o
    → All (λ c. c.roster_id ≡ r) cs
    → unprocessed_in o cs ≡ true
    → Extends xs ys
    → ((c : WaiverClaim) → next_claim o cs ≡ some c → IsDone ys c)
    → open_claims ys cs < open_claims xs cs
entry_lt xs ys r none cs hs g u f d = absurd cc
entry_lt xs ys r (some s) cs hs g u f d = open_lt xs ys r s cs hs g u f d

module _ (P : WaiverClaim → Type 0) where
  All-pushed : (o : Option WaiverClaim) (cs : List WaiverClaim) → All P (push_some o cs) → All P cs
  All-pushed none cs h = h
  All-pushed (some c) cs h = h.1

  pushed_first :
      (o : Option WaiverClaim) (cs : List WaiverClaim)
      → All P (push_some o cs)
      → (c : WaiverClaim) → o ≡ some c
      → P c
  pushed_first none cs h c e = absurd cc
  pushed_first (some x) cs h c e = let eq : x ≡ c = cc in rw (sym eq) h.0

-- A round that finds something to do leaves fewer claims open.
round_lt :
    (xs ys : List RosterProcessingState) (entries : List Entry)
    → IsGrouped entries
    → has_unprocessed_claims entries xs ≡ true
    → Extends xs ys
    → All (IsDone ys) (extract_round_claims entries xs)
    → pending_claims ys entries < pending_claims xs entries
unfolding has_unprocessed_claims extract_round_claims
round_lt xs ys [] g u f d = absurd cc
round_lt xs ys ((r, cs) ∷ entries) g u f d =
    let o = state_of r xs in
    let picked = next_claim o cs in
    let rest = extract_round_claims entries xs in
    elim (Bool-cases (unprocessed_in (state_of r xs) cs)) [
      | inl e ↦ omega (
        arith,
        entry_lt xs ys r o cs refl g.0 e f (pushed_first (IsDone ys) picked rest d),
        pending_le xs ys entries f,
      )
      | inr e ↦
          let u' : has_unprocessed_claims entries xs ≡ true = rw e at u in
          omega (
            arith,
            open_le xs ys cs f,
            round_lt xs ys entries g.1 u' f (All-pushed (IsDone ys) picked rest d),
          )
    ]

next_lem :
    (config : RunConfig) (entries : List Entry) (run : Run) (rest : Run → Run)
    (rc : List WaiverClaim)
    → extract_round_claims entries run.states ≡ rc
    → IsGrouped entries
    → has_unprocessed_claims entries run.states ≡ true
    → ((run' : Run)
        → pending_claims run'.states entries < pending_claims run.states entries
        → has_unprocessed_claims entries (rest run').states ≡ false)
    → has_unprocessed_claims entries (next_round config rc run rest).states ≡ false
next_lem config entries run rest [] picked g u k =
    let lt : pending_claims run.states entries < pending_claims run.states entries =
      round_lt run.states run.states entries g u (λ c h. h) (rw picked tt) in
    absurd (omega (arith, lt))
next_lem config entries run rest (c ∷ cs) picked g u k =
    let run' = process_groups config (group_claims (c ∷ cs) []) run in
    let round = round_lem config (c ∷ cs) run in
    k run' (round_lt run.states run'.states entries g u round.0 (rw picked round.1))

rounds_end :
    (config : RunConfig) (entries : List Entry) (fuel : ℕ) (run : Run)
    → IsGrouped entries
    → pending_claims run.states entries < fuel
    → has_unprocessed_claims entries (process_rounds config entries fuel run).states ≡ false
rounds_end config entries zero run g h = absurd (omega (arith, h))
rounds_end config entries (suc fuel) run g h =
    elim (Bool-cases (has_unprocessed_claims entries run.states)) [
      | inl e ↦ rw e (
          next_lem config entries run (process_rounds config entries fuel)
            (extract_round_claims entries run.states) refl g e
            (λ run' lt. rounds_end config entries fuel run' g (omega (arith, lt, h))))
      | inr e ↦ rw (e, e) refl
    ]

-- The loop over rounds ends: with more rounds than there are claims, it stops because no claim is left
-- unprocessed, whatever the claims, the rosters and the outcomes of the executions. (Each claim is listed
-- under its own roster.)
pub waiver_run_ends :
    (config : RunConfig) (entries : List Entry) (fuel : ℕ) (run : Run)
    → IsGrouped entries
    → claim_count entries < fuel
    → has_unprocessed_claims entries (process_rounds config entries fuel run).states ≡ false
waiver_run_ends config entries fuel run g h =
    rounds_end config entries fuel run g (omega (arith, pending_bound run.states entries, h))
