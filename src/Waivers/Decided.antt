-- ===== src/Waivers/Decided.antt =====
-- A claim is decided once its id is among its roster's processed ones; no step of the run undoes that.
use ht_mvp_backend.Prelude.{
  ℕ, ◌≡◌, inl, inr, Bool, true, false, Option, none, some, List, [], ◌∷◌, map, arith, Bool-cases,
  Option-cases, ◌==◌, sym, refl, ◌∙◌,
}
use ht_mvp_backend.Waivers.{
  WaiverType, WaiverClaim, RosterProcessingState, has, state_of, add, update_roster_state_after_win,
  state_after_win, winner_state, shifted_state,
}
use ht_mvp_backend.Waivers.Run.{ClaimStatus, Run, mark_state, mark}

abbrev pub decided_in : Option RosterProcessingState → WaiverClaim → Bool
decided_in none claim = true
decided_in (some state) claim = has state.processed_claim_ids claim.id

-- The roster has no state, or its state has processed the claim.
abbrev pub IsDone : List RosterProcessingState → WaiverClaim → Type 0
IsDone states claim = decided_in (state_of claim.roster_id states) claim ≡ true

abbrev pub Extends : List RosterProcessingState → List RosterProcessingState → Type 0
Extends states states' = (claim : WaiverClaim) → IsDone states claim → IsDone states' claim

state_roster :
    (r : ℕ) (states : List RosterProcessingState) (s : RosterProcessingState)
    → state_of r states ≡ some s
    → s.roster_id ≡ r
unfolding state_of
state_roster r [] s h = absurd cc
state_roster r (x ∷ xs) s h = elim (Bool-cases (x.roster_id == r)) [
  | inl e ↦
      let here : some x ≡ some s = rw e at h in let eq : x ≡ s = cc in rw (sym eq) (ground arith)
  | inr e ↦ let there : state_of r xs ≡ some s = rw e at h in state_roster r xs s there
]

abbrev map_state :
    (RosterProcessingState → RosterProcessingState)
    → Option RosterProcessingState
    → Option RosterProcessingState
map_state f none = none
map_state f (some s) = some (f s)

state_of-map :
    (f : RosterProcessingState → RosterProcessingState) (r : ℕ)
    (states : List RosterProcessingState)
    → ((s : RosterProcessingState) → (f s).roster_id ≡ s.roster_id)
    → state_of r (map f states) ≡ map_state f (state_of r states)
unfolding state_of
state_of-map f r [] k = refl
state_of-map f r (x ∷ xs) k = elim (Bool-cases (x.roster_id == r)) [
  | inl e ↦ let at_f : ((f x).roster_id == r) ≡ true = rw (k x) e in rw (at_f, e) refl
  | inr e ↦
      let at_f : ((f x).roster_id == r) ≡ false = rw (k x) e in rw (at_f, e) (state_of-map f r xs k)
]

has-add : (xs : List ℕ) (m n : ℕ) → has xs n ≡ true → has (add xs m) n ≡ true
has-add xs m n h = elim (Bool-cases (has xs m)) [
  | inl e ↦ rw e h
  | inr e ↦ elim (Bool-cases (m == n)) [ inl f ↦ rw (e, f) refl | inr f ↦ rw (e, f) h ]
]

has-add_self : (xs : List ℕ) (m : ℕ) → has (add xs m) m ≡ true
has-add_self xs m = elim (Bool-cases (has xs m)) [
  | inl e ↦ rw (e, e) refl
  | inr e ↦ let self : (m == m) ≡ true = ground arith in rw (e, self) refl
]

mark_state_roster :
    (c : WaiverClaim) (s : RosterProcessingState) → (mark_state c s).roster_id ≡ s.roster_id
mark_state_roster c s = elim (Bool-cases (s.roster_id == c.roster_id)) [
  | inl e ↦ rw e refl
  | inr e ↦ rw e refl
]

mark_state-has :
    (c d : WaiverClaim) (s : RosterProcessingState)
    → has s.processed_claim_ids d.id ≡ true
    → has (mark_state c s).processed_claim_ids d.id ≡ true
mark_state-has c d s h = elim (Bool-cases (s.roster_id == c.roster_id)) [
  | inl e ↦ rw e (has-add s.processed_claim_ids c.id d.id h)
  | inr e ↦ rw e h
]

-- a change of states that keeps the rosters and, for the state that a roster has, the processed ids
map-Extends :
    (f : RosterProcessingState → RosterProcessingState) (states : List RosterProcessingState)
    → ((s : RosterProcessingState) → (f s).roster_id ≡ s.roster_id)
    → ((d : WaiverClaim) (s : RosterProcessingState)
        → state_of d.roster_id states ≡ some s
        → has s.processed_claim_ids d.id ≡ true
        → has (f s).processed_claim_ids d.id ≡ true)
    → Extends states (map f states)
map-Extends f states k keep_ids d h = elim (Option-cases (state_of d.roster_id states)) [
  | inl e ↦ rw (state_of-map f d.roster_id states k, e) refl
  | inr s ↦
      let old : has s.0.processed_claim_ids d.id ≡ true = rw s.1 at h in
      rw (state_of-map f d.roster_id states k, s.1) (keep_ids d s.0 s.1 old)
]

pub mark-Extends :
    (c : WaiverClaim) (status : ClaimStatus) (run : Run)
    → Extends run.states (mark c status run).states
mark-Extends c status run =
    map-Extends (mark_state c) run.states (mark_state_roster c) (λ d s e h. mark_state-has c d s h)

pub mark-IsDone :
    (c : WaiverClaim) (status : ClaimStatus) (run : Run) → IsDone (mark c status run).states c
mark-IsDone c status run = elim (Option-cases (state_of c.roster_id run.states)) [
  | inl e ↦ rw (state_of-map (mark_state c) c.roster_id run.states (mark_state_roster c), e) refl
  | inr s ↦
      let at_c = state_roster c.roster_id run.states s.0 s.1 in
      let here : (s.0.roster_id == c.roster_id) ≡ true = ground arith in
      rw (state_of-map (mark_state c) c.roster_id run.states (mark_state_roster c), s.1, here)
        (has-add_self s.0.processed_claim_ids c.id)
]

won_roster :
    (state : RosterProcessingState) (c : WaiverClaim) (t : WaiverType) (m : ℕ)
    (s : RosterProcessingState)
    → (state_after_win state c t m s).roster_id ≡ s.roster_id
unfolding state_after_win winner_state shifted_state
won_roster state c t m s = elim (Bool-cases (s.roster_id == state.roster_id)) [
  | inl e ↦ rw e (ground arith)
  | inr e ↦ rw e refl
]

won_ids :
    (state : RosterProcessingState) (c : WaiverClaim) (t : WaiverType) (m : ℕ)
    (s : RosterProcessingState)
    → ((s.roster_id == state.roster_id) ≡ true → s ≡ state)
    → (state_after_win state c t m s).processed_claim_ids ≡ s.processed_claim_ids
unfolding state_after_win winner_state shifted_state
won_ids state c t m s h = elim (Bool-cases (s.roster_id == state.roster_id)) [
  | inl e ↦ rw (e, sym (h e)) refl
  | inr e ↦ rw e refl
]

pub win-Extends :
    (state : RosterProcessingState) (c : WaiverClaim) (t : WaiverType) (m r : ℕ)
    (states : List RosterProcessingState)
    → state_of r states ≡ some state
    → Extends states (update_roster_state_after_win state c t states m)
unfolding update_roster_state_after_win
win-Extends state c t m r states found =
    map-Extends (state_after_win state c t m) states (won_roster state c t m)
      (λ d s e h. rw (won_ids state c t m s (same_state d s e)) h)
  where
    same_state :
        (d : WaiverClaim) (s : RosterProcessingState)
        → state_of d.roster_id states ≡ some s
        → (s.roster_id == state.roster_id) ≡ true
        → s ≡ state
    same_state d s e same_id =
        let at_d = state_roster d.roster_id states s e in
        let at_r = state_roster r states state found in
        let ids : d.roster_id ≡ r = ground arith in
        let both : some s ≡ some state = sym (rw ids at e) ∙ found in cc

pub Extends-trans :
    (xs ys zs : List RosterProcessingState) → Extends xs ys → Extends ys zs → Extends xs zs
Extends-trans xs ys zs f g d h = g d (f d h)
