-- ===== src/Waivers/Winning.antt =====
-- What a claim needs, and what a won claim does to its roster and to the priorities.
use ht_mvp_backend.Prelude.{
  ℕ, suc, zero, ◌≤◌, ◌<◌, ◌≡◌, ◌≢◌, ◌↔◌, ◌⊎◌, inl, inr, refl, sym, ap, ◌∙◌, Bool, true, false,
  Option, none, some, List, [], ◌∷◌, map, pos, ◌≤ℤ◌, ◌-ℤ◌, truthy, arith, All, ◌==◌, find,
  Bool-cases, if◌then◌else◌,
}
use mathlib.Core.Path.{subst}
use ht_mvp_backend.Waivers.{
  WaiverType, standard, is_faab, WaiverClaim, RosterProcessingState, has, is_gone,
  validate_claim_with_state, winner_state, shifted_state, state_after_win,
  update_roster_state_after_win, state_of, delete, add, without,
}

-- A claim is eligible exactly when its player is not on the roster, the player to drop is, there is
-- room or a player to drop, and a FAAB bid above zero is within the budget.
pub eligible_claim_iff :
    (claim : WaiverClaim) (state : RosterProcessingState) (waiver_type : WaiverType) (max_size : ℕ)
    → (validate_claim_with_state claim state waiver_type max_size ≡ none) ↔ (
        (has state.owned_player_ids claim.player_id ≡ false)
        × (is_gone state.owned_player_ids claim.drop_player_id ≡ false)
        × ((truthy claim.drop_player_id ≡ true) ⊎ (state.current_roster_size < max_size))
        × (is_faab waiver_type ≡ true
            → 0 < claim.bid_amount
            → pos claim.bid_amount ≤ℤ state.remaining_budget))
unfolding validate_claim_with_state
eligible_claim_iff claim state waiver_type max_size = ground arith

has-delete : (xs : List ℕ) (n m : ℕ) → n ≢ m → has (delete xs n) m ≡ has xs m
has-delete [] n m h = refl
has-delete (x ∷ xs) n m h = ground (arith, has-delete xs n m h)

has-add : (xs : List ℕ) (n : ℕ) → has (add xs n) n ≡ true
has-add xs n = ground arith

player_kept :
    (owned : List ℕ) (p : ℕ) (drop : Option ℕ)
    → has owned p ≡ false
    → is_gone owned drop ≡ false
    → has (without drop (add owned p)) p ≡ true
player_kept owned p none h k = has-add owned p
player_kept owned p (some zero) h k = has-add owned p
player_kept owned p (some (suc d)) h k =
    let other : suc d ≢ p =
      λ e. let same : has owned (suc d) ≡ has owned p = ap (has owned) e in ground arith in
    has-delete (add owned p) (suc d) p other ∙ has-add owned p

-- An eligible claim that is won keeps a budget of at least zero at least zero and a roster of at
-- most the allowed size within it, and puts the player on the roster.
pub win_keeps_bounds :
    (claim : WaiverClaim) (state : RosterProcessingState) (waiver_type : WaiverType)
    (max_size max_priority : ℕ)
    → validate_claim_with_state claim state waiver_type max_size ≡ none
    → pos 0 ≤ℤ state.remaining_budget
    → state.current_roster_size ≤ max_size
    → let after = winner_state claim waiver_type max_priority state in
      (pos 0 ≤ℤ after.remaining_budget)
      × (after.current_roster_size ≤ max_size)
      × (has after.owned_player_ids claim.player_id ≡ true)
unfolding winner_state ◌-ℤ◌
win_keeps_bounds claim state waiver_type max_size max_priority valid solvent fits =
    let v = (eligible_claim_iff claim state waiver_type max_size).0 valid in
    let v0 = v.0 in
    let v1 = v.1 in
    let v2 = v.2 in
    let v3 = v.3 in
    (
      ground arith,
      ground arith,
      player_kept state.owned_player_ids claim.player_id claim.drop_player_id v.0 v.1,
    )

-- Different rosters have different priorities, from 1 to the largest.
abbrev pub IsDistinctFrom : RosterProcessingState → RosterProcessingState → Type 0
IsDistinctFrom s t = (s.roster_id ≢ t.roster_id) × (s.current_priority ≢ t.current_priority)

abbrev pub IsRanking : ℕ → List RosterProcessingState → Type 0
IsRanking max_priority [] = Unit
IsRanking max_priority (s ∷ ss) =
    ((1 ≤ s.current_priority) × (s.current_priority ≤ max_priority))
    × (All (IsDistinctFrom s) ss × IsRanking max_priority ss)

-- `s` is the winner or stands apart from it.
abbrev pub IsBesides : RosterProcessingState → RosterProcessingState → Type 0
IsBesides state s = (s ≡ state) ⊎ IsDistinctFrom s state

module _ (state : RosterProcessingState) (claim : WaiverClaim) (max_priority : ℕ) where
  abbrev after : RosterProcessingState → RosterProcessingState
  after = state_after_win state claim standard max_priority

  after-in_range :
      (s : RosterProcessingState)
      → IsBesides state s
      → (1 ≤ state.current_priority) × (state.current_priority ≤ max_priority)
      → (1 ≤ s.current_priority) × (s.current_priority ≤ max_priority)
      → (1 ≤ (after s).current_priority) × ((after s).current_priority ≤ max_priority)
  unfolding state_after_win winner_state shifted_state
  after-in_range s (inl e) w h = rw e (ground arith)
  after-in_range s (inr d) w h = ground arith

  after-apart :
      (s t : RosterProcessingState)
      → IsBesides state s
      → IsBesides state t
      → (1 ≤ state.current_priority) × (state.current_priority ≤ max_priority)
      → s.current_priority ≤ max_priority
      → t.current_priority ≤ max_priority
      → IsDistinctFrom s t
      → IsDistinctFrom (after s) (after t)
  unfolding state_after_win winner_state shifted_state
  after-apart s t (inl e) (inl f) w h k d =
      let g = d.0 (ap (λ x. x.roster_id) (e ∙ sym f)) in ground arith
  after-apart s t (inl e) (inr f) w h k d = rw e (ground arith)
  after-apart s t (inr e) (inl f) w h k d = rw f (ground arith)
  after-apart s t (inr e) (inr f) w h k d = ground arith

  apart_from_All :
      (s : RosterProcessingState) (ss : List RosterProcessingState)
      → IsBesides state s
      → All (IsBesides state) ss
      → (1 ≤ state.current_priority) × (state.current_priority ≤ max_priority)
      → s.current_priority ≤ max_priority
      → IsRanking max_priority ss
      → All (IsDistinctFrom s) ss
      → All (IsDistinctFrom (after s)) (map after ss)
  apart_from_All s [] b bs w h r d = tt
  apart_from_All s (t ∷ ts) b bs w h r d =
      (after-apart s t b bs.0 w h r.0.1 d.0, apart_from_All s ts b bs.1 w h r.1.1 d.1)

  IsRanking-kept :
      (ss : List RosterProcessingState)
      → All (IsBesides state) ss
      → (1 ≤ state.current_priority) × (state.current_priority ≤ max_priority)
      → IsRanking max_priority ss
      → IsRanking max_priority (map after ss)
  IsRanking-kept [] bs w r = tt
  IsRanking-kept (s ∷ ss) bs w r = (
    after-in_range s bs.0 w r.0,
    (apart_from_All s ss bs.0 bs.1 w r.0.1 r.1.1 r.1.0, IsRanking-kept ss bs.1 w r.1.1),
  )

found_here_or_later :
    (t state : RosterProcessingState) (roster_id : ℕ) (ts : List RosterProcessingState)
    → state_of roster_id (t ∷ ts) ≡ some state
    → (t ≡ state) ⊎ (state_of roster_id ts ≡ some state)
unfolding state_of
found_here_or_later t state roster_id ts e =
    let found = λ (b : Bool). if b then some t else find (λ s. s.roster_id == roster_id) ts in
    elim (Bool-cases (t.roster_id == roster_id)) [
      | inl h ↦ let here : some t ≡ some state = ap found (sym h) ∙ e in inl cc
      | inr h ↦ inr (ap found (sym h) ∙ e)
    ]

find_apart :
    (s state : RosterProcessingState) (roster_id : ℕ) (ss : List RosterProcessingState)
    → All (IsDistinctFrom s) ss
    → state_of roster_id ss ≡ some state
    → IsDistinctFrom s state
unfolding state_of
find_apart s state roster_id [] d e = ground arith
find_apart s state roster_id (t ∷ ts) d e = elim (found_here_or_later t state roster_id ts e) [
  | inl same ↦ subst (IsDistinctFrom s) same d.0
  | inr later ↦ find_apart s state roster_id ts d.1 later
]

others-IsBesides :
    (state : RosterProcessingState) (ss : List RosterProcessingState)
    → All (IsDistinctFrom state) ss
    → All (IsBesides state) ss
others-IsBesides state [] d = tt
others-IsBesides state (t ∷ ts) d =
    (inr (λ e. d.0.0 (sym e), λ e. d.0.1 (sym e)), others-IsBesides state ts d.1)

besides :
    (state : RosterProcessingState) (roster_id max_priority : ℕ) (ss : List RosterProcessingState)
    → state_of roster_id ss ≡ some state
    → IsRanking max_priority ss
    → All (IsBesides state) ss
      × ((1 ≤ state.current_priority) × (state.current_priority ≤ max_priority))
unfolding state_of
besides state roster_id max_priority [] e r = ground arith
besides state roster_id max_priority (s ∷ ss) e r =
    elim (found_here_or_later s state roster_id ss e) [
      | inl same ↦ (
        (inl same, others-IsBesides state ss (subst (λ x. All (IsDistinctFrom x) ss) same r.1.0)),
        subst (λ x. (1 ≤ x.current_priority) × (x.current_priority ≤ max_priority)) same r.0,
      )
      | inr later ↦
          let rest = besides state roster_id max_priority ss later r.1.1 in
          ((inr (find_apart s state roster_id ss r.1.0 later), rest.0), rest.1)
    ]

-- In a league with standard waivers where different rosters have different priorities from 1 to the
-- largest, they still have after a win.
pub rotation_keeps_IsRanking :
    (state : RosterProcessingState) (claim : WaiverClaim) (states : List RosterProcessingState)
    (max_priority : ℕ)
    → state_of claim.roster_id states ≡ some state
    → IsRanking max_priority states
    → IsRanking max_priority
        (update_roster_state_after_win state claim standard states max_priority)
unfolding update_roster_state_after_win
rotation_keeps_IsRanking state claim states max_priority e r =
    let b = besides state claim.roster_id max_priority states e r in
    IsRanking-kept state claim max_priority states b.0 b.1 r

-- With a winner and two other rosters of other priorities, those of the winner and of the first
-- within 1 and the largest: after a standard waiver the first stands before the winner, and the
-- two others keep their order.
pub winner_goes_last :
    (state s t : RosterProcessingState) (claim : WaiverClaim) (max_priority : ℕ)
    → IsDistinctFrom s state
    → IsDistinctFrom t state
    → (1 ≤ state.current_priority) × (state.current_priority ≤ max_priority)
    → (1 ≤ s.current_priority) × (s.current_priority ≤ max_priority)
    → let after = state_after_win state claim standard max_priority in
      ((after s).current_priority < (after state).current_priority)
      × (((after s).current_priority < (after t).current_priority)
          ↔ (s.current_priority < t.current_priority))
unfolding state_after_win winner_state shifted_state
winner_goes_last state s t claim max_priority ds dt w h = ground arith
