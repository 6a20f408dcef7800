-- ===== src/Waivers/Ranking.antt =====
-- The order among competing claims, and the claims of a round.
use ht_mvp_backend.Prelude.{
  ℕ, ◌≤◌, ◌<◌, ◌≡◌, ◌↔◌, ◌⊎◌, inl, inr, refl, sym, ◌∙◌, true, false, Option, none, some, List, [],
  ◌∷◌, pos, leb_ℤ, ◌-ℤ◌, arith, before, IsOrder, IsSorted, HasDistinct, HasDistinct-eq, sort-perm,
  sort-IsSorted, sort-eq_of_perm, any, find, Bool-cases, Option-cases, IsSorted-first,
}
use mathlib.Core.Path.{subst}
use mathlib.Core.List.{Mem, Perm}
use mathlib.Core.List.Perm
use ht_mvp_backend.Waivers.{
  WaiverType, standard, faab, no_waivers, WaiverClaim, RosterProcessingState, compare_claims,
  priority_of, state_of, by_bid, by_priority, by_time, sort_claims_by_roster_state,
  extract_round_claims, has_unprocessed_claims, unprocessed_in, next_claim, is_unprocessed,
}

-- Earlier, then the lower claim id.
abbrev pub Earlier : WaiverClaim → WaiverClaim → Type 0
Earlier a b = (a.created_at < b.created_at) ⊎ ((a.created_at ≡ b.created_at) × (a.id ≤ b.id))

-- The lower priority number first; rosters without one come last.
abbrev pub PriorityBefore : Option ℕ → Option ℕ → Type 0 → Type 0
PriorityBefore none none tied = tied
PriorityBefore none (some q) tied = 1 ≤ 0
PriorityBefore (some p) none tied = Unit
PriorityBefore (some p) (some q) tied = (p < q) ⊎ ((p ≡ q) × tied)

-- In FAAB leagues the higher bid first.
abbrev pub BidBefore : WaiverType → WaiverClaim → WaiverClaim → Type 0 → Type 0
BidBefore faab a b tied = (b.bid_amount < a.bid_amount) ⊎ ((a.bid_amount ≡ b.bid_amount) × tied)
BidBefore standard a b tied = tied
BidBefore no_waivers a b tied = tied

abbrev pub Wins : WaiverType → List RosterProcessingState → WaiverClaim → WaiverClaim → Type 0
Wins waiver_type states a b = BidBefore waiver_type a b (
    PriorityBefore (priority_of (state_of a.roster_id states))
      (priority_of (state_of b.roster_id states)) (Earlier a b))

compared_iff :
    (t : WaiverType) (p q : Option ℕ) (a b : WaiverClaim)
    → (leb_ℤ (by_bid t a b (by_priority p q (by_time a b))) (pos 0) ≡ true)
      ↔ BidBefore t a b (PriorityBefore p q (Earlier a b))
unfolding ◌-ℤ◌
compared_iff faab (some p) (some q) a b = ground arith
compared_iff faab (some p) none a b = ground arith
compared_iff faab none (some q) a b = ground arith
compared_iff faab none none a b = ground arith
compared_iff standard p q a b = ground arith
compared_iff no_waivers p q a b = ground arith

not_compared :
    (t : WaiverType) (p q : Option ℕ) (a b : WaiverClaim)
    → leb_ℤ (by_bid t a b (by_priority p q (by_time a b))) (pos 0) ≡ false
    → BidBefore t b a (PriorityBefore q p (Earlier b a))
unfolding ◌-ℤ◌
not_compared t p q a b h = ground arith

before_trans :
    (t : WaiverType) (p q r : Option ℕ) (a b c : WaiverClaim)
    → BidBefore t a b (PriorityBefore p q (Earlier a b))
    → BidBefore t b c (PriorityBefore q r (Earlier b c))
    → BidBefore t a c (PriorityBefore p r (Earlier a c))
before_trans t p q r a b c h k = ground arith

before_both :
    (t : WaiverType) (p q : Option ℕ) (a b : WaiverClaim)
    → BidBefore t a b (PriorityBefore p q (Earlier a b))
    → BidBefore t b a (PriorityBefore q p (Earlier b a))
    → a.id ≡ b.id
before_both t p q a b h k = ground arith

claim_set : IsSet WaiverClaim
claim_set = hlevel

module _ (waiver_type : WaiverType) (states : List RosterProcessingState) where
  Wins-iff :
      (a b : WaiverClaim)
      → (before (compare_claims waiver_type states) a b ≡ true) ↔ Wins waiver_type states a b
  unfolding compare_claims
  Wins-iff a b = compared_iff waiver_type _ _ a b

  claims_order : IsOrder (compare_claims waiver_type states)
  unfolding compare_claims
  claims_order = record {
    total = λ a b h. (Wins-iff b a).1 (not_compared waiver_type _ _ a b h);
    trans = λ a b c p q.
        (Wins-iff a c).1
          (before_trans waiver_type _ _ _ a b c ((Wins-iff a b).0 p) ((Wins-iff b c).0 q));
  }

  -- The claims for a player, sorted, are the same claims, and the first of them wins against each:
  -- by bid in a FAAB league, then by priority, then by time, then by id.
  pub first_claim-Wins :
      (claims : List WaiverClaim)
      → Perm (sort_claims_by_roster_state claims waiver_type states) claims
        × ((first : WaiverClaim) (rest : List WaiverClaim)
            → sort_claims_by_roster_state claims waiver_type states ≡ first ∷ rest
            → (c : WaiverClaim) → Mem c claims
            → Wins waiver_type states first c)
  unfolding sort_claims_by_roster_state
  first_claim-Wins claims =
      let cmp = compare_claims waiver_type states in
      let perm = sort-perm cmp claims in
      (
        perm,
        λ first rest e c m. (Wins-iff first c).0 (
            IsSorted-first cmp claims_order first rest
              (subst (IsSorted cmp) e (sort-IsSorted cmp claims_order claims)) c
              (subst (Mem c) e ((Perm.mem_iff perm).1 m))),
      )

  -- The sorted claims do not depend on the order in which they came in, if their ids differ.
  pub claims_independent :
      (cs ds : List WaiverClaim)
      → HasDistinct (λ c. c.id) cs
      → Perm cs ds
      → sort_claims_by_roster_state cs waiver_type states
        ≡ sort_claims_by_roster_state ds waiver_type states
  unfolding sort_claims_by_roster_state
  claims_independent cs ds u p =
      sort-eq_of_perm (compare_claims waiver_type states) claims_order cs ds
        (λ a b ma mb h k.
          HasDistinct-eq (λ c. c.id) claim_set cs u a b ma mb
            (before_both waiver_type _ _ a b ((Wins-iff a b).0 h) ((Wins-iff b a).0 k)))
        p

any-find :
    (state : RosterProcessingState) (claims : List WaiverClaim)
    → (find (is_unprocessed state) claims ≡ none) ↔ (any (is_unprocessed state) claims ≡ false)
any-find state [] = (λ h. refl, λ h. refl)
any-find state (c ∷ cs) = ground (arith, any-find state cs)

no_claim_iff :
    (state : Option RosterProcessingState) (claims : List WaiverClaim)
    → (next_claim state claims ≡ none) ↔ (unprocessed_in state claims ≡ false)
no_claim_iff none claims = (λ h. refl, λ h. refl)
no_claim_iff (some state) claims = any-find state claims

-- A round has no claims exactly when no roster has one left: the loop's guard and the round agree.
round_is_empty_iff :
    (claims_by_roster : List (ℕ × List WaiverClaim)) (states : List RosterProcessingState)
    → (extract_round_claims claims_by_roster states ≡ [])
      ↔ (has_unprocessed_claims claims_by_roster states ≡ false)
unfolding extract_round_claims has_unprocessed_claims
round_is_empty_iff [] states = (λ h. refl, λ h. refl)
round_is_empty_iff ((roster_id, claims) ∷ rest) states =
    elim (Option-cases (next_claim (state_of roster_id states) claims)) [
      | inl e ↦
          let none_left = (no_claim_iff (state_of roster_id states) claims).0 e in
          rw (e, none_left) (round_is_empty_iff rest states)
      | inr (c, e) ↦ elim (Bool-cases (unprocessed_in (state_of roster_id states) claims)) [
        | inl u ↦ rw (e, u) (λ h. ground arith, λ h. ground arith)
        | inr u ↦
            let none_left = (no_claim_iff (state_of roster_id states) claims).1 u in
            let bad : none ≡ some c = sym none_left ∙ e in ground arith
      ]
    ]
