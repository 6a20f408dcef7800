-- ===== src/Draft/NextPick/Progress.antt =====
-- A draft goes through its picks one by one and ends after the last.
use ht_mvp_backend.Prelude.{
  ℕ, zero, suc, ◌+◌, ◌*◌, ◌≤◌, ◌<◌, ◌≡◌, ◌↔◌, inl, inr, refl, false, Option, none, some, List,
  length, get_elem?, ltb, arith, Bool-cases, ℤ, leb,
}
use native.Mathlib.Nat.{mul-le-mul_right}
use ht_mvp_backend.Draft.Order.{
  ActualPickerInfo, DraftEngine, DraftOrderEntry, DraftPickAsset, owner_of, find_asset,
}
use ht_mvp_backend.Draft.Order.Rounds.{
  IsNumbered, pick_of, turn, owner_of_pick, picker_of_turn, round_of,
}
use ht_mvp_backend.Draft.NextPick.{
  Draft, NextPickState, compute_next_pick_state, completed_state, is_draft_complete,
  calculate_pick_deadline, picking_state, in_progress,
}

complete_lem :
    (draft : Draft) (n : ℕ)
    → draft.total_teams ≡ some n
    → 0 < n
    → is_draft_complete draft draft.current_pick ≡ leb (n * draft.rounds) draft.current_pick
unfolding is_draft_complete
complete_lem draft zero teams h = ground arith
complete_lem draft (suc n) teams h = rw teams refl

before_end :
    (n q i rounds pick : ℕ) → i < n → q < rounds → suc pick ≡ pick_of n q i → pick < n * rounds
before_end n q i rounds pick hi hq e = omega (arith, mul-le-mul_right n hq)

picking_status :
    (pick round deadline : ℕ) (actual : Option (Option ActualPickerInfo))
    (original : Option (Option DraftOrderEntry)) (state : NextPickState)
    → picking_state pick round deadline actual original ≡ some state
    → state.status ≡ in_progress
unfolding picking_state
picking_status pick round deadline none original state h = ground arith
picking_status pick round deadline (some actual) none state h = ground arith
picking_status pick round deadline (some actual) (some original) state h = cc

module _ (now : ℕ) (draft : Draft) (order : List DraftOrderEntry) (engine : DraftEngine)
    (assets : List DraftPickAsset) (clock : Option ℤ) where
  -- In a draft with as many teams as its order, numbered from 1 and not empty, has entries: the
  -- next state is the completed one exactly when as many picks are made as there are entries times
  -- rounds.
  completed_iff :
      draft.total_teams ≡ some (length order)
      → 0 < length order
      → IsNumbered 1 order
      → (compute_next_pick_state now draft order engine assets clock ≡ some (completed_state now))
        ↔ (length order * draft.rounds ≤ draft.current_pick)
  unfolding compute_next_pick_state
  completed_iff teams some_team numbered =
      elim (Bool-cases (leb (length order * draft.rounds) draft.current_pick)) [
        | inl e ↦
            rw (complete_lem draft (length order) teams some_team, e) (λ h. ground arith, λ h. refl)
        | inr e ↦
            let more : ltb (length order * draft.rounds) (suc draft.current_pick) ≡ false =
              ground arith in
            rw (complete_lem draft (length order) teams some_team, e, more)
              (
                λ h. let s = picking_status _ _ _ _ _ (completed_state now) h in ground (arith, s),
                λ h. ground arith,
              )
      ]

  -- In a draft with as many teams as its order, numbered from 1, has entries: when the next pick
  -- is pick i of a round q + 1 of the draft, the next state has that pick and that round; its
  -- roster is the owner of that round's pick of the entry whose turn it is, as the assets have it;
  -- the clock starts now.
  pub next_pick_of-turn :
      (q i : ℕ) (entry : DraftOrderEntry)
      → draft.total_teams ≡ some (length order)
      → IsNumbered 1 order
      → i < length order
      → q < draft.rounds
      → suc draft.current_pick ≡ pick_of (length order) q i
      → get_elem? order (turn engine (length order) q i) ≡ some entry
      → let owner = owner_of entry (find_asset (q + 1) entry.roster_id assets) in
        compute_next_pick_state now draft order engine assets clock
        ≡ some record {
          current_pick = some (pick_of (length order) q i);
          current_round = some (q + 1);
          current_roster_id = some owner.roster_id;
          original_roster_id = some owner.original_roster_id;
          is_traded = owner.is_traded;
          pick_deadline = some (calculate_pick_deadline now draft clock);
          status = in_progress;
          completed_at = none;
        }
  unfolding compute_next_pick_state picking_state
  next_pick_of-turn q i entry teams numbered hi hq here e =
      let n = length order in
      let early = before_end n q i draft.rounds draft.current_pick hi hq here in
      let late : leb (n * draft.rounds) draft.current_pick ≡ false = ground arith in
      let more : ltb (n * draft.rounds) (suc draft.current_pick) ≡ false = ground arith in
      rw
        (
          complete_lem draft n teams (omega arith),
          late,
          more,
          here,
          round_of n q i hi,
          owner_of_pick engine order assets q i entry numbered hi e,
          picker_of_turn engine order q i numbered hi,
        )
        refl
