-- ===== src/Draft/Validation/Accepted.antt =====
-- The picks that are accepted, and the player that an absent manager gets.
use ht_mvp_backend.Prelude.{
  ℕ, ◌≤◌, ◌<◌, ◌≡◌, ◌↔◌, ◌⊎◌, inl, inr, refl, Bool, true, false, Option, none, some, List, [], ◌∷◌,
  ◌-ℤ◌, arith, sort, before, IsOrder, IsSorted, sort-perm, sort-IsSorted, IsSorted-first,
}
use mathlib.Core.List.{Mem, Perm, mem-cons_self}
use mathlib.Core.List.Perm
use ht_mvp_backend.Draft.Validation.{
  PickValidationContext, validate_pick_preconditions, PlayerForRanking, compare_players,
  rank_players_by_adp, get_best_by_adp, first_of,
}

-- A condition on the value, if there is one.
abbrev pub IfGiven : (ℕ → Type 0) → Option ℕ → Type 0
IfGiven P none = Unit
IfGiven P (some x) = P x

-- No error is reported exactly for a draft in progress that has reached its start, has a confirmed
-- order or is an auction, is at the picker's turn or has no picker or picks by itself, and has not
-- passed its deadline.
pub accepted_iff :
    (ctx : PickValidationContext) (picker now : ℕ) (is_auto_pick : Bool)
    → (validate_pick_preconditions ctx picker now is_auto_pick ≡ []) ↔ (
        (ctx.is_in_progress ≡ true)
        × IfGiven (λ start. start ≤ now) ctx.scheduled_start
        × ((ctx.order_confirmed ≡ true) ⊎ (ctx.is_auction ≡ true))
        × ((is_auto_pick ≡ true)
            ⊎ IfGiven (λ current. current ≡ picker) ctx.current_picker_roster_id)
        × IfGiven (λ deadline. now ≤ deadline) ctx.pick_deadline)
unfolding validate_pick_preconditions
accepted_iff ctx picker now is_auto_pick = ground arith

abbrev pub AdpPrecedes : ℕ → Option ℕ → ℕ → Option ℕ → Type 0
AdpPrecedes id_a (some x) id_b (some y) = (x < y) ⊎ ((x ≡ y) × (id_a ≤ id_b))
AdpPrecedes id_a (some x) id_b none = Unit
AdpPrecedes id_a none id_b (some y) = 1 ≤ 0
AdpPrecedes id_a none id_b none = id_a ≤ id_b

-- The lower ADP first, players without one last, then the lower id.
abbrev pub RanksBefore : PlayerForRanking → PlayerForRanking → Type 0
RanksBefore a b = AdpPrecedes a.id a.adp b.id b.adp

ranks_iff : (a b : PlayerForRanking) → (before compare_players a b ≡ true) ↔ RanksBefore a b
unfolding compare_players ◌-ℤ◌
ranks_iff a b = ground arith

not_ranks : (a b : PlayerForRanking) → before compare_players a b ≡ false → RanksBefore b a
unfolding compare_players ◌-ℤ◌
not_ranks a b h = ground arith

adp_trans :
    (i j k : ℕ) (x y z : Option ℕ) → AdpPrecedes i x j y → AdpPrecedes j y k z → AdpPrecedes i x k z
adp_trans i j k x y z p q = ground arith

ranking_order : IsOrder compare_players
ranking_order = record {
  total = λ a b h. (ranks_iff b a).1 (not_ranks a b h);
  trans = λ a b c p q.
      (ranks_iff a c).1
        (adp_trans a.id b.id c.id a.adp b.adp c.adp ((ranks_iff a b).0 p) ((ranks_iff b c).0 q));
}

first_is_best :
    (p : PlayerForRanking) (ps sorted : List PlayerForRanking)
    → Perm sorted (p ∷ ps)
    → IsSorted compare_players sorted
    → (best : PlayerForRanking) × (first_of sorted ≡ some best)
      × Mem best (p ∷ ps)
      × ((q : PlayerForRanking) → Mem q (p ∷ ps) → RanksBefore best q)
unfolding first_of
first_is_best p ps [] perm s = let bad : p ∷ ps ≡ [] = Perm.eq-nil (Perm.symm perm) in ground arith
first_is_best p ps (b ∷ bs) perm s = (
  b,
  refl,
  (Perm.mem_iff perm).0 mem-cons_self,
  λ q m.
      (ranks_iff b q).0
        (IsSorted-first compare_players ranking_order b bs s q ((Perm.mem_iff perm).1 m)),
)

-- The best player by ADP of a list is in the list and ranks before every player of the list: a lower
-- ADP, or the same and a lower id, players without an ADP last; there is one unless the list is empty.
best_ranks_first :
    (ps : List PlayerForRanking)
    → ((ps ≡ []) × (get_best_by_adp ps ≡ none))
      ⊎ ((best : PlayerForRanking) × (get_best_by_adp ps ≡ some best)
          × Mem best ps
          × ((p : PlayerForRanking) → Mem p ps → RanksBefore best p))
unfolding get_best_by_adp rank_players_by_adp
best_ranks_first [] = inl (refl, refl)
best_ranks_first (p ∷ ps) = inr (
    first_is_best p ps (sort compare_players (p ∷ ps)) (sort-perm compare_players (p ∷ ps))
      (sort-IsSorted compare_players ranking_order (p ∷ ps)))
