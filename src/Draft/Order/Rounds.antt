-- ===== src/Draft/Order/Rounds.antt =====
-- Each round of a draft gives each position one pick; a snake draft turns the order round.
use ht_mvp_backend.Prelude.{
  ℕ, zero, suc, ◌+◌, ◌-◌, ◌*◌, ◌/◌, ◌%◌, ◌<◌, ◌≡◌, ◌⊎◌, inl, inr, refl, ap, true, false, some, List,
  [], ◌∷◌, length, get_elem?, sym, ◌∙◌, ◌==◌, arith, if◌then◌else◌,
}
use native.Mathlib.Nat.{mod-eq_of_lt, div-eq_of_lt, mul-add-div_right, mul-add-mod_self_right}
use ht_mvp_backend.Draft.Order.{
  DraftOrderEntry, DraftPickAsset, DraftEngine, snake, linear, get_pick_in_round, get_round,
  pick_position, get_picker_for_pick_number, get_actual_picker_for_pick_number, is_sorted,
  increasing_from, at_position, owner_of, find_asset, actual_picker, resolve_owner, resolve_owner,
}

-- The pick of place `i` (from 0) in the round after `q` full rounds of `n` picks.
abbrev pub pick_of : ℕ → ℕ → ℕ → ℕ
pick_of n q i = q * n + i + 1

last_or_not :
    (n q i : ℕ)
    → i < n
    → ((suc i ≡ n) × (pick_of n q i ≡ suc q * n + 0))
      ⊎ ((suc i < n) × (pick_of n q i ≡ q * n + suc i))
last_or_not n q i h = ground arith

quotient_lem : (n q i : ℕ) → i < n → ((q * n + i) / n ≡ q) × ((q * n + i) % n ≡ i)
quotient_lem n q i h =
    let positive : 0 < n = omega arith in
    (
      omega (arith, mul-add-div_right positive q i, div-eq_of_lt h),
      omega (arith, mul-add-mod_self_right q n i, mod-eq_of_lt h),
    )

pick_in_round_of : (n q i : ℕ) → i < n → get_pick_in_round (pick_of n q i) n ≡ i + 1
unfolding get_pick_in_round
pick_in_round_of n q i h =
    let same : pick_of n q i - 1 ≡ q * n + i = omega arith in
    rw (same, (quotient_lem n q i h).1) refl

pub round_of : (n q i : ℕ) → i < n → get_round (pick_of n q i) n ≡ q + 1
unfolding get_round
round_of n q i h = elim (last_or_not n q i h) [
  | inl (l, e) ↦
      let full = quotient_lem n (suc q) 0 (omega arith) in rw (e, full.0, full.1) (omega arith)
  | inr (l, e) ↦ let part = quotient_lem n q (suc i) l in rw (e, part.0, part.1) (ground arith)
]

-- The place, from 0, whose turn it is.
abbrev pub turn : DraftEngine → ℕ → ℕ → ℕ → ℕ
turn linear n q i = i
turn snake n q i = if q % 2 == 0 then i else n - 1 - i

position_of_turn :
    (engine : DraftEngine) (n q i : ℕ)
    → i < n
    → pick_position engine n (pick_of n q i) ≡ turn engine n q i + 1
unfolding pick_position
position_of_turn linear n q i h = pick_in_round_of n q i h
position_of_turn snake n q i h = rw (pick_in_round_of n q i h, round_of n q i h) (ground arith)

pub turn-turn :
    (engine : DraftEngine) (n q i : ℕ)
    → i < n
    → (turn engine n q i < n) × (turn engine n q (turn engine n q i) ≡ i)
turn-turn linear n q i h = (h, refl)
turn-turn snake n q i h = ground arith

turns_round : (n q : ℕ) → 0 < n → turn snake n q (n - 1) ≡ turn snake n (suc q) 0
turns_round n q h = ground arith

-- In each round of either kind of draft, each position of the order has exactly one pick.
pub one_pick_each_round :
    (engine : DraftEngine) (n q p : ℕ)
    → p < n
    → (i : ℕ) × (i < n)
      × (pick_position engine n (pick_of n q i) ≡ p + 1)
      × ((j : ℕ) → j < n → pick_position engine n (pick_of n q j) ≡ p + 1 → j ≡ i)
one_pick_each_round engine n q p h =
    let i = turn engine n q p in
    let back = turn-turn engine n q p h in
    (
      i,
      back.0,
      omega (arith, position_of_turn engine n q i back.0, back.1),
      λ j l e.
          let place : turn engine n q j ≡ p = omega (arith, position_of_turn engine n q j l) in
          sym (turn-turn engine n q j l).1 ∙ ap (turn engine n q) place,
    )

-- The order of a draft: positions 1, 2, 3 and so on.
abbrev pub IsNumbered : ℕ → List DraftOrderEntry → Type 0
IsNumbered first [] = Unit
IsNumbered first (o ∷ os) = (o.draft_position ≡ first) × IsNumbered (suc first) os

numbered_increasing :
    (p first : ℕ) (os : List DraftOrderEntry)
    → p < first
    → IsNumbered first os
    → increasing_from p os ≡ true
numbered_increasing p first [] l h = refl
numbered_increasing p first (o ∷ os) l h =
    let next : o.draft_position < suc first = omega (arith, h.0) in
    let rest = numbered_increasing o.draft_position (suc first) os next h.1 in ground (arith, rest)

pub numbered_sorted :
    (first : ℕ) (os : List DraftOrderEntry) → IsNumbered first os → is_sorted os ≡ true
numbered_sorted first [] h = refl
numbered_sorted first (o ∷ os) h =
    numbered_increasing o.draft_position (suc first) os (omega (arith, h.0)) h.1

numbered_at :
    (first i : ℕ) (os : List DraftOrderEntry)
    → IsNumbered first os
    → at_position (first + i) os ≡ get_elem? os i
numbered_at first i [] h = refl
numbered_at first zero (o ∷ os) h = ground arith
numbered_at first (suc i) (o ∷ os) h =
    let rest = numbered_at (suc first) i os h.1 in
    let same : first + suc i ≡ suc first + i = omega arith in
    let no : (o.draft_position == first + suc i) ≡ false = ground arith in
    rw no (ap (λ p. at_position p os) same ∙ rest)

-- With the order numbered from 1, pick i (from 0) of the round after q full ones goes to place i
-- of the order in a linear draft, and in a snake draft if q is even; if q is odd, to place i from
-- the end.
pub picker_of_turn :
    (engine : DraftEngine) (order : List DraftOrderEntry) (q i : ℕ)
    → IsNumbered 1 order
    → i < length order
    → get_picker_for_pick_number engine order (pick_of (length order) q i)
      ≡ some (get_elem? order (turn engine (length order) q i))
unfolding get_picker_for_pick_number
picker_of_turn engine order q i numbered h =
    let place = turn engine (length order) q i in
    let position : pick_position engine (length order) (pick_of (length order) q i) ≡ 1 + place =
      omega (arith, position_of_turn engine (length order) q i h) in
    rw (numbered_sorted 1 order numbered, position) (ap some (numbered_at 1 place order numbered))

-- In a snake draft whose order is numbered from 1 and not empty, the roster that picks last in a
-- round picks first in the next.
snake_turns_round :
    (order : List DraftOrderEntry) (q : ℕ)
    → IsNumbered 1 order
    → 0 < length order
    → get_picker_for_pick_number snake order (pick_of (length order) q (length order - 1))
      ≡ get_picker_for_pick_number snake order (pick_of (length order) (suc q) 0)
snake_turns_round order q numbered h =
    picker_of_turn snake order q (length order - 1) numbered (omega arith)
    ∙ ap (λ place. some (get_elem? order place)) (turns_round (length order) q h)
    ∙ sym (picker_of_turn snake order (suc q) 0 numbered h)

owner_if_any :
    (round : ℕ) (entry : DraftOrderEntry) (assets : List DraftPickAsset)
    → actual_picker assets round (some entry)
      ≡ some (owner_of entry (find_asset round entry.roster_id assets))
unfolding actual_picker owner_of
owner_if_any round entry [] = refl
owner_if_any round entry (a ∷ rest) = refl

-- With the order numbered from 1, a pick belongs to whoever owns the asset of its round and of the
-- roster whose turn it is, and counts as traded when that is another roster; without such an asset
-- it is the roster's own.
pub owner_of_pick :
    (engine : DraftEngine) (order : List DraftOrderEntry) (assets : List DraftPickAsset) (q i : ℕ)
    (entry : DraftOrderEntry)
    → IsNumbered 1 order
    → i < length order
    → get_elem? order (turn engine (length order) q i) ≡ some entry
    → get_actual_picker_for_pick_number engine order assets (pick_of (length order) q i)
      ≡ some (some (owner_of entry (find_asset (q + 1) entry.roster_id assets)))
unfolding get_actual_picker_for_pick_number resolve_owner
owner_of_pick engine order assets q i entry numbered h e =
    rw (picker_of_turn engine order q i numbered h, e, round_of (length order) q i h)
      (ap some (owner_if_any (q + 1) entry assets))
