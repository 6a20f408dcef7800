-- ===== src/Schedule/Weeks.antt =====
-- A week's pairings: whom the circle method sits against whom.
use ht_mvp_backend.Prelude.{
  ℕ, zero, suc, ◌+◌, ◌-◌, ◌≤◌, ◌≡◌, inl, inr, Bool, true, false, Option, none, some, List, [], ◌∷◌,
  ◌++◌, map, length, get_elem?, arith, Bool-cases, ◌==◌, sym, refl, ap, ◌∙◌,
}
use ht_mvp_backend.Prelude.{ℤ, eqb_ℤ, ltb_ℤ, ◌%◌, ◌/◌, length-append}
use native.Mathlib.Nat.{add-mul-mod_self_left}
use ht_mvp_backend.Schedule.{
  GeneratedMatchup, bye, last_of, init_of, rotate_rest, rotate_times, rotate_teams, is_bye,
  home_and_away, push_pair, pairs_from, with_bye, week_matchups,
}
use ht_mvp_backend.Schedule.Rotation.{snoc_lem, assoc, append_nil, init-length}

abbrev indicator : Bool → ℕ
indicator true = 1
indicator false = 0

-- how often a team is listed, and how often it plays
abbrev pub occurrences : ℤ → List ℤ → ℕ
occurrences t [] = 0
occurrences t (x ∷ xs) = indicator (eqb_ℤ x t) + occurrences t xs

abbrev pub appearances : ℤ → List GeneratedMatchup → ℕ
appearances t [] = 0
appearances t (m ∷ ms) =
    indicator (eqb_ℤ m.roster1_id t) + indicator (eqb_ℤ m.roster2_id t) + appearances t ms

occurrences-append :
    (t : ℤ) (xs ys : List ℤ) → occurrences t (xs ++ ys) ≡ occurrences t xs + occurrences t ys
occurrences-append t [] ys = omega arith
occurrences-append t (x ∷ xs) ys = omega (arith, occurrences-append t xs ys)

get_middle : (xs ys : List ℤ) (a : ℤ) (i : ℕ) → length xs ≡ i → get_elem? (xs ++ a ∷ ys) i ≡ some a
get_middle [] ys a zero h = refl
get_middle [] ys a (suc i) h = absurd (omega (arith, h))
get_middle (x ∷ xs) ys a zero h = absurd (omega (arith, h))
get_middle (x ∷ xs) ys a (suc i) h = get_middle xs ys a i (omega (arith, h))

pair_appears :
    (t : ℤ) (week round : ℕ) (a b : ℤ) (ms : List GeneratedMatchup)
    → appearances t (home_and_away week round a b ∷ ms)
      ≡ indicator (eqb_ℤ a t) + indicator (eqb_ℤ b t) + appearances t ms
pair_appears t week round a b ms = elim (Bool-cases (ltb_ℤ a b)) [
  | inl e ↦ elim (Bool-cases (round % 2 == 0)) [
    | inl f ↦ rw (e, f) (omega arith)
    | inr f ↦ rw (e, f) (omega arith)
  ]
  | inr e ↦ elim (Bool-cases (round % 2 == 0)) [
    | inl f ↦ rw (e, f) (omega arith)
    | inr f ↦ rw (e, f) (omega arith)
  ]
]

pushed_le :
    (t : ℤ) (week round : ℕ) (a b : ℤ) (ms : List GeneratedMatchup)
    → appearances t (push_pair week round (some a) (some b) ms)
      ≤ indicator (eqb_ℤ a t) + indicator (eqb_ℤ b t) + appearances t ms
pushed_le t week round a b ms = elim (Bool-cases (is_bye a b)) [
  | inl e ↦ rw e (omega arith)
  | inr e ↦ rw e (omega (arith, pair_appears t week round a b ms))
]

-- nobody in the list is the bye
abbrev pub HasNoBye : List ℤ → Type 0
HasNoBye xs = occurrences bye xs ≡ 0

pushed_eq :
    (t : ℤ) (week round : ℕ) (a b : ℤ) (ms : List GeneratedMatchup)
    → eqb_ℤ a bye ≡ false
    → eqb_ℤ b bye ≡ false
    → appearances t (push_pair week round (some a) (some b) ms)
      ≡ indicator (eqb_ℤ a t) + indicator (eqb_ℤ b t) + appearances t ms
pushed_eq t week round a b ms ha hb = rw (ha, hb) (pair_appears t week round a b ms)

not_bye : (x : ℤ) → indicator (eqb_ℤ x bye) ≡ 0 → eqb_ℤ x bye ≡ false
not_bye x h = elim (Bool-cases (eqb_ℤ x bye)) [
  | inl e ↦ let one : 1 ≡ 0 = rw e at h in absurd (omega (arith, one))
  | inr e ↦ e
]

-- The pairs of a middle part, whose ends are as long as the index.
middle_lem :
    (t : ℤ) (week round n i count : ℕ) (front middle back : List ℤ)
    → length front ≡ i
    → length back ≡ i
    → length middle ≡ count + count
    → n ≡ i + count + count + i
    → (appearances t (pairs_from week round (front ++ (middle ++ back)) n i count)
        ≤ occurrences t middle)
      × (HasNoBye middle
          → appearances t (pairs_from week round (front ++ (middle ++ back)) n i count)
            ≡ occurrences t middle)
middle_lem t week round n i zero front middle back hf hb hm hn =
    (omega arith, λ h. empty_lem middle hm)
  where
    empty_lem : (l : List ℤ) → length l ≡ 0 + 0 → 0 ≡ occurrences t l
    empty_lem [] h = refl
    empty_lem (x ∷ xs) h = absurd (omega (arith, h))
middle_lem t week round n i (suc count) front [] back hf hb hm hn = absurd (omega (arith, hm))
middle_lem t week round n i (suc count) front (a ∷ []) back hf hb hm hn = absurd (omega (arith, hm))
middle_lem t week round n i (suc count) front (a ∷ m ∷ ms) back hf hb hm hn =
    let inner = init_of m ms in
    let b = last_of m ms in
    let split : inner ++ b ∷ [] ≡ m ∷ ms = snoc_lem m ms in
    let all_teams = front ++ ((a ∷ m ∷ ms) ++ back) in
    let inner_size = init-length m ms in
    let first : get_elem? all_teams i ≡ some a = get_middle front ((m ∷ ms) ++ back) a i hf in
    let by_front : (front ++ a ∷ []) ++ (inner ++ b ∷ back) ≡ all_teams =
      assoc front (a ∷ []) (inner ++ b ∷ back)
      ∙ ap (λ l. front ++ a ∷ l) (sym (assoc inner (b ∷ []) back) ∙ ap (λ l. l ++ back) split) in
    let size1 = length-append front (a ∷ []) in
    let size2 = length-append (front ++ a ∷ []) inner in
    let second : get_elem? all_teams (n - 1 - i) ≡ some b =
      ap (λ l. get_elem? l (n - 1 - i))
        (sym by_front ∙ sym (assoc (front ++ a ∷ []) inner (b ∷ back)))
      ∙ get_middle ((front ++ a ∷ []) ++ inner) back b (n - 1 - i)
          (omega (arith, size1, size2, inner_size, hf, hm, hn)) in
    let ih =
      middle_lem t week round n (suc i) count (front ++ a ∷ []) inner (b ∷ back)
        (omega (arith, size1, hf)) (omega (arith, hb)) (omega (arith, inner_size, hm))
        (omega (arith, hn)) in
    let rest = pairs_from week round all_teams n (suc i) count in
    let same_rest : pairs_from week round ((front ++ a ∷ []) ++ (inner ++ b ∷ back)) n (suc i) count
        ≡ rest =
      ap (λ l. pairs_from week round l n (suc i) count) by_front in
    let counted : occurrences t (m ∷ ms) ≡ occurrences t inner + indicator (eqb_ℤ b t) =
      ap (occurrences t) (sym split) ∙ (occurrences-append t inner (b ∷ []) ∙ omega arith) in
    let byes : occurrences bye (m ∷ ms) ≡ occurrences bye inner + indicator (eqb_ℤ b bye) =
      ap (occurrences bye) (sym split) ∙ (occurrences-append bye inner (b ∷ []) ∙ omega arith) in
    let le_rest : appearances t rest ≤ occurrences t inner = rw (sym same_rest) ih.0 in
    (
      rw (first, second) (omega (arith, pushed_le t week round a b rest, le_rest, counted)),
      λ h.
          let eq_rest : appearances t rest ≡ occurrences t inner =
            rw (sym same_rest) (ih.1 (omega (arith, byes, h))) in
          rw (first, second)
            (omega (
              arith,
              pushed_eq t week round a b rest (not_bye a (omega (arith, h)))
                  (not_bye b (omega (arith, byes, h))),
              eq_rest,
              counted,
            )),
    )

rest-occurrences : (t : ℤ) (xs : List ℤ) → occurrences t (rotate_rest xs) ≡ occurrences t xs
rest-occurrences t [] = refl
rest-occurrences t (x ∷ xs) =
    let split =
      ap (occurrences t) (sym (snoc_lem x xs))
      ∙ occurrences-append t (init_of x xs) (last_of x xs ∷ []) in
    omega (arith, split)

rest-length : (xs : List ℤ) → length (rotate_rest xs) ≡ length xs
rest-length [] = refl
rest-length (x ∷ xs) = ap suc (init-length x xs)

times_keep :
    (t : ℤ) (k : ℕ) (xs : List ℤ)
    → (occurrences t (rotate_times k xs) ≡ occurrences t xs)
      × (length (rotate_times k xs) ≡ length xs)
times_keep t zero xs = (refl, refl)
times_keep t (suc k) xs =
    let ih = times_keep t k (rotate_rest xs) in
    (ih.0 ∙ rest-occurrences t xs, ih.1 ∙ rest-length xs)

rotation_keeps :
    (t : ℤ) (teams : List ℤ) (round : ℕ)
    → (occurrences t (rotate_teams teams round) ≡ occurrences t teams)
      × (length (rotate_teams teams round) ≡ length teams)
unfolding rotate_teams
rotation_keeps t [] round = (refl, refl)
rotation_keeps t (team ∷ []) round = (refl, refl)
rotation_keeps t (team ∷ other ∷ teams) round =
    let k = times_keep t round (other ∷ teams) in (omega (arith, k.0), ap suc k.1)

week_lem :
    (teams : List ℤ) (half week : ℕ) (t : ℤ)
    → length teams ≡ half + half
    → (appearances t (week_matchups teams week) ≤ occurrences t teams)
      × (HasNoBye teams → appearances t (week_matchups teams week) ≡ occurrences t teams)
unfolding week_matchups
week_lem teams half week t h =
    let n = length teams in
    let round = (week - 1) % (n - 1) in
    let rotated = rotate_teams teams round in
    let kept = rotation_keeps t teams round in
    let kept_bye = rotation_keeps bye teams round in
    let halved : n / 2 ≡ half = omega (arith, h) in
    let all_rotated : [] ++ (rotated ++ []) ≡ rotated = append_nil rotated in
    let lem =
      middle_lem t week round n 0 half [] rotated [] refl refl (kept.1 ∙ h) (omega (arith, h)) in
    let pairs : pairs_from week round ([] ++ (rotated ++ [])) n 0 half
        ≡ pairs_from week round rotated n 0 (n / 2) =
      rw (all_rotated, halved) refl in
    (
      omega (arith, ap (appearances t) pairs, lem.0, kept.0),
      λ b. sym (ap (appearances t) pairs) ∙ (lem.1 (kept_bye.0 ∙ b) ∙ kept.0),
    )

even_half : (n : ℕ) → n % 2 ≡ 0 → n ≡ n / 2 + n / 2
even_half n h = omega (arith, h)

-- In a week of the schedule of rosters without a bye among them, each roster is paired as often as it is
-- listed, so exactly once, when their number is even; and never more often when it is odd, as its partner
-- may be the bye.
pub each_roster_plays :
    (roster_ids : List ℤ) (week : ℕ) (t : ℤ)
    → HasNoBye roster_ids
    → (length roster_ids % 2 ≡ 0
        → appearances t (week_matchups (with_bye roster_ids) week) ≡ occurrences t roster_ids)
      × (eqb_ℤ bye t ≡ false
          → appearances t (week_matchups (with_bye roster_ids) week) ≤ occurrences t roster_ids)
unfolding with_bye
each_roster_plays roster_ids week t b = elim (Bool-cases (length roster_ids % 2 == 0)) [
  | inl e ↦
      let even : length roster_ids % 2 ≡ 0 = ground arith in
      let lem =
        week_lem roster_ids (length roster_ids / 2) week t (even_half (length roster_ids) even) in
      rw e (λ h. lem.1 b, λ h. lem.0)
  | inr e ↦
      let teams = roster_ids ++ bye ∷ [] in
      let size = length-append roster_ids (bye ∷ []) in
      let odd : length roster_ids % 2 ≡ 1 = ground arith in
      let even : length teams % 2 ≡ 0 = omega (arith, size, odd) in
      let lem = week_lem teams (length teams / 2) week t (even_half (length teams) even) in
      rw e (
        λ h. absurd (omega (arith, odd, h)),
        λ h.
            let added : occurrences t teams ≡ occurrences t roster_ids =
              occurrences-append t roster_ids (bye ∷ []) ∙ rw h (omega arith) in
            omega (arith, lem.0, added),
      )
]

-- Whom a matchup pairs, home first.
abbrev pub pairing : GeneratedMatchup → ℤ × ℤ
pairing m = (m.roster1_id, m.roster2_id)

pushed_pairing :
    (w w' round : ℕ) (o o' : Option ℤ) (ms ms' : List GeneratedMatchup)
    → map pairing ms ≡ map pairing ms'
    → map pairing (push_pair w round o o' ms) ≡ map pairing (push_pair w' round o o' ms')
pushed_pairing w w' round none o' ms ms' h = h
pushed_pairing w w' round (some a) none ms ms' h = h
pushed_pairing w w' round (some a) (some b) ms ms' h = elim (Bool-cases (is_bye a b)) [
  | inl e ↦ rw e h
  | inr e ↦ elim (Bool-cases (ltb_ℤ a b)) [
    | inl f ↦ elim (Bool-cases (round % 2 == 0)) [
      | inl g ↦ rw (e, f, g) (ap (λ l. (a, b) ∷ l) h)
      | inr g ↦ rw (e, f, g) (ap (λ l. (b, a) ∷ l) h)
    ]
    | inr f ↦ elim (Bool-cases (round % 2 == 0)) [
      | inl g ↦ rw (e, f, g) (ap (λ l. (b, a) ∷ l) h)
      | inr g ↦ rw (e, f, g) (ap (λ l. (a, b) ∷ l) h)
    ]
  ]
]

pairs_pairing :
    (w w' round n i count : ℕ) (rotated : List ℤ)
    → map pairing (pairs_from w round rotated n i count)
      ≡ map pairing (pairs_from w' round rotated n i count)
pairs_pairing w w' round n i zero rotated = refl
pairs_pairing w w' round n i (suc count) rotated =
    pushed_pairing w w' round (get_elem? rotated i) (get_elem? rotated (n - 1 - i)) _ _
      (pairs_pairing w w' round n (suc i) count rotated)

-- The schedule repeats: n - 1 weeks later (n teams, with the bye) the same rosters meet, at the same homes.
pub weeks_repeat :
    (teams : List ℤ) (week : ℕ)
    → 1 ≤ week
    → 2 ≤ length teams
    → map pairing (week_matchups teams (week + (length teams - 1)))
      ≡ map pairing (week_matchups teams week)
unfolding week_matchups
weeks_repeat teams week h two =
    let n = length teams in
    let same_round : (week + (n - 1) - 1) % (n - 1) ≡ (week - 1) % (n - 1) =
      ap (λ k. k % (n - 1)) (omega (arith, h)) ∙ add-mul-mod_self_left (week - 1) (n - 1) 1 in
    rw same_round (
      pairs_pairing (week + (n - 1)) week ((week - 1) % (n - 1)) n 0 (n / 2)
        (rotate_teams teams ((week - 1) % (n - 1))))
