-- ===== src/Schedule/Rotation.antt =====
-- The circle method's rotation: it permutes the teams, and comes back after a full cycle.
use ht_mvp_backend.Prelude.{
  ℕ, zero, suc, ◌-◌, ◌≡◌, List, [], ◌∷◌, ◌++◌, length, arith, sym, refl, ap, ◌∙◌,
}
use ht_mvp_backend.Prelude.{ℤ}
use mathlib.Core.List.{Perm}
use mathlib.Core.List.Perm
use ht_mvp_backend.Schedule.{last_of, init_of, rotate_rest, rotate_times, rotate_teams}

pub snoc_lem : (x : ℤ) (xs : List ℤ) → init_of x xs ++ last_of x xs ∷ [] ≡ x ∷ xs
snoc_lem x [] = refl
snoc_lem x (y ∷ ys) = ap (λ l. x ∷ l) (snoc_lem y ys)

rest_snoc : (xs : List ℤ) (z : ℤ) → rotate_rest (xs ++ z ∷ []) ≡ z ∷ xs
rest_snoc [] z = refl
rest_snoc (x ∷ xs) z = rw (last_snoc x xs, init_snoc x xs) refl
  where
    last_snoc : (x : ℤ) (xs : List ℤ) → last_of x (xs ++ z ∷ []) ≡ z
    last_snoc x [] = refl
    last_snoc x (y ∷ ys) = last_snoc y ys

    init_snoc : (x : ℤ) (xs : List ℤ) → init_of x (xs ++ z ∷ []) ≡ x ∷ xs
    init_snoc x [] = refl
    init_snoc x (y ∷ ys) = ap (λ l. x ∷ l) (init_snoc y ys)

pub assoc : (xs ys zs : List ℤ) → (xs ++ ys) ++ zs ≡ xs ++ (ys ++ zs)
assoc [] ys zs = refl
assoc (x ∷ xs) ys zs = ap (λ l. x ∷ l) (assoc xs ys zs)

pub append_nil : (xs : List ℤ) → xs ++ [] ≡ xs
append_nil [] = refl
append_nil (x ∷ xs) = ap (λ l. x ∷ l) (append_nil xs)

pub init-length : (x : ℤ) (xs : List ℤ) → length (init_of x xs) ≡ length xs
init-length x [] = refl
init-length x (y ∷ ys) = ap suc (init-length y ys)

-- Rotating as many times as the second part is long exchanges the parts.
rotate_times-append :
    (k : ℕ) (ys zs : List ℤ) → length zs ≡ k → rotate_times k (ys ++ zs) ≡ zs ++ ys
rotate_times-append zero ys [] h = append_nil ys
rotate_times-append zero ys (z ∷ zs) h = absurd (omega (arith, h))
rotate_times-append (suc k) ys [] h = absurd (omega (arith, h))
rotate_times-append (suc k) ys (z ∷ zs) h =
    let before = init_of z zs in
    let final = last_of z zs in
    let split : before ++ final ∷ [] ≡ z ∷ zs = snoc_lem z zs in
    let shorter : length before ≡ k = omega (arith, init-length z zs, h) in
    let turned : rotate_rest (ys ++ z ∷ zs) ≡ final ∷ (ys ++ before) =
      rw (sym split, sym (assoc ys before (final ∷ []))) (rest_snoc (ys ++ before) final) in
    let later : rotate_times k ((final ∷ ys) ++ before) ≡ before ++ final ∷ ys =
      rotate_times-append k (final ∷ ys) before shorter in
    let joined : before ++ final ∷ ys ≡ (z ∷ zs) ++ ys =
      sym (assoc before (final ∷ []) ys) ∙ ap (λ l. l ++ ys) split in
    ap (rotate_times k) turned ∙ later ∙ joined

-- Rotating n teams n - 1 times puts every team back where it was.
pub rotate_teams_round_trip : (teams : List ℤ) → rotate_teams teams (length teams - 1) ≡ teams
unfolding rotate_teams
rotate_teams_round_trip [] = refl
rotate_teams_round_trip (team ∷ []) = refl
rotate_teams_round_trip (team ∷ other ∷ teams) =
    let rounds : length (team ∷ other ∷ teams) - 1 ≡ length (other ∷ teams) = omega arith in
    rw rounds (
      ap (λ l. team ∷ l)
        (rotate_times-append (length (other ∷ teams)) [] (other ∷ teams) refl
          ∙ append_nil (other ∷ teams)))

rest-perm : (xs : List ℤ) → Perm (rotate_rest xs) xs
rest-perm [] = Perm.nil
rest-perm (x ∷ xs) = moved x xs
  where
    moved : (x : ℤ) (xs : List ℤ) → Perm (last_of x xs ∷ init_of x xs) (x ∷ xs)
    moved x [] = Perm.refl _
    moved x (y ∷ ys) =
        Perm.trans (Perm.swap x (last_of y ys) (init_of y ys)) (Perm.cons x (moved y ys))

times-perm : (k : ℕ) (xs : List ℤ) → Perm (rotate_times k xs) xs
times-perm zero xs = Perm.refl xs
times-perm (suc k) xs = Perm.trans (times-perm k (rotate_rest xs)) (rest-perm xs)

pub rotate_teams-perm : (teams : List ℤ) (round : ℕ) → Perm (rotate_teams teams round) teams
unfolding rotate_teams
rotate_teams-perm [] round = Perm.nil
rotate_teams-perm (team ∷ []) round = Perm.refl _
rotate_teams-perm (team ∷ other ∷ teams) round = Perm.cons team (times-perm round (other ∷ teams))
