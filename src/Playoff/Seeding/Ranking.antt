-- ===== src/Playoff/Seeding/Ranking.antt =====
-- The seeding order is total and strict on rosters: the seeds do not depend on how the standings
-- were listed.
use ht_mvp_backend.Prelude.{
  ℕ, zero, suc, ◌+◌, ◌<◌, ◌≤◌, ◌≡◌, ◌↔◌, ◌⊎◌, refl, ap, true, false, some, List, [], ◌∷◌, ◌-ℤ◌,
  ◌<ℤ◌, take, get_elem?, before, IsOrder, IsSorted, Separates, HasDistinct, HasDistinct-eq,
  sort-perm, sort-IsSorted, sort-eq_of_perm, arith,
}
use mathlib.Core.List.{Perm}
use ht_mvp_backend.Playoff.Seeding.{
  StandingForSeeding, PlayoffSeedInput, compare_standings, sort_standings_for_seeding,
  compute_bye_seeds, seed_from, seed_from_standings, seed_input, includes,
}

-- Before in the seeding: more wins, then more points, then the lower roster id.
abbrev pub Precedes : StandingForSeeding → StandingForSeeding → Type 0
Precedes a b =
    (b.wins < a.wins)
    ⊎ ((a.wins ≡ b.wins)
        × ((b.points_for <ℤ a.points_for)
            ⊎ ((a.points_for ≡ b.points_for) × (a.roster_id ≤ b.roster_id))))

Precedes-iff : (a b : StandingForSeeding) → (before compare_standings a b ≡ true) ↔ Precedes a b
unfolding compare_standings ◌-ℤ◌
Precedes-iff a b = ground arith

not-Precedes : (a b : StandingForSeeding) → before compare_standings a b ≡ false → Precedes b a
unfolding compare_standings ◌-ℤ◌
not-Precedes a b h = ground arith

Precedes-trans : (a b c : StandingForSeeding) → Precedes a b → Precedes b c → Precedes a c
Precedes-trans a b c p q = ground arith

seeding_order : IsOrder compare_standings
seeding_order = record {
  total = λ a b h. (Precedes-iff b a).1 (not-Precedes a b h);
  trans = λ a b c p q.
      (Precedes-iff a c).1 (Precedes-trans a b c ((Precedes-iff a b).0 p) ((Precedes-iff b c).0 q));
}

standing_set : IsSet StandingForSeeding
standing_set = hlevel

same_roster : (a b : StandingForSeeding) → Precedes a b → Precedes b a → a.roster_id ≡ b.roster_id
same_roster a b p q = ground arith

league-Separates :
    (ss : List StandingForSeeding)
    → HasDistinct (λ s. s.roster_id) ss
    → Separates compare_standings seeding_order ss
league-Separates ss u a b ma mb p q =
    HasDistinct-eq (λ s. s.roster_id) standing_set ss u a b ma mb
      (same_roster a b ((Precedes-iff a b).0 p) ((Precedes-iff b a).0 q))

-- Sorting loses and invents no standing, and every standing precedes those after it.
pub seeding-IsSorted :
    (ss : List StandingForSeeding)
    → Perm (sort_standings_for_seeding ss) ss
      × IsSorted compare_standings (sort_standings_for_seeding ss)
unfolding sort_standings_for_seeding
seeding-IsSorted ss =
    (sort-perm compare_standings ss, sort-IsSorted compare_standings seeding_order ss)

-- The seeds of a league whose standings have different rosters do not depend on the order in which
-- the standings were listed.
pub seeds_independent :
    (ss ts : List StandingForSeeding) (playoff_teams : ℕ)
    → HasDistinct (λ s. s.roster_id) ss
    → Perm ss ts
    → seed_from_standings (sort_standings_for_seeding ss) playoff_teams
      ≡ seed_from_standings (sort_standings_for_seeding ts) playoff_teams
unfolding sort_standings_for_seeding
seeds_independent ss ts playoff_teams u p =
    ap (λ sorted. seed_from_standings sorted playoff_teams)
      (sort-eq_of_perm compare_standings seeding_order ss ts (league-Separates ss u) p)

bye_iff :
    (playoff_teams seed : ℕ)
    → (includes (compute_bye_seeds playoff_teams) (suc seed) ≡ true)
      ↔ ((playoff_teams ≡ 6) × (suc seed ≤ 2))
unfolding compute_bye_seeds
bye_iff playoff_teams seed = ground arith

seed_from_get :
    (byes : List ℕ) (ss : List StandingForSeeding) (first n i j : ℕ) (s : StandingForSeeding)
    → get_elem? ss i ≡ some s
    → i < n
    → j ≡ first + i
    → get_elem? (seed_from byes first (take n ss)) i ≡ some (seed_input byes s j)
unfolding seed_from
seed_from_get byes [] first n i j s h l e = ground arith
seed_from_get byes (x ∷ xs) first zero i j s h l e = ground arith
seed_from_get byes (x ∷ xs) first (suc n) zero j s h l e =
    let same : x ≡ s = cc in let start : j ≡ first = omega arith in rw (same, start) refl
seed_from_get byes (x ∷ xs) first (suc n) (suc i) j s h l e =
    seed_from_get byes xs (suc first) n i j s h (omega arith) (omega arith)

-- The standing at place i (from 0) of the sorted list is seed i + 1, if the playoffs have room, and
-- it has a bye exactly in a six-team playoff as one of the first two.
seed_of_place :
    (ss : List StandingForSeeding) (playoff_teams i : ℕ) (s : StandingForSeeding)
    → get_elem? ss i ≡ some s
    → i < playoff_teams
    → (x : PlayoffSeedInput) × (get_elem? (seed_from_standings ss playoff_teams) i ≡ some x)
      × (x.roster_id ≡ s.roster_id)
      × (x.seed ≡ suc i)
      × ((x.has_bye ≡ true) ↔ ((playoff_teams ≡ 6) × (suc i ≤ 2)))
unfolding seed_from_standings seed_input
seed_of_place ss playoff_teams i s h l = (
  seed_input (compute_bye_seeds playoff_teams) s i,
  seed_from_get (compute_bye_seeds playoff_teams) ss 0 playoff_teams i i s h l (omega arith),
  refl,
  refl,
  bye_iff playoff_teams i,
)
