-- ===== src/Standings/Records.antt =====
-- A head-to-head record is the opponent's, mirrored.
use ht_mvp_backend.Prelude.{
  ℕ, ◌≡◌, ◌≢◌, refl, true, false, List, [], ◌∷◌, ◌==◌, arith, Bool-cases, inl, inr, Option, ℤ,
}
use ht_mvp_backend.Standings.{
  Matchup, HeadToHead, get_head_to_head_record, get_matchup_result, count_result, is_relevant,
  result_of,
}

abbrev pub mirrored : HeadToHead → HeadToHead
mirrored h = record { roster1_wins = h.roster2_wins; roster2_wins = h.roster1_wins; ties = h.ties }

relevant_swapped : (id1 id2 : ℕ) (m : Matchup) → is_relevant id2 id1 m ≡ is_relevant id1 id2 m
relevant_swapped id1 id2 m = ground arith

count_swapped :
    (p q : Option ℤ) (h : HeadToHead)
    → count_result (result_of q p) (mirrored h) ≡ mirrored (count_result (result_of p q) h)
unfolding count_result result_of
count_swapped p q h = ground arith

side_swapped :
    (id1 id2 : ℕ) (m : Matchup) (h : HeadToHead)
    → id1 ≢ id2
    → is_relevant id1 id2 m ≡ true
    → count_result (get_matchup_result m id2) (mirrored h)
      ≡ mirrored (count_result (get_matchup_result m id1) h)
unfolding get_matchup_result
side_swapped id1 id2 m h ne rel = elim (Bool-cases (m.roster1_id == id1)) [
  | inl e ↦
      let other : (m.roster1_id == id2) ≡ false = ground arith in
      rw (e, other) (count_swapped m.roster1_points m.roster2_points h)
  | inr e ↦
      let other : (m.roster1_id == id2) ≡ true = ground arith in
      rw (e, other) (count_swapped m.roster2_points m.roster1_points h)
]

-- Of two different rosters, the head-to-head record of the second against the first is that of the
-- first against the second with the wins exchanged.
pub head_to_head_mirrored :
    (ms : List Matchup) (id1 id2 : ℕ)
    → id1 ≢ id2
    → get_head_to_head_record ms id2 id1 ≡ mirrored (get_head_to_head_record ms id1 id2)
unfolding get_head_to_head_record
head_to_head_mirrored [] id1 id2 ne = refl
head_to_head_mirrored (m ∷ ms) id1 id2 ne = elim (Bool-cases (is_relevant id1 id2 m)) [
  | inl e ↦
      rw (relevant_swapped id1 id2 m, e, head_to_head_mirrored ms id1 id2 ne)
        (side_swapped id1 id2 m (get_head_to_head_record ms id1 id2) ne e)
  | inr e ↦ rw (relevant_swapped id1 id2 m, e) (head_to_head_mirrored ms id1 id2 ne)
]
