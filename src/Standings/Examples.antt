-- ===== src/Standings/Examples.antt =====
-- The theorems on standings at concrete inputs.
use ht_mvp_backend.Prelude.{ℕ, ◌≡◌, some, List, [], ◌∷◌, pos, arith}
use ht_mvp_backend.Standings.{Matchup, get_head_to_head_record}
use ht_mvp_backend.Standings.Records.{mirrored, head_to_head_mirrored}

abbrev game : ℕ → ℕ → ℕ → ℕ → ℕ → Matchup
game n a b p q = record {
  week = n;
  roster1_id = a;
  roster2_id = b;
  roster1_points = some (pos p);
  roster2_points = some (pos q);
}

abbrev games : List Matchup
games = game 1 7 8 10000 9000 ∷ game 5 8 7 9500 9400 ∷ game 6 7 9 8000 8100 ∷ []

head_to_head_mirrored_example :
    get_head_to_head_record games 8 7 ≡ mirrored (get_head_to_head_record games 7 8)
head_to_head_mirrored_example = head_to_head_mirrored games 7 8 (omega arith)
