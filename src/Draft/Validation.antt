-- ===== src/Draft/Validation.antt =====
-- domain/draft/pick-validation.ts and player-ranking.ts. Times are milliseconds, draft positions of
-- players (ADP) hundredths.
pub mod Accepted
use ht_mvp_backend.Prelude.{
  ℕ, Bool, true, false, not, ◌&&◌, Option, none, some, List, [], ◌∷◌, ◌++◌, ℤ, pos, negsuc, ◌-ℤ◌,
  ltb, ◌==◌, sort, if◌then◌else◌,
}

pub data DraftPickErrorCode : Type 0 where
  draft_not_in_progress : DraftPickErrorCode
  draft_not_started_yet : DraftPickErrorCode
  order_not_confirmed : DraftPickErrorCode
  not_your_turn : DraftPickErrorCode
  pick_deadline_passed : DraftPickErrorCode

pub record PickValidationContext : Type 0 where
  -- status === 'in_progress', draftType === 'auction'
  pub is_in_progress : Bool
  pub is_auction : Bool
  pub scheduled_start : Option ℕ
  pub order_confirmed : Bool
  pub current_pick : ℕ
  pub pick_deadline : Option ℕ
  pub current_picker_roster_id : Option ℕ

abbrev pub report_if : Bool → DraftPickErrorCode → List DraftPickErrorCode
report_if true e = e ∷ []
report_if false e = []

abbrev pub is_early : ℕ → Option ℕ → Bool
is_early now none = false
is_early now (some start) = ltb now start

abbrev pub is_late : ℕ → Option ℕ → Bool
is_late now none = false
is_late now (some deadline) = ltb deadline now

abbrev pub is_other : ℕ → Option ℕ → Bool
is_other picker none = false
is_other picker (some current) = not (current == picker)

unfoldable pub validate_pick_preconditions :
    PickValidationContext → ℕ → ℕ → Bool → List DraftPickErrorCode
validate_pick_preconditions ctx picker_roster_id now is_auto_pick =
    if not ctx.is_in_progress
    then draft_not_in_progress ∷ []
    else report_if (is_early now ctx.scheduled_start) draft_not_started_yet
      ++ (report_if (not ctx.order_confirmed && not ctx.is_auction) order_not_confirmed
          ++ (report_if (not is_auto_pick && is_other picker_roster_id ctx.current_picker_roster_id)
                not_your_turn
              ++ report_if (is_late now ctx.pick_deadline) pick_deadline_passed))

pub record PlayerForRanking : Type 0 where
  pub id : ℕ
  pub adp : Option ℕ

abbrev pub compare_adp : ℕ → Option ℕ → ℕ → Option ℕ → ℤ
compare_adp id_a (some x) id_b (some y) =
    if not (x == y) then pos x -ℤ pos y else pos id_a -ℤ pos id_b
compare_adp id_a none id_b (some y) = pos 1
compare_adp id_a (some x) id_b none = negsuc 0
compare_adp id_a none id_b none = pos id_a -ℤ pos id_b

unfoldable pub compare_players : PlayerForRanking → PlayerForRanking → ℤ
compare_players a b = compare_adp a.id a.adp b.id b.adp

unfoldable pub rank_players_by_adp : List PlayerForRanking → List PlayerForRanking
rank_players_by_adp players = sort compare_players players

unfoldable pub first_of : List PlayerForRanking → Option PlayerForRanking
first_of [] = none
first_of (p ∷ ps) = some p

unfoldable pub get_best_by_adp : List PlayerForRanking → Option PlayerForRanking
unfolding first_of
get_best_by_adp [] = none
get_best_by_adp (p ∷ ps) = first_of (rank_players_by_adp (p ∷ ps))
