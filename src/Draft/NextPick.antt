-- ===== src/Draft/NextPick.antt =====
-- modules/drafts/draft-pick-state.utils.ts and the clock of engines/base-draft.engine.ts. Times are
-- milliseconds; a call that throws is none.
pub mod Progress
use ht_mvp_backend.Prelude.{
  ℕ, zero, suc, ◌+◌, ◌*◌, Bool, true, false, not, ◌&&◌, Option, none, some, List, ℤ, pos, ltb_ℤ,
  pos_part, length, ltb, leb, if◌then◌else◌,
}
use ht_mvp_backend.Draft.Order.{
  DraftEngine, DraftOrderEntry, DraftPickAsset, ActualPickerInfo, get_round,
  get_picker_for_pick_number, get_actual_picker_for_pick_number,
}

pub data DraftStatus : Type 0 where
  not_started : DraftStatus
  in_progress : DraftStatus
  paused : DraftStatus
  completed : DraftStatus

pub record Draft : Type 0 where
  pub status : DraftStatus
  pub current_pick : ℕ
  pub rounds : ℕ
  pub pick_time_seconds : ℕ
  pub pick_deadline : Option ℕ
  -- draftState.totalTeams
  pub total_teams : Option ℕ
  -- settings.timerMode === 'chess_clock', and settings.chessClockMinPickSeconds
  pub is_chess_clock : Bool
  pub chess_clock_min_pick_seconds : Option ℕ

pub record NextPickState : Type 0 where
  pub current_pick : Option ℕ
  pub current_round : Option ℕ
  pub current_roster_id : Option ℕ
  pub original_roster_id : Option ℕ
  pub is_traded : Bool
  pub pick_deadline : Option ℕ
  pub status : DraftStatus
  pub completed_at : Option ℕ

pub record NextPickDetails : Type 0 where
  pub current_pick : ℕ
  pub current_round : ℕ
  pub current_roster_id : ℕ
  pub pick_deadline : ℕ
  pub status : DraftStatus

abbrev pub is_in_progress : DraftStatus → Bool
is_in_progress not_started = false
is_in_progress in_progress = true
is_in_progress paused = false
is_in_progress completed = false

unfoldable pub should_auto_pick : ℕ → Draft → Bool
should_auto_pick now draft =
    if is_in_progress draft.status
    then elim draft.pick_deadline [ none ↦ false | some deadline ↦ leb deadline now ]
    else false

-- `!totalTeams` holds of an absent number and of zero
abbrev pub reached : Option ℕ → ℕ → ℕ → Bool
reached none rounds after_pick_number = false
reached (some zero) rounds after_pick_number = false
reached (some (suc n)) rounds after_pick_number = leb (suc n * rounds) after_pick_number

unfoldable pub is_draft_complete : Draft → ℕ → Bool
is_draft_complete draft after_pick_number = reached draft.total_teams draft.rounds after_pick_number

abbrev pub or_ten : Option ℕ → ℕ
or_ten none = 10
or_ten (some s) = s

unfoldable pub clock_seconds : Draft → Option ℤ → ℕ
clock_seconds draft none = draft.pick_time_seconds
clock_seconds draft (some budget) =
    if draft.is_chess_clock
    then (if ltb_ℤ (pos 0) budget
        then pos_part budget
        else or_ten draft.chess_clock_min_pick_seconds)
    else draft.pick_time_seconds

unfoldable pub calculate_pick_deadline : ℕ → Draft → Option ℤ → ℕ
unfolding clock_seconds
calculate_pick_deadline now draft remaining = now + clock_seconds draft remaining * 1000

unfoldable pub details_for :
    ℕ → Draft → ℕ → ℕ → Option (Option DraftOrderEntry) → Option (Option NextPickDetails)
unfolding calculate_pick_deadline
details_for now draft next_pick_number next_round none = none
details_for now draft next_pick_number next_round (some none) = some none
details_for now draft next_pick_number next_round (some (some next_picker)) = some (
    some record {
      current_pick = next_pick_number;
      current_round = next_round;
      current_roster_id = next_picker.roster_id;
      pick_deadline = calculate_pick_deadline now draft none;
      status = in_progress;
    })

unfoldable pub get_next_pick_details :
    ℕ → DraftEngine → Draft → List DraftOrderEntry → Option (Option NextPickDetails)
unfolding details_for is_draft_complete
get_next_pick_details now engine draft draft_order =
    let total_rosters = length draft_order in
    let next_pick_number = suc draft.current_pick in
    if is_draft_complete draft draft.current_pick
    then some none
    else (if ltb (total_rosters * draft.rounds) next_pick_number
        then some none
        else details_for now draft next_pick_number (get_round next_pick_number total_rosters)
            (get_picker_for_pick_number engine draft_order next_pick_number))

abbrev pub completed_state : ℕ → NextPickState
completed_state now = record {
  current_pick = none;
  current_round = none;
  current_roster_id = none;
  original_roster_id = none;
  is_traded = false;
  pick_deadline = none;
  status = completed;
  completed_at = some now;
}

-- `actualPicker?.rosterId ?? originalPicker?.rosterId ?? null`, and its kin
abbrev pub roster_of : Option ActualPickerInfo → Option DraftOrderEntry → Option ℕ
roster_of none none = none
roster_of none (some o) = some o.roster_id
roster_of (some a) original = some a.roster_id

abbrev pub original_of : Option ActualPickerInfo → Option DraftOrderEntry → Option ℕ
original_of none none = none
original_of none (some o) = some o.roster_id
original_of (some a) original = some a.original_roster_id

abbrev pub traded_of : Option ActualPickerInfo → Bool
traded_of none = false
traded_of (some a) = a.is_traded

unfoldable pub picking_state :
    ℕ
    → ℕ
    → ℕ
    → Option (Option ActualPickerInfo)
    → Option (Option DraftOrderEntry)
    → Option NextPickState
picking_state next_pick next_round deadline none original = none
picking_state next_pick next_round deadline (some actual) none = none
picking_state next_pick next_round deadline (some actual) (some original) = some record {
  current_pick = some next_pick;
  current_round = some next_round;
  current_roster_id = roster_of actual original;
  original_roster_id = original_of actual original;
  is_traded = traded_of actual;
  pick_deadline = some deadline;
  status = in_progress;
  completed_at = none;
}

unfoldable pub compute_next_pick_state :
    ℕ
    → Draft
    → List DraftOrderEntry
    → DraftEngine
    → List DraftPickAsset
    → Option ℤ
    → Option NextPickState
unfolding picking_state is_draft_complete calculate_pick_deadline
compute_next_pick_state now draft draft_order engine pick_assets chess_clock_remaining =
    let total_rosters = length draft_order in
    let next_pick = suc draft.current_pick in
    if is_draft_complete draft draft.current_pick
    then some (completed_state now)
    else (if ltb (total_rosters * draft.rounds) next_pick
        then some (completed_state now)
        else picking_state next_pick (get_round next_pick total_rosters)
            (calculate_pick_deadline now draft chess_clock_remaining)
            (get_actual_picker_for_pick_number engine draft_order pick_assets next_pick)
            (get_picker_for_pick_number engine draft_order next_pick))
