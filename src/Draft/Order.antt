-- ===== src/Draft/Order.antt =====
-- engines/base-draft.engine.ts, snake-draft.engine.ts and linear-draft.engine.ts: the roster of each
-- pick. Picks and rounds count from 1; a call that throws is none, `undefined` is an inner none.
pub mod Rounds
use ht_mvp_backend.Prelude.{
  ℕ, zero, suc, ◌+◌, ◌-◌, ◌*◌, ◌/◌, ◌%◌, Bool, true, false, not, ◌&&◌, Option, none, some, List, [],
  ◌∷◌, length, find, ltb, leb, ◌==◌, if◌then◌else◌,
}

pub record DraftOrderEntry : Type 0 where
  pub roster_id : ℕ
  pub draft_position : ℕ

pub record DraftPickAsset : Type 0 where
  pub round : ℕ
  pub original_roster_id : ℕ
  pub current_owner_roster_id : ℕ

pub record ActualPickerInfo : Type 0 where
  pub roster_id : ℕ
  pub original_roster_id : ℕ
  pub is_traded : Bool

-- the two engines that inherit from BaseDraftEngine
pub data DraftEngine : Type 0 where
  snake : DraftEngine
  linear : DraftEngine

unfoldable pub get_pick_in_round : ℕ → ℕ → ℕ
get_pick_in_round pick_number total_rosters = (pick_number - 1) % total_rosters + 1

-- Math.ceil(pickNumber / totalRosters)
unfoldable pub get_round : ℕ → ℕ → ℕ
get_round pick_number total_rosters =
    if pick_number % total_rosters == 0
    then pick_number / total_rosters
    else suc (pick_number / total_rosters)

-- every entry stands at a higher position than the one before it
abbrev pub increasing_from : ℕ → List DraftOrderEntry → Bool
increasing_from p [] = true
increasing_from p (o ∷ os) =
    if ltb p o.draft_position then increasing_from o.draft_position os else false

abbrev pub is_sorted : List DraftOrderEntry → Bool
is_sorted [] = true
is_sorted (o ∷ os) = increasing_from o.draft_position os

-- draftOrder.find((o) => o.draftPosition === position)
abbrev pub at_position : ℕ → List DraftOrderEntry → Option DraftOrderEntry
at_position position draft_order = find (λ o. o.draft_position == position) draft_order

-- the position in the order that picks at a pick number
unfoldable pub pick_position : DraftEngine → ℕ → ℕ → ℕ
unfolding get_pick_in_round get_round
pick_position linear total_rosters pick_number = get_pick_in_round pick_number total_rosters
pick_position snake total_rosters pick_number =
    let pick_in_round = get_pick_in_round pick_number total_rosters in
    if get_round pick_number total_rosters % 2 == 0
    then total_rosters - pick_in_round + 1
    else pick_in_round

unfoldable pub get_picker_for_pick_number :
    DraftEngine → List DraftOrderEntry → ℕ → Option (Option DraftOrderEntry)
unfolding pick_position
get_picker_for_pick_number engine draft_order pick_number =
    if is_sorted draft_order
    then some (at_position (pick_position engine (length draft_order) pick_number) draft_order)
    else none

abbrev pub is_empty {ℓ} : {A : Type ℓ} → List A → Bool
is_empty [] = true
is_empty (x ∷ xs) = false

abbrev pub untraded : DraftOrderEntry → ActualPickerInfo
untraded original_picker = record {
  roster_id = original_picker.roster_id;
  original_roster_id = original_picker.roster_id;
  is_traded = false;
}

abbrev pub find_asset : ℕ → ℕ → List DraftPickAsset → Option DraftPickAsset
find_asset round roster_id pick_assets =
    find (λ a. (a.round == round) && (a.original_roster_id == roster_id)) pick_assets

unfoldable pub owner_of : DraftOrderEntry → Option DraftPickAsset → ActualPickerInfo
owner_of original_picker none = untraded original_picker
owner_of original_picker (some asset) = record {
  roster_id = asset.current_owner_roster_id;
  original_roster_id = original_picker.roster_id;
  is_traded = not (asset.current_owner_roster_id == original_picker.roster_id);
}

unfoldable pub actual_picker :
    List DraftPickAsset → ℕ → Option DraftOrderEntry → Option ActualPickerInfo
unfolding owner_of
actual_picker pick_assets round none = none
actual_picker pick_assets round (some original_picker) = some (
    if is_empty pick_assets
    then untraded original_picker
    else owner_of original_picker (find_asset round original_picker.roster_id pick_assets))

unfoldable pub resolve_owner :
    List DraftPickAsset → ℕ → Option (Option DraftOrderEntry) → Option (Option ActualPickerInfo)
resolve_owner pick_assets round none = none
resolve_owner pick_assets round (some picker) = some (actual_picker pick_assets round picker)

unfoldable pub get_actual_picker_for_pick_number :
    DraftEngine → List DraftOrderEntry → List DraftPickAsset → ℕ → Option (Option ActualPickerInfo)
unfolding resolve_owner
get_actual_picker_for_pick_number engine draft_order pick_assets pick_number =
    resolve_owner pick_assets (get_round pick_number (length draft_order))
      (get_picker_for_pick_number engine draft_order pick_number)
