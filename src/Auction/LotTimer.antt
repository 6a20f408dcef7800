-- ===== src/Auction/LotTimer.antt =====
-- domain/auction/lot-timer.ts. A Date is its time in milliseconds.
pub mod Extension
use ht_mvp_backend.Prelude.{ℕ, ◌+◌, ◌*◌, Bool, Option, none, some, ltb, if◌then◌else◌}

pub record TimerExtensionResult : Type 0 where
  pub should_extend : Bool
  pub new_deadline : ℕ

-- The cap at `maxLotDurationSeconds`, if there is one.
cap_deadline : ℕ → ℕ → Option ℕ → ℕ
cap_deadline new_deadline lot_created_at none = new_deadline
cap_deadline new_deadline lot_created_at (some max_lot_duration_seconds) =
    let max_deadline = lot_created_at + max_lot_duration_seconds * 1000 in
    if ltb max_deadline new_deadline then max_deadline else new_deadline

unfoldable pub compute_extended_deadline : ℕ → ℕ → ℕ → ℕ → Option ℕ → TimerExtensionResult
unfolding cap_deadline
compute_extended_deadline now current_deadline lot_created_at reset_seconds max_duration_seconds =
    let new_deadline =
      cap_deadline (now + reset_seconds * 1000) lot_created_at max_duration_seconds in
    let should_extend = ltb current_deadline new_deadline in
    record {
      should_extend = should_extend;
      new_deadline = if should_extend then new_deadline else current_deadline;
    }
