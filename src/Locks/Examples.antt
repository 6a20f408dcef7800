-- ===== src/Locks/Examples.antt =====
-- Two accepted trades that share roster 3, the theorems on locks at them.
use ht_mvp_backend.Prelude.{ℕ, ◌+◌, ◌≤◌, ◌≡◌, ◌≢◌, ◌⊎◌, inr, List, [], ◌∷◌, pos, arith, refl}
use ht_mvp_backend.Locks.{
  LockSpec, roster, trade, get_lock_id, with_locks, sort_locks, compare_locks,
}
use ht_mvp_backend.Locks.Ids.{lock_id_of, lock_ids_differ}
use ht_mvp_backend.Locks.Deadlock.{
  Transaction, start, work, Step, Run, here, step, acquire, IsCall, never_deadlocks,
}

abbrev roster_5 : LockSpec
roster_5 = record { domain = roster; id = pos 5 }

abbrev roster_3 : LockSpec
roster_3 = record { domain = roster; id = pos 3 }

abbrev trade_7 : LockSpec
trade_7 = record { domain = trade; id = pos 7 }

abbrev two_trades : List (List LockSpec)
two_trades = (roster_5 ∷ roster_3 ∷ trade_7 ∷ []) ∷ (trade_7 ∷ roster_3 ∷ []) ∷ []

-- the first transaction holds roster 3, on which the second waits
abbrev one_waits : List Transaction
one_waits =
    record { held = 200_000_003 ∷ []; wanted = 200_000_005 ∷ 300_000_007 ∷ [] }
    ∷ record { held = []; wanted = 200_000_003 ∷ 300_000_007 ∷ [] }
    ∷ []

two_trades_lem :
    start two_trades
    ≡ record { held = []; wanted = 200_000_003 ∷ 200_000_005 ∷ 300_000_007 ∷ [] }
      ∷ record { held = []; wanted = 200_000_003 ∷ 300_000_007 ∷ [] }
      ∷ []
unfolding with_locks sort_locks ht_mvp_backend.Prelude.sort compare_locks
    ht_mvp_backend.Prelude.◌-ℤ◌ get_lock_id
two_trades_lem = refl

two_trades-IsCall :
    (IsCall (roster_5 ∷ roster_3 ∷ trade_7 ∷ [])) × ((IsCall (trade_7 ∷ roster_3 ∷ [])) × Unit {0})
two_trades-IsCall = (
  (
    ((refl, omega arith), ((refl, omega arith), ((refl, omega arith), tt))),
    ((omega arith, (omega arith, tt)), ((omega arith, tt), (tt, tt))),
  ),
  ((((refl, omega arith), ((refl, omega arith), tt)), ((omega arith, tt), (tt, tt))), tt),
)

run_one : Run (start two_trades) 1 one_waits
run_one = rw two_trades_lem (
    step here (
      acquire [] (record { held = []; wanted = 200_000_003 ∷ 300_000_007 ∷ [] } ∷ []) [] 200_000_003
        (200_000_005 ∷ 300_000_007 ∷ []) refl))

never_deadlocks_example :
    ((one_waits ≡ []) ⊎ ((t : List Transaction) × Step one_waits t))
    × (1 + work one_waits ≤ work (start two_trades))
never_deadlocks_example = never_deadlocks two_trades 1 one_waits two_trades-IsCall run_one

lock_ids_differ_example :
    (get_lock_id roster (pos 3) ≡ inr (lock_id_of roster_3))
    × (get_lock_id trade (pos 7) ≡ inr (lock_id_of trade_7))
    × (get_lock_id roster (pos 3) ≡ get_lock_id trade (pos 7) → (roster ≡ trade) × (pos 3 ≡ pos 7))
lock_ids_differ_example = lock_ids_differ roster_3 trade_7 (refl, omega arith) (refl, omega arith)
