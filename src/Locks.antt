-- ===== src/Locks.antt =====
-- shared/locks.ts: advisory locks with one global order. An id may be negative before it is tested.
pub mod Ids
pub mod Deadlock
pub mod Examples
use ht_mvp_backend.Prelude.{
  Option, none, some, ℕ, ◌+◌, ◌*◌, ◌-◌, Bool, true, false, not, List, [], ◌∷◌, ◌⊎◌, inl, inr, ℤ,
  pos, negsuc, ◌-ℤ◌, eqb_ℤ, ltb, leb, ◌==◌, sort, if◌then◌else◌,
}

pub data LockDomain : Type 0 where
  league : LockDomain
  roster : LockDomain
  trade : LockDomain
  waiver : LockDomain
  auction : LockDomain
  lineup : LockDomain
  draft : LockDomain
  job : LockDomain
  live_scoring_actual : LockDomain
  live_scoring_projected : LockDomain

-- the enum's numbers
abbrev pub domain_priority : LockDomain → ℕ
domain_priority league = 1
domain_priority roster = 2
domain_priority trade = 3
domain_priority waiver = 4
domain_priority auction = 5
domain_priority lineup = 6
domain_priority draft = 7
domain_priority job = 9
domain_priority live_scoring_actual = 10
domain_priority live_scoring_projected = 11

pub record LockSpec : Type 0 where
  pub domain : LockDomain
  pub id : ℤ

abbrev pub lock_namespace_offset : LockDomain → ℕ
lock_namespace_offset league = 100_000_000
lock_namespace_offset roster = 200_000_000
lock_namespace_offset trade = 300_000_000
lock_namespace_offset waiver = 400_000_000
lock_namespace_offset auction = 500_000_000
lock_namespace_offset lineup = 600_000_000
lock_namespace_offset draft = 700_000_000
lock_namespace_offset job = 900_000_000
lock_namespace_offset live_scoring_actual = 1_000_000_000
lock_namespace_offset live_scoring_projected = 1_100_000_000

-- Number.MAX_SAFE_INTEGER
abbrev pub max_safe_integer : ℕ
max_safe_integer = 9_007_199_254_740_991

abbrev pub max_safe_lock_id : ℕ
max_safe_lock_id = 9_007_198_254_740_991

pub data LockIdError : Type 0 where
  negative : LockIdError
  too_large : LockIdError
  overflow : LockIdError

unfoldable pub get_lock_id : LockDomain → ℤ → LockIdError ⊎ ℕ
get_lock_id domain (negsuc n) = inl negative
get_lock_id domain (pos id) =
    let lock_id = lock_namespace_offset domain + id in
    if ltb max_safe_lock_id id
    then inl too_large
    else (if ltb max_safe_integer lock_id then inl overflow else inr lock_id)

unfoldable pub make_composite_lock_id : ℕ → ℕ → ℕ
make_composite_lock_id league_id week = league_id * 100 + week

unfoldable pub compare_locks : LockSpec → LockSpec → ℤ
compare_locks a b =
    if not (domain_priority a.domain == domain_priority b.domain)
    then pos (domain_priority a.domain) -ℤ pos (domain_priority b.domain)
    else a.id -ℤ b.id

unfoldable pub sort_locks : List LockSpec → List LockSpec
sort_locks locks = sort compare_locks locks

-- The ids that the loop of withLocks takes, in turn, and the error that ends it when an id is refused.
pub record LockRequests : Type 0 where
  pub lock_ids : List ℕ
  pub refused : Option LockIdError

abbrev ask_then : LockIdError ⊎ ℕ → LockRequests → LockRequests
ask_then (inl e) rest = record { lock_ids = []; refused = some e }
ask_then (inr lock_id) rest = record rest { lock_ids = lock_id ∷ rest.lock_ids }

abbrev pub requested : List LockSpec → LockRequests
requested [] = record { lock_ids = []; refused = none }
requested (lock ∷ locks) = ask_then (get_lock_id lock.domain lock.id) (requested locks)

unfoldable pub with_locks : List LockSpec → LockRequests
unfolding sort_locks
with_locks locks = requested (sort_locks locks)
