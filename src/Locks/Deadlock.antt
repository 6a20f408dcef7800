-- ===== src/Locks/Deadlock.antt =====
-- Transactions that each make one withLocks call (shared/locks.ts) run side by side: PostgreSQL grants a
-- lock that no other transaction holds, and releases a transaction's locks when it ends.
use ht_mvp_backend.Prelude.{
  ℕ, suc, ◌+◌, ◌≤◌, ◌<◌, ◌≡◌, ◌⊎◌, inl, inr, refl, false, List, [], ◌∷◌, ◌++◌, length, arith, All,
  All-replace, All-remove, any, HasDistinct, Bool-cases, ltb, ◌==◌, if◌then◌else◌,
}
use ht_mvp_backend.Locks.{LockSpec, with_locks}
use ht_mvp_backend.Locks.Ids.{
  IsInNamespace, lock_id_of, IsAscending, sort_locks-IsAscending, with_locks_lem,
}

pub record Transaction : Type 0 where
  pub held : List ℕ
  pub wanted : List ℕ

-- A call whose locks are not all granted an id takes those before the refused one, throws, and ends.
abbrev pub start : List (List LockSpec) → List Transaction
start [] = []
start (locks ∷ calls) = record { held = []; wanted = (with_locks locks).lock_ids } ∷ start calls

-- how many of the transactions hold the lock
abbrev pub holders : ℕ → List Transaction → ℕ
holders n [] = 0
holders n (t ∷ ts) = (if any (λ h. h == n) t.held then 1 else 0) + holders n ts

pub data Step : List Transaction → List Transaction → Type 0 where
  acquire :
      (before after : List Transaction) (held : List ℕ) (n : ℕ) (wanted : List ℕ)
      → holders n (before ++ after) ≡ 0
      → Step
          (before ++ record { held = held; wanted = n ∷ wanted } ∷ after)
          (before ++ record { held = n ∷ held; wanted = wanted } ∷ after)
  commit :
      (before after : List Transaction) (held : List ℕ)
      → Step (before ++ record { held = held; wanted = [] } ∷ after) (before ++ after)

-- A run: steps, and transactions that give up (a LockTimeoutError rolls back).
pub data Run (s : List Transaction) : ℕ → List Transaction → Type 0 where
  here : Run s 0 s
  step : {n : ℕ} {t u : List Transaction} → Run s n t → Step t u → Run s (suc n) u
  time_out :
      {n : ℕ} (before : List Transaction) (t : Transaction) (after : List Transaction)
      → Run s n (before ++ t ∷ after)
      → Run s (suc n) (before ++ after)

-- What is left to do: a step for each lock still wanted, and one to end.
abbrev pub work : List Transaction → ℕ
work [] = 0
work (t ∷ ts) = suc (length t.wanted) + work ts

abbrev pub IsReady : Transaction → Type 0
IsReady t = All (λ h. All (λ w. h < w) t.wanted) t.held × IsAscending t.wanted

work-append : (xs ys : List Transaction) → work (xs ++ ys) ≡ work xs + work ys
work-append [] ys = omega arith
work-append (x ∷ xs) ys = omega (arith, work-append xs ys)

drop_wanted :
    (held : List ℕ) (n : ℕ) (wanted : List ℕ)
    → All (λ h. All (λ w. h < w) (n ∷ wanted)) held
    → All (λ h. All (λ w. h < w) wanted) held
drop_wanted [] n wanted h = tt
drop_wanted (k ∷ held) n wanted h = (h.0.1, drop_wanted held n wanted h.1)

Step-IsReady : {s t : List Transaction} → Step s t → All IsReady s → All IsReady t
Step-IsReady (acquire before after held n wanted free) h =
    All-replace IsReady before after (record { held = held; wanted = n ∷ wanted })
      (record { held = n ∷ held; wanted = wanted })
      (λ r. ((r.1.0, drop_wanted held n wanted r.0), r.1.1)) h
Step-IsReady (commit before after held) h =
    All-remove IsReady before after (record { held = held; wanted = [] }) h

Run-IsReady : {s t : List Transaction} {n : ℕ} → All IsReady s → Run s n t → All IsReady t
Run-IsReady h here = h
Run-IsReady h (step r st) = Step-IsReady st (Run-IsReady h r)
Run-IsReady h (time_out before t after r) = All-remove IsReady before after t (Run-IsReady h r)

Step-work : {s t : List Transaction} → Step s t → work s ≡ suc (work t)
Step-work (acquire before after held n wanted free) = omega (
  arith,
  work-append before (record { held = held; wanted = n ∷ wanted } ∷ after),
  work-append before (record { held = n ∷ held; wanted = wanted } ∷ after),
)
Step-work (commit before after held) = omega (
  arith,
  work-append before (record { held = held; wanted = [] } ∷ after),
  work-append before after,
)

Run-work : {s t : List Transaction} {n : ℕ} → Run s n t → n + work t ≤ work s
Run-work here = omega arith
Run-work (step r st) = omega (arith, Run-work r, Step-work st)
Run-work (time_out before t after r) =
    omega (arith, Run-work r, work-append before (t ∷ after), work-append before after)

not_held_below : (n : ℕ) (held : List ℕ) → All (λ h. h < n) held → any (λ h. h == n) held ≡ false
not_held_below n [] a = refl
not_held_below n (h ∷ held) a = let lt = a.0 in let rest = not_held_below n held a.1 in ground arith

no_holders :
    (n : ℕ) (ts : List Transaction) → All (λ t. All (λ h. h < n) t.held) ts → holders n ts ≡ 0
no_holders n [] a = refl
no_holders n (t ∷ ts) a = rw (not_held_below n t.held a.0, no_holders n ts a.1) refl

below_weaken : (n m : ℕ) (held : List ℕ) → n ≤ m → All (λ h. h < n) held → All (λ h. h < m) held
below_weaken n m [] le a = tt
below_weaken n m (h ∷ held) le a = (omega arith, below_weaken n m held le a.1)

All-below_weaken :
    (n m : ℕ) (ts : List Transaction)
    → n ≤ m
    → All (λ t. All (λ h. h < n) t.held) ts
    → All (λ t. All (λ h. h < m) t.held) ts
All-below_weaken n m [] le a = tt
All-below_weaken n m (t ∷ ts) le a =
    (below_weaken n m t.held le a.0, All-below_weaken n m ts le a.1)

-- Some transaction can end, or the largest of the next locks is above every lock held.
data Leader : List Transaction → Type 0 where
  ends :
      (before after : List Transaction) (held : List ℕ)
      → Leader (before ++ record { held = held; wanted = [] } ∷ after)
  leads :
      (before after : List Transaction) (held : List ℕ) (n : ℕ) (wanted : List ℕ)
      → All
          (λ t. All (λ h. h < n) t.held)
          (before ++ record { held = held; wanted = n ∷ wanted } ∷ after)
      → Leader (before ++ record { held = held; wanted = n ∷ wanted } ∷ after)

held_below_next :
    (held : List ℕ) (n : ℕ) (wanted : List ℕ)
    → All (λ h. All (λ w. h < w) (n ∷ wanted)) held
    → All (λ h. h < n) held
held_below_next [] n wanted a = tt
held_below_next (h ∷ held) n wanted a = (a.0.0, held_below_next held n wanted a.1)

join-Leader :
    (t : List ℕ) (m : ℕ) (ms : List ℕ) {s : List Transaction}
    → All (λ h. h < m) t
    → Leader s
    → Leader (record { held = t; wanted = m ∷ ms } ∷ s)
join-Leader t m ms below (ends before after held) =
    ends (record { held = t; wanted = m ∷ ms } ∷ before) after held
join-Leader t m ms below (leads before after held n wanted a) = elim (Bool-cases (ltb n m)) [
  | inl lt ↦ leads [] _ t m ms (below, All-below_weaken n m _ (ground arith) a)
  | inr ge ↦
      leads (record { held = t; wanted = m ∷ ms } ∷ before) after held n wanted
        (below_weaken m n t (ground arith) below, a)
]

leader :
    (held wanted : List ℕ) (s : List Transaction)
    → All IsReady (record { held = held; wanted = wanted } ∷ s)
    → Leader (record { held = held; wanted = wanted } ∷ s)
leader held [] s r = ends [] s held
leader held (m ∷ ms) [] r = leads [] [] held m ms (held_below_next held m ms r.0.0, tt)
leader held (m ∷ ms) (u ∷ s) r =
    join-Leader held m ms (held_below_next held m ms r.0.0) (leader u.held u.wanted s r.1)

Leader-step : {s : List Transaction} → Leader s → (t : List Transaction) × Step s t
Leader-step (ends before after held) = (before ++ after, commit before after held)
Leader-step (leads before after held n wanted a) = (
  before ++ record { held = n ∷ held; wanted = wanted } ∷ after,
  acquire before after held n wanted (
      no_holders n (before ++ after) (
        All-remove (λ t. All (λ h. h < n) t.held) before after
          (record { held = held; wanted = n ∷ wanted }) a)),
)

progress : (s : List Transaction) → All IsReady s → (s ≡ []) ⊎ ((t : List Transaction) × Step s t)
progress [] r = inl refl
progress (t ∷ s) r = inr (Leader-step (leader t.held t.wanted s r))

fresh-IsReady : (ids : List ℕ) → IsAscending ids → IsReady (record { held = []; wanted = ids })
fresh-IsReady ids a = (tt, a)

-- One withLocks call: its locks are in their namespaces, and none is named twice.
abbrev pub IsCall : List LockSpec → Type 0
IsCall locks = All IsInNamespace locks × HasDistinct lock_id_of locks

start-IsReady : (calls : List (List LockSpec)) → All IsCall calls → All IsReady (start calls)
start-IsReady [] h = tt
start-IsReady (locks ∷ calls) h =
    rw (with_locks_lem locks h.0.0)
      ((tt, sort_locks-IsAscending locks h.0.0 h.0.1), start-IsReady calls h.1)

-- Transactions that each make one withLocks call never deadlock, however they interleave: after any run
-- of n steps, every transaction has ended or some transaction can acquire its next lock or end; and n plus
-- the work left is at most the work at the start, so that no run goes on for ever. (A call's locks are in
-- their namespaces and it names none twice.)
pub never_deadlocks :
    (calls : List (List LockSpec)) (n : ℕ) (s : List Transaction)
    → All IsCall calls
    → Run (start calls) n s
    → ((s ≡ []) ⊎ ((t : List Transaction) × Step s t)) × (n + work s ≤ work (start calls))
never_deadlocks calls n s h r = (progress s (Run-IsReady (start-IsReady calls h) r), Run-work r)
