-- ===== src/Locks/Ids.antt =====
-- Within 100 million ids a domain, lock ids are different and follow the order in which they are taken.
use ht_mvp_backend.Prelude.{
  none, ℕ, ◌+◌, ◌*◌, ◌≤◌, ◌<◌, ◌≡◌, ◌≢◌, inl, inr, refl, true, false, List, [], ◌∷◌, map, pos, ◌-ℤ◌,
  arith, All, sort, before, HasDistinct, Bool-cases, ap, sym, ◌∙◌, ◌==◌, if◌then◌else◌, pos_part,
  insert_by,
}
use ht_mvp_backend.Locks.{
  LockDomain, league, roster, trade, waiver, auction, lineup, draft, job, live_scoring_actual,
  live_scoring_projected, LockSpec, domain_priority, lock_namespace_offset, get_lock_id,
  compare_locks, sort_locks, with_locks, requested, make_composite_lock_id,
}

-- What a domain's namespace has room for.
abbrev pub IsInNamespace : LockSpec → Type 0
IsInNamespace s = (s.id ≡ pos (pos_part s.id)) × (pos_part s.id < 100_000_000)

abbrev pub lock_id_of : LockSpec → ℕ
lock_id_of s = lock_namespace_offset s.domain + pos_part s.id

offset_lem :
    (d : LockDomain)
    → (lock_namespace_offset d ≡ domain_priority d * 100_000_000) × (domain_priority d ≤ 11)
offset_lem league = (refl, omega arith)
offset_lem roster = (refl, omega arith)
offset_lem trade = (refl, omega arith)
offset_lem waiver = (refl, omega arith)
offset_lem auction = (refl, omega arith)
offset_lem lineup = (refl, omega arith)
offset_lem draft = (refl, omega arith)
offset_lem job = (refl, omega arith)
offset_lem live_scoring_actual = (refl, omega arith)
offset_lem live_scoring_projected = (refl, omega arith)

abbrev domain_at : ℕ → LockDomain
domain_at n =
    if n == 1
    then league
    else (if n == 2
        then roster
        else (if n == 3
            then trade
            else (if n == 4
                then waiver
                else (if n == 5
                    then auction
                    else (if n == 6
                        then lineup
                        else (if n == 7
                            then draft
                            else (if n == 9
                                then job
                                else (if n == 10
                                    then live_scoring_actual
                                    else live_scoring_projected))))))))

domain_at_priority : (d : LockDomain) → domain_at (domain_priority d) ≡ d
domain_at_priority league = refl
domain_at_priority roster = refl
domain_at_priority trade = refl
domain_at_priority waiver = refl
domain_at_priority auction = refl
domain_at_priority lineup = refl
domain_at_priority draft = refl
domain_at_priority job = refl
domain_at_priority live_scoring_actual = refl
domain_at_priority live_scoring_projected = refl

granted :
    (d : LockDomain) (n : ℕ)
    → n < 100_000_000
    → get_lock_id d (pos n) ≡ inr (lock_namespace_offset d + n)
unfolding get_lock_id
granted d n h = let f = offset_lem d in let f0 = f.0 in let f1 = f.1 in ground arith

pub granted_id : (a : LockSpec) → IsInNamespace a → get_lock_id a.domain a.id ≡ inr (lock_id_of a)
granted_id a h = ap (get_lock_id a.domain) h.0 ∙ granted a.domain (pos_part a.id) h.1

same_lock :
    (a b : LockSpec)
    → IsInNamespace a
    → IsInNamespace b
    → lock_id_of a ≡ lock_id_of b
    → (a.domain ≡ b.domain) × (a.id ≡ b.id)
same_lock a b ha hb e =
    let fa = offset_lem a.domain in
    let fb = offset_lem b.domain in
    let priorities : domain_priority a.domain ≡ domain_priority b.domain =
      omega (arith, fa.0, fb.0, ha.1, hb.1) in
    let domains =
      sym (domain_at_priority a.domain) ∙ ap domain_at priorities ∙ domain_at_priority b.domain in
    let ids : pos_part a.id ≡ pos_part b.id = omega (arith, fa.0, fb.0, ha.1, hb.1) in
    (domains, ha.0 ∙ ap pos ids ∙ sym hb.0)

-- Of two lock specifications whose ids are below 100 million and not negative, both are granted an id,
-- and it is the same id only if they are the same lock.
pub lock_ids_differ :
    (a b : LockSpec)
    → IsInNamespace a
    → IsInNamespace b
    → (get_lock_id a.domain a.id ≡ inr (lock_id_of a))
      × (get_lock_id b.domain b.id ≡ inr (lock_id_of b))
      × (get_lock_id a.domain a.id ≡ get_lock_id b.domain b.id
          → (a.domain ≡ b.domain) × (a.id ≡ b.id))
lock_ids_differ a b ha hb = (
  granted_id a ha,
  granted_id b hb,
  λ e.
      let ids : inr (lock_id_of a) ≡ inr (lock_id_of b) =
        sym (granted_id a ha) ∙ e ∙ granted_id b hb in
      same_lock a b ha hb cc,
)

-- The lock ids of two different leagues or weeks, with weeks below 100, are different.
composite_ids_differ :
    (league_id week league_id' week' : ℕ)
    → week < 100
    → week' < 100
    → make_composite_lock_id league_id week ≡ make_composite_lock_id league_id' week'
    → (league_id ≡ league_id') × (week ≡ week')
unfolding make_composite_lock_id
composite_ids_differ league_id week league_id' week' h h' e = (omega arith, omega arith)

before_le :
    (a b : LockSpec)
    → IsInNamespace a
    → IsInNamespace b
    → (before compare_locks a b ≡ true → lock_id_of a ≤ lock_id_of b)
      × (before compare_locks a b ≡ false → lock_id_of b ≤ lock_id_of a)
unfolding compare_locks ◌-ℤ◌
before_le a b ha hb =
    let fa = (offset_lem a.domain).0 in
    let fb = (offset_lem b.domain).0 in
    let ia = ha.0 in let ib = hb.0 in let ra = ha.1 in let rb = hb.1 in ground arith

-- Every id is smaller than those after it.
abbrev pub IsAscending : List ℕ → Type 0
IsAscending [] = Unit
IsAscending (n ∷ ns) = All (λ m. n < m) ns × IsAscending ns

abbrev pub lock_ids_of : List LockSpec → List ℕ
lock_ids_of ls = map lock_id_of ls

All-insert :
    (P : ℕ → Type 0) (a : LockSpec) (ls : List LockSpec)
    → P (lock_id_of a)
    → All P (lock_ids_of ls)
    → All P (lock_ids_of (insert_by compare_locks a ls))
unfolding insert_by
All-insert P a [] p h = (p, tt)
All-insert P a (b ∷ ls) p h = elim (Bool-cases (before compare_locks a b)) [
  | inl e ↦ rw e (p, h)
  | inr e ↦ rw e (h.0, All-insert P a ls p h.1)
]

All-sort :
    (P : ℕ → Type 0) (ls : List LockSpec)
    → All P (lock_ids_of ls)
    → All P (lock_ids_of (sort_locks ls))
unfolding sort_locks sort
All-sort P [] h = tt
All-sort P (a ∷ ls) h = All-insert P a (sort compare_locks ls) h.0 (All-sort P ls h.1)

All-weaken : (n m : ℕ) (ns : List ℕ) → n ≤ m → All (λ k. m < k) ns → All (λ k. n < k) ns
All-weaken n m [] h a = tt
All-weaken n m (k ∷ ns) h a = (omega arith, All-weaken n m ns h a.1)

insert-IsAscending :
    (a : LockSpec) (ls : List LockSpec)
    → IsInNamespace a
    → All IsInNamespace ls
    → All (λ k. lock_id_of a ≢ k) (lock_ids_of ls)
    → IsAscending (lock_ids_of ls)
    → IsAscending (lock_ids_of (insert_by compare_locks a ls))
unfolding insert_by
insert-IsAscending a [] na ns d asc = (tt, tt)
insert-IsAscending a (b ∷ ls) na ns d asc =
    let order = before_le a b na ns.0 in
    elim (Bool-cases (before compare_locks a b)) [
      | inl e ↦
          let le = order.0 e in
          rw e
            ((omega arith, All-weaken (lock_id_of a) (lock_id_of b) (lock_ids_of ls) le asc.0), asc)
      | inr e ↦
          let le = order.1 e in
          rw e (
            All-insert (λ k. lock_id_of b < k) a ls (omega arith) asc.0,
            insert-IsAscending a ls na ns.1 d.1 asc.1,
          )
    ]

insert-IsInNamespace :
    (a : LockSpec) (ls : List LockSpec)
    → IsInNamespace a
    → All IsInNamespace ls
    → All IsInNamespace (insert_by compare_locks a ls)
unfolding insert_by
insert-IsInNamespace a [] na ns = (na, tt)
insert-IsInNamespace a (b ∷ ls) na ns = elim (Bool-cases (before compare_locks a b)) [
  | inl e ↦ rw e (na, ns)
  | inr e ↦ rw e (ns.0, insert-IsInNamespace a ls na ns.1)
]

pub sort_locks-IsInNamespace :
    (ls : List LockSpec) → All IsInNamespace ls → All IsInNamespace (sort_locks ls)
unfolding sort_locks sort
sort_locks-IsInNamespace [] ns = tt
sort_locks-IsInNamespace (a ∷ ls) ns =
    insert-IsInNamespace a (sort compare_locks ls) ns.0 (sort_locks-IsInNamespace ls ns.1)

All-lock_ids_of :
    (P : ℕ → Type 0) (ls : List LockSpec) → All (λ s. P (lock_id_of s)) ls → All P (lock_ids_of ls)
All-lock_ids_of P [] h = tt
All-lock_ids_of P (a ∷ ls) h = (h.0, All-lock_ids_of P ls h.1)

pub sort_locks-IsAscending :
    (ls : List LockSpec)
    → All IsInNamespace ls
    → HasDistinct lock_id_of ls
    → IsAscending (lock_ids_of (sort_locks ls))
unfolding sort_locks sort
sort_locks-IsAscending [] ns d = tt
sort_locks-IsAscending (a ∷ ls) ns d =
    let apart = All-lock_ids_of (λ k. lock_id_of a ≢ k) ls d.0 in
    insert-IsAscending a (sort compare_locks ls) ns.0 (sort_locks-IsInNamespace ls ns.1)
      (All-sort (λ k. lock_id_of a ≢ k) ls apart) (sort_locks-IsAscending ls ns.1 d.1)

requested_lem :
    (ls : List LockSpec)
    → All IsInNamespace ls
    → requested ls ≡ record { lock_ids = lock_ids_of ls; refused = none }
requested_lem [] ns = refl
requested_lem (a ∷ ls) ns = rw (granted_id a ns.0, requested_lem ls ns.1) refl

pub with_locks_lem :
    (ls : List LockSpec)
    → All IsInNamespace ls
    → with_locks ls ≡ record { lock_ids = lock_ids_of (sort_locks ls); refused = none }
unfolding with_locks
with_locks_lem ls ns = requested_lem (sort_locks ls) (sort_locks-IsInNamespace ls ns)
