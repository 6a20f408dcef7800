-- ===== src/Trades/Lifecycle.antt =====
-- The status graph of a trade, and that every use case of modules/trades follows it.
pub mod UseCases
pub mod Review
pub mod Events
use ht_mvp_backend.Prelude.{
  ℕ, zero, suc, ◌+◌, ◌-◌, ◌*◌, ◌≤◌, ◌<◌, ◌≡◌, ◌≢◌, ◌↔◌, ◌⊎◌, inl, inr, Bool, true, false, not,
  Option, none, some, List, [], ◌∷◌, ◌++◌, map, find, any, all, keep, length, All, All-append,
  All-split, get_elem?, take, arith, Bool-cases, Option-cases, ◌==◌, ltb, leb, truthy, HasDistinct,
  if◌then◌else◌, sym, refl, ap, ◌∙◌,
}
use ht_mvp_backend.Rosters.{League}
use ht_mvp_backend.Trades.{
  TradeStatus, pending, countered, accepted, in_review, completed, rejected, cancelled, expired,
  vetoed, failed, status_code, is_status, Trade, FailureReason, TradeDb, TradeError, Result,
  and_then, reject_if, find_by_id, update_where, matches, with_status, with_reason, with_review,
  updated_rows, update_status, update_status_with_reason, set_review_period, Vote,
}
use ht_mvp_backend.Trades.Resolve.{
  is_active_status, found_or_throw, with_trades, updated_or_same, updated_or_throw,
}

-- The graph: an edge for each change of status that the module means to make.
pub data Moves : TradeStatus → TradeStatus → Type 0 where
  is_countered : Moves pending countered
  is_rejected : Moves pending rejected
  is_cancelled : {s : TradeStatus} → is_active_status s ≡ true → Moves s cancelled
  is_expired : {s : TradeStatus} → is_active_status s ≡ true → Moves s expired
  starts_review : Moves pending in_review
  completes : Moves pending TradeStatus.completed
  completes_review : Moves in_review TradeStatus.completed
  is_vetoed : Moves in_review vetoed
  fails : Moves in_review TradeStatus.failed

-- a trade's row, and what becomes of it along edges of the graph
pub data Progress (t : Trade) : Trade → Type 0 where
  same : Progress t t
  moved : {u v : Trade} → Progress t u → Moves u.status v.status → Progress t v

pub Progress-trans : {t u v : Trade} → Progress t u → Progress u v → Progress t v
Progress-trans p same = p
Progress-trans p (moved q m) = moved (Progress-trans p q) m

-- Every trade is still there, and it has only moved along the graph.
abbrev pub Follows : List Trade → List Trade → Type 0
Follows trades trades' =
    (trade_id : ℕ) (t : Trade)
    → find_by_id trade_id trades ≡ some t
    → (u : Trade) × ((find_by_id trade_id trades' ≡ some u) × Progress t u)

pub Follows-refl : (trades : List Trade) → Follows trades trades
Follows-refl trades trade_id t h = (t, (h, same))

pub Follows-trans : (xs ys zs : List Trade) → Follows xs ys → Follows ys zs → Follows xs zs
Follows-trans xs ys zs f g trade_id t h =
    let first = f trade_id t h in
    let second = g trade_id first.0 first.1.0 in
    (second.0, (second.1.0, Progress-trans first.1.1 second.1.1))

status_at : ℕ → TradeStatus
status_at n =
    if n == 0
    then pending
    else (if n == 1
        then countered
        else (if n == 2
            then accepted
            else (if n == 3
                then in_review
                else (if n == 4
                    then TradeStatus.completed
                    else (if n == 5
                        then rejected
                        else (if n == 6
                            then cancelled
                            else (if n == 7
                                then expired
                                else (if n == 8 then vetoed else TradeStatus.failed))))))))

status_at-status_code : (s : TradeStatus) → status_at (status_code s) ≡ s
unfolding status_at
status_at-status_code pending = refl
status_at-status_code countered = refl
status_at-status_code accepted = refl
status_at-status_code in_review = refl
status_at-status_code TradeStatus.completed = refl
status_at-status_code rejected = refl
status_at-status_code cancelled = refl
status_at-status_code expired = refl
status_at-status_code vetoed = refl
status_at-status_code TradeStatus.failed = refl

pub is_status_lem : (a b : TradeStatus) → is_status a b ≡ true → a ≡ b
is_status_lem a b h =
    let codes : status_code a ≡ status_code b = ground arith in
    sym (status_at-status_code a) ∙ ap status_at codes ∙ status_at-status_code b

pub found_id :
    (trade_id : ℕ) (trades : List Trade) (t : Trade)
    → find_by_id trade_id trades ≡ some t
    → t.id ≡ trade_id
found_id trade_id [] t h = absurd cc
found_id trade_id (x ∷ xs) t h = elim (Bool-cases (x.id == trade_id)) [
  | inl e ↦
      let here : some x ≡ some t = rw e at h in let eq : x ≡ t = cc in rw (sym eq) (ground arith)
  | inr e ↦ let there : find_by_id trade_id xs ≡ some t = rw e at h in found_id trade_id xs t there
]

abbrev pub updated : (Trade → Bool) → (Trade → Trade) → Trade → Trade
updated p f t = if p t then f t else t

updated_id :
    (p : Trade → Bool) (f : Trade → Trade)
    → ((t : Trade) → (f t).id ≡ t.id)
    → (t : Trade) → (updated p f t).id ≡ t.id
updated_id p f k t = elim (Bool-cases (p t)) [ inl e ↦ rw e (k t) | inr e ↦ rw e refl ]

pub find-update_where :
    (p : Trade → Bool) (f : Trade → Trade) (trade_id : ℕ) (trades : List Trade) (t : Trade)
    → ((x : Trade) → (f x).id ≡ x.id)
    → find_by_id trade_id trades ≡ some t
    → find_by_id trade_id (update_where p f trades) ≡ some (updated p f t)
find-update_where p f trade_id [] t k h = absurd cc
find-update_where p f trade_id (x ∷ xs) t k h = elim (Bool-cases (x.id == trade_id)) [
  | inl e ↦
      let here : some x ≡ some t = rw e at h in
      let eq : x ≡ t = cc in rw (updated_id p f k x, e, eq) refl
  | inr e ↦
      let there : find_by_id trade_id xs ≡ some t = rw e at h in
      rw (updated_id p f k x, e) (find-update_where p f trade_id xs t k there)
]

module _ (p : Trade → Bool) (f : Trade → Trade) (k : (x : Trade) → (f x).id ≡ x.id) where
  update_where-Follows :
      (trades : List Trade)
      → ((trade_id : ℕ) (t : Trade)
          → find_by_id trade_id trades ≡ some t
          → p t ≡ true
          → Moves t.status (f t).status)
      → Follows trades (update_where p f trades)
  update_where-Follows trades m trade_id t h =
      (updated p f t, (find-update_where p f trade_id trades t k h, step))
    where
      step : Progress t (updated p f t)
      step = elim (Bool-cases (p t)) [
        | inl e ↦ rw e (moved same (m trade_id t h e))
        | inr e ↦ rw e same
      ]

matches_status :
    (trade_id : ℕ) (expected : TradeStatus) (t : Trade)
    → matches trade_id (some expected) t ≡ true
    → t.status ≡ expected
matches_status trade_id expected t h = elim (Bool-cases (t.id == trade_id)) [
  | inl e ↦
      let s : is_status t.status expected ≡ true = rw e at h in is_status_lem t.status expected s
  | inr e ↦ let stuck : false ≡ true = rw e at h in absurd cc
]

pub conditional-Follows :
    (f : Trade → Trade) (trade_id : ℕ) (expected target : TradeStatus) (trades : List Trade)
    → ((x : Trade) → (f x).id ≡ x.id)
    → ((x : Trade) → (f x).status ≡ target)
    → Moves expected target
    → Follows trades (update_where (matches trade_id (some expected)) f trades)
conditional-Follows f trade_id expected target trades k s m =
    update_where-Follows (matches trade_id (some expected)) f k trades
      (λ i t h e. rw (s t, matches_status trade_id expected t e) m)

-- the unconditional update of a trade that was found active
pub unconditional-Follows :
    (trade_id now : ℕ) (target : TradeStatus) (trades : List Trade) (found : Trade)
    → find_by_id trade_id trades ≡ some found
    → Moves found.status target
    → Follows trades (update_where (matches trade_id none) (with_status target now) trades)
unconditional-Follows trade_id now target trades found h m =
    update_where-Follows (matches trade_id none) (with_status target now) (λ x. refl) trades
      (λ i t g e.
        let here = found_id i trades t g in
        let at_i : t.id ≡ trade_id = ground arith in
        let ids : i ≡ trade_id = sym here ∙ at_i in
        let both : some t ≡ some found = sym (rw ids at g) ∙ h in
        let eq : t ≡ found = cc in rw eq m)
