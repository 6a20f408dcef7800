-- ===== src/Trades/Lifecycle/UseCases.antt =====
-- Each use case of modules/trades against the status graph, and sequences of them.
use ht_mvp_backend.Prelude.{
  ℕ, ◌≡◌, inl, inr, Bool, true, false, not, Option, none, some, List, any, Bool-cases,
  if◌then◌else◌, sym, refl,
}
use ht_mvp_backend.Trades.{
  TradeStatus, pending, countered, cancelled, is_status, Trade, TradeDb, TradeError, Result,
  and_then, reject_if, find_by_id, update_where, matches, with_status, updated_rows, update_status,
  wrong_status,
}
use ht_mvp_backend.Trades.Resolve.{
  is_active_status, found_or_throw, with_trades, updated_or_same, updated_or_throw, settle_locked,
  admin_locked, counter_locked,
}
use ht_mvp_backend.Trades.Accept.{db_of, Processed, updated_or_skip}
use ht_mvp_backend.Trades.Lifecycle.{
  Moves, is_countered, is_cancelled, Follows, Follows-refl, Follows-trans, is_status_lem,
  conditional-Follows, unconditional-Follows,
}

-- A use case that throws rolls back; one that succeeds commits what it says of the database.
abbrev pub IsKept : {A : Type 0} → (A → Type 0) → Result A → Type 0
IsKept P (inl e) = Unit
IsKept P (inr a) = P a

pub IsKept-reject_if :
    {A : Type 0} (P : A → Type 0) (b : Bool) (e : TradeError) (rest : Result A)
    → (b ≡ false → IsKept P rest)
    → IsKept P (reject_if b e rest)
IsKept-reject_if P true e rest h = tt
IsKept-reject_if P false e rest h = h refl

pub IsKept-and_then :
    {A B : Type 0} (P : B → Type 0) (r : Result A) (f : A → Result B)
    → ((a : A) → r ≡ inr a → IsKept P (f a))
    → IsKept P (and_then r f)
IsKept-and_then P (inl e) f h = tt
IsKept-and_then P (inr a) f h = h a refl

pub IsKept-found :
    {A B : Type 0} (P : B → Type 0) (e : TradeError) (o : Option A) (f : A → Result B)
    → ((a : A) → o ≡ some a → IsKept P (f a))
    → IsKept P (and_then (found_or_throw e o) f)
IsKept-found P e none f h = tt
IsKept-found P e (some a) f h = h a refl

pub IsKept-if :
    {A : Type 0} (P : A → Type 0) (b : Bool) (x y : Result A)
    → IsKept P x
    → (b ≡ false → IsKept P y)
    → IsKept P (if b then x else y)
IsKept-if P true x y hx hy = hx
IsKept-if P false x y hx hy = hy refl

abbrev pub FollowsDb : List Trade → TradeDb → Type 0
FollowsDb trades db = Follows trades db.trades

pub rows-Follows :
    (xs : List Trade) (p : Trade → Bool) (f : Trade → Trade) (ys : List Trade)
    → Follows xs (update_where p f ys)
    → (zs : List Trade) → updated_rows p f ys ≡ some zs
    → Follows xs zs
rows-Follows xs p f ys w zs h = elim (Bool-cases (any p ys)) [
  | inl e ↦
      let here : some (update_where p f ys) ≡ some zs = rw e at h in
      let eq : update_where p f ys ≡ zs = cc in rw (sym eq) w
  | inr e ↦ let stuck : none ≡ some zs = rw e at h in absurd cc
]

pub same-Follows :
    (xs : List Trade) (o : Option (List Trade)) (db : TradeDb)
    → Follows xs db.trades
    → ((zs : List Trade) → o ≡ some zs → Follows xs zs)
    → Follows xs (updated_or_same o db).trades
same-Follows xs none db w h = w
same-Follows xs (some zs) db w h = h zs refl

pub throw-Follows :
    (xs : List Trade) (o : Option (List Trade)) (db : TradeDb)
    → ((zs : List Trade) → o ≡ some zs → Follows xs zs)
    → IsKept (FollowsDb xs) (updated_or_throw o db)
throw-Follows xs none db h = tt
throw-Follows xs (some zs) db h = h zs refl

pub skip-Follows :
    (xs : List Trade) (o : Option (List Trade)) (ys : List Trade) (db : TradeDb)
    (event : TradeDb → Processed)
    → Follows xs ys
    → ((d : TradeDb) → (db_of (event d)).trades ≡ d.trades)
    → ((zs : List Trade) → o ≡ some zs → Follows xs zs)
    → Follows xs (db_of (updated_or_skip o ys db event)).trades
skip-Follows xs none ys db event w k h = w
skip-Follows xs (some zs) ys db event w k h = rw (k (with_trades db zs)) (h zs refl)

-- the conditional updateStatus, on rows that follow the first ones
pub status-Follows :
    (xs ys : List Trade) (trade_id now : ℕ) (expected target : TradeStatus)
    → Follows xs ys
    → Moves expected target
    → (zs : List Trade) → update_status trade_id target (some expected) now ys ≡ some zs
    → Follows xs zs
unfolding update_status
status-Follows xs ys trade_id now expected target w m =
    rows-Follows xs (matches trade_id (some expected)) (with_status target now) ys (
      Follows-trans xs ys _ w (
        conditional-Follows (with_status target now) trade_id expected target ys (λ x. refl)
          (λ x. refl) m))

-- the unconditional one
pub status-Follows-found :
    (trade_id now : ℕ) (target : TradeStatus) (xs : List Trade) (found : Trade)
    → find_by_id trade_id xs ≡ some found
    → Moves found.status target
    → (zs : List Trade) → update_status trade_id target none now xs ≡ some zs
    → Follows xs zs
unfolding update_status
status-Follows-found trade_id now target xs found h m =
    rows-Follows xs (matches trade_id none) (with_status target now) xs
      (unconditional-Follows trade_id now target xs found h m)

pub not-false : (b : Bool) → not b ≡ false → b ≡ true
not-false true h = refl
not-false false h = cc

-- What is committed without the lock follows the graph and does not touch the trade's row.
abbrev pub IsSparing : ℕ → (List Trade → List Trade) → Type 0
IsSparing trade_id meanwhile =
    (xs : List Trade)
    → Follows xs (meanwhile xs)
      × ((t : Trade)
          → find_by_id trade_id xs ≡ some t
          → find_by_id trade_id (meanwhile xs) ≡ some t)

module _ (trade_id now : ℕ) (meanwhile : List Trade → List Trade)
    (sparing : IsSparing trade_id meanwhile) (db : TradeDb) (t : Trade)
    (h : find_by_id trade_id db.trades ≡ some t) where
  unconditional-kept :
      (target : TradeStatus)
      → Moves t.status target
      → FollowsDb db.trades (
          updated_or_same
            (update_status trade_id target none now (meanwhile db.trades))
            (with_trades db (meanwhile db.trades)))
  unconditional-kept target m =
      let first = (sparing db.trades).0 in
      same-Follows db.trades (update_status trade_id target none now (meanwhile db.trades))
        (with_trades db (meanwhile db.trades)) first
        (λ zs e. Follows-trans db.trades (meanwhile db.trades) zs first (
          status-Follows-found trade_id now target (meanwhile db.trades) t
            ((sparing db.trades).1 t h) m zs e))

  pub settle-Follows :
      (target : TradeStatus)
      → Moves pending target
      → IsKept (FollowsDb db.trades) (settle_locked target trade_id now meanwhile db t)
  settle-Follows target m =
      IsKept-if (FollowsDb db.trades) (is_status t.status target) _ _ (Follows-refl db.trades)
        (λ other.
          IsKept-reject_if (FollowsDb db.trades) (not (is_status t.status pending))
            (wrong_status t.status) _
            (λ e.
              let p = is_status_lem t.status pending (not-false (is_status t.status pending) e) in
              unconditional-kept target (rw p m)))

  pub admin-Follows : IsKept (FollowsDb db.trades) (admin_locked trade_id now meanwhile db t)
  admin-Follows =
      IsKept-if (FollowsDb db.trades) (is_status t.status cancelled) _ _ (Follows-refl db.trades)
        (λ other.
          IsKept-reject_if (FollowsDb db.trades) (not (is_active_status t.status))
            (wrong_status t.status) _
            (λ e.
              unconditional-kept cancelled
                (is_cancelled (not-false (is_active_status t.status) e))))

pub counter-Follows :
    (trade_id now : ℕ) (db : TradeDb) (t : Trade)
    → IsKept (FollowsDb db.trades) (counter_locked trade_id now db t)
counter-Follows trade_id now db t =
    IsKept-if (FollowsDb db.trades) (is_status t.status countered) _ _ (Follows-refl db.trades)
      (λ other.
        IsKept-reject_if (FollowsDb db.trades) (not (is_status t.status pending))
          (wrong_status t.status) _
          (λ e.
            throw-Follows db.trades (update_status trade_id countered (some pending) now db.trades)
              db
              (status-Follows db.trades db.trades trade_id now pending countered
                (Follows-refl db.trades) is_countered)))
