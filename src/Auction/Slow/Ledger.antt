-- ===== src/Auction/Slow/Ledger.antt =====
-- The rows of the lots' table as a ledger: what an update of one row does to a sum over a draft.
use ht_mvp_backend.Prelude.{
  ℕ, suc, ◌+◌, ◌<◌, ◌≡◌, ◌≢◌, refl, ap, some, List, [], ◌∷◌, ◌++◌, ◌==◌, if◌then◌else◌, All, arith,
  Bool-cases, inl, inr, ==_iff,
}
use ht_mvp_backend.Auction.Slow.{AuctionLot}
use ht_mvp_backend.Auction.Slow.Rows.{find_lot, update_lot, sum_lots}

abbrev pub ids : List AuctionLot → List ℕ
ids [] = []
ids (l ∷ ls) = l.id ∷ ids ls

abbrev pub Distinct : List ℕ → Type 0
Distinct [] = Unit {0}
Distinct (i ∷ is) = All (λ j. i ≢ j) is × Distinct is

-- What a lot adds to the sum over draft `d`.
abbrev pub share : ℕ → (AuctionLot → ℕ) → AuctionLot → ℕ
share d f l = if l.draft_id == d then f l else 0

pub ids-update :
    (id : ℕ) (g : AuctionLot → AuctionLot) (ls : List AuctionLot)
    → ((l : AuctionLot) → (g l).id ≡ l.id)
    → ids (update_lot id g ls) ≡ ids ls
ids-update id g [] keep = refl
ids-update id g (l ∷ ls) keep = ground (arith, ids-update id g ls keep, keep l)

update_absent :
    (id : ℕ) (g : AuctionLot → AuctionLot) (ls : List AuctionLot)
    → All (λ j. id ≢ j) (ids ls)
    → update_lot id g ls ≡ ls
update_absent id g [] h = refl
update_absent id g (l ∷ ls) h = ground (arith, update_absent id g ls h.1)

-- One row changes, so the sum changes by what that row adds.
pub sum-update :
    (d id : ℕ) (f : AuctionLot → ℕ) (g : AuctionLot → AuctionLot) (ls : List AuctionLot)
    (lot : AuctionLot)
    → Distinct (ids ls)
    → find_lot id ls ≡ some lot
    → sum_lots d f (update_lot id g ls) + share d f lot ≡ sum_lots d f ls + share d f (g lot)
sum-update d id f g [] lot u e = cc
sum-update d id f g (l ∷ ls) lot u e = elim (Bool-cases (l.id == id)) [
  | inl hit ↦
      let found : some l ≡ some lot = rw hit at e in
      let same : l ≡ lot = cc in
      let absent : All (λ j. id ≢ j) (ids ls) = rw ((==_iff l.id id).0 hit) at u.0 in
      rw (hit, ← same, update_absent id g ls absent) (omega arith)
  | inr miss ↦
      let rest : find_lot id ls ≡ some lot = rw miss at e in
      rw miss (omega (arith, sum-update d id f g ls lot u.1 rest))
]

pub sum-append_one :
    (d : ℕ) (f : AuctionLot → ℕ) (ls : List AuctionLot) (lot : AuctionLot)
    → sum_lots d f (ls ++ lot ∷ []) ≡ sum_lots d f ls + share d f lot
sum-append_one d f [] lot = omega arith
sum-append_one d f (l ∷ ls) lot = omega (arith, sum-append_one d f ls lot)

pub ids-append_one :
    (ls : List AuctionLot) (lot : AuctionLot) → ids (ls ++ lot ∷ []) ≡ ids ls ++ lot.id ∷ []
ids-append_one [] lot = refl
ids-append_one (l ∷ ls) lot = ap (◌∷◌ l.id) (ids-append_one ls lot)

pub Distinct-append_one :
    (is : List ℕ) (n : ℕ) → All (λ j. j < n) is → Distinct is → Distinct (is ++ n ∷ [])
Distinct-append_one [] n b u = (tt, tt)
Distinct-append_one (i ∷ is) n b u = (All-append_one is b.0 u.0, Distinct-append_one is n b.1 u.1)
  where
    All-append_one : (js : List ℕ) → i < n → All (λ j. i ≢ j) js → All (λ j. i ≢ j) (js ++ n ∷ [])
    All-append_one [] h a = (omega arith, tt)
    All-append_one (j ∷ js) h a = (a.0, All-append_one js h a.1)

pub bounded_append_one :
    (is : List ℕ) (n : ℕ) → All (λ j. j < n) is → All (λ j. j < suc n) (is ++ n ∷ [])
bounded_append_one [] n b = (omega arith, tt)
bounded_append_one (i ∷ is) n b = (omega arith, bounded_append_one is n b.1)
