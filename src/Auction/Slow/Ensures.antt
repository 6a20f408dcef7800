-- ===== src/Auction/Slow/Ensures.antt =====
-- What holds of every successful result of a transaction, step by step.
use mathlib.Core.Path.{subst}
use ht_mvp_backend.Prelude.{◌≡◌, refl, Bool, true, false, Option, none, some}
use ht_mvp_backend.Auction.Slow.{
  AuctionDb, AuctionError, Result, ok, err, ◌>>=◌, ◌>>◌, require, or_throw, after,
}

abbrev pub Ensures {ℓ κ} : {A : Type ℓ} → (A → Type κ) → Result A → Type κ
Ensures P (ok a) = P a
Ensures P (err e) = Unit

module _ {ℓ κ} {A : Type ℓ} {B : Type ℓ} (P : B → Type κ) where
  pub Ensures-bind :
      (m : Result A) (f : A → Result B)
      → ((a : A) → m ≡ ok a → Ensures P (f a))
      → Ensures P (m >>= f)
  Ensures-bind (ok a) f k = k a refl
  Ensures-bind (err e) f k = tt

  pub Ensures-or_throw :
      (o : Option A) (e : AuctionError) (f : A → Result B)
      → ((a : A) → o ≡ some a → Ensures P (f a))
      → Ensures P (or_throw o e >>= f)
  Ensures-or_throw none e f k = tt
  Ensures-or_throw (some a) e f k = k a refl

pub Ensures-require {ℓ κ} :
    {B : Type ℓ} (P : B → Type κ) (test : Bool) (e : AuctionError) (m : Result B)
    → (test ≡ true → Ensures P m)
    → Ensures P (require test e >> m)
Ensures-require P true e m k = k refl
Ensures-require P false e m k = tt

pub Ensures-if {ℓ κ} :
    {B : Type ℓ} (P : B → Type κ) (m : Result B) → ((b : B) → m ≡ ok b → P b) → Ensures P m
Ensures-if P (ok b) k = k b refl
Ensures-if P (err e) k = tt

-- From a rule about successful results to the state that a transaction leaves.
pub after-Ensures {ℓ κ} :
    {A : Type ℓ} (Q : AuctionDb → Type κ) (db : AuctionDb) (m : Result (AuctionDb × A))
    → Q db
    → Ensures (λ x. Q x.0) m
    → Q (after db m)
after-Ensures Q db (ok (db', a)) q h = h
after-Ensures Q db (err e) q h = q

pub Ensures-ok {ℓ κ} :
    {B : Type ℓ} (P : B → Type κ) (m : Result B) (b : B) → Ensures P m → m ≡ ok b → P b
Ensures-ok P (ok c) b h e = subst P (cc) h
Ensures-ok P (err c) b h e = cc

pub Ensures-map {ℓ κ} :
    {A : Type ℓ} {B : Type ℓ} (P : A → Type κ) (Q : B → Type κ) (m : Result A) (f : A → B)
    → ((a : A) → P a → Q (f a))
    → Ensures P m
    → Ensures Q (m >>= λ a. ok (f a))
Ensures-map P Q (ok a) f k h = k a h
Ensures-map P Q (err e) f k h = tt

pub Ensures-weaken {ℓ κ} :
    {A : Type ℓ} (P Q : A → Type κ) (m : Result A)
    → ((a : A) → P a → Q a)
    → Ensures P m
    → Ensures Q m
Ensures-weaken P Q (ok a) k h = k a h
Ensures-weaken P Q (err e) k h = tt
