-- ===== src/Prelude/Sorting.antt =====
-- Array.prototype.sort with a comparator: stable, and determined by the comparator's sign.
-- `cmp a b ≤ 0` lets `a` stand before `b`.
use mathlib.Core.Path.{◌≡◌, ap, ap₂, sym, ◌∙◌}
use mathlib.Core.Bool.{Bool, true, false}
use mathlib.Core.Logic.{inl, inr, ◌≢◌, ∥∥₁_elim}
use mathlib.Core.List.{
  List, [], ◌∷◌, Mem, not-mem-nil, eq-or-mem_of_mem-cons, Perm, Pairwise, Pairwise-cons,
  Pairwise-singleton, mem-cons_self, mem-cons_of_mem, forall_mem-cons,
}
use mathlib.Core.List.Perm
use mathlib.Core.HLevel.{⊥_prop}
use Prim.Native.Nat.{ℕ}
use ht_mvp_backend.Prelude.Lists.{All}
use ht_mvp_backend.Prelude.Tests.{if◌then◌else◌, Bool-cases}
use ht_mvp_backend.Prelude.Int.{ℤ, pos, leb_ℤ}

Bool-set : IsSet Bool
Bool-set = hlevel

module _ {ℓ} {A : Type ℓ} (cmp : A → A → ℤ) where
  abbrev pub before : A → A → Bool
  before a b = leb_ℤ (cmp a b) (pos 0)

  unfoldable pub insert : A → List A → List A
  insert x [] = x ∷ []
  insert x (y ∷ ys) = if before x y then x ∷ y ∷ ys else y ∷ insert x ys

  unfoldable pub sort : List A → List A
  unfolding insert
  sort [] = []
  sort (x ∷ xs) = insert x (sort xs)

  insert-perm : (x : A) (xs : List A) → Perm (insert x xs) (x ∷ xs)
  unfolding insert
  insert-perm x [] = Perm.refl _
  insert-perm x (y ∷ ys) = elim (Bool-cases (before x y)) [
    | inl e ↦ rw e (Perm.refl _)
    | inr e ↦ rw e (Perm.trans (Perm.cons y (insert-perm x ys)) (Perm.swap x y ys))
  ]

  pub sort-perm : (xs : List A) → Perm (sort xs) xs
  unfolding sort
  sort-perm [] = Perm.nil
  sort-perm (x ∷ xs) = Perm.trans (insert-perm x (sort xs)) (Perm.cons x (sort-perm xs))

  -- `a` may stand before every element of the list
  abbrev pub Below : A → List A → Type ℓ
  Below a xs = (x : A) → Mem x xs → before a x ≡ true

  abbrev pub IsSorted : List A → Type ℓ
  IsSorted = Pairwise (λ a b. before a b ≡ true)

  -- The comparator orders the elements totally and transitively.
  pub record IsOrder : Type ℓ where
    pub total : (a b : A) → before a b ≡ false → before b a ≡ true
    pub trans : (a b c : A) → before a b ≡ true → before b c ≡ true → before a c ≡ true

module _ {ℓ} {A : Type ℓ} (cmp : A → A → ℤ) (o : IsOrder cmp) where
  Below-cons :
      (a b : A) (xs : List A) → before cmp a b ≡ true → Below cmp a xs → Below cmp a (b ∷ xs)
  Below-cons a b xs p h = (forall_mem-cons (λ x. Bool-set _ _)).1 (p, h)

  Below-perm : (a : A) (xs ys : List A) → Perm xs ys → Below cmp a ys → Below cmp a xs
  Below-perm a xs ys p h x m = h x ((Perm.mem_iff p).0 m)

  Below-trans : (a b : A) (xs : List A) → before cmp a b ≡ true → Below cmp b xs → Below cmp a xs
  Below-trans a b xs p h x m = o.trans a b x p (h x m)

  insert-IsSorted : (x : A) (xs : List A) → IsSorted cmp xs → IsSorted cmp (insert cmp x xs)
  unfolding insert
  insert-IsSorted x [] s = Pairwise-singleton _ x
  insert-IsSorted x (y ∷ ys) s = elim (Bool-cases (before cmp x y)) [
    | inl e ↦
        rw e (Pairwise-cons.1 (Below-cons x y ys e (Below-trans x y ys e (Pairwise-cons.0 s).0), s))
    | inr e ↦ rw e (
        Pairwise-cons.1 (
          Below-perm y _ (x ∷ ys) (insert-perm cmp x ys)
              (Below-cons y x ys (o.total x y e) (Pairwise-cons.0 s).0),
          insert-IsSorted x ys (Pairwise-cons.0 s).1,
        ))
  ]

  pub sort-IsSorted : (xs : List A) → IsSorted cmp (sort cmp xs)
  unfolding sort
  sort-IsSorted [] = Pairwise.nil
  sort-IsSorted (x ∷ xs) = insert-IsSorted x (sort cmp xs) (sort-IsSorted xs)

  head-Below : (a : A) (xs : List A) → IsSorted cmp (a ∷ xs) → Below cmp a xs
  head-Below a xs s = (Pairwise-cons.0 s).0

  -- Two elements of the list that the comparator does not separate are one.
  abbrev pub Separates : List A → Type ℓ
  Separates xs =
      (a b : A) → Mem a xs → Mem b xs → before cmp a b ≡ true → before cmp b a ≡ true → a ≡ b

  refl_before : (a : A) → before cmp a a ≡ true
  refl_before a = elim (Bool-cases (before cmp a a)) [ inl e ↦ e | inr e ↦ o.total a a e ]

  -- The first of a sorted list stands before the whole list.
  pub IsSorted-first : (a : A) (xs : List A) → IsSorted cmp (a ∷ xs) → Below cmp a (a ∷ xs)
  IsSorted-first a xs s = Below-cons a a xs (refl_before a) (head-Below a xs s)

  -- A list has one sorted permutation, if the comparator separates its elements.
  IsSorted-eq_of_perm :
      (xs ys : List A) → Separates xs → IsSorted cmp xs → IsSorted cmp ys → Perm xs ys → xs ≡ ys
  IsSorted-eq_of_perm [] ys u s t p = sym (Perm.eq-nil (Perm.symm p))
  IsSorted-eq_of_perm (x ∷ xs) [] u s t p = Perm.eq-nil p
  IsSorted-eq_of_perm (x ∷ xs) (y ∷ ys) u s t p = ap₂ ◌∷◌ heads (
      IsSorted-eq_of_perm xs ys (λ a b ma mb. u a b (mem-cons_of_mem x ma) (mem-cons_of_mem x mb))
        (Pairwise-cons.0 s).1 (Pairwise-cons.0 t).1 tails)
    where
      x_first : before cmp x y ≡ true
      x_first =
          Below-cons x x xs (refl_before x) (head-Below x xs s) y ((Perm.mem_iff p).1 mem-cons_self)

      y_first : before cmp y x ≡ true
      y_first =
          Below-cons y y ys (refl_before y) (head-Below y ys t) x ((Perm.mem_iff p).0 mem-cons_self)

      heads : x ≡ y
      heads = u x y mem-cons_self ((Perm.mem_iff p).1 mem-cons_self) x_first y_first

      tails : Perm xs ys
      tails = Perm.cons_inv (Perm.trans p (Perm.symm (Perm.cons' heads Perm.rfl)))

  -- So the sorted list does not depend on the order of the input.
  pub sort-eq_of_perm : (xs ys : List A) → Separates xs → Perm xs ys → sort cmp xs ≡ sort cmp ys
  sort-eq_of_perm xs ys u p =
      IsSorted-eq_of_perm (sort cmp xs) (sort cmp ys)
        (λ a b ma mb.
          u a b ((Perm.mem_iff (sort-perm cmp xs)).0 ma) ((Perm.mem_iff (sort-perm cmp xs)).0 mb))
        (sort-IsSorted xs) (sort-IsSorted ys)
        (Perm.trans (sort-perm cmp xs) (Perm.trans p (Perm.symm (sort-perm cmp ys))))

-- The keys of a list of rows are different.
module _ {ℓ} {A : Type ℓ} (key : A → ℕ) where
  abbrev pub HasDistinct : List A → Type 0
  HasDistinct [] = Unit
  HasDistinct (x ∷ xs) = All (λ y. key x ≢ key y) xs × HasDistinct xs

  apart_from_members :
      (x : A) (xs : List A) → All (λ y. key x ≢ key y) xs → (y : A) → Mem y xs → key x ≢ key y
  apart_from_members x [] h y m k = not-mem-nil m
  apart_from_members x (z ∷ zs) h y m k =
      ∥∥₁_elim (eq-or-mem_of_mem-cons m) ⊥_prop
        λ c. elim c [ inl e ↦ h.0 (k ∙ ap key e) | inr n ↦ apart_from_members x zs h.1 y n k ]

  -- Two rows of the list with one key are one row.
  pub HasDistinct-eq :
      IsSet A
      → (xs : List A) → HasDistinct xs
      → (a b : A) → Mem a xs
      → Mem b xs
      → key a ≡ key b
      → a ≡ b
  HasDistinct-eq set [] d a b ma mb k = absurd (not-mem-nil ma)
  HasDistinct-eq set (x ∷ xs) d a b ma mb k = ∥∥₁_elim (eq-or-mem_of_mem-cons ma) (set a b) λ c.
      ∥∥₁_elim (eq-or-mem_of_mem-cons mb) (set a b) λ c'. elim c [
        | inl e ↦ elim c' [
          | inl f ↦ e ∙ sym f
          | inr n ↦ absurd (apart_from_members x xs d.0 b n (ap key (sym e) ∙ k))
        ]
        | inr m ↦ elim c' [
          | inl f ↦ absurd (apart_from_members x xs d.0 a m (ap key (sym f) ∙ sym k))
          | inr n ↦ HasDistinct-eq set xs d.1 a b m n k
        ]
      ]
