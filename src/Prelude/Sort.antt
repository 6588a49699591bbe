-- ===== src/Prelude/Sort.antt =====
-- `sort.Slice` and `sort.Strings`: an insertion sort by a Boolean `less`. Go's sort is not stable;
-- the results that the clients state hold of every order that `less` allows.
use mathlib.Core.List.Perm
use mathlib.Core.List.{Perm}
use ai_engineer_workflow.Prelude.Tests.{if◌then◌else◌, Bool-cases}
use ai_engineer_workflow.Prelude.Lists.{length, take, All, All→Elem, All-take, Elem}
use Prim.Native.Nat.{ℕ, zero, suc}
use mathlib.Core.Path.{◌≡◌, refl, sym, ap, subst, ◌∙◌}
use mathlib.Core.Logic.{◌⊎◌, inl, inr}
use mathlib.Core.Bool.{Bool, true, false}
use mathlib.Core.List.{List, [], ◌∷◌}
use native.Mathlib.Omega.{arith}

module _ {ℓ} {A : Type ℓ} (less : A → A → Bool) where
  pub insert_by : A → List A → List A
  insert_by x [] = x ∷ []
  insert_by x (y ∷ ys) = let rest = insert_by x ys in if less y x then y ∷ rest else x ∷ y ∷ ys

  unfoldable pub sort_by : List A → List A
  unfolding insert_by
  sort_by [] = []
  sort_by (x ∷ xs) = insert_by x (sort_by xs)

  -- No member is less than one before it.
  abbrev pub SortedBy : List A → Type ℓ
  SortedBy [] = Unit
  SortedBy (x ∷ xs) = All (λ y. less y x ≡ false) xs × SortedBy xs

  insert_by-perm : (x : A) (ys : List A) → Perm (insert_by x ys) (x ∷ ys)
  unfolding insert_by
  insert_by-perm x [] = Perm.refl _
  insert_by-perm x (y ∷ ys) = elim (Bool-cases (less y x)) [
    | inl e ↦ rw e (Perm.trans (Perm.cons y (insert_by-perm x ys)) (Perm.swap x y ys))
    | inr e ↦ rw e (Perm.refl _)
  ]

  pub sort_by-perm : (xs : List A) → Perm (sort_by xs) xs
  unfolding sort_by
  sort_by-perm [] = Perm.refl _
  sort_by-perm (x ∷ xs) = Perm.trans (insert_by-perm x (sort_by xs)) (Perm.cons x (sort_by-perm xs))

  Elem-insert_by : (x : A) (ys : List A) (a : A) → Elem a (insert_by x ys) → (a ≡ x) ⊎ Elem a ys
  unfolding insert_by
  Elem-insert_by x [] a h = h
  Elem-insert_by x (y ∷ ys) a h = ground (arith, Elem-insert_by x ys a)

  insert_by-Elem : (x : A) (ys : List A) (a : A) → (a ≡ x) ⊎ Elem a ys → Elem a (insert_by x ys)
  unfolding insert_by
  insert_by-Elem x [] a h = h
  insert_by-Elem x (y ∷ ys) a h = ground (arith, insert_by-Elem x ys a)

  pub Elem-sort_by : (xs : List A) (a : A) → Elem a (sort_by xs) → Elem a xs
  unfolding sort_by
  Elem-sort_by [] a h = h
  Elem-sort_by (x ∷ xs) a h = elim (Elem-insert_by x (sort_by xs) a h) [
    | inl e ↦ inl e
    | inr m ↦ inr (Elem-sort_by xs a m)
  ]

  pub sort_by-Elem : (xs : List A) (a : A) → Elem a xs → Elem a (sort_by xs)
  unfolding sort_by
  sort_by-Elem [] a h = h
  sort_by-Elem (x ∷ xs) a (inl e) = insert_by-Elem x (sort_by xs) a (inl e)
  sort_by-Elem (x ∷ xs) a (inr m) = insert_by-Elem x (sort_by xs) a (inr (sort_by-Elem xs a m))

  length-insert_by : (x : A) (ys : List A) → length (insert_by x ys) ≡ suc (length ys)
  unfolding insert_by
  length-insert_by x [] = refl
  length-insert_by x (y ∷ ys) = ground (arith, length-insert_by x ys)

  pub length-sort_by : (xs : List A) → length (sort_by xs) ≡ length xs
  unfolding sort_by
  length-sort_by [] = refl
  length-sort_by (x ∷ xs) = length-insert_by x (sort_by xs) ∙ ap suc (length-sort_by xs)

-- `less` is a strict weak order, as `sort.Slice` wants it.
pub record StrictWeak {ℓ} {A : Type ℓ} (less : A → A → Bool) : Type ℓ where
  pub asym : (x y : A) → less x y ≡ true → less y x ≡ false
  pub trans : (x y z : A) → less y x ≡ false → less z y ≡ false → less z x ≡ false

module _ {ℓ} {A : Type ℓ} (less : A → A → Bool) (o : StrictWeak less) where
  All-insert_by :
      (z x : A) (ys : List A)
      → less x z ≡ false
      → All (λ y. less y z ≡ false) ys
      → All (λ y. less y z ≡ false) (insert_by less x ys)
  unfolding insert_by
  All-insert_by z x [] p h = (p, tt)
  All-insert_by z x (y ∷ ys) p (q, h) = elim (Bool-cases (less y x)) [
    | inl e ↦ rw e (q, All-insert_by z x ys p h)
    | inr e ↦ rw e (p, (q, h))
  ]

  All-trans :
      (x y : A) (ys : List A)
      → less y x ≡ false
      → All (λ z. less z y ≡ false) ys
      → All (λ z. less z x ≡ false) ys
  All-trans x y [] e h = tt
  All-trans x y (z ∷ ys) e (q, h) = (o.trans x y z e q, All-trans x y ys e h)

  insert_by-SortedBy :
      (x : A) (ys : List A) → SortedBy less ys → SortedBy less (insert_by less x ys)
  unfolding insert_by
  insert_by-SortedBy x [] h = (tt, tt)
  insert_by-SortedBy x (y ∷ ys) (q, h) = elim (Bool-cases (less y x)) [
    | inl e ↦ rw e (All-insert_by y x ys (o.asym y x e) q, insert_by-SortedBy x ys h)
    | inr e ↦ rw e ((e, All-trans x y ys e q), (q, h))
  ]

  pub sort_by-SortedBy : (xs : List A) → SortedBy less (sort_by less xs)
  unfolding sort_by
  sort_by-SortedBy [] = tt
  sort_by-SortedBy (x ∷ xs) = insert_by-SortedBy x (sort_by less xs) (sort_by-SortedBy xs)

module _ {ℓ} {A : Type ℓ} (less : A → A → Bool) where
  pub SortedBy-take : (n : ℕ) (xs : List A) → SortedBy less xs → SortedBy less (take n xs)
  SortedBy-take zero xs h = tt
  SortedBy-take (suc n) [] h = tt
  SortedBy-take (suc n) (x ∷ xs) (q, h) = (All-take _ n xs q, SortedBy-take n xs h)

  -- What a cut of a sorted list leaves out comes before nothing that stays.
  pub take-SortedBy :
      (n : ℕ) (xs : List A) (a : A)
      → SortedBy less xs
      → Elem a xs
      → Elem a (take n xs)
        ⊎ ((length (take n xs) ≡ n) × ((u : A) → Elem u (take n xs) → less a u ≡ false))
  take-SortedBy zero xs a h m = inr (refl, λ u e. elim e [ ])
  take-SortedBy (suc n) [] a h m = elim m [ ]
  take-SortedBy (suc n) (x ∷ xs) a h (inl e) = inl (inl e)
  take-SortedBy (suc n) (x ∷ xs) a (q, h) (inr m) = elim (take-SortedBy n xs a h m) [
    | inl t ↦ inl (inr t)
    | inr (len, all) ↦ inr (
      ap suc len,
      λ u e. elim e [
        | inl p ↦ subst (λ z. less a z ≡ false) (sym p) (All→Elem _ xs q a m)
        | inr e' ↦ all u e'
      ],
    )
  ]
