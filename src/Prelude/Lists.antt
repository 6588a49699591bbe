-- ===== src/Prelude/Lists.antt =====
-- Lists measured by native numbers, predicates on all members, and membership, by recursion so
-- that they compute to products and sums.
use Prim.Native.Nat.{ℕ, zero, suc, ◌+◌, ◌≤◌}
use mathlib.Core.Path.{◌≡◌, refl, ap, sym, subst}
use mathlib.Core.Logic.{◌↔◌, ◌⊎◌, inl, inr}
use mathlib.Core.Bool.{Bool, true, false}
use mathlib.Core.List.{List, [], ◌∷◌, ◌++◌, map}
use native.Mathlib.Omega.{arith}
use mathlib.Core.Option.{Option, none, some}
use ai_engineer_workflow.Prelude.Tests.{◌==◌, if◌then◌else◌}

module _ {ℓ} {A : Type ℓ} where
  abbrev pub length : List A → ℕ
  length [] = 0
  length (x ∷ xs) = suc (length xs)

  abbrev pub take : ℕ → List A → List A
  take zero xs = []
  take (suc n) [] = []
  take (suc n) (x ∷ xs) = x ∷ take n xs

  abbrev pub drop : ℕ → List A → List A
  drop zero xs = xs
  drop (suc n) [] = []
  drop (suc n) (x ∷ xs) = drop n xs

  abbrev pub get_elem? : List A → ℕ → Option A
  get_elem? [] i = none
  get_elem? (x ∷ xs) zero = some x
  get_elem? (x ∷ xs) (suc i) = get_elem? xs i

  -- A write out of bounds changes nothing.
  abbrev pub set : List A → ℕ → A → List A
  set [] i v = []
  set (x ∷ xs) zero v = v ∷ xs
  set (x ∷ xs) (suc i) v = x ∷ set xs i v

  pub get_elem?-append :
      (xs : List A) (y : A) (ys : List A) → get_elem? (xs ++ y ∷ ys) (length xs) ≡ some y
  get_elem?-append [] y ys = refl
  get_elem?-append (x ∷ xs) y ys = get_elem?-append xs y ys

  pub set-append :
      (xs : List A) (y v : A) (ys : List A) → set (xs ++ y ∷ ys) (length xs) v ≡ xs ++ v ∷ ys
  set-append [] y v ys = refl
  set-append (x ∷ xs) y v ys = ap (◌∷◌ x) (set-append xs y v ys)

  -- The loop `for … { if test { out = append(out, x) } }`.
  abbrev pub keep : (A → Bool) → List A → List A
  keep p [] = []
  keep p (x ∷ xs) = let rest = keep p xs in if p x then x ∷ rest else rest

  pub length-append : (xs ys : List A) → length (xs ++ ys) ≡ length xs + length ys
  length-append [] ys = omega arith
  length-append (x ∷ xs) ys = omega (arith, length-append xs ys)

  pub length-take-le : (n : ℕ) (xs : List A) → length (take n xs) ≤ n
  length-take-le zero xs = omega arith
  length-take-le (suc n) [] = omega arith
  length-take-le (suc n) (x ∷ xs) = omega (arith, length-take-le n xs)

  pub length-take-eq : (n : ℕ) (xs : List A) → n ≤ length xs → length (take n xs) ≡ n
  length-take-eq zero xs h = refl
  length-take-eq (suc n) [] h = absurd (omega arith)
  length-take-eq (suc n) (x ∷ xs) h = ap suc (length-take-eq n xs (omega arith))

  pub take-all : (n : ℕ) (xs : List A) → length xs ≤ n → take n xs ≡ xs
  take-all zero [] h = refl
  take-all zero (x ∷ xs) h = absurd (omega arith)
  take-all (suc n) [] h = refl
  take-all (suc n) (x ∷ xs) h = ap (◌∷◌ x) (take-all n xs (omega arith))

module _ {ℓ κ} {A : Type ℓ} where
  abbrev pub All : (A → Type κ) → List A → Type κ
  All P [] = Unit
  All P (x ∷ xs) = P x × All P xs

-- No value, at any level.
pub data Never {ℓ} : Type ℓ where

module _ {ℓ} {A : Type ℓ} where
  abbrev pub Elem : A → List A → Type ℓ
  Elem a [] = Never
  Elem a (x ∷ xs) = (a ≡ x) ⊎ Elem a xs

  -- No member twice.
  abbrev pub Distinct : List A → Type ℓ
  Distinct [] = Unit
  Distinct (x ∷ xs) = (Elem x xs → ⊥) × Distinct xs

  pub Elem-append_left : (a : A) (xs ys : List A) → Elem a xs → Elem a (xs ++ ys)
  Elem-append_left a [] ys h = elim h [ ]
  Elem-append_left a (x ∷ xs) ys (inl e) = inl e
  Elem-append_left a (x ∷ xs) ys (inr h) = inr (Elem-append_left a xs ys h)

  pub Elem-append_right : (a : A) (xs ys : List A) → Elem a ys → Elem a (xs ++ ys)
  Elem-append_right a [] ys h = h
  Elem-append_right a (x ∷ xs) ys h = inr (Elem-append_right a xs ys h)

  pub Elem-take : (n : ℕ) (xs : List A) (a : A) → Elem a (take n xs) → Elem a xs
  Elem-take zero xs a h = elim h [ ]
  Elem-take (suc n) [] a h = elim h [ ]
  Elem-take (suc n) (x ∷ xs) a (inl e) = inl e
  Elem-take (suc n) (x ∷ xs) a (inr h) = inr (Elem-take n xs a h)

  pub Elem-append : (a : A) (xs ys : List A) → Elem a (xs ++ ys) → Elem a xs ⊎ Elem a ys
  Elem-append a [] ys h = inr h
  Elem-append a (x ∷ xs) ys (inl e) = inl (inl e)
  Elem-append a (x ∷ xs) ys (inr h) = elim (Elem-append a xs ys h) [
    | inl l ↦ inl (inr l)
    | inr r ↦ inr r
  ]

module _ {ℓ} {A : Type ℓ} where
  -- No member in common.
  abbrev pub Apart : List A → List A → Type ℓ
  Apart xs ys = (a : A) → Elem a xs → Elem a ys → ⊥

  pub Distinct-append :
      (xs ys : List A) → Distinct (xs ++ ys) ↔ (Distinct xs × Distinct ys × Apart xs ys)
  Distinct-append [] ys = ((λ d. (tt, d, λ a h. elim h [ ])), (λ t. t.1))
  Distinct-append (x ∷ xs) ys = (
    (λ d.
        let (dx, dy, ap') = (Distinct-append xs ys).0 d.1 in
        (
          ((λ m. d.0 (Elem-append_left x xs ys m)), dx),
          dy,
          λ a m n. elim m [
            | inl e ↦ d.0 (Elem-append_right x xs ys (subst (λ z. Elem z ys) e n))
            | inr m' ↦ ap' a m' n
          ],
        )),
    (λ t. (
      (λ m. elim (Elem-append x xs ys m) [ inl l ↦ t.0.0 l | inr r ↦ t.2 x (inl refl) r ]),
      (Distinct-append xs ys).1 (t.0.1, t.1, λ a m n. t.2 a (inr m) n),
    )),
  )

module _ {ℓ κ} {A : Type ℓ} (P : A → Type κ) where
  pub All→Elem : (xs : List A) → All P xs → (a : A) → Elem a xs → P a
  All→Elem [] h a m = elim m [ ]
  All→Elem (x ∷ xs) (p, h) a (inl e) = subst P (sym e) p
  All→Elem (x ∷ xs) (p, h) a (inr m) = All→Elem xs h a m

  pub Elem→All : (xs : List A) → ((a : A) → Elem a xs → P a) → All P xs
  Elem→All [] h = tt
  Elem→All (x ∷ xs) h = (h x (inl refl), Elem→All xs (λ a m. h a (inr m)))

  pub All-take : (n : ℕ) (xs : List A) → All P xs → All P (take n xs)
  All-take zero xs h = tt
  All-take (suc n) [] h = tt
  All-take (suc n) (x ∷ xs) (p, h) = (p, All-take n xs h)

module _ {ℓ} {A : Type ℓ} (p : A → Bool) where
  pub length-keep-le : (xs : List A) → length (keep p xs) ≤ length xs
  length-keep-le [] = omega arith
  length-keep-le (x ∷ xs) = ground (arith, length-keep-le xs)

  pub Elem-keep : (xs : List A) (a : A) → Elem a (keep p xs) → Elem a xs × (p a ≡ true)
  Elem-keep [] a m = elim m [ ]
  Elem-keep (x ∷ xs) a m = ground (arith, Elem-keep xs a)

  pub keep-Elem : (xs : List A) (a : A) → Elem a xs → p a ≡ true → Elem a (keep p xs)
  keep-Elem [] a m t = elim m [ ]
  keep-Elem (x ∷ xs) a m t = ground (arith, keep-Elem xs a)

module _ {ℓ κ} {A : Type ℓ} {B : Type κ} (f : A → B) where
  pub Elem-map : (xs : List A) (b : B) → Elem b (map f xs) → (a : A) × Elem a xs × (b ≡ f a)
  Elem-map [] b h = elim h [ ]
  Elem-map (x ∷ xs) b (inl e) = (x, inl refl, e)
  Elem-map (x ∷ xs) b (inr h) = let (a, m, e) = Elem-map xs b h in (a, inr m, e)

  pub map-Elem : (xs : List A) (a : A) → Elem a xs → Elem (f a) (map f xs)
  map-Elem [] a h = elim h [ ]
  map-Elem (x ∷ xs) a (inl e) = inl (ap f e)
  map-Elem (x ∷ xs) a (inr h) = inr (map-Elem xs a h)

-- Membership of a number, as Go's `_, ok := m[key]` on a map used as a set.
abbrev pub has : ℕ → List ℕ → Bool
has a [] = false
has a (x ∷ xs) = if a == x then true else has a xs

pub has→Elem : (a : ℕ) (xs : List ℕ) → has a xs ≡ true → Elem a xs
has→Elem a [] h = cc
has→Elem a (x ∷ xs) h = ground (arith, has→Elem a xs)

pub Elem→has : (a : ℕ) (xs : List ℕ) → Elem a xs → has a xs ≡ true
Elem→has a [] h = elim h [ ]
Elem→has a (x ∷ xs) (inl e) = ground arith
Elem→has a (x ∷ xs) (inr m) = ground (arith, Elem→has a xs m)
