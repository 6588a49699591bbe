-- ===== src/SetupContract/Checks.antt =====
-- Checks that answer an error or nil, as internal/setupcontract/validate.go runs them: one after the
-- other, on a condition, and over a list.
use ai_engineer_workflow.Prelude.{
  Bool, true, false, not, Option, none, some, List, [], ◌∷◌, ◌≡◌, refl, Elem, String, str_eq,
  if◌then◌else◌, arith, inl, inr, ap, ◌∙◌, eq_iff,
}

module _ {P : Type 0} where
  infixr 20 ◌⊳◌
  -- `if err := a; err != nil { return err }`, and then `b`
  abbrev pub ◌⊳◌ : Option P → Option P → Option P
  none ⊳ b = b
  some p ⊳ b = some p

  -- `if test { return p }`
  abbrev pub refuse : Bool → P → Option P
  refuse true p = some p
  refuse false p = none

  -- the loop over a list that returns the first error
  abbrev pub each : {A : Type 0} → (A → Option P) → List A → Option P
  each f [] = none
  each f (x ∷ xs) = f x ⊳ each f xs

  pub ⊳-none : (a b : Option P) → (a ⊳ b) ≡ none → (a ≡ none) × (b ≡ none)
  ⊳-none none b e = (refl, e)
  ⊳-none (some p) b e = absurd cc

  pub none-⊳ : (a b : Option P) → a ≡ none → b ≡ none → (a ⊳ b) ≡ none
  none-⊳ a b e f = ground arith

  pub refuse-none : (b : Bool) (p : P) → refuse b p ≡ none → b ≡ false
  refuse-none true p e = absurd cc
  refuse-none false p e = refl

  pub refuse-none-not : (b : Bool) (p : P) → refuse (not b) p ≡ none → b ≡ true
  refuse-none-not true p e = refl
  refuse-none-not false p e = absurd cc

  pub none-refuse : (b : Bool) (p : P) → b ≡ false → refuse b p ≡ none
  none-refuse b p e = ap (λ c. refuse c p) e

  pub none-refuse-not : (b : Bool) (p : P) → b ≡ true → refuse (not b) p ≡ none
  none-refuse-not b p e = ap (λ c. refuse (not c) p) e

  pub each-none :
      {A : Type 0}
      → (f : A → Option P) (xs : List A) → each f xs ≡ none
      → (x : A) → Elem x xs
      → f x ≡ none
  each-none f [] e x m = elim m [ ]
  each-none f (y ∷ ys) e x m =
      let (e1, e2) = ⊳-none (f y) (each f ys) e in
      elim m [ inl same ↦ ap f same ∙ e1 | inr later ↦ each-none f ys e2 x later ]

  pub none-each :
      {A : Type 0}
      → (f : A → Option P) (xs : List A) → ((x : A) → Elem x xs → f x ≡ none)
      → each f xs ≡ none
  none-each f [] h = refl
  none-each f (x ∷ xs) h =
      none-⊳ (f x) (each f xs) (h x (inl refl)) (none-each f xs (λ y m. h y (inr m)))

-- A text among others, as Go's `_, ok := m[key]` on a map used as a set.
abbrev pub contains_semantic : List String → String → Bool
contains_semantic [] wanted = false
contains_semantic (v ∷ vs) wanted = if str_eq v wanted then true else contains_semantic vs wanted

pub contains_semantic-Elem :
    (vs : List String) (wanted : String) → contains_semantic vs wanted ≡ true → Elem wanted vs
contains_semantic-Elem [] wanted e = absurd cc
contains_semantic-Elem (v ∷ vs) wanted e =
    ground (arith, eq_iff v wanted, contains_semantic-Elem vs wanted)

pub Elem-contains_semantic :
    (vs : List String) (wanted : String) → Elem wanted vs → contains_semantic vs wanted ≡ true
Elem-contains_semantic [] wanted m = elim m [ ]
Elem-contains_semantic (v ∷ vs) wanted m =
    ground (arith, eq_iff v wanted, Elem-contains_semantic vs wanted)
