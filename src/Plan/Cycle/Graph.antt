-- ===== src/Plan/Cycle/Graph.antt =====
-- The graph of blockers, without the search: chains, and well-foundedness.
use mathlib.Core.WellFounded.{Acc}
use ai_engineer_workflow.Prelude.{ℕ, ◌<◌, arith, ◌≡◌, refl, sym, subst, ◌⊎◌, inl, inr, List, Elem}

module _ (adjacency : ℕ → List ℕ) where
  -- A chain of blockers from `a` down to `b`, with one edge at least.
  pub data Chain (a : ℕ) : ℕ → Type 0 where
    edge : {b : ℕ} → Elem b (adjacency a) → Chain a b
    further : {b c : ℕ} → Chain a b → Elem c (adjacency b) → Chain a c

  -- `b` blocks `a`.
  abbrev pub Blocks : ℕ → ℕ → Type 0
  Blocks b a = Elem b (adjacency a)

  -- Every chain downward from `n` ends.
  abbrev pub Grounded : ℕ → Type 0
  Grounded n = Acc Blocks n

  pub Chain-front : {a b c : ℕ} → Elem b (adjacency a) → Chain b c → Chain a c
  Chain-front e (edge f) = further (edge e) f
  Chain-front e (further ch f) = further (Chain-front e ch) f

  extend_head :
      (a b c : ℕ)
      → (h : ℕ) × Elem h (adjacency a) × ((h ≡ b) ⊎ Chain h b)
      → Elem c (adjacency b)
      → (h : ℕ) × Elem h (adjacency a) × ((h ≡ c) ⊎ Chain h c)
  extend_head a b c (h, e, inl p) e' =
      (h, e, inr (edge (subst (λ x. Elem c (adjacency x)) (sym p) e')))
  extend_head a b c (h, e, inr ch) e' = (h, e, inr (further ch e'))

  Chain-head : {a c : ℕ} → Chain a c → (h : ℕ) × Elem h (adjacency a) × ((h ≡ c) ⊎ Chain h c)
  Chain-head (edge {b} e) = (b, e, inl refl)
  Chain-head (further ch e) = extend_head _ _ _ (Chain-head ch) e

  rotate :
      (n : ℕ)
      → (h : ℕ) × Elem h (adjacency n) × ((h ≡ n) ⊎ Chain h n)
      → (h : ℕ) × Elem h (adjacency n) × Chain h h
  rotate n (h, e, inl p) = (h, e, subst (λ x. Chain x h) (sym p) (edge e))
  rotate n (h, e, inr ch) = (h, e, further ch e)

  -- A node from which every chain ends lies on no cycle.
  pub Grounded-acyclic : (n : ℕ) → Grounded n → Chain n n → ⊥
  Grounded-acyclic n (Acc.intro _ below) ch =
      let (h, e, cycle) = rotate n (Chain-head ch) in Grounded-acyclic h (below h e) cycle

  -- A chain of ever smaller numbers.
  pub Chain-lt : ((a b : ℕ) → Elem b (adjacency a) → b < a) → {a b : ℕ} → Chain a b → b < a
  Chain-lt falls (edge e) = falls _ _ e
  Chain-lt falls (further ch e) = let p = falls _ _ e in let q = Chain-lt falls ch in omega arith
