-- ===== src/Plan/Validate/Entries.antt =====
-- The loops over `BlockedBy` accept exactly the distinct dependencies between tickets of the plan,
-- and collect them.
use ai_engineer_workflow.Prelude.{
  ℕ, true, ◌≡◌, refl, subst, ap, ◌⊎◌, inl, inr, ◌↔◌, none, List, [], ◌∷◌, has→Elem, Elem→has, Elem,
  All, Distinct, Apart, arith, eq_iff,
}
use ai_engineer_workflow.Plan.Model.{Issue}
use ai_engineer_workflow.Plan.Validate.Spec.{IsBlockerIn, pairs}
use ai_engineer_workflow.Plan.Validate.{
  ok, unless-ok, Edges, has_edge, add_edge, check_blocker, check_blockers,
}

has_edge-Elem : (a b : ℕ) (es : List (ℕ × ℕ)) → has_edge a b es ≡ true → Elem (a, b) es
has_edge-Elem a b [] h = cc
has_edge-Elem a b ((x, y) ∷ es) h = ground (arith, has_edge-Elem a b es)

Elem-has_edge : (a b : ℕ) (es : List (ℕ × ℕ)) → Elem (a, b) es → has_edge a b es ≡ true
Elem-has_edge a b [] h = elim h [ ]
Elem-has_edge a b ((x, y) ∷ es) (inl e) =
    ground (arith, ap (λ (p : ℕ × ℕ). p.0) e, ap (λ (p : ℕ × ℕ). p.1) e)
Elem-has_edge a b ((x, y) ∷ es) (inr m) = ground (arith, Elem-has_edge a b es m)

-- The edges after a run of the inner loop, and after the outer one.
abbrev pub add_edges : ℕ → Edges → List Issue → Edges
add_edges blocked e [] = e
add_edges blocked e (b ∷ bs) = add_edges blocked (add_edge blocked b.id e) bs

abbrev pub add_entries : Edges → List (ℕ × List Issue) → Edges
add_entries e [] = e
add_entries e ((blocked, blockers) ∷ rest) = add_entries (add_edges blocked e blockers) rest

module _ (root : Issue) (by_id : List ℕ) where
  module _ (blocked : ℕ) (e : Edges) (b : Issue) where
    check_blocker-none :
        check_blocker root by_id blocked e b ≡ none
        → IsBlockerIn root by_id b × (Elem (blocked, b.id) e.seen → ⊥)
    unfolding check_blocker
    check_blocker-none h =
        ground
          (arith, has→Elem b.id by_id, Elem-has_edge blocked b.id e.seen, eq_iff b.state "closed")

    none-check_blocker :
        IsBlockerIn root by_id b
        → (Elem (blocked, b.id) e.seen → ⊥)
        → check_blocker root by_id blocked e b ≡ none
    unfolding check_blocker
    none-check_blocker i n =
        ground
          (arith, Elem→has b.id by_id, has_edge-Elem blocked b.id e.seen, eq_iff b.state "closed")

  -- The blockers are tickets, none twice, and none seen before.
  abbrev pub FreshBlockers : ℕ → Edges → List Issue → Type 0
  FreshBlockers blocked e [] = Unit
  FreshBlockers blocked e (b ∷ bs) =
      IsBlockerIn root by_id b
      × (Elem (blocked, b.id) e.seen → ⊥)
      × FreshBlockers blocked (add_edge blocked b.id e) bs

  pub check_blockers-Fresh :
      (blocked : ℕ) (e : Edges) (bs : List Issue) {r : Edges}
      → check_blockers root by_id blocked e bs ≡ ok r
      → FreshBlockers blocked e bs
  unfolding check_blockers
  check_blockers-Fresh blocked e [] h = tt
  check_blockers-Fresh blocked e (b ∷ bs) h =
      let (none_of, rest) = unless-ok (check_blocker root by_id blocked e b) _ h in
      let (i, n) = check_blocker-none blocked e b none_of in
      (i, n, check_blockers-Fresh blocked (add_edge blocked b.id e) bs rest)

  pub Fresh-check_blockers :
      (blocked : ℕ) (e : Edges) (bs : List Issue)
      → FreshBlockers blocked e bs
      → check_blockers root by_id blocked e bs ≡ ok (add_edges blocked e bs)
  unfolding check_blockers
  Fresh-check_blockers blocked e [] h = refl
  Fresh-check_blockers blocked e (b ∷ bs) (i, n, h) =
      rw (none-check_blocker blocked e b i n)
        (Fresh-check_blockers blocked (add_edge blocked b.id e) bs h)

  pub FreshBlockers-split :
      (blocked : ℕ) (e : Edges) (bs : List Issue)
      → FreshBlockers blocked e bs
      → All (IsBlockerIn root by_id) bs
        × Distinct (pairs blocked bs)
        × Apart (pairs blocked bs) e.seen
  unfolding add_edge
  FreshBlockers-split blocked e [] h = (tt, tt, λ p m. elim m [ ])
  FreshBlockers-split blocked e (b ∷ bs) (i, n, h) =
      let (all, d, apart) = FreshBlockers-split blocked (add_edge blocked b.id e) bs h in
      (
        (i, all),
        ((λ m. apart _ m (inl refl)), d),
        λ p m s. elim m [
          | inl q ↦ n (subst (λ x. Elem x e.seen) q s)
          | inr m' ↦ apart p m' (inr s)
        ],
      )

  pub split-FreshBlockers :
      (blocked : ℕ) (e : Edges) (bs : List Issue)
      → All (IsBlockerIn root by_id) bs
      → Distinct (pairs blocked bs)
      → Apart (pairs blocked bs) e.seen
      → FreshBlockers blocked e bs
  unfolding add_edge
  split-FreshBlockers blocked e [] all d apart = tt
  split-FreshBlockers blocked e (b ∷ bs) (i, all) (n, d) apart = (
    i,
    apart _ (inl refl),
    split-FreshBlockers blocked (add_edge blocked b.id e) bs all d (λ p m s. elim s [
      | inl q ↦ n (subst (λ x. Elem x (pairs blocked bs)) q m)
      | inr s' ↦ apart p (inr m) s'
    ]),
  )

pub seen-add_edges :
    (blocked : ℕ) (e : Edges) (bs : List Issue) (p : ℕ × ℕ)
    → Elem p (add_edges blocked e bs).seen ↔ (Elem p (pairs blocked bs) ⊎ Elem p e.seen)
unfolding add_edge
seen-add_edges blocked e [] p = (inr, λ h. elim h [ inl m ↦ elim m [ ] | inr m ↦ m ])
seen-add_edges blocked e (b ∷ bs) p =
    let (f, g) = seen-add_edges blocked (add_edge blocked b.id e) bs p in
    ((λ h. regroup (f h)), (λ h. g (back h)))
  where
    regroup :
        Elem p (pairs blocked bs) ⊎ (Elem p ((blocked, b.id) ∷ e.seen))
        → Elem p (pairs blocked (b ∷ bs)) ⊎ Elem p e.seen
    regroup (inl m) = inl (inr m)
    regroup (inr (inl q)) = inl (inl q)
    regroup (inr (inr m)) = inr m

    back :
        Elem p (pairs blocked (b ∷ bs)) ⊎ Elem p e.seen
        → Elem p (pairs blocked bs) ⊎ (Elem p ((blocked, b.id) ∷ e.seen))
    back (inl (inl q)) = inr (inl q)
    back (inl (inr m)) = inl m
    back (inr m) = inr (inr m)
