-- ===== src/Plan/Validate/Dependencies.antt =====
-- The outer loop over `BlockedBy`, and the maps that it leaves.
use mathlib.Core.List.{append-nil, append_assoc}
use mathlib.Core.Path.{fun_ext}
use ai_engineer_workflow.Prelude.{
  ℕ, Bool, true, false, ◌≡◌, refl, subst, sym, ◌∙◌, ◌⊎◌, inl, inr, List, [], ◌∷◌, ◌++◌, ◌==◌,
  if◌then◌else◌, has, has→Elem, Elem→has, Elem, All, Distinct, Distinct-append, Apart, Elem-append,
  Elem-append_left, Elem-append_right, arith, ==_iff,
}
use ai_engineer_workflow.Plan.Model.{Issue}
use ai_engineer_workflow.Plan.Cycle.Fuel.{IsClosed}
use ai_engineer_workflow.Plan.Validate.Spec.{
  ids, IsBlockerIn, IsEntry, pairs, dependencies, blockers_of,
}
use ai_engineer_workflow.Plan.Validate.Entries.{
  add_edges, add_entries, FreshBlockers, check_blockers-Fresh, Fresh-check_blockers,
  FreshBlockers-split, split-FreshBlockers, seen-add_edges,
}
use ai_engineer_workflow.Plan.Validate.{
  ok, >>=-ok, if-ok, ok-injective, Edges, no_edges, add_edge, check_blockers, check_entries,
}

module _ (root : Issue) (by_id : List ℕ) where
  -- The conditions on the entries that are left, after the edges `e`.
  pub record AreDependencies (e : Edges) (es : List (ℕ × List Issue)) : Type 0 where
    pub all_entries : All (IsEntry root by_id) es
    pub distinct_edges : Distinct (dependencies es)
    pub apart : Apart (dependencies es) e.seen

  AreDependencies-cons :
      (e : Edges) (blocked : ℕ) (bs : List Issue) (es : List (ℕ × List Issue))
      → Elem blocked by_id
      → FreshBlockers root by_id blocked e bs
      → AreDependencies (add_edges blocked e bs) es
      → AreDependencies e ((blocked, bs) ∷ es)
  AreDependencies-cons e blocked bs es inside fresh rest =
      let (all, d, apart) = FreshBlockers-split root by_id blocked e bs fresh in
      let seen = seen-add_edges blocked e bs in
      record {
        all_entries = ((inside, all), rest.all_entries);
        distinct_edges =
            (Distinct-append (pairs blocked bs) (dependencies es)).1
              (d, rest.distinct_edges, λ p m n. rest.apart p n ((seen p).1 (inl m)));
        apart = λ p m s. elim (Elem-append p (pairs blocked bs) (dependencies es) m) [
          | inl l ↦ apart p l s
          | inr r ↦ rest.apart p r ((seen p).1 (inr s))
        ];
      }

  AreDependencies-uncons :
      (e : Edges) (blocked : ℕ) (bs : List Issue) (es : List (ℕ × List Issue))
      → AreDependencies e ((blocked, bs) ∷ es)
      → Elem blocked by_id
        × FreshBlockers root by_id blocked e bs
        × AreDependencies (add_edges blocked e bs) es
  AreDependencies-uncons e blocked bs es h =
      let (d, d', apart) =
        (Distinct-append (pairs blocked bs) (dependencies es)).0 h.distinct_edges in
      let seen = seen-add_edges blocked e bs in
      (
        h.all_entries.0.0,
        split-FreshBlockers root by_id blocked e bs h.all_entries.0.1 d
            (λ p m s. h.apart p (Elem-append_left p (pairs blocked bs) (dependencies es) m) s),
        record {
          all_entries = h.all_entries.1;
          distinct_edges = d';
          apart = λ p m s. elim ((seen p).0 s) [
            | inl l ↦ apart p l m
            | inr r ↦ h.apart p (Elem-append_right p (pairs blocked bs) (dependencies es) m) r
          ];
        },
      )

  pub check_entries-AreDependencies :
      (e : Edges) (es : List (ℕ × List Issue)) {r : Edges}
      → check_entries root by_id e es ≡ ok r
      → AreDependencies e es
  unfolding check_entries
  check_entries-AreDependencies e [] h = record {
    all_entries = tt;
    distinct_edges = tt;
    apart = λ p m. elim m [ ];
  }
  check_entries-AreDependencies e ((blocked, bs) ∷ es) {r} h =
      let (known, run) = if-ok (has blocked by_id) _ _ h in
      let (e', inner, outer) = >>=-ok (check_blockers root by_id blocked e bs) _ run in
      let fresh = check_blockers-Fresh root by_id blocked e bs inner in
      let same : e' ≡ add_edges blocked e bs =
        ok-injective (sym inner ∙ Fresh-check_blockers root by_id blocked e bs fresh) in
      AreDependencies-cons e blocked bs es (has→Elem blocked by_id known) fresh (
        check_entries-AreDependencies (add_edges blocked e bs) es {r = r}
          (subst (λ x. check_entries root by_id x es ≡ ok r) same outer))

  pub AreDependencies-check_entries :
      (e : Edges) (es : List (ℕ × List Issue))
      → AreDependencies e es
      → check_entries root by_id e es ≡ ok (add_entries e es)
  unfolding check_entries
  AreDependencies-check_entries e [] h = refl
  AreDependencies-check_entries e ((blocked, bs) ∷ es) h =
      let (inside, fresh, rest) = AreDependencies-uncons e blocked bs es h in
      rw (Elem→has blocked by_id inside, Fresh-check_blockers root by_id blocked e bs fresh)
        (AreDependencies-check_entries (add_edges blocked e bs) es rest)

-- The map `adjacency` after the loops.
adjacency-add_edges :
    (blocked : ℕ) (e : Edges) (bs : List Issue) (k : ℕ)
    → (add_edges blocked e bs).adjacency k
      ≡ (if k == blocked then e.adjacency k ++ ids bs else e.adjacency k)
unfolding add_edge
adjacency-add_edges blocked e [] k = ground (arith, append-nil (e.adjacency k))
adjacency-add_edges blocked e (b ∷ bs) k = ground (
  arith,
  adjacency-add_edges blocked (add_edge blocked b.id e) bs k,
  append_assoc (e.adjacency k) (b.id ∷ []) (ids bs),
)

adjacency-add_entries :
    (e : Edges) (es : List (ℕ × List Issue)) (k : ℕ)
    → (add_entries e es).adjacency k ≡ e.adjacency k ++ blockers_of es k
adjacency-add_entries e [] k = sym (append-nil (e.adjacency k))
adjacency-add_entries e ((blocked, bs) ∷ es) k = ground (
  arith,
  adjacency-add_entries (add_edges blocked e bs) es k,
  adjacency-add_edges blocked e bs k,
  append_assoc (e.adjacency k) (ids bs) (blockers_of es k),
)

pub adjacency-no_edges :
    (es : List (ℕ × List Issue)) → (add_entries no_edges es).adjacency ≡ blockers_of es
adjacency-no_edges es = fun_ext (λ k. adjacency-add_entries no_edges es k)

Elem-if :
    (t : Bool) (b : ℕ) (xs ys : List ℕ)
    → Elem b (if t then xs ++ ys else ys)
    → ((t ≡ true) × Elem b xs) ⊎ Elem b ys
Elem-if true b xs ys h = elim (Elem-append b xs ys h) [ inl m ↦ inl (refl, m) | inr m ↦ inr m ]
Elem-if false b xs ys h = inr h

Elem-blockers :
    (root : Issue) (by_id : List ℕ) (b : ℕ) (bs : List Issue)
    → All (IsBlockerIn root by_id) bs
    → Elem b (ids bs)
    → Elem b by_id
Elem-blockers root by_id b [] all m = elim m [ ]
Elem-blockers root by_id b (x ∷ xs) (i, all) (inl p) = subst (λ z. Elem z by_id) (sym p) i.within
Elem-blockers root by_id b (x ∷ xs) (i, all) (inr m) = Elem-blockers root by_id b xs all m

-- Every edge of an accepted plan runs between its tickets.
pub blockers_of-IsClosed :
    (root : Issue) (by_id : List ℕ) (es : List (ℕ × List Issue))
    → All (IsEntry root by_id) es
    → IsClosed (blockers_of es) by_id
blockers_of-IsClosed root by_id [] all a b h = elim h [ ]
blockers_of-IsClosed root by_id ((blocked, bs) ∷ es) ((inside, bs_in), all) a b h =
    elim (Elem-if (a == blocked) b (ids bs) (blockers_of es a) h) [
      | inl (same, m) ↦ (
        subst (λ z. Elem z by_id) (sym ((==_iff a blocked).0 same)) inside,
        Elem-blockers root by_id b bs bs_in m,
      )
      | inr m ↦ blockers_of-IsClosed root by_id es all a b m
    ]
