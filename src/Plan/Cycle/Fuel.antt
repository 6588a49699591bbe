-- ===== src/Plan/Cycle/Fuel.antt =====
-- One unit of fuel more than there are nodes is enough, so `hasCycle` decides whether there is a
-- cycle.
use ai_engineer_workflow.Prelude.{
  ℕ, zero, suc, ◌≤◌, ◌<◌, Bool, true, false, ◌≡◌, refl, ◌⊎◌, inl, inr, ◌↔◌, ◌≢◌, none, some, List,
  [], ◌∷◌, Elem, All, All→Elem, Elem→All, length-keep-le, length, keep, arith,
}
use ai_engineer_workflow.Plan.Cycle.Graph.{Chain, edge, further, Grounded, Grounded-acyclic}
use ai_engineer_workflow.Plan.Cycle.Decides.{Cycle, Correct, Correct-search}
use ai_engineer_workflow.Plan.Cycle.{
  Mark, Mark-cases, unseen, visiting, visited, Marks, set_mark, Search, or_else, visit_all, visit,
  visit_visiting, visit_visited, visit_unseen, answer, has_cycle,
}

abbrev is_unseen : Mark → Bool
is_unseen unseen = true
is_unseen _ = false

-- How many of the nodes are still unseen.
abbrev unseen_count : Marks → List ℕ → ℕ
unseen_count m nodes = length (keep (λ k. is_unseen (m k)) nodes)

abbrev NoNew : Marks → Marks → Type 0
NoNew before after = (k : ℕ) → after k ≡ unseen → before k ≡ unseen

unseen_count-le :
    (before after : Marks) (nodes : List ℕ)
    → NoNew before after
    → unseen_count after nodes ≤ unseen_count before nodes
unseen_count-le before after [] h = omega arith
unseen_count-le before after (x ∷ xs) h = ground (arith, h x, unseen_count-le before after xs h)

NoNew-set_mark : (m : Marks) (node : ℕ) (v : Mark) → v ≢ unseen → NoNew m (set_mark m node v)
NoNew-set_mark m node v w k e = ground arith

unseen_count-lt :
    (m : Marks) (node : ℕ) (nodes : List ℕ)
    → Elem node nodes
    → m node ≡ unseen
    → suc (unseen_count (set_mark m node visiting) nodes) ≤ unseen_count m nodes
unseen_count-lt m node [] h e = elim h [ ]
unseen_count-lt m node (x ∷ xs) (inl p) e = ground (
  arith,
  unseen_count-le m (set_mark m node visiting) xs (NoNew-set_mark m node visiting (λ q. cc)),
)
unseen_count-lt m node (x ∷ xs) (inr h) e =
    ground (arith, unseen_count-lt m node xs h e, NoNew-set_mark m node visiting (λ q. cc) x)

-- The search came to an answer, and made no node unseen.
abbrev Ends : Marks → Search → Type 0
Ends before none = ⊥
Ends before (some (found, after)) = NoNew before after

module _ (adjacency : ℕ → List ℕ) (nodes : List ℕ) where
  -- Both ends of every edge are nodes.
  abbrev pub IsClosed : Type 0
  IsClosed = (a b : ℕ) → Elem b (adjacency a) → Elem a nodes × Elem b nodes

  Ends-or_else :
      (before : Marks) (s : Search) (later : Marks → Search)
      → Ends before s
      → ((m : Marks) → NoNew before m → Ends m (later m))
      → Ends before (or_else s later)
  Ends-or_else before none later h next = elim h [ ]
  Ends-or_else before (some (true, m)) later h next = h
  Ends-or_else before (some (false, m)) later h next = through (later m) (next m h)
    where
      through : (s : Search) → Ends m s → Ends before s
      through none e = elim e [ ]
      through (some (found, m')) e = λ k p. h k (e k p)

  Ends-visit_all :
      (fuel : ℕ) (go : Marks → ℕ → Search)
      → ((m : Marks) (k : ℕ) → Elem k nodes → unseen_count m nodes < fuel → Ends m (go m k))
      → (ns : List ℕ) (marks : Marks) → ((k : ℕ) → Elem k ns → Elem k nodes)
      → unseen_count marks nodes < fuel
      → Ends marks (visit_all go marks ns)
  unfolding visit_all
  Ends-visit_all fuel go ends [] marks inside enough = λ k e. e
  Ends-visit_all fuel go ends (n ∷ ns) marks inside enough =
      Ends-or_else marks (go marks n) (λ m. visit_all go m ns)
        (ends marks n (inside n (inl refl)) enough)
        (λ m same.
          Ends-visit_all fuel go ends ns m (λ k e. inside k (inr e))
            (omega (arith, unseen_count-le marks m nodes same)))

  Ends-visit :
      IsClosed
      → (fuel : ℕ) (marks : Marks) (node : ℕ) → Elem node nodes
      → unseen_count marks nodes < fuel
      → Ends marks (visit fuel adjacency marks node)
  Ends-visit closed zero marks node inside enough = absurd (omega arith)
  Ends-visit closed (suc fuel) marks node inside enough = elim (Mark-cases (marks node)) [
    | inl e ↦ rw (visit_unseen fuel adjacency marks node e) (
        finish e (
          Ends-visit_all fuel (visit fuel adjacency) (Ends-visit closed fuel) (adjacency node)
            (set_mark marks node visiting) (λ k h. (closed node k h).1)
            (omega (arith, unseen_count-lt marks node nodes inside e))))
    | inr (inl e) ↦ rw (visit_visiting fuel adjacency marks node e) (λ k h. h)
    | inr (inr e) ↦ rw (visit_visited fuel adjacency marks node e) (λ k h. h)
  ]
    where
      weaken : (s : Search) → Ends (set_mark marks node visiting) s → Ends marks s
      weaken none h = h
      weaken (some (found, m)) h = λ k e. NoNew-set_mark marks node visiting (λ q. cc) k (h k e)

      finish :
          marks node ≡ unseen
          → Ends
              (set_mark marks node visiting)
              (visit_all (visit fuel adjacency) (set_mark marks node visiting) (adjacency node))
          → Ends marks (
              or_else
                (visit_all (visit fuel adjacency) (set_mark marks node visiting) (adjacency node))
                (λ m. some (false, set_mark m node visited)))
      finish new h =
          Ends-or_else marks _ (λ m. some (false, set_mark m node visited)) (weaken _ h)
            (λ m same. NoNew-set_mark m node visited (λ q. cc))

  search-Ends :
      IsClosed
      → Ends (λ k. unseen) (visit_all (visit (suc (length nodes)) adjacency) (λ k. unseen) nodes)
  search-Ends closed =
      Ends-visit_all (suc (length nodes)) (visit (suc (length nodes)) adjacency)
        (Ends-visit closed (suc (length nodes))) nodes (λ k. unseen) (λ k h. h)
        (omega (arith, length-keep-le (λ k. is_unseen unseen) nodes))

  -- Between nodes that every edge stays within, `hasCycle` comes to an answer: either it says yes
  -- and there is a cycle, or it says no and every chain of blockers from a node ends.
  pub has_cycle_decides :
      IsClosed
      → ((has_cycle nodes adjacency ≡ some true) × Cycle adjacency)
        ⊎ ((has_cycle nodes adjacency ≡ some false) × All (Grounded adjacency) nodes)
  unfolding has_cycle
  has_cycle_decides closed =
      by_search _ (search-Ends closed) (Correct-search adjacency (suc (length nodes)) nodes)
    where
      by_search :
          (s : Search)
          → Ends (λ k. unseen) s
          → Correct adjacency (λ k. unseen) nodes s
          → ((answer s ≡ some true) × Cycle adjacency)
            ⊎ ((answer s ≡ some false) × All (Grounded adjacency) nodes)
      by_search none e c = elim e [ ]
      by_search (some (true, m)) e c = inl (refl, c)
      by_search (some (false, m)) e (s, all) =
          inr (refl, Elem→All _ nodes (λ k h. s.grounded k (All→Elem _ nodes all k h)))

  Grounded→no_cycle : IsClosed → All (Grounded adjacency) nodes → Cycle adjacency → ⊥
  Grounded→no_cycle closed all (k, ch) =
      Grounded-acyclic adjacency k (All→Elem _ nodes all k (chain_node ch)) ch
    where
      chain_node : {a b : ℕ} → Chain adjacency a b → Elem a nodes
      chain_node (edge e) = (closed _ _ e).0
      chain_node (further ch e) = chain_node ch

  -- Between nodes that every edge stays within, `hasCycle` answers yes exactly when some node is
  -- reached from itself along blockers, and no exactly when there is none.
  pub has_cycle_iff :
      IsClosed
      → ((has_cycle nodes adjacency ≡ some true) ↔ Cycle adjacency)
        × ((has_cycle nodes adjacency ≡ some false) ↔ (Cycle adjacency → ⊥))
  has_cycle_iff closed = elim (has_cycle_decides closed) [
    | inl (e, c) ↦ (((λ h. c), (λ h. e)), ((λ h. cc), (λ h. absurd (h c))))
    | inr (e, g) ↦ (
      ((λ h. cc), (λ h. absurd (Grounded→no_cycle closed g h))),
      ((λ h. Grounded→no_cycle closed g), (λ h. e)),
    )
  ]
