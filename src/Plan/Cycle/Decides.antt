-- ===== src/Plan/Cycle/Decides.antt =====
-- The search answers rightly: a cycle that it reports is one, and where it reports none every
-- chain of blockers from a searched node ends.
use mathlib.Core.WellFounded.{Acc}
use ai_engineer_workflow.Prelude.{
  ℕ, zero, suc, true, false, ◌≡◌, refl, sym, subst, ◌⊎◌, inl, inr, none, some, List, [], ◌∷◌, Elem,
  All, ◌∙◌, ◌≢◌, ℕ_discrete, All→Elem, arith,
}
use ai_engineer_workflow.Plan.Cycle.Graph.{Chain, edge, further, Grounded}
use ai_engineer_workflow.Plan.Cycle.{
  Mark, Mark-cases, unseen, visiting, visited, Marks, set_mark, Search, or_else, visit_all, visit,
  visit_visiting, visit_visited, visit_unseen,
}

module _ (adjacency : ℕ → List ℕ) where
  -- What a part of the search that met no cycle leaves behind.
  pub record Settled (before after : Marks) : Type 0 where
    pub on_path : (k : ℕ) → after k ≡ visiting → before k ≡ visiting
    pub stays : (k : ℕ) → before k ≡ visited → after k ≡ visited
    pub grounded : (k : ℕ) → after k ≡ visited → Grounded adjacency k

  abbrev pub Cycle : Type 0
  Cycle = (k : ℕ) × Chain adjacency k k

  abbrev pub Correct : Marks → List ℕ → Search → Type 0
  Correct marks nodes none = Unit
  Correct marks nodes (some (true, m)) = Cycle
  Correct marks nodes (some (false, m)) = Settled marks m × All (λ k. m k ≡ visited) nodes

  -- What a call on `node` may assume: the marked path leads to it, and what is done is done.
  pub record Ready (marks : Marks) (node : ℕ) : Type 0 where
    pub leads : (k : ℕ) → marks k ≡ visiting → Chain adjacency k node
    pub done : (k : ℕ) → marks k ≡ visited → Grounded adjacency k

  Ready-after : {marks m : Marks} {node : ℕ} → Ready marks node → Settled marks m → Ready m node
  Ready-after r s = record { leads = λ k e. r.leads k (s.on_path k e); done = s.grounded }

  Settled-trans : {a b c : Marks} → Settled a b → Settled b c → Settled a c
  Settled-trans s t = record {
    on_path = λ k e. s.on_path k (t.on_path k e);
    stays = λ k e. t.stays k (s.stays k e);
    grounded = t.grounded;
  }

  -- The loop, for any step that answers rightly on each of its nodes.
  Correct-visit_all :
      (go : Marks → ℕ → Search)
      → ((m : Marks) (k : ℕ) → Ready m k → Correct m (k ∷ []) (go m k))
      → (nodes : List ℕ) (marks : Marks) → ((k : ℕ) → Elem k nodes → Ready marks k)
      → ((k : ℕ) → marks k ≡ visited → Grounded adjacency k)
      → Correct marks nodes (visit_all go marks nodes)
  unfolding visit_all
  Correct-visit_all go right [] marks ready done =
      (record { on_path = λ k e. e; stays = λ k e. e; grounded = done }, tt)
  Correct-visit_all go right (node ∷ rest) marks ready done =
      continue (go marks node) (right marks node (ready node (inl refl)))
        (λ m. Correct-visit_all go right rest m)
    where
      join :
          (m : Marks)
          → Settled marks m
          → m node ≡ visited
          → (s : Search) → Correct m rest s
          → Correct marks (node ∷ rest) s
      join m settled here none c = tt
      join m settled here (some (true, m')) c = c
      join m settled here (some (false, m')) (settled', all) =
          (Settled-trans settled settled', (settled'.stays node here, all))

      continue :
          (s : Search)
          → Correct marks (node ∷ []) s
          → ((m : Marks)
              → ((k : ℕ) → Elem k rest → Ready m k)
              → ((k : ℕ) → m k ≡ visited → Grounded adjacency k)
              → Correct m rest (visit_all go m rest))
          → Correct marks (node ∷ rest) (or_else s (λ m. visit_all go m rest))
      continue none c later = tt
      continue (some (true, m)) c later = c
      continue (some (false, m)) (settled, (here, _)) later =
          join m settled here (visit_all go m rest)
            (later m (λ k e. Ready-after (ready k (inr e)) settled) settled.grounded)

  mark_cases :
      (m : Marks) (node : ℕ) (v : Mark) (k : ℕ)
      → ((k ≡ node) × (set_mark m node v k ≡ v)) ⊎ ((k ≢ node) × (set_mark m node v k ≡ m k))
  mark_cases m node v k = elim (ℕ_discrete k node) [
    | yes e ↦ inl (e, ground arith)
    | no e ↦ inr (e, ground arith)
  ]

  Ready-blocker :
      (marks : Marks) (node : ℕ)
      → Ready marks node
      → (k : ℕ) → Elem k (adjacency node)
      → Ready (set_mark marks node visiting) k
  Ready-blocker marks node r k b = record {
    leads = λ j e. elim (mark_cases marks node visiting j) [
      | inl (p, q) ↦ subst (λ x. Chain adjacency x k) (sym p) (edge b)
      | inr (p, q) ↦ further (r.leads j (sym q ∙ e)) b
    ];
    done = λ j e. elim (mark_cases marks node visiting j) [
      | inl (p, q) ↦ cc
      | inr (p, q) ↦ r.done j (sym q ∙ e)
    ];
  }

  module _ (marks m : Marks) (node : ℕ) (new : marks node ≡ unseen) where
    -- After its blockers are settled, so is the node.
    Settled-node :
        Settled (set_mark marks node visiting) m
        → All (λ k. m k ≡ visited) (adjacency node)
        → Settled marks (set_mark m node visited)
    Settled-node s all = record {
      on_path = λ k e. elim (mark_cases m node visited k) [
        | inl (p, q) ↦ cc
        | inr (p, q) ↦ elim (mark_cases marks node visiting k) [
          | inl (p', q') ↦ absurd (p p')
          | inr (p', q') ↦ sym q' ∙ s.on_path k (sym q ∙ e)
        ]
      ];
      stays = λ k e. elim (mark_cases m node visited k) [
        | inl (p, q) ↦ q
        | inr (p, q) ↦ elim (mark_cases marks node visiting k) [
          | inl (p', q') ↦ absurd (p p')
          | inr (p', q') ↦ q ∙ s.stays k (q' ∙ e)
        ]
      ];
      grounded = λ k e. elim (mark_cases m node visited k) [
        | inl (p, q) ↦
            subst (Grounded adjacency) (sym p)
              (Acc.intro node (λ b h. s.grounded b (All→Elem _ (adjacency node) all b h)))
        | inr (p, q) ↦ s.grounded k (sym q ∙ e)
      ];
    }

  Correct-visit :
      (fuel : ℕ) (marks : Marks) (node : ℕ)
      → Ready marks node
      → Correct marks (node ∷ []) (visit fuel adjacency marks node)
  unfolding visit
  Correct-visit zero marks node r = tt
  Correct-visit (suc fuel) marks node r = elim (Mark-cases (marks node)) [
    | inl e ↦ rw (visit_unseen fuel adjacency marks node e) (
        finish e (visit_all (visit fuel adjacency) (set_mark marks node visiting) (adjacency node))
          (Correct-visit_all (visit fuel adjacency) (Correct-visit fuel) (adjacency node)
            (set_mark marks node visiting) (Ready-blocker marks node r) (done_before e)))
    | inr (inl e) ↦ rw (visit_visiting fuel adjacency marks node e) (node, r.leads node e)
    | inr (inr e) ↦
        rw (visit_visited fuel adjacency marks node e)
          (record { on_path = λ k h. h; stays = λ k h. h; grounded = r.done }, (e, tt))
  ]
    where
      done_before :
          marks node ≡ unseen
          → (k : ℕ) → set_mark marks node visiting k ≡ visited
          → Grounded adjacency k
      done_before new k e = elim (mark_cases marks node visiting k) [
        | inl (p, q) ↦ cc
        | inr (p, q) ↦ r.done k (sym q ∙ e)
      ]

      finish :
          marks node ≡ unseen
          → (s : Search) → Correct (set_mark marks node visiting) (adjacency node) s
          → Correct marks (node ∷ []) (or_else s (λ m. some (false, set_mark m node visited)))
      finish new none c = tt
      finish new (some (true, m)) c = c
      finish new (some (false, m)) (s, all) =
          (Settled-node marks m node new s all, (ground arith, tt))

-- Whatever the fuel, a search of all nodes from scratch is right about every node.
pub Correct-search :
    (adjacency : ℕ → List ℕ) (fuel : ℕ) (nodes : List ℕ)
    → Correct adjacency (λ k. unseen) nodes (visit_all (visit fuel adjacency) (λ k. unseen) nodes)
Correct-search adjacency fuel nodes =
    Correct-visit_all adjacency (visit fuel adjacency) (Correct-visit adjacency fuel) nodes
      (λ k. unseen) (λ k h. record { leads = λ j e. cc; done = λ j e. cc }) (λ k e. cc)
