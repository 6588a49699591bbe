-- ===== src/Plan/Frontier/Selection.antt =====
-- What `ReadyFrontier` returns.
use ai_engineer_workflow.Prelude.{
  ℕ, suc, ◌+◌, ◌-◌, ◌≤◌, ◌<◌, true, false, ◌≡◌, refl, sym, subst, ◌⊎◌, inl, inr, some, List, [],
  ◌∷◌, map, Elem, Elem-keep, keep-Elem, Elem-take, Elem-map, map-Elem, All, All→Elem, Elem→All,
  length, keep, length-take-le, str_eq, leb, eq_iff, arith, Bool-cases, Option-cases,
}
use ai_engineer_workflow.Prelude.Sort.{
  sort_by, Elem-sort_by, sort_by-Elem, SortedBy, sort_by-SortedBy, SortedBy-take, take-SortedBy,
}
use ai_engineer_workflow.Plan.Cycle.Graph.{Chain}
use ai_engineer_workflow.Plan.Frontier.Order.{before-StrictWeak, Precedes, not_before→}
use ai_engineer_workflow.Plan.Frontier.Fuel.{ranks_of_total}
use ai_engineer_workflow.Plan.Frontier.Rank.{IsHeight, IsHeight-rank_each}
use ai_engineer_workflow.Plan.Frontier.{
  FrontierTicket, FrontierSnapshot, Ranks, before, blockers, by_id, ids, universe, all_delivered,
  is_ready, rank_at, with_rank, ranks_of, select, ready_frontier, state_active,
}

-- Every blocker is a ticket of the plan that is delivered.
abbrev pub BlockersDelivered : List FrontierTicket → List ℕ → Type 0
BlockersDelivered ts bs =
    (b : ℕ) → Elem b bs → (u : FrontierTicket) × (by_id ts b ≡ some u) × (u.delivered ≡ true)

all_delivered→ :
    (ts : List FrontierTicket) (bs : List ℕ) → all_delivered ts bs ≡ true → BlockersDelivered ts bs
unfolding all_delivered
all_delivered→ ts [] h b m = elim m [ ]
all_delivered→ ts (x ∷ bs) h b m = elim (Option-cases (by_id ts x)) [
  | inl e ↦ absurd (ground arith)
  | inr (u, e) ↦ elim m [
    | inl p ↦ (u, subst (λ z. by_id ts z ≡ some u) (sym p) e, ground arith)
    | inr m' ↦ all_delivered→ ts bs (ground arith) b m'
  ]
]

→all_delivered :
    (ts : List FrontierTicket) (bs : List ℕ) → BlockersDelivered ts bs → all_delivered ts bs ≡ true
unfolding all_delivered
→all_delivered ts [] d = refl
→all_delivered ts (x ∷ bs) d =
    let (u, e, done) = d x (inl refl) in ground (arith, →all_delivered ts bs (λ b m. d b (inr m)))

-- A ticket that may be dispatched.
pub record IsDispatchable (s : FrontierSnapshot) (t : FrontierTicket) : Type 0 where
  pub undelivered : t.delivered ≡ false
  pub unowned : t.owner ≡ ""
  pub unblocked : BlockersDelivered s.tickets (blockers s.dependencies t.issue_id)

is_ready→ : (s : FrontierSnapshot) (t : FrontierTicket) → is_ready s t ≡ true → IsDispatchable s t
unfolding is_ready
is_ready→ s t h = record {
  undelivered = ground arith;
  unowned = ground (arith, eq_iff t.owner "");
  unblocked = all_delivered→ s.tickets (blockers s.dependencies t.issue_id) (ground arith);
}

→is_ready : (s : FrontierSnapshot) (t : FrontierTicket) → IsDispatchable s t → is_ready s t ≡ true
unfolding is_ready
→is_ready s t d = ground (
  arith,
  d.undelivered,
  d.unowned,
  eq_iff t.owner "",
  →all_delivered s.tickets (blockers s.dependencies t.issue_id) d.unblocked,
)

-- The two ways in which `ReadyFrontier` returns.
ready_frontier-cases :
    (s : FrontierSnapshot) (r : List FrontierTicket)
    → ready_frontier s ≡ some r
    → (r ≡ [])
      ⊎ ((s.plan_state ≡ state_active)
          × (s.active_runs < s.max_parallel)
          × ((ranks : Ranks) × (ranks_of s ≡ some ranks) × (r ≡ select s ranks)))
unfolding ready_frontier
ready_frontier-cases s r h = elim (Option-cases (ranks_of s)) [
  | inl e ↦ inl (cc (e, (ranks_of_total s).1))
  | inr (ranks, e) ↦ elim (Bool-cases (str_eq s.plan_state state_active)) [
    | inr inactive ↦ inl (ground arith)
    | inl active ↦ elim (Bool-cases (leb s.max_parallel s.active_runs)) [
      | inl full ↦ inl (ground arith)
      | inr room ↦
          inr ((eq_iff s.plan_state state_active).0 active, ground arith, (ranks, e, ground arith))
    ]
  ]
]

ready_frontier-active :
    (s : FrontierSnapshot) (ranks : Ranks)
    → s.plan_state ≡ state_active
    → s.active_runs < s.max_parallel
    → ranks_of s ≡ some ranks
    → ready_frontier s ≡ some (select s ranks)
unfolding ready_frontier
ready_frontier-active s ranks active room known = ground (arith, eq_iff s.plan_state state_active)

module _ (s : FrontierSnapshot) (ranks : Ranks) where
  abbrev unsorted : List FrontierTicket
  unsorted = map (with_rank ranks) (keep (is_ready s) s.tickets)

  abbrev sorted : List FrontierTicket
  sorted = sort_by before unsorted

  select-Elem :
      (t : FrontierTicket)
      → Elem t (select s ranks)
      → (u : FrontierTicket) × Elem u s.tickets × IsDispatchable s u × (t ≡ with_rank ranks u)
  unfolding select
  select-Elem t m =
      let m'' =
        Elem-sort_by before unsorted t (Elem-take (s.max_parallel - s.active_runs) sorted t m) in
      let (u, m', e) = Elem-map (with_rank ranks) (keep (is_ready s) s.tickets) t m'' in
      let (inside, ready) = Elem-keep (is_ready s) s.tickets u m' in
      (u, inside, is_ready→ s u ready, e)

  select_complete :
      (u : FrontierTicket)
      → Elem u s.tickets
      → IsDispatchable s u
      → Elem (with_rank ranks u) (select s ranks)
        ⊎ ((length (select s ranks) ≡ s.max_parallel - s.active_runs)
            × ((t : FrontierTicket)
                → Elem t (select s ranks)
                → before (with_rank ranks u) t ≡ false))
  unfolding select
  select_complete u m d =
      take-SortedBy before (s.max_parallel - s.active_runs) sorted (with_rank ranks u)
        (sort_by-SortedBy before before-StrictWeak unsorted)
        (sort_by-Elem before unsorted (with_rank ranks u) (
          map-Elem (with_rank ranks) (keep (is_ready s) s.tickets) u
            (keep-Elem (is_ready s) s.tickets u m (→is_ready s u d))))

  select-SortedBy : SortedBy before (select s ranks)
  unfolding select
  select-SortedBy =
      SortedBy-take before (s.max_parallel - s.active_runs) sorted
        (sort_by-SortedBy before before-StrictWeak unsorted)

  select-le : length (select s ranks) ≤ s.max_parallel - s.active_runs
  unfolding select
  select-le = length-take-le (s.max_parallel - s.active_runs) sorted

-- `ReadyFrontier` always returns.
pub ready_frontier_total :
    (s : FrontierSnapshot) → (r : List FrontierTicket) × (ready_frontier s ≡ some r)
unfolding ready_frontier
ready_frontier_total s = elim (Bool-cases (str_eq s.plan_state state_active)) [
  | inr inactive ↦ ([], ground arith)
  | inl active ↦ elim (Bool-cases (leb s.max_parallel s.active_runs)) [
    | inl full ↦ ([], ground arith)
    | inr room ↦ let (ranks, e) = ranks_of_total s in (select s ranks, ground arith)
  ]
]

-- No ticket of the list precedes one before it.
abbrev pub InOrder : List FrontierTicket → Type 0
InOrder [] = Unit
InOrder (t ∷ ts) = All (λ u. Precedes u t → ⊥) ts × InOrder ts

SortedBy-InOrder : (ts : List FrontierTicket) → SortedBy before ts → InOrder ts
SortedBy-InOrder [] h = tt
SortedBy-InOrder (t ∷ ts) (q, h) =
    (Elem→All _ ts (λ u m. not_before→ u t (All→Elem _ ts q u m)), SortedBy-InOrder ts h)

abbrev pub IsAcyclic : FrontierSnapshot → Type 0
IsAcyclic s = (k : ℕ) → Chain (blockers s.dependencies) k k → ⊥

-- With no cycle, the recorded rank of each ticket is its height.
ranks-IsHeight :
    (s : FrontierSnapshot) (ranks : Ranks)
    → IsAcyclic s
    → ranks_of s ≡ some ranks
    → (u : FrontierTicket) → Elem u s.tickets
    → IsHeight (blockers s.dependencies) u.issue_id (rank_at ranks u.issue_id)
unfolding ranks_of
ranks-IsHeight s ranks acyclic known u m =
    let (v, here, h) =
      IsHeight-rank_each (blockers s.dependencies) acyclic (suc (length (universe s)))
        (ids s.tickets) ranks known u.issue_id (map-Elem (λ t. t.issue_id) s.tickets u m) in
    let at_rank : v ≡ rank_at ranks u.issue_id = ground arith in
    subst (IsHeight (blockers s.dependencies) u.issue_id) at_rank h

module _ (s : FrontierSnapshot) (r : List FrontierTicket)
    (returns : ready_frontier s ≡ some r) where
  -- Every ticket of the frontier is a ticket of an active plan with spare capacity, undelivered,
  -- unowned, with all its blockers delivered, and only its rank was set.
  pub frontier_sound :
      (t : FrontierTicket)
      → Elem t r
      → (s.plan_state ≡ state_active)
        × (s.active_runs < s.max_parallel)
        × ((u : FrontierTicket) × Elem u s.tickets
            × IsDispatchable s u
            × (t ≡ record u { rank = t.rank }))
  frontier_sound t m = elim (ready_frontier-cases s r returns) [
    | inl e ↦ elim (subst (Elem t) e m) [ ]
    | inr (active, room, (ranks, known, e)) ↦
        let (u, inside, d, p) = select-Elem s ranks t (subst (Elem t) e m) in
        (active, room, (u, inside, d, rw p))
  ]

  -- The frontier fits in the capacity that is left.
  pub length-frontier-le : length r ≤ s.max_parallel - s.active_runs
  length-frontier-le = elim (ready_frontier-cases s r returns) [
    | inl e ↦ rw e (omega arith)
    | inr (active, room, (ranks, known, e)) ↦ rw e (select-le s ranks)
  ]

  -- No ticket of the frontier precedes, by rank, number and id, one that stands before it.
  pub frontier-InOrder : InOrder r
  frontier-InOrder = elim (ready_frontier-cases s r returns) [
    | inl e ↦ rw e tt
    | inr (active, room, (ranks, known, e)) ↦
        rw e (SortedBy-InOrder (select s ranks) (select-SortedBy s ranks))
  ]

  module _ (acyclic : IsAcyclic s) where
    -- With no cycle of blockers, the rank of a ticket of the frontier is the length of the longest
    -- chain of blockers below it.
    pub frontier-IsHeight :
        (t : FrontierTicket) → Elem t r → IsHeight (blockers s.dependencies) t.issue_id t.rank
    frontier-IsHeight t m = elim (ready_frontier-cases s r returns) [
      | inl e ↦ elim (subst (Elem t) e m) [ ]
      | inr (active, room, (ranks, known, e)) ↦
          let (u, inside, d, p) = select-Elem s ranks t (subst (Elem t) e m) in
          subst (λ x. IsHeight (blockers s.dependencies) x.issue_id x.rank) (sym p)
            (ranks-IsHeight s ranks acyclic known u inside)
    ]

    -- A dispatchable ticket of an active plan with spare capacity is in the frontier, with its
    -- height as its rank, or the frontier fills the capacity with tickets that it does not
    -- precede.
    pub frontier_complete :
        s.plan_state ≡ state_active
        → s.active_runs < s.max_parallel
        → (u : FrontierTicket) → Elem u s.tickets
        → IsDispatchable s u
        → (v : ℕ) × IsHeight (blockers s.dependencies) u.issue_id v
          × (Elem (record u { rank = v }) r
              ⊎ ((s.active_runs + length r ≡ s.max_parallel)
                  × ((t : FrontierTicket) → Elem t r → Precedes (record u { rank = v }) t → ⊥)))
    frontier_complete active room u inside d =
        let (ranks, known) = ranks_of_total s in
        let same : r ≡ select s ranks =
          cc (returns, ready_frontier-active s ranks active room known) in
        (
          rank_at ranks u.issue_id,
          ranks-IsHeight s ranks acyclic known u inside,
          rw same (in_or_full ranks (select_complete s ranks u inside d)),
        )
      where
        in_or_full :
            (ranks : Ranks)
            → Elem (with_rank ranks u) (select s ranks)
              ⊎ ((length (select s ranks) ≡ s.max_parallel - s.active_runs)
                  × ((t : FrontierTicket)
                      → Elem t (select s ranks)
                      → before (with_rank ranks u) t ≡ false))
            → Elem (with_rank ranks u) (select s ranks)
              ⊎ ((s.active_runs + length (select s ranks) ≡ s.max_parallel)
                  × ((t : FrontierTicket)
                      → Elem t (select s ranks)
                      → Precedes (with_rank ranks u) t
                      → ⊥))
        in_or_full ranks (inl m) = inl m
        in_or_full ranks (inr (full, after)) =
            inr (omega arith, λ t m p. not_before→ (with_rank ranks u) t (after t m) p)
