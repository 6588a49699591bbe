-- ===== src/Store/Dispatch/Frontier.antt =====
-- What `GlobalReadyFrontier` of internal/store/dispatch.go returns: it always returns, and its
-- candidates are ready tickets of active plans, within the free capacity.
use ai_engineer_workflow.Prelude.{
  ℕ, zero, suc, ◌+◌, ◌-◌, ◌≤◌, ◌<◌, true, List, [], ◌∷◌, ◌++◌, ◌≡◌, refl, ap, length, take, drop,
  arith, sym, ◌∙◌, some, String, ◌≢◌, keep, Elem, inl, inr, Elem-take, Elem-append, length-take-le,
  Elem-keep, Elem-map, subst, ◌⊎◌, eq_iff,
}
use ai_engineer_workflow.Prelude.Sort.{sort_by, Elem-sort_by}
use ai_engineer_workflow.Plan.Frontier.{FrontierTicket, ready_frontier}
use ai_engineer_workflow.Plan.Frontier.Selection.{ready_frontier_total}
use ai_engineer_workflow.Store.Dispatch.{
  GlobalPlanFrontier, PlanRow, PlanRoot, preview, add_plan, DispatchCandidate, candidate, Database,
  is_listed, row_before, plan_before, frontiers, sort_global_plans, global_ready_frontier,
}
use ai_engineer_workflow.Store.Errors.{ok, err, err_invalid_claim, err_capacity}
use ai_engineer_workflow.Store.Dispatch.Deal.{rounds, rotate, head, heads, tail, tails}
use ai_engineer_workflow.Store.Dispatch.Fairness.{start_of, dealt-rounds}

-- The candidate is a ticket of one of the plans.
abbrev pub IsFrom : List GlobalPlanFrontier → DispatchCandidate → Type 0
IsFrom plans c =
    (p : GlobalPlanFrontier) × (t : FrontierTicket) × Elem p plans
    × Elem t p.tickets
    × (c ≡ candidate p.root t)

Elem-first :
    (root : PlanRoot) (ts : List FrontierTicket) (c : DispatchCandidate)
    → Elem c (elim ts [ [] ↦ [] | t ∷ rest ↦ candidate root t ∷ [] ])
    → (t : FrontierTicket) × Elem t ts × (c ≡ candidate root t)
Elem-first root [] c h = elim h [ ]
Elem-first root (t ∷ ts) c (inl e) = (t, inl refl, e)
Elem-first root (t ∷ ts) c (inr h) = elim h [ ]

Elem-heads :
    (ps : List GlobalPlanFrontier) (c : DispatchCandidate) → Elem c (heads ps) → IsFrom ps c
Elem-heads [] c h = elim h [ ]
Elem-heads (p ∷ ps) c h = elim (Elem-append c (head p) (heads ps) h) [
  | inl m ↦ let (t, n, e) = Elem-first p.root p.tickets c m in (p, t, inl refl, n, e)
  | inr m ↦ let (q, t, l, n, e) = Elem-heads ps c m in (q, t, inr l, n, e)
]

Elem-drop : {A : Type 0} → (xs : List A) (a : A) → Elem a (drop 1 xs) → Elem a xs
Elem-drop [] a h = h
Elem-drop (x ∷ xs) a h = inr h

IsFrom-tails :
    (ps : List GlobalPlanFrontier) (c : DispatchCandidate) → IsFrom (tails ps) c → IsFrom ps c
IsFrom-tails ps c (p, t, m, n, e) =
    let (q, l, eq) = Elem-map tail ps p m in
    (
      q,
      t,
      l,
      Elem-drop q.tickets t (subst (λ r. Elem t r.tickets) eq n),
      e ∙ ap (λ r. candidate r.root t) eq,
    )

IsFrom-rounds :
    (k : ℕ) (ps : List GlobalPlanFrontier) (c : DispatchCandidate)
    → Elem c (rounds k ps)
    → IsFrom ps c
unfolding rounds
IsFrom-rounds zero ps c h = elim h [ ]
IsFrom-rounds (suc k) ps c h = elim (Elem-append c (heads ps) (rounds k (tails ps)) h) [
  | inl m ↦ Elem-heads ps c m
  | inr m ↦ IsFrom-tails ps c (IsFrom-rounds k (tails ps) c m)
]

Elem-rotate :
    {A : Type 0} → (n : ℕ) (xs : List A) (a : A) → Elem a (drop n xs ++ take n xs) → Elem a xs
Elem-rotate {A = A} n xs a h = elim (Elem-append a (drop n xs) (take n xs) h) [
  | inl m ↦ drop-Elem n xs m
  | inr m ↦ Elem-take n xs a m
]
  where
    drop-Elem : (n : ℕ) (xs : List A) → Elem a (drop n xs) → Elem a xs
    drop-Elem zero xs h = h
    drop-Elem (suc n) [] h = h
    drop-Elem (suc n) (x ∷ xs) h = inr (drop-Elem n xs h)

frontiers_step :
    (active_runs max_parallel : ℕ) (row : PlanRow) (rows : List PlanRow)
    → (tickets : List FrontierTicket) (rest : List GlobalPlanFrontier)
    → ready_frontier (preview active_runs max_parallel row) ≡ some tickets
    → frontiers active_runs max_parallel rows ≡ some rest
    → frontiers active_runs max_parallel (row ∷ rows) ≡ some (add_plan row.root tickets rest)
unfolding frontiers
frontiers_step active_runs max_parallel row rows tickets rest e f = rw (frontiers, e, f) refl

frontiers_total :
    (active_runs max_parallel : ℕ) (rows : List PlanRow)
    → (plans : List GlobalPlanFrontier) × (frontiers active_runs max_parallel rows ≡ some plans)
unfolding frontiers
frontiers_total active_runs max_parallel [] = ([], refl)
frontiers_total active_runs max_parallel (row ∷ rows) =
    let (tickets, e) = ready_frontier_total (preview active_runs max_parallel row) in
    let (rest, f) = frontiers_total active_runs max_parallel rows in
    (
      add_plan row.root tickets rest,
      frontiers_step active_runs max_parallel row rows tickets rest e f,
    )

-- A plan with ready tickets, of one of the rows.
abbrev pub IsReadyPlan : ℕ → ℕ → List PlanRow → GlobalPlanFrontier → Type 0
IsReadyPlan active_runs max_parallel rows p =
    (row : PlanRow) × Elem row rows
    × (p.root ≡ row.root)
    × (ready_frontier (preview active_runs max_parallel row) ≡ some p.tickets)

module _ (active_runs max_parallel : ℕ) where
  Elem-add_plan :
      (row : PlanRow) (tickets : List FrontierTicket) (rest : List GlobalPlanFrontier)
      (p : GlobalPlanFrontier)
      → Elem p (add_plan row.root tickets rest)
      → ((p.root ≡ row.root) × (p.tickets ≡ tickets)) ⊎ Elem p rest
  Elem-add_plan row [] rest p h = inr h
  Elem-add_plan row (t ∷ ts) rest p (inl e) = inl (ap (λ q. q.root) e, ap (λ q. q.tickets) e)
  Elem-add_plan row (t ∷ ts) rest p (inr h) = inr h

  frontiers-Ready :
      (rows : List PlanRow) (plans : List GlobalPlanFrontier)
      → frontiers active_runs max_parallel rows ≡ some plans
      → (p : GlobalPlanFrontier) → Elem p plans
      → IsReadyPlan active_runs max_parallel rows p
  unfolding frontiers
  frontiers-Ready [] plans e p m =
      let none_left : [] ≡ plans = cc in elim (subst (λ ps. Elem p ps) (sym none_left) m) [ ]
  frontiers-Ready (row ∷ rows) plans e p m =
      let (tickets, e1) = ready_frontier_total (preview active_runs max_parallel row) in
      let (rest, e2) = frontiers_total active_runs max_parallel rows in
      let step = frontiers_step active_runs max_parallel row rows tickets rest e1 e2 in
      let same : plans ≡ add_plan row.root tickets rest = cc in
      elim (Elem-add_plan row tickets rest p (subst (λ ps. Elem p ps) same m)) [
        | inl (r, t) ↦ (row, inl refl, r, e1 ∙ ap some (sym t))
        | inr l ↦ let (row', l', r, t) = frontiers-Ready rows rest e2 p l in (row', inr l', r, t)
      ]

module _ (db : Database) (repository : String) (max_parallel : ℕ) where
  abbrev listed : List PlanRow
  listed = sort_by row_before (keep (is_listed repository) db.plans)

  -- A result with candidates is a dealing of the listed plans, behind the two guards.
  global_ready_frontier-dealt :
      (cs : List DispatchCandidate)
      → global_ready_frontier db repository max_parallel ≡ ok cs
      → (plans : List GlobalPlanFrontier) × (frontiers db.active_runs max_parallel listed
          ≡ some plans)
        × (cs
            ≡ take (max_parallel - db.active_runs) (
                rounds (max_parallel - db.active_runs) (
                  rotate
                    (start_of db repository
                      (max_parallel - db.active_runs)
                      (sort_global_plans plans))
                    (sort_global_plans plans))))
  unfolding global_ready_frontier
  global_ready_frontier-dealt cs e =
      let (plans, f) = frontiers_total db.active_runs max_parallel listed in
      let d =
        dealt-rounds db repository (max_parallel - db.active_runs) (sort_global_plans plans) in
      (plans, f, ground (arith, e, f, d))

  -- `GlobalReadyFrontier` always returns. An empty repository or a limit of zero is an invalid
  -- claim; else a limit that the active runs reach is a capacity error; else there is a result,
  -- with at most as many candidates as the limit leaves free.
  pub global_ready_frontier_total :
      ((repository ≡ "") ⊎ (max_parallel ≡ 0)
        → global_ready_frontier db repository max_parallel ≡ err err_invalid_claim)
      × (repository ≢ ""
          → max_parallel ≢ 0
          → max_parallel ≤ db.active_runs
          → global_ready_frontier db repository max_parallel ≡ err err_capacity)
      × (repository ≢ ""
          → db.active_runs < max_parallel
          → (cs : List DispatchCandidate) × (global_ready_frontier db repository max_parallel
              ≡ ok cs)
            × (length cs + db.active_runs ≤ max_parallel))
  unfolding global_ready_frontier
  global_ready_frontier_total =
      let (plans, f) = frontiers_total db.active_runs max_parallel listed in
      let room = max_parallel - db.active_runs in
      let d = dealt-rounds db repository room (sort_global_plans plans) in
      let cs = take room (
        rounds room (
          rotate (start_of db repository room (sort_global_plans plans))
            (sort_global_plans plans))) in
      let bound = length-take-le room (
        rounds room (
          rotate (start_of db repository room (sort_global_plans plans))
            (sort_global_plans plans))) in
      (
        (λ h. ground (arith, h, eq_iff repository "")),
        (λ named positive full. ground (arith, eq_iff repository "")),
        (λ named free.
            (cs, ground (arith, f, d, eq_iff repository ""), omega (arith, bound, free))),
      )

  -- Every candidate that `GlobalReadyFrontier` returns is a ticket of the ready frontier of a plan
  -- of the repository that is active, and carries the root of that plan.
  pub global_ready_frontier_sound :
      (cs : List DispatchCandidate)
      → global_ready_frontier db repository max_parallel ≡ ok cs
      → (c : DispatchCandidate) → Elem c cs
      → (row : PlanRow) × (ready : List FrontierTicket) × Elem row db.plans
        × (is_listed repository row ≡ true)
        × (ready_frontier (preview db.active_runs max_parallel row) ≡ some ready)
        × Elem c.ticket ready
        × (c ≡ candidate row.root c.ticket)
  unfolding sort_global_plans
  global_ready_frontier_sound cs e c m =
      let room = max_parallel - db.active_runs in
      let (plans, f, dealing) = global_ready_frontier-dealt cs e in
      let sorted = sort_global_plans plans in
      let start = start_of db repository room sorted in
      let m1 =
        Elem-take room (rounds room (rotate start sorted)) c (subst (λ xs. Elem c xs) dealing m) in
      let (p, t, l, n, eq) = IsFrom-rounds room (rotate start sorted) c m1 in
      let l' = Elem-sort_by plan_before plans p (Elem-rotate start sorted p l) in
      let (row, lr, r, ready) = frontiers-Ready db.active_runs max_parallel listed plans f p l' in
      let (in_db, is) =
        Elem-keep (is_listed repository) db.plans row
          (Elem-sort_by row_before (keep (is_listed repository) db.plans) row lr) in
      let tick : c.ticket ≡ t = ap (λ x. x.ticket) eq in
      (
        row,
        p.tickets,
        in_db,
        is,
        ready,
        subst (λ x. Elem x p.tickets) (sym tick) n,
        eq ∙ ap (λ x. candidate x t) r ∙ ap (candidate row.root) (sym tick),
      )
