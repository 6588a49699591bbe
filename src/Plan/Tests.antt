-- ===== src/Plan/Tests.antt =====
-- Small plans on which the definitions run, and the theorems at them.
use ai_engineer_workflow.Prelude.{
  ℕ, ◌+◌, ◌-◌, ◌≤◌, ◌<◌, String, Bool, true, false, ◌≡◌, refl, sym, subst, ◌⊎◌, inl, inr, ◌↔◌, some,
  List, [], ◌∷◌, ◌==◌, if◌then◌else◌, Elem, length, arith,
}
use ai_engineer_workflow.Plan.Model.{Issue, Snapshot}
use ai_engineer_workflow.Plan.Cycle.{has_cycle}
use ai_engineer_workflow.Plan.Cycle.Graph.{Chain-lt}
use ai_engineer_workflow.Plan.Cycle.Decides.{Cycle}
use ai_engineer_workflow.Plan.Cycle.Fuel.{IsClosed, has_cycle_iff}
use ai_engineer_workflow.Plan.Validate.Spec.{IsAdmissible}
use ai_engineer_workflow.Plan.Validate.Admission.{validate_iff}
use ai_engineer_workflow.Plan.Validate.Answers.{validate_total}
use ai_engineer_workflow.Plan.Validate.{
  Reason, ok, refused, cyclic, validate, check_root, check_children, check_child, check_entries,
  check_blockers, check_blocker, add_edge, reject_cycle,
}
use ai_engineer_workflow.Plan.Frontier.{
  FrontierTicket, FrontierSnapshot, blockers, by_id, ready_frontier, select, ranks_of, state_active,
}
use ai_engineer_workflow.Plan.Frontier.Rank.{IsHeight}
use ai_engineer_workflow.Plan.Frontier.Order.{Precedes}
use ai_engineer_workflow.Plan.Frontier.Selection.{
  IsDispatchable, InOrder, IsAcyclic, ready_frontier_total, frontier_sound, length-frontier-le,
  frontier-InOrder, frontier-IsHeight, frontier_complete,
}

issue : ℕ → ℕ → String → Issue
issue id number label = record {
  id = id;
  node_id = "n";
  number = number;
  title = "t";
  body = "";
  state = "open";
  labels = label ∷ [];
  updated_at = "";
  delivered = false;
  author = "a";
  author_type = "User";
}

-- Ticket 12 waits for ticket 11.
chain_plan : Snapshot
unfolding issue
chain_plan = record {
  repository = "o/r";
  root = issue 10 1 "workflow:plan";
  children = issue 11 2 "workflow:ticket" ∷ issue 12 3 "workflow:ticket" ∷ [];
  blocked_by = (12, issue 11 2 "workflow:ticket" ∷ []) ∷ [];
}

-- Tickets 11 and 12 wait for each other.
cyclic_plan : Snapshot
unfolding chain_plan
cyclic_plan = record chain_plan {
  blocked_by =
      (11, issue 12 3 "workflow:ticket" ∷ []) ∷ (12, issue 11 2 "workflow:ticket" ∷ []) ∷ [];
}

accepts_chain : validate chain_plan ≡ ok tt
unfolding validate chain_plan check_root check_children check_child check_entries check_blockers
    check_blocker add_edge reject_cycle has_cycle
accepts_chain = refl

refuses_cycle : validate cyclic_plan ≡ refused cyclic
unfolding validate cyclic_plan check_root check_children check_child check_entries check_blockers
    check_blocker add_edge reject_cycle has_cycle
refuses_cycle = refl

validate_iff_example : (validate chain_plan ≡ ok tt) ↔ IsAdmissible chain_plan
validate_iff_example = validate_iff chain_plan

validate_total_example :
    (validate cyclic_plan ≡ ok tt) ⊎ ((r : Reason) × (validate cyclic_plan ≡ refused r))
validate_total_example = validate_total cyclic_plan

abbrev ring : ℕ → List ℕ
ring k = if k == 1 then 2 ∷ [] else if k == 2 then 1 ∷ [] else []

ring-IsClosed : IsClosed ring (1 ∷ 2 ∷ [])
ring-IsClosed a b h = ground arith

has_cycle_iff_example :
    ((has_cycle (1 ∷ 2 ∷ []) ring ≡ some true) ↔ Cycle ring)
    × ((has_cycle (1 ∷ 2 ∷ []) ring ≡ some false) ↔ (Cycle ring → ⊥))
has_cycle_iff_example = has_cycle_iff ring (1 ∷ 2 ∷ []) ring-IsClosed

ticket : ℕ → ℕ → Bool → FrontierTicket
ticket id number delivered = record {
  issue_id = id;
  number = number;
  title = "t";
  delivered = delivered;
  owner = "";
  rank = 0;
}

-- Ticket 11 is delivered, 12 waited for it, 13 waits for 12, and 14 waits for nothing.
abbrev board : FrontierSnapshot
board = record {
  version_id = "v";
  plan_state = "active";
  tickets = ticket 11 2 true ∷ ticket 12 3 false ∷ ticket 13 4 false ∷ ticket 14 9 false ∷ [];
  dependencies = (12, 11 ∷ []) ∷ (13, 12 ∷ []) ∷ [];
  active_runs = 1;
  max_parallel = 3;
}

abbrev board_frontier : List FrontierTicket
board_frontier = ticket 14 9 false ∷ record (ticket 12 3 false) { rank = 1 } ∷ []

board_returns : ready_frontier board ≡ some board_frontier
unfolding ready_frontier select ranks_of ticket
board_returns = refl

board_falls : (a b : ℕ) → Elem b (blockers board.dependencies a) → b < a
board_falls a b h = ground arith

board-IsAcyclic : IsAcyclic board
board-IsAcyclic k ch =
    let p = Chain-lt (blockers board.dependencies) board_falls ch in absurd (omega arith)

abbrev second : FrontierTicket
second = record (ticket 12 3 false) { rank = 1 }

ready_frontier_total_example : (r : List FrontierTicket) × (ready_frontier board ≡ some r)
ready_frontier_total_example = ready_frontier_total board

frontier_sound_example :
    (board.plan_state ≡ state_active)
    × (board.active_runs < board.max_parallel)
    × ((u : FrontierTicket) × Elem u board.tickets
        × IsDispatchable board u
        × (second ≡ record u { rank = second.rank }))
frontier_sound_example = frontier_sound board board_frontier board_returns second (inr (inl refl))

length-frontier-le_example : length board_frontier ≤ board.max_parallel - board.active_runs
length-frontier-le_example = length-frontier-le board board_frontier board_returns

frontier-InOrder_example : InOrder board_frontier
frontier-InOrder_example = frontier-InOrder board board_frontier board_returns

frontier-IsHeight_example : IsHeight (blockers board.dependencies) second.issue_id second.rank
frontier-IsHeight_example =
    frontier-IsHeight board board_frontier board_returns board-IsAcyclic second (inr (inl refl))

dispatchable : IsDispatchable board (ticket 12 3 false)
unfolding ticket
dispatchable = record {
  undelivered = refl;
  unowned = refl;
  unblocked = λ b m. elim m [
    | inl e ↦ (
      ticket 11 2 true,
      subst (λ z. by_id board.tickets z ≡ some (ticket 11 2 true)) (sym e) refl,
      refl,
    )
    | inr m' ↦ elim m' [ ]
  ];
}

frontier_complete_example :
    (v : ℕ) × IsHeight (blockers board.dependencies) 12 v
    × (Elem (record (ticket 12 3 false) { rank = v }) board_frontier
        ⊎ ((board.active_runs + length board_frontier ≡ board.max_parallel)
            × ((t : FrontierTicket)
                → Elem t board_frontier
                → Precedes (record (ticket 12 3 false) { rank = v }) t
                → ⊥)))
unfolding ticket
frontier_complete_example =
    frontier_complete board board_frontier board_returns board-IsAcyclic refl (omega arith)
      (ticket 12 3 false) (inr (inl refl)) dispatchable
