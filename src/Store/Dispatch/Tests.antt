-- ===== src/Store/Dispatch/Tests.antt =====
-- Two active plans of one repository, with two ready tickets each, and the theorems at them.
use ai_engineer_workflow.Prelude.{
  ℕ, ◌+◌, ◌≤◌, ◌<◌, ◌≡◌, refl, true, false, some, List, [], ◌∷◌, String, ◌≢◌, ◌⊎◌, inl, length,
  take, eq_iff, str_eq, if◌then◌else◌, arith, Elem,
}
use ai_engineer_workflow.Plan.Frontier.{FrontierTicket, FrontierSnapshot, ready_frontier}
use ai_engineer_workflow.Store.Dispatch.{
  PlanRoot, PlanRow, Database, GlobalPlanFrontier, DispatchCandidate, candidate, dealt,
  global_ready_frontier, fairness_cursor, record_dispatch_fairness, preview, is_listed,
  active_plan_roots,
}
use ai_engineer_workflow.Store.Errors.{ok, err, err_invalid_claim, err_capacity}
use ai_engineer_workflow.Store.Dispatch.Deal.{rounds, rotate}
use ai_engineer_workflow.Store.Dispatch.Fairness.{
  start_of, dealt-rounds, dealt-after, cursor-record,
}
use ai_engineer_workflow.Store.Dispatch.Frontier.{
  global_ready_frontier_total, global_ready_frontier_sound,
}

abbrev a_ticket : ℕ → FrontierTicket
a_ticket id = record {
  issue_id = id;
  number = id;
  title = "t";
  delivered = false;
  owner = "";
  rank = 0;
}

abbrev a_root : ℕ → PlanRoot
a_root id = record { version_id = "v"; root_issue_id = id; root_issue_number = id }

abbrev a_row : ℕ → ℕ → ℕ → PlanRow
a_row id t u = record {
  repository = "r";
  root = a_root id;
  current_active = true;
  snapshot = record {
    version_id = "v";
    plan_state = "active";
    tickets = a_ticket t ∷ a_ticket u ∷ [];
    dependencies = [];
    active_runs = 1;
    max_parallel = 0;
  };
}

abbrev db : Database
db = record {
  active_runs = 1;
  plans = a_row 20 21 22 ∷ a_row 10 11 12 ∷ [];
  dispatch_fairness = ("q", 3) ∷ ("r", 10) ∷ [];
}

abbrev plan_of : ℕ → ℕ → ℕ → GlobalPlanFrontier
plan_of id t u = record { root = a_root id; tickets = a_ticket t ∷ a_ticket u ∷ [] }

abbrev served : List DispatchCandidate
served =
    candidate (a_root 20) (a_ticket 21)
    ∷ candidate (a_root 10) (a_ticket 11)
    ∷ candidate (a_root 20) (a_ticket 22)
    ∷ []

-- The cursor names root 10, so root 20 gives the first ticket.
serves : global_ready_frontier db "r" 4 ≡ ok served
unfolding global_ready_frontier ai_engineer_workflow.Store.Dispatch.frontiers ready_frontier dealt
    ai_engineer_workflow.Store.Dispatch.turns ai_engineer_workflow.Store.Dispatch.turn
    ai_engineer_workflow.Store.Dispatch.start_from fairness_cursor
    ai_engineer_workflow.Plan.Frontier.ranks_of ai_engineer_workflow.Plan.Frontier.select
    ai_engineer_workflow.Plan.Frontier.rank_each ai_engineer_workflow.Plan.Frontier.rank_of
    ai_engineer_workflow.Plan.Frontier.best_rank is_listed
    ai_engineer_workflow.Store.Dispatch.row_before
    ai_engineer_workflow.Store.Dispatch.sort_global_plans
serves = refl

lists : active_plan_roots db "r" ≡ a_root 10 ∷ a_root 20 ∷ []
unfolding active_plan_roots
lists = refl

abbrev repo : String
repo = "r"

abbrev limit : ℕ
limit = 4

abbrev no_name : String
no_name = ""

named : repo ≢ no_name
named e = ground (arith, eq_iff "r" "")

dealt-rounds_example :
    dealt db "r" 3 (plan_of 10 11 12 ∷ plan_of 20 21 22 ∷ [])
    ≡ ok (
        take 3 (
          rounds 3 (
            rotate
              (start_of db "r" 3 (plan_of 10 11 12 ∷ plan_of 20 21 22 ∷ []))
              (plan_of 10 11 12 ∷ plan_of 20 21 22 ∷ []))))
dealt-rounds_example = dealt-rounds db "r" 3 (plan_of 10 11 12 ∷ plan_of 20 21 22 ∷ [])

cursor_10 : fairness_cursor db.dispatch_fairness "r" ≡ 10
unfolding fairness_cursor
cursor_10 = refl

dealt-after_example :
    dealt db "r" 3 (plan_of 10 11 12 ∷ plan_of 20 21 22 ∷ [])
    ≡ ok (take 3 (rounds 3 (plan_of 20 21 22 ∷ plan_of 10 11 12 ∷ [])))
dealt-after_example =
    dealt-after db "r" 3 [] (plan_of 10 11 12) (plan_of 20 21 22 ∷ []) cursor_10 tt

cursor-record_example :
    fairness_cursor (record_dispatch_fairness db "r" 20).dispatch_fairness "r"
    ≡ (if str_eq "r" "r" then 20 else fairness_cursor db.dispatch_fairness "r")
cursor-record_example = cursor-record db "r" "r" 20 named (λ e. omega (arith, e))

global_ready_frontier_total_example :
    ((repo ≡ no_name) ⊎ (limit ≡ 0) → global_ready_frontier db "r" limit ≡ err err_invalid_claim)
    × (repo ≢ no_name
        → limit ≢ 0
        → limit ≤ 1
        → global_ready_frontier db "r" limit ≡ err err_capacity)
    × (repo ≢ no_name
        → 1 < limit
        → (cs : List DispatchCandidate) × (global_ready_frontier db "r" limit ≡ ok cs)
          × (length cs + 1 ≤ limit))
global_ready_frontier_total_example = global_ready_frontier_total db "r" limit

global_ready_frontier_sound_example :
    (row : PlanRow) × (ready : List FrontierTicket) × Elem row db.plans
    × (is_listed "r" row ≡ true)
    × (ready_frontier (preview 1 4 row) ≡ some ready)
    × Elem (a_ticket 21) ready
    × (candidate (a_root 20) (a_ticket 21) ≡ candidate row.root (a_ticket 21))
global_ready_frontier_sound_example =
    global_ready_frontier_sound db "r" 4 served serves (candidate (a_root 20) (a_ticket 21))
      (inl refl)
