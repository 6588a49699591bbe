-- ===== src/Store/Dispatch.antt =====
-- internal/store/dispatch.go: the global frontier, dealt in turns across the active plans, and the
-- cursor that makes the turns fair. A transaction reads the tables as they are; what
-- `loadFrontierTx` reads of a version stands in its row.
pub mod Deal
pub mod Turning
pub mod Rounds
pub mod Fairness
pub mod Frontier
mod Tests
use ai_engineer_workflow.Prelude.{
  ℕ, zero, suc, ◌+◌, ◌-◌, ◌%◌, String, Bool, true, false, ◌&&◌, ◌||◌, Option, none, some, List, [],
  ◌∷◌, ◌++◌, map, ◌==◌, ltb, leb, str_eq, if◌then◌else◌, length, keep, get_elem?, set,
}
use ai_engineer_workflow.Prelude.Sort.{sort_by}
use ai_engineer_workflow.Store.Errors.{
  Result, ok, err, out_of_fuel, err_invalid_claim, err_capacity,
}
use ai_engineer_workflow.Plan.Frontier.{FrontierTicket, FrontierSnapshot, ready_frontier}

pub record PlanRoot : Type 0 where
  pub version_id : String
  pub root_issue_id : ℕ
  pub root_issue_number : ℕ

pub record DispatchCandidate : Type 0 where
  pub version_id : String
  pub root_issue_id : ℕ
  pub root_issue_number : ℕ
  pub ticket : FrontierTicket

-- A row of `plans` joined with its current version: whether it meets the predicate of an active
-- plan, and the snapshot that `loadFrontierTx` reads.
pub record PlanRow : Type 0 where
  pub repository : String
  pub root : PlanRoot
  pub current_active : Bool
  pub snapshot : FrontierSnapshot

pub record Database : Type 0 where
  pub active_runs : ℕ
  pub plans : List PlanRow
  pub dispatch_fairness : List (String × ℕ)

pub record GlobalPlanFrontier : Type 0 where
  pub root : PlanRoot
  pub tickets : List FrontierTicket

-- `ORDER BY p.root_issue_number, p.root_issue_id`, and the comparison of `sortGlobalPlans`
unfoldable pub root_before : PlanRoot → PlanRoot → Bool
root_before a b =
    if a.root_issue_number == b.root_issue_number
    then ltb a.root_issue_id b.root_issue_id
    else ltb a.root_issue_number b.root_issue_number

unfoldable pub is_listed : String → PlanRow → Bool
is_listed repository row = str_eq row.repository repository && row.current_active

unfoldable pub active_plan_roots : Database → String → List PlanRoot
unfolding root_before is_listed sort_by
active_plan_roots db repository =
    sort_by root_before (map (λ row. row.root) (keep (is_listed repository) db.plans))

-- `if len(candidate.tickets) > 0 { plans = append(plans, candidate) }`
abbrev pub add_plan :
    PlanRoot → List FrontierTicket → List GlobalPlanFrontier → List GlobalPlanFrontier
add_plan root [] rest = rest
add_plan root (t ∷ ts) rest = record { root = root; tickets = t ∷ ts } ∷ rest

-- `snapshot.MaxParallel = activeRuns + (maxParallelRuns - activeRuns)`
abbrev pub preview : ℕ → ℕ → PlanRow → FrontierSnapshot
preview active_runs max_parallel row = record row.snapshot {
  max_parallel = active_runs + (max_parallel - active_runs);
}

-- the loop over the rows: the plans with a ready ticket
unfoldable pub frontiers : ℕ → ℕ → List PlanRow → Option (List GlobalPlanFrontier)
frontiers active_runs max_parallel [] = some []
frontiers active_runs max_parallel (row ∷ rows) =
    elim (ready_frontier (preview active_runs max_parallel row)) [
      | none ↦ none
      | some tickets ↦ elim (frontiers active_runs max_parallel rows) [
        | none ↦ none
        | some rest ↦ some (add_plan row.root tickets rest)
      ]
    ]

unfoldable pub plan_before : GlobalPlanFrontier → GlobalPlanFrontier → Bool
unfolding root_before
plan_before a b = root_before a.root b.root

unfoldable pub row_before : PlanRow → PlanRow → Bool
unfolding root_before
row_before a b = root_before a.root b.root

unfoldable pub sort_global_plans : List GlobalPlanFrontier → List GlobalPlanFrontier
unfolding plan_before sort_by
sort_global_plans plans = sort_by plan_before plans

-- `dispatchFairnessCursorTx`
unfoldable pub fairness_cursor : List (String × ℕ) → String → ℕ
fairness_cursor [] repository = 0
fairness_cursor ((name, root) ∷ rest) repository =
    if str_eq name repository then root else fairness_cursor rest repository

-- `recordDispatchFairnessTx`: an upsert
unfoldable pub upsert_fairness : List (String × ℕ) → String → ℕ → List (String × ℕ)
upsert_fairness [] repository root = (repository, root) ∷ []
upsert_fairness ((name, old) ∷ rest) repository root =
    if str_eq name repository
    then (name, root) ∷ rest
    else (name, old) ∷ upsert_fairness rest repository root

unfoldable pub record_dispatch_fairness : Database → String → ℕ → Database
unfolding upsert_fairness
record_dispatch_fairness db repository root =
    if str_eq repository "" || root == 0
    then db
    else record db { dispatch_fairness = upsert_fairness db.dispatch_fairness repository root }

-- the loop that finds `start`
unfoldable pub start_from : ℕ → ℕ → ℕ → List GlobalPlanFrontier → ℕ
start_from n i last [] = 0
start_from n i last (p ∷ ps) =
    if p.root.root_issue_id == last then (i + 1) % n else start_from n (i + 1) last ps

abbrev pub candidate : PlanRoot → FrontierTicket → DispatchCandidate
candidate root t = record {
  version_id = root.version_id;
  root_issue_id = root.root_issue_id;
  root_issue_number = root.root_issue_number;
  ticket = t;
}

-- the variables of the loops
pub record Turns : Type 0 where
  pub plans : List GlobalPlanFrontier
  pub result : List DispatchCandidate
  pub progressed : Bool

-- the body of the inner loop, for the plan that was read
abbrev pub serve : ℕ → Turns → Option GlobalPlanFrontier → Turns
serve index st none = st
serve index st (some p) = elim p.tickets [
  | [] ↦ st
  | t ∷ rest ↦ record {
    plans = set st.plans index (record p { tickets = rest });
    result = st.result ++ (candidate p.root t ∷ []);
    progressed = true;
  }
]

-- the inner loop; the first argument counts the offsets that are left
unfoldable pub turn : ℕ → ℕ → ℕ → ℕ → ℕ → Turns → Turns
turn zero offset n start capacity st = st
turn (suc left) offset n start capacity st =
    let index = (start + offset) % n in
    let rest =
      turn left (offset + 1) n start capacity (serve index st (get_elem? st.plans index)) in
    if ltb (length st.result) capacity then rest else st

-- the outer loop; every turn but the last adds a candidate, so `capacity` turns and one are enough
unfoldable pub turns :
    ℕ → ℕ → ℕ → List GlobalPlanFrontier → List DispatchCandidate → Option (List DispatchCandidate)
turns zero start capacity plans result = none
turns (suc fuel) start capacity plans result =
    let st =
      turn (length plans) 0 (length plans) start capacity
        (record { plans = plans; result = result; progressed = false }) in
    let again = turns fuel start capacity st.plans st.result in
    if ltb (length result) capacity
    then (if st.progressed then again else some st.result)
    else some result

unfoldable pub dealt :
    Database → String → ℕ → List GlobalPlanFrontier → Result (List DispatchCandidate)
dealt db repository capacity [] = ok []
dealt db repository capacity (p ∷ ps) =
    let plans = p ∷ ps in
    let last = fairness_cursor db.dispatch_fairness repository in
    let start = start_from (length plans) 0 last plans in
    elim (turns (suc capacity) start capacity plans []) [
      | none ↦ out_of_fuel
      | some result ↦ ok result
    ]

-- `GlobalReadyFrontier` and `globalReadyFrontierTx`
unfoldable pub global_ready_frontier : Database → String → ℕ → Result (List DispatchCandidate)
global_ready_frontier db repository max_parallel =
    if str_eq repository "" || max_parallel == 0
    then err err_invalid_claim
    else if leb max_parallel db.active_runs
    then err err_capacity
    else elim (frontiers db.active_runs max_parallel
        (sort_by row_before (keep (is_listed repository) db.plans))) [
          | none ↦ out_of_fuel
          | some plans ↦
              dealt db repository (max_parallel - db.active_runs) (sort_global_plans plans)
        ]
