-- ===== src/Store/Ledger.antt =====
-- The tables that the claim transaction of internal/store/claim.go reads and writes beside those of
-- Tables.antt, and `loadFrontierTx`. The rows about one version in `plan_versions`, `plans`,
-- `plan_terminal_states`, `completed_plan_versions` and `plan_freezes` stand in one row, and whether
-- a pending amendment pauses a ticket stands in the ticket's row. The tables of questions and of
-- diagnostics, which the transaction only writes, are left out.
pub mod Backoff
use ai_engineer_workflow.Prelude.{
  ℕ, ◌+◌, ◌*◌, ◌-◌, ◌^◌, String, Bool, true, false, ◌&&◌, ◌||◌, not, Option, none, some, List, [],
  ◌∷◌, ◌++◌, map, ◌==◌, ltb, leb, str_eq, if◌then◌else◌, keep,
}
use ai_engineer_workflow.Plan.Frontier.{FrontierTicket, FrontierSnapshot}
use ai_engineer_workflow.Store.Errors.{Result, ok, err, err_not_found}
use ai_engineer_workflow.Store.Maintenance.{MaintenanceFence}
use ai_engineer_workflow.Store.Tables.{
  Session, Tables, Current, current, is_running, is_open, is_live, first, exists, active_run_count,
}

-- `plan_versions` and what else a version has
pub record PlanVersion : Type 0 where
  pub version_id : String
  pub state : String
  pub terminal_state : Option String
  pub completed : Bool
  pub plan_state : String
  pub frozen : Bool

-- `plan_tickets`
pub record PlanTicket : Type 0 where
  pub version_id : String
  pub issue_id : ℕ
  pub issue_number : ℕ
  pub title : String
  pub delivered : Bool
  pub paused : Bool

-- `ticket_runtime`
pub record TicketRuntime : Type 0 where
  pub version_id : String
  pub issue_id : ℕ
  pub state : String
  pub delivered : Bool

-- `plan_dependencies`
pub record PlanDependency : Type 0 where
  pub version_id : String
  pub blocked : ℕ
  pub blocker : ℕ

-- `run_failures`
pub record RunFailure : Type 0 where
  pub run_id : String
  pub class : String
  pub reason : String

-- `infrastructure_retry_backoffs`
pub record RetryBackoff : Type 0 where
  pub session_id : String
  pub consecutive_failures : ℕ
  pub retry_at : ℕ

-- `review_feedback` and `revalidations` hold the run ids that `review_feedback_events` and
-- `merge_ready_revalidations` are claimed by, one for each row.
pub record Ledger : Type 0 where
  pub tables : Tables
  pub versions : List PlanVersion
  pub tickets : List PlanTicket
  pub runtime : List TicketRuntime
  pub dependencies : List PlanDependency
  pub maintenance : Option MaintenanceFence
  pub review_feedback : List String
  pub revalidations : List String
  pub failures : List RunFailure
  pub backoffs : List RetryBackoff
  pub fairness : List (String × ℕ)

abbrev pub state_of : PlanVersion → String
state_of v = elim v.terminal_state [
  | some state ↦ state
  | none ↦ if v.completed then "completed" else v.state
]

abbrev pub plan_state_of : PlanVersion → String
plan_state_of v =
    if v.frozen
    then "needs_attention"
    else if str_eq (state_of v) "active" && str_eq v.plan_state "active"
    then "active"
    else state_of v

abbrev pub is_runtime_of : String → ℕ → TicketRuntime → Bool
is_runtime_of v issue rt = str_eq rt.version_id v && rt.issue_id == issue

-- a session of the ticket that runs on a live lease
abbrev pub is_owning : String → ℕ → ℕ → Current → Bool
is_owning v issue now row =
    str_eq row.session.version_id v
    && row.session.issue_id == issue
    && is_open row.session.state
    && is_running row.run.state
    && is_live now row.lease

-- `ticket.Delivered`
abbrev pub is_delivered_row : PlanTicket → Option TicketRuntime → Bool
is_delivered_row t none = t.delivered
is_delivered_row t (some rt) = rt.delivered

-- `ticket.Owner`, before the look at the lease
abbrev pub held_by : Option TicketRuntime → String
held_by none = ""
held_by (some rt) =
    if not (str_eq rt.state "")
      && not (str_eq rt.state "queued")
      && not (str_eq rt.state "running")
      && not rt.delivered
    then rt.state
    else ""

abbrev pub owner_of : Option Current → String → String
owner_of none held = held
owner_of (some row) held = row.session.owner

-- one row of the query
unfoldable pub frontier_ticket : Ledger → ℕ → PlanTicket → FrontierTicket
frontier_ticket l now t =
    let rt = first (is_runtime_of t.version_id t.issue_id) l.runtime in
    record {
      issue_id = t.issue_id;
      number = t.issue_number;
      title = t.title;
      delivered = is_delivered_row t rt;
      owner =
          owner_of (first (is_owning t.version_id t.issue_id now) (current l.tables)) (held_by rt);
      rank = 0;
    }

-- `snapshot.Dependencies[blocked] = append(snapshot.Dependencies[blocked], blocker)`
abbrev pub add_blocker : ℕ → ℕ → List (ℕ × List ℕ) → List (ℕ × List ℕ)
add_blocker blocked blocker [] = (blocked, blocker ∷ []) ∷ []
add_blocker blocked blocker ((id, bs) ∷ rest) =
    let added = add_blocker blocked blocker rest in
    if id == blocked then (id, bs ++ blocker ∷ []) ∷ rest else (id, bs) ∷ added

abbrev pub add_blockers : List PlanDependency → List (ℕ × List ℕ) → List (ℕ × List ℕ)
add_blockers [] deps = deps
add_blockers (d ∷ ds) deps = add_blockers ds (add_blocker d.blocked d.blocker deps)

abbrev pub loaded : Ledger → String → ℕ → Option PlanVersion → Result FrontierSnapshot
loaded l v now none = err err_not_found
loaded l v now (some version) = ok (record {
  version_id = v;
  plan_state = plan_state_of version;
  tickets =
      map (frontier_ticket l now) (keep (λ t. str_eq t.version_id v && not t.paused) l.tickets);
  dependencies = add_blockers (keep (λ d. str_eq d.version_id v) l.dependencies) [];
  active_runs = active_run_count now l.tables.runs l.tables.leases;
  max_parallel = 0;
})

-- `loadFrontierTx`
unfoldable pub load_frontier : Ledger → String → ℕ → Result FrontierSnapshot
load_frontier l v now = loaded l v now (first (λ row. str_eq row.version_id v) l.versions)

-- one minute, in nanoseconds
abbrev pub minute : ℕ
minute = 60000000000

-- `infrastructureRetryDelay`
unfoldable pub infrastructure_retry_delay : ℕ → ℕ
infrastructure_retry_delay failures =
    if leb failures 1
    then minute
    else if leb 6 failures
    then 30 * minute
    else minute * 2 ^ (failures - 1)

-- `infrastructureRetryReadyTx`
unfoldable pub infrastructure_retry_ready : List RetryBackoff → String → ℕ → Bool
infrastructure_retry_ready backoffs session now =
    elim (first (λ b. str_eq b.session_id session) backoffs) [
      | none ↦ true
      | some b ↦ leb b.retry_at now
    ]
