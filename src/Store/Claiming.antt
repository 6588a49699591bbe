-- ===== src/Store/Claiming.antt =====
-- internal/store/claim.go: `ClaimReady`, one transaction from the frontier to the lease. It ends in a
-- claim, in an error that rolls it back, or in an error after a commit. Random ids are given with the
-- request; the caller's `ProvisionSession` is a function of what it is asked, and undoing its effects
-- is the caller's.
pub mod Verdicts
use ai_engineer_workflow.Prelude.{
  ℕ, ◌+◌, String, Bool, true, false, ◌&&◌, ◌||◌, not, Option, none, some, List, [], ◌∷◌, ◌++◌, map,
  ◌==◌, ltb, leb, str_eq, if◌then◌else◌,
}
use ai_engineer_workflow.Plan.Frontier.{FrontierTicket, FrontierSnapshot, by_id, ready_frontier}
use ai_engineer_workflow.Store.Claim.{TicketClaim}
use ai_engineer_workflow.Store.Dispatch.{upsert_fairness}
use ai_engineer_workflow.Store.Errors.{
  Result, ok, err, out_of_fuel, StoreError, err_not_found, err_not_ready, err_invalid_claim,
  err_capacity, err_fencing_conflict, err_no_ready_tickets, err_maintenance_fenced,
  err_provisioning, session_authentication_terminalized,
}
use ai_engineer_workflow.Store.Tables.{
  RunKind, agent, delivery_controller, RunState, running, superseded, LaunchState, ready,
  LeaseState, active, expired, session_running, WorkerRun, RunLease, Session, Tables, is_running,
  is_ready_to_launch, is_active, is_open, is_live, same_kind, update, count, first, is_lease_of,
  Current,
}
use ai_engineer_workflow.Store.Maintenance.{is_maintenance_fenced}
use ai_engineer_workflow.Store.Ledger.{
  Ledger, TicketRuntime, is_runtime_of, load_frontier, infrastructure_retry_ready, minute,
}
use ai_engineer_workflow.Store.Attention.{
  max_worker_attempts, set_runtime, release_claims, end_run, is_session_of, ExpiredDelivery,
  mark_ticket_needs_attention, recover_expired_delivery, record_authentication_failure,
}

pub record SessionProvisioning : Type 0 where
  pub session_id : String
  pub existing : Bool
  pub workspace_path : String
  pub codex_state_path : String
  pub current_run_id : String

-- what `ProvisionSession` answers: `SessionAuthenticationFailure` is told from other errors
pub data Provisioned : Type 0 where
  provisioned authentication_failure provisioning_failure : Provisioned

pub record ClaimRequest : Type 0 where
  pub version_id : String
  pub ticket_id : ℕ
  pub owner : String
  pub max_parallel_runs : ℕ
  pub max_attempts : ℕ
  pub lease_ttl : ℕ
  pub now : ℕ
  pub provision_session : Option (SessionProvisioning → Provisioned)
  pub fairness_repository : String
  pub fairness_root_issue_id : ℕ
  pub fairness_root_number : ℕ

-- the answers of `randomID`
pub record FreshIds : Type 0 where
  pub session_id : String
  pub run_id : String
  pub lease_token : String

-- how a part of the transaction ends
pub data Verdict {ℓ} (A : Type ℓ) : Type ℓ where
  go : A → Verdict A
  refuse : StoreError → Verdict A
  commit_and_refuse : Ledger → StoreError → Verdict A
  stuck : Verdict A

abbrev pub proceed {ℓ κ} : {A : Type ℓ} {B : Type κ} → Verdict A → (A → Verdict B) → Verdict B
proceed (go a) f = f a
proceed (refuse e) f = refuse e
proceed (commit_and_refuse l e) f = commit_and_refuse l e
proceed stuck f = stuck

-- `if … { return TicketClaim{}, err }`
abbrev pub unless {ℓ} : {A : Type ℓ} → Bool → StoreError → Verdict A → Verdict A
unless bad e rest = if bad then refuse e else rest

-- the error of a helper rolls the transaction back
abbrev pub lifted {ℓ} : {A : Type ℓ} → Result A → Verdict A
lifted (ok a) = go a
lifted (err e) = refuse e
lifted out_of_fuel = stuck

-- a helper's writes are committed, and the call answers an error
abbrev pub ending {ℓ} : {A : Type ℓ} → StoreError → Result Ledger → Verdict A
ending e (ok l) = commit_and_refuse l e
ending e (err f) = refuse f
ending e out_of_fuel = stuck

-- a lookup that must find something
abbrev pub found {ℓ κ} :
    {A : Type ℓ} {B : Type κ} → Option A → StoreError → (A → Verdict B) → Verdict B
found (some a) e f = f a
found none e f = refuse e

-- the ticket that the request names, or the first one
abbrev pub selected : ℕ → List FrontierTicket → Verdict FrontierTicket
selected id tickets =
    if id == 0
    then found (first (λ t. true) tickets) err_no_ready_tickets (λ t. go t)
    else found (first (λ t. t.issue_id == id) tickets) err_not_ready
        (λ t. unless (t.issue_id == 0) err_not_ready (go t))

abbrev pub check_named : ℕ → List FrontierTicket → Verdict (Unit {0})
check_named id tickets =
    if id == 0
    then go tt
    else found (by_id tickets id) err_not_found
        (λ t. unless (not (str_eq t.owner "")) err_fencing_conflict (go tt))

-- from the snapshot to the selected ticket
unfoldable pub select_ticket : ClaimRequest → FrontierSnapshot → Verdict FrontierTicket
select_ticket request snapshot = unless (not (str_eq snapshot.plan_state "active")) err_not_ready (
    proceed (check_named request.ticket_id snapshot.tickets) (λ _.
      unless (leb request.max_parallel_runs snapshot.active_runs) err_capacity
        (elim (ready_frontier (record snapshot { max_parallel = request.max_parallel_runs })) [
          | some tickets ↦ selected request.ticket_id tickets
          | none ↦ stuck
        ])))

-- the run of a session and its lease
abbrev pub run_with_lease : Tables → String → Option (WorkerRun × RunLease)
run_with_lease t id = elim (first (λ r. str_eq r.run_id id) t.runs) [
  | none ↦ none
  | some r ↦ elim (first (is_lease_of r) t.leases) [ none ↦ none | some lease ↦ some (r, lease) ]
]

abbrev pub delivery_of : ClaimRequest → Session → WorkerRun → RunLease → ExpiredDelivery
delivery_of request s r lease = record {
  version_id = request.version_id;
  issue_id = s.issue_id;
  session_id = s.session_id;
  run_id = s.current_run_id;
  recovery_epoch = r.recovery_epoch;
  launch_state = r.launch_state;
  lease_token = lease.lease_token;
}

-- the run that the session had is superseded, and the feedback that it had claimed is released
abbrev pub without_current : Ledger → String → Ledger
without_current l run = record l {
  tables = end_run superseded expired (λ _. true) run l.tables;
  review_feedback = release_claims (λ id. str_eq id run) l.review_feedback;
  revalidations = release_claims (λ id. str_eq id run) l.revalidations;
}

abbrev pub claimed_feedback : Ledger → String → ℕ
claimed_feedback l run =
    count (λ id. str_eq id run) l.review_feedback + count (λ id. str_eq id run) l.revalidations

unfoldable pub supersede : Ledger → ClaimRequest → Session → Verdict Ledger
supersede l request s =
    if str_eq s.current_run_id ""
    then go l
    else let after = without_current l s.current_run_id in
      if claimed_feedback l s.current_run_id == 0
      then go after
      else commit_and_refuse
          (record after {
            runtime = set_runtime request.version_id s.issue_id "waiting_review" after.runtime;
          })
          err_not_ready

module _ (text_less : String → String → Bool) where
  -- the test of the current run of a session: the id of an agent run that has expired, or ""
  unfoldable pub check_current_run :
      Ledger → ClaimRequest → Session → Option (WorkerRun × RunLease) → Verdict String
  check_current_run l request s none = go ""
  check_current_run l request s (some (r, lease)) =
      let live = is_running r.state && is_live request.now lease in
      if not (str_eq s.owner "") && live
      then refuse err_fencing_conflict
      else if same_kind r.run_kind delivery_controller && is_running r.state
      then unless (not (is_ready_to_launch r.launch_state)) err_not_ready (
          ending err_not_ready (
            recover_expired_delivery text_less l (delivery_of request s r lease)
              request.max_attempts request.now []))
      else if same_kind r.run_kind agent && is_running r.state && not live
      then unless (not (is_ready_to_launch r.launch_state) || r.prelaunch_reserved) err_not_ready
          (go s.current_run_id)
      else go ""

  -- what follows from the answer of `request.ProvisionSession` for a session that exists
  abbrev pub after_provisioning : Ledger → String → ℕ → String → Provisioned → Verdict (Unit {0})
  after_provisioning l v issue run provisioned = go tt
  after_provisioning l v issue run provisioning_failure = refuse err_provisioning
  after_provisioning l v issue run authentication_failure =
      elim (record_authentication_failure text_less l v issue run) [
        | ok after ↦ commit_and_refuse after session_authentication_terminalized
        | err _ ↦ refuse err_provisioning
        | out_of_fuel ↦ stuck
      ]

  abbrev pub provision_with :
      Ledger
      → ClaimRequest
      → Session
      → String
      → Option (SessionProvisioning → Provisioned)
      → Verdict (Unit {0})
  provision_with l request s run none = go tt
  provision_with l request s run (some provision) =
      after_provisioning l request.version_id s.issue_id run (
        provision (record {
          session_id = s.session_id;
          existing = true;
          workspace_path = s.workspace_path;
          codex_state_path = s.codex_state_path;
          current_run_id = run;
        }))

  unfoldable pub provision_existing : Ledger → ClaimRequest → Session → String → Verdict (Unit {0})
  provision_existing l request s run = provision_with l request s run request.provision_session
