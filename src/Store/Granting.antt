-- ===== src/Store/Granting.antt =====
-- internal/store/claim.go: `ClaimReady`, from the session to the new Worker Run and its lease.
pub mod Sound
pub mod Lease
pub mod Answers
pub mod Capacity
mod Tests
use ai_engineer_workflow.Prelude.{
  ℕ, suc, ◌+◌, String, Bool, true, false, ◌&&◌, ◌||◌, not, Option, none, some, List, [], ◌∷◌, ◌++◌,
  ◌==◌, ltb, leb, str_eq, if◌then◌else◌,
}
use ai_engineer_workflow.Plan.Frontier.{FrontierTicket}
use ai_engineer_workflow.Store.Claim.{TicketClaim}
use ai_engineer_workflow.Store.Dispatch.{upsert_fairness}
use ai_engineer_workflow.Store.Errors.{
  Result, ok, err, out_of_fuel, StoreError, err_not_ready, err_invalid_claim,
  err_maintenance_fenced, err_provisioning,
}
use ai_engineer_workflow.Store.Tables.{
  agent, running, ready, active, session_running, WorkerRun, RunLease, Session, Tables, is_open,
  same_kind, update, count, first,
}
use ai_engineer_workflow.Store.Maintenance.{is_maintenance_fenced}
use ai_engineer_workflow.Store.Ledger.{
  Ledger, TicketRuntime, is_runtime_of, load_frontier, infrastructure_retry_ready, minute,
}
use ai_engineer_workflow.Store.Attention.{
  max_worker_attempts, is_session_of, mark_ticket_needs_attention,
}
use ai_engineer_workflow.Store.Claiming.{
  ClaimRequest, FreshIds, Provisioned, provisioned, SessionProvisioning, Verdict, go, refuse,
  commit_and_refuse, stuck, proceed, unless, lifted, ending, select_ticket, check_current_run,
  provision_existing, supersede, run_with_lease,
}
use ai_engineer_workflow.Store.Opening.{
  OpenSession, new_session, update_session, taken_by, inserted, reopened, expired_run_of, resumed,
  opened, open_session,
}

-- `SELECT COALESCE(MAX(attempt), 0)`
abbrev pub last_attempt : List WorkerRun → String → ℕ
last_attempt [] session = 0
last_attempt (r ∷ rs) session =
    let rest = last_attempt rs session in
    if str_eq r.session_id session && ltb rest r.attempt then r.attempt else rest

-- the agent runs of a session in its epoch
abbrev pub attempts_in_epoch : List WorkerRun → String → ℕ → ℕ
attempts_in_epoch runs session epoch =
    count
      (λ r. str_eq r.session_id session && r.recovery_epoch == epoch && same_kind r.run_kind agent)
      runs

abbrev pub put_runtime : TicketRuntime → List TicketRuntime → List TicketRuntime
put_runtime new [] = new ∷ []
put_runtime new (rt ∷ rts) =
    let rest = put_runtime new rts in
    if is_runtime_of new.version_id new.issue_id rt
    then record rt { state = new.state } ∷ rts
    else rt ∷ rest

-- `recordDispatchFairnessTx`
abbrev pub fairness_after : ClaimRequest → List (String × ℕ) → List (String × ℕ)
fairness_after request fairness =
    if str_eq request.fairness_repository "" || request.fairness_root_issue_id == 0
    then fairness
    else upsert_fairness fairness request.fairness_repository request.fairness_root_issue_id

-- `if request.LeaseTTL <= 0 { request.LeaseTTL = time.Minute }`
abbrev pub expiry : ClaimRequest → ℕ
expiry request = request.now + (if request.lease_ttl == 0 then minute else request.lease_ttl)

abbrev pub run_of : OpenSession → FreshIds → ℕ → ℕ → WorkerRun
run_of o fresh generation attempt = record {
  run_id = fresh.run_id;
  session_id = o.session_id;
  attempt = attempt;
  recovery_epoch = o.recovery_epoch;
  lease_generation = generation;
  run_kind = agent;
  state = running;
  launch_state = ready;
  prelaunch_reserved = false;
  container_create_generation = 0;
  container_create_pending = false;
  isolation_pending = false;
}

abbrev pub lease_of : ClaimRequest → OpenSession → FreshIds → ℕ → RunLease
lease_of request o fresh generation = record {
  lease_token = fresh.lease_token;
  run_id = fresh.run_id;
  session_id = o.session_id;
  generation = generation;
  state = active;
  expires_at = expiry request;
}

abbrev pub taken_with : String → String → ℕ → Session → Session
taken_with run owner generation s = record s {
  current_run_id = run;
  owner = owner;
  state = session_running;
  current_lease_generation = generation;
}

-- the writes at the end of the transaction
unfoldable pub granted : ClaimRequest → FreshIds → FrontierTicket → OpenSession → ℕ → ℕ → Ledger
granted request fresh ticket o generation attempt =
    let l =
      update_session o.session_id (taken_with fresh.run_id request.owner generation) o.ledger in
    record l {
      tables = record l.tables {
        runs = l.tables.runs ++ run_of o fresh generation attempt ∷ [];
        leases = l.tables.leases ++ lease_of request o fresh generation ∷ [];
      };
      runtime =
          put_runtime
            (record {
              version_id = request.version_id;
              issue_id = ticket.issue_id;
              state = "running";
              delivered = false;
            })
            l.runtime;
      fairness = fairness_after request l.fairness;
    }

abbrev pub claim_granted :
    ClaimRequest → FreshIds → FrontierTicket → OpenSession → ℕ → ℕ → TicketClaim
claim_granted request fresh ticket o generation attempt = record {
  version_id = request.version_id;
  plan_root_number =
      if str_eq request.fairness_repository "" then 0 else request.fairness_root_number;
  ticket_id = ticket.issue_id;
  ticket_number = ticket.number;
  ticket_title = ticket.title;
  owner = request.owner;
  session_id = o.session_id;
  run_id = fresh.run_id;
  attempt = attempt;
  lease_token = fresh.lease_token;
  lease_generation = generation;
  isolation_generation = 0;
  lease_expires_at = expiry request;
}

-- `request.ProvisionSession` for a new session
abbrev pub provision_new : ClaimRequest → OpenSession → Bool
provision_new request o = elim request.provision_session [
  | none ↦ true
  | some provision ↦
      o.existing
      || elim (provision (record {
        session_id = o.session_id;
        existing = false;
        workspace_path = "";
        codex_state_path = "";
        current_run_id = "";
      })) [ provisioned ↦ true | _ ↦ false ]
]

-- `if currentGeneration == 0 { currentGeneration = 1 }`
abbrev pub first_generation : ℕ → ℕ
first_generation generation = if generation == 0 then 1 else generation

-- what the caller gets, and the ledger afterwards
abbrev pub settled : Ledger → Verdict (TicketClaim × Ledger) → Result TicketClaim × Ledger
settled l (go (claim, after)) = (ok claim, after)
settled l (refuse e) = (err e, l)
settled l (commit_and_refuse after e) = (err e, after)
settled l stuck = (out_of_fuel, l)

module _ (text_less : String → String → Bool) where
  -- from the session to the claim
  unfoldable pub grant :
      ClaimRequest → FreshIds → FrontierTicket → OpenSession → Verdict (TicketClaim × Ledger)
  grant request fresh ticket o =
      let runs = o.ledger.tables.runs in
      let generation = first_generation o.generation in
      let attempt = last_attempt runs o.session_id + 1 in
      unless (not (infrastructure_retry_ready o.ledger.backoffs o.session_id request.now))
        err_not_ready
        (if leb (max_worker_attempts request.max_attempts)
            (attempts_in_epoch runs o.session_id o.recovery_epoch)
          then ending err_not_ready (
              mark_ticket_needs_attention text_less
                (update_session o.session_id
                  (λ s. record s { current_lease_generation = generation }) o.ledger)
                request.version_id ticket.issue_id [])
          else unless (not (provision_new request o)) err_provisioning (
              go (
                claim_granted request fresh ticket o generation attempt,
                granted request fresh ticket o generation attempt,
              )))

  abbrev pub claim_with : Ledger → ClaimRequest → FreshIds → Verdict (TicketClaim × Ledger)
  claim_with l request fresh =
      unless
        (str_eq request.version_id "" || str_eq request.owner "" || request.max_parallel_runs == 0)
        err_invalid_claim
        (unless (is_maintenance_fenced l.maintenance) err_maintenance_fenced (
          proceed (lifted (load_frontier l request.version_id request.now)) (λ snapshot.
            proceed (select_ticket request snapshot) (λ ticket.
              proceed (open_session text_less l request fresh ticket.issue_id)
                (λ o. grant request fresh ticket o)))))

  -- `ClaimReady`
  unfoldable pub claim_ready : Ledger → ClaimRequest → FreshIds → Result TicketClaim × Ledger
  claim_ready l request fresh = settled l (claim_with l request fresh)
