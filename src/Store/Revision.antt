-- ===== src/Store/Revision.antt =====
-- internal/store/claim.go: `ClaimReviewRevision`, the claim of a ticket that waits for its review, by
-- the owner that its session has.
mod Lease
mod Tests
use ai_engineer_workflow.Prelude.{
  ℕ, ◌+◌, String, Bool, true, false, ◌&&◌, ◌||◌, not, Option, none, some, List, [], ◌∷◌, ◌++◌, ◌==◌,
  leb, str_eq, if◌then◌else◌,
}
use ai_engineer_workflow.Store.Claim.{TicketClaim}
use ai_engineer_workflow.Store.Errors.{
  Result, ok, err, err_not_ready, err_not_found, err_invalid_claim, err_capacity,
}
use ai_engineer_workflow.Store.Tables.{
  WorkerRun, RunLease, Session, Tables, agent, running, ready, active, is_open, first,
  active_run_count, update,
}
use ai_engineer_workflow.Store.Ledger.{
  Ledger, PlanTicket, TicketRuntime, is_runtime_of, infrastructure_retry_ready, minute,
}
use ai_engineer_workflow.Store.Attention.{
  max_worker_attempts, set_runtime, is_session_of, is_ticket, mark_ticket_needs_attention,
}
use ai_engineer_workflow.Store.Claiming.{FreshIds, Verdict, go, unless, found, ending}
use ai_engineer_workflow.Store.Opening.{update_session}
use ai_engineer_workflow.Store.Granting.{last_attempt, attempts_in_epoch, settled}

pub record RevisionRequest : Type 0 where
  pub version_id : String
  pub issue_id : ℕ
  pub lease_ttl : ℕ
  pub now : ℕ
  pub max_parallel_runs : ℕ
  pub max_attempts : Option ℕ

-- `planFrozenTx`
abbrev pub is_frozen : Ledger → String → Bool
is_frozen l v = elim (first (λ row. str_eq row.version_id v) l.versions) [
  | some row ↦ row.frozen
  | none ↦ false
]

-- `limit`
abbrev pub attempt_limit : Option ℕ → ℕ
attempt_limit none = 3
attempt_limit (some n) = max_worker_attempts n

abbrev pub revision_expiry : RevisionRequest → ℕ
revision_expiry request =
    request.now + (if request.lease_ttl == 0 then minute else request.lease_ttl)

abbrev pub may_be_revised : Session → TicketRuntime → Bool
may_be_revised s rt =
    is_open s.state
    && str_eq rt.state "waiting_review"
    && not (str_eq s.owner "")
    && not s.delivery_retry_pending

abbrev pub revision_run : Session → FreshIds → ℕ → WorkerRun
revision_run s fresh attempt = record {
  run_id = fresh.run_id;
  session_id = s.session_id;
  attempt = attempt;
  recovery_epoch = s.recovery_epoch;
  lease_generation = s.current_lease_generation + 1;
  run_kind = agent;
  state = running;
  launch_state = ready;
  prelaunch_reserved = false;
  container_create_generation = 0;
  container_create_pending = false;
  isolation_pending = false;
}

abbrev pub revision_lease : RevisionRequest → Session → FreshIds → RunLease
revision_lease request s fresh = record {
  lease_token = fresh.lease_token;
  run_id = fresh.run_id;
  session_id = s.session_id;
  generation = s.current_lease_generation + 1;
  state = active;
  expires_at = revision_expiry request;
}

abbrev pub with_revision : String → ℕ → Session → Session
with_revision run generation s = record s {
  current_run_id = run;
  current_lease_generation = generation;
}

-- the writes at the end of the transaction
unfoldable pub revised : Ledger → RevisionRequest → FreshIds → Session → ℕ → Ledger
revised l request fresh s attempt =
    let after =
      update_session s.session_id (with_revision fresh.run_id (s.current_lease_generation + 1)) l in
    record after {
      tables = record after.tables {
        runs = l.tables.runs ++ revision_run s fresh attempt ∷ [];
        leases = l.tables.leases ++ revision_lease request s fresh ∷ [];
      };
      runtime = set_runtime request.version_id request.issue_id "running" l.runtime;
    }

abbrev pub revision_claim : RevisionRequest → FreshIds → Session → PlanTicket → ℕ → TicketClaim
revision_claim request fresh s ticket attempt = record {
  version_id = request.version_id;
  plan_root_number = 0;
  ticket_id = request.issue_id;
  ticket_number = ticket.issue_number;
  ticket_title = ticket.title;
  owner = s.owner;
  session_id = s.session_id;
  run_id = fresh.run_id;
  attempt = attempt;
  lease_token = fresh.lease_token;
  lease_generation = s.current_lease_generation + 1;
  isolation_generation = 0;
  lease_expires_at = revision_expiry request;
}

module _ (text_less : String → String → Bool) where
  -- from the rows of the ticket to the claim
  unfoldable pub revise :
      Ledger
      → RevisionRequest
      → FreshIds
      → Session
      → TicketRuntime
      → PlanTicket
      → Verdict (TicketClaim × Ledger)
  revise l request fresh s rt ticket =
      let attempt = last_attempt l.tables.runs s.session_id + 1 in
      unless (not (may_be_revised s rt)) err_not_ready (
        unless (not (infrastructure_retry_ready l.backoffs s.session_id request.now)) err_not_ready
          (unless
            (leb request.max_parallel_runs
              (active_run_count request.now l.tables.runs l.tables.leases))
            err_capacity
            (if leb (attempt_limit request.max_attempts)
                (attempts_in_epoch l.tables.runs s.session_id s.recovery_epoch)
              then ending err_not_ready
                  (mark_ticket_needs_attention text_less l request.version_id request.issue_id [])
              else go (
                revision_claim request fresh s ticket attempt,
                revised l request fresh s attempt,
              ))))

  abbrev pub revise_with : Ledger → RevisionRequest → FreshIds → Verdict (TicketClaim × Ledger)
  revise_with l request fresh =
      unless
        (str_eq request.version_id "" || request.issue_id == 0 || request.max_parallel_runs == 0)
        err_invalid_claim
        (unless (is_frozen l request.version_id) err_not_ready (
          found (first (is_session_of request.version_id request.issue_id) l.tables.sessions)
            err_not_found
            (λ s.
              found (first (is_runtime_of request.version_id request.issue_id) l.runtime)
                err_not_found
                (λ rt.
                  found (first (is_ticket request.version_id request.issue_id) l.tickets)
                    err_not_found (λ ticket. revise l request fresh s rt ticket)))))

  -- `ClaimReviewRevision`
  unfoldable pub claim_review_revision :
      Ledger → RevisionRequest → FreshIds → Result TicketClaim × Ledger
  claim_review_revision l request fresh = settled l (revise_with l request fresh)
