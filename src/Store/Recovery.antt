-- ===== src/Store/Recovery.antt =====
-- internal/store/session.go and claim.go: what becomes of a run that is found missing after a restart,
-- `ReconcileMissingRecoveryRun`, and of one whose session has lost its authentication,
-- `RecordRecoveryAuthenticationFailure`.
mod Authentication
mod Stopped
mod Tests
use ai_engineer_workflow.Prelude.{
  ℕ, String, Bool, true, false, ◌&&◌, ◌||◌, not, Option, none, some, List, [], ◌∷◌, ◌==◌, ltb,
  str_eq, if◌then◌else◌,
}
use ai_engineer_workflow.SetupContract.Text.{is_blank}
use ai_engineer_workflow.Store.Claim.{TicketClaim, WorkerIsolationProof}
use ai_engineer_workflow.Store.Errors.{Result, ok, err, out_of_fuel, err_invalid_claim, and_then}
use ai_engineer_workflow.Store.Tables.{
  delivery_controller, superseded, expired, WorkerRun, RunLease, Session, Tables, Current, current,
  is_running, is_active, same_kind, first, is_lease_of,
}
use ai_engineer_workflow.Store.Launch.{has_lease}
use ai_engineer_workflow.Store.Isolating.{require_worker_isolation}
use ai_engineer_workflow.Store.Ledger.{Ledger}
use ai_engineer_workflow.Store.Attention.{
  ExpiredDelivery, set_runtime, release_claims, end_run, recover_expired_delivery,
  record_authentication_failure,
}

-- the running row of a claim
abbrev pub is_claimed_row : TicketClaim → Current → Bool
is_claimed_row c row =
    str_eq row.run.run_id c.run_id
    && str_eq row.lease.lease_token c.lease_token
    && row.lease.generation == c.lease_generation
    && is_running row.run.state
    && is_active row.lease.state

abbrev pub missing_delivery : TicketClaim → WorkerRun → ExpiredDelivery
missing_delivery c r = record {
  version_id = c.version_id;
  issue_id = c.ticket_id;
  session_id = r.session_id;
  run_id = c.run_id;
  recovery_epoch = r.recovery_epoch;
  launch_state = r.launch_state;
  lease_token = c.lease_token;
}

-- an agent run goes, and its ticket is queued again
abbrev pub without_agent : Ledger → TicketClaim → Ledger
without_agent l c = record l {
  tables =
      end_run superseded expired (λ lease. str_eq lease.lease_token c.lease_token) c.run_id
        l.tables;
  review_feedback = release_claims (λ id. str_eq id c.run_id) l.review_feedback;
  revalidations = release_claims (λ id. str_eq id c.run_id) l.revalidations;
  runtime = set_runtime c.version_id c.ticket_id "queued" l.runtime;
}

-- the outcome of a transaction on the ledger
abbrev pub kept_or : Ledger → Result Ledger → Result (Unit {0}) × Ledger
kept_or l (ok after) = (ok tt, after)
kept_or l (err e) = (err e, l)
kept_or l out_of_fuel = (out_of_fuel, l)

-- a row of `worker_runs r JOIN ticket_sessions s ON s.session_id = r.session_id JOIN run_leases l …`
abbrev pub current_run_of : Tables → TicketClaim → Option String
current_run_of t c = elim (first (λ r. str_eq r.run_id c.run_id && is_running r.state) t.runs) [
  | none ↦ none
  | some r ↦
      elim (first
        (λ lease.
          is_lease_of r lease
          && str_eq lease.lease_token c.lease_token
          && lease.generation == c.lease_generation
          && is_active lease.state)
        t.leases) [
          | none ↦ none
          | some lease ↦ elim (first (λ s. str_eq s.session_id r.session_id) t.sessions) [
            | none ↦ none
            | some s ↦ some s.current_run_id
          ]
        ]
]

module _ (text_less : String → String → Bool) where
  abbrev pub reconcile_row :
      Ledger → TicketClaim → ℕ → ℕ → List WorkerIsolationProof → Option Current → Result Ledger
  reconcile_row l c now max_attempts isolated none = err err_invalid_claim
  reconcile_row l c now max_attempts isolated (some row) =
      if same_kind row.run.run_kind delivery_controller && ltb now row.lease.expires_at
      then err err_invalid_claim
      else and_then
          (require_worker_isolation text_less l.tables c.version_id (c.ticket_id ∷ []) isolated)
          (λ _.
            if same_kind row.run.run_kind delivery_controller
            then recover_expired_delivery text_less l (missing_delivery c row.run) max_attempts now
                isolated
            else ok (without_agent l c))

  -- `ReconcileMissingRecoveryRun`
  unfoldable pub reconcile_missing_recovery_run :
      Ledger → TicketClaim → String → ℕ → ℕ → List WorkerIsolationProof → Result (Unit {0}) × Ledger
  reconcile_missing_recovery_run l c reason now max_attempts isolated =
      if not (has_lease c) || is_blank reason
      then (err err_invalid_claim, l)
      else kept_or l (
          reconcile_row l c now max_attempts isolated (first (is_claimed_row c) (current l.tables)))

  abbrev pub fail_row : Ledger → TicketClaim → Option String → Result Ledger
  fail_row l c none = err err_invalid_claim
  fail_row l c (some run) =
      if str_eq run c.run_id
      then record_authentication_failure text_less l c.version_id c.ticket_id c.run_id
      else err err_invalid_claim

  -- `RecordRecoveryAuthenticationFailure`
  unfoldable pub record_recovery_authentication_failure :
      Ledger → TicketClaim → Result (Unit {0}) × Ledger
  record_recovery_authentication_failure l c =
      if not (has_lease c)
      then (err err_invalid_claim, l)
      else kept_or l (fail_row l c (current_run_of l.tables c))
