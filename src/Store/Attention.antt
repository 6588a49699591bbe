-- ===== src/Store/Attention.antt =====
-- internal/store/poll.go, session.go and claim.go: how a transaction ends the work on a ticket: the
-- ticket needs attention, an expired delivery is recovered, a session has lost its authentication.
-- The question that `markTicketNeedsAttentionTx` raises, its fingerprint, and the rows of
-- `run_diagnostics` are not in the ledger.
use ai_engineer_workflow.Prelude.{
  ℕ, ◌+◌, String, Bool, true, false, ◌&&◌, not, Option, none, some, List, [], ◌∷◌, ◌++◌, map, ◌==◌,
  ltb, str_eq, if◌then◌else◌, keep,
}
use ai_engineer_workflow.Store.Errors.{
  Result, ok, err, err_not_found, err_invalid_claim, err_no_rows, and_then,
}
use ai_engineer_workflow.Store.Claim.{WorkerIsolationProof}
use ai_engineer_workflow.Store.Tables.{
  delivery_controller, RunState, failed, cancelled, LaunchState, LeaseState, expired, revoked,
  WorkerRun, RunLease, Session, Tables, is_running, is_ready_to_launch, is_active, same_kind,
  update, count, first, exists,
}
use ai_engineer_workflow.Store.Isolating.{require_worker_isolation}
use ai_engineer_workflow.Store.Fencing.{has_text}
use ai_engineer_workflow.Store.Ledger.{
  Ledger, PlanTicket, TicketRuntime, RunFailure, RetryBackoff, is_runtime_of,
  infrastructure_retry_delay,
}

-- `DefaultMaxWorkerAttempts`, `maxWorkerAttempts`
abbrev pub max_worker_attempts : ℕ → ℕ
max_worker_attempts value = if value == 0 then 3 else value

-- `UPDATE ticket_runtime SET state = ? WHERE version_id = ? AND issue_id = ? AND delivered = 0`
abbrev pub set_runtime : String → ℕ → String → List TicketRuntime → List TicketRuntime
set_runtime v issue state rts =
    update (λ rt. is_runtime_of v issue rt && not rt.delivered) (λ rt. record rt { state = state })
      rts

-- `UPDATE … SET claimed_run_id = '' WHERE claimed_run_id = ?`
abbrev pub release_claims : (String → Bool) → List String → List String
release_claims is_run claims = update is_run (λ _. "") claims

abbrev pub is_session_of : String → ℕ → Session → Bool
is_session_of v issue s = str_eq s.version_id v && s.issue_id == issue

-- `run_id IN (SELECT … WHERE state = ? AND session_id = (SELECT …))`
abbrev pub is_session_run : List Session → String → ℕ → String → Bool
is_session_run ss v issue session = elim (first (is_session_of v issue) ss) [
  | some s ↦ str_eq session s.session_id
  | none ↦ false
]

abbrev pub running_ids : List Session → List WorkerRun → String → ℕ → List String
running_ids ss rs v issue =
    map (λ r. r.run_id)
      (keep (λ r. is_running r.state && is_session_run ss v issue r.session_id) rs)

abbrev pub cancel_runs : Tables → String → ℕ → Tables
cancel_runs t v issue = record t {
  sessions =
      update (is_session_of v issue) (λ s. record s { delivery_retry_pending = false }) t.sessions;
  runs =
      update (λ r. is_running r.state && is_session_run t.sessions v issue r.session_id)
        (λ r. record r { state = cancelled }) t.runs;
  leases =
      update (λ l. is_active l.state && is_session_run t.sessions v issue l.session_id)
        (λ l. record l { state = revoked }) t.leases;
}

-- the writes of `markTicketNeedsAttentionTx`
abbrev pub stopped : Ledger → String → ℕ → Ledger
stopped l v issue = record l {
  tables = cancel_runs l.tables v issue;
  runtime = set_runtime v issue "needs_attention" l.runtime;
  review_feedback =
      release_claims (λ id. has_text id (running_ids l.tables.sessions l.tables.runs v issue))
        l.review_feedback;
  revalidations =
      release_claims (λ id. has_text id (running_ids l.tables.sessions l.tables.runs v issue))
        l.revalidations;
}

abbrev pub is_ticket : String → ℕ → PlanTicket → Bool
is_ticket v issue t = str_eq t.version_id v && t.issue_id == issue

-- a run ends, and its active lease with it
abbrev pub end_run : RunState → LeaseState → (RunLease → Bool) → String → Tables → Tables
end_run state lease_state which run t = record t {
  runs =
      update (λ r. str_eq r.run_id run && is_running r.state) (λ r. record r { state = state })
        t.runs;
  leases =
      update (λ l. str_eq l.run_id run && is_active l.state && which l)
        (λ l. record l { state = lease_state }) t.leases;
}

-- `recordRunFailureDetailTx`: the first failure of a run stays
abbrev pub record_run_failure_detail : String → String → String → List RunFailure → List RunFailure
record_run_failure_detail run class reason failures =
    if exists (λ f. str_eq f.run_id run) failures
    then failures
    else failures ++ record { run_id = run; class = class; reason = reason } ∷ []

abbrev pub failures_before : List RetryBackoff → String → ℕ
failures_before backoffs session = elim (first (λ b. str_eq b.session_id session) backoffs) [
  | some b ↦ b.consecutive_failures
  | none ↦ 0
]

abbrev pub put_backoff : RetryBackoff → List RetryBackoff → List RetryBackoff
put_backoff new [] = new ∷ []
put_backoff new (b ∷ bs) =
    let rest = put_backoff new bs in
    if str_eq b.session_id new.session_id then new ∷ bs else b ∷ rest

abbrev pub next_backoff : String → ℕ → ℕ → RetryBackoff
next_backoff session failures now = record {
  session_id = session;
  consecutive_failures = failures;
  retry_at = now + infrastructure_retry_delay failures;
}

abbrev pub retried : String → ℕ → List RetryBackoff → Option WorkerRun → Result (List RetryBackoff)
retried class now backoffs none = err err_no_rows
retried class now backoffs (some r) =
    if not (str_eq class "infrastructure")
    then ok (keep (λ b. not (str_eq b.session_id r.session_id)) backoffs)
    else ok (
        put_backoff (next_backoff r.session_id (failures_before backoffs r.session_id + 1) now)
          backoffs)

-- `updateInfrastructureRetryTx`
unfoldable pub update_infrastructure_retry :
    List WorkerRun → String → String → ℕ → List RetryBackoff → Result (List RetryBackoff)
update_infrastructure_retry runs run class now backoffs =
    retried class now backoffs (first (λ r. str_eq r.run_id run) runs)

-- the failed delivery runs of a session in an epoch
abbrev pub delivery_attempts : List WorkerRun → List RunFailure → String → ℕ → ℕ
delivery_attempts runs failures session epoch =
    count
      (λ r.
        str_eq r.session_id session
        && r.recovery_epoch == epoch
        && same_kind r.run_kind delivery_controller
        && exists (λ f. str_eq f.run_id r.run_id) failures)
      runs

-- the delivery run of a session that has expired
pub record ExpiredDelivery : Type 0 where
  pub version_id : String
  pub issue_id : ℕ
  pub session_id : String
  pub run_id : String
  pub recovery_epoch : ℕ
  pub launch_state : LaunchState
  pub lease_token : String

abbrev pub with_failure : Ledger → ExpiredDelivery → List RetryBackoff → Ledger
with_failure l d backoffs = record l {
  failures =
      record_run_failure_detail d.run_id "infrastructure"
        "Delivery Controller lease expired before container launch" l.failures;
  backoffs = backoffs;
}

abbrev pub with_retry : Ledger → ExpiredDelivery → Ledger
with_retry l d = record l {
  tables = record l.tables {
    sessions =
        update (λ s. str_eq s.session_id d.session_id)
          (λ s. record s { delivery_retry_pending = true }) l.tables.sessions;
  };
  runtime = set_runtime d.version_id d.issue_id "waiting_review" l.runtime;
}

abbrev pub without_run : Ledger → String → Ledger
without_run l run = record l {
  tables = record (end_run failed expired (λ _. true) run l.tables) {
    sessions =
        update
          (λ s. exists (λ r. str_eq r.run_id run && str_eq r.session_id s.session_id) l.tables.runs)
          (λ s. record s { consecutive_failures = s.consecutive_failures + 1 }) l.tables.sessions;
  };
  review_feedback = release_claims (λ id. str_eq id run) l.review_feedback;
  revalidations = release_claims (λ id. str_eq id run) l.revalidations;
}

module _ (text_less : String → String → Bool) where
  -- `markTicketNeedsAttentionTx`
  unfoldable pub mark_ticket_needs_attention :
      Ledger → String → ℕ → List WorkerIsolationProof → Result Ledger
  mark_ticket_needs_attention l v issue isolated =
      and_then (require_worker_isolation text_less l.tables v (issue ∷ []) isolated) (λ _.
        if exists (is_ticket v issue) l.tickets then ok (stopped l v issue) else err err_not_found)

  abbrev pub retry_or_stop : ExpiredDelivery → ℕ → Ledger → Result Ledger
  retry_or_stop d max_attempts l =
      if ltb (delivery_attempts l.tables.runs l.failures d.session_id d.recovery_epoch)
        (max_worker_attempts max_attempts)
      then ok (with_retry l d)
      else mark_ticket_needs_attention l d.version_id d.issue_id []

  -- `recoverExpiredDeliveryTx`
  unfoldable pub recover_expired_delivery :
      Ledger → ExpiredDelivery → ℕ → ℕ → List WorkerIsolationProof → Result Ledger
  recover_expired_delivery l d max_attempts now isolated =
      and_then (require_worker_isolation text_less l.tables d.version_id (d.issue_id ∷ []) isolated)
        (λ _.
          let ended = record l {
            tables =
                end_run failed expired (λ lease. str_eq lease.lease_token d.lease_token) d.run_id
                  l.tables;
          } in
          if is_ready_to_launch d.launch_state
          then and_then
              (update_infrastructure_retry ended.tables.runs d.run_id "infrastructure" now
                ended.backoffs)
              (λ backoffs. retry_or_stop d max_attempts (with_failure ended d backoffs))
          else mark_ticket_needs_attention ended d.version_id d.issue_id [])

  -- `recordEstablishedSessionAuthenticationFailureTx`, for an error that is an authentication failure
  unfoldable pub record_authentication_failure : Ledger → String → ℕ → String → Result Ledger
  record_authentication_failure l v issue run =
      if str_eq run ""
      then mark_ticket_needs_attention l v issue []
      else if count (λ r. str_eq r.run_id run && is_running r.state) l.tables.runs == 1
      then mark_ticket_needs_attention (without_run l run) v issue []
      else err err_invalid_claim
