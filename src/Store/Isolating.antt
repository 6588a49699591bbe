-- ===== src/Store/Isolating.antt =====
-- internal/store/session.go and claim.go: the Worker Runs whose containers must be isolated before a
-- transaction that takes work away. A run id is the key of `worker_runs`, so what the code notes under a run id
-- stands beside the target here.
use ai_engineer_workflow.Prelude.{
  ℕ, String, Bool, true, ◌&&◌, ◌||◌, not, none, some, List, [], ◌∷◌, ◌++◌, map, ◌==◌, ltb, str_eq,
  if◌then◌else◌, keep, has,
}
use ai_engineer_workflow.Prelude.Sort.{sort_by}
use ai_engineer_workflow.Store.Claim.{TicketClaim, WorkerIsolationProof}
use ai_engineer_workflow.Store.Errors.{
  Result, ok, err, out_of_fuel, err_not_found, err_invalid_claim, err_delivery_in_progress,
  isolation_required, and_then,
}
use ai_engineer_workflow.Store.Tables.{
  WorkerRun, Session, Tables, WriteFence, is_running, is_ready_to_launch, is_active, first, exists,
  Current, current,
}
use ai_engineer_workflow.Store.Launch.{
  is_complete, session_of, is_run_of, resolve_run_bound_claim_version,
}

pub record WorkerTarget : Type 0 where
  pub claim : TicketClaim
  pub pending : Bool

-- `r.launch_state = 'launched' OR (r.launch_state = 'ready' AND r.prelaunch_reserved = 1)`
abbrev pub may_have_container : WorkerRun → Bool
may_have_container r = not (is_ready_to_launch r.launch_state) || r.prelaunch_reserved

abbrev pub claim_of : Current → TicketClaim
claim_of row = record {
  version_id = row.session.version_id;
  plan_root_number = 0;
  ticket_id = row.session.issue_id;
  ticket_number = 0;
  ticket_title = "";
  owner = "";
  session_id = row.session.session_id;
  run_id = row.run.run_id;
  attempt = 0;
  lease_token = row.lease.lease_token;
  lease_generation = row.run.lease_generation;
  isolation_generation = row.run.container_create_generation;
  lease_expires_at = row.lease.expires_at;
}

-- `WorkerContainerIsolationTarget`
abbrev pub is_target_row : TicketClaim → Current → Bool
is_target_row c row =
    session_of c row.session
    && is_run_of c row.run
    && str_eq row.lease.lease_token c.lease_token
    && is_running row.run.state
    && may_have_container row.run

unfoldable pub worker_container_isolation_target : Tables → TicketClaim → Result TicketClaim
worker_container_isolation_target t c =
    if not (is_complete c)
    then err err_invalid_claim
    else elim (resolve_run_bound_claim_version t c) [
      | ok resolved ↦ elim (first (is_target_row resolved) (current t)) [
        | some row ↦ ok (claim_of row)
        | none ↦ err err_not_found
      ]
      | err _ ↦ err err_not_found
      | out_of_fuel ↦ out_of_fuel
    ]

-- the rows of `workerIsolationTargetsTx` for a version
abbrev pub has_container : String → Current → Bool
has_container v row =
    str_eq row.session.version_id v
    && is_running row.run.state
    && may_have_container row.run
    && is_active row.lease.state

-- the rows of `WorkerIsolationTargets`
abbrev pub has_any_container : Current → Bool
has_any_container row =
    is_running row.run.state && may_have_container row.run && is_active row.lease.state

-- `SELECT DISTINCT`
abbrev pub distinct_texts : List String → List String
distinct_texts [] = []
distinct_texts (x ∷ xs) = x ∷ keep (λ y. not (str_eq y x)) (distinct_texts xs)

abbrev pub target_of : Current → WorkerTarget
target_of row = record {
  claim = claim_of row;
  pending = row.run.isolation_pending && not row.run.container_create_pending;
}

-- `len(issueIDs) == 0 || issueIDs[issueID]`
abbrev pub is_asked : List ℕ → ℕ → Bool
is_asked [] issue = true
is_asked (i ∷ is) issue = has issue (i ∷ is)

-- `sameWorkerIsolationTarget`
abbrev pub same_worker_isolation_target : TicketClaim → TicketClaim → Bool
same_worker_isolation_target a b =
    str_eq a.version_id b.version_id
    && a.ticket_id == b.ticket_id
    && str_eq a.session_id b.session_id
    && str_eq a.run_id b.run_id
    && a.lease_generation == b.lease_generation
    && a.isolation_generation == b.isolation_generation
    && str_eq a.lease_token b.lease_token

-- the delivery run of a session has a write under way
abbrev pub is_fence_of : WorkerRun → WriteFence → Bool
is_fence_of r f = str_eq f.run_id r.run_id && f.lease_generation == r.lease_generation

abbrev pub runs_of : Session → WorkerRun → Bool
runs_of s r = str_eq s.session_id r.session_id && str_eq s.current_run_id r.run_id

abbrev pub writes : Tables → Session → Bool
writes t s = exists (λ r. runs_of s r && exists (is_fence_of r) t.write_fences) t.runs

-- `requireNoDeliveryWriteFenceTx`
unfoldable pub require_no_delivery_write_fence : Tables → String → List ℕ → Result (Unit {0})
require_no_delivery_write_fence t v issues =
    if exists (λ s. str_eq s.version_id v && is_asked issues s.issue_id && writes t s) t.sessions
    then err err_delivery_in_progress
    else ok tt

-- `SELECT EXISTS (… delivery_write_fences WHERE run_id = ? AND lease_generation = ?)`
abbrev pub write_fenced : Tables → String → ℕ → Bool
write_fenced t run generation =
    exists (λ f. str_eq f.run_id run && f.lease_generation == generation) t.write_fences

-- `requireDeliveryRunTerminalizationTx`
unfoldable pub require_delivery_run_terminalization : Tables → String → ℕ → Result (Unit {0})
require_delivery_run_terminalization t run generation =
    if write_fenced t run generation then err err_delivery_in_progress else ok tt

-- `text_less` is the order of texts of the database.
module _ (text_less : String → String → Bool) where
  -- `ORDER BY s.issue_id, r.run_id`
  abbrev pub target_less : WorkerTarget → WorkerTarget → Bool
  target_less a b =
      ltb a.claim.ticket_id b.claim.ticket_id
      || (a.claim.ticket_id == b.claim.ticket_id && text_less a.claim.run_id b.claim.run_id)

  -- `workerIsolationTargetsTx`
  unfoldable pub worker_isolation_targets : Tables → String → List ℕ → List WorkerTarget
  worker_isolation_targets t v issues =
      keep (λ target. is_asked issues target.claim.ticket_id)
        (sort_by target_less (map target_of (keep (has_container v) (current t))))

  abbrev pub targets_each : Tables → List String → List TicketClaim
  targets_each t [] = []
  targets_each t (v ∷ vs) =
      map (λ target. target.claim) (worker_isolation_targets t v []) ++ targets_each t vs

  -- `WorkerIsolationTargets`
  unfoldable pub all_worker_isolation_targets : Tables → List TicketClaim
  all_worker_isolation_targets t = targets_each t (
      sort_by text_less
        (distinct_texts (map (λ row. row.session.version_id) (keep has_any_container (current t)))))

  -- the loop over the proofs
  abbrev pub is_verified : List WorkerIsolationProof → WorkerTarget → Bool
  is_verified proofs target =
      exists (λ proof. target.pending && same_worker_isolation_target proof.target target.claim)
        proofs

  -- `requireWorkerIsolationTx`
  unfoldable pub require_worker_isolation :
      Tables → String → List ℕ → List WorkerIsolationProof → Result (Unit {0})
  require_worker_isolation t v issues proofs =
      and_then (require_no_delivery_write_fence t v issues) (λ _.
        let targets = worker_isolation_targets t v issues in
        if exists (λ target. not (is_verified proofs target)) targets
        then err (isolation_required (map (λ target. target.claim) targets))
        else ok tt)
