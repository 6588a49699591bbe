-- ===== src/Store/Launch.antt =====
-- internal/store/claim.go: how a claimed Worker Run is reserved and launched, and who may act for it.
-- A write outside a transaction keeps its effect also when the call answers an error. `now` is the
-- moment after the defaulting of a zero time.
use ai_engineer_workflow.Prelude.{
  String, List, ℕ, ◌+◌, Bool, true, false, ◌&&◌, ◌||◌, not, none, some, [], ◌∷◌, ◌++◌, ◌==◌, leb,
  str_eq, if◌then◌else◌,
}
use ai_engineer_workflow.SetupContract.Text.{is_blank}
use ai_engineer_workflow.Store.Claim.{TicketClaim}
use ai_engineer_workflow.Store.Errors.{
  Result, ok, err, StoreError, err_fencing_conflict, err_invalid_claim, err_worker_launched,
  err_delivery_launch_lease_expired, out_of_fuel,
}
use ai_engineer_workflow.Store.Tables.{
  RunKind, agent, delivery_controller, WorkerRun, RunLease, Session, Tables, launched, WorkerAudit,
  is_running, is_ready_to_launch, is_active, same_kind, update, count, first, exists, is_lease_of,
  is_live, Current, current,
}

-- the guard that the calls share
abbrev pub has_lease : TicketClaim → Bool
has_lease c = not (str_eq c.run_id "" || str_eq c.lease_token "" || c.lease_generation == 0)

abbrev pub is_complete : TicketClaim → Bool
is_complete c = not (str_eq c.version_id "" || c.ticket_id == 0) && has_lease c

abbrev pub is_run_of : TicketClaim → WorkerRun → Bool
is_run_of c r = str_eq r.run_id c.run_id && r.lease_generation == c.lease_generation

-- `EXISTS (… ticket_sessions s JOIN run_leases l …)` for a row of `worker_runs`
abbrev pub has_current : (Session → Bool) → (RunLease → Bool) → Tables → WorkerRun → Bool
has_current p q t r =
    exists (λ s. str_eq s.current_run_id r.run_id && p s) t.sessions
    && exists (λ l. is_lease_of r l && q l) t.leases

abbrev pub any_session : Session → Bool
any_session s = true

abbrev pub holds : TicketClaim → ℕ → RunLease → Bool
holds c now l = str_eq l.lease_token c.lease_token && is_live now l

abbrev pub session_of : TicketClaim → Session → Bool
session_of c s = str_eq s.version_id c.version_id && s.issue_id == c.ticket_id

-- `resolveRunBoundClaimVersion`
abbrev pub bound_to : TicketClaim → Current → Bool
bound_to c row =
    is_run_of c row.run
    && str_eq row.run.session_id row.session.session_id
    && str_eq row.lease.lease_token c.lease_token

unfoldable pub resolve_run_bound_claim_version : Tables → TicketClaim → Result TicketClaim
resolve_run_bound_claim_version t c =
    if not (is_complete c) then err err_invalid_claim else elim (first (bound_to c) (current t)) [
      | none ↦ err err_invalid_claim
      | some row ↦
          if row.session.issue_id == c.ticket_id
          then ok (record c { version_id = row.session.version_id })
          else err err_invalid_claim
    ]

abbrev pub can_prelaunch : Tables → TicketClaim → ℕ → WorkerRun → Bool
can_prelaunch t c now r =
    is_run_of c r
    && is_running r.state
    && is_ready_to_launch r.launch_state
    && not r.prelaunch_reserved
    && has_current any_session (holds c now) t r

abbrev pub with_prelaunch : WorkerRun → WorkerRun
with_prelaunch r = record r { prelaunch_reserved = true }

-- `ReserveWorkerPrelaunch`, `ReserveDeliveryControllerPrelaunch`
unfoldable pub reserve_worker_prelaunch : Tables → TicketClaim → ℕ → Result (Unit {0}) × Tables
reserve_worker_prelaunch t c now = if not (has_lease c) then (err err_invalid_claim, t) else (
  (if count (can_prelaunch t c now) t.runs == 1 then ok tt else err err_worker_launched),
  record t { runs = update (can_prelaunch t c now) with_prelaunch t.runs },
)

abbrev pub can_create : Tables → TicketClaim → ℕ → WorkerRun → Bool
can_create t c now r =
    is_run_of c r
    && is_running r.state
    && is_ready_to_launch r.launch_state
    && r.prelaunch_reserved
    && not r.isolation_pending
    && not r.container_create_pending
    && has_current (session_of c) (holds c now) t r

abbrev pub with_create : WorkerRun → WorkerRun
with_create r = record r {
  container_create_generation = r.container_create_generation + 1;
  container_create_pending = true;
}

-- the lease is the right one, and over
abbrev pub is_over : TicketClaim → ℕ → RunLease → Bool
is_over c now l = str_eq l.lease_token c.lease_token && is_active l.state && leb l.expires_at now

abbrev pub is_expired_ready : TicketClaim → ℕ → Current → Bool
is_expired_ready c now row =
    is_run_of c row.run
    && is_running row.run.state
    && is_ready_to_launch row.run.launch_state
    && row.run.prelaunch_reserved
    && is_over c now row.lease

abbrev pub create_refusal : Tables → TicketClaim → ℕ → StoreError
create_refusal t c now =
    if exists
      (λ row.
        session_of c row.session && is_expired_ready c now row && not row.run.isolation_pending)
      (current t)
    then err_delivery_launch_lease_expired
    else err_worker_launched

abbrev pub acquire_resolved : Tables → ℕ → TicketClaim → Result TicketClaim × Tables
acquire_resolved t now c =
    if count (can_create t c now) t.runs == 1
    then (ok c, record t { runs = update (can_create t c now) with_create t.runs })
    else (err (create_refusal t c now), t)

abbrev pub acquire_with : Tables → ℕ → Result TicketClaim → Result TicketClaim × Tables
acquire_with t now (ok c) = acquire_resolved t now c
acquire_with t now (err e) = (err e, t)
acquire_with t now out_of_fuel = (err err_invalid_claim, t)

-- `AcquireWorkerContainerCreateFence`, `AcquireDeliveryControllerCreateFence`; the claim that it
-- answers is the one that the function to release the fence holds.
unfoldable pub acquire_worker_container_create_fence :
    Tables → TicketClaim → ℕ → Result TicketClaim × Tables
acquire_worker_container_create_fence t c now =
    if not (is_complete c)
    then (err err_invalid_claim, t)
    else acquire_with t now (resolve_run_bound_claim_version t c)

abbrev pub can_release : TicketClaim → WorkerRun → Bool
can_release c r = is_run_of c r && r.container_create_pending && not r.isolation_pending

-- the function that `AcquireWorkerContainerCreateFence` returns, called for the first time
unfoldable pub release_container_create : Tables → TicketClaim → Result (Unit {0}) × Tables
release_container_create t c = (
  (if count (can_release c) t.runs == 1 then ok tt else err err_fencing_conflict),
  record t {
    runs = update (can_release c) (λ r. record r { container_create_pending = false }) t.runs;
  },
)

-- `toolVersions[tool]`
abbrev pub version_of : List (String × String) → String → String
version_of [] tool = ""
version_of ((name, version) ∷ rest) tool =
    if str_eq name tool then version else version_of rest tool

-- `validWorkerToolVersions`
abbrev pub valid_worker_tool_versions : List (String × String) → Bool
valid_worker_tool_versions versions = not (
    exists (λ tool. is_blank (version_of versions tool))
      ("codex" ∷ "github-cli" ∷ "go" ∷ "no-mistakes" ∷ []))

abbrev pub is_valid_audit : TicketClaim → WorkerAudit → Bool
is_valid_audit c a =
    str_eq a.run_id c.run_id
    && a.lease_generation == c.lease_generation
    && str_eq a.container_id ""
    && not (str_eq a.image_digest "")
    && valid_worker_tool_versions a.tool_versions
    && not a.github_write_credentials

-- The tests `? = ''` on the kind are false: both kinds have a name.
abbrev pub can_launch : Tables → RunKind → TicketClaim → ℕ → WorkerRun → Bool
can_launch t kind c now r =
    is_run_of c r
    && is_running r.state
    && is_ready_to_launch r.launch_state
    && same_kind r.run_kind kind
    && r.prelaunch_reserved
    && not r.isolation_pending
    && has_current any_session (holds c now) t r

abbrev pub with_launch : WorkerRun → WorkerRun
with_launch r = record r { launch_state = launched }

abbrev pub launch_refusal : Tables → RunKind → TicketClaim → ℕ → StoreError
launch_refusal t agent c now = err_worker_launched
launch_refusal t delivery_controller c now =
    if exists (λ row. same_kind row.run.run_kind delivery_controller && is_expired_ready c now row)
      (current t)
    then err_delivery_launch_lease_expired
    else err_worker_launched

-- `ReserveWorkerLaunch`, `ReserveDeliveryControllerLaunch`
unfoldable pub reserve_worker_launch :
    Tables → RunKind → TicketClaim → WorkerAudit → ℕ → Result (Unit {0}) × Tables
reserve_worker_launch t kind c audit now =
    if not (has_lease c && is_valid_audit c audit)
    then (err err_invalid_claim, t)
    else if count (can_launch t kind c now) t.runs == 1
    then (
      ok tt,
      record t {
        runs = update (can_launch t kind c now) with_launch t.runs;
        audits = t.audits ++ audit ∷ [];
      },
    )
    else (err (launch_refusal t kind c now), t)

abbrev pub is_current : RunKind → TicketClaim → ℕ → Current → Bool
is_current kind c now row =
    session_of c row.session
    && str_eq row.run.run_id c.run_id
    && same_kind row.run.run_kind kind
    && is_running row.run.state
    && row.lease.generation == c.lease_generation
    && holds c now row.lease

-- `RequireCurrentDeliveryLease`, and the test of `WithCurrentAgentLease`
unfoldable pub has_current_lease : Tables → RunKind → TicketClaim → ℕ → Result Bool
has_current_lease t kind c now =
    if not (is_complete c)
    then err err_invalid_claim
    else elim (resolve_run_bound_claim_version t c) [
      | ok resolved ↦ ok (exists (is_current kind resolved now) (current t))
      | err e ↦ err e
      | out_of_fuel ↦ err err_invalid_claim
    ]

unfoldable pub require_current_delivery_lease : Tables → TicketClaim → ℕ → Result (Unit {0})
require_current_delivery_lease t c now = elim (has_current_lease t delivery_controller c now) [
  | ok true ↦ ok tt
  | ok false ↦ err err_invalid_claim
  | err e ↦ err e
  | out_of_fuel ↦ err err_invalid_claim
]

-- `WithCurrentAgentLease`: whether the operation is called
unfoldable pub with_current_agent_lease : Tables → TicketClaim → ℕ → Result Bool
with_current_agent_lease t c now = has_current_lease t agent c now
