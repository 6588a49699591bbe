-- ===== src/Store/Recovery/Tests.antt =====
-- Recovery.antt: a delivery run whose lease is over, and the theorems at it.
use ai_engineer_workflow.Prelude.{String, Bool, true, false, none, [], ◌∷◌, ◌≡◌, refl}
use ai_engineer_workflow.SetupContract.Text.{is_blank}
use ai_engineer_workflow.Store.Claim.{TicketClaim}
use ai_engineer_workflow.Store.Errors.{ok}
use ai_engineer_workflow.Store.Tables.{
  delivery_controller, running, ready, active, session_running, WorkerAudit, Tables, joined,
}
use ai_engineer_workflow.Prelude.Sort.{sort_by}
use ai_engineer_workflow.Store.Launch.{reserve_worker_prelaunch, reserve_worker_launch}
use ai_engineer_workflow.Store.Isolating.{
  require_worker_isolation, require_no_delivery_write_fence, worker_isolation_targets,
}
use ai_engineer_workflow.Store.Ledger.{Ledger, infrastructure_retry_delay}
use ai_engineer_workflow.Store.Attention.{
  record_authentication_failure, mark_ticket_needs_attention, recover_expired_delivery,
  update_infrastructure_retry,
}
use ai_engineer_workflow.Store.Calls.{next, done, prelaunch}
use ai_engineer_workflow.Store.Calls.Refused.{Refused}
use ai_engineer_workflow.Store.Recovery.{
  reconcile_missing_recovery_run, record_recovery_authentication_failure,
}
use ai_engineer_workflow.Store.Recovery.Stopped.{reconcile-launch}
use ai_engineer_workflow.Store.Recovery.Authentication.{authentication-launch}

abbrev missing_ledger : Ledger
missing_ledger = record {
  tables = record {
    sessions =
        record {
          session_id = "s";
          version_id = "v";
          issue_id = 5;
          owner = "o";
          state = session_running;
          current_run_id = "r";
          current_lease_generation = 1;
          recovery_epoch = 0;
          delivery_retry_pending = false;
          consecutive_failures = 0;
          workspace_path = "";
          codex_state_path = "";
          accepted_commit = "";
        }
        ∷ [];
    runs =
        record {
          run_id = "r";
          session_id = "s";
          attempt = 1;
          recovery_epoch = 0;
          lease_generation = 1;
          run_kind = delivery_controller;
          state = running;
          launch_state = ready;
          prelaunch_reserved = false;
          container_create_generation = 0;
          container_create_pending = false;
          isolation_pending = false;
        }
        ∷ [];
    leases =
        record {
          lease_token = "k";
          run_id = "r";
          session_id = "s";
          generation = 1;
          state = active;
          expires_at = 100;
        }
        ∷ [];
    write_fences = [];
    audits = [];
  };
  versions = [];
  tickets = [];
  runtime = record { version_id = "v"; issue_id = 5; state = "delivering"; delivered = false } ∷ [];
  dependencies = [];
  maintenance = none;
  review_feedback = [];
  revalidations = [];
  failures = [];
  backoffs = [];
  fairness = [];
}

abbrev with_ticket : Ledger
with_ticket = record missing_ledger {
  tickets =
      record {
        version_id = "v";
        issue_id = 5;
        issue_number = 5;
        title = "t";
        delivered = false;
        paused = false;
      }
      ∷ [];
}

abbrev missing_claim : TicketClaim
missing_claim = record {
  version_id = "v";
  plan_root_number = 1;
  ticket_id = 5;
  ticket_number = 5;
  ticket_title = "t";
  owner = "o";
  session_id = "s";
  run_id = "r";
  attempt = 1;
  lease_token = "k";
  lease_generation = 1;
  isolation_generation = 0;
  lease_expires_at = 100;
}

abbrev missing_audit : WorkerAudit
missing_audit = record {
  run_id = "r";
  lease_generation = 1;
  container_id = "";
  image_digest = "i";
  tool_versions = [];
  github_write_credentials = true;
}

abbrev no_order : String → String → Bool
no_order a b = false

abbrev reconciled_ledger : Ledger
reconciled_ledger =
    (reconcile_missing_recovery_run no_order missing_ledger missing_claim "container is gone" 200 3
      []).1

reconciles :
    reconcile_missing_recovery_run no_order missing_ledger missing_claim "container is gone" 200 3
      []
    ≡ (ok tt, reconciled_ledger)
unfolding reconcile_missing_recovery_run is_blank joined recover_expired_delivery
    require_worker_isolation require_no_delivery_write_fence worker_isolation_targets sort_by
    infrastructure_retry_delay update_infrastructure_retry
reconciles = refl

abbrev tables_later : Tables
tables_later = (reserve_worker_prelaunch reconciled_ledger.tables missing_claim 201).1

reconcile-launch_example :
    Refused tables_later
      (reserve_worker_launch tables_later delivery_controller missing_claim missing_audit 202)
reconcile-launch_example =
    reconcile-launch no_order missing_ledger missing_claim "container is gone" 200 3 []
      reconciled_ledger tables_later delivery_controller missing_claim missing_audit 202 reconciles
      (next reconciled_ledger.tables tables_later tables_later
        (prelaunch reconciled_ledger.tables missing_claim 201) (done tables_later))
      refl

abbrev failed_ledger : Ledger
failed_ledger = (record_recovery_authentication_failure no_order with_ticket missing_claim).1

records_failure :
    record_recovery_authentication_failure no_order with_ticket missing_claim
    ≡ (ok tt, failed_ledger)
unfolding record_recovery_authentication_failure record_authentication_failure
    mark_ticket_needs_attention require_worker_isolation require_no_delivery_write_fence
    worker_isolation_targets sort_by joined
records_failure = refl

abbrev tables_failed : Tables
tables_failed = (reserve_worker_prelaunch failed_ledger.tables missing_claim 201).1

authentication-launch_example :
    Refused tables_failed
      (reserve_worker_launch tables_failed delivery_controller missing_claim missing_audit 202)
authentication-launch_example =
    authentication-launch no_order with_ticket missing_claim failed_ledger tables_failed
      delivery_controller missing_claim missing_audit 202 records_failure
      (next failed_ledger.tables tables_failed tables_failed
        (prelaunch failed_ledger.tables missing_claim 201) (done tables_failed))
      refl
