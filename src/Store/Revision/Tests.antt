-- ===== src/Store/Revision/Tests.antt =====
-- Revision.antt: a ticket that waits for its review, whose session has an owner, and the theorem at
-- it.
use ai_engineer_workflow.Prelude.{String, Bool, false, none, [], ◌∷◌}
use ai_engineer_workflow.Store.Claim.{TicketClaim}
use ai_engineer_workflow.Store.Tables.{agent, superseded, ready, expired, session_running, Session}
use ai_engineer_workflow.Store.Ledger.{Ledger}
use ai_engineer_workflow.Store.Claiming.{FreshIds}
use ai_engineer_workflow.Store.Revision.{RevisionRequest, claim_review_revision}

abbrev reviewed_session : Session
reviewed_session = record {
  session_id = "s";
  version_id = "v";
  issue_id = 5;
  owner = "o";
  state = session_running;
  current_run_id = "r1";
  current_lease_generation = 1;
  recovery_epoch = 0;
  delivery_retry_pending = false;
  consecutive_failures = 0;
  workspace_path = "";
  codex_state_path = "";
  accepted_commit = "";
}

abbrev reviewed_ledger : Ledger
reviewed_ledger = record {
  tables = record {
    sessions = reviewed_session ∷ [];
    runs =
        record {
          run_id = "r1";
          session_id = "s";
          attempt = 1;
          recovery_epoch = 0;
          lease_generation = 1;
          run_kind = agent;
          state = superseded;
          launch_state = ready;
          prelaunch_reserved = false;
          container_create_generation = 0;
          container_create_pending = false;
          isolation_pending = false;
        }
        ∷ [];
    leases =
        record {
          lease_token = "k1";
          run_id = "r1";
          session_id = "s";
          generation = 1;
          state = expired;
          expires_at = 100;
        }
        ∷ [];
    write_fences = [];
    audits = [];
  };
  versions =
      record {
        version_id = "v";
        state = "active";
        terminal_state = none;
        completed = false;
        plan_state = "active";
        frozen = false;
      }
      ∷ [];
  tickets =
      record {
        version_id = "v";
        issue_id = 5;
        issue_number = 7;
        title = "t";
        delivered = false;
        paused = false;
      }
      ∷ [];
  runtime =
      record { version_id = "v"; issue_id = 5; state = "waiting_review"; delivered = false } ∷ [];
  dependencies = [];
  maintenance = none;
  review_feedback = [];
  revalidations = [];
  failures = [];
  backoffs = [];
  fairness = [];
}

abbrev a_revision : RevisionRequest
a_revision = record {
  version_id = "v";
  issue_id = 5;
  lease_ttl = 50;
  now = 200;
  max_parallel_runs = 1;
  max_attempts = none;
}

abbrev revision_ids : FreshIds
revision_ids = record { session_id = "s2"; run_id = "r2"; lease_token = "k2" }

abbrev by_nothing : String → String → Bool
by_nothing a b = false

abbrev a_revision_claim : TicketClaim
a_revision_claim = record {
  version_id = "v";
  plan_root_number = 0;
  ticket_id = 5;
  ticket_number = 7;
  ticket_title = "t";
  owner = "o";
  session_id = "s";
  run_id = "r2";
  attempt = 2;
  lease_token = "k2";
  lease_generation = 2;
  isolation_generation = 0;
  lease_expires_at = 250;
}

abbrev revised_ledger : Ledger
revised_ledger = (claim_review_revision by_nothing reviewed_ledger a_revision revision_ids).1

abbrev run_before : String
run_before = "r1"
