-- ===== src/Store/Granting/Tests.antt =====
-- Granting.antt: an active plan with two tickets, one of which blocks the other and had a run that
-- expired, and the theorems at it.
use ai_engineer_workflow.Prelude.{
  arith, eq_iff, ℕ, ◌*◌, ◌<◌, ◌≤◌, String, Bool, false, none, [], ◌∷◌, ◌≡◌, ◌≢◌, refl, sym, ap, ◌∙◌,
  inl, inr,
}
use ai_engineer_workflow.Prelude.Sort.{sort_by}
use ai_engineer_workflow.Plan.Frontier.{ready_frontier, select, ranks_of}
use ai_engineer_workflow.Store.Claim.{TicketClaim}
use ai_engineer_workflow.Store.Errors.{ok}
use ai_engineer_workflow.Store.Tables.{
  agent, running, ready, active, session_running, WorkerRun, RunLease, Session, active_run_count,
  joined,
}
use ai_engineer_workflow.Store.Ledger.{
  Ledger, PlanTicket, load_frontier, frontier_ticket, infrastructure_retry_ready, minute,
  infrastructure_retry_delay,
}
use ai_engineer_workflow.Store.Claiming.{
  ClaimRequest, FreshIds, select_ticket, check_current_run, provision_existing, supersede,
}
use ai_engineer_workflow.Store.Opening.{open_session, resumed}
use ai_engineer_workflow.Store.Granting.{grant, granted, claim_ready}
use ai_engineer_workflow.Store.Granting.Lease.{claim_ready-HoldsRun, claim_ready-generation}
use ai_engineer_workflow.Store.Granting.Capacity.{IsFresh, claim_ready-capacity}
use ai_engineer_workflow.Store.Granting.Answers.{IsAnswer, claim_ready-IsAnswer}
use ai_engineer_workflow.Store.Ledger.Backoff.{infrastructure_retry_delay-Bounded}
use ai_engineer_workflow.Store.Calls.Authority.{HoldsRun}

abbrev a_ticket : ℕ → PlanTicket
a_ticket id = record {
  version_id = "v";
  issue_id = id;
  issue_number = id;
  title = "t";
  delivered = false;
  paused = false;
}

abbrev old_session : Session
old_session = record {
  session_id = "s";
  version_id = "v";
  issue_id = 5;
  owner = "o";
  state = session_running;
  current_run_id = "r1";
  current_lease_generation = 1;
  recovery_epoch = 0;
  delivery_retry_pending = false;
  consecutive_failures = 0;
  workspace_path = "";
  codex_state_path = "";
  accepted_commit = "";
}

-- The lease of the run that ticket 5 had ends at 100.
abbrev a_ledger : Ledger
a_ledger = record {
  tables = record {
    sessions = old_session ∷ [];
    runs =
        record {
          run_id = "r1";
          session_id = "s";
          attempt = 1;
          recovery_epoch = 0;
          lease_generation = 1;
          run_kind = agent;
          state = running;
          launch_state = ready;
          prelaunch_reserved = false;
          container_create_generation = 0;
          container_create_pending = false;
          isolation_pending = false;
        }
        ∷ [];
    leases =
        record {
          lease_token = "k1";
          run_id = "r1";
          session_id = "s";
          generation = 1;
          state = active;
          expires_at = 100;
        }
        ∷ [];
    write_fences = [];
    audits = [];
  };
  versions =
      record {
        version_id = "v";
        state = "active";
        terminal_state = none;
        completed = false;
        plan_state = "active";
        frozen = false;
      }
      ∷ [];
  tickets = a_ticket 6 ∷ a_ticket 5 ∷ [];
  runtime = [];
  dependencies = record { version_id = "v"; blocked = 6; blocker = 5 } ∷ [];
  maintenance = none;
  review_feedback = [];
  revalidations = [];
  failures = [];
  backoffs = [];
  fairness = [];
}

abbrev a_request : ClaimRequest
a_request = record {
  version_id = "v";
  ticket_id = 0;
  owner = "p";
  max_parallel_runs = 1;
  max_attempts = 3;
  lease_ttl = 50;
  now = 200;
  provision_session = none;
  fairness_repository = "";
  fairness_root_issue_id = 0;
  fairness_root_number = 0;
}

abbrev the_ids : FreshIds
the_ids = record { session_id = "s2"; run_id = "r2"; lease_token = "k2" }

abbrev text_less : String → String → Bool
text_less a b = false

abbrev the_claim : TicketClaim
the_claim = record {
  version_id = "v";
  plan_root_number = 0;
  ticket_id = 5;
  ticket_number = 5;
  ticket_title = "t";
  owner = "p";
  session_id = "s";
  run_id = "r2";
  attempt = 2;
  lease_token = "k2";
  lease_generation = 2;
  isolation_generation = 0;
  lease_expires_at = 250;
}

abbrev ledger_after : Ledger
ledger_after = (claim_ready text_less a_ledger a_request the_ids).1

claims : claim_ready text_less a_ledger a_request the_ids ≡ (ok the_claim, ledger_after)
unfolding claim_ready load_frontier frontier_ticket joined active_run_count select_ticket
    ready_frontier select ranks_of sort_by open_session resumed check_current_run provision_existing
    supersede grant granted infrastructure_retry_ready
claims = refl

claim_ready-HoldsRun_example :
    (r : WorkerRun) × (s : Session) × (lease : RunLease) × HoldsRun ledger_after.tables the_claim
      200 r s lease
    × (r.run_kind ≡ agent)
    × (r.launch_state ≡ ready)
    × (s.version_id ≡ "v")
    × (s.issue_id ≡ 5)
claim_ready-HoldsRun_example =
    claim_ready-HoldsRun text_less a_ledger a_request the_ids the_claim ledger_after claims

abbrev old_run : String
old_run = "r1"

other_run : old_run ≢ the_ids.run_id
other_run e = ground (arith, eq_iff old_run the_ids.run_id, e)

the_ids-IsFresh : IsFresh the_ids.run_id a_ledger.tables
the_ids-IsFresh = (
  (λ r m e. elim m [ inl u ↦ other_run (sym (ap (λ r. r.run_id) u) ∙ e) | inr n ↦ elim n [ ] ]),
  (λ l m e. elim m [ inl u ↦ other_run (sym (ap (λ l. l.run_id) u) ∙ e) | inr n ↦ elim n [ ] ]),
)

claim_ready-capacity_example :
    active_run_count 200 ledger_after.tables.runs ledger_after.tables.leases ≤ 1
claim_ready-capacity_example =
    claim_ready-capacity text_less a_ledger a_request the_ids the_claim ledger_after the_ids-IsFresh
      claims

claim_ready-generation_example : 1 < 2
claim_ready-generation_example =
    claim_ready-generation text_less a_ledger a_request the_ids the_claim ledger_after old_session
      claims refl

claim_ready-IsAnswer_example : IsAnswer a_ledger (claim_ready text_less a_ledger a_request the_ids)
claim_ready-IsAnswer_example = claim_ready-IsAnswer text_less a_ledger a_request the_ids

infrastructure_retry_delay-Bounded_example :
    (minute ≤ infrastructure_retry_delay 3)
    × (infrastructure_retry_delay 3 ≤ 30 * minute)
    × (infrastructure_retry_delay 3 ≤ infrastructure_retry_delay 4)
    × (infrastructure_retry_delay 4 ≤ 2 * infrastructure_retry_delay 3)
infrastructure_retry_delay-Bounded_example = infrastructure_retry_delay-Bounded 3
