-- ===== src/Isolation/Tests.antt =====
-- A store that demands one Worker's isolation, and the theorems at a run on it.
use ai_engineer_workflow.Prelude.{ℕ, ◌+◌, ◌≡◌, refl, true, false, none, some, [], ◌∷◌, map}
use ai_engineer_workflow.Store.Claim.{TicketClaim}
use ai_engineer_workflow.Isolation.Runs.{
  Proved, Run, isolate_workers-Proved, retry_worker_transition-Run,
}
use ai_engineer_workflow.Isolation.{
  Environment, ok, required, succeeded, Transition, isolate_workers, after_fence, after_turn,
  after_transition, retry_worker_transition,
}

abbrev worker : TicketClaim
worker = record {
  version_id = "v";
  plan_root_number = 1;
  ticket_id = 11;
  ticket_number = 2;
  ticket_title = "t";
  owner = "o";
  session_id = "s";
  run_id = "r";
  attempt = 1;
  lease_token = "l";
  lease_generation = 1;
  isolation_generation = 0;
  lease_expires_at = 60;
}

-- The world counts the calls.
abbrev counting : Environment ℕ ℕ
counting = record {
  connected = true;
  fence = λ ts w. (ok ts, w + 1);
  isolate = λ t w. (none, w + 1);
  acknowledge = λ ts w. (ok (map (λ t. record { target = t }) ts), w + 1);
  is_fencing_conflict = λ e. false;
  wait = λ n w. (false, w);
}

abbrev demands_worker : Transition counting
demands_worker [] w = (some (required (worker ∷ [])), w)
demands_worker (p ∷ ps) w = (none, w)

isolates : isolate_workers counting (worker ∷ []) 0 ≡ (ok (record { target = worker } ∷ []), 3)
unfolding isolate_workers after_fence
isolates = refl

retries : retry_worker_transition counting (some demands_worker) 0 ≡ (succeeded, 3)
unfolding retry_worker_transition after_turn after_transition isolate_workers after_fence
retries = refl

isolate_workers-Proved_example : Proved counting (worker ∷ []) 0 (record { target = worker } ∷ []) 3
isolate_workers-Proved_example =
    isolate_workers-Proved counting (worker ∷ []) 0 (record { target = worker } ∷ []) 3 isolates

retry_worker_transition-Run_example :
    Run counting demands_worker 0
      (retry_worker_transition counting (some demands_worker) 0).0
      (retry_worker_transition counting (some demands_worker) 0).1
retry_worker_transition-Run_example = retry_worker_transition-Run counting demands_worker 0
