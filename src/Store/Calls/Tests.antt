-- ===== src/Store/Calls/Tests.antt =====
-- Calls.antt: one Worker Run that is reserved, created, launched, fenced and acknowledged, and the
-- theorems at it.
use ai_engineer_workflow.Prelude.{
  map, String, Bool, true, false, List, [], ◌∷◌, ◌++◌, ◌≡◌, refl, inl,
}
use ai_engineer_workflow.SetupContract.Text.{is_blank}
use ai_engineer_workflow.Store.Calls.Marks.{IsKeyed}
use ai_engineer_workflow.Store.Claim.{TicketClaim}
use ai_engineer_workflow.Store.Errors.{ok}
use ai_engineer_workflow.Store.Tables.{
  agent, running, ready, active, session_running, WorkerRun, RunLease, Session, WorkerAudit, Tables,
  joined,
}
use ai_engineer_workflow.Prelude.Sort.{sort_by}
use ai_engineer_workflow.Store.Launch.{
  reserve_worker_prelaunch, acquire_worker_container_create_fence, release_container_create,
  reserve_worker_launch, resolve_run_bound_claim_version,
}
use ai_engineer_workflow.Store.Isolating.{
  worker_isolation_targets, require_worker_isolation, require_no_delivery_write_fence,
}
use ai_engineer_workflow.Store.Fencing.{
  fence_worker_isolation, acknowledge_worker_isolation, fence_each, acknowledge_each, fence_turn,
  acknowledge_turn, fence_target, target_for,
}
use ai_engineer_workflow.Store.Calls.{next, done, fence, acknowledge}
use ai_engineer_workflow.Store.Calls.Refused.{Refused, launch-once, fenced-no_container}
use ai_engineer_workflow.Store.Calls.Acknowledged.{acknowledge-require}
use ai_engineer_workflow.Store.Calls.Authority.{HoldsRun, launch-authority}

abbrev a_claim : TicketClaim
a_claim = record {
  version_id = "v";
  plan_root_number = 1;
  ticket_id = 5;
  ticket_number = 5;
  ticket_title = "t";
  owner = "o";
  session_id = "s";
  run_id = "r";
  attempt = 1;
  lease_token = "k";
  lease_generation = 1;
  isolation_generation = 0;
  lease_expires_at = 100;
}

abbrev claimed : Tables
claimed = record {
  sessions =
      record {
        session_id = "s";
        version_id = "v";
        issue_id = 5;
        owner = "o";
        state = session_running;
        current_run_id = "r";
        current_lease_generation = 1;
        recovery_epoch = 0;
        delivery_retry_pending = false;
        consecutive_failures = 0;
        workspace_path = "";
        codex_state_path = "";
        accepted_commit = "";
      }
      ∷ [];
  runs =
      record {
        run_id = "r";
        session_id = "s";
        attempt = 1;
        recovery_epoch = 0;
        lease_generation = 1;
        run_kind = agent;
        state = running;
        launch_state = ready;
        prelaunch_reserved = false;
        container_create_generation = 0;
        container_create_pending = false;
        isolation_pending = false;
      }
      ∷ [];
  leases =
      record {
        lease_token = "k";
        run_id = "r";
        session_id = "s";
        generation = 1;
        state = active;
        expires_at = 100;
      }
      ∷ [];
  write_fences = [];
  audits = [];
}

abbrev an_audit : WorkerAudit
an_audit = record {
  run_id = "r";
  lease_generation = 1;
  container_id = "";
  image_digest = "i";
  tool_versions = ("codex", "1") ∷ ("github-cli", "1") ∷ ("go", "1") ∷ ("no-mistakes", "1") ∷ [];
  github_write_credentials = false;
}

abbrev text_less : String → String → Bool
text_less a b = false

abbrev reserved : Tables
reserved = (reserve_worker_prelaunch claimed a_claim 10).1

abbrev created : Tables
created = (acquire_worker_container_create_fence reserved a_claim 11).1

abbrev free : Tables
free = (release_container_create created a_claim).1

abbrev launched_run : Tables
launched_run = (reserve_worker_launch free agent a_claim an_audit 12).1

abbrev the_target : TicketClaim
the_target = record a_claim { isolation_generation = 1 }

abbrev only_target : TicketClaim
only_target = record the_target {
  plan_root_number = 0;
  ticket_number = 0;
  ticket_title = "";
  owner = "";
  attempt = 0;
}

abbrev the_targets : List TicketClaim
the_targets = only_target ∷ []

abbrev fenced_run : Tables
fenced_run = (fence_worker_isolation text_less launched_run (the_target ∷ [])).1

abbrev stopped_run : Tables
stopped_run = (acknowledge_worker_isolation text_less fenced_run the_targets).1

launched-ok : reserve_worker_launch free agent a_claim an_audit 12 ≡ (ok tt, launched_run)
unfolding reserve_worker_prelaunch acquire_worker_container_create_fence
    resolve_run_bound_claim_version joined release_container_create reserve_worker_launch is_blank
launched-ok = refl

fenced-ok :
    fence_worker_isolation text_less launched_run (the_target ∷ []) ≡ (ok the_targets, fenced_run)
unfolding reserve_worker_prelaunch acquire_worker_container_create_fence
    resolve_run_bound_claim_version joined release_container_create reserve_worker_launch is_blank
    fence_worker_isolation fence_each fence_turn fence_target target_for worker_isolation_targets
    sort_by
fenced-ok = refl

stopped-ok :
    acknowledge_worker_isolation text_less fenced_run the_targets
    ≡ (ok (map (λ c. record { target = c }) the_targets), stopped_run)
unfolding reserve_worker_prelaunch acquire_worker_container_create_fence
    resolve_run_bound_claim_version joined release_container_create reserve_worker_launch is_blank
    fence_worker_isolation fence_each fence_turn fence_target target_for worker_isolation_targets
    sort_by acknowledge_worker_isolation acknowledge_each acknowledge_turn
stopped-ok = refl

IsKeyed-free : IsKeyed free
unfolding reserve_worker_prelaunch acquire_worker_container_create_fence
    resolve_run_bound_claim_version joined release_container_create reserve_worker_launch is_blank
IsKeyed-free = ((λ m. elim m [ ]), tt)

IsKeyed-launched : IsKeyed launched_run
unfolding reserve_worker_prelaunch acquire_worker_container_create_fence
    resolve_run_bound_claim_version joined release_container_create reserve_worker_launch is_blank
IsKeyed-launched = ((λ m. elim m [ ]), tt)

IsKeyed-fenced : IsKeyed fenced_run
unfolding reserve_worker_prelaunch acquire_worker_container_create_fence
    resolve_run_bound_claim_version joined release_container_create reserve_worker_launch is_blank
    fence_worker_isolation fence_each fence_turn fence_target target_for worker_isolation_targets
    sort_by
IsKeyed-fenced = ((λ m. elim m [ ]), tt)

launch-once_example :
    Refused stopped_run (reserve_worker_launch stopped_run agent a_claim an_audit 20)
launch-once_example =
    launch-once text_less free agent a_claim an_audit 12 launched_run stopped_run agent a_claim
      an_audit 20 IsKeyed-free launched-ok
      (next launched_run fenced_run stopped_run (fence launched_run (the_target ∷ [])) (
        next fenced_run stopped_run stopped_run (acknowledge fenced_run the_targets)
          (done stopped_run)))
      refl

fenced-no_container_example :
    Refused stopped_run (acquire_worker_container_create_fence stopped_run a_claim 20)
    × Refused stopped_run (reserve_worker_launch stopped_run agent a_claim an_audit 20)
fenced-no_container_example =
    fenced-no_container text_less launched_run (the_target ∷ []) the_targets fenced_run stopped_run
      (only_target) a_claim agent an_audit 20 IsKeyed-launched fenced-ok (inl refl)
      (next fenced_run stopped_run stopped_run (acknowledge fenced_run the_targets)
        (done stopped_run))
      refl

no_write-stopped : require_no_delivery_write_fence stopped_run "v" (5 ∷ []) ≡ ok tt
unfolding reserve_worker_prelaunch acquire_worker_container_create_fence
    resolve_run_bound_claim_version joined release_container_create reserve_worker_launch is_blank
    fence_worker_isolation fence_each fence_turn fence_target target_for worker_isolation_targets
    sort_by acknowledge_worker_isolation acknowledge_each acknowledge_turn
    require_no_delivery_write_fence
no_write-stopped = refl

acknowledge-require_example :
    require_worker_isolation text_less stopped_run "v"
      (5 ∷ [])
      (map (λ c. record { target = c }) the_targets)
    ≡ ok tt
acknowledge-require_example =
    acknowledge-require text_less fenced_run the_targets
      (map (λ c. record { target = c }) the_targets) stopped_run only_target IsKeyed-fenced
      stopped-ok (inl refl) no_write-stopped

launch-authority_example :
    (r : WorkerRun) × (s : Session) × (l : RunLease) × HoldsRun free a_claim 12 r s l
    × (r.run_kind ≡ agent)
    × (r.launch_state ≡ ready)
    × (r.prelaunch_reserved ≡ true)
    × (r.isolation_pending ≡ false)
    × (launched_run.audits ≡ free.audits ++ an_audit ∷ [])
launch-authority_example = launch-authority free agent a_claim an_audit 12 launched_run launched-ok
