-- ===== src/Scheduler/Tests.antt =====
-- A store that gives one claim, on a safe host, and the theorem there.
use ai_engineer_workflow.Prelude.{ℕ, ◌+◌, String, true, none, some, [], ◌∷◌, ◌≡◌, refl}
use ai_engineer_workflow.Store.Claim.{TicketClaim}
use ai_engineer_workflow.Isolation.{ok}
use ai_engineer_workflow.Scheduler.{Dispatcher, refused, capacity, claim_next}

abbrev claim : TicketClaim
claim = record {
  version_id = "v";
  plan_root_number = 1;
  ticket_id = 11;
  ticket_number = 2;
  ticket_title = "t";
  owner = "o";
  session_id = "s";
  run_id = "r";
  attempt = 1;
  lease_token = "l";
  lease_generation = 1;
  isolation_generation = 0;
  lease_expires_at = 60;
}

-- The world counts the calls; a projection is its pause reason.
abbrev on_host : String → Dispatcher ℕ ℕ String
on_host reason = record {
  has_store = true;
  has_projector = true;
  require_admission = some (λ r w. (none, w + 1));
  inspect = some (λ w. (ok reason, w + 1));
  active_plan_roots = λ r w.
      (ok (record { version_id = "v"; root_issue_id = 1; root_issue_number = 1 } ∷ []), w + 1);
  plan_projection_at = λ v w. (ok "", w + 1);
  with_dispatch_paused = λ reason p. reason;
  project_plan = λ r n p w. (none, w + 1);
  claim_next_ready = λ r o w. (ok claim, w + 1);
}

pauses : claim_next (on_host "disk is full") "r" "o" 0 ≡ (refused capacity, 5)
unfolding claim_next
pauses = refl
