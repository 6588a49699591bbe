-- ===== src/Store/Maintenance/Tests.antt =====
-- Maintenance.antt: a setup on a host with an active run, and after its lease is over.
use ai_engineer_workflow.Prelude.{String, Bool, true, false, none, some, [], ◌∷◌, ◌≡◌, refl}
use ai_engineer_workflow.Store.Errors.{ok}
use ai_engineer_workflow.Store.Tables.{agent, running, launched, active, Tables, active_run_count}
use ai_engineer_workflow.Store.Maintenance.{MaintenanceFence, begin_maintenance_fence}
use ai_engineer_workflow.Store.Maintenance.Idle.{Begins, begin-ActiveRuns}

abbrev a_fence : MaintenanceFence
a_fence = record { operation_id = "o"; bundle_digest = "b" }

abbrev text_less : String → String → Bool
text_less a b = false

abbrev busy : Tables
busy = record {
  sessions = [];
  runs =
      record {
        run_id = "r";
        session_id = "s";
        attempt = 1;
        recovery_epoch = 0;
        lease_generation = 1;
        run_kind = agent;
        state = running;
        launch_state = launched;
        prelaunch_reserved = true;
        container_create_generation = 1;
        container_create_pending = false;
        isolation_pending = false;
      }
      ∷ [];
  leases =
      record {
        lease_token = "k";
        run_id = "r";
        session_id = "s";
        generation = 1;
        state = active;
        expires_at = 100;
      }
      ∷ [];
  write_fences = [];
  audits = [];
}

begin-busy : begin_maintenance_fence busy none a_fence 10 ≡ (ok 1, none)
unfolding begin_maintenance_fence active_run_count
begin-busy = refl

begin-over : begin_maintenance_fence busy none a_fence 100 ≡ (ok 0, some a_fence)
unfolding begin_maintenance_fence active_run_count
begin-over = refl

begin-ActiveRuns_example : Begins text_less busy a_fence a_fence 10
begin-ActiveRuns_example = begin-ActiveRuns text_less busy a_fence a_fence 10 (λ e. cc) (λ e. cc)
