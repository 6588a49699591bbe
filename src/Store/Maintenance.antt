-- ===== src/Store/Maintenance.antt =====
-- internal/store/maintenance.go: the fence that keeps the scheduler from new claims while a setup runs.
-- The table `platform_maintenance_fences` has at most one row.
mod Idle
mod Tests
use ai_engineer_workflow.Prelude.{
  ℕ, String, Bool, true, false, ◌||◌, Option, none, some, List, [], ◌∷◌, ◌++◌, map, ◌==◌, str_eq,
  if◌then◌else◌, keep, length,
}
use ai_engineer_workflow.Prelude.Sort.{sort_by}
use ai_engineer_workflow.Store.Errors.{Result, ok, err, err_invalid_claim, err_constraint}
use ai_engineer_workflow.Store.Tables.{
  WorkerRun, RunLease, Tables, is_running, is_live, is_lease_of, active_run_count,
}

pub record MaintenanceFence : Type 0 where
  pub operation_id : String
  pub bundle_digest : String

abbrev pub live_leases : ℕ → WorkerRun → List RunLease → List String
live_leases now r ls = map (λ l. r.run_id) (keep (λ l. is_live now l) (keep (is_lease_of r) ls))

abbrev pub active_run_ids : ℕ → List WorkerRun → List RunLease → List String
active_run_ids now [] ls = []
active_run_ids now (r ∷ rs) ls =
    let rest = active_run_ids now rs ls in
    if is_running r.state then live_leases now r ls ++ rest else rest

-- `ActiveWorkerRuns`; `text_less` is the order of texts of the database.
unfoldable pub active_worker_runs : (String → String → Bool) → Tables → ℕ → ℕ × List String
active_worker_runs text_less t now =
    let ids = sort_by text_less (active_run_ids now t.runs t.leases) in (length ids, ids)

-- `DELETE … WHERE singleton=1 AND operation_id=?`
abbrev pub without_operation : String → Option MaintenanceFence → Option MaintenanceFence
without_operation operation none = none
without_operation operation (some f) = if str_eq f.operation_id operation then none else some f

abbrev pub without_bundle : String → Option MaintenanceFence → Option MaintenanceFence
without_bundle digest none = none
without_bundle digest (some f) = if str_eq f.bundle_digest digest then none else some f

abbrev pub begin_on :
    Tables → MaintenanceFence → ℕ → Option MaintenanceFence → Result ℕ × Option MaintenanceFence
begin_on t fence now (some held) = (err err_constraint, some held)
begin_on t fence now none =
    let count = active_run_count now t.runs t.leases in
    (
      ok count,
      (if count == 0 then some fence else without_operation fence.operation_id (some fence)),
    )

-- `BeginMaintenanceFence`
unfoldable pub begin_maintenance_fence :
    Tables → Option MaintenanceFence → MaintenanceFence → ℕ → Result ℕ × Option MaintenanceFence
begin_maintenance_fence t held fence now =
    if str_eq fence.operation_id "" || str_eq fence.bundle_digest ""
    then (err err_invalid_claim, held)
    else begin_on t fence now held

-- `ClearMaintenanceFence`
unfoldable pub clear_maintenance_fence :
    Option MaintenanceFence → String → Result (Unit {0}) × Option MaintenanceFence
clear_maintenance_fence held operation =
    if str_eq operation ""
    then (err err_invalid_claim, held)
    else (ok tt, without_operation operation held)

-- `ClearMaintenanceFenceForBundle`
unfoldable pub clear_maintenance_fence_for_bundle :
    Option MaintenanceFence → String → Result (Unit {0}) × Option MaintenanceFence
clear_maintenance_fence_for_bundle held digest =
    if str_eq digest "" then (err err_invalid_claim, held) else (ok tt, without_bundle digest held)

-- `maintenanceFencedTx`
abbrev pub is_maintenance_fenced : Option MaintenanceFence → Bool
is_maintenance_fenced none = false
is_maintenance_fenced (some f) = true
