-- ===== src/Store/Maintenance/Idle.antt =====
-- Maintenance.antt: the fence stands only over a host without active runs, and the two counts of
-- those runs agree.
use ai_engineer_workflow.Prelude.{
  ℕ, ◌&&◌, ◌≢◌, String, Bool, none, some, List, [], ◌∷◌, ◌==◌, ◌≡◌, refl, ◌∙◌, arith, eq_iff,
  if◌then◌else◌, length, length-append, inl, inr, Bool-cases,
}
use ai_engineer_workflow.Prelude.Sort.{sort_by, length-sort_by}
use ai_engineer_workflow.Store.Errors.{ok, err, err_constraint}
use ai_engineer_workflow.Store.Tables.{
  WorkerRun, RunLease, Tables, is_running, is_live, is_lease_of, count, active_run_count,
}
use ai_engineer_workflow.Store.Maintenance.{
  MaintenanceFence, live_leases, active_run_ids, active_worker_runs, begin_maintenance_fence,
  clear_maintenance_fence,
}

length-live :
    (now : ℕ) (r : WorkerRun) (ls : List RunLease)
    → length (live_leases now r ls) ≡ count (λ l. is_lease_of r l && is_live now l) ls
length-live now r [] = refl
length-live now r (l ∷ ls) = ground (arith, length-live now r ls)

length-active :
    (now : ℕ) (rs : List WorkerRun) (ls : List RunLease)
    → length (active_run_ids now rs ls) ≡ active_run_count now rs ls
unfolding active_run_count
length-active now [] ls = refl
length-active now (r ∷ rs) ls = elim (Bool-cases (is_running r.state)) [
  | inl e ↦ rw e (
      omega (
        arith,
        length-append (live_leases now r ls) (active_run_ids now rs ls),
        length-live now r ls,
        length-active now rs ls,
      ))
  | inr e ↦ rw e (omega (arith, length-active now rs ls))
]

-- what `BeginMaintenanceFence` answers without and with a fence that stands, and what clearing leaves
abbrev pub Begins :
    (String → String → Bool) → Tables → MaintenanceFence → MaintenanceFence → ℕ → Type 0
Begins text_less t fence held now =
    let n = (active_worker_runs text_less t now).0 in
    let begun = begin_maintenance_fence t none fence now in
    (begun ≡ (ok n, (if n == 0 then some fence else none)))
    × (clear_maintenance_fence begun.1 fence.operation_id ≡ (ok tt, none))
    × (begin_maintenance_fence t (some held) fence now ≡ (err err_constraint, some held))

-- A maintenance fence that names its operation and its bundle, begun where none stands, answers the
-- number of runs that `ActiveWorkerRuns` lists; it stands afterwards when this is zero, and none
-- stands otherwise; clearing the operation leaves none. Where one stands, beginning is refused and
-- the one that stands stays.
pub begin-ActiveRuns :
    (text_less : String → String → Bool) (t : Tables) (fence held : MaintenanceFence) (now : ℕ)
    → fence.operation_id ≢ ""
    → fence.bundle_digest ≢ ""
    → Begins text_less t fence held now
unfolding active_worker_runs begin_maintenance_fence clear_maintenance_fence
begin-ActiveRuns text_less t fence held now a b =
    let n : length (sort_by text_less (active_run_ids now t.runs t.leases))
        ≡ active_run_count now t.runs t.leases =
      length-sort_by text_less (active_run_ids now t.runs t.leases)
      ∙ length-active now t.runs t.leases in
    let x = eq_iff fence.operation_id "" in
    let y = eq_iff fence.bundle_digest "" in
    let z = eq_iff fence.operation_id fence.operation_id in
    (ground (arith, n, x, y, z, a, b), ground (arith, n, x, y, z, a, b), ground (arith, x, y, a, b))
