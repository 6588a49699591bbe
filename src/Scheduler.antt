-- ===== src/Scheduler.antt =====
-- internal/scheduler/scheduler.go: the dispatcher's `ClaimNext`, `DispatchPaused` and their helpers.
-- The store, the projector, admission and the host's pressure gauge are functions on a world `W`
-- with errors `E`; `none` in a field is a nil dependency.
pub mod Claims
mod Tests
use ai_engineer_workflow.Prelude.{
  ℕ, String, Bool, true, false, Option, none, some, List, [], ◌∷◌, str_eq, not,
}
use ai_engineer_workflow.Store.Claim.{TicketClaim}
use ai_engineer_workflow.Store.Dispatch.{PlanRoot}
use ai_engineer_workflow.Isolation.{Reply, ok, err}

-- What the dispatcher uses; a projection is of a type `P`.
pub record Dispatcher (W E P : Type 0) : Type 0 where
  pub has_store : Bool
  pub has_projector : Bool
  pub require_admission : Option (String → W → Option E × W)
  pub inspect : Option (W → Reply E String × W)
  pub active_plan_roots : String → W → Reply E (List PlanRoot) × W
  pub plan_projection_at : String → W → Reply E P × W
  pub with_dispatch_paused : String → P → P
  pub project_plan : String → ℕ → P → W → Option E × W
  pub claim_next_ready : String → String → W → Reply E TicketClaim × W

pub data SchedulerError (E : Type 0) : Type 0 where
  incomplete capacity : SchedulerError E
  by_dependency inspecting : E → SchedulerError E

-- a claim, with the error of its projection, or an error alone
pub data Claimed (E : Type 0) : Type 0 where
  claimed : TicketClaim → Option E → Claimed E
  refused : SchedulerError E → Claimed E

module _ {W E P : Type 0} (d : Dispatcher W E P) where
  -- `project`
  unfoldable pub after_projection : String → ℕ → String → Reply E P × W → Option E × W
  after_projection repository root reason (err e, w) = (some e, w)
  after_projection repository root reason (ok projection, w) =
      d.project_plan repository root (d.with_dispatch_paused reason projection) w

  unfoldable pub project : String → ℕ → String → String → W → Option E × W
  unfolding after_projection
  project repository root version reason w =
      after_projection repository root reason (d.plan_projection_at version w)

  -- `hostPressure`: the reason, "" for a safe host
  unfoldable pub host_pressure : W → Reply E String × W
  host_pressure w = elim d.inspect [ none ↦ (ok "", w) | some inspect ↦ inspect w ]

  -- the loop over the active roots
  unfoldable pub after_root : (W → Option E × W) → Option E × W → Option E × W
  after_root rest (some e, w) = (some e, w)
  after_root rest (none, w) = rest w

  unfoldable pub project_each : String → String → List PlanRoot → W → Option E × W
  unfolding after_root project
  project_each repository reason [] w = (none, w)
  project_each repository reason (r ∷ rs) w =
      after_root (project_each repository reason rs)
        (project repository r.root_issue_number r.version_id reason w)

  unfoldable pub after_projections : Option E × W → Reply (SchedulerError E) Bool × W
  after_projections (some e, w) = (err (by_dependency e), w)
  after_projections (none, w) = (ok true, w)

  unfoldable pub after_roots :
      String → String → Reply E (List PlanRoot) × W → Reply (SchedulerError E) Bool × W
  unfolding after_projections project_each
  after_roots repository reason (err e, w) = (err (by_dependency e), w)
  after_roots repository reason (ok roots, w) =
      after_projections (project_each repository reason roots w)

  unfoldable pub after_pressure : String → Reply E String × W → Reply (SchedulerError E) Bool × W
  unfolding after_roots
  after_pressure repository (err e, w) = (err (inspecting e), w)
  after_pressure repository (ok reason, w) = elim (str_eq reason "") [
    | true ↦ (ok false, w)
    | false ↦ after_roots repository reason (d.active_plan_roots repository w)
  ]

  -- `DispatchPaused`
  unfoldable pub dispatch_paused : String → W → Reply (SchedulerError E) Bool × W
  unfolding after_pressure host_pressure
  dispatch_paused repository w = elim d.has_store [
    | false ↦ (err incomplete, w)
    | true ↦ elim d.has_projector [
      | false ↦ (err incomplete, w)
      | true ↦ after_pressure repository (host_pressure w)
    ]
  ]

  unfoldable pub after_project_claim : TicketClaim → Option E × W → Claimed E × W
  after_project_claim c (e, w) = (claimed c e, w)

  unfoldable pub after_claim : String → Reply E TicketClaim × W → Claimed E × W
  unfolding after_project_claim project
  after_claim repository (err e, w) = (refused (by_dependency e), w)
  after_claim repository (ok c, w) =
      after_project_claim c (project repository c.plan_root_number c.version_id "" w)

  unfoldable pub after_pause : String → String → Reply (SchedulerError E) Bool × W → Claimed E × W
  unfolding after_claim
  after_pause repository owner (err e, w) = (refused e, w)
  after_pause repository owner (ok true, w) = (refused capacity, w)
  after_pause repository owner (ok false, w) =
      after_claim repository (d.claim_next_ready repository owner w)

  unfoldable pub after_admission : String → String → Option E × W → Claimed E × W
  unfolding after_pause dispatch_paused
  after_admission repository owner (some e, w) = (refused (by_dependency e), w)
  after_admission repository owner (none, w) =
      after_pause repository owner (dispatch_paused repository w)

  abbrev pub admit : String → W → Option E × W
  admit repository w = elim d.require_admission [
    | none ↦ (none, w)
    | some require ↦ require repository w
  ]

  -- `ClaimNext`
  unfoldable pub claim_next : String → String → W → Claimed E × W
  unfolding after_admission
  claim_next repository owner w = elim d.has_store [
    | false ↦ (refused incomplete, w)
    | true ↦ elim d.has_projector [
      | false ↦ (refused incomplete, w)
      | true ↦ after_admission repository owner (admit repository w)
    ]
  ]
