-- ===== src/Store/Calls.antt =====
-- The calls on a claimed Worker Run, of internal/store/claim.go and session.go, as steps of the
-- tables: each writes rows of `worker_runs` by UPDATE and keeps the tables that its conditions read.
pub mod Kept
pub mod Loops
pub mod Acked
pub mod Marks
pub mod Refused
pub mod Acknowledged
pub mod Authority
mod Tests
use ai_engineer_workflow.Prelude.{
  ℕ, ◌≤◌, String, Bool, true, false, List, [], ◌∷◌, ◌≡◌, refl, sym, ap, subst, ◌∙◌, arith,
  Bool-cases, ◌⊎◌, inl, inr, Elem, map, Distinct,
}
use ai_engineer_workflow.Store.Claim.{TicketClaim, WorkerIsolationProof}
use ai_engineer_workflow.Store.Errors.{Result, ok, err, out_of_fuel}
use ai_engineer_workflow.Store.Tables.{
  RunKind, WorkerRun, WorkerAudit, Tables, LaunchState, launched, update, count,
}
use ai_engineer_workflow.Store.Tables.Rows.{amend, Elem-update, map-update}
use ai_engineer_workflow.Store.Launch.{
  reserve_worker_prelaunch, acquire_worker_container_create_fence, release_container_create,
  reserve_worker_launch, has_lease, is_complete, is_valid_audit, resolve_run_bound_claim_version,
  acquire_resolved, can_prelaunch, can_create, can_release, can_launch, with_prelaunch, with_create,
  with_launch,
}
use ai_engineer_workflow.Store.Isolating.{write_fenced}
use ai_engineer_workflow.Store.Fencing.{
  fence_worker_isolation, acknowledge_worker_isolation, fence_each, acknowledge_each, fence_target,
  target_for, fenced, acknowledged, can_fence, can_acknowledge, with_isolation, with_create_done,
  is_complete_target, has_text,
}

-- Each call changes a run only forward: what identifies it stays, a launched run stays launched, a
-- fenced run stays fenced, and the generation of its container does not fall.
abbrev pub Forward : WorkerRun → WorkerRun → Type 0
Forward r r' =
    (r'.run_id ≡ r.run_id)
    × (r'.session_id ≡ r.session_id)
    × (r'.lease_generation ≡ r.lease_generation)
    × (r'.state ≡ r.state)
    × (r.launch_state ≡ launched → r'.launch_state ≡ launched)
    × (r.prelaunch_reserved ≡ true → r'.prelaunch_reserved ≡ true)
    × (r.isolation_pending ≡ true → r'.isolation_pending ≡ true)
    × (r.container_create_generation ≤ r'.container_create_generation)

pub data Amends : List WorkerRun → List WorkerRun → Type 0 where
  stay : (rs : List WorkerRun) → Amends rs rs
  amended :
      (p : WorkerRun → Bool) (f : WorkerRun → WorkerRun)
      → ((r : WorkerRun) → Forward r (f r))
      → (rs rs' : List WorkerRun) → Amends (update p f rs) rs'
      → Amends rs rs'

-- what a call does to the tables
abbrev pub Kept : Tables → Tables → Type 0
Kept t t' =
    Amends t.runs t'.runs
    × (t'.sessions ≡ t.sessions)
    × (t'.leases ≡ t.leases)
    × (t'.write_fences ≡ t.write_fences)

-- One call, whatever it answers.
pub data Step (text_less : String → String → Bool) : Tables → Tables → Type 0 where
  prelaunch :
      (t : Tables) (c : TicketClaim) (now : ℕ)
      → Step text_less t (reserve_worker_prelaunch t c now).1
  create :
      (t : Tables) (c : TicketClaim) (now : ℕ)
      → Step text_less t (acquire_worker_container_create_fence t c now).1
  release : (t : Tables) (c : TicketClaim) → Step text_less t (release_container_create t c).1
  launch :
      (t : Tables) (kind : RunKind) (c : TicketClaim) (audit : WorkerAudit) (now : ℕ)
      → Step text_less t (reserve_worker_launch t kind c audit now).1
  fence :
      (t : Tables) (cs : List TicketClaim)
      → Step text_less t (fence_worker_isolation text_less t cs).1
  acknowledge :
      (t : Tables) (cs : List TicketClaim)
      → Step text_less t (acknowledge_worker_isolation text_less t cs).1

pub data Steps (text_less : String → String → Bool) : Tables → Tables → Type 0 where
  done : (t : Tables) → Steps text_less t t
  next : (t u v : Tables) → Step text_less t u → Steps text_less u v → Steps text_less t v
