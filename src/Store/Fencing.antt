-- ===== src/Store/Fencing.antt =====
-- internal/store/session.go: the fence on a Worker Run whose container must be isolated, and the
-- acknowledgement that its container is gone.
use ai_engineer_workflow.Prelude.{
  String, Bool, true, false, ◌&&◌, ◌||◌, not, Option, none, some, List, [], ◌∷◌, ◌==◌, str_eq,
  if◌then◌else◌,
}
use ai_engineer_workflow.Store.Claim.{TicketClaim, WorkerIsolationProof}
use ai_engineer_workflow.Store.Errors.{
  Result, ok, err, err_fencing_conflict, err_invalid_claim, err_delivery_in_progress, and_then,
  commit,
}
use ai_engineer_workflow.Store.Tables.{
  WorkerRun, Tables, is_running, is_active, update, count, exists, is_lease_of,
}
use ai_engineer_workflow.Store.Launch.{is_run_of}
use ai_engineer_workflow.Store.Isolating.{
  write_fenced, same_worker_isolation_target, worker_isolation_targets,
}

abbrev pub is_complete_target : TicketClaim → Bool
is_complete_target c = not (
    str_eq c.version_id ""
    || c.ticket_id == 0
    || str_eq c.session_id ""
    || str_eq c.run_id ""
    || c.lease_generation == 0
    || str_eq c.lease_token "")

abbrev pub has_text : String → List String → Bool
has_text a [] = false
has_text a (x ∷ xs) = if str_eq a x then true else has_text a xs

-- The member of a list of length 1.
abbrev pub only {ℓ} : {A : Type ℓ} → List A → Option A
only [] = none
only (x ∷ []) = some x
only (x ∷ y ∷ ys) = none

-- the row that the fence and the acknowledgement write
abbrev pub is_target_run : TicketClaim → WorkerRun → Bool
is_target_run c r =
    is_run_of c r && r.container_create_generation == c.isolation_generation && is_running r.state

abbrev pub can_fence : Tables → TicketClaim → WorkerRun → Bool
can_fence t c r =
    is_target_run c r
    && exists (λ l. is_lease_of r l && str_eq l.lease_token c.lease_token && is_active l.state)
        t.leases

abbrev pub with_isolation : WorkerRun → WorkerRun
with_isolation r = record r { isolation_pending = true }

abbrev pub fenced : Tables → TicketClaim → Tables
fenced t c = record t { runs = update (can_fence t c) with_isolation t.runs }

abbrev pub can_acknowledge : TicketClaim → WorkerRun → Bool
can_acknowledge c r = is_target_run c r && r.isolation_pending

abbrev pub with_create_done : WorkerRun → WorkerRun
with_create_done r = record r { container_create_pending = false }

abbrev pub acknowledged : Tables → TicketClaim → Tables
acknowledged t c = record t { runs = update (can_acknowledge c) with_create_done t.runs }

-- what the loop of `FenceWorkerIsolation` does to one row
unfoldable pub fence_target : Tables → TicketClaim → Result Tables
fence_target t c =
    if write_fenced t c.run_id c.lease_generation
    then err err_delivery_in_progress
    else if count (can_fence t c) t.runs == 1
    then ok (fenced t c)
    else err err_fencing_conflict

-- `seen[target.RunID] = true`, and `targets = append(targets, target)`
abbrev pub noted : Option TicketClaim → List String → List String
noted none seen = seen
noted (some c) seen = c.run_id ∷ seen

abbrev pub listed : Option TicketClaim → List TicketClaim → List TicketClaim
listed none cs = cs
listed (some c) cs = c ∷ cs

-- `text_less` is the order of texts of the database.
module _ (text_less : String → String → Bool) where
  -- the target that the fence and the acknowledgement find for a claim
  unfoldable pub target_for : Tables → TicketClaim → Result TicketClaim
  target_for t c =
      elim (only (worker_isolation_targets text_less t c.version_id (c.ticket_id ∷ []))) [
        | some target ↦
            if same_worker_isolation_target c target.claim
            then ok target.claim
            else err err_fencing_conflict
        | none ↦ err err_fencing_conflict
      ]

  -- one turn of the loop of `FenceWorkerIsolation`: none for a run seen before
  unfoldable pub fence_turn :
      Tables → List String → TicketClaim → Result (Option TicketClaim × Tables)
  fence_turn t seen c =
      if not (is_complete_target c)
      then err err_invalid_claim
      else and_then (target_for t c) (λ target.
        if has_text target.run_id seen
        then ok (none, t)
        else and_then (fence_target t target) (λ t1. ok (some target, t1)))

  unfoldable pub fence_each :
      List TicketClaim → Tables → List String → Result (List TicketClaim × Tables)
  fence_each [] t seen = ok ([], t)
  fence_each (c ∷ cs) t seen = and_then (fence_turn t seen c) (λ turn.
      and_then (fence_each cs turn.1 (noted turn.0 seen))
        (λ done. ok (listed turn.0 done.0, done.1)))

  -- `FenceWorkerIsolation`
  unfoldable pub fence_worker_isolation :
      Tables → List TicketClaim → Result (List TicketClaim) × Tables
  fence_worker_isolation t [] = (err err_invalid_claim, t)
  fence_worker_isolation t (c ∷ cs) = commit t (fence_each (c ∷ cs) t [])

  -- one turn of the loop of `AcknowledgeWorkerIsolation`
  unfoldable pub acknowledge_turn : Tables → TicketClaim → Result (TicketClaim × Tables)
  acknowledge_turn t c = and_then (target_for t c) (λ target.
      if count (can_acknowledge target) t.runs == 1
      then ok (target, acknowledged t target)
      else err err_fencing_conflict)

  unfoldable pub acknowledge_each :
      List TicketClaim → Tables → Result (List WorkerIsolationProof × Tables)
  acknowledge_each [] t = ok ([], t)
  acknowledge_each (c ∷ cs) t = and_then (acknowledge_turn t c) (λ turn.
      and_then (acknowledge_each cs turn.1)
        (λ done. ok (record { target = turn.0 } ∷ done.0, done.1)))

  -- `AcknowledgeWorkerIsolation`
  unfoldable pub acknowledge_worker_isolation :
      Tables → List TicketClaim → Result (List WorkerIsolationProof) × Tables
  acknowledge_worker_isolation t [] = (err err_invalid_claim, t)
  acknowledge_worker_isolation t (c ∷ cs) = commit t (acknowledge_each (c ∷ cs) t)
