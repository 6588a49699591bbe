-- ===== src/Store/Calls/Kept.antt =====
-- Calls.antt: each call keeps what the joins read and moves runs only forward.
use ai_engineer_workflow.Prelude.{ℕ, ◌&&◌, Bool, List, refl, ◌∙◌, arith, Bool-cases, ◌==◌, inl, inr}
use ai_engineer_workflow.Store.Claim.{TicketClaim}
use ai_engineer_workflow.Store.Errors.{Result, ok, err, out_of_fuel}
use ai_engineer_workflow.Store.Tables.{RunKind, WorkerRun, WorkerAudit, Tables, update, count}
use ai_engineer_workflow.Store.Launch.{
  reserve_worker_prelaunch, acquire_worker_container_create_fence, release_container_create,
  reserve_worker_launch, has_lease, is_complete, is_valid_audit, resolve_run_bound_claim_version,
  acquire_resolved, acquire_with, can_prelaunch, can_create, can_release, can_launch,
  with_prelaunch, with_create, with_launch,
}
use ai_engineer_workflow.Store.Fencing.{
  fenced, acknowledged, can_fence, can_acknowledge, with_isolation, with_create_done,
}
use ai_engineer_workflow.Store.Calls.{Forward, Amends, stay, amended, Kept}

pub Forward-refl : (r : WorkerRun) → Forward r r
Forward-refl r = (refl, refl, refl, refl, λ h. h, λ h. h, λ h. h, omega arith)

pub Forward-trans : (a b c : WorkerRun) → Forward a b → Forward b c → Forward a c
Forward-trans a b c h k = (
  k.0 ∙ h.0,
  k.1 ∙ h.1,
  k.2 ∙ h.2,
  k.3 ∙ h.3,
  λ e. k.4 (h.4 e),
  λ e. k.5 (h.5 e),
  λ e. k.6 (h.6 e),
  omega (arith, h.7, k.7),
)

pub Amends-trans : (a b c : List WorkerRun) → Amends a b → Amends b c → Amends a c
Amends-trans a b c (stay _) k = k
Amends-trans a b c (amended p f h _ _ m) k = amended p f h a c (Amends-trans (update p f a) b c m k)

pub Kept-refl : (t : Tables) → Kept t t
Kept-refl t = (stay t.runs, refl, refl, refl)

pub Kept-trans : (a b c : Tables) → Kept a b → Kept b c → Kept a c
Kept-trans a b c h k = (Amends-trans a.runs b.runs c.runs h.0 k.0, k.1 ∙ h.1, k.2 ∙ h.2, k.3 ∙ h.3)

pub with_prelaunch-Forward : (r : WorkerRun) → Forward r (with_prelaunch r)
with_prelaunch-Forward r = (refl, refl, refl, refl, λ h. h, λ h. refl, λ h. h, omega arith)

pub with_create-Forward : (r : WorkerRun) → Forward r (with_create r)
with_create-Forward r = (refl, refl, refl, refl, λ h. h, λ h. h, λ h. h, omega arith)

pub with_launch-Forward : (r : WorkerRun) → Forward r (with_launch r)
with_launch-Forward r = (refl, refl, refl, refl, λ h. refl, λ h. h, λ h. h, omega arith)

pub with_isolation-Forward : (r : WorkerRun) → Forward r (with_isolation r)
with_isolation-Forward r = (refl, refl, refl, refl, λ h. h, λ h. h, λ h. refl, omega arith)

pub with_create_done-Forward : (r : WorkerRun) → Forward r (with_create_done r)
with_create_done-Forward r = (refl, refl, refl, refl, λ h. h, λ h. h, λ h. h, omega arith)

pub one :
    (t : Tables) (p : WorkerRun → Bool) (f : WorkerRun → WorkerRun)
    → ((r : WorkerRun) → Forward r (f r))
    → Amends t.runs (update p f t.runs)
one t p f h = amended p f h t.runs (update p f t.runs) (stay (update p f t.runs))

pub prelaunch-Kept :
    (t : Tables) (c : TicketClaim) (now : ℕ) → Kept t (reserve_worker_prelaunch t c now).1
unfolding reserve_worker_prelaunch
prelaunch-Kept t c now = elim (Bool-cases (has_lease c)) [
  | inl e ↦
      rw e (one t (can_prelaunch t c now) with_prelaunch with_prelaunch-Forward, refl, refl, refl)
  | inr e ↦ rw e (Kept-refl t)
]

pub acquire_resolved-Kept :
    (t : Tables) (now : ℕ) (c : TicketClaim) → Kept t (acquire_resolved t now c).1
acquire_resolved-Kept t now c = elim (Bool-cases (count (can_create t c now) t.runs == 1)) [
  | inl e ↦ rw e (one t (can_create t c now) with_create with_create-Forward, refl, refl, refl)
  | inr e ↦ rw e (Kept-refl t)
]

pub acquire_with-Kept :
    (t : Tables) (now : ℕ) (m : Result TicketClaim) → Kept t (acquire_with t now m).1
acquire_with-Kept t now (ok c) = acquire_resolved-Kept t now c
acquire_with-Kept t now (err e) = Kept-refl t
acquire_with-Kept t now out_of_fuel = Kept-refl t

pub create-Kept :
    (t : Tables) (c : TicketClaim) (now : ℕ)
    → Kept t (acquire_worker_container_create_fence t c now).1
unfolding acquire_worker_container_create_fence
create-Kept t c now = elim (Bool-cases (is_complete c)) [
  | inr e ↦ rw e (Kept-refl t)
  | inl e ↦ rw e (acquire_with-Kept t now (resolve_run_bound_claim_version t c))
]

pub release-Kept : (t : Tables) (c : TicketClaim) → Kept t (release_container_create t c).1
unfolding release_container_create
release-Kept t c =
    (one t (can_release c) with_create_done with_create_done-Forward, refl, refl, refl)

pub launch-Kept :
    (t : Tables) (kind : RunKind) (c : TicketClaim) (audit : WorkerAudit) (now : ℕ)
    → Kept t (reserve_worker_launch t kind c audit now).1
unfolding reserve_worker_launch
launch-Kept t kind c audit now = elim (Bool-cases (has_lease c && is_valid_audit c audit)) [
  | inr e ↦ rw e (Kept-refl t)
  | inl e ↦ rw e (elim (Bool-cases (count (can_launch t kind c now) t.runs == 1)) [
    | inr n ↦ rw n (Kept-refl t)
    | inl n ↦
        rw n (one t (can_launch t kind c now) with_launch with_launch-Forward, refl, refl, refl)
  ])
]

pub fenced-Kept : (t : Tables) (c : TicketClaim) → Kept t (fenced t c)
fenced-Kept t c = (one t (can_fence t c) with_isolation with_isolation-Forward, refl, refl, refl)

pub acknowledged-Kept : (t : Tables) (c : TicketClaim) → Kept t (acknowledged t c)
acknowledged-Kept t c =
    (one t (can_acknowledge c) with_create_done with_create_done-Forward, refl, refl, refl)
