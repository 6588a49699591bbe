-- ===== src/Store/Calls/Authority.antt =====
-- Calls.antt: who may act for a Worker Run.
use ai_engineer_workflow.Prelude.{
  ℕ, ◌<◌, Bool, true, false, [], ◌∷◌, ◌++◌, ◌≡◌, ◌≢◌, refl, arith, Elem, eq_iff, str_eq, ◌&&◌,
}
use ai_engineer_workflow.Store.Claim.{TicketClaim}
use ai_engineer_workflow.Store.Errors.{ok}
use ai_engineer_workflow.Store.Tables.{
  RunKind, agent, delivery_controller, RunState, succeeded, failed, superseded, cancelled,
  LaunchState, launched, LeaseState, expired, revoked, is_running, is_ready_to_launch, is_active,
  is_lease_of, WorkerRun, RunLease, Session, WorkerAudit, Tables, running, ready, active, count,
  same_kind,
}
use ai_engineer_workflow.Store.Tables.Rows.{exists→Elem, count→Elem}
use ai_engineer_workflow.Store.Launch.{
  reserve_worker_launch, can_launch, any_session, holds, has_current,
}

-- a lease of a run with the token of a claim, active and not over
abbrev pub IsLeaseFor : TicketClaim → ℕ → WorkerRun → RunLease → Type 0
IsLeaseFor c now r l =
    (l.run_id ≡ r.run_id)
    × (l.generation ≡ r.lease_generation)
    × (l.lease_token ≡ c.lease_token)
    × (l.state ≡ active)
    × (now < l.expires_at)

-- A claim with the id and the generation of a run, the current run of a session, and with the token
-- of a lease of that run that is active and not over.
abbrev pub HoldsRun : Tables → TicketClaim → ℕ → WorkerRun → Session → RunLease → Type 0
HoldsRun t c now r s l =
    Elem r t.runs
    × Elem s t.sessions
    × Elem l t.leases
    × (r.run_id ≡ c.run_id)
    × (r.lease_generation ≡ c.lease_generation)
    × (r.state ≡ running)
    × (s.current_run_id ≡ r.run_id)
    × IsLeaseFor c now r l

and_both : (a b : Bool) → (a && b) ≡ true → (a ≡ true) × (b ≡ true)
and_both a b h = ground arith

lease_facts :
    (c : TicketClaim) (now : ℕ) (r : WorkerRun) (l : RunLease)
    → (is_lease_of r l && holds c now l) ≡ true
    → IsLeaseFor c now r l
lease_facts c now r l h =
    let a = eq_iff l.run_id r.run_id in
    let b = eq_iff l.lease_token c.lease_token in
    (
      ground (arith, a, h),
      ground (arith, h),
      ground (arith, b, h),
      is_active-active l.state (ground (arith, h)),
      ground (arith, h),
    )
  where
    is_active-active : (x : LeaseState) → is_active x ≡ true → x ≡ active
    is_active-active active h = refl
    is_active-active expired h = cc
    is_active-active revoked h = cc

pub has_current-rows :
    (p : Session → Bool) (c : TicketClaim) (now : ℕ) (t : Tables) (r : WorkerRun)
    → has_current p (holds c now) t r ≡ true
    → (s : Session) × (l : RunLease) × Elem s t.sessions
      × Elem l t.leases
      × (p s ≡ true)
      × (s.current_run_id ≡ r.run_id)
      × IsLeaseFor c now r l
has_current-rows p c now t r h =
    let (u, v) = and_both _ _ h in
    let (s, m, e) = exists→Elem (λ s. str_eq s.current_run_id r.run_id && p s) t.sessions u in
    let (l, n, f) = exists→Elem (λ l. is_lease_of r l && holds c now l) t.leases v in
    let (e1, e2) = and_both (str_eq s.current_run_id r.run_id) (p s) e in
    (s, l, m, n, e2, (eq_iff s.current_run_id r.run_id).0 e1, lease_facts c now r l f)

launch_facts :
    (t : Tables) (kind : RunKind) (c : TicketClaim) (now : ℕ) (r : WorkerRun)
    → can_launch t kind c now r ≡ true
    → (r.run_id ≡ c.run_id)
      × (r.lease_generation ≡ c.lease_generation)
      × (r.state ≡ running)
      × (r.launch_state ≡ ready)
      × (r.run_kind ≡ kind)
      × (r.prelaunch_reserved ≡ true)
      × (r.isolation_pending ≡ false)
      × (has_current any_session (holds c now) t r ≡ true)
launch_facts t kind c now r h = (
  ground (arith, h, eq_iff r.run_id c.run_id),
  ground (arith, h),
  is_running-running r.state (ground (arith, h)),
  is_ready-ready r.launch_state (ground (arith, h)),
  same_kind-kind r.run_kind kind (ground (arith, h)),
  ground (arith, h),
  ground (arith, h),
  ground (arith, h),
)
  where
    is_running-running : (x : RunState) → is_running x ≡ true → x ≡ running
    is_running-running running h = refl
    is_running-running succeeded h = cc
    is_running-running failed h = cc
    is_running-running superseded h = cc
    is_running-running cancelled h = cc

    is_ready-ready : (x : LaunchState) → is_ready_to_launch x ≡ true → x ≡ ready
    is_ready-ready ready h = refl
    is_ready-ready launched h = cc

    same_kind-kind : (x y : RunKind) → same_kind x y ≡ true → x ≡ y
    same_kind-kind agent agent h = refl
    same_kind-kind delivery_controller delivery_controller h = refl
    same_kind-kind agent delivery_controller h = cc
    same_kind-kind delivery_controller agent h = cc

launch-audited :
    (t : Tables) (kind : RunKind) (c : TicketClaim) (audit : WorkerAudit) (now : ℕ) (t1 : Tables)
    → reserve_worker_launch t kind c audit now ≡ (ok tt, t1)
    → (count (can_launch t kind c now) t.runs ≢ 0) × (t1.audits ≡ t.audits ++ audit ∷ [])
unfolding reserve_worker_launch
launch-audited t kind c audit now t1 h = ground arith

-- A launch that is reserved was reserved for one who holds the current run of a session: the claim has
-- the run's id and generation and the token of its lease, which is active and not over. The run was
-- running, of the kind that was asked for, not launched, reserved for the launch before, and not
-- fenced. The audit is recorded.
pub launch-authority :
    (t : Tables) (kind : RunKind) (c : TicketClaim) (audit : WorkerAudit) (now : ℕ) (t1 : Tables)
    → reserve_worker_launch t kind c audit now ≡ (ok tt, t1)
    → (r : WorkerRun) × (s : Session) × (l : RunLease) × HoldsRun t c now r s l
      × (r.run_kind ≡ kind)
      × (r.launch_state ≡ ready)
      × (r.prelaunch_reserved ≡ true)
      × (r.isolation_pending ≡ false)
      × (t1.audits ≡ t.audits ++ audit ∷ [])
launch-authority t kind c audit now t1 h =
    let (n, a) = launch-audited t kind c audit now t1 h in
    let (r, m, e) = count→Elem (can_launch t kind c now) t.runs n in
    let (e1, e2, e3, e4, e5, e6, e7, e8) = launch_facts t kind c now r e in
    let (s, l, u, v, _, w, f) = has_current-rows any_session c now t r e8 in
    (r, s, l, (m, u, v, e1, e2, e3, w, f), e5, e4, e6, e7, a)
