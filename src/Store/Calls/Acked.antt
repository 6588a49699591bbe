-- ===== src/Store/Calls/Acked.antt =====
-- Calls.antt: what an acknowledgement keeps of the runs, the joined rows and the targets.
use ai_engineer_workflow.Prelude.{
  String, true, false, ◌&&◌, ◌≡◌, refl, sym, ap, subst, ◌∙◌, ◌==◌, arith, Bool-cases, inl, inr,
  Elem, str_eq, eq_iff,
}
use ai_engineer_workflow.Store.Claim.{TicketClaim}
use ai_engineer_workflow.Store.Tables.{WorkerRun, Tables, Current, count, current}
use ai_engineer_workflow.Store.Tables.Rows.{amend, Elem-update, joined-Elem, Elem-joined}
use ai_engineer_workflow.Store.Isolating.{
  WorkerTarget, claim_of, has_container, same_worker_isolation_target,
}
use ai_engineer_workflow.Store.Fencing.{acknowledged, can_acknowledge, with_create_done}
use ai_engineer_workflow.Store.Calls.Marks.{IsKeyed, Marked, update-Marked}

-- fenced, and no container is being created
abbrev pub IsIdle : WorkerRun → Type 0
IsIdle r = (r.isolation_pending ≡ true) × (r.container_create_pending ≡ false)

-- what an acknowledgement keeps of a run
abbrev pub Acked : WorkerRun → WorkerRun → Type 0
Acked r r' =
    (r'.run_id ≡ r.run_id)
    × (r'.lease_generation ≡ r.lease_generation)
    × (r'.state ≡ r.state)
    × (r'.launch_state ≡ r.launch_state)
    × (r'.prelaunch_reserved ≡ r.prelaunch_reserved)
    × (r'.container_create_generation ≡ r.container_create_generation)
    × (r'.isolation_pending ≡ r.isolation_pending)
    × (r.container_create_pending ≡ false → r'.container_create_pending ≡ false)

abbrev pub AckedTables : Tables → Tables → Type 0
AckedTables t t' =
    ((r' : WorkerRun) → Elem r' t'.runs → (r : WorkerRun) × Elem r t.runs × Acked r r')
    × (t'.sessions ≡ t.sessions)
    × (t'.leases ≡ t.leases)

pub Acked-refl : (t : Tables) → AckedTables t t
Acked-refl t = ((λ r m. (r, m, (refl, refl, refl, refl, refl, refl, refl, λ h. h))), refl, refl)

pub Acked-trans : (a b c : Tables) → AckedTables a b → AckedTables b c → AckedTables a c
Acked-trans a b c h k = (
  (λ r m.
      let (y, n, w) = k.0 r m in
      let (x, l, v) = h.0 y n in
      (
        x,
        l,
        (
          w.0 ∙ v.0,
          w.1 ∙ v.1,
          w.2 ∙ v.2,
          w.3 ∙ v.3,
          w.4 ∙ v.4,
          w.5 ∙ v.5,
          w.6 ∙ v.6,
          λ z. w.7 (v.7 z),
        ),
      )),
  k.1 ∙ h.1,
  k.2 ∙ h.2,
)

pub acknowledged-Acked : (t : Tables) (c : TicketClaim) → AckedTables t (acknowledged t c)
acknowledged-Acked t c = (
  (λ r' m.
      let (r, n, e) = Elem-update (can_acknowledge c) with_create_done t.runs r' m in
      (r, n, subst (Acked r) (sym e) (amended r))),
  refl,
  refl,
)
  where
    amended : (r : WorkerRun) → Acked r (amend (can_acknowledge c) with_create_done r)
    amended r = elim (Bool-cases (can_acknowledge c r)) [
      | inl e ↦ rw e (refl, refl, refl, refl, refl, refl, refl, λ h. refl)
      | inr e ↦ rw e (refl, refl, refl, refl, refl, refl, refl, λ h. h)
    ]

pub Acked-Idle :
    (t t' : Tables) (id : String) → AckedTables t t' → Marked IsIdle id t → Marked IsIdle id t'
Acked-Idle t t' id k h r' m e =
    let (r, n, w) = k.0 r' m in let (i, p) = h r n (sym w.0 ∙ e) in (w.6 ∙ i, w.7 p)

pub acknowledged-Idle :
    (t : Tables) (c : TicketClaim)
    → IsKeyed t
    → (count (can_acknowledge c) t.runs == 1) ≡ true
    → Marked IsIdle c.run_id (acknowledged t c)
acknowledged-Idle t c d n =
    update-Marked IsIdle (can_acknowledge c) with_create_done c.run_id (λ r. refl)
      (λ r h. ground (arith, eq_iff r.run_id c.run_id)) t.runs d
      (λ z. absurd (ground (arith, n, z))) (λ r q k. (ground (arith, q), refl))

-- A row of the later join comes from a row of the earlier one.
pub row-back :
    (t t' : Tables)
    → AckedTables t t'
    → (row' : Current) → Elem row' (current t')
    → (row : Current) × Elem row (current t)
      × (row'.session ≡ row.session)
      × (row'.lease ≡ row.lease)
      × Acked row.run row'.run
row-back t t' k row' m =
    let (s, r, l, e, q) = joined-Elem t'.sessions t'.runs t'.leases row' m in
    let (x, n, w) = k.0 row'.run r in
    (
      record { session = row'.session; run = x; lease = row'.lease },
      Elem-joined row'.session x row'.lease t.sessions t.runs t.leases
          (subst (Elem row'.session) k.1 s) n (subst (Elem row'.lease) k.2 l)
          (subst (λ z. str_eq z row'.session.current_run_id ≡ true) w.0 e)
          (ground (arith, q, w.0, w.1)),
      refl,
      refl,
      w,
    )

pub same-container :
    (v : String) (a b : Current)
    → b.session ≡ a.session
    → b.lease ≡ a.lease
    → Acked a.run b.run
    → has_container v a ≡ has_container v b
same-container v a b s l w = rw (ap (λ z. z.version_id) s, ap (λ z. z.state) l, w.2, w.3, w.4) refl

pub same-claim :
    (a b : Current)
    → b.session ≡ a.session
    → b.lease ≡ a.lease
    → Acked a.run b.run
    → claim_of b ≡ claim_of a
same-claim a b s l w = cc

pub same-target : (d : TicketClaim) → same_worker_isolation_target d d ≡ true
same-target d = ground (
  arith,
  eq_iff d.version_id d.version_id,
  eq_iff d.session_id d.session_id,
  eq_iff d.run_id d.run_id,
  eq_iff d.lease_token d.lease_token,
)

pub verifies :
    (x : WorkerTarget) (d : TicketClaim)
    → x.pending ≡ true
    → x.claim ≡ d
    → (x.pending && same_worker_isolation_target d x.claim) ≡ true
verifies x d q e =
    rw q (subst (λ z. same_worker_isolation_target d z ≡ true) (sym e) (same-target d))
