-- ===== src/Store/Granting/Capacity.antt =====
-- Granting.antt: a granted claim keeps the number of active runs within the capacity.
use ai_engineer_workflow.Prelude.{
  ℕ, ◌+◌, ◌≤◌, String, Bool, true, false, ◌&&◌, Option, none, some, List, [], ◌∷◌, ◌++◌, str_eq,
  eq_iff, ◌≡◌, ◌≢◌, refl, sym, ap, subst, ◌∙◌, ◌⊎◌, inl, inr, Bool-cases, arith, Elem,
}
use ai_engineer_workflow.Plan.Frontier.{FrontierSnapshot}
use ai_engineer_workflow.Store.Claim.{TicketClaim}
use ai_engineer_workflow.Store.Errors.{Result, ok, err, out_of_fuel}
use ai_engineer_workflow.Store.Tables.{
  WorkerRun, RunLease, Tables, RunState, LeaseState, expired, superseded, is_running, is_active,
  is_live, is_lease_of, update, count, first, active_run_count,
}
use ai_engineer_workflow.Store.Tables.Rows.{update-key}
use ai_engineer_workflow.Store.Ledger.{Ledger, PlanVersion, load_frontier, loaded}
use ai_engineer_workflow.Store.Attention.{end_run}
use ai_engineer_workflow.Store.Claiming.{ClaimRequest, FreshIds}
use ai_engineer_workflow.Store.Opening.{OpenSession}
use ai_engineer_workflow.Store.Granting.{
  run_of, lease_of, first_generation, last_attempt, claim_ready,
}
use ai_engineer_workflow.Store.Granting.Sound.{IsOpened, claim_ready-IsClaim}
use ai_engineer_workflow.Store.Granting.Lease.{granted-tables}

-- An ended run and an ended lease are not counted.
count-end :
    (now : ℕ) (r : WorkerRun) (p : RunLease → Bool) (state : LeaseState)
    → is_active state ≡ false
    → (ls : List RunLease)
    → count (λ l. is_lease_of r l && is_live now l) (update p (λ l. record l { state = state }) ls)
      ≤ count (λ l. is_lease_of r l && is_live now l) ls
count-end now r p state h [] = omega arith
count-end now r p state h (l ∷ ls) = ground (arith, h, count-end now r p state h ls)

active-end_leases :
    (now : ℕ) (p : RunLease → Bool) (state : LeaseState)
    → is_active state ≡ false
    → (rs : List WorkerRun) (ls : List RunLease)
    → active_run_count now rs (update p (λ l. record l { state = state }) ls)
      ≤ active_run_count now rs ls
unfolding active_run_count
active-end_leases now p state h [] ls = omega arith
active-end_leases now p state h (r ∷ rs) ls =
    ground (arith, count-end now r p state h ls, active-end_leases now p state h rs ls)

active-end_runs :
    (now : ℕ) (p : WorkerRun → Bool) (state : RunState)
    → is_running state ≡ false
    → (rs : List WorkerRun) (ls : List RunLease)
    → active_run_count now (update p (λ r. record r { state = state }) rs) ls
      ≤ active_run_count now rs ls
unfolding active_run_count
active-end_runs now p state h [] ls = omega arith
active-end_runs now p state h (r ∷ rs) ls = elim (Bool-cases (p r)) [
  | inl e ↦ rw (e, h) (omega (arith, active-end_runs now p state h rs ls))
  | inr e ↦ rw e (omega (arith, active-end_runs now p state h rs ls))
]

-- A lease of another run is not counted.
count-other_lease :
    (now : ℕ) (r : WorkerRun) (new : RunLease)
    → r.run_id ≢ new.run_id
    → (ls : List RunLease)
    → count (λ l. is_lease_of r l && is_live now l) (ls ++ new ∷ [])
      ≡ count (λ l. is_lease_of r l && is_live now l) ls
count-other_lease now r new h [] = ground (arith, h, eq_iff new.run_id r.run_id)
count-other_lease now r new h (l ∷ ls) = ground (arith, count-other_lease now r new h ls)

-- No lease of a run that is new, so at most the one that comes.
count-new :
    (now : ℕ) (r : WorkerRun) (new : RunLease) (ls : List RunLease)
    → ((l : RunLease) → Elem l ls → l.run_id ≢ r.run_id)
    → count (λ l. is_lease_of r l && is_live now l) (ls ++ new ∷ []) ≤ 1
count-new now r new [] h = ground arith
count-new now r new (l ∷ ls) h =
    ground
      (arith, h l (inl refl), eq_iff l.run_id r.run_id, count-new now r new ls (λ x m. h x (inr m)))

pub active-append :
    (now : ℕ) (rs : List WorkerRun) (ls : List RunLease) (r : WorkerRun) (new : RunLease)
    → ((x : WorkerRun) → Elem x rs → x.run_id ≢ new.run_id)
    → ((l : RunLease) → Elem l ls → l.run_id ≢ r.run_id)
    → active_run_count now (rs ++ r ∷ []) (ls ++ new ∷ []) ≤ active_run_count now rs ls + 1
unfolding active_run_count
active-append now [] ls r new h k = ground (arith, count-new now r new ls k)
active-append now (x ∷ xs) ls r new h k = ground (
  arith,
  count-other_lease now x new (h x (inl refl)) ls,
  active-append now xs ls r new (λ y m. h y (inr m)) k,
)

-- what opening the session does to the runs and the leases
abbrev RunsAfter : Tables → Tables → Type 0
RunsAfter t t' =
    ((t'.runs ≡ t.runs) × (t'.leases ≡ t.leases))
    ⊎ ((run : String) × (t'.runs ≡ (end_run superseded expired (λ _. true) run t).runs)
        × (t'.leases ≡ (end_run superseded expired (λ _. true) run t).leases))

opened-RunsAfter :
    (l : Ledger) (request : ClaimRequest) (fresh : FreshIds) (issue : ℕ) (o : OpenSession)
    → IsOpened l request fresh issue o
    → RunsAfter l.tables o.ledger.tables
opened-RunsAfter l request fresh issue o (inl (_, e)) =
    inl (ap (λ o. o.ledger.tables.runs) e, ap (λ o. o.ledger.tables.leases) e)
opened-RunsAfter l request fresh issue o (inr (s, after, _, _, inl u, e)) = inl (
  ap (λ o. o.ledger.tables.runs) e ∙ ap (λ l. l.tables.runs) u,
  ap (λ o. o.ledger.tables.leases) e ∙ ap (λ l. l.tables.leases) u,
)
opened-RunsAfter l request fresh issue o (inr (s, after, _, _, inr u, e)) = inr (
  s.current_run_id,
  ap (λ o. o.ledger.tables.runs) e ∙ ap (λ l. l.tables.runs) u,
  ap (λ o. o.ledger.tables.leases) e ∙ ap (λ l. l.tables.leases) u,
)

RunsAfter-count :
    (now : ℕ) (t t' : Tables)
    → RunsAfter t t'
    → active_run_count now t'.runs t'.leases ≤ active_run_count now t.runs t.leases
RunsAfter-count now t t' (inl (u, v)) = rw (u, v) (omega arith)
RunsAfter-count now t t' (inr (run, u, v)) =
    let ended = end_run superseded expired (λ _. true) run t in
    let a =
      active-end_runs now (λ r. str_eq r.run_id run && is_running r.state) superseded refl t.runs
        ended.leases in
    let b =
      active-end_leases now (λ l. str_eq l.run_id run && is_active l.state && true) expired refl
        t.runs t.leases in
    rw (u, v) (omega (arith, a, b))

-- No run and no lease has the run id that the request brings.
abbrev pub IsFresh : String → Tables → Type 0
IsFresh id t =
    ((r : WorkerRun) → Elem r t.runs → r.run_id ≢ id)
    × ((l : RunLease) → Elem l t.leases → l.run_id ≢ id)

RunsAfter-IsFresh : (id : String) (t t' : Tables) → RunsAfter t t' → IsFresh id t → IsFresh id t'
RunsAfter-IsFresh id t t' (inl (u, v)) (h, k) =
    ((λ r m. h r (subst (Elem r) u m)), (λ l m. k l (subst (Elem l) v m)))
RunsAfter-IsFresh id t t' (inr (run, u, v)) (h, k) = (
  (λ r m e.
      let (x, n, p) =
        update-key (λ r. r.run_id) (λ r. str_eq r.run_id run && is_running r.state)
          (λ r. record r { state = superseded }) (λ x. refl) t.runs r (subst (Elem r) u m) in
      h x n (sym p ∙ e)),
  (λ l m e.
      let (x, n, p) =
        update-key (λ l. l.run_id) (λ l. str_eq l.run_id run && is_active l.state && true)
          (λ l. record l { state = expired }) (λ x. refl) t.leases l (subst (Elem l) v m) in
      k x n (sym p ∙ e)),
)

loaded-active_runs :
    (l : Ledger) (v : String) (now : ℕ) (m : Option PlanVersion) (snapshot : FrontierSnapshot)
    → loaded l v now m ≡ ok snapshot
    → snapshot.active_runs ≡ active_run_count now l.tables.runs l.tables.leases
loaded-active_runs l v now none snapshot h = cc
loaded-active_runs l v now (some version) snapshot h = sym (ap active_in h)
  where
    active_in : Result FrontierSnapshot → ℕ
    active_in (ok s) = s.active_runs
    active_in (err e) = 0
    active_in out_of_fuel = 0

load_frontier-active_runs :
    (l : Ledger) (v : String) (now : ℕ) (snapshot : FrontierSnapshot)
    → load_frontier l v now ≡ ok snapshot
    → snapshot.active_runs ≡ active_run_count now l.tables.runs l.tables.leases
unfolding load_frontier
load_frontier-active_runs l v now snapshot h =
    loaded-active_runs l v now (first (λ row. str_eq row.version_id v) l.versions) snapshot h

module _ (text_less : String → String → Bool) where
  -- When the run id that a claim brings is new, a granted claim leaves no more runs active than the
  -- request allows in parallel.
  pub claim_ready-capacity :
      (l : Ledger) (request : ClaimRequest) (fresh : FreshIds) (c : TicketClaim) (after : Ledger)
      → IsFresh fresh.run_id l.tables
      → claim_ready text_less l request fresh ≡ (ok c, after)
      → active_run_count request.now after.tables.runs after.tables.leases
        ≤ request.max_parallel_runs
  claim_ready-capacity l request fresh c after new h =
      let (_, snapshot, ticket, o, e, (room, _), opened, (_, _, _, k)) =
        claim_ready-IsClaim text_less l request fresh c after h in
      let g = first_generation o.generation in
      let a = last_attempt o.ledger.tables.runs o.session_id + 1 in
      let (u, v, _) = granted-tables request fresh ticket o g a after k in
      let moved = opened-RunsAfter l request fresh ticket.issue_id o opened in
      let (x, y) = RunsAfter-IsFresh fresh.run_id l.tables o.ledger.tables moved new in
      let proceed = RunsAfter-count request.now l.tables o.ledger.tables moved in
      let more =
        active-append request.now o.ledger.tables.runs o.ledger.tables.leases (run_of o fresh g a)
          (lease_of request o fresh g) x y in
      let n = load_frontier-active_runs l request.version_id request.now snapshot e in
      rw (u, v) (omega (arith, proceed, more, n, room))
