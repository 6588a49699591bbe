-- ===== src/Store/Recovery/Stopped.antt =====
-- Recovery.antt: a run that was reconciled does not run any more, so its claim launches nothing.
use ai_engineer_workflow.Prelude.{
  ℕ, String, Bool, true, false, ◌&&◌, ◌||◌, not, Option, none, some, List, [], ◌∷◌, ltb, str_eq,
  eq_iff, ◌≡◌, refl, sym, ap, subst, ◌∙◌, ◌⊎◌, inl, inr, Bool-cases, arith,
}
use ai_engineer_workflow.SetupContract.Text.{is_blank}
use ai_engineer_workflow.Store.Claim.{TicketClaim, WorkerIsolationProof}
use ai_engineer_workflow.Store.Errors.{
  Result, ok, err, out_of_fuel, err_invalid_claim, err_not_found, and_then-ok, guard-ok, allow-ok,
}
use ai_engineer_workflow.Store.Tables.{
  RunKind, delivery_controller, RunState, failed, cancelled, superseded, LeaseState, expired,
  WorkerRun, RunLease, WorkerAudit, Tables, Current, current, is_running, is_ready_to_launch,
  same_kind, first, exists,
}
use ai_engineer_workflow.Store.Tables.Rows.{amend, Elem-update}
use ai_engineer_workflow.Store.Launch.{has_lease, reserve_worker_launch, can_launch}
use ai_engineer_workflow.Store.Isolating.{require_worker_isolation}
use ai_engineer_workflow.Store.Ledger.{Ledger}
use ai_engineer_workflow.Store.Attention.{
  ExpiredDelivery, end_run, is_session_run, cancel_runs, is_ticket, mark_ticket_needs_attention,
  recover_expired_delivery, retry_or_stop, with_failure, update_infrastructure_retry,
  delivery_attempts, max_worker_attempts,
}
use ai_engineer_workflow.Store.Calls.Marks.{Marked, Kept-Marked}
use ai_engineer_workflow.Store.Calls.Loops.{Steps-Kept}
use ai_engineer_workflow.Store.Calls.{Steps}
use ai_engineer_workflow.Store.Calls.Refused.{Refused, launch-Refused}
use ai_engineer_workflow.Store.Recovery.{
  is_claimed_row, missing_delivery, kept_or, reconcile_row, reconcile_missing_recovery_run,
}

abbrev pub IsStopped : WorkerRun → Type 0
IsStopped r = is_running r.state ≡ false

amend-Stopped :
    (p : WorkerRun → Bool) (state : RunState)
    → is_running state ≡ false
    → (r : WorkerRun) → ((p r ≡ true) ⊎ IsStopped r)
    → IsStopped (amend p (λ r. record r { state = state }) r)
amend-Stopped p state h r (inl e) = rw e h
amend-Stopped p state h r (inr s) = elim (Bool-cases (p r)) [ inl e ↦ rw e h | inr e ↦ rw e s ]

amend-run_id :
    (p : WorkerRun → Bool) (state : RunState) (r : WorkerRun)
    → (amend p (λ r. record r { state = state }) r).run_id ≡ r.run_id
amend-run_id p state r = elim (Bool-cases (p r)) [ inl e ↦ rw e refl | inr e ↦ rw e refl ]

ok-one : {x y : Ledger} → ◌≡◌ {A = Result Ledger} (ok x) (ok y) → x ≡ y
ok-one h = ground arith

pub err-not : err err_invalid_claim ≡ ok (tt {0}) → ⊥
err-not h = cc

pub kept-ok :
    (l : Ledger) (m : Result Ledger) (after : Ledger) → kept_or l m ≡ (ok tt, after) → m ≡ ok after
kept-ok l (ok x) after h = ap ok (ap (λ z. z.1) h)
kept-ok l (err e) after h = absurd (other (ap (λ z. z.0) h))
  where
    other : err e ≡ ok (tt {0}) → ⊥
    other q = cc
kept-ok l out_of_fuel after h = absurd (other (ap (λ z. z.0) h))
  where
    other : out_of_fuel ≡ ok (tt {0}) → ⊥
    other q = cc

pub end_run-Stopped :
    (state : RunState) (lease_state : LeaseState) (which : RunLease → Bool) (run : String)
    (t : Tables)
    → is_running state ≡ false
    → Marked IsStopped run (end_run state lease_state which run t)
end_run-Stopped state lease_state which run t h r' m e =
    let p : WorkerRun → Bool = λ r. str_eq r.run_id run && is_running r.state in
    let (r, n, u) = Elem-update p (λ r. record r { state = state }) t.runs r' m in
    let same = sym (amend-run_id p state r) ∙ sym (ap (λ z. z.run_id) u) ∙ e in
    subst IsStopped (sym u) (amend-Stopped p state h r (ended r same))
  where
    ended :
        (r : WorkerRun)
        → r.run_id ≡ run
        → ((str_eq r.run_id run && is_running r.state) ≡ true) ⊎ IsStopped r
    ended r q = ground (arith, eq_iff r.run_id run, q)

cancel_runs-Stopped :
    (t : Tables) (v : String) (issue : ℕ) (run : String)
    → Marked IsStopped run t
    → Marked IsStopped run (cancel_runs t v issue)
cancel_runs-Stopped t v issue run m r' n e =
    let p : WorkerRun → Bool =
      λ r. is_running r.state && is_session_run t.sessions v issue r.session_id in
    let (r, k, u) = Elem-update p (λ r. record r { state = cancelled }) t.runs r' n in
    let same = sym (amend-run_id p cancelled r) ∙ sym (ap (λ z. z.run_id) u) ∙ e in
    subst IsStopped (sym u) (amend-Stopped p cancelled refl r (inr (m r k same)))

stopped_can-launch :
    (t : Tables) (kind : RunKind) (c : TicketClaim) (now : ℕ) (r : WorkerRun)
    → IsStopped r
    → can_launch t kind c now r ≡ false
stopped_can-launch t kind c now r h = rw h (ground arith)

module _ (text_less : String → String → Bool) where
  pub attention-Stopped :
      (l : Ledger) (v : String) (issue : ℕ) (isolated : List WorkerIsolationProof) (run : String)
      (after : Ledger)
      → Marked IsStopped run l.tables
      → mark_ticket_needs_attention text_less l v issue isolated ≡ ok after
      → Marked IsStopped run after.tables
  unfolding mark_ticket_needs_attention
  attention-Stopped l v issue isolated run after m h =
      let (_, _, g) =
        and_then-ok (require_worker_isolation text_less l.tables v (issue ∷ []) isolated) _ after
          h in
      let (_, k) = allow-ok (exists (is_ticket v issue) l.tickets) err_not_found _ after g in
      subst (λ x. Marked IsStopped run x.tables) (ok-one k)
        (cancel_runs-Stopped l.tables v issue run m)

  retry-Stopped :
      (d : ExpiredDelivery) (max_attempts : ℕ) (l : Ledger) (run : String) (after : Ledger)
      → Marked IsStopped run l.tables
      → retry_or_stop text_less d max_attempts l ≡ ok after
      → Marked IsStopped run after.tables
  retry-Stopped d max_attempts l run after m h =
      elim (Bool-cases (
        ltb (delivery_attempts l.tables.runs l.failures d.session_id d.recovery_epoch)
          (max_worker_attempts max_attempts))) [
            | inl e ↦ subst (λ x. Marked IsStopped run x.tables) (ok-one (simp e at h)) m
            | inr e ↦ attention-Stopped l d.version_id d.issue_id [] run after m (simp e at h)
          ]

  delivery-Stopped :
      (l : Ledger) (d : ExpiredDelivery) (max_attempts now : ℕ)
      (isolated : List WorkerIsolationProof) (after : Ledger)
      → recover_expired_delivery text_less l d max_attempts now isolated ≡ ok after
      → Marked IsStopped d.run_id after.tables
  unfolding recover_expired_delivery
  delivery-Stopped l d max_attempts now isolated after h =
      let (_, _, g) =
        and_then-ok
          (require_worker_isolation text_less l.tables d.version_id (d.issue_id ∷ []) isolated) _
          after h in
      let t =
        end_run failed expired (λ lease. str_eq lease.lease_token d.lease_token) d.run_id
          l.tables in
      let m =
        end_run-Stopped failed expired (λ lease. str_eq lease.lease_token d.lease_token) d.run_id
          l.tables refl in
      elim (Bool-cases (is_ready_to_launch d.launch_state)) [
        | inl e ↦
            let (backoffs, _, k) =
              and_then-ok
                (update_infrastructure_retry t.runs d.run_id "infrastructure" now l.backoffs) _
                after (simp e at g) in
            retry-Stopped d max_attempts (with_failure (record l { tables = t }) d backoffs)
              d.run_id after m k
        | inr e ↦
            attention-Stopped (record l { tables = t }) d.version_id d.issue_id [] d.run_id after m
              (simp e at g)
      ]

  row-Stopped :
      (l : Ledger) (c : TicketClaim) (now max_attempts : ℕ) (isolated : List WorkerIsolationProof)
      (row : Option Current) (after : Ledger)
      → reconcile_row text_less l c now max_attempts isolated row ≡ ok after
      → Marked IsStopped c.run_id after.tables
  row-Stopped l c now max_attempts isolated none after h = cc
  row-Stopped l c now max_attempts isolated (some row) after h =
      let (_, g) =
        guard-ok (same_kind row.run.run_kind delivery_controller && ltb now row.lease.expires_at)
          err_invalid_claim _ after h in
      let (_, _, k) =
        and_then-ok
          (require_worker_isolation text_less l.tables c.version_id (c.ticket_id ∷ []) isolated) _
          after g in
      elim (Bool-cases (same_kind row.run.run_kind delivery_controller)) [
        | inl e ↦
            delivery-Stopped l (missing_delivery c row.run) max_attempts now isolated after
              (simp e at k)
        | inr e ↦
            subst (λ x. Marked IsStopped c.run_id x.tables) (ok-one (simp e at k))
              (end_run-Stopped superseded expired (λ lease. str_eq lease.lease_token c.lease_token)
                c.run_id l.tables refl)
      ]

  reconcile-Stopped :
      (l : Ledger) (c : TicketClaim) (reason : String) (now max_attempts : ℕ)
      (isolated : List WorkerIsolationProof) (after : Ledger)
      → reconcile_missing_recovery_run text_less l c reason now max_attempts isolated
        ≡ (ok tt, after)
      → Marked IsStopped c.run_id after.tables
  unfolding reconcile_missing_recovery_run
  reconcile-Stopped l c reason now max_attempts isolated after h =
      elim (Bool-cases (not (has_lease c) || is_blank reason)) [
        | inl e ↦ absurd (err-not (ap (λ x. x.0) (simp e at h)))
        | inr e ↦
            let row = first (is_claimed_row c) (current l.tables) in
            let k =
              kept-ok l (reconcile_row text_less l c now max_attempts isolated row) after
                (simp e at h) in
            row-Stopped l c now max_attempts isolated row after k
      ]

  -- No sequence of calls launches a run that does not run.
  pub stopped-Refused :
      (run : String) (u t : Tables) (kind : RunKind) (d : TicketClaim) (audit : WorkerAudit)
      (later : ℕ)
      → Marked IsStopped run u
      → Steps text_less u t
      → d.run_id ≡ run
      → Refused t (reserve_worker_launch t kind d audit later)
  stopped-Refused run u t kind d audit later h ss e =
      let m =
        Kept-Marked IsStopped (λ r r' f s. ap is_running f.3 ∙ s) run u t
          (Steps-Kept text_less u t ss) h in
      launch-Refused t kind d audit later
        (λ r n q. stopped_can-launch t kind d later r (m r n (q ∙ e)))

  -- Once `ReconcileMissingRecoveryRun` has reconciled a run, no sequence of further calls on its
  -- launch, its container and its isolation leads to tables where a claim for that run launches it:
  -- the launch is refused and writes nothing.
  pub reconcile-launch :
      (l : Ledger) (c : TicketClaim) (reason : String) (now max_attempts : ℕ)
      (isolated : List WorkerIsolationProof) (after : Ledger) (t : Tables) (kind : RunKind)
      (d : TicketClaim) (audit : WorkerAudit) (later : ℕ)
      → reconcile_missing_recovery_run text_less l c reason now max_attempts isolated
        ≡ (ok tt, after)
      → Steps text_less after.tables t
      → d.run_id ≡ c.run_id
      → Refused t (reserve_worker_launch t kind d audit later)
  reconcile-launch l c reason now max_attempts isolated after t kind d audit later h ss e =
      stopped-Refused c.run_id after.tables t kind d audit later
        (reconcile-Stopped l c reason now max_attempts isolated after h) ss e
