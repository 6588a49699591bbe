-- ===== src/Store/Recovery/Authentication.antt =====
-- Recovery.antt: a run whose session lost its authentication launches nothing any more.
use ai_engineer_workflow.Prelude.{
  ℕ, ◌==◌, String, Bool, true, false, ◌&&◌, Option, none, some, [], str_eq, ◌≡◌, refl, ap, inl, inr,
  Bool-cases, arith,
}
use ai_engineer_workflow.Store.Claim.{TicketClaim}
use ai_engineer_workflow.Store.Errors.{ok, err_invalid_claim, allow-ok}
use ai_engineer_workflow.Store.Tables.{RunKind, failed, expired, WorkerAudit, Tables, is_running}
use ai_engineer_workflow.Store.Launch.{has_lease, reserve_worker_launch}
use ai_engineer_workflow.Store.Ledger.{Ledger}
use ai_engineer_workflow.Store.Calls.Marks.{Marked}
use ai_engineer_workflow.Store.Calls.{Steps}
use ai_engineer_workflow.Store.Calls.Refused.{Refused}
use ai_engineer_workflow.Store.Attention.{record_authentication_failure, without_run}
use ai_engineer_workflow.Store.Errors.{err_invalid_claim}
use ai_engineer_workflow.Store.Tables.{count}
use ai_engineer_workflow.Store.Recovery.{
  fail_row, current_run_of, record_recovery_authentication_failure,
}
use ai_engineer_workflow.Store.Recovery.Stopped.{
  IsStopped, kept-ok, err-not, end_run-Stopped, attention-Stopped, stopped-Refused,
}

module _ (text_less : String → String → Bool) where
  failure-Stopped :
      (l : Ledger) (v : String) (issue : ℕ) (run : String) (after : Ledger)
      → str_eq run "" ≡ false
      → record_authentication_failure text_less l v issue run ≡ ok after
      → Marked IsStopped run after.tables
  unfolding record_authentication_failure
  failure-Stopped l v issue run after x h =
      let (_, g) =
        allow-ok (count (λ r. str_eq r.run_id run && is_running r.state) l.tables.runs == 1)
          err_invalid_claim _ after (simp x at h) in
      attention-Stopped text_less (without_run l run) v issue [] run after
        (end_run-Stopped failed expired (λ _. true) run l.tables refl) g

  row-Failed :
      (l : Ledger) (c : TicketClaim) (row : Option String) (after : Ledger)
      → str_eq c.run_id "" ≡ false
      → fail_row text_less l c row ≡ ok after
      → Marked IsStopped c.run_id after.tables
  row-Failed l c none after x h = cc
  row-Failed l c (some run) after x h =
      let (_, g) = allow-ok (str_eq run c.run_id) err_invalid_claim _ after h in
      failure-Stopped l c.version_id c.ticket_id c.run_id after x g

  authentication-Stopped :
      (l : Ledger) (c : TicketClaim) (after : Ledger)
      → record_recovery_authentication_failure text_less l c ≡ (ok tt, after)
      → Marked IsStopped c.run_id after.tables
  unfolding record_recovery_authentication_failure
  authentication-Stopped l c after h = elim (Bool-cases (has_lease c)) [
    | inr e ↦ absurd (err-not (ap (λ x. x.0) (simp e at h)))
    | inl e ↦
        let k =
          kept-ok l (fail_row text_less l c (current_run_of l.tables c)) after (simp e at h) in
        row-Failed l c (current_run_of l.tables c) after (ground (arith, e)) k
  ]

  -- Once `RecordRecoveryAuthenticationFailure` has recorded the failure of a run, no sequence of
  -- further calls on its launch, its container and its isolation leads to tables where a claim for
  -- that run launches it: the launch is refused and writes nothing.
  pub authentication-launch :
      (l : Ledger) (c : TicketClaim) (after : Ledger) (t : Tables) (kind : RunKind)
      (d : TicketClaim) (audit : WorkerAudit) (later : ℕ)
      → record_recovery_authentication_failure text_less l c ≡ (ok tt, after)
      → Steps text_less after.tables t
      → d.run_id ≡ c.run_id
      → Refused t (reserve_worker_launch t kind d audit later)
  authentication-launch l c after t kind d audit later h ss e =
      stopped-Refused text_less c.run_id after.tables t kind d audit later
        (authentication-Stopped l c after h) ss e
