-- ===== src/Store/Granting/Answers.antt =====
-- Granting.antt: `ClaimReady` answers, and which answers come with a changed ledger.
use ai_engineer_workflow.Prelude.{
  ℕ, String, Bool, true, not, ◌||◌, ◌&&◌, Option, none, some, List, [], ◌∷◌, ◌==◌, leb, str_eq, ◌≡◌,
  refl, ◌⊎◌, inl, inr,
}
use ai_engineer_workflow.Plan.Frontier.{FrontierTicket, FrontierSnapshot, by_id, ready_frontier}
use ai_engineer_workflow.Plan.Frontier.Selection.{ready_frontier_total}
use ai_engineer_workflow.Store.Claim.{TicketClaim, WorkerIsolationProof}
use ai_engineer_workflow.Store.Errors.{
  Result, ok, err, out_of_fuel, StoreError, Answers, answers_ok, answers_err, and_then-Answers,
  if-Answers, err_not_ready, err_not_found, err_capacity, err_fencing_conflict,
  err_no_ready_tickets, err_provisioning, err_no_rows, err_invalid_claim, err_maintenance_fenced,
  session_authentication_terminalized,
}
use ai_engineer_workflow.Store.Tables.{
  WorkerRun, RunLease, Session, Tables, delivery_controller, agent, is_running, is_ready_to_launch,
  is_live, same_kind, is_open, first, count,
}
use ai_engineer_workflow.Store.Isolating.{require_worker_isolation, require_no_delivery_write_fence}
use ai_engineer_workflow.Store.Ledger.{
  Ledger, PlanVersion, RetryBackoff, load_frontier, loaded, infrastructure_retry_ready,
}
use ai_engineer_workflow.Store.Maintenance.{is_maintenance_fenced}
use ai_engineer_workflow.Store.Attention.{
  ExpiredDelivery, mark_ticket_needs_attention, recover_expired_delivery,
  record_authentication_failure, retry_or_stop, retried, update_infrastructure_retry, is_session_of,
  max_worker_attempts, without_run,
}
use ai_engineer_workflow.Store.Claiming.{
  ClaimRequest, FreshIds, Provisioned, provisioned, authentication_failure, provisioning_failure,
  Verdict, go, refuse, commit_and_refuse, stuck, lifted, selected, check_named, select_ticket,
  supersede, claimed_feedback, check_current_run, SessionProvisioning, after_provisioning,
  provision_with, provision_existing, run_with_lease, delivery_of,
}
use ai_engineer_workflow.Store.Claiming.Verdicts.{
  Ends, ends_go, ends_refuse, ends_not_ready, ends_authentication, if-Ends, proceed-Ends,
  found-Ends, unless-Ends, lifted-Ends, ending-Ends,
}
use ai_engineer_workflow.Store.Opening.{OpenSession, open_session, opened, resumed, expired_run_of}
use ai_engineer_workflow.Store.Granting.{
  grant, provision_new, attempts_in_epoch, claim_with, settled, claim_ready,
}

load_frontier-Answers : (l : Ledger) (v : String) (now : ℕ) → Answers (load_frontier l v now)
unfolding load_frontier
load_frontier-Answers l v now = loaded-Answers (first (λ row. str_eq row.version_id v) l.versions)
  where
    loaded-Answers : (m : Option PlanVersion) → Answers (loaded l v now m)
    loaded-Answers none = answers_err err_not_found
    loaded-Answers (some version) = answers_ok _

selected-Ends : (id : ℕ) (ts : List FrontierTicket) → Ends (selected id ts)
selected-Ends id ts =
    if-Ends (id == 0) _ _
      (found-Ends (first (λ t. true) ts) err_no_ready_tickets (λ t. go t) (λ t. ends_go t))
      (found-Ends (first (λ t. t.issue_id == id) ts) err_not_ready _
        (λ t. unless-Ends (t.issue_id == 0) err_not_ready (go t) (ends_go t)))

frontier-Ends :
    (request : ClaimRequest) (s : FrontierSnapshot)
    → Ends (elim (ready_frontier s) [
      | some tickets ↦ selected request.ticket_id tickets
      | none ↦ stuck
    ])
frontier-Ends request s =
    let (ts, e) = ready_frontier_total s in rw e (selected-Ends request.ticket_id ts)

check_named-Ends : (id : ℕ) (ts : List FrontierTicket) → Ends (check_named id ts)
check_named-Ends id ts = if-Ends (id == 0) _ _ (ends_go tt) (
    found-Ends (by_id ts id) err_not_found _
      (λ t. unless-Ends (not (str_eq t.owner "")) err_fencing_conflict (go tt) (ends_go tt)))

select_ticket-Ends :
    (request : ClaimRequest) (s : FrontierSnapshot) → Ends (select_ticket request s)
unfolding select_ticket
select_ticket-Ends request s = unless-Ends (not (str_eq s.plan_state "active")) err_not_ready _ (
    proceed-Ends (check_named request.ticket_id s.tickets) _
      (check_named-Ends request.ticket_id s.tickets)
      (λ _.
        unless-Ends (leb request.max_parallel_runs s.active_runs) err_capacity _
          (frontier-Ends request (record s { max_parallel = request.max_parallel_runs }))))

supersede-Ends : (l : Ledger) (request : ClaimRequest) (s : Session) → Ends (supersede l request s)
unfolding supersede
supersede-Ends l request s =
    if-Ends (str_eq s.current_run_id "") _ _ (ends_go l)
      (if-Ends (claimed_feedback l s.current_run_id == 0) _ _ (ends_go _) (ends_not_ready _))

update_infrastructure_retry-Answers :
    (rs : List WorkerRun) (run class : String) (now : ℕ) (bs : List RetryBackoff)
    → Answers (update_infrastructure_retry rs run class now bs)
unfolding update_infrastructure_retry
update_infrastructure_retry-Answers rs run class now bs =
    retried-Answers (first (λ r. str_eq r.run_id run) rs)
  where
    retried-Answers : (m : Option WorkerRun) → Answers (retried class now bs m)
    retried-Answers none = answers_err err_no_rows
    retried-Answers (some r) =
        if-Answers (not (str_eq class "infrastructure")) _ _ (answers_ok _) (answers_ok _)

-- what `ClaimReady` may answer
abbrev pub IsAnswer : Ledger → Result TicketClaim × Ledger → Type 0
IsAnswer l answer =
    ((c : TicketClaim) × (answer.0 ≡ ok c))
    ⊎ ((e : StoreError) × (answer ≡ (err e, l)))
    ⊎ (answer.0 ≡ err err_not_ready)
    ⊎ (answer.0 ≡ err session_authentication_terminalized)

module _ (text_less : String → String → Bool) where
  require_worker_isolation-Answers :
      (t : Tables) (v : String) (is : List ℕ) (ps : List WorkerIsolationProof)
      → Answers (require_worker_isolation text_less t v is ps)
  unfolding require_worker_isolation require_no_delivery_write_fence
  require_worker_isolation-Answers t v is ps =
      and_then-Answers (require_no_delivery_write_fence t v is) _
        (if-Answers _ _ _ (answers_err _) (answers_ok tt))
        (λ _. if-Answers _ _ _ (answers_err _) (answers_ok tt))

  mark_ticket_needs_attention-Answers :
      (l : Ledger) (v : String) (issue : ℕ) (ps : List WorkerIsolationProof)
      → Answers (mark_ticket_needs_attention text_less l v issue ps)
  unfolding mark_ticket_needs_attention
  mark_ticket_needs_attention-Answers l v issue ps =
      and_then-Answers (require_worker_isolation text_less l.tables v (issue ∷ []) ps) _
        (require_worker_isolation-Answers l.tables v (issue ∷ []) ps)
        (λ _. if-Answers _ _ _ (answers_ok _) (answers_err _))

  retry_or_stop-Answers :
      (d : ExpiredDelivery) (n : ℕ) (l : Ledger) → Answers (retry_or_stop text_less d n l)
  retry_or_stop-Answers d n l =
      if-Answers _ _ _ (answers_ok _)
        (mark_ticket_needs_attention-Answers l d.version_id d.issue_id [])

  recover_expired_delivery-Answers :
      (l : Ledger) (d : ExpiredDelivery) (n now : ℕ) (ps : List WorkerIsolationProof)
      → Answers (recover_expired_delivery text_less l d n now ps)
  unfolding recover_expired_delivery
  recover_expired_delivery-Answers l d n now ps =
      and_then-Answers
        (require_worker_isolation text_less l.tables d.version_id (d.issue_id ∷ []) ps) _
        (require_worker_isolation-Answers l.tables d.version_id (d.issue_id ∷ []) ps)
        (λ _.
          if-Answers _ _ _
            (and_then-Answers _ _
              (update_infrastructure_retry-Answers _ d.run_id "infrastructure" now _)
              (λ backoffs. retry_or_stop-Answers d n _))
            (mark_ticket_needs_attention-Answers _ d.version_id d.issue_id []))

  record_authentication_failure-Answers :
      (l : Ledger) (v : String) (issue : ℕ) (run : String)
      → Answers (record_authentication_failure text_less l v issue run)
  unfolding record_authentication_failure
  record_authentication_failure-Answers l v issue run =
      if-Answers (str_eq run "") _ _ (mark_ticket_needs_attention-Answers l v issue []) (
        if-Answers (count (λ r. str_eq r.run_id run && is_running r.state) l.tables.runs == 1) _ _
          (mark_ticket_needs_attention-Answers (without_run l run) v issue [])
          (answers_err err_invalid_claim))

  check_current_run-Ends :
      (l : Ledger) (request : ClaimRequest) (s : Session) (m : Option (WorkerRun × RunLease))
      → Ends (check_current_run text_less l request s m)
  unfolding check_current_run
  check_current_run-Ends l request s none = ends_go ""
  check_current_run-Ends l request s (some (r, lease)) =
      let live = is_running r.state && is_live request.now lease in
      if-Ends (not (str_eq s.owner "") && live) _ _ (ends_refuse err_fencing_conflict) (
        if-Ends (same_kind r.run_kind delivery_controller && is_running r.state) _ _
          (unless-Ends (not (is_ready_to_launch r.launch_state)) err_not_ready _ (
            ending-Ends _ (
              recover_expired_delivery-Answers l (delivery_of request s r lease)
                request.max_attempts request.now [])))
          (if-Ends (same_kind r.run_kind agent && is_running r.state && not live) _ _
            (unless-Ends (not (is_ready_to_launch r.launch_state) || r.prelaunch_reserved)
              err_not_ready _ (ends_go s.current_run_id))
            (ends_go "")))

  provision_existing-Ends :
      (l : Ledger) (request : ClaimRequest) (s : Session) (run : String)
      → Ends (provision_existing text_less l request s run)
  unfolding provision_existing
  provision_existing-Ends l request s run = provision_with-Ends request.provision_session
    where
      terminalized :
          (m : Result Ledger)
          → Answers m
          → Ends {A = Unit {0}} (elim m [
            | ok after ↦ commit_and_refuse after session_authentication_terminalized
            | err _ ↦ refuse err_provisioning
            | out_of_fuel ↦ stuck
          ])
      terminalized m (answers_ok after) = ends_authentication after
      terminalized m (answers_err e) = ends_refuse err_provisioning

      answer :
          (a : Provisioned)
          → Ends (after_provisioning text_less l request.version_id s.issue_id run a)
      answer provisioned = ends_go tt
      answer provisioning_failure = ends_refuse err_provisioning
      answer authentication_failure =
          terminalized (record_authentication_failure text_less l request.version_id s.issue_id run)
            (record_authentication_failure-Answers l request.version_id s.issue_id run)

      provision_with-Ends :
          (m : Option (SessionProvisioning → Provisioned))
          → Ends (provision_with text_less l request s run m)
      provision_with-Ends none = ends_go tt
      provision_with-Ends (some provision) = answer (provision _)

  resumed-Ends :
      (l : Ledger) (request : ClaimRequest) (s : Session) → Ends (resumed text_less l request s)
  unfolding resumed
  resumed-Ends l request s = unless-Ends (not (is_open s.state)) err_not_ready _ (
      proceed-Ends (expired_run_of text_less l request s) _
        (if-Ends (str_eq s.current_run_id "") _ _ (ends_go "")
          (check_current_run-Ends l request s (run_with_lease l.tables s.current_run_id)))
        (λ run.
          proceed-Ends (provision_existing text_less l request s run) _
            (provision_existing-Ends l request s run)
            (λ _.
              proceed-Ends (supersede l request s) _ (supersede-Ends l request s)
                (λ after. ends_go _))))

  open_session-Ends :
      (l : Ledger) (request : ClaimRequest) (fresh : FreshIds) (issue : ℕ)
      → Ends (open_session text_less l request fresh issue)
  unfolding open_session
  open_session-Ends l request fresh issue =
      opened-Ends (first (is_session_of request.version_id issue) l.tables.sessions)
    where
      opened-Ends : (m : Option Session) → Ends (opened text_less l request fresh issue m)
      opened-Ends none = ends_go _
      opened-Ends (some s) = resumed-Ends l request s

  grant-Ends :
      (request : ClaimRequest) (fresh : FreshIds) (ticket : FrontierTicket) (o : OpenSession)
      → Ends (grant text_less request fresh ticket o)
  unfolding grant
  grant-Ends request fresh ticket o =
      unless-Ends (not (infrastructure_retry_ready o.ledger.backoffs o.session_id request.now))
        err_not_ready _
        (if-Ends
          (leb (max_worker_attempts request.max_attempts)
            (attempts_in_epoch o.ledger.tables.runs o.session_id o.recovery_epoch))
          _ _
          (ending-Ends _
            (mark_ticket_needs_attention-Answers _ request.version_id ticket.issue_id []))
          (unless-Ends (not (provision_new request o)) err_provisioning _ (ends_go _)))

  claim_with-Ends :
      (l : Ledger) (request : ClaimRequest) (fresh : FreshIds)
      → Ends (claim_with text_less l request fresh)
  claim_with-Ends l request fresh = unless-Ends _ err_invalid_claim _ (
      unless-Ends (is_maintenance_fenced l.maintenance) err_maintenance_fenced _ (
        proceed-Ends (lifted (load_frontier l request.version_id request.now)) _
          (lifted-Ends _ (load_frontier-Answers l request.version_id request.now))
          (λ snapshot.
            proceed-Ends (select_ticket request snapshot) _ (select_ticket-Ends request snapshot)
              (λ ticket.
                proceed-Ends (open_session text_less l request fresh ticket.issue_id) _
                  (open_session-Ends l request fresh ticket.issue_id)
                  (λ o. grant-Ends request fresh ticket o)))))

  -- `ClaimReady` answers on every ledger and request: with a claim; or with an error and the ledger as
  -- it was; or, after a commit, with the error that the ticket is not ready or that the session has
  -- lost its authentication.
  pub claim_ready-IsAnswer :
      (l : Ledger) (request : ClaimRequest) (fresh : FreshIds)
      → IsAnswer l (claim_ready text_less l request fresh)
  unfolding claim_ready
  claim_ready-IsAnswer l request fresh = answered (claim_with-Ends l request fresh)
    where
      answered : {v : Verdict (TicketClaim × Ledger)} → Ends v → IsAnswer l (settled l v)
      answered (ends_go (c, after)) = inl (c, refl)
      answered (ends_refuse e) = inr (inl (e, refl))
      answered (ends_not_ready after) = inr (inr (inl refl))
      answered (ends_authentication after) = inr (inr (inr refl))
