-- ===== src/Store/Granting/Sound.antt =====
-- Granting.antt: what a granted claim was granted for.
use ai_engineer_workflow.Prelude.{
  ℕ, ◌+◌, ◌<◌, String, Bool, true, false, not, ◌||◌, Option, none, some, List, ◌==◌, leb, str_eq,
  ◌≡◌, refl, sym, ap, ◌∙◌, ◌⊎◌, inl, inr, Bool-cases, Option-cases, arith, Elem,
}
use ai_engineer_workflow.Plan.Frontier.{FrontierTicket, FrontierSnapshot, ready_frontier}
use ai_engineer_workflow.Store.Claim.{TicketClaim}
use ai_engineer_workflow.Store.Errors.{
  ok, err_not_ready, err_invalid_claim, err_maintenance_fenced, err_capacity, err_no_ready_tickets,
  err_provisioning,
}
use ai_engineer_workflow.Store.Tables.{Session, first, is_open}
use ai_engineer_workflow.Store.Tables.Rows.{first→Elem}
use ai_engineer_workflow.Store.Ledger.{Ledger, load_frontier, infrastructure_retry_ready}
use ai_engineer_workflow.Store.Maintenance.{is_maintenance_fenced}
use ai_engineer_workflow.Store.Attention.{is_session_of, max_worker_attempts}
use ai_engineer_workflow.Store.Claiming.{
  ClaimRequest, FreshIds, Verdict, go, refuse, commit_and_refuse, stuck, lifted, selected,
  check_named, select_ticket, supersede, without_current, provision_existing,
}
use ai_engineer_workflow.Store.Claiming.Verdicts.{
  proceed-go, found-go, unless-go, lifted-go, ending-go,
}
use ai_engineer_workflow.Store.Opening.{
  OpenSession, inserted, reopened, open_session, resumed, expired_run_of,
}
use ai_engineer_workflow.Store.Granting.{
  grant, granted, claim_granted, provision_new, first_generation, last_attempt, attempts_in_epoch,
  claim_with, settled, claim_ready,
}

go-inj {ℓ} : {A : Type ℓ} (a b : A) → go a ≡ go b → a ≡ b
go-inj a b h = cc

selected-Elem :
    (id : ℕ) (ts : List FrontierTicket) (t : FrontierTicket) → selected id ts ≡ go t → Elem t ts
selected-Elem id ts t h = elim (Bool-cases (id == 0)) [
  | inl z ↦
      let (u, e, k) =
        found-go (first (λ t. true) ts) err_no_ready_tickets (λ t. go t) t (simp z at h) in
      (first→Elem (λ t. true) ts t (e ∙ ap some (go-inj u t k))).0
  | inr z ↦
      let (u, e, k) = found-go (first (λ t. t.issue_id == id) ts) err_not_ready _ t (simp z at h) in
      let (_, k1) = unless-go (u.issue_id == 0) err_not_ready (go u) t k in
      (first→Elem (λ t. t.issue_id == id) ts t (e ∙ ap some (go-inj u t k1))).0
]

-- what a selected ticket was selected from
abbrev pub IsSelected : ClaimRequest → FrontierSnapshot → FrontierTicket → Type 0
IsSelected request snapshot ticket =
    (snapshot.active_runs < request.max_parallel_runs)
    × ((ts : List FrontierTicket) × (ready_frontier
            (record snapshot { max_parallel = request.max_parallel_runs })
          ≡ some ts)
        × Elem ticket ts)

frontier_selected :
    (request : ClaimRequest) (o : Option (List FrontierTicket)) (t : FrontierTicket)
    → elim o [ some tickets ↦ selected request.ticket_id tickets | none ↦ stuck ] ≡ go t
    → (ts : List FrontierTicket) × (o ≡ some ts) × Elem t ts
frontier_selected request none t h = cc
frontier_selected request (some ts) t h = (ts, refl, selected-Elem request.ticket_id ts t h)

select_ticket-IsSelected :
    (request : ClaimRequest) (snapshot : FrontierSnapshot) (t : FrontierTicket)
    → select_ticket request snapshot ≡ go t
    → IsSelected request snapshot t
unfolding select_ticket
select_ticket-IsSelected request snapshot t h =
    let (_, h1) = unless-go (not (str_eq snapshot.plan_state "active")) err_not_ready _ t h in
    let (_, _, h2) = proceed-go (check_named request.ticket_id snapshot.tickets) _ t h1 in
    let (room, h3) =
      unless-go (leb request.max_parallel_runs snapshot.active_runs) err_capacity _ t h2 in
    (
      ground (arith, room),
      frontier_selected request
          (ready_frontier (record snapshot { max_parallel = request.max_parallel_runs })) t h3,
    )

-- the ledger of a session that goes on: its run may have been superseded
abbrev pub IsSuperseded : Ledger → Session → Ledger → Type 0
IsSuperseded l s after = (after ≡ l) ⊎ (after ≡ without_current l s.current_run_id)

supersede-IsSuperseded :
    (l : Ledger) (request : ClaimRequest) (s : Session) (after : Ledger)
    → supersede l request s ≡ go after
    → IsSuperseded l s after
unfolding supersede
supersede-IsSuperseded l request s after h = ground arith

-- the session that a claim is for: a new one, or the one of the ticket, with the next generation
abbrev pub IsOpened : Ledger → ClaimRequest → FreshIds → ℕ → OpenSession → Type 0
IsOpened l request fresh issue o =
    ((first (is_session_of request.version_id issue) l.tables.sessions ≡ none)
      × (o ≡ inserted l request fresh issue))
    ⊎ ((s : Session) × (after : Ledger) × (first (is_session_of request.version_id issue)
            l.tables.sessions
          ≡ some s)
        × (is_open s.state ≡ true)
        × IsSuperseded l s after
        × (o ≡ reopened request s after))

pub settled-ok :
    (l : Ledger) (v : Verdict (TicketClaim × Ledger)) (c : TicketClaim) (after : Ledger)
    → settled l v ≡ (ok c, after)
    → v ≡ go (c, after)
settled-ok l (go (d, a)) c after h = ground arith
settled-ok l (refuse e) c after h = ground arith
settled-ok l (commit_and_refuse a e) c after h = ground arith
settled-ok l stuck c after h = ground arith

module _ (text_less : String → String → Bool) where
  resumed-go :
      (l : Ledger) (request : ClaimRequest) (s : Session) (o : OpenSession)
      → resumed text_less l request s ≡ go o
      → (is_open s.state ≡ true)
        × ((after : Ledger) × IsSuperseded l s after × (o ≡ reopened request s after))
  unfolding resumed
  resumed-go l request s o g =
      let (a, g1) = unless-go (not (is_open s.state)) err_not_ready _ o g in
      let (run, _, g2) = proceed-go (expired_run_of text_less l request s) _ o g1 in
      let (_, _, g3) = proceed-go (provision_existing text_less l request s run) _ o g2 in
      let (after, u, g4) = proceed-go (supersede l request s) _ o g3 in
      (ground (arith, a), (after, supersede-IsSuperseded l request s after u, sym (go-inj _ _ g4)))

  open_session-IsOpened :
      (l : Ledger) (request : ClaimRequest) (fresh : FreshIds) (issue : ℕ) (o : OpenSession)
      → open_session text_less l request fresh issue ≡ go o
      → IsOpened l request fresh issue o
  unfolding open_session
  open_session-IsOpened l request fresh issue o h =
      elim (Option-cases (first (is_session_of request.version_id issue) l.tables.sessions)) [
        | inl e ↦ inl (e, sym (go-inj (inserted l request fresh issue) o (simp e at h)))
        | inr (s, e) ↦
            let (a, (after, u, k)) = resumed-go l request s o (simp e at h) in
            inr (s, after, e, a, u, k)
      ]

  -- what `grant` needs
  abbrev pub IsGranted :
      ClaimRequest → FreshIds → FrontierTicket → OpenSession → TicketClaim → Ledger → Type 0
  IsGranted request fresh ticket o c after =
      let generation = first_generation o.generation in
      let attempt = last_attempt o.ledger.tables.runs o.session_id + 1 in
      (infrastructure_retry_ready o.ledger.backoffs o.session_id request.now ≡ true)
      × (attempts_in_epoch o.ledger.tables.runs o.session_id o.recovery_epoch
          < max_worker_attempts request.max_attempts)
      × (c ≡ claim_granted request fresh ticket o generation attempt)
      × (after ≡ granted request fresh ticket o generation attempt)

  pub pair-go :
      (c d : TicketClaim) (a b : Ledger)
      → ◌≡◌ {A = Verdict (TicketClaim × Ledger)} (go (c, a)) (go (d, b))
      → (d ≡ c) × (b ≡ a)
  pair-go c d a b h = ground arith

  grant-IsGranted :
      (request : ClaimRequest) (fresh : FreshIds) (ticket : FrontierTicket) (o : OpenSession)
      (c : TicketClaim) (after : Ledger)
      → grant text_less request fresh ticket o ≡ go (c, after)
      → IsGranted request fresh ticket o c after
  unfolding grant
  grant-IsGranted request fresh ticket o c after h =
      let (retry, h1) =
        unless-go (not (infrastructure_retry_ready o.ledger.backoffs o.session_id request.now))
          err_not_ready _ (c, after) h in
      elim (Bool-cases (
        leb (max_worker_attempts request.max_attempts)
          (attempts_in_epoch o.ledger.tables.runs o.session_id o.recovery_epoch))) [
            | inl e ↦ absurd (ending-go err_not_ready _ (c, after) (simp e at h1))
            | inr e ↦
                let (_, h2) =
                  unless-go (not (provision_new request o)) err_provisioning _ (c, after)
                    (simp e at h1) in
                let (u, v) = pair-go _ c _ after h2 in
                (ground (arith, retry), ground (arith, e), u, v)
          ]

  -- the way of a claim through the transaction
  abbrev pub IsClaim : Ledger → ClaimRequest → FreshIds → TicketClaim → Ledger → Type 0
  IsClaim l request fresh c after =
      (is_maintenance_fenced l.maintenance ≡ false)
      × (snapshot : FrontierSnapshot) × (ticket : FrontierTicket) × (o : OpenSession)
      × (load_frontier l request.version_id request.now ≡ ok snapshot)
      × IsSelected request snapshot ticket
      × IsOpened l request fresh ticket.issue_id o
      × IsGranted request fresh ticket o c after

  pub claim_ready-IsClaim :
      (l : Ledger) (request : ClaimRequest) (fresh : FreshIds) (c : TicketClaim) (after : Ledger)
      → claim_ready text_less l request fresh ≡ (ok c, after)
      → IsClaim l request fresh c after
  unfolding claim_ready
  claim_ready-IsClaim l request fresh c after h =
      let g = settled-ok l (claim_with text_less l request fresh) c after h in
      let (_, g1) =
        unless-go
          (str_eq request.version_id ""
            || str_eq request.owner ""
            || request.max_parallel_runs == 0)
          err_invalid_claim _ (c, after) g in
      let (fenced, g2) =
        unless-go (is_maintenance_fenced l.maintenance) err_maintenance_fenced _ (c, after) g1 in
      let (snapshot, e, g3) =
        proceed-go (lifted (load_frontier l request.version_id request.now)) _ (c, after) g2 in
      let (ticket, q, g4) = proceed-go (select_ticket request snapshot) _ (c, after) g3 in
      let (o, u, g5) =
        proceed-go (open_session text_less l request fresh ticket.issue_id) _ (c, after) g4 in
      (
        fenced,
        snapshot,
        ticket,
        o,
        lifted-go (load_frontier l request.version_id request.now) snapshot e,
        select_ticket-IsSelected request snapshot ticket q,
        open_session-IsOpened l request fresh ticket.issue_id o u,
        grant-IsGranted request fresh ticket o c after g5,
      )
