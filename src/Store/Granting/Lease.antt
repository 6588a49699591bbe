-- ===== src/Store/Granting/Lease.antt =====
-- Granting.antt: the lease that a granted claim holds.
use ai_engineer_workflow.Prelude.{
  ℕ, ◌+◌, ◌<◌, String, Bool, none, some, [], ◌∷◌, ◌++◌, str_eq, eq_iff, ◌≡◌, ◌≢◌, refl, sym, ap,
  subst, ◌∙◌, inl, inr, arith, Elem, Elem-append_right,
}
use ai_engineer_workflow.Plan.Frontier.{FrontierTicket}
use ai_engineer_workflow.Store.Claim.{TicketClaim}
use ai_engineer_workflow.Store.Errors.{ok}
use ai_engineer_workflow.Store.Tables.{WorkerRun, RunLease, Session, update, first, agent, ready}
use ai_engineer_workflow.Store.Tables.Rows.{update-Elem, first→Elem}
use ai_engineer_workflow.Store.Ledger.{Ledger}
use ai_engineer_workflow.Store.Attention.{is_session_of}
use ai_engineer_workflow.Store.Claiming.{ClaimRequest, FreshIds}
use ai_engineer_workflow.Store.Opening.{OpenSession, new_session, taken_by}
use ai_engineer_workflow.Store.Granting.{
  granted, run_of, lease_of, taken_with, first_generation, last_attempt, expiry, claim_ready,
}
use ai_engineer_workflow.Store.Granting.Sound.{IsOpened, IsSuperseded, claim_ready-IsClaim}
use ai_engineer_workflow.Store.Calls.Authority.{HoldsRun}

pub granted-tables :
    (request : ClaimRequest) (fresh : FreshIds) (ticket : FrontierTicket) (o : OpenSession)
    (g a : ℕ) (after : Ledger)
    → after ≡ granted request fresh ticket o g a
    → (after.tables.runs ≡ o.ledger.tables.runs ++ run_of o fresh g a ∷ [])
      × (after.tables.leases ≡ o.ledger.tables.leases ++ lease_of request o fresh g ∷ [])
      × (after.tables.sessions
          ≡ update
              (λ s. str_eq s.session_id o.session_id)
              (taken_with fresh.run_id request.owner g)
              o.ledger.tables.sessions)
unfolding granted
granted-tables request fresh ticket o g a after h =
    (ap (λ l. l.tables.runs) h, ap (λ l. l.tables.leases) h, ap (λ l. l.tables.sessions) h)

-- the session that was opened stands in the table, under the ticket
abbrev HasSession : ClaimRequest → ℕ → OpenSession → Type 0
HasSession request issue o =
    (s : Session) × Elem s o.ledger.tables.sessions
    × (s.session_id ≡ o.session_id)
    × (s.version_id ≡ request.version_id)
    × (s.issue_id ≡ issue)

opened-HasSession :
    (l : Ledger) (request : ClaimRequest) (fresh : FreshIds) (issue : ℕ) (o : OpenSession)
    → IsOpened l request fresh issue o
    → HasSession request issue o
opened-HasSession l request fresh issue o (inl (_, e)) = subst (HasSession request issue) (sym e) (
  new_session request fresh issue,
  Elem-append_right _ l.tables.sessions _ (inl refl),
  refl,
  refl,
  refl,
)
opened-HasSession l request fresh issue o (inr (s, after, f, _, u, e)) =
    let (m, t) = first→Elem (is_session_of request.version_id issue) l.tables.sessions s f in
    let n : Elem s after.tables.sessions = subst (Elem s) (same_sessions u) m in
    subst (HasSession request issue) (sym e) (
      taken_by request.owner (s.current_lease_generation + 1) s,
      update-Elem (λ x. str_eq x.session_id s.session_id)
          (taken_by request.owner (s.current_lease_generation + 1)) after.tables.sessions s n
          (ground (arith, eq_iff s.session_id s.session_id)),
      refl,
      ground (arith, t, eq_iff s.version_id request.version_id),
      ground (arith, t),
    )
  where
    same_sessions : IsSuperseded l s after → l.tables.sessions ≡ after.tables.sessions
    same_sessions (inl u) = sym (ap (λ l. l.tables.sessions) u)
    same_sessions (inr u) = sym (ap (λ l. l.tables.sessions) u)

module _ (text_less : String → String → Bool) where
  -- A granted claim holds its lease: the tables have a running run with the claim's run id and
  -- generation, which is the current run of the session of the claim's ticket, and a lease of it with
  -- the claim's token, active and not over. The run is an agent's and is ready to launch.
  pub claim_ready-HoldsRun :
      (l : Ledger) (request : ClaimRequest) (fresh : FreshIds) (c : TicketClaim) (after : Ledger)
      → claim_ready text_less l request fresh ≡ (ok c, after)
      → (r : WorkerRun) × (s : Session) × (lease : RunLease) × HoldsRun after.tables c request.now r
          s lease
        × (r.run_kind ≡ agent)
        × (r.launch_state ≡ ready)
        × (s.version_id ≡ c.version_id)
        × (s.issue_id ≡ c.ticket_id)
  claim_ready-HoldsRun l request fresh c after h =
      let (_, snapshot, ticket, o, e, _, opened, (_, _, same, k)) =
        claim_ready-IsClaim text_less l request fresh c after h in
      let g = first_generation o.generation in
      let a = last_attempt o.ledger.tables.runs o.session_id + 1 in
      let (u, v, w) = granted-tables request fresh ticket o g a after k in
      let (s, m, i, x, y) = opened-HasSession l request fresh ticket.issue_id o opened in
      let taken = taken_with fresh.run_id request.owner g in
      let n =
        update-Elem (λ s. str_eq s.session_id o.session_id) taken o.ledger.tables.sessions s m
          (ground (arith, i, eq_iff s.session_id o.session_id)) in
      (
        run_of o fresh g a,
        taken s,
        lease_of request o fresh g,
        (
          subst (Elem (run_of o fresh g a)) (sym u)
              (Elem-append_right _ o.ledger.tables.runs _ (inl refl)),
          subst (Elem (taken s)) (sym w) n,
          subst (Elem (lease_of request o fresh g)) (sym v)
              (Elem-append_right _ o.ledger.tables.leases _ (inl refl)),
          ap (λ z. z.run_id) (sym same),
          ap (λ z. z.lease_generation) (sym same),
          refl,
          refl,
          (refl, refl, ap (λ z. z.lease_token) (sym same), refl, later request),
        ),
        refl,
        refl,
        x ∙ ap (λ z. z.version_id) (sym same),
        y ∙ ap (λ z. z.ticket_id) (sym same),
      )
    where
      later : (request : ClaimRequest) → request.now < expiry request
      later request = ground arith

  -- The claim of a ticket that has a session comes with a higher lease generation than the session
  -- had, so every claim of it before is out of date.
  pub claim_ready-generation :
      (l : Ledger) (request : ClaimRequest) (fresh : FreshIds) (c : TicketClaim) (after : Ledger)
      (old : Session)
      → claim_ready text_less l request fresh ≡ (ok c, after)
      → first (is_session_of request.version_id c.ticket_id) l.tables.sessions ≡ some old
      → old.current_lease_generation < c.lease_generation
  claim_ready-generation l request fresh c after old h f =
      let (_, snapshot, ticket, o, e, _, opened, (_, _, same, k)) =
        claim_ready-IsClaim text_less l request fresh c after h in
      let f' =
        subst (λ i. first (is_session_of request.version_id i) l.tables.sessions ≡ some old)
          (ap (λ z. z.ticket_id) same) f in
      let g = ap (λ z. z.lease_generation) same in
      elim opened [
        | inl (n, _) ↦ absurd (some-none old (sym f' ∙ n))
        | inr (s, moved, n, _, _, q) ↦
            let s_old : s ≡ old = some-inj s old (sym n ∙ f') in
            let higher = ap (λ o. o.generation) q in
            let lower = ap (λ z. z.current_lease_generation) s_old in
            ground (arith, g, higher, lower)
      ]
    where
      some-none : (a : Session) → some a ≢ none
      some-none a h = cc

      some-inj : (a b : Session) → some a ≡ some b → a ≡ b
      some-inj a b h = cc
