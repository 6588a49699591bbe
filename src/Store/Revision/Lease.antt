-- ===== src/Store/Revision/Lease.antt =====
-- Revision.antt: the lease and the capacity of a revision.
use ai_engineer_workflow.Prelude.{ℕ, ◌<◌, true, ◌≡◌}
use ai_engineer_workflow.Store.Claim.{TicketClaim}
use ai_engineer_workflow.Store.Tables.{Session, active_run_count}
use ai_engineer_workflow.Store.Ledger.{Ledger, PlanTicket, TicketRuntime}
use ai_engineer_workflow.Store.Claiming.{FreshIds}
use ai_engineer_workflow.Store.Revision.{RevisionRequest, may_be_revised, revised, revision_claim}

-- what a revision needs of the rows of its ticket
abbrev pub IsRevision :
    Ledger → RevisionRequest → FreshIds → TicketClaim → Ledger → Session → Type 0
IsRevision l request fresh c after s =
    ((rt : TicketRuntime) × (may_be_revised s rt ≡ true))
    × (active_run_count request.now l.tables.runs l.tables.leases < request.max_parallel_runs)
    × ((ticket : PlanTicket) × (attempt : ℕ) × (c ≡ revision_claim request fresh s ticket attempt)
        × (after ≡ revised l request fresh s attempt))
