-- ===== src/Scheduler/Claims.antt =====
-- What `ClaimNext` and `DispatchPaused` of internal/scheduler/scheduler.go promise.
use ai_engineer_workflow.Prelude.{String, Option, none, ◌≡◌}
use ai_engineer_workflow.Store.Claim.{TicketClaim}
use ai_engineer_workflow.Isolation.{ok}
use ai_engineer_workflow.Scheduler.{
  Dispatcher, Claimed, claimed, refused, project, host_pressure, admit,
}

module _ {W E P : Type 0} (d : Dispatcher W E P) (repository owner : String) where
  -- The way to a claim: admitted, with a safe host, claimed by the store, and then projected.
  pub record Way (w : W) (c : TicketClaim) (e : Option E) (w' : W) : Type 0 where
    pub admitted : W
    pub inspected : W
    pub stored : W
    pub admission : admit d repository w ≡ (none, admitted)
    pub safe : host_pressure d admitted ≡ (ok "", inspected)
    pub claim : d.claim_next_ready repository owner inspected ≡ (ok c, stored)
    pub projection : project d repository c.plan_root_number c.version_id "" stored ≡ (e, w')

  IsWay : W → Claimed E × W → Type 0
  IsWay w (claimed c e, w') = Way w c e w'
  IsWay w (refused e, w') = Unit
