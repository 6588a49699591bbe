-- ===== src/Store/Claim.antt =====
-- The value types of internal/store/claim.go. Times are numbers of nanoseconds.
use ai_engineer_workflow.Prelude.{ℕ, String}

pub record TicketClaim : Type 0 where
  pub version_id : String
  pub plan_root_number : ℕ
  pub ticket_id : ℕ
  pub ticket_number : ℕ
  pub ticket_title : String
  pub owner : String
  pub session_id : String
  pub run_id : String
  pub attempt : ℕ
  pub lease_token : String
  pub lease_generation : ℕ
  pub isolation_generation : ℕ
  pub lease_expires_at : ℕ

pub record WorkerIsolationProof : Type 0 where
  pub target : TicketClaim
