-- ===== src/Store/Ledger/Backoff.antt =====
-- Ledger.antt: the bounds of the backoff after an infrastructure failure.
use ai_engineer_workflow.Prelude.{ℕ, zero, suc, ◌*◌, ◌≤◌, arith}
use ai_engineer_workflow.Store.Ledger.{minute, infrastructure_retry_delay}

-- The delay before the next attempt is between one minute and thirty, does not fall as the failures
-- in a row grow, and at most doubles with each of them.
pub infrastructure_retry_delay-Bounded :
    (n : ℕ)
    → (minute ≤ infrastructure_retry_delay n)
      × (infrastructure_retry_delay n ≤ 30 * minute)
      × (infrastructure_retry_delay n ≤ infrastructure_retry_delay (suc n))
      × (infrastructure_retry_delay (suc n) ≤ 2 * infrastructure_retry_delay n)
unfolding infrastructure_retry_delay
infrastructure_retry_delay-Bounded zero = (omega arith, omega arith, omega arith, omega arith)
infrastructure_retry_delay-Bounded (suc zero) = (omega arith, omega arith, omega arith, omega arith)
infrastructure_retry_delay-Bounded (suc (suc zero)) =
    (omega arith, omega arith, omega arith, omega arith)
infrastructure_retry_delay-Bounded (suc (suc (suc zero))) =
    (omega arith, omega arith, omega arith, omega arith)
infrastructure_retry_delay-Bounded (suc (suc (suc (suc zero)))) =
    (omega arith, omega arith, omega arith, omega arith)
infrastructure_retry_delay-Bounded (suc (suc (suc (suc (suc zero))))) =
    (omega arith, omega arith, omega arith, omega arith)
infrastructure_retry_delay-Bounded (suc (suc (suc (suc (suc (suc n)))))) =
    (ground arith, ground arith, ground arith, ground arith)
