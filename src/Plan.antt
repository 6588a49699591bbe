-- ===== src/Plan.antt =====
-- internal/plan: Delivery Plans, their admission, their ready frontier.
pub mod Model
pub mod Cycle
pub mod Validate
pub mod Frontier
mod Tests
