-- ===== src/Store.antt =====
-- internal/store: the durable state of the control plane.
pub mod Claim
pub mod Errors
pub mod Tables
pub mod Launch
pub mod Isolating
pub mod Fencing
pub mod Calls
pub mod Maintenance
pub mod Ledger
pub mod Attention
pub mod Claiming
pub mod Opening
pub mod Granting
pub mod Revision
pub mod Recovery
pub mod Dispatch
