-- ===== src/SetupContract.antt =====
-- Setup Plans: internal/setupcontract/validate.go and model.go, and internal/setupeffect/registry.go.
pub mod Text
pub mod Registry
pub mod Model
pub mod Checks
pub mod Effects
pub mod Secrets
pub mod Validate
pub mod Verify
pub mod Admitted
pub mod Results
pub mod Identities
pub mod Checked
pub mod Ordered
mod Tests
