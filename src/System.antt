-- ===== src/System.antt =====
-- The parts together: what runs of the workflow of internal/workflow/filing.go do to the provider of
-- internal/authority/server.go.
pub mod Once
pub mod Effects
pub mod Honest
pub mod Truth
pub mod Reported
pub mod Decided
mod Tests
