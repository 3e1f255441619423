-- ===== src/Accountable.antt =====
-- internal/accountable/server.go: the fake product service, its three tables and its commands.
pub mod Tables
pub mod Command
pub mod Apply
pub mod First
pub mod Outcome
pub mod Transitions
pub mod Steps
pub mod Grounds
pub mod History
pub mod Permitted
pub mod Applying
pub mod Applied
pub mod Finality
pub mod Idempotence
pub mod Effects
pub mod Handlers
pub mod Queries
pub mod Service
pub mod Ownership
pub mod WellFormed
mod Tests
pub mod Client
pub mod Settings
pub mod Standing
