-- ===== src/Workflow.antt =====
-- internal/workflow/filing.go: the durable workflow that files one return.
pub mod Steps
pub mod Outcome
pub mod Filing
pub mod Reconcile
pub mod Tally
pub mod Canonical
pub mod Acts
pub mod Evidence
pub mod Intent
pub mod Entry
pub mod Told
pub mod Recorded
pub mod Smooth
pub mod Finishes
pub mod Settings
mod Tests
