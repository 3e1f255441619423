-- ===== src/Operator.antt =====
-- cmd/opsctl/main.go: the operator's tool.
pub mod Enqueue
pub mod Start
pub mod Reconcile
pub mod ReportOnly
pub mod Evidence
pub mod Matching
pub mod Agreement
pub mod Commands
pub mod Tool
pub mod ReadOnly
mod Tests
