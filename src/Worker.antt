-- ===== src/Worker.antt =====
-- cmd/worker/main.go: the process that takes callbacks, starts a workflow for each filing event, and
-- reads its configuration from the environment.
pub mod Callbacks
pub mod Delivery
pub mod Events
pub mod Offsets
pub mod Settled
pub mod Settings
mod Tests
