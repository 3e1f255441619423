-- ===== src/Chaos.antt =====
-- internal/chaos/chaos.go: the crash points.
pub mod Texts
pub mod Points
pub mod Progress
mod Tests
