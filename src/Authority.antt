-- ===== src/Authority.antt =====
-- internal/authority/server.go: the fake provider, its ledger, its callbacks and its client.
pub mod Ledger
pub mod Submit
pub mod Attempt
pub mod Completion
pub mod Client
pub mod Events
pub mod Grows
pub mod Sound
pub mod Carries
pub mod Goroutine
pub mod Durability
pub mod Saves
pub mod Answers
pub mod Promises
pub mod Keeps
pub mod Ending
pub mod Posting
pub mod Delivery
pub mod Process
pub mod Settings
mod Tests
