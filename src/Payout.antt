-- ===== src/Payout.antt =====
-- internal/payout: payouts, from the frozen balance to the settled or released one.
pub mod State
pub mod Signing
pub mod Execution
pub mod Accounts
pub mod Posting
pub mod Finalization
pub mod Review
pub mod Reviews
pub mod Approvals
pub mod Create
pub mod Creations
pub mod Replays
pub mod Worker
pub mod Lifecycle
pub mod Fencing
pub mod Leases
pub mod Exclusion
pub mod Steps
pub mod Settlement
pub mod Terminal
pub mod Once
pub mod Traces
pub mod Decisions
mod Examples
pub mod Fixtures
mod RequestExamples
