-- ===== src/Outbox.antt =====
-- internal/outbox: the transactional outbox, its queue of leased events and its processor.
pub mod Enqueue
pub mod Queue
pub mod Leases
pub mod Processor
pub mod Backoff
pub mod Verdicts
mod Examples
