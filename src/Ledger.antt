-- ===== src/Ledger.antt =====
-- internal/ledger: the double-entry ledger.
pub mod Transaction
pub mod Balance
pub mod Rounds
pub mod Loop
pub mod Validation
pub mod Repository
pub mod Booking
pub mod Posting
pub mod Idempotency
pub mod Soundness
mod Examples
