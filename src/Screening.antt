-- ===== src/Screening.antt =====
-- internal/screening: the screening of the destination of a payout that waits for its review.
pub mod Store
pub mod Worker
pub mod Gate
pub mod Rounds
mod Examples
