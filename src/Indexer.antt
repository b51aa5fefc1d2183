-- ===== src/Indexer.antt =====
-- internal/chain/tron/indexer: the scan of the finalized chain into the table of events.
pub mod Cursor
pub mod Scanner
pub mod Worker
pub mod Insertion
pub mod Mirror
pub mod Refinement
pub mod Progress
mod Examples
