-- ===== src/Deposit.antt =====
-- internal/deposit: the matching of a payment on the chain to the intent of a merchant, and its
-- credit in the ledger.
pub mod Tables
pub mod Posting
pub mod Matcher
pub mod Recording
pub mod Credits
pub mod Matches
mod Examples
