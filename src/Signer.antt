-- ===== src/Signer.antt =====
-- internal/signer: the isolated service that signs transfers, at most once for each request.
pub mod Store
pub mod Service
pub mod Requests
pub mod Once
mod Examples
