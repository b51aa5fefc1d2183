-- ===== src/Tron.antt =====
-- internal/chain/tron: addresses and the types of the chain.
pub mod Address
pub mod Types
pub mod Simulator
pub mod Forms
mod Examples
