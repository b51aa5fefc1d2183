-- ===== src/Tron/Simulator.antt =====
-- internal/chain/tron/simulator/simulator.go: a chain in memory with a finalized prefix, which
-- the tests of the other packages use as the node.
pub mod Blocks
pub mod Chain
pub mod Finality
pub mod Runs
mod Examples
