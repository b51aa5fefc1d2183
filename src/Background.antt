-- ===== src/Background.antt =====
-- internal/background: the loop that runs a worker.
pub mod Runner
pub mod Delays
mod Examples
