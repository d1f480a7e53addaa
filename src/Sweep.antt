-- ===== src/Sweep.antt =====
-- src/services/sweep_engine.py: the state machine that moves a deposit from its deposit address to the
-- vault and credits it.
pub mod Record
pub mod World
pub mod Store
pub mod Gas
pub mod Receipt
pub mod Engine
pub mod Load
pub mod Recovery
pub mod Operations
pub mod Safety
pub mod Sample
mod Tests
