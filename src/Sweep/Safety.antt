-- ===== src/Sweep/Safety.antt =====
-- What the sweep engine never does, whatever the chains answer and wherever a task is cancelled.
pub mod Invariant
pub mod Rules
pub mod Stages
pub mod Sweeps
pub mod Memory
pub mod Loading
pub mod Recovery
pub mod Passes
pub mod Runs
