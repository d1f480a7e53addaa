-- ===== src/Deposit.antt =====
-- src/services/deposit_verifier.py and src/services/deposit_processor.py: the check of a claimed deposit
-- on its chain, and the claim's way to a sweep.
pub mod Verifier
pub mod Verification
pub mod Processor
pub mod Claims
pub mod Reports
pub mod Discovery
mod Tests
