-- ===== src/Boundary.antt =====
-- scripts/scenarios/profiles/executor_common.py: the boundary that every profile executor shares.
-- `Live` has its code, and the others its proofs.
pub mod Live
pub mod Authorised
pub mod Levels
pub mod Approved
pub mod Agreement
mod Tests
