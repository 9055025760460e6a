-- ===== src/Control.antt =====
-- scripts/scenarios/profile-control.py: the fenced boundary through which the runner applies and
-- cleans up one profile. `Host` has what it meets outside itself, `Checks` and `Execute` the
-- program, and the others its proofs.
pub mod Host
pub mod Checks
pub mod Execute
pub mod Frames
pub mod Leases
pub mod Fencing
pub mod Ends
pub mod Idempotence
pub mod Retry
mod Tests
