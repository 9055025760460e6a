-- ===== src/Audit.antt =====
-- scripts/scenarios/audit-run-causality.py: whether the verdict of a run was caused by its injection.
-- `Runs` reads a run, `Gates` finds what decided it and when, `Names` its services, `Shift`, `Ratio`
-- and `Arm` are the three checks, `Report` puts them together; the others are the proofs.
pub mod Runs
pub mod Names
pub mod Gates
pub mod Host
pub mod Shift
pub mod Ratio
pub mod Arm
pub mod Report
pub mod Results
pub mod Targets
pub mod Windows
pub mod Silence
pub mod Classified
pub mod Grounds
pub mod Grounded
pub mod Raises
pub mod Errors
pub mod Arms
pub mod Quote
pub mod Silenced
mod Tests
