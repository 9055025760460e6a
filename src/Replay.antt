-- ===== src/Replay.antt =====
-- scripts/scenarios/replay-success-streak.py: the success verdict of a run, replayed from its ticks.
-- `Signals` has a tick's verdict, `Run` the replay, and the others its proofs.
pub mod Signals
pub mod Run
pub mod Segments
pub mod Verdict
pub mod Evidence
pub mod Summary
pub mod Candidates
pub mod Pace
pub mod Validation
mod Tests
