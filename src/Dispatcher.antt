-- ===== src/Dispatcher.antt =====
-- scripts/scenarios/trusted_dispatcher.py: the dispatcher of live scenario runs. `Host` has what it
-- meets outside itself, `Calls` and `Dispatch` the program, and the others its proofs.
pub mod Host
pub mod Calls
pub mod Dispatch
pub mod Frames
pub mod Safety
pub mod Files
pub mod RunEnds
pub mod Order
pub mod Complete
pub mod Recovery
mod Tests
