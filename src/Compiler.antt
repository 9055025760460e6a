-- ===== src/Compiler.antt =====
-- scripts/scenarios/compile-plan.py: the validation of the registry, and how compile_plan puts a plan
-- together from it.
pub mod Assembly
pub mod Bindings
pub mod ContractDocs
pub mod Contracts
pub mod ControllerDocs
pub mod Controllers
pub mod Manifests
pub mod Accepted
pub mod Signals
pub mod Ladders
pub mod Bound
pub mod Manifested
pub mod Cleanup
pub mod Queries
pub mod Observed
pub mod Assembles
mod Tests
mod ContractTests
mod ManifestTests
