-- ===== src/Defence.antt =====
-- engine/src/defence: what perturbs the responses to sessions that are not clean. This library has
-- the reordering of sentences (mod.rs) and the perturbation of numbers (numeric.rs).
mod Panics
pub mod Random
pub mod Synonym
pub mod Reorder
pub mod Numeric
pub mod Pipeline
mod Sample
mod Tests
mod FactorTests
mod PipelineTests
