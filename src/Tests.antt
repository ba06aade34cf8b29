-- ===== src/Tests.antt =====
-- Runs of the model on concrete inputs.
pub mod Pages
pub mod Trees
pub mod Leaves
pub mod Engine
mod Datasets
mod Witnesses
mod Refinements
mod Traversals
mod Caches
mod Sessions
mod Fills
mod Drawings
mod Suites
mod Runs
