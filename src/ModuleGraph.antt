-- ===== src/ModuleGraph.antt =====
-- crates/nestforge-core/src/module.rs: modules, the walk over their imports, and what the walk
-- builds.
pub mod Walk
pub mod ModuleRef
pub mod Runtime
pub mod Report
pub mod Docs
pub mod Builder
mod Tests
