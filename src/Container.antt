-- ===== src/Container.antt =====
-- crates/nestforge-core/src/container.rs: the dependency injection container.
pub mod State
pub mod Register
pub mod Resolve
