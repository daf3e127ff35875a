-- ===== src/Source.antt =====
-- extension-sdk-mongodb/src/source_stage.rs: a generator stage between the host and its hooks.
pub mod Ops
pub mod Exec
pub mod Nodes
pub mod Expanded
pub mod Entry
