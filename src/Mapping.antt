-- ===== src/Mapping.antt =====
-- The map-transform stage: the stage that it exports, its nodes and its executable form.
pub mod Ops
pub mod Exec
pub mod Nodes
pub mod Entry
