-- ===== src/Federation.antt =====
-- examples/data-federation/data-federation-extension/src/lib.rs: $readLocalJsonl, which reads JSON
-- Lines from files under an allowed directory of the server.
pub mod Lines
pub mod Cursor
pub mod Paths
pub mod Options
