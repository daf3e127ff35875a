-- ===== src/Router.antt =====
-- opensearch-extension-core/src/mongos.rs: $vectorSearch on a router.
pub mod Decode
pub mod Arguments
pub mod Rows
