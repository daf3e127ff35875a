-- ===== src/Plan.antt =====
-- extension-sdk-mongodb/src/distributed_plan.rs, and the planning hook of source_stage.rs: a source
-- followed by host stages on the merger, and who owns these stages.
pub mod Stages
pub mod Containers
pub mod Host
pub mod Ownership
pub mod Build
pub mod Logical
