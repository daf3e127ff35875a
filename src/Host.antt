-- ===== src/Host.antt =====
-- What a stage asks of the host, and what it reports to it.
pub mod Services
pub mod Context
pub mod Metrics
pub mod Versions
