-- ===== src/Search.antt =====
-- The crate opensearch-extension-core: the arguments of $vectorSearch, and the search.
pub mod Filter
pub mod Args
pub mod Timeout
pub mod Control
pub mod Fetch
pub mod Config
pub mod Transport
pub mod Staged
pub mod Cursor
