-- ===== src/Start.antt =====
-- The start of the indexer in pkg/: the flags, the backend's filters and exclusions, and what
-- `Start_gnomon_indexer` computes from them.
pub mod Flags
pub mod Filters
pub mod Backend
pub mod Launch
