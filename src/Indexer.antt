-- ===== src/Indexer.antt =====
-- The indexer of pkg/: blocks are cut into batches of transactions, transactions are counted and
-- sorted by type, and contracts are classified before the store keeps them.
pub mod Batches
pub mod Blocks
pub mod Classify
pub mod Counting
pub mod Heights
pub mod Fastsync
pub mod Headers
pub mod Helpers
pub mod ScidWriter
pub mod Scids
pub mod Transactions
pub mod Variables
