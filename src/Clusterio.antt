-- ===== src/Clusterio.antt =====
-- The package clusterio: how the results of several nodes are put together.
pub mod MergeIterator
mod Tests
