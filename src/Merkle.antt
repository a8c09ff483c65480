-- ===== src/Merkle.antt =====
-- merkle/merkle.go: the hash tree over the keys of a bucket.
pub mod Nodes
pub mod Queue
pub mod Tree
mod Tests
