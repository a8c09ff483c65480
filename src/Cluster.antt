-- ===== src/Cluster.antt =====
-- The package cluster: the state that the raft log replicates (State), and the placement of
-- partitions (Partitioner).
pub mod State
pub mod Partitioner
pub mod Start
pub mod Controller
pub mod Removal
pub mod Sites
mod Tests
