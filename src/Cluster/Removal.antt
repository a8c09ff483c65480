-- ===== src/Cluster/Removal.antt =====
-- cluster/state.go: `RemoveNode`. The loops delete from the maps that they range over, so they are
-- run over the keys that were there.
pub mod Loops
pub mod Keeps
use devicedb.Common.{
  ℕ, Bool, true, false, Option, none, some, List, [], ◌∷◌, ◌||◌, leb, if◌then◌else◌, length, get_or,
  set, nat_eq,
}
use devicedb.Common.Dict.{Dict, lookup, insert, erase, keys}
use devicedb.Cluster.State.{
  NodeConfig, PartitionReplica, ReplicaMap, ClusterState, Outcome, done, panicked, and_then, inner,
  replica_at, set_replica, relinquish_partition_replica, relinquish_partition_replica_ownership,
  relinquish_token,
}

abbrev pub Cells : Type 0
Cells = List (List PartitionReplica)

-- One turn of an inner loop: the node gives up the replica, and a field of the replica is cleared.
pub release :
    (NodeConfig → ℕ → ℕ → NodeConfig)
    → (PartitionReplica → PartitionReplica)
    → ℕ
    → ℕ
    → NodeConfig × Cells
    → Outcome (NodeConfig × Cells)
release gives clear p r (c, cells) =
    if leb (length cells) p || leb (length (get_or cells p [])) r
    then panicked
    else done (gives c p r, set_replica cells p r (clear (replica_at cells p r)))

pub release_inner :
    (NodeConfig → ℕ → ℕ → NodeConfig)
    → (PartitionReplica → PartitionReplica)
    → ℕ
    → List ℕ
    → NodeConfig × Cells
    → Outcome (NodeConfig × Cells)
release_inner gives clear p [] acc = done acc
release_inner gives clear p (r ∷ rs) acc =
    and_then (release gives clear p r acc) (λ acc'. release_inner gives clear p rs acc')

pub release_outer :
    (NodeConfig → ℕ → ℕ → NodeConfig)
    → (PartitionReplica → PartitionReplica)
    → ReplicaMap
    → List ℕ
    → NodeConfig × Cells
    → Outcome (NodeConfig × Cells)
release_outer gives clear m [] acc = done acc
release_outer gives clear m (p ∷ ps) acc =
    and_then (release_inner gives clear p (keys (inner p m)) acc)
      (λ acc'. release_outer gives clear m ps acc')

pub release_tokens : List ℕ → NodeConfig × List ℕ → Outcome (NodeConfig × List ℕ)
release_tokens [] acc = done acc
release_tokens (t ∷ ts) (c, tokens) =
    let rest = release_tokens ts (relinquish_token c t, set tokens t 0) in
    if leb (length tokens) t then panicked else rest

abbrev pub no_holder : PartitionReplica → PartitionReplica
no_holder x = record x { holder = 0 }

abbrev pub no_owner : PartitionReplica → PartitionReplica
no_owner x = record x { owner = 0 }

-- `RemoveNode` of a node that is there, with its configuration.
pub remove_known : ClusterState → ℕ → NodeConfig → Outcome ClusterState
remove_known s node c =
    and_then
      (release_outer relinquish_partition_replica no_holder c.partition_replicas
        (keys c.partition_replicas) (c, s.partitions))
      (λ a.
        and_then
          (release_outer relinquish_partition_replica_ownership no_owner
            a.0.owned_partition_replicas (keys a.0.owned_partition_replicas) a)
          (λ b. and_then (release_tokens (keys b.0.tokens) (b.0, s.tokens)) (λ d. done (record s {
            nodes = erase node (insert node d.0 s.nodes);
            partitions = b.1;
            tokens = d.1;
            removed_nodes = insert node true s.removed_nodes;
          }))))

unfoldable pub remove_node : ClusterState → ℕ → Outcome ClusterState
unfolding release release_inner release_outer release_tokens remove_known
remove_node s node = elim (lookup node s.nodes) [ none ↦ done s | some c ↦ remove_known s node c ]
