-- ===== src/Cluster/Controller/Deltas.antt =====
-- cluster/controller.go: the differences between a snapshot of the local node and its configuration
-- now, as deltas.
use devicedb.Common.{ℕ, Bool, Option, none, some, List, [], ◌∷◌, ◌++◌, not, if◌then◌else◌, nat_eq}
use devicedb.Common.Dict.{Dict, lookup, contains, keys}
use devicedb.Cluster.State.{NodeConfig, ReplicaMap, inner}
use devicedb.Cluster.Controller.{
  ClusterStateDelta, ClusterController, PartitioningStrategy, node_lose_token, node_gain_token,
  node_gain_partition_replica_ownership, node_lose_partition_replica_ownership,
  node_lose_partition_replica, node_gain_partition_replica, notify_all,
  local_node_owned_partition_replicas,
}

abbrev pub local_node : ClusterController → Option NodeConfig
local_node c = lookup c.local_node_id c.state.nodes

-- The snapshots copy the maps of the local node.
unfoldable pub local_node_token_snapshot : ClusterController → Dict ℕ Bool
local_node_token_snapshot c = elim (local_node c) [ none ↦ [] | some config ↦ config.tokens ]

unfoldable pub local_node_partition_replica_snapshot : ClusterController → ReplicaMap
local_node_partition_replica_snapshot c = elim (local_node c) [
  | none ↦ []
  | some config ↦ config.partition_replicas
]

-- The tokens of a list that are missing in a map, each told by a delta.
abbrev pub tokens_missing : (ℕ → ClusterStateDelta) → Dict ℕ Bool → List ℕ → List ClusterStateDelta
tokens_missing tell m [] = []
tokens_missing tell m (t ∷ ts) =
    let rest = tokens_missing tell m ts in if contains t m then rest else tell t ∷ rest

unfoldable pub local_diff_tokens_and_notify : ClusterController → Dict ℕ Bool → ClusterController
local_diff_tokens_and_notify c snapshot = elim (local_node c) [
  | none ↦ c
  | some config ↦ notify_all c (
      tokens_missing (node_lose_token c.local_node_id) config.tokens (keys snapshot)
      ++ tokens_missing (node_gain_token c.local_node_id) snapshot (keys config.tokens))
]

-- The same for replicas: those of a partition, and those of a list of partitions.
abbrev pub replicas_missing :
    (ℕ → ℕ → ClusterStateDelta) → ReplicaMap → ℕ → List ℕ → List ClusterStateDelta
replicas_missing tell m p [] = []
replicas_missing tell m p (r ∷ rs) =
    let rest = replicas_missing tell m p rs in
    if not (contains p m)
    then tell p r ∷ rest
    else if not (contains r (inner p m))
    then tell p r ∷ rest
    else rest

abbrev pub partitions_missing :
    (ℕ → ℕ → ClusterStateDelta) → ReplicaMap → ReplicaMap → List ℕ → List ClusterStateDelta
partitions_missing tell m from [] = []
partitions_missing tell m from (p ∷ ps) =
    replicas_missing tell m p (keys (inner p from)) ++ partitions_missing tell m from ps

abbrev pub all_missing :
    (ℕ → ℕ → ClusterStateDelta) → ReplicaMap → ReplicaMap → List ClusterStateDelta
all_missing tell m from = partitions_missing tell m from (keys from)

unfoldable pub local_diff_partition_replicas_and_notify :
    ClusterController → ReplicaMap → ClusterController
local_diff_partition_replicas_and_notify c snapshot = elim (local_node c) [
  | none ↦ c
  | some config ↦ notify_all c (
      all_missing (node_lose_partition_replica c.local_node_id) config.partition_replicas snapshot
      ++ all_missing (node_gain_partition_replica c.local_node_id) snapshot
          config.partition_replicas)
]

unfoldable pub local_diff_owned_partition_replicas_and_notify :
    PartitioningStrategy → ClusterController → ReplicaMap → ClusterController
unfolding local_node_owned_partition_replicas
local_diff_owned_partition_replicas_and_notify strategy c snapshot =
    let (current, c') = local_node_owned_partition_replicas strategy c in
    notify_all c' (
      all_missing (node_lose_partition_replica_ownership c.local_node_id) current snapshot
      ++ all_missing (node_gain_partition_replica_ownership c.local_node_id) snapshot current)
