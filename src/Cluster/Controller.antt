-- ===== src/Cluster/Controller.antt =====
-- cluster/controller.go and cluster/delta.go: the controller of the cluster state, its caches, and the
-- deltas that tell the local node what changed. The locks are not modelled: each command holds the
-- state's lock while it changes the controller. The sort and the strategy are parameters.
pub mod Deltas
pub mod Commands
pub mod Agreement
pub mod Members
pub mod Sound
pub mod Steps
pub mod Follows
pub mod Takes
mod Tests
use devicedb.Common.{
  ℕ, zero, suc, ◌+◌, Bool, true, false, Option, none, some, List, [], ◌∷◌, ◌++◌, Bytes, length,
  if◌then◌else◌, ◌==◌, nat_eq,
}
use devicedb.Common.Dict.{Dict, lookup, insert}
use devicedb.Cluster.State.{NodeConfig, ClusterState, ReplicaMap, take}
use devicedb.Cluster.Start.{are_initialized}

pub data ClusterStateDelta : Type 0 where
  node_add : ℕ → NodeConfig → ClusterStateDelta
  node_remove : ℕ → ClusterStateDelta
  node_lose_token node_gain_token : ℕ → ℕ → ClusterStateDelta
  node_gain_partition_replica_ownership node_lose_partition_replica_ownership :
      ℕ → ℕ → ℕ → ClusterStateDelta
  node_lose_partition_replica node_gain_partition_replica : ℕ → ℕ → ℕ → ClusterStateDelta
  site_added site_removed relay_added relay_removed : Bytes → ClusterStateDelta
  relay_moved : Bytes → Bytes → ClusterStateDelta

-- The strategy's methods that the controller calls; none is an error.
pub record PartitioningStrategy : Type 0 where
  pub assign_tokens : List NodeConfig → List ℕ → ℕ → Option (List ℕ)
  pub owners : List ℕ → ℕ → ℕ → List ℕ

-- A nil map of owners is an empty one; `local_updates` is what was sent on the channel.
pub record ClusterController : Type 0 where
  pub local_node_id : ℕ
  pub state : ClusterState
  pub local_updates : List (List ClusterStateDelta)
  pub notifications_enabled : Bool
  pub next_delta_set : List ClusterStateDelta
  pub local_node_owned_partition_replica_cache : Option ReplicaMap
  pub partition_owners_cache : Dict ℕ (List ℕ)

abbrev pub notify_local_node : ClusterController → ClusterStateDelta → ClusterController
notify_local_node c delta = record c { next_delta_set = c.next_delta_set ++ (delta ∷ []) }

abbrev pub notify_all : ClusterController → List ClusterStateDelta → ClusterController
notify_all c deltas = record c { next_delta_set = c.next_delta_set ++ deltas }

-- Both caches are dropped.
abbrev pub clear_caches : ClusterController → ClusterController
clear_caches c = record c {
  local_node_owned_partition_replica_cache = none;
  partition_owners_cache = [];
}

-- The replicas of a partition that the local node owns, from replica number `r` on.
pub mark_owned : ℕ → ℕ → ℕ → List ℕ → ReplicaMap → ReplicaMap
mark_owned local p r [] m = m
mark_owned local p r (node ∷ nodes) m =
    mark_owned local p (r + 1) nodes (if node == local then take p r m else m)

module _ (strategy : PartitioningStrategy) where
  unfoldable pub partition_owners : ClusterController → ℕ → List ℕ × ClusterController
  partition_owners c p = elim (lookup p c.partition_owners_cache) [
    | some found ↦ (found, c)
    | none ↦
        (let found = strategy.owners c.state.tokens p c.state.cluster_settings.replication_factor in
          (found, record c { partition_owners_cache = insert p found c.partition_owners_cache }))
  ]

  -- The loop over `n` partitions from number `p` on.
  pub owned_from : ℕ → ℕ → ReplicaMap → ClusterController → ReplicaMap × ClusterController
  owned_from zero p m c = (m, c)
  owned_from (suc n) p m c =
      let (found, c') = partition_owners c p in
      owned_from n (p + 1) (mark_owned c.local_node_id p 0 found m) c'

  unfoldable pub local_node_owned_partition_replicas :
      ClusterController → ReplicaMap × ClusterController
  unfolding owned_from mark_owned partition_owners
  local_node_owned_partition_replicas c =
      if are_initialized c.state.cluster_settings
      then elim c.local_node_owned_partition_replica_cache [
        | some m ↦ (m, c)
        | none ↦
            (let (m, c') = owned_from (length c.state.tokens) 0 [] c in
              (m, record c' { local_node_owned_partition_replica_cache = some m }))
      ]
      else ([], c)
