-- ===== src/Cluster/State/Moves.antt =====
-- cluster/state.go: `AssignPartitionReplica` and `AssignPartitionReplicaOwnership`.
use devicedb.Common.{ℕ, ◌≡◌, ◌<◌, refl, arith, true, false, ◌==◌, nat_eq, leb, get_or, length, []}
use devicedb.Common.Dict.{contains}
use devicedb.Cluster.State.{
  ClusterState, PartitionReplica, replica_at, set_replica, done, take_partition_replica,
  relinquish_partition_replica, take_partition_replica_ownership,
  relinquish_partition_replica_ownership, assign_partition_replica,
  assign_partition_replica_ownership,
}
use devicedb.Cluster.State.Replicas.{Agree, move_replica-Agree}

abbrev pub holder_of : PartitionReplica → ℕ
holder_of x = x.holder

abbrev pub owner_of : PartitionReplica → ℕ
owner_of x = x.owner

-- A node's configuration names exactly the replicas that the node holds.
abbrev pub HoldersAgree : ClusterState → Type 0
HoldersAgree s = Agree holder_of (λ c. c.partition_replicas) s.nodes s.partitions

-- And exactly those that it owns.
abbrev pub OwnersAgree : ClusterState → Type 0
OwnersAgree s = Agree owner_of (λ c. c.owned_partition_replicas) s.nodes s.partitions

module _ (s : ClusterState) (p r node : ℕ) (hp : p < length s.partitions)
    (hr : r < length (get_or s.partitions p [])) (pos : (node == 0) ≡ false)
    (there : contains node s.nodes ≡ true) where
  -- `AssignPartitionReplica` of a replica to a node of the cluster succeeds: that replica then has
  -- that holder, nothing else of the replicas changes, and the configurations of the nodes agree.
  pub assign_partition_replica-HoldersAgree :
      HoldersAgree s
      → (s' : ClusterState) × (assign_partition_replica s p r node ≡ done s')
        × (s'.partitions
            ≡ set_replica s.partitions p r (record (replica_at s.partitions p r) { holder = node }))
        × HoldersAgree s'
  unfolding assign_partition_replica take_partition_replica relinquish_partition_replica
  assign_partition_replica-HoldersAgree agree =
      let a : leb (length s.partitions) p ≡ false = ground arith in
      let b : leb (length (get_or s.partitions p [])) r ≡ false = ground arith in
      let (s', e, cells, agree') =
        move_replica-Agree holder_of (λ c. c.partition_replicas)
          (λ p r c. relinquish_partition_replica c p r) (λ p r c. take_partition_replica c p r)
          (λ p r c. refl) (λ p r c. refl) s agree p r node hp hr pos there
          (record (replica_at s.partitions p r) { holder = node }) refl in
      (s', rw (a, b, there) e, cells, agree')

  -- `AssignPartitionReplicaOwnership` of a replica to a node of the cluster succeeds: that replica
  -- then has that owner, nothing else of the replicas changes, and the configurations of the nodes
  -- agree.
  pub assign_partition_replica_ownership-OwnersAgree :
      OwnersAgree s
      → (s' : ClusterState) × (assign_partition_replica_ownership s p r node ≡ done s')
        × (s'.partitions
            ≡ set_replica s.partitions p r (record (replica_at s.partitions p r) { owner = node }))
        × OwnersAgree s'
  unfolding assign_partition_replica_ownership take_partition_replica_ownership
      relinquish_partition_replica_ownership
  assign_partition_replica_ownership-OwnersAgree agree =
      let a : leb (length s.partitions) p ≡ false = ground arith in
      let b : leb (length (get_or s.partitions p [])) r ≡ false = ground arith in
      let (s', e, cells, agree') =
        move_replica-Agree owner_of (λ c. c.owned_partition_replicas)
          (λ p r c. relinquish_partition_replica_ownership c p r)
          (λ p r c. take_partition_replica_ownership c p r) (λ p r c. refl) (λ p r c. refl) s agree
          p r node hp hr pos there (record (replica_at s.partitions p r) { owner = node }) refl in
      (s', rw (a, b, there) e, cells, agree')
