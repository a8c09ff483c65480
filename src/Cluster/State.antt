-- ===== src/Cluster/State.antt =====
-- cluster/state.go: nodes, tokens, partition replicas, sites and relays. The maps of a node are made
-- with it, so only `Sites`, `Relays`, `Nodes` and `RemovedNodes` can be nil; reading a nil map is
-- reading an empty one, so nil is kept apart only where the code asks for it. `*NodeConfig` and
-- `*PartitionReplica` are values: nothing else holds these pointers.
pub mod Marks
pub mod Tokens
pub mod Replicas
pub mod Moves
use devicedb.Common.{
  ℕ, zero, suc, ◌+◌, Bool, true, false, Option, none, some, List, [], ◌∷◌, ◌&&◌, ◌||◌, not, Bytes,
  ltb, leb, eqb, if◌then◌else◌, length, get_or, set, replicate, ◌==◌, nat_eq, bytes_eq,
}
use devicedb.Common.Dict.{Dict, lookup, contains, insert, erase}

pub data ClusterError : Type 0 where
  no_such_partition no_such_token no_such_replica no_such_node : ClusterError

-- A call returns, returns an error, or panics: a nil node or an index out of range.
pub data Outcome {ℓ} (A : Type ℓ) : Type ℓ where
  done : A → Outcome A
  failed : ClusterError → Outcome A
  panicked : Outcome A

pub record PeerAddress : Type 0 where
  pub node_id : ℕ
  pub host : Bytes
  pub port : ℕ

pub record PartitionReplica : Type 0 where
  pub partition : ℕ
  pub replica : ℕ
  pub holder : ℕ
  pub owner : ℕ

-- `map[uint64]map[uint64]bool`.
abbrev pub ReplicaMap : Type 0
ReplicaMap = Dict ℕ (Dict ℕ Bool)

pub record NodeConfig : Type 0 where
  pub address : PeerAddress
  pub capacity : ℕ
  pub tokens : Dict ℕ Bool
  pub owned_partition_replicas : ReplicaMap
  pub partition_replicas : ReplicaMap

abbrev pub inner : ℕ → ReplicaMap → Dict ℕ Bool
inner partition m = elim (lookup partition m) [ none ↦ [] | some rs ↦ rs ]

-- The body of `takePartitionReplica` and `takePartitionReplicaOwnership`.
abbrev pub take : ℕ → ℕ → ReplicaMap → ReplicaMap
take partition replica m = insert partition (insert replica true (inner partition m)) m

-- The body of `relinquishPartitionReplica` and `relinquishPartitionReplicaOwnership`.
abbrev pub relinquish : ℕ → ℕ → ReplicaMap → ReplicaMap
relinquish partition replica m =
    if not (contains partition m)
    then m
    else (let rs = erase replica (inner partition m) in
        if length rs == 0 then erase partition m else insert partition rs m)

unfoldable pub take_partition_replica : NodeConfig → ℕ → ℕ → NodeConfig
take_partition_replica c p r = record c { partition_replicas = take p r c.partition_replicas }

unfoldable pub relinquish_partition_replica : NodeConfig → ℕ → ℕ → NodeConfig
relinquish_partition_replica c p r = record c {
  partition_replicas = relinquish p r c.partition_replicas;
}

unfoldable pub take_partition_replica_ownership : NodeConfig → ℕ → ℕ → NodeConfig
take_partition_replica_ownership c p r = record c {
  owned_partition_replicas = take p r c.owned_partition_replicas;
}

unfoldable pub relinquish_partition_replica_ownership : NodeConfig → ℕ → ℕ → NodeConfig
relinquish_partition_replica_ownership c p r = record c {
  owned_partition_replicas = relinquish p r c.owned_partition_replicas;
}

unfoldable pub relinquish_token : NodeConfig → ℕ → NodeConfig
relinquish_token c t = record c { tokens = erase t c.tokens }

unfoldable pub take_token : NodeConfig → ℕ → NodeConfig
take_token c t = record c { tokens = insert t true c.tokens }

pub record ClusterSettings : Type 0 where
  pub replication_factor : ℕ
  pub partitions : ℕ

pub record ClusterState : Type 0 where
  pub removed_nodes : Dict ℕ Bool
  pub nodes : Dict ℕ NodeConfig
  pub tokens : List ℕ
  pub partitions : List (List PartitionReplica)
  pub cluster_settings : ClusterSettings
  pub sites : Option (Dict Bytes Bool)
  pub relays : Option (Dict Bytes Bytes)

abbrev pub no_replica : PartitionReplica
no_replica = record { partition = 0; replica = 0; holder = 0; owner = 0 }

abbrev pub replica_at : List (List PartitionReplica) → ℕ → ℕ → PartitionReplica
replica_at partitions p r = get_or (get_or partitions p []) r no_replica

abbrev pub set_replica :
    List (List PartitionReplica) → ℕ → ℕ → PartitionReplica → List (List PartitionReplica)
set_replica partitions p r x = set partitions p (set (get_or partitions p []) r x)

-- `Nodes[n].f(...)` on the node map, a panic if the node is nil.
abbrev pub on_node : Dict ℕ NodeConfig → ℕ → (NodeConfig → NodeConfig) → Outcome (Dict ℕ NodeConfig)
on_node nodes n f = elim (lookup n nodes) [ none ↦ panicked | some c ↦ done (insert n (f c) nodes) ]

abbrev pub and_then {ℓ κ} : {A : Type ℓ} {B : Type κ} → Outcome A → (A → Outcome B) → Outcome B
and_then (done a) f = f a
and_then (failed e) f = failed e
and_then panicked f = panicked

unfoldable pub assign_token : ClusterState → ℕ → ℕ → Outcome ClusterState
unfolding relinquish_token take_token
assign_token s node token =
    if leb (length s.tokens) token
    then failed no_such_token
    else (if not (contains node s.nodes) && not (node == 0)
        then failed no_such_node
        else (let owner = get_or s.tokens token 0 in
            and_then
              (if not (owner == 0)
                then on_node s.nodes owner (λ c. relinquish_token c token)
                else done s.nodes)
              (λ nodes.
                and_then
                  (if not (node == 0)
                    then on_node nodes node (λ c. take_token c token)
                    else done nodes)
                  (λ nodes'.
                    done (record s { nodes = nodes'; tokens = set s.tokens token node })))))

-- The part that `AssignPartitionReplica` and `AssignPartitionReplicaOwnership` share: the old and
-- the new node's change around the write to the replica.
abbrev pub move_replica :
    (NodeConfig → NodeConfig)
    → (NodeConfig → NodeConfig)
    → ClusterState
    → ℕ
    → ℕ
    → List (List PartitionReplica)
    → Outcome ClusterState
move_replica gives takes s current node partitions =
    and_then (if not (current == 0) then on_node s.nodes current gives else done s.nodes) (λ nodes.
      and_then (on_node nodes node takes)
        (λ nodes'. done (record s { nodes = nodes'; partitions = partitions })))

unfoldable pub assign_partition_replica : ClusterState → ℕ → ℕ → ℕ → Outcome ClusterState
unfolding take_partition_replica relinquish_partition_replica
assign_partition_replica s p r node =
    if leb (length s.partitions) p
    then failed no_such_partition
    else (if not (contains node s.nodes)
        then failed no_such_node
        else (if leb (length (get_or s.partitions p [])) r
            then failed no_such_replica
            else (let x = replica_at s.partitions p r in
                move_replica (λ c. relinquish_partition_replica c p r)
                  (λ c. take_partition_replica c p r) s x.holder node
                  (set_replica s.partitions p r (record x { holder = node })))))

unfoldable pub assign_partition_replica_ownership : ClusterState → ℕ → ℕ → ℕ → Outcome ClusterState
unfolding take_partition_replica_ownership relinquish_partition_replica_ownership
assign_partition_replica_ownership s p r node =
    if leb (length s.partitions) p
    then failed no_such_partition
    else (if not (contains node s.nodes)
        then failed no_such_node
        else (if leb (length (get_or s.partitions p [])) r
            then failed no_such_replica
            else (let x = replica_at s.partitions p r in
                move_replica (λ c. relinquish_partition_replica_ownership c p r)
                  (λ c. take_partition_replica_ownership c p r) s x.owner node
                  (set_replica s.partitions p r (record x { owner = node })))))

unfoldable pub add_node : ClusterState → NodeConfig → ClusterState
add_node s c =
    if c.address.node_id == 0
    then s
    else (if contains c.address.node_id s.nodes
        then s
        else record s { nodes = insert c.address.node_id c s.nodes })
