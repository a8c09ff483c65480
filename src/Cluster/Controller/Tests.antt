-- ===== src/Cluster/Controller/Tests.antt =====
-- Tests of the cluster controller: a cluster with one node and a known replication factor.
use devicedb.Common.{◌≡◌, refl, arith, true, none, some, [], ◌∷◌, replicate, nat_eq}
use devicedb.Cluster.State as State
use devicedb.Cluster.State.{
  NodeConfig, ClusterState, Outcome, done, no_replica, take, assign_partition_replica,
}
use devicedb.Cluster.State.Replicas.{in_map}
use devicedb.Cluster.Partitioner.{owners}
use devicedb.Cluster.Start.{are_initialized}
use devicedb.Cluster.Controller.{
  ClusterController, PartitioningStrategy, node_gain_partition_replica, partition_owners,
}
use devicedb.Cluster.Controller.Deltas.{
  local_node_partition_replica_snapshot, local_diff_partition_replicas_and_notify,
}
use devicedb.Cluster.Controller.Follows.{follow}
use devicedb.Cluster.Controller.Takes.{take_partition_replica-follows}
use devicedb.Cluster.Controller.Commands.{
  cluster_set_partition_count, run, step, take_partition_replica,
}
use devicedb.Cluster.Controller.Agreement.{IsSound}
use devicedb.Cluster.Controller.Members.{add_node-Sound}
use devicedb.Cluster.Controller.Steps.{step-Answered}
use devicedb.Cluster.Controller.Sound.{Answered}

abbrev no_nodes : ClusterState
no_nodes = record {
  removed_nodes = (9, true) ∷ [];
  nodes = [];
  tokens = [];
  partitions = [];
  cluster_settings = record { replication_factor = 3; partitions = 0 };
  sites = none;
  relays = none;
}

no_nodes-IsSound : IsSound (λ size. 100) no_nodes
unfolding are_initialized
no_nodes-IsSound = record {
  tokens = λ n t. ground arith;
  holders = λ n p r. ground arith;
  owners = λ n p r. ground arith;
  removed_out = λ n h. refl;
  zero_out = refl;
  fits = (omega arith, omega arith, omega arith);
  fresh = λ h. (refl, refl);
}

abbrev some_node : NodeConfig
some_node = record {
  address = record { node_id = 1; host = []; port = 80 };
  capacity = 1;
  tokens = [];
  owned_partition_replicas = [];
  partition_replicas = [];
}

-- A strategy that gives every token to node 1.
abbrev one_owner : PartitioningStrategy
one_owner = record {
  assign_tokens = λ _ _ n. some (replicate n 1);
  owners = λ tokens p factor. elim (owners (λ size. 100) tokens p factor) [
    | none ↦ []
    | some found ↦ found
  ];
}

abbrev some_controller : ClusterController
some_controller = record {
  local_node_id = 1;
  state = State.add_node no_nodes some_node;
  local_updates = [];
  notifications_enabled = true;
  next_delta_set = [];
  local_node_owned_partition_replica_cache = none;
  partition_owners_cache = [];
}

-- The partition count completes the settings: the two tokens are made and assigned.
step-Answered_example :
    Answered
      (λ size. 100)
      (step one_owner
        (λ nodes. nodes)
        (λ size. 100)
        (cluster_set_partition_count 2)
        some_controller)
step-Answered_example =
    step-Answered (λ size. 100) one_owner (λ nodes. nodes) (cluster_set_partition_count 2)
      some_controller (omega arith)
      (add_node-Sound (λ size. 100) no_nodes some_node no_nodes-IsSound refl refl refl refl)

-- A cluster of node 1 with one partition of one replica, which nobody holds; node 1 owns it.
abbrev one_partition : ClusterController
one_partition = record some_controller {
  state = record some_controller.state {
    tokens = 1 ∷ [];
    partitions = (no_replica ∷ []) ∷ [];
    cluster_settings = record { replication_factor = 1; partitions = 1 };
  };
}

abbrev after_take : ClusterController
after_take = record one_partition {
  state = record one_partition.state {
    nodes = (1, record some_node { partition_replicas = take 0 0 [] }) ∷ [];
    partitions = (record no_replica { holder = 1 } ∷ []) ∷ [];
  };
  local_updates = (node_gain_partition_replica 1 0 0 ∷ []) ∷ [];
  next_delta_set = node_gain_partition_replica 1 0 0 ∷ [];
  partition_owners_cache = (0, 1 ∷ []) ∷ [];
}

take_partition_replica-follows_example :
    in_map 0 0 (follow after_take.next_delta_set []) ≡ in_map 0 0 (take 0 0 [])
unfolding step run take_partition_replica local_node_partition_replica_snapshot partition_owners
    local_diff_partition_replicas_and_notify assign_partition_replica State.add_node owners
take_partition_replica-follows_example =
    take_partition_replica-follows one_owner (λ nodes. nodes) (λ size. 100) one_partition after_take
      (record some_node { partition_replicas = take 0 0 [] }) 0 0 1 0 0 refl refl
