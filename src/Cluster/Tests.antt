-- ===== src/Cluster/Tests.antt =====
-- Tests of the cluster state and of the placement of partitions: two nodes, two partitions of one
-- replica each.
use devicedb.Common.{
  ℕ, zero, suc, ◌<◌, ◌≡◌, refl, arith, Bool, true, false, none, some, List, [], ◌∷◌, Bytes, length,
  set, nat_eq, bytes_eq,
}
use devicedb.Common.Dict.{Dict, contains}
use devicedb.Data.Tests.{toy_md5, toy_md5-ReturnsBytes}
use devicedb.Cluster.State.{
  NodeConfig, ClusterState, ReplicaMap, done, replica_at, set_replica, assign_token, add_node,
  assign_partition_replica, assign_partition_replica_ownership,
}
use devicedb.Cluster.State.Tokens.{TokensAgree, assign_token-TokensAgree}
use devicedb.Cluster.State.Moves.{
  HoldersAgree, OwnersAgree, assign_partition_replica-HoldersAgree,
  assign_partition_replica_ownership-OwnersAgree,
}
use devicedb.Cluster.Start.{add_node_agrees}
use devicedb.Cluster.Removal.{remove_node}
use devicedb.Cluster.Removal.Keeps.{remove_node_agrees}
use devicedb.Cluster.Sites.{SiteStep, SiteSteps, add_site, add_relay, move_relay, remove_site}
use devicedb.Cluster.Sites.Placed.{RelaysPlaced, SiteSteps-RelaysPlaced}
use devicedb.Cluster.Partitioner.{partition, owners}
use devicedb.Cluster.Partitioner.Shift.{partition-lt}
use devicedb.Cluster.Partitioner.Owners.{length-owners}

abbrev node_config : ℕ → Dict ℕ Bool → ReplicaMap → ReplicaMap → NodeConfig
node_config id tokens owned held = record {
  address = record { node_id = id; host = []; port = 80 };
  capacity = 1;
  tokens = tokens;
  owned_partition_replicas = owned;
  partition_replicas = held;
}

abbrev config_one : NodeConfig
config_one = node_config 1 ((0, true) ∷ []) ((0, (0, true) ∷ []) ∷ []) ((1, (0, true) ∷ []) ∷ [])

abbrev config_two : NodeConfig
config_two = node_config 2 [] [] []

-- Node 1 has token 0, owns partition 0 and holds partition 1.
abbrev some_state : ClusterState
some_state = record {
  removed_nodes = [];
  nodes = (1, config_one) ∷ (2, config_two) ∷ [];
  tokens = 1 ∷ 0 ∷ [];
  partitions =
      (record { partition = 0; replica = 0; holder = 0; owner = 1 } ∷ [])
      ∷ (record { partition = 1; replica = 0; holder = 1; owner = 0 } ∷ [])
      ∷ [];
  cluster_settings = record { replication_factor = 1; partitions = 2 };
  sites = none;
  relays = none;
}

some_state-TokensAgree : TokensAgree some_state
some_state-TokensAgree n zero = ground arith
some_state-TokensAgree n (suc zero) = ground arith
some_state-TokensAgree n (suc (suc t)) = ground arith

some_state-HoldersAgree : HoldersAgree some_state
some_state-HoldersAgree n zero zero = ground arith
some_state-HoldersAgree n zero (suc r) = ground arith
some_state-HoldersAgree n (suc zero) zero = ground arith
some_state-HoldersAgree n (suc zero) (suc r) = ground arith
some_state-HoldersAgree n (suc (suc p)) r = ground arith

some_state-OwnersAgree : OwnersAgree some_state
some_state-OwnersAgree n zero zero = ground arith
some_state-OwnersAgree n zero (suc r) = ground arith
some_state-OwnersAgree n (suc zero) zero = ground arith
some_state-OwnersAgree n (suc zero) (suc r) = ground arith
some_state-OwnersAgree n (suc (suc p)) r = ground arith

assign_token-TokensAgree_example :
    (s' : ClusterState) × (assign_token some_state 2 0 ≡ done s')
    × (s'.tokens ≡ set some_state.tokens 0 2)
    × TokensAgree s'
assign_token-TokensAgree_example =
    assign_token-TokensAgree some_state some_state-TokensAgree 2 0 (omega arith) (λ _. refl)

assign_partition_replica-HoldersAgree_example :
    (s' : ClusterState) × (assign_partition_replica some_state 1 0 2 ≡ done s')
    × (s'.partitions
        ≡ set_replica some_state.partitions 1 0
            (record (replica_at some_state.partitions 1 0) { holder = 2 }))
    × HoldersAgree s'
assign_partition_replica-HoldersAgree_example =
    assign_partition_replica-HoldersAgree some_state 1 0 2 (omega arith) (omega arith) refl refl
      some_state-HoldersAgree

assign_partition_replica_ownership-OwnersAgree_example :
    (s' : ClusterState) × (assign_partition_replica_ownership some_state 0 0 2 ≡ done s')
    × (s'.partitions
        ≡ set_replica some_state.partitions 0 0
            (record (replica_at some_state.partitions 0 0) { owner = 2 }))
    × OwnersAgree s'
assign_partition_replica_ownership-OwnersAgree_example =
    assign_partition_replica_ownership-OwnersAgree some_state 0 0 2 (omega arith) (omega arith) refl
      refl some_state-OwnersAgree

remove_node_agrees_example :
    (s' : ClusterState) × (remove_node some_state 1 ≡ done s')
    × (contains 1 s'.nodes ≡ false)
    × HoldersAgree s'
    × OwnersAgree s'
    × TokensAgree s'
remove_node_agrees_example =
    remove_node_agrees some_state 1 config_one refl some_state-HoldersAgree some_state-OwnersAgree
      some_state-TokensAgree

abbrev site_a : Bytes
site_a = 97 ∷ []

abbrev relay_r : Bytes
relay_r = 114 ∷ []

-- A site is added, a relay is moved to it, and the site is removed.
abbrev some_steps :
    (s : ClusterState)
    → SiteSteps s
        (remove_site (move_relay (add_relay (add_site s site_a) relay_r) relay_r site_a) site_a)
some_steps s =
    SiteSteps.then_step
      (SiteSteps.then_step
        (SiteSteps.then_step
          (SiteSteps.then_step (SiteSteps.at_rest s) (SiteStep.adds_site s site_a))
          (SiteStep.adds_relay (add_site s site_a) relay_r))
        (SiteStep.moves_relay (add_relay (add_site s site_a) relay_r) relay_r site_a))
      (SiteStep.removes_site (move_relay (add_relay (add_site s site_a) relay_r) relay_r site_a)
        site_a)

SiteSteps-RelaysPlaced_example : RelaysPlaced (
    remove_site (move_relay (add_relay (add_site some_state site_a) relay_r) relay_r site_a) site_a)
SiteSteps-RelaysPlaced_example = SiteSteps-RelaysPlaced (some_steps some_state) (λ relay. refl)

partition-lt_example :
    (partition toy_md5 (record { partition_count = 0; shift_amount = 0 }) (7 ∷ []) 1024).0 < 1024
partition-lt_example =
    partition-lt toy_md5 (record { partition_count = 0; shift_amount = 0 }) (7 ∷ []) 1024
      toy_md5-ReturnsBytes refl (omega arith) (omega arith)

length-owners_example :
    (found : List ℕ) × (owners (λ size. 100) (1 ∷ 2 ∷ 1 ∷ []) 1 3 ≡ some found) × (length found ≡ 3)
length-owners_example = length-owners (λ size. 100) (1 ∷ 2 ∷ 1 ∷ []) 1 3 (omega arith) (omega arith)

-- A cluster without nodes, its settings known, and a third node that has nothing yet.
abbrev new_state : ClusterState
new_state = record {
  removed_nodes = [];
  nodes = [];
  tokens = [];
  partitions = [];
  cluster_settings = record { replication_factor = 3; partitions = 4 };
  sites = none;
  relays = none;
}

add_node_agrees_example :
    TokensAgree (add_node some_state (node_config 3 [] [] []))
    × HoldersAgree (add_node some_state (node_config 3 [] [] []))
    × OwnersAgree (add_node some_state (node_config 3 [] [] []))
add_node_agrees_example =
    add_node_agrees some_state (node_config 3 [] [] []) refl refl refl some_state-TokensAgree
      some_state-HoldersAgree some_state-OwnersAgree
