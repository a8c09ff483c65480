-- ===== src/Cluster/Controller/Takes.antt =====
-- cluster/controller.go: the command `TakePartitionReplica` and the deltas that it publishes.
use devicedb.Common.{
  ℕ, ◌≡◌, refl, sym, subst, leb, length, get_or, ◌∙◌, Bool, true, false, Option, none, some, List,
  [], ◌||◌, not, ◌==◌, nat_eq, Bool-cases, inl, inr, if◌then◌else◌,
}
use devicedb.Common.Dict.{lookup}
use devicedb.Cluster.State.Replicas.{in_map}
use devicedb.Cluster.Controller.{PartitioningStrategy, partition_owners, ClusterController}
use devicedb.Cluster.State.{
  NodeConfig, ReplicaMap, ClusterState, Outcome, done, failed, panicked, and_then,
  assign_partition_replica,
}
use devicedb.Cluster.Controller.Commands.{
  CommandError, state_error, replica_number_invalid, node_does_not_own_replica, set_state, Result,
  fine, refuse, take_partition_replica, cluster_take_partition_replica, run, step, publish,
}
use devicedb.Cluster.Controller.Deltas.{
  local_node_partition_replica_snapshot, local_node, local_diff_partition_replicas_and_notify,
}
use devicedb.Cluster.Controller.Follows.{follow, local_diff-follows}

-- A refusal returns an error, so what returns none is the last branch of the three tests.
accepted :
    (bad_number bad_owner : Bool) (e e' : CommandError) (c c' : ClusterController)
    (o : Outcome ClusterState) (after : ClusterState → ClusterController)
    → (if bad_number
        then refuse e c
        else if bad_owner
        then refuse e' c
        else elim o as (λ _. Result) [
          | failed x ↦ refuse (state_error x) c
          | panicked ↦ panicked
          | done s ↦ fine (after s)
        ])
      ≡ done (none, c')
    → (s : ClusterState) × (after s ≡ c')
accepted true b e e' c c' o after h = absurd cc
accepted false true e e' c c' o after h = absurd cc
accepted false false e e' c c' (failed x) after h = absurd cc
accepted false false e e' c c' panicked after h = absurd cc
accepted false false e e' c c' (done s) after h = (s, cc)

partition_owners-rest :
    (strategy : PartitioningStrategy) (c : ClusterController) (p : ℕ)
    → (partition_owners strategy c p).1.next_delta_set ≡ c.next_delta_set
unfolding partition_owners
partition_owners-rest strategy c p = go (lookup p c.partition_owners_cache) refl
  where
    go :
        (o : Option (List ℕ))
        → lookup p c.partition_owners_cache ≡ o
        → (partition_owners strategy c p).1.next_delta_set ≡ c.next_delta_set
    go none e = rw (e, partition_owners) refl
    go (some found) e = rw (e, partition_owners) refl

published :
    (o : Result) (c' : ClusterController)
    → and_then {B = Option CommandError × ClusterController} o (λ r. done (r.0, publish r.1))
      ≡ done (none, c')
    → (c : ClusterController) × (o ≡ done (none, c)) × (publish c ≡ c')
published (failed e) c' h = absurd cc
published panicked c' h = absurd cc
published (done (some e, c)) c' h = absurd cc
published (done (none, c)) c' h = (c, refl, cc)

-- Who follows the deltas of the controller from the snapshot on has the replicas of the local node.
abbrev IsFollowed : ReplicaMap → ℕ → ℕ → ClusterController → Type 0
IsFollowed snapshot p r c =
    (config : NodeConfig)
    → local_node c ≡ some config
    → in_map p r (follow c.next_delta_set snapshot) ≡ in_map p r config.partition_replicas

publish-IsFollowed :
    (snapshot : ReplicaMap) (p r : ℕ) (c : ClusterController)
    → IsFollowed snapshot p r c
    → IsFollowed snapshot p r (publish c)
publish-IsFollowed snapshot p r c h = elim (Bool-cases c.notifications_enabled) [
  | inl on ↦ rw on h
  | inr off ↦ rw off h
]

diff-IsFollowed :
    (c : ClusterController) (snapshot : ReplicaMap) (p r : ℕ)
    → c.next_delta_set ≡ []
    → IsFollowed snapshot p r (local_diff_partition_replicas_and_notify c snapshot)
unfolding local_diff_partition_replicas_and_notify
diff-IsFollowed c snapshot p r fresh config there =
    local_diff-follows c config snapshot p r fresh (sym (same (local_node c) refl) ∙ there)
  where
    same :
        (o : Option NodeConfig)
        → local_node c ≡ o
        → local_node (local_diff_partition_replicas_and_notify c snapshot) ≡ local_node c
    same none e = rw (local_diff_partition_replicas_and_notify, e) e
    same (some config) e = rw (local_diff_partition_replicas_and_notify, e) e

-- A successful command `TakePartitionReplica`, after which the local node is in the cluster: who held
-- the replicas that the snapshot shows of the local node before it, and follows the deltas that it
-- publishes, holds exactly those of the configuration of the local node after it.
pub take_partition_replica-follows :
    (strategy : PartitioningStrategy) (sort : List NodeConfig → List NodeConfig) (max_slice : ℕ → ℕ)
    (c c' : ClusterController) (config : NodeConfig) (p r node p' r' : ℕ)
    → step strategy sort max_slice (cluster_take_partition_replica p r node) c ≡ done (none, c')
    → local_node c' ≡ some config
    → in_map p' r' (follow c'.next_delta_set (local_node_partition_replica_snapshot c))
      ≡ in_map p' r' config.partition_replicas
unfolding step run take_partition_replica local_node_partition_replica_snapshot
take_partition_replica-follows strategy sort max_slice c c' config p r node p' r' h there =
    let snapshot = local_node_partition_replica_snapshot c in
    let cleared : ClusterController = record c { next_delta_set = [] } in
    let o = partition_owners strategy cleared p in
    let (c₁, e, same) =
      published (run strategy sort max_slice (cluster_take_partition_replica p r node) cleared) c'
        h in
    let (s, e') =
      accepted (leb (length o.0) r || length o.0 == 0) (not (get_or o.0 r 0 == node))
        replica_number_invalid node_does_not_own_replica o.1 c₁
        (assign_partition_replica o.1.state p r node)
        (λ s. local_diff_partition_replicas_and_notify (set_state o.1 s) snapshot) e in
    subst (IsFollowed snapshot p' r') same
      (publish-IsFollowed snapshot p' r' c₁ (
        subst (IsFollowed snapshot p' r') e' (
          diff-IsFollowed (set_state o.1 s) snapshot p' r'
            (partition_owners-rest strategy cleared p))))
      config there
