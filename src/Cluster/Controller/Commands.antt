-- ===== src/Cluster/Controller/Commands.antt =====
-- cluster/controller.go and cluster/command.go: the commands of the raft log. A decoded command is the
-- argument of `step`: what does not decode is refused before. A call returns the controller with an
-- error or none, or panics.
use devicedb.Common.{
  ℕ, ◌+◌, Bool, false, Option, none, some, List, [], ◌∷◌, ◌++◌, ◌&&◌, ◌||◌, not, map, Bytes, leb,
  length, get_or, if◌then◌else◌, ◌==◌, nat_eq, bytes_eq,
}
use devicedb.Common.Dict.{Dict, lookup, contains, insert, keys}
use devicedb.Cluster.State as State
use devicedb.Cluster.State.{
  NodeConfig, ClusterState, ClusterSettings, ClusterError, Outcome, done, failed, panicked,
  and_then, on_node, assign_token, assign_partition_replica,
}
use devicedb.Cluster.Removal as Removal
use devicedb.Cluster.Sites as Sites
use devicedb.Cluster.Sites.{or_empty}
use devicedb.Cluster.Start.{are_initialized, initialize}
use devicedb.Cluster.Controller.{
  ClusterController, PartitioningStrategy, ClusterStateDelta, node_add, node_remove, site_added,
  site_removed, relay_added, relay_removed, relay_moved, notify_local_node, clear_caches,
  partition_owners, local_node_owned_partition_replicas,
}
use devicedb.Cluster.Controller.Deltas.{
  local_node_token_snapshot, local_node_partition_replica_snapshot, local_diff_tokens_and_notify,
  local_diff_partition_replicas_and_notify, local_diff_owned_partition_replicas_and_notify,
}

pub data CommandError : Type 0 where
  cancel_conf_change no_such_site no_such_relay : CommandError
  node_does_not_own_replica replica_number_invalid : CommandError
  state_error : ClusterError → CommandError

pub data ClusterCommand : Type 0 where
  cluster_update_node : ℕ → NodeConfig → ClusterCommand
  cluster_add_node : ℕ → NodeConfig → ClusterCommand
  cluster_remove_node : ℕ → ℕ → ClusterCommand
  cluster_take_partition_replica : ℕ → ℕ → ℕ → ClusterCommand
  cluster_set_replication_factor : ℕ → ClusterCommand
  cluster_set_partition_count : ℕ → ClusterCommand
  cluster_add_site : Bytes → ClusterCommand
  cluster_remove_site : Bytes → ClusterCommand
  cluster_add_relay : Bytes → ClusterCommand
  cluster_remove_relay : Bytes → ClusterCommand
  cluster_move_relay : Bytes → Bytes → ClusterCommand
  cluster_snapshot : ClusterCommand

abbrev pub Result : Type 0
Result = Outcome (Option CommandError × ClusterController)

abbrev pub fine : ClusterController → Result
fine c = done (none, c)

abbrev pub refuse : CommandError → ClusterController → Result
refuse e c = done (some e, c)

abbrev pub set_state : ClusterController → ClusterState → ClusterController
set_state c s = record c { state = s }

-- A call of `AssignToken` whose error is not looked at.
abbrev pub or_unchanged : ClusterState → Outcome ClusterState → Outcome ClusterState
or_unchanged s (done s') = done s'
or_unchanged s (failed e) = done s
or_unchanged s panicked = panicked

abbrev pub try_assign : ClusterState → ℕ → ℕ → Outcome ClusterState
try_assign s node token = or_unchanged s (assign_token s node token)

-- The loops over the new assignment, from token `t` on, and over the tokens of an old owner.
unfoldable pub assign_each : ClusterState → ℕ → List ℕ → Outcome ClusterState
assign_each s t [] = done s
assign_each s t (owner ∷ owners) =
    and_then (try_assign s owner t) (λ s'. assign_each s' (t + 1) owners)

unfoldable pub assign_to : ClusterState → ℕ → List ℕ → Outcome ClusterState
assign_to s node [] = done s
assign_to s node (t ∷ ts) = and_then (try_assign s node t) (λ s'. assign_to s' node ts)

abbrev pub configs : Dict ℕ NodeConfig → List NodeConfig
configs [] = []
configs ((_, config) ∷ nodes) = config ∷ configs nodes

abbrev pub then_fine : Outcome ClusterController → Result
then_fine o = and_then o fine

-- The new owner takes the capacity of the old one, and its tokens.
abbrev pub hand_over : NodeConfig → ℕ → ClusterState → Outcome ClusterState
hand_over old new_owner s =
    and_then (on_node s.nodes new_owner (λ config. record config { capacity = old.capacity }))
      (λ nodes. assign_to (record s { nodes = nodes }) new_owner (keys old.tokens))

-- The configuration with which a node is added: it holds nothing.
abbrev pub empty_handed : NodeConfig → NodeConfig
empty_handed config = record config {
  tokens = [];
  partition_replicas = [];
  owned_partition_replicas = [];
}

-- The delta of an added node shares the maps of its configuration with the state, so that it shows the
-- tokens that the command assigns after it was told. What later commands change is left out.
abbrev pub share_delta : NodeConfig → ClusterStateDelta → ClusterStateDelta
share_delta config (node_add id told) = node_add id (record told {
  tokens = config.tokens;
  partition_replicas = config.partition_replicas;
  owned_partition_replicas = config.owned_partition_replicas;
})
share_delta config delta = delta

abbrev pub share_maps : ℕ → ClusterController → ClusterController
share_maps id c = elim (lookup id c.state.nodes) [
  | none ↦ c
  | some config ↦ record c { next_delta_set = map (share_delta config) c.next_delta_set }
]

abbrev pub set_settings : ClusterController → ClusterSettings → ClusterController
set_settings c settings = set_state c (record c.state { cluster_settings = settings })

unfoldable pub add_site : ClusterController → Bytes → Result
add_site c site =
    if Sites.site_exists c.state site
    then fine c
    else fine (notify_local_node (set_state c (Sites.add_site c.state site)) (site_added site))

unfoldable pub remove_site : ClusterController → Bytes → Result
remove_site c site =
    if not (Sites.site_exists c.state site)
    then fine c
    else fine (notify_local_node (set_state c (Sites.remove_site c.state site)) (site_removed site))

unfoldable pub add_relay : ClusterController → Bytes → Result
add_relay c relay =
    if contains relay (or_empty c.state.relays)
    then fine c
    else fine (notify_local_node (set_state c (Sites.add_relay c.state relay)) (relay_added relay))

unfoldable pub remove_relay : ClusterController → Bytes → Result
remove_relay c relay =
    if not (contains relay (or_empty c.state.relays))
    then fine c
    else fine
        (notify_local_node (set_state c (Sites.remove_relay c.state relay)) (relay_removed relay))

unfoldable pub move_relay : ClusterController → Bytes → Bytes → Result
move_relay c relay site =
    if not (Sites.site_exists c.state site) && not (site == [])
    then refuse no_such_site c
    else elim (lookup relay (or_empty c.state.relays)) [
      | none ↦ refuse no_such_relay c
      | some at ↦
          if at == site
          then fine c
          else fine (
              notify_local_node (set_state c (Sites.move_relay c.state relay site))
                (relay_moved relay site))
    ]

-- The deltas of the command go to the local updates, if they are wanted.
abbrev pub publish : ClusterController → ClusterController
publish c =
    if c.notifications_enabled
    then record c { local_updates = c.local_updates ++ (c.next_delta_set ∷ []) }
    else c

-- The tests of `RemoveNode` on the replacement: it is no node, it has tokens, or it is the node itself.
abbrev pub holds_tokens : ClusterController → ℕ → Bool
holds_tokens c node = elim (lookup node c.state.nodes) [
  | none ↦ false
  | some config ↦ not (length config.tokens == 0)
]

abbrev pub replacement_refused : ClusterController → ℕ → ℕ → Bool
replacement_refused c id replacement =
    (not (contains replacement c.state.nodes) && not (replacement == 0))
    || (holds_tokens c replacement || replacement == id)

module _ (strategy : PartitioningStrategy) (sort : List NodeConfig → List NodeConfig)
    (max_slice : ℕ → ℕ) where
  -- What `assignTokens` and `reassignTokens` share: the snapshots before a change of the tokens, the
  -- change, and the deltas after it.
  abbrev pub diffing_tokens :
      ClusterController → (ClusterState → Outcome ClusterState) → Outcome ClusterController
  diffing_tokens c change =
      let (owned, c') = local_node_owned_partition_replicas strategy (clear_caches c) in
      let token_snapshot = local_node_token_snapshot c' in
      let c'' = clear_caches c' in
      and_then (change c''.state) (λ s. done (
        local_diff_owned_partition_replicas_and_notify strategy
          (local_diff_tokens_and_notify (set_state c'' s) token_snapshot) owned))

  unfoldable pub assign_tokens : ClusterController → Outcome ClusterController
  assign_tokens c =
      let assignment =
        strategy.assign_tokens (sort (configs c.state.nodes)) c.state.tokens
          c.state.cluster_settings.partitions in
      diffing_tokens c (λ s. assign_each s 0 (elim assignment [ none ↦ [] | some a ↦ a ]))

  unfoldable pub assign_tokens_if_initialized : ClusterController → Outcome ClusterController
  unfolding assign_tokens
  assign_tokens_if_initialized c =
      if are_initialized c.state.cluster_settings then assign_tokens c else done c

  unfoldable pub reassign_tokens : ClusterController → NodeConfig → ℕ → Outcome ClusterController
  reassign_tokens c old new_owner = diffing_tokens c (hand_over old new_owner)

  unfoldable pub update_node_config : ClusterController → ℕ → NodeConfig → Result
  unfolding assign_tokens_if_initialized
  update_node_config c id config = elim (lookup id c.state.nodes) [
    | none ↦ fine c
    | some current ↦
        (let updated = record current {
          address = record current.address {
            host = config.address.host;
            port = config.address.port;
          };
          capacity = config.capacity;
        } in
          let c' = set_state c (record c.state { nodes = insert id updated c.state.nodes }) in
          if config.capacity == current.capacity
          then fine c'
          else then_fine (assign_tokens_if_initialized c'))
  ]

  unfoldable pub add_node : ClusterController → ℕ → NodeConfig → Result
  unfolding assign_tokens_if_initialized
  add_node c id config =
      if contains id c.state.nodes
      then refuse cancel_conf_change c
      else if contains id c.state.removed_nodes
      then refuse cancel_conf_change c
      else (let c' = set_state c (State.add_node c.state (empty_handed config)) in
          and_then
            (assign_tokens_if_initialized (
              if id == c.local_node_id
              then notify_local_node c' (node_add c.local_node_id (empty_handed config))
              else c'))
            (λ c''. fine (
              if not (contains config.address.node_id c.state.nodes)
              then share_maps config.address.node_id c''
              else c'')))

  -- `RemoveNode` of a node of the cluster, once the replacement is accepted.
  unfoldable pub remove_member : ClusterController → ℕ → ℕ → NodeConfig → Result
  unfolding reassign_tokens assign_tokens_if_initialized
  remove_member c id replacement config =
      and_then (if not (replacement == 0) then reassign_tokens c config replacement else done c)
        (λ c'. and_then (Removal.remove_node c'.state id) (λ s.
          and_then
            (if replacement == 0
              then assign_tokens_if_initialized (set_state c' s)
              else done (set_state c' s))
            (λ c''. fine (
              if id == c.local_node_id
              then notify_local_node c'' (node_remove c.local_node_id)
              else c''))))

  unfoldable pub remove_node : ClusterController → ℕ → ℕ → Result
  unfolding remove_member
  remove_node c id replacement =
      if replacement_refused c id replacement
      then refuse cancel_conf_change c
      else elim (lookup id c.state.nodes) [
        | none ↦ fine c
        | some config ↦ remove_member c id replacement config
      ]

  unfoldable pub take_partition_replica : ClusterController → ℕ → ℕ → ℕ → Result
  take_partition_replica c p r node =
      let snapshot = local_node_partition_replica_snapshot c in
      let (owners, c') = partition_owners strategy c p in
      if leb (length owners) r || length owners == 0
      then refuse replica_number_invalid c'
      else if not (get_or owners r 0 == node)
      then refuse node_does_not_own_replica c'
      else elim (assign_partition_replica c'.state p r node) [
        | failed e ↦ refuse (state_error e) c'
        | panicked ↦ panicked
        | done s ↦ fine (local_diff_partition_replicas_and_notify (set_state c' s) snapshot)
      ]

  unfoldable pub initialize_cluster_if_ready : ClusterController → Outcome ClusterController
  unfolding assign_tokens
  initialize_cluster_if_ready c =
      if not (are_initialized c.state.cluster_settings)
      then done c
      else and_then (initialize max_slice c.state) (λ s. assign_tokens (set_state c s))

  unfoldable pub set_replication_factor : ClusterController → ℕ → Result
  unfolding initialize_cluster_if_ready
  set_replication_factor c factor =
      let settings = c.state.cluster_settings in
      if not (settings.replication_factor == 0)
      then fine c
      else then_fine (
          initialize_cluster_if_ready
            (set_settings c (record settings { replication_factor = factor })))

  unfoldable pub set_partition_count : ClusterController → ℕ → Result
  unfolding initialize_cluster_if_ready
  set_partition_count c count =
      let settings = c.state.cluster_settings in
      if not (settings.partitions == 0)
      then fine c
      else then_fine
          (initialize_cluster_if_ready (set_settings c (record settings { partitions = count })))

  unfoldable pub run : ClusterCommand → ClusterController → Result
  unfolding update_node_config add_node remove_node take_partition_replica set_replication_factor
      set_partition_count add_site remove_site add_relay remove_relay move_relay
  run (cluster_update_node id config) c = update_node_config c id config
  run (cluster_add_node id config) c = add_node c id config
  run (cluster_remove_node id replacement) c = remove_node c id replacement
  run (cluster_take_partition_replica p r node) c = take_partition_replica c p r node
  run (cluster_set_replication_factor factor) c = set_replication_factor c factor
  run (cluster_set_partition_count count) c = set_partition_count c count
  run (cluster_add_site site) c = add_site c site
  run (cluster_remove_site site) c = remove_site c site
  run (cluster_add_relay relay) c = add_relay c relay
  run (cluster_remove_relay relay) c = remove_relay c relay
  run (cluster_move_relay relay site) c = move_relay c relay site
  run cluster_snapshot c = fine c

  unfoldable pub step : ClusterCommand → ClusterController → Result
  unfolding run
  step command c =
      and_then (run command (record c { next_delta_set = [] })) (λ r. done (r.0, publish r.1))
