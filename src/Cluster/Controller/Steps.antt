-- ===== src/Cluster/Controller/Steps.antt =====
-- cluster/controller.go: `Step`.
use devicedb.Common.{
  ℕ, ◌≤◌, ◌≡◌, refl, ap, Bool, Option, none, some, List, [], ◌&&◌, not, if◌then◌else◌, ◌==◌, nat_eq,
  bytes_eq, Bytes, Bool-cases, inl, inr,
}
use devicedb.Common.Dict.{Dict, lookup, contains, insert, erase}
use devicedb.Cluster.State.{NodeConfig, ClusterState, done, and_then}
use devicedb.Cluster.Sites as Sites
use devicedb.Cluster.Sites.{or_empty}
use devicedb.Cluster.Controller.{
  ClusterController, PartitioningStrategy, notify_local_node, relay_moved,
}
use devicedb.Cluster.Controller.Commands.{
  no_such_site, no_such_relay, ClusterCommand, cluster_update_node, cluster_add_node,
  cluster_remove_node, cluster_take_partition_replica, cluster_set_replication_factor,
  cluster_set_partition_count, cluster_add_site, cluster_remove_site, cluster_add_relay,
  cluster_remove_relay, cluster_move_relay, cluster_snapshot, Result, set_state, fine, refuse,
  add_site, remove_site, add_relay, remove_relay, move_relay, run, step, publish,
}
use devicedb.Cluster.Controller.Agreement.{IsSound}
use devicedb.Cluster.Controller.Sound.{
  Answered, update_node_config-Answered, add_node-Answered, remove_node-Answered,
  take_partition_replica-Answered, set_replication_factor-Answered, set_partition_count-Answered,
}

module _ (max_slice : ℕ → ℕ) where
  -- The callers announce a node by its own id, and no setting is larger than a slice may be.
  abbrev pub IsWellFormed : ClusterCommand → Type 0
  IsWellFormed (cluster_add_node id config) = config.address.node_id ≡ id
  IsWellFormed (cluster_set_replication_factor factor) = factor ≤ max_slice 8
  IsWellFormed (cluster_set_partition_count count) = (count ≤ max_slice 8) × (count ≤ max_slice 24)
  IsWellFormed _ = Unit

  -- A change of the sites and relays alone.
  placed_Sound :
      (s : ClusterState) (sites : Option (Dict Bytes Bool)) (relays : Option (Dict Bytes Bytes))
      → IsSound max_slice s
      → IsSound max_slice (record s { sites = sites; relays = relays })
  placed_Sound s sites relays i = record {
    tokens = i.tokens;
    holders = i.holders;
    owners = i.owners;
    removed_out = i.removed_out;
    zero_out = i.zero_out;
    fits = i.fits;
    fresh = i.fresh;
  }

  remove_site-Sound :
      (s : ClusterState) (site : Bytes)
      → IsSound max_slice s
      → IsSound max_slice (Sites.remove_site s site)
  unfolding Sites.remove_site
  remove_site-Sound s site i = go s.sites
    where
      go :
          (o : Option (Dict Bytes Bool))
          → IsSound max_slice (elim o as (λ _. ClusterState) [
            | none ↦ s
            | some d ↦ record s {
              relays = elim s.relays [ none ↦ none | some rs ↦ some (Sites.detach site rs) ];
              sites = some (erase site d);
            }
          ])
      go none = i
      go (some d) = placed_Sound s _ _ i

  remove_relay-Sound :
      (s : ClusterState) (relay : Bytes)
      → IsSound max_slice s
      → IsSound max_slice (Sites.remove_relay s relay)
  unfolding Sites.remove_relay
  remove_relay-Sound s relay i = go s.relays
    where
      go :
          (o : Option (Dict Bytes Bytes))
          → IsSound max_slice (elim o as (λ _. ClusterState) [
            | none ↦ s
            | some rs ↦ record s { relays = some (erase relay rs) }
          ])
      go none = i
      go (some rs) = placed_Sound s _ _ i

  move_relay-Sound :
      (s : ClusterState) (relay site : Bytes)
      → IsSound max_slice s
      → IsSound max_slice (Sites.move_relay s relay site)
  unfolding Sites.move_relay
  move_relay-Sound s relay site i = go s.relays s.sites
    where
      moved :
          (d : Dict Bytes Bool) (rs : Dict Bytes Bytes)
          → IsSound max_slice (
              if not (contains relay rs)
              then s
              else (if not (contains site d) && not (site == [])
                  then s
                  else record s { relays = some (insert relay site rs) }))
      moved d rs = elim (Bool-cases (not (contains relay rs))) [
        | inl h ↦ rw h i
        | inr h ↦ elim (Bool-cases (not (contains site d) && not (site == []))) [
          | inl k ↦ rw (h, k) i
          | inr k ↦ rw (h, k) (placed_Sound s _ _ i)
        ]
      ]

      go :
          (o : Option (Dict Bytes Bytes)) (p : Option (Dict Bytes Bool))
          → IsSound max_slice (elim o as (λ _. ClusterState) [
            | none ↦ s
            | some rs ↦ elim p as (λ _. ClusterState) [
              | none ↦ s
              | some d ↦
                  if not (contains relay rs)
                  then s
                  else (if not (contains site d) && not (site == [])
                      then s
                      else record s { relays = some (insert relay site rs) })
            ]
          ])
      go none p = i
      go (some rs) none = i
      go (some rs) (some d) = moved d rs

  sites_and_relays-Answered :
      (c : ClusterController) (x y : Bytes)
      → IsSound max_slice c.state
      → Answered max_slice (add_site c x)
        × Answered max_slice (remove_site c x)
        × Answered max_slice (add_relay c x)
        × Answered max_slice (remove_relay c x)
        × Answered max_slice (move_relay c x y)
  unfolding add_site remove_site add_relay remove_relay move_relay Sites.add_site Sites.add_relay
  sites_and_relays-Answered c x y i = (
    elim (Bool-cases (Sites.site_exists c.state x)) [
      | inl h ↦ rw h (none, c, refl, i)
      | inr h ↦ rw h (none, _, refl, placed_Sound c.state _ _ i)
    ],
    elim (Bool-cases (Sites.site_exists c.state x)) [
      | inr h ↦ rw h (none, c, refl, i)
      | inl h ↦ rw h (none, _, refl, remove_site-Sound c.state x i)
    ],
    elim (Bool-cases (contains x (or_empty c.state.relays))) [
      | inl h ↦ rw h (none, c, refl, i)
      | inr h ↦ rw h (none, _, refl, placed_Sound c.state _ _ i)
    ],
    elim (Bool-cases (contains x (or_empty c.state.relays))) [
      | inr h ↦ rw h (none, c, refl, i)
      | inl h ↦ rw h (none, _, refl, remove_relay-Sound c.state x i)
    ],
    elim (Bool-cases (not (Sites.site_exists c.state y) && not (y == []))) [
      | inl h ↦ rw h (some no_such_site, c, refl, i)
      | inr h ↦ rw h (moved (lookup x (or_empty c.state.relays)))
    ],
  )
    where
      moved :
          (o : Option Bytes)
          → Answered max_slice (elim o as (λ _. Result) [
            | none ↦ refuse no_such_relay c
            | some at ↦
                if at == y
                then fine c
                else fine (
                    notify_local_node
                      (set_state c (Sites.move_relay c.state x y))
                      (relay_moved x y))
          ])
      moved none = (some no_such_relay, c, refl, i)
      moved (some at) = elim (Bool-cases (at == y)) [
        | inl h ↦ rw h (none, c, refl, i)
        | inr h ↦ rw h (none, _, refl, move_relay-Sound c.state x y i)
      ]

  module _ (strategy : PartitioningStrategy) (sort : List NodeConfig → List NodeConfig) where
    run-Answered :
        (command : ClusterCommand) (c : ClusterController)
        → IsWellFormed command
        → IsSound max_slice c.state
        → Answered max_slice (run strategy sort max_slice command c)
    unfolding run
    run-Answered (cluster_update_node id config) c w i =
        update_node_config-Answered max_slice strategy sort c id config i
    run-Answered (cluster_add_node id config) c w i =
        add_node-Answered max_slice strategy sort c id config w i
    run-Answered (cluster_remove_node id replacement) c w i =
        remove_node-Answered max_slice strategy sort c id replacement i
    run-Answered (cluster_take_partition_replica p r node) c w i =
        take_partition_replica-Answered max_slice strategy sort c p r node i
    run-Answered (cluster_set_replication_factor factor) c w i =
        set_replication_factor-Answered max_slice strategy sort c factor w i
    run-Answered (cluster_set_partition_count count) c w i =
        set_partition_count-Answered max_slice strategy sort c count w i
    run-Answered (cluster_add_site site) c w i = (sites_and_relays-Answered c site [] i).0
    run-Answered (cluster_remove_site site) c w i = (sites_and_relays-Answered c site [] i).1
    run-Answered (cluster_add_relay relay) c w i = (sites_and_relays-Answered c relay [] i).2
    run-Answered (cluster_remove_relay relay) c w i = (sites_and_relays-Answered c relay [] i).3
    run-Answered (cluster_move_relay relay site) c w i =
        (sites_and_relays-Answered c relay site i).4
    run-Answered cluster_snapshot c w i = (none, c, refl, i)

    -- Every command returns, with an error or none, whatever the strategy's methods return: it does not
    -- panic. If the state was sound, it is sound again: tokens, holders and owners agree with the
    -- configurations of the nodes, no removed node is a member, 0 is no node, before the settings are
    -- complete there are no tokens and partitions, and no setting is larger than a slice may be. A command
    -- that adds a node announces it by its own id, and one that sets the replication factor or the
    -- partition count gives a number that is no larger than a slice may be.
    pub step-Answered :
        (command : ClusterCommand) (c : ClusterController)
        → IsWellFormed command
        → IsSound max_slice c.state
        → Answered max_slice (step strategy sort max_slice command c)
    unfolding step
    step-Answered command c w i =
        let (e, c', r, j) = run-Answered command (record c { next_delta_set = [] }) w i in
        (
          e,
          publish c',
          ap (λ (o : Result). and_then o (λ x. done (x.0, publish x.1))) r,
          elim (Bool-cases c'.notifications_enabled) [ inl h ↦ rw h j | inr h ↦ rw h j ],
        )
