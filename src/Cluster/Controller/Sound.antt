-- ===== src/Cluster/Controller/Sound.antt =====
-- cluster/controller.go: no command panics, and every command keeps the cluster state sound.
use mathlib.Core.Bool.{false≢true}
use devicedb.Common.{
  map, ◌≤◌, ℕ, zero, suc, ◌+◌, ◌≡◌, refl, sym, ap, ◌∙◌, subst, arith, Bool, true, false, Option,
  none, some, List, [], ◌||◌, not, if◌then◌else◌, length, get_or, leb, ◌==◌, nat_eq, bytes_eq,
  Bool-cases, inl, inr,
}
use devicedb.Common.Dict.{Dict, lookup, contains, insert, keys}
use devicedb.Cluster.State.{
  NodeConfig, ClusterState, ClusterSettings, Outcome, done, panicked, and_then, ReplicaMap,
}
use devicedb.Cluster.Removal as Removal
use devicedb.Cluster.Start.{are_initialized, Fits}
use devicedb.Cluster.Controller.{
  ClusterController, PartitioningStrategy, node_remove, notify_local_node, clear_caches,
  partition_owners, owned_from, mark_owned, local_node_owned_partition_replicas,
}
use devicedb.Cluster.Controller.Deltas.{
  local_node, local_node_token_snapshot, local_diff_tokens_and_notify,
  local_diff_partition_replicas_and_notify, local_diff_owned_partition_replicas_and_notify,
}
use devicedb.Cluster.Controller.Commands.{
  CommandError, cancel_conf_change, Result, set_state, fine, configs, assign_each, assign_to,
  diffing_tokens, assign_tokens, assign_tokens_if_initialized, hand_over, reassign_tokens,
  update_node_config, add_node, empty_handed, replacement_refused, remove_member, remove_node,
  take_partition_replica, initialize_cluster_if_ready, set_settings, share_delta, share_maps,
  set_replication_factor, set_partition_count,
}
use devicedb.Cluster.Controller.Agreement.{
  IsSound, Sound, assign_each-Sound, assign_to-Sound, replaced-Sound,
}
use devicedb.Cluster.Controller.Members.{
  initialize-Sound, settings-Sound, add_node-Sound, remove_node-Sound,
  assign_partition_replica-Sound,
}

module _ (max_slice : ℕ → ℕ) where
  -- The call returns a controller with a sound state; the same for a call that may refuse.
  abbrev Kept : Outcome ClusterController → Type 0
  Kept o = (c : ClusterController) × (o ≡ done c) × IsSound max_slice c.state

  abbrev pub Answered : Result → Type 0
  Answered o =
      (e : Option CommandError) × (c : ClusterController) × (o ≡ done (e, c))
      × IsSound max_slice c.state

  then_fine-Answered : (o : Outcome ClusterController) → Kept o → Answered (and_then o fine)
  then_fine-Answered o (c, e, i) =
      (none, c, ap (λ (o : Outcome ClusterController). and_then o fine) e, i)

  share_maps_state : (id : ℕ) (c : ClusterController) → (share_maps id c).state ≡ c.state
  share_maps_state id c = go (lookup id c.state.nodes)
    where
      go :
          (o : Option NodeConfig)
          → (elim o as (λ _. ClusterController) [
            | none ↦ c
            | some config ↦ record c { next_delta_set = map (share_delta config) c.next_delta_set }
          ]).state
            ≡ c.state
      go none = refl
      go (some config) = refl

  then_shared-Answered :
      (shared : Bool) (id : ℕ) (o : Outcome ClusterController)
      → Kept o
      → Answered (and_then o (λ c. fine (if shared then share_maps id c else c)))
  then_shared-Answered true id o (c, e, i) = (
    none,
    share_maps id c,
    ap (λ (o : Outcome ClusterController). and_then o (λ c. fine (share_maps id c))) e,
    subst (IsSound max_slice) (sym (share_maps_state id c)) i,
  )
  then_shared-Answered false id o (c, e, i) =
      (none, c, ap (λ (o : Outcome ClusterController). and_then o fine) e, i)

  -- The caches and the deltas leave the state alone.
  module _ (strategy : PartitioningStrategy) where
    partition_owners_state :
        (c : ClusterController) (p : ℕ) → (partition_owners strategy c p).1.state ≡ c.state
    unfolding partition_owners
    partition_owners_state c p = go (lookup p c.partition_owners_cache) refl
      where
        go :
            (o : Option (List ℕ))
            → lookup p c.partition_owners_cache ≡ o
            → (partition_owners strategy c p).1.state ≡ c.state
        go none e = rw (e, partition_owners) refl
        go (some found) e = rw (e, partition_owners) refl

    owned_from_state :
        (n p : ℕ) (m : ReplicaMap) (c : ClusterController)
        → (owned_from strategy n p m c).1.state ≡ c.state
    unfolding owned_from
    owned_from_state zero p m c = refl
    owned_from_state (suc n) p m c =
        owned_from_state n (p + 1)
          (mark_owned c.local_node_id p 0 (partition_owners strategy c p).0 m)
          (partition_owners strategy c p).1
        ∙ partition_owners_state c p

    owned_state :
        (c : ClusterController) → (local_node_owned_partition_replicas strategy c).1.state ≡ c.state
    unfolding local_node_owned_partition_replicas
    owned_state c = elim (Bool-cases (are_initialized c.state.cluster_settings)) [
      | inr h ↦ rw h refl
      | inl h ↦ go c.local_node_owned_partition_replica_cache refl h
    ]
      where
        go :
            (o : Option ReplicaMap)
            → c.local_node_owned_partition_replica_cache ≡ o
            → are_initialized c.state.cluster_settings ≡ true
            → (local_node_owned_partition_replicas strategy c).1.state ≡ c.state
        go none e h = rw (h, e) (owned_from_state (length c.state.tokens) 0 [] c)
        go (some m) e h = rw (h, e) refl

    diff_tokens_state :
        (c : ClusterController) (snapshot : Dict ℕ Bool)
        → (local_diff_tokens_and_notify c snapshot).state ≡ c.state
    unfolding local_diff_tokens_and_notify
    diff_tokens_state c snapshot = go (local_node c) refl
      where
        go :
            (o : Option NodeConfig)
            → local_node c ≡ o
            → (local_diff_tokens_and_notify c snapshot).state ≡ c.state
        go none e = rw (e, local_diff_tokens_and_notify) refl
        go (some config) e = rw (e, local_diff_tokens_and_notify) refl

    diff_replicas_state :
        (c : ClusterController) (snapshot : ReplicaMap)
        → (local_diff_partition_replicas_and_notify c snapshot).state ≡ c.state
    unfolding local_diff_partition_replicas_and_notify
    diff_replicas_state c snapshot = go (local_node c) refl
      where
        go :
            (o : Option NodeConfig)
            → local_node c ≡ o
            → (local_diff_partition_replicas_and_notify c snapshot).state ≡ c.state
        go none e = rw (e, local_diff_partition_replicas_and_notify) refl
        go (some config) e = rw (e, local_diff_partition_replicas_and_notify) refl

    diff_owned_state :
        (c : ClusterController) (snapshot : ReplicaMap)
        → (local_diff_owned_partition_replicas_and_notify strategy c snapshot).state ≡ c.state
    unfolding local_diff_owned_partition_replicas_and_notify
    diff_owned_state c snapshot = owned_state c

    diffing_tokens-Kept :
        (sort : List NodeConfig → List NodeConfig) (c : ClusterController)
        (change : ClusterState → Outcome ClusterState)
        → Sound max_slice (change c.state)
        → Kept (diffing_tokens strategy sort max_slice c change)
    diffing_tokens-Kept sort c change (s, e, i) =
        let e' : change (local_node_owned_partition_replicas strategy (clear_caches c)).1.state
            ≡ done s =
          ap change (owned_state (clear_caches c)) ∙ e in
        let o = (local_node_owned_partition_replicas strategy (clear_caches c)) in
        let after : ClusterState → ClusterController = λ s.
          local_diff_owned_partition_replicas_and_notify strategy
            (local_diff_tokens_and_notify (set_state (clear_caches o.1) s)
              (local_node_token_snapshot o.1))
            o.0 in
        (
          after s,
          ap (λ (r : Outcome ClusterState). and_then r (λ s. done (after s))) e',
          subst (IsSound max_slice)
              (sym (diff_owned_state _ o.0 ∙ diff_tokens_state (set_state (clear_caches o.1) s) _))
              i,
        )

  -- Settings of which one is missing are not complete.
  unreplicated :
      (settings : ClusterSettings)
      → (settings.replication_factor == 0) ≡ true
      → are_initialized settings ≡ false
  unfolding are_initialized
  unreplicated settings h = rw h refl

  uncounted :
      (settings : ClusterSettings)
      → (settings.partitions == 0) ≡ true
      → are_initialized settings ≡ false
  unfolding are_initialized
  uncounted settings h = rw h (ground arith)

  module _ (strategy : PartitioningStrategy) (sort : List NodeConfig → List NodeConfig) where
    assign_tokens-Kept :
        (c : ClusterController)
        → IsSound max_slice c.state
        → Kept (assign_tokens strategy sort max_slice c)
    unfolding assign_tokens
    assign_tokens-Kept c i =
        let assignment : Option (List ℕ) =
          strategy.assign_tokens (sort (configs c.state.nodes)) c.state.tokens
            c.state.cluster_settings.partitions in
        let owners : List ℕ = elim assignment [ none ↦ [] | some a ↦ a ] in
        diffing_tokens-Kept strategy sort c (λ s. assign_each s 0 owners)
          (assign_each-Sound max_slice owners c.state 0 i)

    if_initialized-Kept :
        (c : ClusterController)
        → IsSound max_slice c.state
        → Kept (assign_tokens_if_initialized strategy sort max_slice c)
    unfolding assign_tokens_if_initialized
    if_initialized-Kept c i = elim (Bool-cases (are_initialized c.state.cluster_settings)) [
      | inl h ↦ rw h (assign_tokens-Kept c i)
      | inr h ↦ rw h (c, refl, i)
    ]

    pub update_node_config-Answered :
        (c : ClusterController) (id : ℕ) (config : NodeConfig)
        → IsSound max_slice c.state
        → Answered (update_node_config strategy sort max_slice c id config)
    unfolding update_node_config
    update_node_config-Answered c id config i = go (lookup id c.state.nodes) refl
      where
        go :
            (o : Option NodeConfig)
            → lookup id c.state.nodes ≡ o
            → Answered (update_node_config strategy sort max_slice c id config)
        go none e = (none, c, rw (e, update_node_config) refl, i)
        go (some current) e =
            let updated : NodeConfig = record current {
              address = record current.address {
                host = config.address.host;
                port = config.address.port;
              };
              capacity = config.capacity;
            } in
            let c' = set_state c (record c.state { nodes = insert id updated c.state.nodes }) in
            let i' = replaced-Sound max_slice c.state id current updated i e refl refl refl in
            rw (e, update_node_config)
              (elim (Bool-cases (config.capacity == current.capacity)) [
                | inl h ↦ rw h (none, c', refl, i')
                | inr h ↦ rw h (then_fine-Answered _ (if_initialized-Kept c' i'))
              ])

    pub add_node-Answered :
        (c : ClusterController) (id : ℕ) (config : NodeConfig)
        → config.address.node_id ≡ id
        → IsSound max_slice c.state
        → Answered (add_node strategy sort max_slice c id config)
    unfolding add_node
    add_node-Answered c id config same i = elim (Bool-cases (contains id c.state.nodes)) [
      | inl h ↦ rw h (some cancel_conf_change, c, refl, i)
      | inr h ↦ elim (Bool-cases (contains id c.state.removed_nodes)) [
        | inl k ↦ rw (h, k) (some cancel_conf_change, c, refl, i)
        | inr k ↦
            let i' =
              add_node-Sound max_slice c.state (empty_handed config) i refl refl refl
                (ap (λ n. contains n c.state.removed_nodes) same ∙ k) in
            elim (Bool-cases (id == c.local_node_id)) [
              | inl l ↦ rw (h, k, l) (then_shared-Answered _ _ _ (if_initialized-Kept _ i'))
              | inr l ↦ rw (h, k, l) (then_shared-Answered _ _ _ (if_initialized-Kept _ i'))
            ]
      ]
    ]

    hand_over-Sound :
        (s : ClusterState) (old : NodeConfig) (new_owner : ℕ)
        → IsSound max_slice s
        → contains new_owner s.nodes ≡ true
        → Sound max_slice (hand_over old new_owner s)
    hand_over-Sound s old new_owner i there = go (lookup new_owner s.nodes) refl
      where
        go :
            (o : Option NodeConfig)
            → lookup new_owner s.nodes ≡ o
            → Sound max_slice (hand_over old new_owner s)
        go none e = absurd (
            false≢true (
              ap (λ (o : Option NodeConfig). elim o as (λ _. Bool) [ none ↦ false | some _ ↦ true ])
                (sym e)
              ∙ there))
        go (some current) e =
            let nodes' = insert new_owner (record current { capacity = old.capacity }) s.nodes in
            let (s', e', i') =
              assign_to-Sound max_slice (keys old.tokens) (record s { nodes = nodes' }) new_owner
                (replaced-Sound max_slice s new_owner current _ i e refl refl refl) in
            (
              s',
              ap
                    (λ (o : Option NodeConfig).
                      and_then
                        (elim o as (λ _. Outcome (Dict ℕ NodeConfig)) [
                          | none ↦ panicked
                          | some c ↦
                              done (insert new_owner (record c { capacity = old.capacity }) s.nodes)
                        ])
                        (λ nodes.
                          assign_to (record s { nodes = nodes }) new_owner (keys old.tokens)))
                    e
                  ∙ e',
              i',
            )

    -- `RemoveNode` of the state, whether or not the node is a member.
    removed-Sound :
        (s : ClusterState) (id : ℕ)
        → IsSound max_slice s
        → Sound max_slice (Removal.remove_node s id)
    unfolding Removal.remove_node
    removed-Sound s id i = go (lookup id s.nodes) refl
      where
        go :
            (o : Option NodeConfig)
            → lookup id s.nodes ≡ o
            → Sound max_slice (Removal.remove_node s id)
        go none e = (s, rw (e, Removal.remove_node) refl, i)
        go (some c) e = remove_node-Sound max_slice s id c i e

    -- `RemoveNode`, once its replacement is accepted.
    remove_member-Answered :
        (c : ClusterController) (id replacement : ℕ) (config : NodeConfig)
        → ((replacement == 0) ≡ false → contains replacement c.state.nodes ≡ true)
        → IsSound max_slice c.state
        → Answered (remove_member strategy sort max_slice c id replacement config)
    unfolding remove_member reassign_tokens
    remove_member-Answered c id replacement config there i = elim (Bool-cases (replacement == 0)) [
      | inl zero_id ↦
          let (s, e, j) = removed-Sound c.state id i in
          let (c', e', k) = if_initialized-Kept (set_state c s) j in
          rw (zero_id, e) (rw e' (told c' k))
      | inr pos ↦
          let (c', e, j) =
            diffing_tokens-Kept strategy sort c (hand_over config replacement)
              (hand_over-Sound c.state config replacement i (there pos)) in
          let (s, e', k) = removed-Sound c'.state id j in
          rw pos (rw e (rw e' (told (set_state c' s) k)))
    ]
      where
        told :
            (c' : ClusterController)
            → IsSound max_slice c'.state
            → Answered (
                fine (
                  if id == c.local_node_id
                  then notify_local_node c' (node_remove c.local_node_id)
                  else c'))
        told c' k = elim (Bool-cases (id == c.local_node_id)) [
          | inl h ↦ rw h (none, notify_local_node c' (node_remove c.local_node_id), refl, k)
          | inr h ↦ rw h (none, c', refl, k)
        ]

    pub remove_node-Answered :
        (c : ClusterController) (id replacement : ℕ)
        → IsSound max_slice c.state
        → Answered (remove_node strategy sort max_slice c id replacement)
    unfolding remove_node
    remove_node-Answered c id replacement i =
        elim (Bool-cases (replacement_refused c id replacement)) [
          | inl h ↦ rw h (some cancel_conf_change, c, refl, i)
          | inr h ↦ rw h (go (lookup id c.state.nodes) (there h))
        ]
      where
        there :
            replacement_refused c id replacement ≡ false
            → (replacement == 0) ≡ false
            → contains replacement c.state.nodes ≡ true
        there h z = ground (arith, h, z)

        go :
            (o : Option NodeConfig)
            → ((replacement == 0) ≡ false → contains replacement c.state.nodes ≡ true)
            → Answered (elim o as (λ _. Result) [
              | none ↦ fine c
              | some config ↦ remove_member strategy sort max_slice c id replacement config
            ])
        go none h = (none, c, refl, i)
        go (some config) h = remove_member-Answered c id replacement config h i

    pub take_partition_replica-Answered :
        (c : ClusterController) (p r node : ℕ)
        → IsSound max_slice c.state
        → Answered (take_partition_replica strategy sort max_slice c p r node)
    unfolding take_partition_replica
    take_partition_replica-Answered c p r node i =
        let o = partition_owners strategy c p in
        let j : IsSound max_slice o.1.state =
          subst (IsSound max_slice) (sym (partition_owners_state strategy c p)) i in
        elim (Bool-cases (leb (length o.0) r || length o.0 == 0)) [
          | inl h ↦ rw h (_, o.1, refl, j)
          | inr h ↦ elim (Bool-cases (not (get_or o.0 r 0 == node))) [
            | inl k ↦ rw (h, k) (_, o.1, refl, j)
            | inr k ↦ elim (assign_partition_replica-Sound max_slice o.1.state p r node j) [
              | inl (e, f) ↦ rw (h, k, f) (_, o.1, refl, j)
              | inr (s, e, l) ↦
                  rw (h, k, e)
                    (
                      _,
                      _,
                      refl,
                      subst (IsSound max_slice)
                          (sym (diff_replicas_state strategy (set_state o.1 s) _)) l,
                    )
            ]
          ]
        ]

    ready-Kept :
        (c : ClusterController) (settings : ClusterSettings)
        → IsSound max_slice c.state
        → are_initialized c.state.cluster_settings ≡ false
        → Fits max_slice settings
        → Kept (initialize_cluster_if_ready strategy sort max_slice (set_settings c settings))
    unfolding initialize_cluster_if_ready
    ready-Kept c settings i before fits = elim (Bool-cases (are_initialized settings)) [
      | inr h ↦ rw h (_, refl, settings-Sound max_slice c.state settings i before fits)
      | inl h ↦
          let (s, e, j) = initialize-Sound max_slice c.state settings i before h fits in
          rw (h, e) (assign_tokens-Kept (set_state c s) j)
    ]

    pub set_replication_factor-Answered :
        (c : ClusterController) (factor : ℕ)
        → factor ≤ max_slice 8
        → IsSound max_slice c.state
        → Answered (set_replication_factor strategy sort max_slice c factor)
    unfolding set_replication_factor
    set_replication_factor-Answered c factor fits i =
        elim (Bool-cases (c.state.cluster_settings.replication_factor == 0)) [
          | inr h ↦ rw h (none, c, refl, i)
          | inl h ↦ rw h (
              then_fine-Answered _ (
                ready-Kept c _ i (unreplicated c.state.cluster_settings h)
                  (i.fits.0, i.fits.1, fits)))
        ]

    pub set_partition_count-Answered :
        (c : ClusterController) (count : ℕ)
        → (count ≤ max_slice 8) × (count ≤ max_slice 24)
        → IsSound max_slice c.state
        → Answered (set_partition_count strategy sort max_slice c count)
    unfolding set_partition_count
    set_partition_count-Answered c count fits i =
        elim (Bool-cases (c.state.cluster_settings.partitions == 0)) [
          | inr h ↦ rw h (none, c, refl, i)
          | inl h ↦ rw h (
              then_fine-Answered _ (
                ready-Kept c _ i (uncounted c.state.cluster_settings h) (fits.0, fits.1, i.fits.2)))
        ]
