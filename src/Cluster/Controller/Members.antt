-- ===== src/Cluster/Controller/Members.antt =====
-- cluster/state.go under the commands of cluster/controller.go: the changes of members, settings and
-- replicas.
use mathlib.Core.Bool.{false≢true}
use devicedb.Common.{
  ℕ, ◌≡◌, ◌<◌, refl, sym, ap, subst, ◌∙◌, arith, Bool, true, false, some, List, [], ◌∷◌, ◌&&◌, not,
  if◌then◌else◌, length, get_or, length-set, leb, ◌==◌, nat_eq, Bool-cases, ◌⊎◌, inl, inr, eqb_iff,
}
use devicedb.Common.Dict.{lookup, contains, lookup-insert}
use devicedb.Cluster.State.{
  NodeConfig, ClusterState, ClusterSettings, ClusterError, failed, PartitionReplica, replica_at,
  set_replica, no_replica, add_node, assign_partition_replica, take_partition_replica,
  relinquish_partition_replica, ReplicaMap, take, relinquish, no_such_partition, no_such_node,
  no_such_replica,
}
use devicedb.Cluster.State.Marks.{marks, marks-insert, marks_unchanged}
use devicedb.Cluster.State.Replicas.{
  in_map, move_replica_runs, same_cell, cell_eq, replica_at-set_self, replica_at-set_ne,
}
use devicedb.Cluster.State.Moves.{holder_of}
use devicedb.Cluster.Start.{
  are_initialized, initialize, Fits, no_panic, add_node_agrees, new_partitions-unassigned,
  get_or-replicate,
}
use devicedb.Cluster.Removal.{remove_node}
use devicedb.Cluster.Removal.Keeps.{remove_node_agrees, remove_node_rest}
use devicedb.Cluster.Controller.Agreement.{IsSound, Sound}

module _ (max_slice : ℕ → ℕ) where
  get_or_empty : (ts : List ℕ) (t : ℕ) → length ts ≡ 0 → get_or ts t 0 ≡ 0
  get_or_empty [] t e = refl
  get_or_empty (x ∷ ts) t e = absurd (omega arith)

  replica_at_empty :
      (cells : List (List PartitionReplica)) (p r : ℕ)
      → length cells ≡ 0
      → replica_at cells p r ≡ no_replica
  replica_at_empty [] p r e = refl
  replica_at_empty (x ∷ cells) p r e = absurd (omega arith)

  -- `Initialize`, when a command completes the settings.
  pub initialize-Sound :
      (s : ClusterState) (settings : ClusterSettings)
      → IsSound max_slice s
      → are_initialized s.cluster_settings ≡ false
      → are_initialized settings ≡ true
      → Fits max_slice settings
      → Sound max_slice (initialize max_slice (record s { cluster_settings = settings }))
  unfolding initialize
  initialize-Sound s settings i before now fits =
      let (no_tokens, no_cells) = i.fresh before in
      rw (now, no_panic max_slice settings fits)
        (
          _,
          refl,
          record {
            tokens = λ n t.
                i.tokens n t
                ∙ ap (λ k. not (n == 0) && (k == n))
                    (get_or_empty s.tokens t no_tokens
                      ∙ sym (get_or-replicate settings.partitions t));
            holders = λ n p r.
                i.holders n p r
                ∙ ap (λ k. not (n == 0) && (k == n))
                    (ap (λ x. x.holder) (replica_at_empty s.partitions p r no_cells)
                      ∙ sym
                          (new_partitions-unassigned settings.replication_factor 0
                            settings.partitions p r).0);
            owners = λ n p r.
                i.owners n p r
                ∙ ap (λ k. not (n == 0) && (k == n))
                    (ap (λ x. x.owner) (replica_at_empty s.partitions p r no_cells)
                      ∙ sym
                          (new_partitions-unassigned settings.replication_factor 0
                            settings.partitions p r).1);
            removed_out = i.removed_out;
            zero_out = i.zero_out;
            fits = fits;
            fresh = λ h. cc;
          },
        )

  -- Settings that are still not complete.
  pub settings-Sound :
      (s : ClusterState) (settings : ClusterSettings)
      → IsSound max_slice s
      → are_initialized s.cluster_settings ≡ false
      → Fits max_slice settings
      → IsSound max_slice (record s { cluster_settings = settings })
  settings-Sound s settings i before fits = record {
    fits = fits;
    tokens = i.tokens;
    holders = i.holders;
    owners = i.owners;
    removed_out = i.removed_out;
    zero_out = i.zero_out;
    fresh = λ _. i.fresh before;
  }

  -- `AddNode` of a node that was not removed, and holds nothing.
  pub add_node-Sound :
      (s : ClusterState) (c : NodeConfig)
      → IsSound max_slice s
      → c.tokens ≡ []
      → c.partition_replicas ≡ []
      → c.owned_partition_replicas ≡ []
      → contains c.address.node_id s.removed_nodes ≡ false
      → IsSound max_slice (add_node s c)
  unfolding add_node
  add_node-Sound s c i a b d not_removed =
      let (tokens, holders, owners) = add_node_agrees s c a b d i.tokens i.holders i.owners in
      elim (Bool-cases (c.address.node_id == 0)) [
        | inl zero_id ↦ rw zero_id i
        | inr pos ↦ elim (Bool-cases (contains c.address.node_id s.nodes)) [
          | inl member ↦ rw (pos, member) i
          | inr new ↦
              rw (pos, new)
                (record {
                  tokens = rw (pos, new) at tokens;
                  holders = rw (pos, new) at holders;
                  owners = rw (pos, new) at owners;
                  removed_out =
                      λ n h. marks-insert (λ _. true) c.address.node_id c s.nodes n ∙ other n h;
                  zero_out =
                      marks-insert (λ _. true) c.address.node_id c s.nodes 0
                      ∙ ground (arith, i.zero_out, pos);
                  fits = i.fits;
                  fresh = i.fresh;
                })
        ]
      ]
    where
      other :
          (n : ℕ)
          → contains n s.removed_nodes ≡ true
          → (if c.address.node_id == n then true else contains n s.nodes) ≡ false
      other n h = elim (Bool-cases (c.address.node_id == n)) [
        | inl y ↦
            let e = ap (λ k. contains k s.removed_nodes) ((eqb_iff c.address.node_id n).0 y) in
            absurd (false≢true (sym not_removed ∙ e ∙ h))
        | inr z ↦ rw z (i.removed_out n h)
      ]

  pub remove_node-Sound :
      (s : ClusterState) (node : ℕ) (c : NodeConfig)
      → IsSound max_slice s
      → lookup node s.nodes ≡ some c
      → Sound max_slice (remove_node s node)
  remove_node-Sound s node c i there =
      let (s', e, gone, holders, owners, tokens) =
        remove_node_agrees s node c there i.holders i.owners i.tokens in
      let (removed, settings, token_count, cell_count, members) =
        remove_node_rest s node c there i.holders i.owners i.tokens s' e in
      (
        s',
        e,
        record {
          tokens = tokens;
          holders = holders;
          owners = owners;
          removed_out = λ n h.
              members n
              ∙ ground (
                arith,
                ap (contains n) removed,
                h,
                i.removed_out n,
                lookup-insert node n true s.removed_nodes,
              );
          zero_out = members 0 ∙ ground (arith, i.zero_out);
          fits = subst (Fits max_slice) (sym settings) i.fits;
          fresh = λ h.
              let (x, y) = i.fresh (ap are_initialized (sym settings) ∙ h) in
              (token_count ∙ x, cell_count ∙ y);
        },
      )

  -- A write of the holder leaves the owners.
  owner_kept :
      (cells : List (List PartitionReplica)) (p r node p' r' : ℕ)
      → p < length cells
      → r < length (get_or cells p [])
      → (replica_at
          (set_replica cells p r (record (replica_at cells p r) { holder = node }))
          p'
          r').owner
        ≡ (replica_at cells p' r').owner
  owner_kept cells p r node p' r' hp hr =
      let x : PartitionReplica = record (replica_at cells p r) { holder = node } in
      elim (Bool-cases (same_cell p r p' r')) [
        | inl y ↦
            let (a, b) = cell_eq p r p' r' y in
            rw (← a, ← b)
              (ap (λ (z : PartitionReplica). z.owner) (replica_at-set_self cells p r x hp hr))
        | inr z ↦ ap (λ (y : PartitionReplica). y.owner) (replica_at-set_ne cells p r p' r' x hp z)
      ]

  -- `AssignPartitionReplica` of a replica that there is.
  held :
      (s : ClusterState) (p r node : ℕ)
      → IsSound max_slice s
      → p < length s.partitions
      → r < length (get_or s.partitions p [])
      → contains node s.nodes ≡ true
      → Sound max_slice (assign_partition_replica s p r node)
  unfolding assign_partition_replica take_partition_replica relinquish_partition_replica
  held s p r node i hp hr there =
      let a : leb (length s.partitions) p ≡ false = ground arith in
      let b : leb (length (get_or s.partitions p [])) r ≡ false = ground arith in
      let x : PartitionReplica = record (replica_at s.partitions p r) { holder = node } in
      let gives : ℕ → ℕ → NodeConfig → NodeConfig = λ p r c. relinquish_partition_replica c p r in
      let takes : ℕ → ℕ → NodeConfig → NodeConfig = λ p r c. take_partition_replica c p r in
      let (nodes, nodes', e, given, taken, agree) =
        move_replica_runs holder_of (λ c. c.partition_replicas) gives takes (λ p r c. refl)
          (λ p r c. refl) s i.holders p r node hp hr positive there x refl in
      let same : (f : NodeConfig → Bool)
          → ((c : NodeConfig) (m : ReplicaMap) → f (record c { partition_replicas = m }) ≡ f c)
          → (n : ℕ) → marks f nodes' n ≡ marks f s.nodes n =
        λ f h n.
          marks_unchanged (takes p r) node nodes nodes' f taken
            (λ c. h c (take p r c.partition_replicas)) n
          ∙ marks_unchanged (gives p r) (replica_at s.partitions p r).holder s.nodes nodes f given
              (λ c. h c (relinquish p r c.partition_replicas)) n in
      (
        record s { nodes = nodes'; partitions = set_replica s.partitions p r x },
        rw (a, b, there) e,
        record {
          tokens = λ n t. same (λ c. contains t c.tokens) (λ c m. refl) n ∙ i.tokens n t;
          holders = agree;
          owners = λ n p' r'.
              same (λ c. in_map p' r' c.owned_partition_replicas) (λ c m. refl) n
              ∙ i.owners n p' r'
              ∙ ap (λ k. not (n == 0) && (k == n))
                  (sym (owner_kept s.partitions p r node p' r' hp hr));
          removed_out = λ n h. same (λ _. true) (λ c m. refl) n ∙ i.removed_out n h;
          zero_out = same (λ _. true) (λ c m. refl) 0 ∙ i.zero_out;
          fits = i.fits;
          fresh = λ h. let (u, v) = i.fresh h in (u, length-set s.partitions p _ ∙ v);
        },
      )
    where
      positive : (node == 0) ≡ false
      positive = elim (Bool-cases (node == 0)) [
        | inl y ↦ absurd (
            false≢true
              (sym i.zero_out ∙ ap (λ k. contains k s.nodes) (sym ((eqb_iff node 0).0 y)) ∙ there))
        | inr z ↦ z
      ]

  -- And whatever its arguments: an error, or a sound state.
  pub assign_partition_replica-Sound :
      (s : ClusterState) (p r node : ℕ)
      → IsSound max_slice s
      → ((e : ClusterError) × (assign_partition_replica s p r node ≡ failed e))
        ⊎ Sound max_slice (assign_partition_replica s p r node)
  unfolding assign_partition_replica
  assign_partition_replica-Sound s p r node i = elim (Bool-cases (leb (length s.partitions) p)) [
    | inl out ↦ inl (no_such_partition, rw out refl)
    | inr hp ↦ elim (Bool-cases (contains node s.nodes)) [
      | inr unknown ↦ inl (no_such_node, rw (hp, unknown) refl)
      | inl there ↦ elim (Bool-cases (leb (length (get_or s.partitions p [])) r)) [
        | inl out ↦ inl (no_such_replica, rw (hp, there, out) refl)
        | inr hr ↦ inr (held s p r node i (ground arith) (ground arith) there)
      ]
    ]
  ]
