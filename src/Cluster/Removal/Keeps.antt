-- ===== src/Cluster/Removal/Keeps.antt =====
-- cluster/state.go: what `RemoveNode` leaves of nodes, tokens and replicas.
use devicedb.Common.{
  ℕ, ◌≡◌, ◌<◌, refl, sym, ap, ap₂, subst, ◌∙◌, arith, Bool, true, false, Option, none, some, List,
  ◌&&◌, not, if◌then◌else◌, length, get_or, ◌==◌, nat_eq, Bool-cases, inl, inr, eqb_iff, leb,
}
use devicedb.Common.Dict.{Dict, lookup, contains, insert, erase, keys, lookup-insert, lookup-erase}
use devicedb.Cluster.State.{
  NodeConfig, ClusterState, PartitionReplica, ReplicaMap, Outcome, done, failed, panicked,
  replica_at, no_replica, relinquish_partition_replica, relinquish_partition_replica_ownership,
}
use devicedb.Cluster.State.Marks.{marks, marks_at}
use devicedb.Cluster.State.Tokens.{TokensAgree}
use devicedb.Cluster.State.Replicas.{in_map, Agree}
use devicedb.Cluster.State.Moves.{HoldersAgree, OwnersAgree, holder_of, owner_of}
use devicedb.Cluster.Removal.{
  Cells, no_holder, no_owner, remove_node, remove_known, release_outer, release_tokens,
}
use devicedb.Cluster.Removal.Loops.{
  mem, mem-keys, get_or_out, InRange, InRange-of_field, SameShape-InRange, Released, released,
  tokens_released,
}

-- A deleted node passes no test, the others the ones they passed.
marks-erase :
    (f : NodeConfig → Bool) (node : ℕ) (d : NodeConfig) (nodes : Dict ℕ NodeConfig) (n : ℕ)
    → marks f (erase node (insert node d nodes)) n ≡ (if node == n then false else marks f nodes n)
marks-erase f node d nodes n =
    ground (arith, lookup-erase node n (insert node d nodes), lookup-insert node n d nodes)

module _ (field : PartitionReplica → ℕ) (map : NodeConfig → ReplicaMap) (s : ClusterState)
    (agree : Agree field map s.nodes s.partitions) (node : ℕ) (c : NodeConfig)
    (there : lookup node s.nodes ≡ some c) where
  mapped :
      (p r : ℕ)
      → in_map p r (map c) ≡ (not (node == 0) && (field (replica_at s.partitions p r) == node))
  mapped p r = sym (marks_at (λ c. in_map p r (map c)) s.nodes node c there) ∙ agree node p r

  mapped-InRange :
      field no_replica ≡ 0 → (p r : ℕ) → in_map p r (map c) ≡ true → InRange s.partitions p r
  mapped-InRange z p r h = InRange-of_field field s.partitions p r z (ground (arith, mapped p r, h))

  Agree-removed :
      (d : NodeConfig) (cells : Cells)
      → ((p r : ℕ)
          → field (replica_at cells p r)
            ≡ (if in_map p r (map c) then 0 else field (replica_at s.partitions p r)))
      → Agree field map (erase node (insert node d s.nodes)) cells
  Agree-removed d cells e n p r =
      rw (marks-erase (λ c. in_map p r (map c)) node d s.nodes n)
        (ground (arith, e p r, mapped p r, agree n p r))

pick :
    (field : PartitionReplica → ℕ) (clear : PartitionReplica → PartitionReplica) (t : Bool)
    (x : PartitionReplica)
    → field (if t then clear x else x) ≡ (if t then field (clear x) else field x)
pick field clear true x = refl
pick field clear false x = refl

either : (t : Bool) (n : ℕ) → (if t then n else n) ≡ n
either true n = refl
either false n = refl

module _ (s : ClusterState) (node : ℕ) (c : NodeConfig) (there : lookup node s.nodes ≡ some c)
    (holders : HoldersAgree s) (owners : OwnersAgree s) (tokens : TokensAgree s) where
  abbrev Rest : Type 0
  Rest = ReplicaMap × Dict ℕ Bool

  first :
      (a : NodeConfig × Cells) × (release_outer relinquish_partition_replica no_holder
          c.partition_replicas
          (keys c.partition_replicas)
          (c, s.partitions)
        ≡ done a)
      × Released {Kept = Rest}
          (λ c. (c.owned_partition_replicas, c.tokens))
          no_holder
          (λ p r. in_map p r c.partition_replicas)
          (c, s.partitions)
          a
  unfolding relinquish_partition_replica
  first =
      released {Kept = Rest} (λ c. (c.owned_partition_replicas, c.tokens))
        relinquish_partition_replica no_holder (λ c p r. refl) (λ x. refl) c.partition_replicas
        (c, s.partitions)
        (mapped-InRange holder_of (λ c. c.partition_replicas) s holders node c there refl)

  second :
      (b : NodeConfig × Cells) × (release_outer relinquish_partition_replica_ownership no_owner
          first.0.0.owned_partition_replicas
          (keys first.0.0.owned_partition_replicas)
          first.0
        ≡ done b)
      × Released {Kept = Dict ℕ Bool}
          (λ c. c.tokens)
          no_owner
          (λ p r. in_map p r first.0.0.owned_partition_replicas)
          first.0
          b
  unfolding relinquish_partition_replica_ownership
  second =
      released {Kept = Dict ℕ Bool} (λ c. c.tokens) relinquish_partition_replica_ownership no_owner
        (λ c p r. refl) (λ x. refl) first.0.0.owned_partition_replicas first.0
        (λ p r h. SameShape-InRange first.2.shape (
          mapped-InRange owner_of (λ c. c.owned_partition_replicas) s owners node c there refl p r
            (rw (ap (λ k. k.0) first.2.config) at h)))

  holders_left :
      (p r : ℕ)
      → holder_of (replica_at second.0.1 p r)
        ≡ (if in_map p r c.partition_replicas then 0 else holder_of (replica_at s.partitions p r))
  holders_left p r =
      let t = in_map p r first.0.0.owned_partition_replicas in
      ap holder_of (second.2.cleared p r)
      ∙ pick holder_of no_owner t (replica_at first.0.1 p r)
      ∙ either t (holder_of (replica_at first.0.1 p r))
      ∙ ap holder_of (first.2.cleared p r)
      ∙ pick holder_of no_holder (in_map p r c.partition_replicas) (replica_at s.partitions p r)

  owners_left :
      (p r : ℕ)
      → owner_of (replica_at second.0.1 p r) ≡ (
          if in_map p r c.owned_partition_replicas
          then 0
          else owner_of (replica_at s.partitions p r))
  owners_left p r =
      let t = in_map p r c.partition_replicas in
      let owned : first.0.0.owned_partition_replicas ≡ c.owned_partition_replicas =
        ap (λ k. k.0) first.2.config in
      let before : owner_of (replica_at first.0.1 p r) ≡ owner_of (replica_at s.partitions p r) =
        ap owner_of (first.2.cleared p r)
        ∙ pick owner_of no_holder t (replica_at s.partitions p r)
        ∙ either t (owner_of (replica_at s.partitions p r)) in
      ap owner_of (second.2.cleared p r)
      ∙ pick owner_of no_owner (in_map p r first.0.0.owned_partition_replicas)
          (replica_at first.0.1 p r)
      ∙ ap₂ (λ m n. if in_map p r m then 0 else n) owned before

  token_test :
      (t : ℕ) → mem t (keys second.0.0.tokens) ≡ (not (node == 0) && (get_or s.tokens t 0 == node))
  token_test t =
      mem-keys t second.0.0.tokens
      ∙ ap (contains t) (second.2.config ∙ ap (λ k. k.1) first.2.config)
      ∙ sym (marks_at (λ c. contains t c.tokens) s.nodes node c there)
      ∙ tokens node t

  token_range : (t : ℕ) → mem t (keys second.0.0.tokens) ≡ true → t < length s.tokens
  token_range t h = elim (Bool-cases (leb (length s.tokens) t)) [
    | inl out ↦
        let z = get_or_out s.tokens t 0 (ground arith) in
        absurd (ground (arith, z, h, token_test t))
    | inr inside ↦ ground arith
  ]

  third :
      (d : NodeConfig × List ℕ) × (release_tokens (keys second.0.0.tokens) (second.0.0, s.tokens)
        ≡ done d)
      × ((t : ℕ)
          → get_or d.1 t 0 ≡ (if mem t (keys second.0.0.tokens) then 0 else get_or s.tokens t 0))
      × (length d.1 ≡ length s.tokens)
  third = tokens_released (keys second.0.0.tokens) second.0.0 s.tokens token_range

  abbrev left : ClusterState
  left = record s {
    nodes = erase node (insert node third.0.0 s.nodes);
    partitions = second.0.1;
    tokens = third.0.1;
    removed_nodes = insert node true s.removed_nodes;
  }

  runs : remove_known s node c ≡ done left
  unfolding remove_known
  runs = rw (first.1, second.1, third.1) refl

  -- What else `RemoveNode` leaves as it was.
  pub remove_node_rest :
      (s' : ClusterState)
      → remove_node s node ≡ done s'
      → (s'.removed_nodes ≡ insert node true s.removed_nodes)
        × (s'.cluster_settings ≡ s.cluster_settings)
        × (length s'.tokens ≡ length s.tokens)
        × (length s'.partitions ≡ length s.partitions)
        × ((n : ℕ) → contains n s'.nodes ≡ (if node == n then false else contains n s.nodes))
  unfolding remove_node
  remove_node_rest s' e =
      let same = left_of s' (
        sym (
          ap
            (λ (o : Option NodeConfig). elim o as (λ _. Outcome ClusterState) [
              | none ↦ done s
              | some c ↦ remove_known s node c
            ])
            there
          ∙ runs)
        ∙ e) in
      subst
        (λ (s' : ClusterState).
          (s'.removed_nodes ≡ insert node true s.removed_nodes)
          × (s'.cluster_settings ≡ s.cluster_settings)
          × (length s'.tokens ≡ length s.tokens)
          × (length s'.partitions ≡ length s.partitions)
          × ((n : ℕ) → contains n s'.nodes ≡ (if node == n then false else contains n s.nodes)))
        same
        (
          refl,
          refl,
          third.3,
          second.2.shape.rows ∙ first.2.shape.rows,
          λ n. marks-erase (λ _. true) node third.0.0 s.nodes n,
        )
    where
      left_of : (s' : ClusterState) → done left ≡ done s' → left ≡ s'
      left_of s' e =
          ap
            (λ (o : Outcome ClusterState). elim o as (λ _. ClusterState) [
              | done s ↦ s
              | failed e ↦ s
              | panicked ↦ s
            ])
            e

  -- `RemoveNode` of a node of the cluster succeeds: the node is gone, and of the other nodes the
  -- configurations agree with holders, owners and tokens as before.
  pub remove_node_agrees :
      (s' : ClusterState) × (remove_node s node ≡ done s')
      × (contains node s'.nodes ≡ false)
      × HoldersAgree s'
      × OwnersAgree s'
      × TokensAgree s'
  unfolding remove_node
  remove_node_agrees = (
    left,
    ap
          (λ (o : Option NodeConfig). elim o as (λ _. Outcome ClusterState) [
            | none ↦ done s
            | some c ↦ remove_known s node c
          ])
          there
        ∙ runs,
    marks-erase (λ _. true) node third.0.0 s.nodes node ∙ rw ((eqb_iff node node).1 refl) refl,
    Agree-removed holder_of (λ c. c.partition_replicas) s holders node c there third.0.0 second.0.1
        holders_left,
    Agree-removed owner_of (λ c. c.owned_partition_replicas) s owners node c there third.0.0
        second.0.1 owners_left,
    λ n t.
        marks-erase (λ c. contains t c.tokens) node third.0.0 s.nodes n
        ∙ ground (arith, third.2 t, token_test t, tokens n t),
  )
