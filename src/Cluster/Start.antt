-- ===== src/Cluster/Start.antt =====
-- cluster/state.go: `Initialize`, and that it and `AddNode` leave nodes, tokens and replicas in
-- agreement.
use mathlib.Core.Bool.{false≢true}
use devicedb.Common.{
  ◌≤◌, ltb, ◌||◌, ℕ, zero, suc, ◌+◌, ◌≡◌, refl, sym, ap, ◌∙◌, arith, Bool, true, false, List, [],
  ◌∷◌, ◌&&◌, not, if◌then◌else◌, length, get_or, replicate, ◌==◌, nat_eq, Bool-cases, ◌⊎◌, inl, inr,
  eqb_iff,
}
use devicedb.Common.Dict.{contains}
use devicedb.Cluster.State.{
  NodeConfig, ClusterState, ClusterSettings, PartitionReplica, replica_at, no_replica, add_node,
  Outcome, done, panicked,
}
use devicedb.Cluster.State.Marks.{marks, marks-insert, marks-contains}
use devicedb.Cluster.State.Tokens.{TokensAgree}
use devicedb.Cluster.State.Replicas.{in_map}
use devicedb.Cluster.State.Moves.{HoldersAgree, OwnersAgree}

unfoldable pub are_initialized : ClusterSettings → Bool
are_initialized c = not (c.replication_factor == 0) && not (c.partitions == 0)

-- The inner loop: `n` replicas from number `r` on.
pub new_replicas : ℕ → ℕ → ℕ → List PartitionReplica
new_replicas p r zero = []
new_replicas p r (suc n) =
    record { partition = p; replica = r; holder = 0; owner = 0 } ∷ new_replicas p (r + 1) n

-- The outer loop: `n` partitions from number `p` on.
pub new_partitions : ℕ → ℕ → ℕ → List (List PartitionReplica)
new_partitions factor p zero = []
new_partitions factor p (suc n) = new_replicas p 0 factor ∷ new_partitions factor (p + 1) n

-- `make` panics for a length above what the runtime takes for elements of that many bytes, `max_slice`.
-- The slices of tokens (8 bytes) and of partitions (slices of 24 bytes) are as long as the partition
-- count says, those of replicas (pointers of 8 bytes) as the replication factor.
unfoldable pub initialize : (ℕ → ℕ) → ClusterState → Outcome ClusterState
unfolding are_initialized new_replicas new_partitions
initialize max_slice s =
    let settings = s.cluster_settings in
    if not (are_initialized settings)
    then done s
    else if ltb (max_slice 8) settings.partitions
        || (ltb (max_slice 24) settings.partitions || ltb (max_slice 8) settings.replication_factor)
    then panicked
    else done (record s {
      tokens = replicate settings.partitions 0;
      partitions = new_partitions settings.replication_factor 0 settings.partitions;
    })

-- Settings for which `make` does not panic.
abbrev pub Fits : (ℕ → ℕ) → ClusterSettings → Type 0
Fits max_slice settings =
    (settings.partitions ≤ max_slice 8)
    × (settings.partitions ≤ max_slice 24)
    × (settings.replication_factor ≤ max_slice 8)

pub no_panic :
    (max_slice : ℕ → ℕ) (settings : ClusterSettings)
    → Fits max_slice settings
    → (ltb (max_slice 8) settings.partitions
        || (ltb (max_slice 24) settings.partitions
            || ltb (max_slice 8) settings.replication_factor))
      ≡ false
no_panic max_slice settings (a, b, c) = ground arith

pub new_replicas-unassigned :
    (p r n i : ℕ)
    → ((get_or (new_replicas p r n) i no_replica).holder ≡ 0)
      × ((get_or (new_replicas p r n) i no_replica).owner ≡ 0)
unfolding new_replicas
new_replicas-unassigned p r zero i = (refl, refl)
new_replicas-unassigned p r (suc n) zero = (refl, refl)
new_replicas-unassigned p r (suc n) (suc i) = new_replicas-unassigned p (r + 1) n i

pub new_partitions-unassigned :
    (factor p n i r : ℕ)
    → ((replica_at (new_partitions factor p n) i r).holder ≡ 0)
      × ((replica_at (new_partitions factor p n) i r).owner ≡ 0)
unfolding new_partitions
new_partitions-unassigned factor p zero i r = (refl, refl)
new_partitions-unassigned factor p (suc n) zero r = new_replicas-unassigned p 0 factor r
new_partitions-unassigned factor p (suc n) (suc i) r =
    new_partitions-unassigned factor (p + 1) n i r

pub length-new_partitions : (factor p n : ℕ) → length (new_partitions factor p n) ≡ n
unfolding new_partitions
length-new_partitions factor p zero = refl
length-new_partitions factor p (suc n) = ap suc (length-new_partitions factor (p + 1) n)

pub get_or-replicate : (n i : ℕ) → get_or {A = ℕ} (replicate n 0) i 0 ≡ 0
get_or-replicate zero i = refl
get_or-replicate (suc n) zero = refl
get_or-replicate (suc n) (suc i) = get_or-replicate n i

-- A test that the new node does not pass is passed by the same nodes as before.
marks-add_node :
    (s : ClusterState) (c : NodeConfig) (f : NodeConfig → Bool) (n : ℕ)
    → f c ≡ false
    → marks f (add_node s c).nodes n ≡ marks f s.nodes n
unfolding add_node
marks-add_node s c f n no_mark = elim (Bool-cases (c.address.node_id == 0)) [
  | inl y ↦ rw y refl
  | inr z ↦ elim (Bool-cases (contains c.address.node_id s.nodes)) [
    | inl y ↦ rw (z, y) refl
    | inr w ↦
        rw (z, w)
          (marks-insert f c.address.node_id c s.nodes n
            ∙ new (Bool-cases (c.address.node_id == n)) (Bool-cases (marks f s.nodes n)) w)
  ]
]
  where
    new :
        ((c.address.node_id == n) ≡ true) ⊎ ((c.address.node_id == n) ≡ false)
        → (marks f s.nodes n ≡ true) ⊎ (marks f s.nodes n ≡ false)
        → contains c.address.node_id s.nodes ≡ false
        → (if c.address.node_id == n then f c else marks f s.nodes n) ≡ marks f s.nodes n
    new (inr z) t w = rw z
    new (inl y) (inr t) w = rw y (no_mark ∙ sym t)
    new (inl y) (inl t) w = absurd (
        false≢true (
          sym w
          ∙ ap (λ k. contains k s.nodes) ((eqb_iff c.address.node_id n).0 y)
          ∙ marks-contains f s.nodes n t))

add_node_keeps :
    (s : ClusterState) (c : NodeConfig)
    → ((add_node s c).tokens ≡ s.tokens) × ((add_node s c).partitions ≡ s.partitions)
unfolding add_node
add_node_keeps s c = elim (Bool-cases (c.address.node_id == 0)) [
  | inl y ↦ rw y (refl, refl)
  | inr z ↦ elim (Bool-cases (contains c.address.node_id s.nodes)) [
    | inl y ↦ rw (z, y) (refl, refl)
    | inr w ↦ rw (z, w) (refl, refl)
  ]
]

-- `AddNode` of a node without tokens and replicas keeps everything in agreement, whatever its id.
pub add_node_agrees :
    (s : ClusterState) (c : NodeConfig)
    → c.tokens ≡ []
    → c.partition_replicas ≡ []
    → c.owned_partition_replicas ≡ []
    → TokensAgree s
    → HoldersAgree s
    → OwnersAgree s
    → TokensAgree (add_node s c) × HoldersAgree (add_node s c) × OwnersAgree (add_node s c)
add_node_agrees s c a b d tokens holders owners =
    let (same_tokens, same_cells) = add_node_keeps s c in
    (
      λ n t.
          marks-add_node s c (λ c. contains t c.tokens) n (ap (contains t) a)
          ∙ tokens n t
          ∙ ap (λ k. not (n == 0) && (get_or k t 0 == n)) (sym same_tokens),
      λ n p r.
          marks-add_node s c (λ c. in_map p r c.partition_replicas) n (ap (in_map p r) b)
          ∙ holders n p r
          ∙ ap (λ k. not (n == 0) && ((replica_at k p r).holder == n)) (sym same_cells),
      λ n p r.
          marks-add_node s c (λ c. in_map p r c.owned_partition_replicas) n (ap (in_map p r) d)
          ∙ owners n p r
          ∙ ap (λ k. not (n == 0) && ((replica_at k p r).owner == n)) (sym same_cells),
    )
