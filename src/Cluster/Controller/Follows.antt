-- ===== src/Cluster/Controller/Follows.antt =====
-- cluster/controller.go: what the deltas of the local node's replicas tell to who follows them.
use devicedb.Common.{
  ℕ, ◌≡◌, refl, sym, ap, ap₂, ◌∙◌, arith, Bool, true, false, Option, none, some, List, [], ◌∷◌,
  ◌++◌, ◌&&◌, ◌||◌, not, ◌==◌, nat_eq, Bool-cases, inl, inr, eqb_iff, if◌then◌else◌,
}
use devicedb.Common.Dict.{contains, keys}
use devicedb.Cluster.State.Replicas.{
  in_map, in_map-take, in_map-relinquish, inner_absent, same_cell, cell_eq,
}
use devicedb.Cluster.Removal.Loops.{mem, mem-keys}
use devicedb.Cluster.Controller.{
  ClusterStateDelta, ClusterController, notify_all, node_add, node_remove, node_lose_token,
  node_gain_token, node_gain_partition_replica_ownership, node_lose_partition_replica_ownership,
  node_lose_partition_replica, node_gain_partition_replica, site_added, site_removed, relay_added,
  relay_removed, relay_moved,
}
use devicedb.Cluster.State.{NodeConfig, ReplicaMap, inner, take, relinquish}
use devicedb.Cluster.Controller.Deltas.{
  local_node, replicas_missing, partitions_missing, all_missing,
  local_diff_partition_replicas_and_notify,
}

-- A map of held replicas, kept up to date by one delta, and by several.
abbrev pub hear : ClusterStateDelta → ReplicaMap → ReplicaMap
hear (node_gain_partition_replica _ p r) m = take p r m
hear (node_lose_partition_replica _ p r) m = relinquish p r m
hear (node_add _ _) m = m
hear (node_remove _) m = m
hear (node_lose_token _ _) m = m
hear (node_gain_token _ _) m = m
hear (node_gain_partition_replica_ownership _ _ _) m = m
hear (node_lose_partition_replica_ownership _ _ _) m = m
hear (site_added _) m = m
hear (site_removed _) m = m
hear (relay_added _) m = m
hear (relay_removed _) m = m
hear (relay_moved _ _) m = m

abbrev pub follow : List ClusterStateDelta → ReplicaMap → ReplicaMap
follow [] m = m
follow (delta ∷ deltas) m = follow deltas (hear delta m)

follow-append :
    (xs ys : List ClusterStateDelta) (m : ReplicaMap)
    → follow (xs ++ ys) m ≡ follow ys (follow xs m)
follow-append [] ys m = refl
follow-append (x ∷ xs) ys m = follow-append xs ys (hear x m)

-- A replica that the map lacks is told first.
replicas_missing_step :
    (tell : ℕ → ℕ → ClusterStateDelta) (current : ReplicaMap) (p r : ℕ) (rs : List ℕ)
    → replicas_missing tell current p (r ∷ rs) ≡ (
        if in_map p r current
        then replicas_missing tell current p rs
        else tell p r ∷ replicas_missing tell current p rs)
replicas_missing_step tell current p r rs = elim (Bool-cases (contains p current)) [
  | inr absent ↦
      let out : in_map p r current ≡ false = ap (contains r) (inner_absent p current absent) in
      rw (absent, out) refl
  | inl there ↦ elim (Bool-cases (in_map p r current)) [
    | inl held ↦ rw (there, held) refl
    | inr out ↦ rw (there, out) refl
  ]
]

in_map-same :
    (p r p' r' : ℕ) (m : ReplicaMap) → same_cell p r p' r' ≡ true → in_map p' r' m ≡ in_map p r m
in_map-same p r p' r' m h =
    let cell = cell_eq p r p' r' h in ap₂ (λ i j. in_map i j m) (sym cell.0) (sym cell.1)

-- The two ways to change one replica: the delta that tells it, and what it makes of the test.
module _ (tell : ℕ → ℕ → ClusterStateDelta) (change : Bool → Bool → Bool)
    (settled : (b : Bool) → change b false ≡ b)
    (twice : (b c d : Bool) → change (change b c) d ≡ change b (c || d))
    (heard : (p r p' r' : ℕ) (m : ReplicaMap)
      → in_map p' r' (hear (tell p r) m) ≡ change (in_map p' r' m) (same_cell p r p' r'))
    (current : ReplicaMap) (p' r' : ℕ) where
  told_replicas :
      (p : ℕ) (rs : List ℕ) (m : ReplicaMap)
      → in_map p' r' (follow (replicas_missing tell current p rs) m)
        ≡ change (in_map p' r' m) ((p == p') && (mem r' rs && not (in_map p' r' current)))
  told_replicas p [] m =
      sym (settled (in_map p' r' m)) ∙ ap (change (in_map p' r' m)) (ground arith)
  told_replicas p (r ∷ rs) m =
      rw (replicas_missing_step tell current p r rs) (elim (Bool-cases (in_map p r current)) [
        | inl held ↦ rw held (
            told_replicas p rs m
            ∙ ap (change (in_map p' r' m)) (ground (arith, in_map-same p r p' r' current, held)))
        | inr out ↦ rw out (
            told_replicas p rs (hear (tell p r) m)
            ∙ ap (λ b. change b ((p == p') && (mem r' rs && not (in_map p' r' current))))
                (heard p r p' r' m)
            ∙ twice (in_map p' r' m) (same_cell p r p' r')
                ((p == p') && (mem r' rs && not (in_map p' r' current)))
            ∙ ap (change (in_map p' r' m)) (ground (arith, in_map-same p r p' r' current, out)))
      ])

  told_partitions :
      (from : ReplicaMap) (ps : List ℕ) (m : ReplicaMap)
      → in_map p' r' (follow (partitions_missing tell current from ps) m)
        ≡ change (in_map p' r' m) (mem p' ps && (in_map p' r' from && not (in_map p' r' current)))
  told_partitions from [] m = sym (settled (in_map p' r' m))
  told_partitions from (p ∷ ps) m =
      ap (in_map p' r') (
        follow-append (replicas_missing tell current p (keys (inner p from)))
          (partitions_missing tell current from ps) m)
      ∙ told_partitions from ps (follow (replicas_missing tell current p (keys (inner p from))) m)
      ∙ ap (λ b. change b (mem p' ps && (in_map p' r' from && not (in_map p' r' current))))
          (told_replicas p (keys (inner p from)) m)
      ∙ twice (in_map p' r' m)
          ((p == p') && (mem r' (keys (inner p from)) && not (in_map p' r' current)))
          (mem p' ps && (in_map p' r' from && not (in_map p' r' current)))
      ∙ ap (change (in_map p' r' m)) (hits ps (in_map p' r' current))
    where
      hits :
          (ps : List ℕ) (now : Bool)
          → (((p == p') && (mem r' (keys (inner p from)) && not now))
              || (mem p' ps && (in_map p' r' from && not now)))
            ≡ (mem p' (p ∷ ps) && (in_map p' r' from && not now))
      hits ps now = elim (Bool-cases (p == p')) [
        | inl y ↦
            let k : mem r' (keys (inner p from)) ≡ in_map p' r' from =
              mem-keys r' (inner p from) ∙ ap (λ q. in_map q r' from) ((eqb_iff p p').0 y) in
            rw (y, k) (ground arith)
        | inr z ↦ rw z refl
      ]

  all_told :
      (from m : ReplicaMap)
      → in_map p' r' (follow (all_missing tell current from) m)
        ≡ change (in_map p' r' m) (in_map p' r' from && not (in_map p' r' current))
  all_told from m =
      told_partitions from (keys from) m
      ∙ ap (change (in_map p' r' m)) (elim (Bool-cases (contains p' from)) [
        | inl there ↦ rw (mem-keys p' from ∙ there) refl
        | inr absent ↦
            let out : in_map p' r' from ≡ false = ap (contains r') (inner_absent p' from absent) in
            rw (mem-keys p' from ∙ absent, out) refl
      ])

-- `localDiffPartitionReplicasAndNotify`: who follows the deltas from the snapshot on has the replicas
-- of the configuration.
pub local_diff-follows :
    (c : ClusterController) (config : NodeConfig) (snapshot : ReplicaMap) (p r : ℕ)
    → c.next_delta_set ≡ []
    → local_node c ≡ some config
    → in_map p r
        (follow (local_diff_partition_replicas_and_notify c snapshot).next_delta_set snapshot)
      ≡ in_map p r config.partition_replicas
unfolding local_diff_partition_replicas_and_notify
local_diff-follows c config snapshot p r fresh there =
    ap (λ o. in_map p r (follow (told o).next_delta_set snapshot)) there
    ∙ rw fresh (
        ap (in_map p r) (follow-append lost gained snapshot)
        ∙ all_told (node_gain_partition_replica c.local_node_id) (λ b c. b || c) (λ b. ground arith)
            (λ b c d. ground arith) in_map-take snapshot p r config.partition_replicas
            (follow lost snapshot)
        ∙ ap (λ b. b || (in_map p r config.partition_replicas && not (in_map p r snapshot)))
            (all_told (node_lose_partition_replica c.local_node_id) (λ b c. b && not c)
              (λ b. ground arith) (λ b c d. ground arith) in_map-relinquish
              config.partition_replicas p r snapshot snapshot)
        ∙ settle (in_map p r snapshot) (in_map p r config.partition_replicas))
  where
    told : Option NodeConfig → ClusterController
    told none = c
    told (some config) = notify_all c (
        all_missing (node_lose_partition_replica c.local_node_id) config.partition_replicas snapshot
        ++ all_missing (node_gain_partition_replica c.local_node_id) snapshot
            config.partition_replicas)

    lost : List ClusterStateDelta
    lost =
        all_missing (node_lose_partition_replica c.local_node_id) config.partition_replicas snapshot

    gained : List ClusterStateDelta
    gained =
        all_missing (node_gain_partition_replica c.local_node_id) snapshot config.partition_replicas

    settle : (old now : Bool) → ((old && not (old && not now)) || (now && not old)) ≡ now
    settle true true = refl
    settle true false = refl
    settle false true = refl
    settle false false = refl
