-- ===== src/Cluster/State/Replicas.antt =====
-- cluster/state.go: what moving one partition replica between two nodes does, be it the holder or
-- the owner that changes.
use mathlib.Core.Bool.{false≢true}
use devicedb.Common.{
  ℕ, ◌≡◌, ◌<◌, refl, sym, ap, ap₂, ◌∙◌, arith, Bool, true, false, Option, none, some, List, [], ◌∷◌,
  ◌&&◌, ◌||◌, not, if◌then◌else◌, ◌==◌, nat_eq, Bool-cases, inl, inr, eqb_iff, get_or, set, length,
  get_or-set_self, get_or-set_ne,
}
use devicedb.Common.Dict.{Dict, lookup, contains, insert, erase, lookup-insert, lookup-erase}
use devicedb.Cluster.State.{
  NodeConfig, ClusterState, PartitionReplica, ReplicaMap, inner, take, relinquish, replica_at,
  set_replica, no_replica, done, move_replica,
}
use devicedb.Cluster.State.Marks.{
  marks, marks_or, marks_and, marks-contains, Changes, on_node-Changes, on_node_unless_zero,
}

-- Is the replica in the map?
abbrev pub in_map : ℕ → ℕ → ReplicaMap → Bool
in_map p r m = contains r (inner p m)

abbrev pub same_cell : ℕ → ℕ → ℕ → ℕ → Bool
same_cell p r p' r' = (p == p') && (r == r')

inner-insert :
    (p p' : ℕ) (rs : Dict ℕ Bool) (m : ReplicaMap)
    → inner p' (insert p rs m) ≡ (if p == p' then rs else inner p' m)
inner-insert p p' rs m =
    ap (λ (o : Option (Dict ℕ Bool)). elim o [ none ↦ [] | some rs ↦ rs ]) (lookup-insert p p' rs m)
    ∙ go (p == p')
  where
    go :
        (t : Bool)
        → (elim (if t then some rs else lookup p' m) as (λ _. Dict ℕ Bool) [
          | none ↦ []
          | some rs ↦ rs
        ])
          ≡ (if t then rs else inner p' m)
    go true = refl
    go false = refl

inner-erase :
    (p p' : ℕ) (m : ReplicaMap) → inner p' (erase p m) ≡ (if p == p' then [] else inner p' m)
inner-erase p p' m =
    ap (λ (o : Option (Dict ℕ Bool)). elim o [ none ↦ [] | some rs ↦ rs ]) (lookup-erase p p' m)
    ∙ go (p == p')
  where
    go :
        (t : Bool)
        → (elim (if t then none else lookup p' m) as (λ _. Dict ℕ Bool) [
          | none ↦ []
          | some rs ↦ rs
        ])
          ≡ (if t then [] else inner p' m)
    go true = refl
    go false = refl

pub in_map-take :
    (p r p' r' : ℕ) (m : ReplicaMap)
    → in_map p' r' (take p r m) ≡ (in_map p' r' m || same_cell p r p' r')
in_map-take p r p' r' m =
    rw (inner-insert p p' (insert r true (inner p m)) m) (elim (Bool-cases (p == p')) [
      | inl y ↦ rw (y, ← (eqb_iff p p').0 y) (ground (arith, lookup-insert r r' true (inner p m)))
      | inr z ↦ rw z (ground arith)
    ])

contains-erase :
    (r r' : ℕ) (rs : Dict ℕ Bool) → contains r' (erase r rs) ≡ (contains r' rs && not (r == r'))
contains-erase r r' rs = ground (arith, lookup-erase r r' rs)

pub inner_absent : (p : ℕ) (m : ReplicaMap) → contains p m ≡ false → inner p m ≡ []
inner_absent p m h = go (lookup p m) h
  where
    go :
        (o : Option (Dict ℕ Bool))
        → (elim o as (λ _. Bool) [ none ↦ false | some _ ↦ true ]) ≡ false
        → (elim o as (λ _. Dict ℕ Bool) [ none ↦ [] | some rs ↦ rs ]) ≡ []
    go none e = refl
    go (some rs) e = cc

empty_of_length : (rs : Dict ℕ Bool) → (length rs == 0) ≡ true → rs ≡ []
empty_of_length [] e = refl
empty_of_length (x ∷ rs) e = absurd (omega (arith, (eqb_iff (length (x ∷ rs)) 0).0 e))

pub in_map-relinquish :
    (p r p' r' : ℕ) (m : ReplicaMap)
    → in_map p' r' (relinquish p r m) ≡ (in_map p' r' m && not (same_cell p r p' r'))
in_map-relinquish p r p' r' m = elim (Bool-cases (contains p m)) [
  | inr absent ↦ rw absent (elim (Bool-cases (p == p')) [
    | inl y ↦
        let gone : contains r' (inner p' m) ≡ false =
          ap (λ k. contains r' (inner k m)) (sym ((eqb_iff p p').0 y))
          ∙ ap (contains r') (inner_absent p m absent) in
        ground (arith, gone)
    | inr z ↦ rw z (ground arith)
  ])
  | inl there ↦ elim (Bool-cases (length (erase r (inner p m)) == 0)) [
    | inl e ↦
        let none_left = empty_of_length (erase r (inner p m)) e in
        let after = sym (contains-erase r r' (inner p m)) ∙ ap (contains r') none_left in
        rw (there, e)
          (rw (inner-erase p p' m) (elim (Bool-cases (p == p')) [
            | inl y ↦ rw (y, ← (eqb_iff p p').0 y) (sym after)
            | inr z ↦ rw z (ground arith)
          ]))
    | inr e ↦
        rw (there, e)
          (rw (inner-insert p p' (erase r (inner p m)) m) (elim (Bool-cases (p == p')) [
            | inl y ↦ rw (y, ← (eqb_iff p p').0 y) (contains-erase r r' (inner p m))
            | inr z ↦ rw z (ground arith)
          ]))
  ]
]

pub replica_at-set_self :
    (cells : List (List PartitionReplica)) (p r : ℕ) (x : PartitionReplica)
    → p < length cells
    → r < length (get_or cells p [])
    → replica_at (set_replica cells p r x) p r ≡ x
replica_at-set_self cells p r x hp hr =
    rw (get_or-set_self cells p (set (get_or cells p []) r x) [] hp)
      (get_or-set_self (get_or cells p []) r x no_replica hr)

pub replica_at-set_ne :
    (cells : List (List PartitionReplica)) (p r p' r' : ℕ) (x : PartitionReplica)
    → p < length cells
    → same_cell p r p' r' ≡ false
    → replica_at (set_replica cells p r x) p' r' ≡ replica_at cells p' r'
replica_at-set_ne cells p r p' r' x hp ne = elim (Bool-cases (p == p')) [
  | inl y ↦
      rw (← (eqb_iff p p').0 y, get_or-set_self cells p (set (get_or cells p []) r x) [] hp)
        (get_or-set_ne (get_or cells p []) r r' x no_replica
          (λ e. false≢true (sym (rw y at ne) ∙ (eqb_iff r r').1 e)))
  | inr z ↦
      ap (λ (k : List PartitionReplica). get_or k r' no_replica)
        (get_or-set_ne cells p p' (set (get_or cells p []) r x) []
          (λ e. false≢true (sym z ∙ (eqb_iff p p').1 e)))
]

pub cell_eq : (p r p' r' : ℕ) → same_cell p r p' r' ≡ true → (p ≡ p') × (r ≡ r')
cell_eq p r p' r' h = ground (arith, eqb_iff p p', eqb_iff r r')

-- A node's map holds exactly the replicas whose field names the node.
abbrev pub Agree :
    (PartitionReplica → ℕ)
    → (NodeConfig → ReplicaMap)
    → Dict ℕ NodeConfig
    → List (List PartitionReplica)
    → Type 0
Agree field map nodes cells =
    (n p r : ℕ)
    → marks (λ c. in_map p r (map c)) nodes n
      ≡ (not (n == 0) && (field (replica_at cells p r) == n))

-- The holder or the owner: a field of a replica, and the map of a node that goes with it.
module _ (field : PartitionReplica → ℕ) (map : NodeConfig → ReplicaMap)
    (gives takes : ℕ → ℕ → NodeConfig → NodeConfig)
    (map-gives : (p r : ℕ) (c : NodeConfig) → map (gives p r c) ≡ relinquish p r (map c))
    (map-takes : (p r : ℕ) (c : NodeConfig) → map (takes p r c) ≡ take p r (map c)) where
  module _ (s : ClusterState) (agree : Agree field map s.nodes s.partitions) (p r node : ℕ)
      (hp : p < length s.partitions) (hr : r < length (get_or s.partitions p []))
      (pos : (node == 0) ≡ false) (there : contains node s.nodes ≡ true) (x : PartitionReplica)
      (new : field x ≡ node) where
    abbrev current : ℕ
    current = field (replica_at s.partitions p r)

    current_there : (current == 0) ≡ false → contains current s.nodes ≡ true
    current_there z =
        marks-contains (λ c. in_map p r (map c)) s.nodes current
          (agree current p r ∙ rw (z, (eqb_iff current current).1 refl) refl)

    moved :
        (nodes nodes' : Dict ℕ NodeConfig)
        → contains node nodes ≡ true
        → Changes (gives p r) current s.nodes nodes
        → Changes (takes p r) node nodes nodes'
        → Agree field map nodes' (set_replica s.partitions p r x)
    moved nodes nodes' kept given taken n p' r' =
        let held = λ (c : NodeConfig). in_map p' r' (map c) in
        let a = taken held n in
        let b =
          marks_or held (λ c. held (takes p r c)) (same_cell p r p' r') nodes n
            (λ c. ap (in_map p' r') (map-takes p r c) ∙ in_map-take p r p' r' (map c)) in
        let g = given held n in
        let d =
          marks_and held (λ c. held (gives p r c)) (not (same_cell p r p' r')) s.nodes n
            (λ c. ap (in_map p' r') (map-gives p r c) ∙ in_map-relinquish p r p' r' (map c)) in
        let here : (node == n) ≡ true → contains n nodes ≡ true =
          λ y. rw (← (eqb_iff node n).0 y) kept in
        elim (Bool-cases (same_cell p r p' r')) [
          | inl y ↦
              let cell = cell_eq p r p' r' y in
              let old : current ≡ field (replica_at s.partitions p' r') =
                ap₂ (λ i j. field (replica_at s.partitions i j)) cell.0 cell.1 in
              let now : field (replica_at (set_replica s.partitions p r x) p' r') ≡ node =
                ap₂ (λ i j. field (replica_at (set_replica s.partitions p r x) i j)) (sym cell.0)
                  (sym cell.1)
                ∙ ap field (replica_at-set_self s.partitions p r x hp hr)
                ∙ new in
              rw now (ground (arith, a, b, g, d, agree n p' r', old, here, pos, y))
          | inr z ↦
              let old = ap field (replica_at-set_ne s.partitions p r p' r' x hp z) in
              rw old (ground (arith, a, b, g, d, agree n p' r', z))
        ]

    -- Moving the replica succeeds by two changes of the nodes, and node maps and replicas still agree.
    pub move_replica_runs :
        (nodes : Dict ℕ NodeConfig) × (nodes' : Dict ℕ NodeConfig) × (move_replica
            (gives p r)
            (takes p r)
            s
            current
            node
            (set_replica s.partitions p r x)
          ≡ done (record s { nodes = nodes'; partitions = set_replica s.partitions p r x }))
        × Changes (gives p r) current s.nodes nodes
        × Changes (takes p r) node nodes nodes'
        × Agree field map nodes' (set_replica s.partitions p r x)
    move_replica_runs =
        let (nodes, e, given) = on_node_unless_zero (gives p r) current s.nodes current_there in
        let kept : contains node nodes ≡ true = ground (arith, given (λ _. true) node, there) in
        let (nodes', e', taken) = on_node-Changes (takes p r) node nodes pos kept in
        (nodes, nodes', rw e (rw e' refl), given, taken, moved nodes nodes' kept given taken)

    pub move_replica-Agree :
        (s' : ClusterState) × (move_replica
            (gives p r)
            (takes p r)
            s
            current
            node
            (set_replica s.partitions p r x)
          ≡ done s')
        × (s'.partitions ≡ set_replica s.partitions p r x)
        × Agree field map s'.nodes s'.partitions
    move_replica-Agree =
        let (nodes, nodes', e, given, taken, agree') = move_replica_runs in
        (record s { nodes = nodes'; partitions = set_replica s.partitions p r x }, e, refl, agree')
