-- ===== src/Merkle/Tree/Climb.antt =====
-- merkle/merkle.go: `UpdateLeafHash` writes one leaf and brings the nodes above it up to date.
use native.Mathlib.Nat.{pow-suc, one-le-pow}
use devicedb.Common.{
  ℕ, zero, suc, ◌+◌, ◌-◌, ◌/◌, ◌%◌, ◌^◌, ◌≤◌, ◌<◌, ◌≡◌, refl, sym, ap, arith, ◌∙◌, inl, inr, List,
  [], ◌∷◌, length, set, eqb, ltb, true, false, if◌then◌else◌, eqb_iff, Bool-cases, length-set,
  subst, ◌&&◌,
}
use devicedb.Data.Hash.{Hash}
use devicedb.Merkle.Nodes.{parent_node}
use devicedb.Merkle.Nodes.Position.{node_at}
use devicedb.Merkle.Nodes.Family.{parent_node-node_at}
use devicedb.Merkle.Nodes.InTree.{
  InTree, InTree-of_lt, node_at-lt, level-lt, InTree-parent, node_at_zero, node_at_root,
  pow-lt_uint32,
}
use devicedb.Merkle.Tree.{MerkleTree, hash_at, root_node, climb, update_leaf_hash, is_leaf}
use devicedb.Merkle.Tree.Rehash.{
  Sums, Pending, recompute, recompute-After, rehash_child-recompute, length-recompute,
  leaf-recompute,
}
use devicedb.Merkle.Tree.Drain.{up-Pending, below_root}
use devicedb.Merkle.Tree.Enter.{Pending-set_leaf, hash_at-set}
use devicedb.Merkle.Tree.Valid.{IsValidTree, Sums-of_valid, valid_of_Sums}

module _ (d : ℕ) (pos : 0 < d) (allowed : d ≤ 28) where
  -- The climb ends at the id above the root.
  top_id : parent_node (root_node d) ≡ 2 ^ d
  top_id =
      let d' : suc (d - 1) ≡ d = omega arith in
      let small = pow-lt_uint32 d allowed in
      let root : node_at (d - 1) 0 < 2 ^ d = node_at-lt (
        InTree-of_lt d (d - 1) 0 (
          omega (
            arith,
            node_at_zero (d - 1),
            pow-suc 2 (d - 1),
            ap (λ (k : ℕ). 2 ^ k) d',
            one-le-pow (d - 1) 2 (omega arith),
          ))) in
      let top : node_at (suc (d - 1)) (0 / 2) ≡ 2 ^ d =
        node_at_zero (suc (d - 1)) ∙ ap (λ (k : ℕ). 2 ^ k) d' in
      ap parent_node (sym (node_at_zero (d - 1)))
      ∙ parent_node-node_at (d - 1) 0 (omega arith) (omega arith) (omega (arith, top))
      ∙ top

  climb_top :
      (fuel : ℕ) (nodes : List Hash)
      → climb fuel (root_node d) nodes (parent_node (root_node d)) ≡ nodes
  unfolding climb
  climb_top zero nodes = refl
  climb_top (suc fuel) nodes =
      let same : eqb (parent_node (root_node d)) (parent_node (root_node d)) ≡ true =
        (eqb_iff _ _).1 refl in
      rw same

  inside_test : (m p : ℕ) → InTree d m p → eqb (node_at m p) (parent_node (root_node d)) ≡ false
  inside_test m p t = rw top_id (ground (arith, node_at-lt t))

  climb_lem :
      (fuel : ℕ) (nodes : List Hash) (m p : ℕ)
      → d ≤ m + fuel
      → InTree d m p
      → length nodes ≡ 2 ^ d
      → Pending d nodes ((m, p) ∷ [])
      → ((l q : ℕ) → InTree d (suc l) q → Sums (climb fuel (root_node d) nodes (node_at m p)) l q)
  unfolding climb
  climb_lem zero nodes m p w t sized ok = absurd (omega (arith, level-lt t))
  climb_lem (suc fuel) nodes m p w t sized ok =
      let pending =
        up-Pending d pos allowed (recompute nodes m p) m p []
          (recompute-After d allowed nodes sized m p [] ok t) in
      rw (inside_test m p t, rehash_child-recompute d allowed nodes sized m p t)
        (elim (Bool-cases (eqb (suc m) d)) [
          | inl top ↦
              let e = node_at_root d m p t ((eqb_iff _ _).0 top) in
              let pending' : Pending d (recompute nodes m p) [] = rw top at pending in
              rw (e, climb_top fuel (recompute nodes m p))
                (λ l q u. elim (pending' l q u) [ inl s ↦ s | inr st ↦ absurd st ])
          | inr n ↦
              let lt = below_root d pos allowed m p t n in
              let pending' : Pending d (recompute nodes m p) ((suc m, p / 2) ∷ []) =
                rw n at pending in
              let up_eq =
                parent_node-node_at m p (omega arith)
                  (omega (arith, node_at-lt t, pow-lt_uint32 d allowed))
                  (omega (arith, node_at-lt (InTree-parent t lt), pow-lt_uint32 d allowed)) in
              rw up_eq (
                climb_lem fuel (recompute nodes m p) (suc m) (p / 2) (omega arith)
                  (InTree-parent t lt) (length-recompute nodes m p ∙ sized) pending')
        ])

  -- The climb leaves the leaves alone, and keeps the number of nodes.
  climb_keeps :
      (fuel : ℕ) (nodes : List Hash) (m p : ℕ)
      → InTree d m p
      → length nodes ≡ 2 ^ d
      → (length (climb fuel (root_node d) nodes (node_at m p)) ≡ 2 ^ d)
        × ((r : ℕ)
            → hash_at (climb fuel (root_node d) nodes (node_at m p)) (node_at zero r)
              ≡ hash_at nodes (node_at zero r))
  unfolding climb
  climb_keeps zero nodes m p t sized = (sized, λ r. refl)
  climb_keeps (suc fuel) nodes m p t sized =
      let sized' = length-recompute nodes m p ∙ sized in
      rw (inside_test m p t, rehash_child-recompute d allowed nodes sized m p t)
        (elim (Bool-cases (eqb (suc m) d)) [
          | inl top ↦
              let e = node_at_root d m p t ((eqb_iff _ _).0 top) in
              rw (e, climb_top fuel (recompute nodes m p)) (sized', leaf-recompute nodes m p)
          | inr n ↦
              let lt = below_root d pos allowed m p t n in
              let up_eq =
                parent_node-node_at m p (omega arith)
                  (omega (arith, node_at-lt t, pow-lt_uint32 d allowed))
                  (omega (arith, node_at-lt (InTree-parent t lt), pow-lt_uint32 d allowed)) in
              let (a, b) =
                climb_keeps fuel (recompute nodes m p) (suc m) (p / 2) (InTree-parent t lt)
                  sized' in
              rw up_eq (a, λ r. b r ∙ leaf-recompute nodes m p r)
        ])

module _ (tree : MerkleTree) (v : IsValidTree tree) (n : ℕ) (hash : Hash) where
  -- `UpdateLeafHash` keeps a tree valid, whatever the node id: on the id of a leaf it brings every
  -- node above up to date, on another id it does nothing.
  pub update_leaf_hash-IsValid : IsValidTree (update_leaf_hash tree n hash)
  unfolding update_leaf_hash is_leaf
  update_leaf_hash-IsValid = elim (Bool-cases (eqb (n % 2) 1 && ltb n (2 ^ tree.depth))) [
    | inr other ↦ rw other v
    | inl leaf ↦
        let e : n ≡ node_at zero (n / 2) = ground arith in
        let t : InTree tree.depth zero (n / 2) =
          InTree-of_lt tree.depth zero (n / 2) (ground arith) in
        let sized = length-set tree.nodes (node_at zero (n / 2)) hash ∙ v.sized in
        let pending =
          Pending-set_leaf tree.depth v.allowed tree.nodes v.sized [] (n / 2) hash
            (λ l q u. inl (Sums-of_valid tree v l q u)) in
        rw (leaf, e)
          (valid_of_Sums tree.depth _ v.positive v.allowed
            (climb_keeps tree.depth v.positive v.allowed (tree.depth + 1) _ zero (n / 2) t sized).0
            (climb_lem tree.depth v.positive v.allowed (tree.depth + 1) _ zero (n / 2) (omega arith)
              t sized pending))
  ]

  -- After `UpdateLeafHash` that leaf has the hash written, and every other leaf the one it had.
  pub update_leaf_hash_leaf :
      n % 2 ≡ 1
      → n < 2 ^ tree.depth
      → (r : ℕ) → r % 2 ≡ 1
      → r < 2 ^ tree.depth
      → hash_at (update_leaf_hash tree n hash).nodes r
        ≡ (if eqb n r then hash else hash_at tree.nodes r)
  unfolding update_leaf_hash is_leaf
  update_leaf_hash_leaf odd small r odd' small' =
      let e : n ≡ node_at zero (n / 2) = omega arith in
      let e' : r ≡ node_at zero (r / 2) = omega arith in
      let leaf : (eqb (n % 2) 1 && ltb n (2 ^ tree.depth)) ≡ true = ground arith in
      let t : InTree tree.depth zero (n / 2) = InTree-of_lt tree.depth zero (n / 2) (omega arith) in
      let sized = length-set tree.nodes (node_at zero (n / 2)) hash ∙ v.sized in
      rw leaf (
        subst
          (λ (k : ℕ).
            hash_at (climb (tree.depth + 1) (root_node tree.depth) (set tree.nodes k hash) k) r
            ≡ hash_at (set tree.nodes k hash) r)
          (sym e)
          (subst
            (λ (k : ℕ).
              hash_at
                (climb (tree.depth + 1) (root_node tree.depth)
                  (set tree.nodes (node_at zero (n / 2)) hash) (node_at zero (n / 2)))
                k
              ≡ hash_at (set tree.nodes (node_at zero (n / 2)) hash) k)
            (sym e')
            ((climb_keeps tree.depth v.positive v.allowed (tree.depth + 1) _ zero (n / 2) t sized).1
              (r / 2)))
        ∙ hash_at-set tree.nodes n hash r (omega (arith, v.sized)))
