-- ===== src/Merkle/Tree/Rehash.antt =====
-- merkle/merkle.go: what it means that a tree is consistent, and what recomputing one node does.
use native.Mathlib.Decide.{ℕ_discrete}
use devicedb.Common.{
  ℕ, zero, suc, ◌+◌, ◌*◌, ◌/◌, ◌%◌, ◌^◌, ◌≤◌, ◌<◌, ◌≡◌, ◌≢◌, refl, sym, ap₂, arith, ◌∙◌, ◌⊎◌, inl,
  inr, List, [], ◌∷◌, ◌++◌, length, set, length-set, get_or-set_self, get_or-set_ne, eqb, false,
}
use devicedb.Data.Hash.{Hash, zero_hash, xor}
use devicedb.Merkle.Nodes.{below, above, left_child, right_child}
use devicedb.Merkle.Nodes.Position.{node_at, node_at_injective}
use devicedb.Merkle.Nodes.Family.{left_child-node_at, right_child-node_at}
use devicedb.Merkle.Nodes.InTree.{InTree, node_at-lt, level-lt, InTree-right, pow-lt_uint32}
use devicedb.Merkle.Tree.{hash_at, rehash, rehash_child}

-- The hash of an inner node is that of its children.
abbrev pub Sums : List Hash → ℕ → ℕ → Type 0
Sums nodes l q =
    hash_at nodes (node_at (suc l) q)
    ≡ xor (hash_at nodes (node_at l (2 * q))) (hash_at nodes (node_at l (2 * q + 1)))

-- The ancestor j levels up is at the position halved j times.
abbrev pub ancestor : ℕ → ℕ → ℕ
ancestor zero q = q
ancestor (suc j) q = ancestor j (q / 2)

-- A node is stale if it is one of the pending nodes, or above one.
abbrev pub Stale : List (ℕ × ℕ) → ℕ → ℕ → Type 0
Stale [] l q = ⊥
Stale ((m, p) ∷ pending) l q = ((j : ℕ) × (l ≡ m + j) × (q ≡ ancestor j p)) ⊎ Stale pending l q

pub Stale-append_left : (xs ys : List (ℕ × ℕ)) (l q : ℕ) → Stale xs l q → Stale (xs ++ ys) l q
Stale-append_left [] ys l q s = absurd s
Stale-append_left ((m, p) ∷ xs) ys l q (inl s) = inl s
Stale-append_left ((m, p) ∷ xs) ys l q (inr s) = inr (Stale-append_left xs ys l q s)

pub Stale-append_right : (xs ys : List (ℕ × ℕ)) (l q : ℕ) → Stale ys l q → Stale (xs ++ ys) l q
Stale-append_right [] ys l q s = s
Stale-append_right ((m, p) ∷ xs) ys l q s = inr (Stale-append_right xs ys l q s)

-- What recomputing a node by level and position does: a leaf is left as it is.
abbrev pub recompute : List Hash → ℕ → ℕ → List Hash
recompute nodes zero q = nodes
recompute nodes (suc l) q =
    set nodes (node_at (suc l) q)
      (xor (hash_at nodes (node_at l (2 * q))) (hash_at nodes (node_at l (2 * q + 1))))

pub length-recompute : (nodes : List Hash) (l q : ℕ) → length (recompute nodes l q) ≡ length nodes
length-recompute nodes zero q = refl
length-recompute nodes (suc l) q = length-set nodes _ _

-- Recomputing an inner node leaves the leaves alone.
pub leaf-recompute :
    (nodes : List Hash) (l q r : ℕ)
    → hash_at (recompute nodes l q) (node_at zero r) ≡ hash_at nodes (node_at zero r)
leaf-recompute nodes zero q r = refl
leaf-recompute nodes (suc l) q r =
    get_or-set_ne nodes _ _ _ zero_hash
      (λ e. absurd (omega (arith, node_at_injective (suc l) zero q r e)))

-- Every inner node is up to date, or stale.
abbrev pub Pending : ℕ → List Hash → List (ℕ × ℕ) → Type 0
Pending d nodes pending = (l q : ℕ) → InTree d (suc l) q → Sums nodes l q ⊎ Stale pending (suc l) q

module _ (d : ℕ) (allowed : d ≤ 28) (nodes : List Hash) (sized : length nodes ≡ 2 ^ d) where
  module _ (l q : ℕ) (t : InTree d (suc l) q) where
    node_small : node_at (suc l) q < 2 ^ 32
    node_small = omega (arith, node_at-lt t, pow-lt_uint32 d allowed)

    right_small : node_at l (2 * q + 1) < 2 ^ 32
    right_small = omega (arith, node_at-lt (InTree-right t), pow-lt_uint32 d allowed)

    pub left_eq : left_child (node_at (suc l) q) ≡ node_at l (2 * q)
    left_eq = left_child-node_at l q (omega (arith, level-lt t)) node_small

    pub right_eq : right_child (node_at (suc l) q) ≡ node_at l (2 * q + 1)
    right_eq = right_child-node_at l q (omega (arith, level-lt t)) right_small

    even : eqb (node_at (suc l) q % 2) 1 ≡ false
    even = ground arith

    below_eq : below (node_at (suc l) q) ≡ node_at l (2 * q)
    unfolding left_child
    below_eq = rw even at left_eq

    above_eq : above (node_at (suc l) q) ≡ node_at l (2 * q + 1)
    unfolding right_child
    above_eq = rw even at right_eq

  -- Both loops recompute nodes of the tree in this way.
  pub rehash-recompute : (l q : ℕ) → InTree d l q → rehash nodes (node_at l q) ≡ recompute nodes l q
  unfolding rehash
  rehash-recompute zero q t = ground arith
  rehash-recompute (suc l) q t = rw (even l q t, below_eq l q t, above_eq l q t)

  pub rehash_child-recompute :
      (l q : ℕ) → InTree d l q → rehash_child nodes (node_at l q) ≡ recompute nodes l q
  unfolding rehash_child
  rehash_child-recompute zero q t = ground arith
  rehash_child-recompute (suc l) q t = rw (even l q t, left_eq l q t, right_eq l q t)

  Sums-set_self :
      (l q : ℕ)
      → InTree d (suc l) q
      → Sums
          (set nodes
            (node_at (suc l) q)
            (xor (hash_at nodes (node_at l (2 * q))) (hash_at nodes (node_at l (2 * q + 1)))))
          l
          q
  Sums-set_self l q t =
      let n = node_at (suc l) q in
      let h = xor (hash_at nodes (node_at l (2 * q))) (hash_at nodes (node_at l (2 * q + 1))) in
      get_or-set_self nodes n h zero_hash (omega (arith, node_at-lt t))
      ∙ ap₂ xor (sym (get_or-set_ne nodes n _ h zero_hash (other (2 * q))))
          (sym (get_or-set_ne nodes n _ h zero_hash (other (2 * q + 1))))
    where
      other : (r : ℕ) → node_at (suc l) q ≢ node_at l r
      other r e = absurd (omega (arith, node_at_injective (suc l) l q r e))

  pub Sums-set_ne :
      (l q m p : ℕ) (h : Hash)
      → ((suc l ≡ m) × (q ≡ p) → ⊥)
      → ((suc l ≡ suc m) × (q ≡ p / 2) → ⊥)
      → Sums nodes l q
      → Sums (set nodes (node_at m p) h) l q
  Sums-set_ne l q m p h self parent s =
      get_or-set_ne nodes (node_at m p) _ h zero_hash
        (λ e. let (a, b) = node_at_injective m (suc l) p q e in self (sym a, sym b))
      ∙ s
      ∙ ap₂ xor
          (sym (
            get_or-set_ne nodes (node_at m p) _ h zero_hash (λ e.
              let (a, b) = node_at_injective m l p (2 * q) e in parent (omega arith, omega arith))))
          (sym (
            get_or-set_ne nodes (node_at m p) _ h zero_hash (λ e.
              let (a, b) = node_at_injective m l p (2 * q + 1) e in
              parent (omega arith, omega arith))))

pub both_eq : (a b c d : ℕ) → ((a ≡ b) × (c ≡ d)) ⊎ ((a ≡ b) × (c ≡ d) → ⊥)
both_eq a b c d = elim (ℕ_discrete a b) [
  | no n ↦ inr (λ e. n e.0)
  | yes y ↦ elim (ℕ_discrete c d) [ yes z ↦ inl (y, z) | no n ↦ inr (λ e. n e.1) ]
]

-- What is known of a node after the pending node (m, p) was recomputed.
abbrev pub After : ℕ → ℕ → List (ℕ × ℕ) → List Hash → ℕ → ℕ → Type 0
After m p rest nodes l q =
    Sums nodes l q
    ⊎ (((j : ℕ) × (suc l ≡ suc m + j) × (q ≡ ancestor j (p / 2))) ⊎ Stale rest (suc l) q)

-- After a pending node was recomputed, its parent takes its place among the stale nodes.
module _ (d : ℕ) (allowed : d ≤ 28) (nodes : List Hash) (sized : length nodes ≡ 2 ^ d) (m p : ℕ)
    (rest : List (ℕ × ℕ)) (ok : Pending d nodes ((m, p) ∷ rest)) where
  others :
      (nodes' : List Hash) (l q : ℕ)
      → InTree d (suc l) q
      → ((suc l ≡ m) × (q ≡ p) → ⊥)
      → (((suc l ≡ suc m) × (q ≡ p / 2) → ⊥) → Sums nodes l q → Sums nodes' l q)
      → After m p rest nodes' l q
  others nodes' l q t self keeps = elim (both_eq (suc l) (suc m) q (p / 2)) [
    | inl (a, b) ↦ inr (inl (0, omega arith, b))
    | inr parent ↦ elim (ok l q t) [
      | inl s ↦ inl (keeps parent s)
      | inr (inr s) ↦ inr (inr s)
      | inr (inl (zero, a, b)) ↦ absurd (self (omega arith, b))
      | inr (inl (suc j, a, b)) ↦ inr (inl (j, omega arith, b))
    ]
  ]

pub recompute-After :
    (d : ℕ) (allowed : d ≤ 28) (nodes : List Hash) (sized : length nodes ≡ 2 ^ d) (m p : ℕ)
    (rest : List (ℕ × ℕ)) (ok : Pending d nodes ((m, p) ∷ rest)) (t : InTree d m p) (l q : ℕ)
    (u : InTree d (suc l) q)
    → After m p rest (recompute nodes m p) l q
recompute-After d allowed nodes sized zero p rest ok t l q u =
    others d allowed nodes sized zero p rest ok nodes l q u (λ e. absurd (omega arith)) (λ _ s. s)
recompute-After d allowed nodes sized (suc m) p rest ok t l q u =
    elim (both_eq (suc l) (suc m) q p) [
      | inl (a, b) ↦
          let a' : l ≡ m = omega arith in
          inl (rw (a', b) (Sums-set_self d allowed nodes sized m p t))
      | inr self ↦
          others d allowed nodes sized (suc m) p rest ok (recompute nodes (suc m) p) l q u self
            (Sums-set_ne d allowed nodes sized l q (suc m) p _ self)
    ]
