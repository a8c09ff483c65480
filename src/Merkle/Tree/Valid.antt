-- ===== src/Merkle/Tree/Valid.antt =====
-- merkle/merkle.go: the trees that the program keeps, and how their hashes are determined.
use devicedb.Common.{
  ℕ, zero, suc, ◌+◌, ◌*◌, ◌%◌, ◌^◌, ◌≤◌, ◌<◌, ◌≡◌, refl, sym, ap₂, arith, ◌∙◌, List, length, ltb,
  true, false, ◌||◌, replicate, length-replicate, none, some,
}
use devicedb.Data.Hash.{Hash, zero_hash, xor}
use devicedb.Data.Hash.Laws.{xor_self}
use devicedb.Merkle.Nodes.{left_child, right_child}
use devicedb.Merkle.Nodes.Position.{node_at}
use devicedb.Merkle.Nodes.InTree.{
  InTree, node_at-lt, node_at-pos, InTree-of_lt, InTree-left, InTree-right, position,
}
use devicedb.Merkle.Tree.{MerkleTree, hash_at, new_merkle_tree}
use devicedb.Merkle.Tree.Rehash.{Sums, left_eq, right_eq}

-- A tree that the program keeps: an allowed depth, a hash for every id below 2 ^ depth, and on
-- every even id the sum of the hashes of its children.
pub record IsValidTree (tree : MerkleTree) : Type 0 where
  pub positive : 0 < tree.depth
  pub allowed : tree.depth ≤ 28
  pub sized : length tree.nodes ≡ 2 ^ tree.depth
  pub sums :
      (n : ℕ)
      → 0 < n
      → n < 2 ^ tree.depth
      → n % 2 ≡ 0
      → hash_at tree.nodes n
        ≡ xor (hash_at tree.nodes (left_child n)) (hash_at tree.nodes (right_child n))

module _ (tree : MerkleTree) (v : IsValidTree tree) where
  -- The same by level and position.
  pub Sums-of_valid : (l q : ℕ) → InTree tree.depth (suc l) q → Sums tree.nodes l q
  Sums-of_valid l q t =
      v.sums (node_at (suc l) q) (node_at-pos (suc l) q) (node_at-lt t) (omega arith)
      ∙ ap₂ (λ a b. xor (hash_at tree.nodes a) (hash_at tree.nodes b))
          (left_eq tree.depth v.allowed tree.nodes v.sized l q t)
          (right_eq tree.depth v.allowed tree.nodes v.sized l q t)

pub valid_of_Sums :
    (depth : ℕ) (nodes : List Hash)
    → 0 < depth
    → depth ≤ 28
    → length nodes ≡ 2 ^ depth
    → ((l q : ℕ) → InTree depth (suc l) q → Sums nodes l q)
    → IsValidTree (record { depth = depth; nodes = nodes })
valid_of_Sums depth nodes pos allowed sized sums = record {
  positive = pos;
  allowed = allowed;
  sized = sized;
  sums = λ n h small even. at n (position n h) small even;
}
  where
    at :
        (n : ℕ)
        → (l : ℕ) × (q : ℕ) × (n ≡ node_at l q)
        → n < 2 ^ depth
        → n % 2 ≡ 0
        → hash_at nodes n ≡ xor (hash_at nodes (left_child n)) (hash_at nodes (right_child n))
    at n (zero, q, e) small even = absurd (omega arith)
    at n (suc l, q, e) small even =
        let t = InTree-of_lt depth (suc l) q (omega arith) in
        rw (e, left_eq depth allowed nodes sized l q t, right_eq depth allowed nodes sized l q t)
          (sums l q t)

-- Two sets of hashes that agree on the leaves and are sums above them agree on every node.
pub same_above :
    (d : ℕ) (xs ys : List Hash)
    → ((l q : ℕ) → InTree d (suc l) q → Sums xs l q)
    → ((l q : ℕ) → InTree d (suc l) q → Sums ys l q)
    → ((r : ℕ) → InTree d zero r → hash_at xs (node_at zero r) ≡ hash_at ys (node_at zero r))
    → (l q : ℕ) → InTree d l q
    → hash_at xs (node_at l q) ≡ hash_at ys (node_at l q)
same_above d xs ys sx sy leaves zero q t = leaves q t
same_above d xs ys sx sy leaves (suc l) q t =
    sx l q t
    ∙ ap₂ xor (same_above d xs ys sx sy leaves l (2 * q) (InTree-left t))
        (same_above d xs ys sx sy leaves l (2 * q + 1) (InTree-right t))
    ∙ sym (sy l q t)

hash_at-replicate : (n i : ℕ) → hash_at (replicate n zero_hash) i ≡ zero_hash
hash_at-replicate zero i = refl
hash_at-replicate (suc n) zero = refl
hash_at-replicate (suc n) (suc i) = hash_at-replicate n i

pub replicate-IsValidTree :
    (depth : ℕ)
    → 0 < depth
    → depth ≤ 28
    → IsValidTree (record { depth = depth; nodes = replicate (2 ^ depth) zero_hash })
replicate-IsValidTree depth a b =
    valid_of_Sums depth _ a b (length-replicate (2 ^ depth) zero_hash)
      (λ l q t. simp (hash_at-replicate, xor_self))

-- `NewMerkleTree` returns a valid tree for every depth from 1 to 28, and an error for every other.
pub new_merkle_tree_lem :
    (depth : ℕ)
    → ((1 ≤ depth) × (depth ≤ 28)
        → (tree : MerkleTree) × (new_merkle_tree depth ≡ some tree)
          × (tree.depth ≡ depth)
          × IsValidTree tree)
      × (((1 ≤ depth) × (depth ≤ 28) → ⊥) → new_merkle_tree depth ≡ none)
unfolding new_merkle_tree
new_merkle_tree_lem depth = (made, refused)
  where
    made :
        (1 ≤ depth) × (depth ≤ 28)
        → (tree : MerkleTree) × (new_merkle_tree depth ≡ some tree)
          × (tree.depth ≡ depth)
          × IsValidTree tree
    made (a, b) =
        let e : (ltb depth 1 || ltb 28 depth) ≡ false = ground arith in
        (_, rw e refl, refl, replicate-IsValidTree depth a b)

    refused : ((1 ≤ depth) × (depth ≤ 28) → ⊥) → new_merkle_tree depth ≡ none
    refused h = let e : (ltb depth 1 || ltb 28 depth) ≡ true = ground arith in rw e
