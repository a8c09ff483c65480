-- ===== src/Merkle/Tree.antt =====
-- merkle/merkle.go: the tree and its operations. The mutex is not modelled: each method holds it
-- from its first line to its return, so a call is one step. An index outside `nodes` would be a
-- panic; the depth is at most 28, so no shift of a node id overflows.
pub mod Rehash
pub mod Drain
pub mod Valid
pub mod Enter
pub mod Climb
pub mod Updates
use devicedb.Common.{
  ℕ, zero, suc, ◌+◌, ◌-◌, ◌*◌, ◌/◌, ◌%◌, ◌^◌, Bool, true, false, Option, none, some, List, [], ◌∷◌,
  ◌&&◌, ◌||◌, not, Bytes, ltb, leb, eqb, if◌then◌else◌, length, get_or, set, replicate, nat_eq,
  bytes_eq,
}
use devicedb.Common.Dict.{Dict, lookup, contains, insert}
use devicedb.Data.SiblingSet.{SiblingSet, Heap}
use devicedb.Data.Hash.{Hash, zero_hash, xor, new_hash, hash_set}
use devicedb.Data.Update.{Update, Diff, update_size}
use devicedb.Merkle.Nodes.{
  parent_node, left_child, right_child, leaf_node, below, above, count_trailing_zeros,
}
use devicedb.Merkle.Queue.{Queue, new_queue, enqueue, dequeue}

abbrev pub merkle_min_depth : ℕ
merkle_min_depth = 1

abbrev pub merkle_max_depth : ℕ
merkle_max_depth = 28

pub record MerkleTree : Type 0 where
  pub depth : ℕ
  pub nodes : List Hash

-- `none` is the error for a depth out of bounds.
unfoldable pub new_merkle_tree : ℕ → Option MerkleTree
new_merkle_tree depth =
    if ltb depth merkle_min_depth || ltb merkle_max_depth depth
    then none
    else some (record { depth = depth; nodes = replicate (2 ^ depth) zero_hash })

abbrev pub hash_at : List Hash → ℕ → Hash
hash_at nodes i = get_or nodes i zero_hash

abbrev pub root_node : ℕ → ℕ
root_node depth = 2 ^ (depth - 1)

unfoldable pub root_hash : MerkleTree → Hash
root_hash tree = hash_at tree.nodes (root_node tree.depth)

unfoldable pub node_hash : MerkleTree → ℕ → Hash
node_hash tree node = if leb (length tree.nodes) node then zero_hash else hash_at tree.nodes node

unfoldable pub level : MerkleTree → ℕ → ℕ
level tree node = (tree.depth + 2 ^ 8 - count_trailing_zeros node % 2 ^ 8) % 2 ^ 8

unfoldable pub translate_node : MerkleTree → ℕ → ℕ → ℕ
translate_node tree node depth =
    if ltb tree.depth depth
    then node * 2 ^ (depth - tree.depth) % 2 ^ 32
    else node / 2 ^ (tree.depth - depth)

unfoldable pub is_leaf : MerkleTree → ℕ → Bool
is_leaf tree node = eqb (node % 2) 1 && ltb node (2 ^ tree.depth)

-- One turn of the loop of `UpdateLeafHash`.
pub rehash_child : List Hash → ℕ → List Hash
rehash_child nodes node =
    if not (eqb (node % 2) 1)
    then set nodes node (xor (hash_at nodes (left_child node)) (hash_at nodes (right_child node)))
    else nodes

-- The loop, on fuel; it ends above the root.
pub climb : ℕ → ℕ → List Hash → ℕ → List Hash
climb zero root nodes node = nodes
climb (suc fuel) root nodes node =
    let rest = climb fuel root (rehash_child nodes node) (parent_node node) in
    if eqb node (parent_node root) then nodes else rest

unfoldable pub update_leaf_hash : MerkleTree → ℕ → Hash → MerkleTree
unfolding climb rehash_child
update_leaf_hash tree node hash = if not (is_leaf tree node) then tree else record tree {
  nodes = climb (tree.depth + 1) (root_node tree.depth) (set tree.nodes node hash) node;
}

-- One turn of the second loop of `Update` and `UndoUpdate`, but for the queue.
pub rehash : List Hash → ℕ → List Hash
rehash nodes node =
    if not (eqb (node % 2) 1)
    then set nodes node (xor (hash_at nodes (below node)) (hash_at nodes (above node)))
    else nodes

pub record Draining : Type 0 where
  pub nodes : List Hash
  pub queue : Queue
  pub modified : Dict ℕ Bool

pub turn : ℕ → Draining → Draining
turn root d =
    let (node, queue) = dequeue d.queue in
    record {
      nodes = rehash d.nodes node;
      queue = if not (eqb node root) then enqueue queue (parent_node node) else queue;
      modified = insert node true d.modified;
    }

pub drain : ℕ → ℕ → Draining → Draining
drain zero root d = d
drain (suc fuel) root d =
    let rest = drain fuel root (turn root d) in if ltb 0 d.queue.size then rest else d

abbrev pub ObjectHashes : Type 0
ObjectHashes = Dict ℕ (Dict Bytes Hash)

-- `objectHashes[leaf][key] = hash`, the inner map made if it is missing.
abbrev pub put_object_hash : ObjectHashes → ℕ → Bytes → Hash → ObjectHashes
put_object_hash hashes leaf key hash =
    let inner : Dict Bytes Hash = elim (lookup leaf hashes) [ none ↦ [] | some m ↦ m ] in
    insert leaf (insert key hash inner) hashes

module _ (md5 : Bytes → Bytes) (heap : Heap) (depth : ℕ) where
  abbrev pub diff_leaf : Diff → ℕ
  diff_leaf diff = leaf_node (new_hash md5 diff.key) depth

  abbrev pub old_hash : Diff → Hash
  old_hash diff = hash_set md5 heap diff.old_sibling_set diff.key

  abbrev pub new_object_hash : Diff → Hash
  new_object_hash diff = hash_set md5 heap diff.new_sibling_set diff.key

  -- `hash.Xor(oldObjectHash).Xor(newObjectHash)`.
  abbrev pub exchange : Hash → Diff → Hash
  exchange hash diff = xor (xor hash (old_hash diff)) (new_object_hash diff)

  -- The first loop of `Update` and `UndoUpdate`: the leaves and the queue.
  pub enter : Update → List Hash → Queue → List Hash × Queue
  enter [] nodes queue = (nodes, queue)
  enter ((_, diff) ∷ update) nodes queue =
      let leaf = diff_leaf diff in
      enter update (set nodes leaf (exchange (hash_at nodes leaf) diff)) (enqueue queue leaf)

  object_hashes : Update → ObjectHashes → ObjectHashes
  object_hashes [] hashes = hashes
  object_hashes ((_, diff) ∷ update) hashes =
      object_hashes update (put_object_hash hashes (diff_leaf diff) diff.key (new_object_hash diff))

  -- Both loops, with fuel for every node on the way from each leaf to the root.
  unfoldable pub propagate : Update → List Hash → Draining
  unfolding enter turn drain rehash
  propagate update nodes =
      let (nodes', queue) = enter update nodes (new_queue (update_size update % 2 ^ 32)) in
      drain (update_size update * depth) (root_node depth)
        (record { nodes = nodes'; queue = queue; modified = [] })

  -- `PreviewUpdate`: the new leaf hashes, and the object hashes.
  pub preview_leafs : List Hash → Update → Dict ℕ Hash → Dict ℕ Hash
  preview_leafs nodes [] leafs = leafs
  preview_leafs nodes ((_, diff) ∷ update) leafs =
      let leaf = diff_leaf diff in
      let hash : Hash = elim (lookup leaf leafs) [ none ↦ hash_at nodes leaf | some h ↦ h ] in
      preview_leafs nodes update (insert leaf (exchange hash diff) leafs)

module _ (md5 : Bytes → Bytes) (heap : Heap) where
  -- `Update`: the tree, the modified nodes and the new object hashes by leaf.
  unfoldable pub update_tree : MerkleTree → Update → MerkleTree × Dict ℕ Bool × ObjectHashes
  unfolding propagate object_hashes
  update_tree tree update =
      let d = propagate md5 heap tree.depth update tree.nodes in
      (record tree { nodes = d.nodes }, d.modified, object_hashes md5 heap tree.depth update [])

  unfoldable pub undo_update : MerkleTree → Update → MerkleTree
  unfolding propagate
  undo_update tree update = record tree {
    nodes = (propagate md5 heap tree.depth update tree.nodes).nodes;
  }

  unfoldable pub preview_update : MerkleTree → Update → Dict ℕ Hash × ObjectHashes
  unfolding preview_leafs object_hashes
  preview_update tree update = (
    preview_leafs md5 heap tree.depth tree.nodes update [],
    object_hashes md5 heap tree.depth update [],
  )
