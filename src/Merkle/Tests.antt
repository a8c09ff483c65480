-- ===== src/Merkle/Tests.antt =====
-- Tests of the merkle tree: a tree of depth 3 with two leaves written, and an update of one key.
use devicedb.Common.{zero, ◌/◌, ◌^◌, ◌≤◌, ◌≡◌, refl, arith, none, some, [], ◌∷◌, ◌++◌, replicate}
use devicedb.Data.Tests.{toy_md5, toy_md5-ReturnsBytes, some_heap}
use devicedb.Data.Hash.{Hash, new_hash, zero_hash}
use devicedb.Data.Hash.Laws.{high-new_hash-lt}
use devicedb.Data.Update.{Update}
use devicedb.Merkle.Nodes.{leaf_node}
use devicedb.Merkle.Nodes.Position.{node_at}
use devicedb.Merkle.Nodes.InTree.{InTree, leaf_node-InTree}
use devicedb.Merkle.Queue.{
  Queue, IsValid, new_queue, enqueue, dequeue, contents, new_queue-IsValid, enqueue-IsValid,
  contents-enqueue, contents-dequeue,
}
use devicedb.Merkle.Tree.{
  MerkleTree, hash_at, new_merkle_tree, is_leaf, update_leaf_hash, update_tree, undo_update,
  preview_update, propagate,
}
use devicedb.Merkle.Tree.Valid.{IsValidTree, new_merkle_tree_lem, replicate-IsValidTree}
use devicedb.Merkle.Tree.Climb.{update_leaf_hash-IsValid}
use devicedb.Merkle.Tree.Enter.{exchanged}
use devicedb.Merkle.Tree.Updates.{
  update_tree-IsValid, update_tree_leaf, undo_update-update_tree, previewed,
  preview_update-update_tree, update_tree_empties,
}

abbrev empty_tree : MerkleTree
empty_tree = record { depth = 3; nodes = replicate (2 ^ 3) zero_hash }

empty_tree-IsValid : IsValidTree empty_tree
empty_tree-IsValid = replicate-IsValidTree 3 (omega arith) (omega arith)

new_merkle_tree_lem_example :
    ((1 ≤ 3) × (3 ≤ 28)
      → (tree : MerkleTree) × (new_merkle_tree 3 ≡ some tree) × (tree.depth ≡ 3) × IsValidTree tree)
    × (((1 ≤ 3) × (3 ≤ 28) → ⊥) → new_merkle_tree 3 ≡ none)
new_merkle_tree_lem_example = new_merkle_tree_lem 3

abbrev some_hash : Hash
some_hash = record { low = 12; high = 10 }

abbrev some_tree : MerkleTree
some_tree = update_leaf_hash empty_tree 5 some_hash

some_tree-IsValid : IsValidTree some_tree
some_tree-IsValid = update_leaf_hash-IsValid empty_tree empty_tree-IsValid 5 some_hash

some_tree-depth : some_tree.depth ≡ 3
unfolding update_leaf_hash is_leaf
some_tree-depth = refl

update_leaf_hash-IsValid_example :
    IsValidTree (update_leaf_hash some_tree 3 (record { low = 1; high = 2 }))
update_leaf_hash-IsValid_example =
    update_leaf_hash-IsValid some_tree some_tree-IsValid 3 (record { low = 1; high = 2 })

-- The key 7 gets sibling 3 beside sibling 2, and the key 9 is new.
abbrev some_update : Update
some_update =
    (
      7 ∷ [],
      record { key = 7 ∷ []; old_sibling_set = some (2 ∷ []); new_sibling_set = some (2 ∷ 3 ∷ []) },
    )
    ∷ (9 ∷ [], record { key = 9 ∷ []; old_sibling_set = none; new_sibling_set = some (1 ∷ []) })
    ∷ []

update_tree-IsValid_example : IsValidTree (update_tree toy_md5 some_heap some_tree some_update).0
update_tree-IsValid_example =
    update_tree-IsValid toy_md5 toy_md5-ReturnsBytes some_heap some_tree some_tree-IsValid
      some_update (omega arith)

update_tree_empties_example :
    (propagate toy_md5 some_heap some_tree.depth some_update some_tree.nodes).queue.size ≡ 0
update_tree_empties_example =
    update_tree_empties toy_md5 toy_md5-ReturnsBytes some_heap some_tree some_tree-IsValid
      some_update (omega arith)

update_tree_leaf_example :
    hash_at (update_tree toy_md5 some_heap some_tree some_update).0.nodes 5
    ≡ exchanged toy_md5 some_heap some_tree.depth some_update 5 (hash_at some_tree.nodes 5)
update_tree_leaf_example =
    update_tree_leaf toy_md5 toy_md5-ReturnsBytes some_heap some_tree some_tree-IsValid some_update
      (omega arith) 5 refl (rw some_tree-depth (omega arith))

undo_update-update_tree_example :
    hash_at
      (undo_update toy_md5 some_heap
        (update_tree toy_md5 some_heap some_tree some_update).0
        some_update).nodes
      4
    ≡ hash_at some_tree.nodes 4
undo_update-update_tree_example =
    undo_update-update_tree toy_md5 toy_md5-ReturnsBytes some_heap some_tree some_tree-IsValid
      some_update (omega arith) 4 (omega arith) (rw some_tree-depth (omega arith))

preview_update-update_tree_example :
    previewed some_tree.nodes 5 (preview_update toy_md5 some_heap some_tree some_update).0
    ≡ hash_at (update_tree toy_md5 some_heap some_tree some_update).0.nodes 5
preview_update-update_tree_example =
    preview_update-update_tree toy_md5 toy_md5-ReturnsBytes some_heap some_tree some_tree-IsValid
      some_update (omega arith) 5 refl (rw some_tree-depth (omega arith))

leaf_node-InTree_example :
    (leaf_node (new_hash toy_md5 (7 ∷ [])) 3
      ≡ node_at zero (leaf_node (new_hash toy_md5 (7 ∷ [])) 3 / 2))
    × InTree 3 zero (leaf_node (new_hash toy_md5 (7 ∷ [])) 3 / 2)
leaf_node-InTree_example =
    leaf_node-InTree (new_hash toy_md5 (7 ∷ [])) 3 (omega arith) (omega arith)
      (high-new_hash-lt toy_md5 toy_md5-ReturnsBytes (7 ∷ []))

abbrev some_queue : Queue
some_queue = enqueue (new_queue 2) 5

some_queue-IsValid : IsValid some_queue
some_queue-IsValid = enqueue-IsValid 5 (new_queue-IsValid 2 (omega arith))

contents-enqueue_example : contents (enqueue some_queue 6) ≡ contents some_queue ++ (6 ∷ [])
contents-enqueue_example =
    contents-enqueue 6 some_queue-IsValid (unfold new_queue in unfold enqueue in omega arith)

contents-dequeue_example :
    contents some_queue ≡ (dequeue some_queue).0 ∷ contents (dequeue some_queue).1
contents-dequeue_example =
    contents-dequeue some_queue-IsValid (unfold new_queue in unfold enqueue in omega arith)
