-- ===== src/Merkle/Tree/Updates.antt =====
-- merkle/merkle.go: what `Update` and `UndoUpdate` do to the hashes of a tree.
use devicedb.Common.{
  ℕ, zero, ◌/◌, ◌%◌, ◌^◌, ◌<◌, ◌≤◌, ◌≡◌, refl, sym, ap, arith, ◌∙◌, ◌⊎◌, inl, inr, List, [], ◌∷◌,
  eqb, true, false, Bool, if◌then◌else◌, eqb_iff, Bytes, nat_eq, Bool-cases, Option, none, some,
}
use devicedb.Common.Dict.{Dict, lookup, insert, lookup-insert}
use devicedb.Data.SiblingSet.{Heap}
use devicedb.Data.Hash.{Hash}
use devicedb.Data.Hash.Laws.{ReturnsBytes}
use devicedb.Data.Update.{Update, update_size}
use devicedb.Merkle.Nodes.Position.{node_at}
use devicedb.Merkle.Nodes.InTree.{InTree, node_at-lt, InTree-of_lt, position}
use devicedb.Merkle.Tree.{
  MerkleTree, hash_at, propagate, diff_leaf, exchange, update_tree, undo_update, preview_update,
  preview_leafs,
}
use devicedb.Merkle.Tree.Valid.{IsValidTree, Sums-of_valid, valid_of_Sums, same_above}
use devicedb.Merkle.Tree.Enter.{
  exchanged, exchanged_twice, propagate-Sums, propagate_empties, length-propagate, propagate_leaf,
}

module _ (md5 : Bytes → Bytes) (bytes : ReturnsBytes md5) (heap : Heap) (tree : MerkleTree)
    (v : IsValidTree tree) (update : Update) (small : update_size update ≤ 2 ^ 31) where
  -- If MD5 returns bytes, `Update` with at most 2 ^ 31 differences keeps a tree valid: every even id
  -- holds the sum of its children afterwards.
  pub update_tree-IsValid : IsValidTree (update_tree md5 heap tree update).0
  unfolding update_tree
  update_tree-IsValid =
      valid_of_Sums tree.depth _ v.positive v.allowed
        (length-propagate md5 bytes heap tree.depth v.positive v.allowed update tree.nodes v.sized
          (Sums-of_valid tree v) small)
        (propagate-Sums md5 bytes heap tree.depth v.positive v.allowed update tree.nodes v.sized
          (Sums-of_valid tree v) small)

  -- Such an `Update` changes the hash of a leaf by the old and the new hash of every difference on that
  -- leaf, and by nothing else.
  pub update_tree_leaf :
      (n : ℕ)
      → n % 2 ≡ 1
      → n < 2 ^ tree.depth
      → hash_at (update_tree md5 heap tree update).0.nodes n
        ≡ exchanged md5 heap tree.depth update n (hash_at tree.nodes n)
  unfolding update_tree
  update_tree_leaf n odd below =
      let e : n ≡ node_at zero (n / 2) = omega arith in
      rw e (
        propagate_leaf md5 bytes heap tree.depth v.positive v.allowed update tree.nodes v.sized
          (Sums-of_valid tree v) small (n / 2) (InTree-of_lt tree.depth zero (n / 2) (omega arith)))

  -- On a valid tree the second loop of such an `Update` ends with an empty queue, within its fuel.
  pub update_tree_empties : (propagate md5 heap tree.depth update tree.nodes).queue.size ≡ 0
  update_tree_empties =
      propagate_empties md5 bytes heap tree.depth v.positive v.allowed update tree.nodes v.sized
        (Sums-of_valid tree v) small

undo-update_tree :
    (md5 : Bytes → Bytes) (heap : Heap) (tree : MerkleTree) (update : Update)
    → undo_update md5 heap tree update ≡ (update_tree md5 heap tree update).0
unfolding undo_update update_tree
undo-update_tree md5 heap tree update = refl

depth-update_tree :
    (md5 : Bytes → Bytes) (heap : Heap) (tree : MerkleTree) (update : Update)
    → (update_tree md5 heap tree update).0.depth ≡ tree.depth
unfolding update_tree
depth-update_tree md5 heap tree update = refl

module _ (md5 : Bytes → Bytes) (bytes : ReturnsBytes md5) (heap : Heap) (tree : MerkleTree)
    (v : IsValidTree tree) (update : Update) (small : update_size update ≤ 2 ^ 31) where
  abbrev updated : MerkleTree
  updated = (update_tree md5 heap tree update).0

  -- On a valid tree, with at most 2 ^ 31 differences, `UndoUpdate` after the same `Update` gives every node the hash that it had.
  pub undo_update-update_tree :
      (n : ℕ)
      → 0 < n
      → n < 2 ^ tree.depth
      → hash_at (undo_update md5 heap (update_tree md5 heap tree update).0 update).nodes n
        ≡ hash_at tree.nodes n
  unfolding update_tree
  undo_update-update_tree n pos below =
      let valid = update_tree-IsValid md5 bytes heap tree v update small in
      let undone = update_tree-IsValid md5 bytes heap updated valid update small in
      let (l, q, e) = position n pos in
      rw (e, undo-update_tree md5 heap updated update)
        (same_above tree.depth _ tree.nodes
          (Sums-of_valid (update_tree md5 heap updated update).0 undone) (Sums-of_valid tree v) leaf
          l q (InTree-of_lt tree.depth l q (omega arith)))
    where
      leaf :
          (r : ℕ)
          → InTree tree.depth zero r
          → hash_at (update_tree md5 heap updated update).0.nodes (node_at zero r)
            ≡ hash_at tree.nodes (node_at zero r)
      leaf r t =
          let odd : node_at zero r % 2 ≡ 1 = omega arith in
          update_tree_leaf md5 bytes heap updated
            (update_tree-IsValid md5 bytes heap tree v update small) update small (node_at zero r)
            odd (node_at-lt t)
          ∙ ap (exchanged md5 heap tree.depth update (node_at zero r)) (
              update_tree_leaf md5 bytes heap tree v update small (node_at zero r) odd
                (node_at-lt t))
          ∙ exchanged_twice md5 heap tree.depth update (node_at zero r) _

-- What `PreviewUpdate` says of node `n`: the previewed hash, or else the one in the tree.
abbrev pub previewed : List Hash → ℕ → Dict ℕ Hash → Hash
previewed nodes n leafs = elim (lookup n leafs) [ none ↦ hash_at nodes n | some h ↦ h ]

module _ (md5 : Bytes → Bytes) (heap : Heap) (depth : ℕ) (nodes : List Hash) (n : ℕ) where
  previewed-insert :
      (leaf : ℕ) (hash : Hash) (leafs : Dict ℕ Hash)
      → previewed nodes n (insert leaf hash leafs)
        ≡ (if eqb leaf n then hash else previewed nodes n leafs)
  previewed-insert leaf hash leafs =
      ap (λ (o : Option Hash). elim o [ none ↦ hash_at nodes n | some h ↦ h ])
        (lookup-insert leaf n hash leafs)
      ∙ at (eqb leaf n)
    where
      at :
          (t : Bool)
          → (elim (if t then some hash else lookup n leafs) as (λ _. Hash) [
            | none ↦ hash_at nodes n
            | some h ↦ h
          ])
            ≡ (if t then hash else previewed nodes n leafs)
      at true = refl
      at false = refl

  previewed_lem :
      (update : Update) (leafs : Dict ℕ Hash)
      → previewed nodes n (preview_leafs md5 heap depth nodes update leafs)
        ≡ exchanged md5 heap depth update n (previewed nodes n leafs)
  unfolding preview_leafs exchanged
  previewed_lem [] leafs = refl
  previewed_lem ((k, diff) ∷ update) leafs =
      previewed_lem update _
      ∙ ap (exchanged md5 heap depth update n) (
          previewed-insert (diff_leaf md5 heap depth diff) _ leafs
          ∙ at (Bool-cases (eqb (diff_leaf md5 heap depth diff) n)))
    where
      at :
          (eqb (diff_leaf md5 heap depth diff) n ≡ true)
            ⊎ (eqb (diff_leaf md5 heap depth diff) n ≡ false)
          → (if eqb (diff_leaf md5 heap depth diff) n
              then exchange md5 heap depth
                  (previewed nodes (diff_leaf md5 heap depth diff) leafs)
                  diff
              else previewed nodes n leafs)
            ≡ (if eqb (diff_leaf md5 heap depth diff) n
                then exchange md5 heap depth (previewed nodes n leafs) diff
                else previewed nodes n leafs)
      at (inl y) =
          ap
            (λ k.
              if eqb (diff_leaf md5 heap depth diff) n
              then exchange md5 heap depth (previewed nodes k leafs) diff
              else previewed nodes n leafs)
            ((eqb_iff _ _).0 y)
      at (inr z) = rw z

module _ (md5 : Bytes → Bytes) (bytes : ReturnsBytes md5) (heap : Heap) (tree : MerkleTree)
    (v : IsValidTree tree) (update : Update) (small : update_size update ≤ 2 ^ 31) where
  -- For at most 2 ^ 31 differences on a valid tree, what `PreviewUpdate` says of a leaf, the hash in the tree where it says nothing, is the hash that
  -- the leaf has after `Update`.
  pub preview_update-update_tree :
      (n : ℕ)
      → n % 2 ≡ 1
      → n < 2 ^ tree.depth
      → previewed tree.nodes n (preview_update md5 heap tree update).0
        ≡ hash_at (update_tree md5 heap tree update).0.nodes n
  unfolding preview_update
  preview_update-update_tree n odd below =
      previewed_lem md5 heap tree.depth tree.nodes n update []
      ∙ sym (update_tree_leaf md5 bytes heap tree v update small n odd below)
