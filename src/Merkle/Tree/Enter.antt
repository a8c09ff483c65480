-- ===== src/Merkle/Tree/Enter.antt =====
-- merkle/merkle.go: the two loops of `Update` and `UndoUpdate`, put together.
use mathlib.Core.List.{append-nil, append_assoc}
use mathlib.Core.Bool.{false≢true}
use devicedb.Common.{
  ℕ, zero, suc, ◌+◌, ◌*◌, ◌/◌, ◌^◌, ◌%◌, ◌≤◌, ◌≤◌, ◌<◌, ◌≡◌, refl, sym, ap, arith, ◌∙◌, ◌⊎◌, inl,
  inr, List, [], ◌∷◌, ◌++◌, length, set, eqb, true, false, if◌then◌else◌, eqb_iff, Bytes,
  Bool-cases, length-set, get_or-set_self, get_or-set_ne, length-replicate,
}
use devicedb.Data.SiblingSet.{Heap}
use devicedb.Data.Hash.{Hash, zero_hash, xor, new_hash}
use devicedb.Data.Hash.Laws.{
  xor_cancel, xor_assoc, xor-zero, zero-xor, ReturnsBytes, high-new_hash-lt,
}
use devicedb.Data.Update.{Update, Diff, update_size}
use devicedb.Merkle.Nodes.Position.{node_at}
use devicedb.Merkle.Nodes.InTree.{InTree, node_at-lt, leaf_node-InTree}
use devicedb.Merkle.Queue.{
  Queue, enqueue, new_queue, enqueue-IsValid, new_queue-IsValid, contents-enqueue, size-enqueue,
}
use devicedb.Merkle.Tree.{
  hash_at, Draining, enter, propagate, diff_leaf, old_hash, new_object_hash, exchange,
}
use devicedb.Merkle.Tree.Rehash.{
  Sums, Pending, Stale-append_left, Stale-append_right, both_eq, Sums-set_ne,
}
use devicedb.Merkle.Tree.Drain.{
  ids-append, AllInTree-append, work, Holds, drain_lem, drain_leaf, length-drain,
}

pub hash_at-set :
    (nodes : List Hash) (leaf : ℕ) (h : Hash) (n : ℕ)
    → n < length nodes
    → hash_at (set nodes leaf h) n ≡ (if eqb leaf n then h else hash_at nodes n)
hash_at-set nodes leaf h n small = elim (Bool-cases (eqb leaf n)) [
  | inl y ↦
      let e : leaf ≡ n = (eqb_iff leaf n).0 y in
      rw y (rw e (get_or-set_self nodes n h zero_hash small))
  | inr z ↦ rw z (
      get_or-set_ne nodes leaf n h zero_hash
        (λ e. let y = (eqb_iff leaf n).1 e in false≢true (sym z ∙ y)))
]

regroup : (h o k e : Hash) → xor (xor (xor h o) k) e ≡ xor h (xor (xor (xor zero_hash o) k) e)
regroup h o k e = simp (xor_assoc, zero-xor)

-- Writing a leaf makes the nodes above it stale.
pub Pending-set_leaf :
    (d : ℕ) (allowed : d ≤ 28) (nodes : List Hash) (sized : length nodes ≡ 2 ^ d)
    (pending : List (ℕ × ℕ)) (p : ℕ) (h : Hash)
    → Pending d nodes pending
    → Pending d (set nodes (node_at zero p) h) (pending ++ ((zero, p) ∷ []))
Pending-set_leaf d allowed nodes sized pending p h ok l q t = elim (both_eq (suc l) 1 q (p / 2)) [
  | inl (a, b) ↦
      inr (Stale-append_right pending ((zero, p) ∷ []) (suc l) q (inl (1, omega arith, b)))
  | inr parent ↦ elim (ok l q t) [
    | inl s ↦
        inl (Sums-set_ne d allowed nodes sized l q zero p h (λ e. absurd (omega arith)) parent s)
    | inr st ↦ inr (Stale-append_left pending ((zero, p) ∷ []) (suc l) q st)
  ]
]

module _ (md5 : Bytes → Bytes) (heap : Heap) (d : ℕ) where
  -- The leaf hash that the differences of an update make of `hash`.
  unfoldable pub exchanged : Update → ℕ → Hash → Hash
  exchanged [] n hash = hash
  exchanged ((_, diff) ∷ update) n hash =
      exchanged update n
        (if eqb (diff_leaf md5 heap d diff) n then exchange md5 heap d hash diff else hash)

  exchanged-xor :
      (update : Update) (n : ℕ) (h : Hash)
      → exchanged update n h ≡ xor h (exchanged update n zero_hash)
  unfolding exchanged
  exchanged-xor [] n h = sym (xor-zero h)
  exchanged-xor ((k, diff) ∷ update) n h = elim (Bool-cases (eqb (diff_leaf md5 heap d diff) n)) [
    | inl y ↦ rw y (
        exchanged-xor update n (exchange md5 heap d h diff)
        ∙ regroup h (old_hash md5 heap d diff) (new_object_hash md5 heap d diff)
            (exchanged update n zero_hash)
        ∙ ap (xor h) (sym (exchanged-xor update n (exchange md5 heap d zero_hash diff))))
    | inr z ↦ rw z (exchanged-xor update n h)
  ]

  -- Exchanging twice gives the hash back.
  pub exchanged_twice :
      (update : Update) (n : ℕ) (h : Hash) → exchanged update n (exchanged update n h) ≡ h
  exchanged_twice update n h =
      exchanged-xor update n (exchanged update n h)
      ∙ ap (λ k. xor k (exchanged update n zero_hash)) (exchanged-xor update n h)
      ∙ xor_cancel h (exchanged update n zero_hash)

module _ (md5 : Bytes → Bytes) (bytes : ReturnsBytes md5) (heap : Heap) (d : ℕ) (pos : 0 < d)
    (allowed : d ≤ 28) where
  abbrev place : Diff → ℕ
  place diff = diff_leaf md5 heap d diff / 2

  place-InTree :
      (diff : Diff)
      → (diff_leaf md5 heap d diff ≡ node_at zero (place diff)) × InTree d zero (place diff)
  place-InTree diff =
      leaf_node-InTree (new_hash md5 diff.key) d pos allowed (high-new_hash-lt md5 bytes diff.key)

  abbrev places : Update → List (ℕ × ℕ)
  places [] = []
  places ((_, diff) ∷ update) = (zero, place diff) ∷ places update

  work-places : (update : Update) → work d (places update) ≡ update_size update * d
  work-places [] = omega arith
  work-places ((_, diff) ∷ update) = omega (arith, work-places update)

  abbrev start : List Hash × Queue → Draining
  start s = record { nodes = s.0; queue = s.1; modified = [] }

  enter-step :
      (nodes : List Hash) (queue : Queue) (pending : List (ℕ × ℕ)) (n p : ℕ) (h : Hash)
      → n ≡ node_at zero p
      → InTree d zero p
      → Holds d (start (nodes, queue)) pending
      → queue.size < length queue.buf
      → Holds d (start (set nodes n h, enqueue queue n)) (pending ++ ((zero, p) ∷ []))
  enter-step nodes queue pending n p h e t held room = rw e (record {
    sized = length-set nodes (node_at zero p) h ∙ held.sized;
    valid = enqueue-IsValid (node_at zero p) held.valid;
    queued =
        contents-enqueue (node_at zero p) held.valid room
        ∙ ap (λ k. k ++ (node_at zero p ∷ [])) held.queued
        ∙ sym (ids-append pending ((zero, p) ∷ []));
    inside = AllInTree-append d pending ((zero, p) ∷ []) held.inside (t, tt);
    ok = Pending-set_leaf d allowed nodes held.sized pending p h held.ok;
  })

  -- The first loop queues the leaf of every difference.
  enter-Holds :
      (update : Update) (nodes : List Hash) (queue : Queue) (pending : List (ℕ × ℕ))
      → Holds d (start (nodes, queue)) pending
      → queue.size + update_size update ≤ length queue.buf
      → Holds d (start (enter md5 heap d update nodes queue)) (pending ++ places update)
  unfolding enter
  enter-Holds [] nodes queue pending h room = rw append-nil h
  enter-Holds ((k, diff) ∷ update) nodes queue pending h room =
      let leaf = diff_leaf md5 heap d diff in
      let h' = exchange md5 heap d (hash_at nodes leaf) diff in
      let (e, t) = place-InTree diff in
      let size = size-enqueue queue leaf (omega arith) in
      rw append_assoc at (
        enter-Holds update (set nodes leaf h') (enqueue queue leaf)
          (pending ++ ((zero, place diff) ∷ []))
          (enter-step nodes queue pending leaf (place diff) h' e t h (omega arith)) (omega arith))

  hash_at-enter :
      (update : Update) (nodes : List Hash) (queue : Queue) (n : ℕ)
      → n < length nodes
      → hash_at (enter md5 heap d update nodes queue).0 n
        ≡ exchanged md5 heap d update n (hash_at nodes n)
  unfolding enter exchanged
  hash_at-enter [] nodes queue n h = refl
  hash_at-enter ((k, diff) ∷ update) nodes queue n h =
      let leaf = diff_leaf md5 heap d diff in
      let h' = exchange md5 heap d (hash_at nodes leaf) diff in
      hash_at-enter update (set nodes leaf h') (enqueue queue leaf) n
        (omega (arith, length-set nodes leaf h'))
      ∙ ap (exchanged md5 heap d update n) (swap (Bool-cases (eqb leaf n)))
    where
      written :
          hash_at
            (set nodes
              (diff_leaf md5 heap d diff)
              (exchange md5 heap d (hash_at nodes (diff_leaf md5 heap d diff)) diff))
            n
          ≡ (if eqb (diff_leaf md5 heap d diff) n
              then exchange md5 heap d (hash_at nodes (diff_leaf md5 heap d diff)) diff
              else hash_at nodes n)
      written = hash_at-set nodes (diff_leaf md5 heap d diff) _ n h

      swap :
          (eqb (diff_leaf md5 heap d diff) n ≡ true) ⊎ (eqb (diff_leaf md5 heap d diff) n ≡ false)
          → hash_at
              (set nodes
                (diff_leaf md5 heap d diff)
                (exchange md5 heap d (hash_at nodes (diff_leaf md5 heap d diff)) diff))
              n
            ≡ (if eqb (diff_leaf md5 heap d diff) n
                then exchange md5 heap d (hash_at nodes n) diff
                else hash_at nodes n)
      swap (inl y) =
          written
          ∙ ap
              (λ k.
                if eqb (diff_leaf md5 heap d diff) n
                then exchange md5 heap d (hash_at nodes k) diff
                else hash_at nodes n)
              ((eqb_iff _ _).0 y)
      swap (inr z) = written ∙ rw z

  propagate-Holds :
      (update : Update) (nodes : List Hash)
      → length nodes ≡ 2 ^ d
      → ((l q : ℕ) → InTree d (suc l) q → Sums nodes l q)
      → update_size update ≤ 2 ^ 31
      → Holds d
          (start (enter md5 heap d update nodes (new_queue (update_size update % 2 ^ 32))))
          (places update)
  propagate-Holds update nodes sized sums small =
      enter-Holds update nodes (new_queue (update_size update % 2 ^ 32)) []
        (record {
          sized = sized;
          valid = new_queue-IsValid (update_size update % 2 ^ 32) (omega (arith, small));
          queued = unfold new_queue in refl;
          inside = tt;
          ok = λ l q t. inl (sums l q t);
        })
        (unfold new_queue in
          omega (arith, small, length-replicate {A = ℕ} (update_size update % 2 ^ 32) 0))

  module _ (update : Update) (nodes : List Hash) (sized : length nodes ≡ 2 ^ d)
      (sums : (l q : ℕ) → InTree d (suc l) q → Sums nodes l q)
      (small : update_size update ≤ 2 ^ 31) where
    pub propagate-Sums :
        (l q : ℕ) → InTree d (suc l) q → Sums (propagate md5 heap d update nodes).nodes l q
    unfolding propagate
    propagate-Sums =
        (drain_lem d pos allowed (update_size update * d) _ (places update)
          (omega (arith, work-places update)) (propagate-Holds update nodes sized sums small)).0

    pub propagate_empties : (propagate md5 heap d update nodes).queue.size ≡ 0
    unfolding propagate
    propagate_empties =
        (drain_lem d pos allowed (update_size update * d) _ (places update)
          (omega (arith, work-places update)) (propagate-Holds update nodes sized sums small)).1

    pub length-propagate : length (propagate md5 heap d update nodes).nodes ≡ 2 ^ d
    unfolding propagate
    length-propagate =
        length-drain d pos allowed (update_size update * d) _ (places update)
          (propagate-Holds update nodes sized sums small)

    pub propagate_leaf :
        (r : ℕ)
        → InTree d zero r
        → hash_at (propagate md5 heap d update nodes).nodes (node_at zero r)
          ≡ exchanged md5 heap d update (node_at zero r) (hash_at nodes (node_at zero r))
    unfolding propagate
    propagate_leaf r t =
        drain_leaf d pos allowed (update_size update * d) _ (places update) r
          (propagate-Holds update nodes sized sums small)
        ∙ hash_at-enter update nodes (new_queue (update_size update % 2 ^ 32)) (node_at zero r)
            (omega (arith, node_at-lt t))
