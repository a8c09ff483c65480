-- ===== src/Merkle/Tree/Drain.antt =====
-- merkle/merkle.go: the second loop of `Update` and `UndoUpdate` brings every node above the queued
-- ones up to date, and ends with an empty queue.
use devicedb.Common.{
  ℕ, zero, suc, ◌+◌, ◌-◌, ◌/◌, ◌^◌, ◌≤◌, ◌<◌, ◌≡◌, refl, sym, ap, arith, ◌∙◌, inl, inr, List, [],
  ◌∷◌, ◌++◌, length, eqb, ltb, true, false, not, if◌then◌else◌, eqb_iff, bool_ext, Bool-cases,
}
use devicedb.Data.Hash.{Hash}
use devicedb.Merkle.Nodes.{parent_node}
use devicedb.Merkle.Nodes.Position.{node_at}
use devicedb.Merkle.Nodes.Family.{parent_node-node_at}
use devicedb.Merkle.Nodes.InTree.{
  InTree, node_at-lt, level-lt, InTree-parent, node_at_root, root_level, pow-lt_uint32,
}
use devicedb.Merkle.Queue.{
  Queue, IsValid, contents, enqueue, dequeue, enqueue-IsValid, dequeue-IsValid, contents-enqueue,
  contents-dequeue, length-contents, dequeue_room,
}
use devicedb.Merkle.Tree.{hash_at, root_node, Draining, turn, drain}
use devicedb.Merkle.Tree.Rehash.{
  Sums, Pending, After, recompute-After, rehash-recompute, length-recompute, leaf-recompute,
  Stale-append_left, Stale-append_right,
}

-- The node ids of pending nodes.
abbrev pub ids : List (ℕ × ℕ) → List ℕ
ids [] = []
ids ((m, p) ∷ pending) = node_at m p ∷ ids pending

abbrev pub AllInTree : ℕ → List (ℕ × ℕ) → Type 0
AllInTree d [] = Unit
AllInTree d ((m, p) ∷ pending) = InTree d m p × AllInTree d pending

-- The nodes from the pending ones up to the root.
abbrev pub work : ℕ → List (ℕ × ℕ) → ℕ
work d [] = 0
work d ((m, p) ∷ pending) = (d - m) + work d pending

pub ids-append : (xs ys : List (ℕ × ℕ)) → ids (xs ++ ys) ≡ ids xs ++ ids ys
ids-append [] ys = refl
ids-append ((m, p) ∷ xs) ys = ap (◌∷◌ (node_at m p)) (ids-append xs ys)

work-append : (d : ℕ) (xs ys : List (ℕ × ℕ)) → work d (xs ++ ys) ≡ work d xs + work d ys
work-append d [] ys = omega arith
work-append d ((m, p) ∷ xs) ys = omega (arith, work-append d xs ys)

pub AllInTree-append :
    (d : ℕ) (xs ys : List (ℕ × ℕ)) → AllInTree d xs → AllInTree d ys → AllInTree d (xs ++ ys)
AllInTree-append d [] ys a b = b
AllInTree-append d ((m, p) ∷ xs) ys a b = (a.0, AllInTree-append d xs ys a.1 b)

-- The parent of a pending node becomes pending, unless the node is the root.
abbrev pub up : ℕ → ℕ → ℕ → List (ℕ × ℕ) → List (ℕ × ℕ)
up d m p rest = if eqb (suc m) d then rest else rest ++ ((suc m, p / 2) ∷ [])

-- What holds before each turn.
pub record Holds (d : ℕ) (s : Draining) (pending : List (ℕ × ℕ)) : Type 0 where
  pub sized : length s.nodes ≡ 2 ^ d
  pub valid : IsValid s.queue
  pub queued : contents s.queue ≡ ids pending
  pub inside : AllInTree d pending
  pub ok : Pending d s.nodes pending

module _ (d : ℕ) (pos : 0 < d) (allowed : d ≤ 28) where
  pub up-Pending :
      (nodes : List Hash) (m p : ℕ) (rest : List (ℕ × ℕ))
      → ((l q : ℕ) → InTree d (suc l) q → After m p rest nodes l q)
      → Pending d nodes (up d m p rest)
  up-Pending nodes m p rest after l q t = elim (Bool-cases (eqb (suc m) d)) [
    | inl top ↦ rw top (elim (after l q t) [
      | inl s ↦ inl s
      | inr (inl (j, a, b)) ↦ absurd (omega (arith, level-lt t, (eqb_iff (suc m) d).0 top))
      | inr (inr st) ↦ inr st
    ])
    | inr n ↦ rw n (elim (after l q t) [
      | inl s ↦ inl s
      | inr (inl s) ↦ inr (Stale-append_right rest ((suc m, p / 2) ∷ []) (suc l) q (inl s))
      | inr (inr st) ↦ inr (Stale-append_left rest ((suc m, p / 2) ∷ []) (suc l) q st)
    ])
  ]

  pub root_test : (m p : ℕ) → InTree d m p → eqb (node_at m p) (root_node d) ≡ eqb (suc m) d
  root_test m p t =
      bool_ext _ _ (λ h. (eqb_iff (suc m) d).1 (root_level d m p pos ((eqb_iff _ _).0 h)))
        (λ h. (eqb_iff _ _).1 (node_at_root d m p t ((eqb_iff (suc m) d).0 h)))

  parent_eq :
      (m p : ℕ) (t : InTree d m p) → suc m < d → parent_node (node_at m p) ≡ node_at (suc m) (p / 2)
  parent_eq m p t h =
      parent_node-node_at m p (omega arith) (omega (arith, node_at-lt t, pow-lt_uint32 d allowed))
        (omega (arith, node_at-lt (InTree-parent t h), pow-lt_uint32 d allowed))

  pub below_root : (m p : ℕ) → InTree d m p → eqb (suc m) d ≡ false → suc m < d
  below_root m p t n = ground (arith, level-lt t)

  -- What a turn does to the queue.
  abbrev next_queue : Queue → ℕ → Queue
  next_queue queue node =
      if not (eqb node (root_node d)) then enqueue queue (parent_node node) else queue

  next_queue_lem :
      (queue : Queue) (m p : ℕ) (rest : List (ℕ × ℕ))
      → IsValid queue
      → queue.size < length queue.buf
      → contents queue ≡ ids rest
      → InTree d m p
      → IsValid (next_queue queue (node_at m p))
        × (contents (next_queue queue (node_at m p)) ≡ ids (up d m p rest))
  next_queue_lem queue m p rest v room e t =
      rw (root_test m p t) (elim (Bool-cases (eqb (suc m) d)) [
        | inl top ↦ rw top (v, e)
        | inr n ↦
            rw (n, parent_eq m p t (below_root m p t n))
              (
                enqueue-IsValid _ v,
                contents-enqueue _ v room
                    ∙ ap (λ k. k ++ (node_at (suc m) (p / 2) ∷ [])) e
                    ∙ sym (ids-append rest ((suc m, p / 2) ∷ [])),
              )
      ])

  up-AllInTree :
      (m p : ℕ) (rest : List (ℕ × ℕ))
      → InTree d m p
      → AllInTree d rest
      → AllInTree d (up d m p rest)
  up-AllInTree m p rest t all = elim (Bool-cases (eqb (suc m) d)) [
    | inl top ↦ rw top all
    | inr n ↦ rw n (AllInTree-append d rest _ all (InTree-parent t (below_root m p t n), tt))
  ]

  work-up :
      (m p : ℕ) (rest : List (ℕ × ℕ))
      → InTree d m p
      → work d (up d m p rest) + 1 ≡ work d ((m, p) ∷ rest)
  work-up m p rest t = elim (Bool-cases (eqb (suc m) d)) [
    | inl top ↦ rw top (omega (arith, (eqb_iff (suc m) d).0 top))
    | inr n ↦ rw (n, work-append d rest ((suc m, p / 2) ∷ [])) (omega (arith, below_root m p t n))
  ]

  first :
      (s : Draining) (m p : ℕ) (rest : List (ℕ × ℕ))
      → Holds d s ((m, p) ∷ rest)
      → (0 < s.queue.size)
        × ((dequeue s.queue).0 ≡ node_at m p)
        × (contents (dequeue s.queue).1 ≡ ids rest)
  first s m p rest h =
      let size : 0 < s.queue.size = omega (arith, length-contents s.queue, ap length h.queued) in
      let both = sym (contents-dequeue h.valid size) ∙ h.queued in (size, cc, cc)

  Holds-turn :
      (s : Draining) (m p : ℕ) (rest : List (ℕ × ℕ))
      → Holds d s ((m, p) ∷ rest)
      → Holds d (turn (root_node d) s) (up d m p rest)
  unfolding turn
  Holds-turn s m p rest h =
      let (size, node, others) = first s m p rest h in
      let t = h.inside.0 in
      let queue =
        next_queue_lem (dequeue s.queue).1 m p rest (dequeue-IsValid h.valid)
          (dequeue_room h.valid size) others t in
      let e = rehash-recompute d allowed s.nodes h.sized m p t in
      record {
        sized = rw (node, e) (length-recompute s.nodes m p ∙ h.sized);
        valid = rw node queue.0;
        queued = rw node queue.1;
        inside = up-AllInTree m p rest t h.inside.1;
        ok =
            rw (node, e)
              (up-Pending _ m p rest (recompute-After d allowed s.nodes h.sized m p rest h.ok t));
      }

  -- With nothing pending every node is up to date, and the queue is empty.
  finished :
      (s : Draining)
      → Holds d s []
      → ((l q : ℕ) → InTree d (suc l) q → Sums s.nodes l q) × (s.queue.size ≡ 0)
  finished s h = (
    λ l q t. elim (h.ok l q t) [ inl e ↦ e | inr st ↦ absurd st ],
    omega (arith, length-contents s.queue, ap length h.queued),
  )

  -- With fuel for every pending node and those above it, the loop ends with all nodes up to date
  -- and an empty queue.
  pub drain_lem :
      (fuel : ℕ) (s : Draining) (pending : List (ℕ × ℕ))
      → work d pending ≤ fuel
      → Holds d s pending
      → ((l q : ℕ) → InTree d (suc l) q → Sums (drain fuel (root_node d) s).nodes l q)
        × ((drain fuel (root_node d) s).queue.size ≡ 0)
  unfolding drain
  drain_lem zero s [] w h = finished s h
  drain_lem zero s ((m, p) ∷ rest) w h = absurd (omega (arith, level-lt h.inside.0))
  drain_lem (suc fuel) s [] w h =
      let over : ltb 0 s.queue.size ≡ false = ground (arith, (finished s h).1) in
      rw over (finished s h)
  drain_lem (suc fuel) s ((m, p) ∷ rest) w h =
      let (size, node, others) = first s m p rest h in
      let more : ltb 0 s.queue.size ≡ true = ground arith in
      rw more (
        drain_lem fuel (turn (root_node d) s) (up d m p rest)
          (omega (arith, work-up m p rest h.inside.0)) (Holds-turn s m p rest h))

  -- The loop leaves the hashes of the leaves alone.
  pub drain_leaf :
      (fuel : ℕ) (s : Draining) (pending : List (ℕ × ℕ)) (r : ℕ)
      → Holds d s pending
      → hash_at (drain fuel (root_node d) s).nodes (node_at zero r)
        ≡ hash_at s.nodes (node_at zero r)
  unfolding drain
  drain_leaf zero s pending r h = refl
  drain_leaf (suc fuel) s [] r h =
      let over : ltb 0 s.queue.size ≡ false = ground (arith, (finished s h).1) in rw over
  drain_leaf (suc fuel) s ((m, p) ∷ rest) r h =
      let (size, node, others) = first s m p rest h in
      let more : ltb 0 s.queue.size ≡ true = ground arith in
      let e = rehash-recompute d allowed s.nodes h.sized m p h.inside.0 in
      rw more (
        drain_leaf fuel (turn (root_node d) s) (up d m p rest) r (Holds-turn s m p rest h)
        ∙ unfold turn in rw (node, e) (leaf-recompute s.nodes m p r))

  -- And the number of nodes.
  pub length-drain :
      (fuel : ℕ) (s : Draining) (pending : List (ℕ × ℕ))
      → Holds d s pending
      → length (drain fuel (root_node d) s).nodes ≡ 2 ^ d
  unfolding drain
  length-drain zero s pending h = h.sized
  length-drain (suc fuel) s [] h =
      let over : ltb 0 s.queue.size ≡ false = ground (arith, (finished s h).1) in rw over h.sized
  length-drain (suc fuel) s ((m, p) ∷ rest) h =
      let (size, node, others) = first s m p rest h in
      let more : ltb 0 s.queue.size ≡ true = ground arith in
      rw more (length-drain fuel (turn (root_node d) s) (up d m p rest) (Holds-turn s m p rest h))
