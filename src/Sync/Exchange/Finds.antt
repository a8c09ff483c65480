-- ===== src/Sync/Exchange/Finds.antt =====
-- server/sync.go: an exchange over two trees of the same depth with different root hashes finds a leaf
-- whose hashes differ.
use native.Mathlib.Nat.{pow-suc, one-le-pow}
use devicedb.Common.{
  ℕ, zero, suc, ◌+◌, ◌*◌, ◌%◌, ◌^◌, ◌≤◌, ◌<◌, ◌≡◌, ◌≢◌, refl, sym, ap, ap₂, arith, ◌∙◌, subst, Bool,
  true, false, ◌&&◌, some, List, [], ◌∷◌, ◌++◌, Bytes, leb, leb→le, length, ◌⊎◌, inl, inr,
  Bool-cases,
}
use devicedb.Common.Dict.{Dict}
use devicedb.Data.Hash.{Hash, xor}
use devicedb.Merkle.Nodes.Position.{node_at}
use devicedb.Merkle.Nodes.InTree.{InTree, InTree-left, InTree-right}
use devicedb.Merkle.Tree.{hash_at}
use devicedb.Merkle.Tree.Rehash.{Sums}
use devicedb.Sync.Messages.{left_hash_compare, right_hash_compare, db_object_push, sync_object_next}
use devicedb.Sync.Proxy.{LocalBucket, relay_bucket_proxy, SyncIter}
use devicedb.Sync.Initiator as Initiator
use devicedb.Sync.Initiator.{InitiatorSyncSession, peek_exploration_queue}
use devicedb.Sync.Exchange.{Exchange, round, rounds, answer, directed}
use devicedb.Sync.Exchange.Answers.{differ, answering, searching}
use devicedb.Sync.Exchange.Search.{
  SameDepth, exchange_at, differ_at, push_if, round_left, round_right, dig_inner, dig_leaf,
  right_queue, request_of,
}

-- Nodes by level and position.
abbrev pub Positions : Type 0
Positions = List (ℕ × ℕ)

abbrev pub ids : Positions → List ℕ
ids [] = []
ids ((l, q) ∷ ps) = node_at l q ∷ ids ps

ids-append : (ps : Positions) (l q : ℕ) → ids (ps ++ ((l, q) ∷ [])) ≡ ids ps ++ (node_at l q ∷ [])
ids-append [] l q = refl
ids-append ((m, p) ∷ ps) l q = ap (λ (xs : List ℕ). node_at m p ∷ xs) (ids-append ps l q)

length-ids : (ps : Positions) → length (ids ps) ≡ length ps
length-ids [] = refl
length-ids ((m, p) ∷ ps) = ap suc (length-ids ps)

length-snoc : (ps : Positions) (p : ℕ × ℕ) → length (ps ++ (p ∷ [])) ≡ suc (length ps)
length-snoc [] p = refl
length-snoc (x ∷ ps) p = ap suc (length-snoc ps p)

push_if_cons :
    (b : Bool) (n m : ℕ) (queue : List ℕ) → push_if b (n ∷ queue) m ≡ n ∷ push_if b queue m
push_if_cons true n m queue = refl
push_if_cons false n m queue = refl

-- The number of nodes that a search of the queue can still meet, at most.
abbrev pub weight : Positions → ℕ
weight [] = 0
weight ((l, q) ∷ ps) = 3 ^ l + weight ps

weight-snoc : (ps : Positions) (l q : ℕ) → weight (ps ++ ((l, q) ∷ [])) ≡ weight ps + 3 ^ l
weight-snoc [] l q = omega arith
weight-snoc ((m, p) ∷ ps) l q = omega (arith, weight-snoc ps l q)

pub same_hash : (a b : Hash) → differ a b ≡ false → a ≡ b
same_hash a b h =
    let high : a.high ≡ b.high = ground arith in let low : a.low ≡ b.low = ground arith in cc

pub differ_self : (a : Hash) → differ a a ≡ false
differ_self a = ground arith

-- The initiator has asked for the objects of a leaf of the tree whose hashes differ: that leaf is the
-- first of its queue, and the message it has sent names it.
pub record Found (d : ℕ) (mine theirs : LocalBucket) (id : ℕ) (e : Exchange) : Type 0 where
  pub position : ℕ
  pub in_tree : InTree d zero position
  pub asks : e.initiator.current_state ≡ db_object_push
  pub first : peek_exploration_queue e.initiator ≡ node_at zero position
  pub sent :
      e.sent
      ≡ some (record {
        session_id = id;
        message_body = sync_object_next (record { node_id = node_at zero position });
        direction = 5;
        node_id = [];
      })
  pub apart :
      hash_at mine.merkle_tree.nodes (node_at zero position)
      ≢ hash_at theirs.merkle_tree.nodes (node_at zero position)

pub differ_apart : (a b : Hash) → differ a b ≡ true → a ≢ b
differ_apart a b h e = let f = rw e at h in let g = differ_self b in cc

module _ (d : ℕ) (mine theirs : LocalBucket) (same : SameDepth d mine theirs) where
  -- Every position is in the tree, and its hashes differ.
  abbrev pub Open : Positions → Type 0
  Open [] = Unit
  Open ((l, q) ∷ ps) = InTree d l q × (differ_at mine theirs (node_at l q) ≡ true) × Open ps

  Open-snoc :
      (ps : Positions) (l q : ℕ)
      → Open ps
      → InTree d l q
      → differ_at mine theirs (node_at l q) ≡ true
      → Open (ps ++ ((l, q) ∷ []))
  Open-snoc [] l q o t h = (t, h, tt)
  Open-snoc ((m, p) ∷ ps) l q (u, k, o) t h = (u, k, Open-snoc ps l q o t h)

  -- If neither child of a node differs, then the node does not.
  child_differs :
      (sums : (l q : ℕ) → InTree d (suc l) q → Sums mine.merkle_tree.nodes l q)
      (sums_theirs : (l q : ℕ) → InTree d (suc l) q → Sums theirs.merkle_tree.nodes l q) (l q : ℕ)
      (t : InTree d (suc l) q)
      → differ_at mine theirs (node_at (suc l) q) ≡ true
      → differ_at mine theirs (node_at l (2 * q)) ≡ false
      → differ_at mine theirs (node_at l (2 * q + 1)) ≡ false
      → ⊥
  child_differs sums sums_theirs l q t h a b =
      let e : hash_at mine.merkle_tree.nodes (node_at (suc l) q)
          ≡ hash_at theirs.merkle_tree.nodes (node_at (suc l) q) =
        sums l q t ∙ ap₂ xor (same_hash _ _ a) (same_hash _ _ b) ∙ sym (sums_theirs l q t) in
      let f = differ_self (hash_at theirs.merkle_tree.nodes (node_at (suc l) q)) in
      let g = rw e at h in cc

  module _ (sums : (l q : ℕ) → InTree d (suc l) q → Sums mine.merkle_tree.nodes l q)
      (sums_theirs : (l q : ℕ) → InTree d (suc l) q → Sums theirs.merkle_tree.nodes l q)
      (id root limit : ℕ) (outgoing : Bool) (known : Dict Bytes Bool)
      (small : limit + 1 < 2 ^ 32) where
    -- An exchange at LEFT_HASH_COMPARE, for a queue of positions and the left child of the first.
    abbrev pub left_exchange : ℕ → ℕ → Positions → Exchange
    left_exchange l q ps =
        exchange_at d mine theirs same id root limit outgoing known left_hash_compare
          (node_at (suc l) q ∷ ids ps) (node_at l (2 * q))

    abbrev dug : List ℕ → Exchange
    dug queue =
        answer (relay_bucket_proxy theirs) (answering id d root)
          (request_of (
            Initiator.dig (relay_bucket_proxy mine)
              (searching id d limit outgoing known right_hash_compare queue)))
          []

    -- Two rounds replace the first position by those of its children that differ, at the end of the
    -- queue, the right one if there is room.
    two_rounds :
        (l q : ℕ) (ps mid : Positions) (t : InTree d (suc l) q)
        → push_if (differ_at mine theirs (node_at l (2 * q))) (ids ps) (node_at l (2 * q)) ≡ ids mid
        → rounds (relay_bucket_proxy mine) (relay_bucket_proxy theirs) 2 (left_exchange l q ps)
          ≡ dug (right_queue mine theirs limit (node_at l (2 * q + 1)) (ids mid))
    two_rounds l q ps mid t e =
        let m = relay_bucket_proxy mine in
        let th = relay_bucket_proxy theirs in
        ap (round m th) (
          round_left d mine theirs same id root limit outgoing known l q (ids ps) t
          ∙ ap
              (λ (queue : List ℕ).
                exchange_at d mine theirs same id root limit outgoing known right_hash_compare queue
                  (node_at l (2 * q + 1)))
              (push_if_cons (differ_at mine theirs (node_at l (2 * q))) (node_at (suc l) q)
                  (node_at l (2 * q)) (ids ps)
                ∙ ap (λ (queue : List ℕ). node_at (suc l) q ∷ queue) e))
        ∙ round_right d mine theirs same id root limit outgoing known l q (ids mid) t

    -- What is left to explore after two rounds.
    record Stepped (l q : ℕ) (ps : Positions) : Type 0 where
      next : Positions
      reached :
          rounds (relay_bucket_proxy mine) (relay_bucket_proxy theirs) 2 (left_exchange l q ps)
          ≡ dug (ids next)
      open_next : Open next
      bounded : length next ≤ limit
      lighter : weight next < 3 ^ suc l + weight ps
      filled : 0 < length next

    room :
        {b : Bool} {n : ℕ}
        → b ≡ true
        → suc n ≤ limit
        → (b && leb (suc n % 2 ^ 32) limit) ≡ false
        → ⊥
    room {b} {n} e h f =
        let r : leb (suc n % 2 ^ 32) limit ≡ true = ground arith in let g = rw (e, r) at f in cc

    step_right :
        (l q : ℕ) (ps mid : Positions) (t : InTree d (suc l) q)
        → push_if (differ_at mine theirs (node_at l (2 * q))) (ids ps) (node_at l (2 * q)) ≡ ids mid
        → Open mid
        → weight mid ≤ weight ps + 3 ^ l
        → length mid ≤ limit
        → (0 < length mid)
          ⊎ ((differ_at mine theirs (node_at l (2 * q + 1)) ≡ true) × (suc (length mid) ≤ limit))
        → Stepped l q ps
    step_right l q ps mid t e o w n f =
        let right = node_at l (2 * q + 1) in
        elim (Bool-cases
          (differ_at mine theirs right && leb (suc (length (ids mid)) % 2 ^ 32) limit)) [
            | inl h ↦ record {
              next = mid ++ ((l, 2 * q + 1) ∷ []);
              reached =
                  two_rounds l q ps mid t e ∙ ap dug (rw (h, ids-append mid l (2 * q + 1)) refl);
              open_next = Open-snoc mid l (2 * q + 1) o (InTree-right t) (ground arith);
              bounded =
                  (let r : leb (suc (length (ids mid)) % 2 ^ 32) limit ≡ true = ground arith in
                    let r' = leb→le (suc (length (ids mid)) % 2 ^ 32) limit r in
                    omega (arith, length-snoc mid (l, 2 * q + 1), length-ids mid));
              lighter =
                  omega (
                    arith,
                    weight-snoc mid l (2 * q + 1),
                    pow-suc 3 l,
                    one-le-pow l 3 (omega arith),
                  );
              filled = omega (arith, length-snoc mid (l, 2 * q + 1));
            }
            | inr h ↦ record {
              next = mid;
              reached = two_rounds l q ps mid t e ∙ ap dug (rw h refl);
              open_next = o;
              bounded = n;
              lighter = omega (arith, pow-suc 3 l, one-le-pow l 3 (omega arith));
              filled = elim f [
                | inl p ↦ p
                | inr (a, b) ↦ absurd (room a (omega (arith, length-ids mid)) h)
              ];
            }
          ]

    step :
        (l q : ℕ) (ps : Positions)
        → Open ((suc l, q) ∷ ps)
        → suc (length ps) ≤ limit
        → Stepped l q ps
    step l q ps (t, h, o) n = elim (Bool-cases (differ_at mine theirs (node_at l (2 * q)))) [
      | inl left ↦
          step_right l q ps (ps ++ ((l, 2 * q) ∷ [])) t (rw (left, ids-append ps l (2 * q)) refl)
            (Open-snoc ps l (2 * q) o (InTree-left t) left)
            (omega (arith, weight-snoc ps l (2 * q))) (omega (arith, length-snoc ps (l, 2 * q)))
            (inl (omega (arith, length-snoc ps (l, 2 * q))))
      | inr left ↦
          step_right l q ps ps t (rw left refl) o (omega arith) (omega arith) (inr (right left, n))
    ]
      where
        right :
            differ_at mine theirs (node_at l (2 * q)) ≡ false
            → differ_at mine theirs (node_at l (2 * q + 1)) ≡ true
        right left = elim (Bool-cases (differ_at mine theirs (node_at l (2 * q + 1)))) [
          | inl e ↦ e
          | inr e ↦ absurd (child_differs sums sums_theirs l q t h left e)
        ]

    module _
        (readable : (q : ℕ)
          → InTree d zero q
          → (iter : SyncIter) × (mine.get_sync_children (node_at zero q) ≡ some iter)
            × (iter.failed ≡ false)) where
      -- The rounds after a step: they end at a leaf, or go on at an inner node.
      onward :
          (fuel : ℕ)
          → ((l q : ℕ) (ps : Positions)
              → 3 ^ suc l + weight ps ≤ fuel
              → Open ((suc l, q) ∷ ps)
              → suc (length ps) ≤ limit
              → (k : ℕ) × Found d mine theirs id (
                  rounds
                    (relay_bucket_proxy mine)
                    (relay_bucket_proxy theirs)
                    k
                    (left_exchange l q ps)))
          → (next : Positions) → Open next
          → length next ≤ limit
          → weight next ≤ fuel
          → 0 < length next
          → (k : ℕ) × Found d mine theirs id
              (rounds (relay_bucket_proxy mine) (relay_bucket_proxy theirs) k (dug (ids next)))
      onward fuel go [] o n w f = absurd (omega arith)
      onward fuel go ((zero, q) ∷ next) (t, h, o) n w f =
          let (iter, rows, fine) = readable q t in
          let (known', e, message) =
            dig_leaf d mine theirs same id root limit outgoing known (ids next) q t
              (omega (arith, length-ids next)) iter rows fine in
          (
            0,
            record {
              position = q;
              in_tree = t;
              asks = ap (λ (s : InitiatorSyncSession). s.current_state) e;
              first = ap (λ (s : InitiatorSyncSession). peek_exploration_queue s) e;
              sent = ap (directed 5) message;
              apart = differ_apart _ _ h;
            },
          )
      onward fuel go ((suc l, q) ∷ next) (t, h, o) n w f =
          subst
            (λ (e : Exchange).
              (k : ℕ) × Found d mine theirs id
                (rounds (relay_bucket_proxy mine) (relay_bucket_proxy theirs) k e))
            (sym (
              dig_inner d mine theirs same id root limit outgoing known l q (ids next) t
                (omega (arith, length-ids next))))
            (go l q next w (t, h, o) n)

      pub search :
          (fuel l q : ℕ) (ps : Positions)
          → 3 ^ suc l + weight ps ≤ fuel
          → Open ((suc l, q) ∷ ps)
          → suc (length ps) ≤ limit
          → (k : ℕ) × Found d mine theirs id (
              rounds (relay_bucket_proxy mine) (relay_bucket_proxy theirs) k (left_exchange l q ps))
      search zero l q ps w o n = absurd (omega (arith, one-le-pow (suc l) 3 (omega arith)))
      search (suc fuel) l q ps w o n =
          let s = step l q ps o n in
          let (k, found) =
            onward fuel (search fuel) s.next s.open_next s.bounded (omega (arith, s.lighter))
              s.filled in
          (
            suc (suc k),
            subst
                (λ (e : Exchange).
                  Found d mine theirs id
                    (rounds (relay_bucket_proxy mine) (relay_bucket_proxy theirs) k e))
                (sym s.reached) found,
          )
