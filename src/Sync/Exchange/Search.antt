-- ===== src/Sync/Exchange/Search.antt =====
-- server/sync.go: the rounds by which an initiator digs for a leaf, over two trees of the same depth.
use devicedb.Common.{
  ℕ, zero, suc, ◌+◌, ◌-◌, ◌*◌, ◌%◌, ◌^◌, ◌≤◌, ◌<◌, ◌≡◌, refl, ap, arith, Bool, true, false, ◌&&◌,
  some, List, [], ◌∷◌, ◌++◌, Bytes, leb, eqb, length, if◌then◌else◌, inl, inr, Bool-cases,
}
use devicedb.Common.Dict.{Dict}
use devicedb.Merkle.Nodes.{left_child, right_child}
use devicedb.Merkle.Nodes.Position.{node_at}
use devicedb.Merkle.Nodes.InTree.{
  InTree, node_at-lt, node_at-pos, level-lt, InTree-left, InTree-right,
}
use devicedb.Merkle.Tree.{hash_at, node_hash, level}
use devicedb.Merkle.Tree.Rehash.{left_eq, right_eq}
use devicedb.Sync.Messages.{
  State, left_hash_compare, right_hash_compare, db_object_push, Turn, message, sync_object_next,
}
use devicedb.Sync.Proxy.{LocalBucket, relay_bucket_proxy, SyncIter}
use devicedb.Sync.Initiator as Initiator
use devicedb.Sync.Initiator.{row_keys, InitiatorSyncSession}
use devicedb.Sync.Exchange.{Exchange, round, initiator_turn, responder_turn, answer, directed}
use devicedb.Sync.Exchange.Answers.{
  differ, translate_same, node_hash_in, level-node_at, hash_message, answering, searching, answers,
  hash_request,
}

-- Two buckets whose trees have the depth d.
pub record SameDepth (d : ℕ) (mine theirs : LocalBucket) : Type 0 where
  pub depth : mine.merkle_tree.depth ≡ d
  pub depth_theirs : theirs.merkle_tree.depth ≡ d
  pub allowed : d ≤ 28
  pub sized : length mine.merkle_tree.nodes ≡ 2 ^ d
  pub sized_theirs : length theirs.merkle_tree.nodes ≡ 2 ^ d

-- The queue with a node added if a test says so.
abbrev pub push_if : Bool → List ℕ → ℕ → List ℕ
push_if b queue n = if b then queue ++ (n ∷ []) else queue

-- Do the hashes of a node differ?
abbrev pub differ_at : LocalBucket → LocalBucket → ℕ → Bool
differ_at mine theirs n =
    differ (hash_at mine.merkle_tree.nodes n) (hash_at theirs.merkle_tree.nodes n)

-- The queue that RIGHT_HASH_COMPARE leaves, of the nodes behind the first.
abbrev pub right_queue : LocalBucket → LocalBucket → ℕ → ℕ → List ℕ → List ℕ
right_queue mine theirs limit right queue =
    push_if (differ_at mine theirs right && leb (suc (length queue) % 2 ^ 32) limit) queue right

abbrev pub request_of : Turn InitiatorSyncSession → Turn InitiatorSyncSession
request_of turn = record turn { reply = directed 5 turn.reply }

module _ (d : ℕ) (mine theirs : LocalBucket) (same : SameDepth d mine theirs) (id root limit : ℕ)
    (outgoing : Bool) (known : Dict Bytes Bool) where
  -- The initiator has asked for the hash of a node, here without hashes of its own, and has the answer.
  abbrev pub exchange_at : State → List ℕ → ℕ → Exchange
  exchange_at state queue asked = record {
    initiator = searching id d limit outgoing known state queue;
    responder = answering id d root;
    received = some (hash_message id theirs.merkle_tree.nodes asked);
    effects = [];
    sent = some (hash_request id asked 0 0);
  }

  pub theirs_answer :
      (l q : ℕ)
      → InTree d l q
      → responder_turn
          (relay_bucket_proxy theirs)
          (answering id d root)
          (some (hash_request id (node_at l q) 0 0))
        ≡ record {
          session = answering id d root;
          reply = some (hash_message id theirs.merkle_tree.nodes (node_at l q));
          effects = [];
        }
  theirs_answer l q t =
      answers theirs d same.depth_theirs same.allowed same.sized_theirs id root (node_at l q) 0 0
        (node_at-pos l q) (node_at-lt t)

  module _ (l q : ℕ) (rest : List ℕ) (t : InTree d (suc l) q) where
    pub left_at : left_child (node_at (suc l) q) ≡ node_at l (2 * q)
    left_at = left_eq d same.allowed mine.merkle_tree.nodes same.sized l q t

    right_at : right_child (node_at (suc l) q) ≡ node_at l (2 * q + 1)
    right_at = right_eq d same.allowed mine.merkle_tree.nodes same.sized l q t

    left_hash :
        node_hash mine.merkle_tree (node_at l (2 * q))
        ≡ hash_at mine.merkle_tree.nodes (node_at l (2 * q))
    left_hash =
        node_hash_in mine.merkle_tree _ (omega (arith, same.sized, node_at-lt (InTree-left t)))

    right_hash :
        node_hash mine.merkle_tree (node_at l (2 * q + 1))
        ≡ hash_at mine.merkle_tree.nodes (node_at l (2 * q + 1))
    right_hash =
        node_hash_in mine.merkle_tree _ (omega (arith, same.sized, node_at-lt (InTree-right t)))

    pub round_left :
        round
          (relay_bucket_proxy mine)
          (relay_bucket_proxy theirs)
          (exchange_at left_hash_compare (node_at (suc l) q ∷ rest) (node_at l (2 * q)))
        ≡ exchange_at right_hash_compare
            (push_if
              (differ_at mine theirs (node_at l (2 * q)))
              (node_at (suc l) q ∷ rest)
              (node_at l (2 * q)))
            (node_at l (2 * q + 1))
    unfolding round initiator_turn Initiator.next_state Initiator.by_state
        Initiator.on_left_hash_compare
    round_left = elim (Bool-cases (differ_at mine theirs (node_at l (2 * q)))) [
      | inl h ↦
          rw
            (
              left_at,
              left_hash,
              h,
              right_at,
              translate_same mine.merkle_tree d (node_at l (2 * q + 1)) same.depth,
              theirs_answer l (2 * q + 1) (InTree-right t),
            )
            refl
      | inr h ↦
          rw
            (
              left_at,
              left_hash,
              h,
              right_at,
              translate_same mine.merkle_tree d (node_at l (2 * q + 1)) same.depth,
              theirs_answer l (2 * q + 1) (InTree-right t),
            )
            refl
    ]

    pub round_right :
        round
          (relay_bucket_proxy mine)
          (relay_bucket_proxy theirs)
          (exchange_at right_hash_compare (node_at (suc l) q ∷ rest) (node_at l (2 * q + 1)))
        ≡ answer
            (relay_bucket_proxy theirs)
            (answering id d root)
            (request_of (
              Initiator.dig (relay_bucket_proxy mine) (
                searching id d limit outgoing known right_hash_compare
                  (right_queue mine theirs limit (node_at l (2 * q + 1)) rest))))
            []
    unfolding round initiator_turn Initiator.next_state Initiator.by_state
        Initiator.on_right_hash_compare
    round_right = elim (Bool-cases (differ_at mine theirs (node_at l (2 * q + 1)))) [
      | inl h ↦ elim (Bool-cases (leb (suc (length rest) % 2 ^ 32) limit)) [
        | inl k ↦ rw (right_at, right_hash, h, k) refl
        | inr k ↦ rw (right_at, right_hash, h, k) refl
      ]
      | inr h ↦ rw (right_at, right_hash, h) refl
    ]

    small_queue : suc (length rest) < 2 ^ 32 → eqb (suc (length rest) % 2 ^ 32) 0 ≡ false
    small_queue h = ground arith

    pub dig_inner :
        suc (length rest) < 2 ^ 32
        → answer
            (relay_bucket_proxy theirs)
            (answering id d root)
            (request_of (
              Initiator.dig (relay_bucket_proxy mine) (
                searching id d limit outgoing known right_hash_compare (node_at (suc l) q ∷ rest))))
            []
          ≡ exchange_at left_hash_compare (node_at (suc l) q ∷ rest) (node_at l (2 * q))
    unfolding Initiator.dig
    dig_inner small =
        let deep : eqb (d - suc l) d ≡ false = ground (arith, level-lt t) in
        rw
          (
            small_queue small,
            level-node_at mine.merkle_tree d (suc l) q same.depth same.allowed t,
            deep,
            left_at,
            translate_same mine.merkle_tree d (node_at l (2 * q)) same.depth,
            theirs_answer l (2 * q) (InTree-left t),
          )
          refl

  pub dig_leaf :
      (found : List ℕ) (n : ℕ)
      → InTree d zero n
      → suc (length found) < 2 ^ 32
      → (iter : SyncIter) → mine.get_sync_children (node_at zero n) ≡ some iter
      → iter.failed ≡ false
      → (known' : Dict Bytes Bool) × ((Initiator.dig (relay_bucket_proxy mine) (
            searching id d limit outgoing known right_hash_compare
              (node_at zero n ∷ found))).session
          ≡ searching id d limit outgoing known' db_object_push (node_at zero n ∷ found))
        × ((Initiator.dig (relay_bucket_proxy mine) (
              searching id d limit outgoing known right_hash_compare
                (node_at zero n ∷ found))).reply
            ≡ some (message id (sync_object_next (record { node_id = node_at zero n }))))
  unfolding Initiator.dig
  dig_leaf found n u small iter rows fine =
      let filled : eqb (suc (length found) % 2 ^ 32) 0 ≡ false = ground arith in
      let deep : eqb (d - 0) d ≡ true = ground arith in
      let at : level mine.merkle_tree (node_at zero n) ≡ d - 0 =
        level-node_at mine.merkle_tree d zero n same.depth same.allowed u in
      let asked = translate_same mine.merkle_tree d (node_at zero n) same.depth in
      elim (Bool-cases outgoing) [
        | inl o ↦ (known, rw (filled, at, deep, o) refl, rw (filled, at, deep, o, asked) refl)
        | inr o ↦ (
          row_keys iter.rows [],
          rw (filled, at, deep, o, rows, fine)
              (ap
                (λ (b : Bool).
                  searching id d limit b (row_keys iter.rows []) db_object_push
                    (node_at zero n ∷ found))
                o),
          rw (filled, at, deep, o, rows, fine, asked) refl,
        )
      ]
