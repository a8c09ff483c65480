-- ===== src/Sync/Exchange/Answers.antt =====
-- server/sync.go: one round of an exchange over two trees of the same depth, by level and position.
use devicedb.Common.{
  ℕ, ◌-◌, ◌%◌, ◌^◌, ◌≤◌, ◌<◌, ◌≡◌, refl, arith, Bool, false, not, ◌||◌, none, some, List, [], Bytes,
  leb, eqb, length,
}
use devicedb.Common.Dict.{Dict}
use devicedb.Data.Hash.{Hash}
use devicedb.Merkle.Nodes.Position.{node_at}
use devicedb.Merkle.Nodes.InTree.{InTree, level-lt, pow-lt_uint32}
use devicedb.Merkle.Nodes.Zeros.{count_trailing_zeros-node_at}
use devicedb.Merkle.Tree.{MerkleTree, hash_at, node_hash, translate_node, level}
use devicedb.Sync.Messages.{State, hash_compare, sync_node_hash, SyncMessageWrapper}
use devicedb.Sync.Proxy.{LocalBucket, relay_bucket_proxy}
use devicedb.Sync.Responder as Responder
use devicedb.Sync.Initiator.{InitiatorSyncSession}
use devicedb.Sync.Responder.{ResponderSyncSession}
use devicedb.Sync.Exchange.{responder_turn}

-- Do two hashes differ, as the code compares them?
abbrev pub differ : Hash → Hash → Bool
differ mine theirs = not (eqb theirs.high mine.high) || not (eqb theirs.low mine.low)

pub translate_same : (tree : MerkleTree) (d n : ℕ) → tree.depth ≡ d → translate_node tree n d ≡ n
unfolding translate_node
translate_same tree d n e = rw e (let z : d - d ≡ 0 = omega arith in rw z (ground arith))

pub node_hash_in :
    (tree : MerkleTree) (n : ℕ) → n < length tree.nodes → node_hash tree n ≡ hash_at tree.nodes n
unfolding node_hash
node_hash_in tree n h = let e : leb (length tree.nodes) n ≡ false = ground arith in rw e refl

pub level-node_at :
    (tree : MerkleTree) (d l q : ℕ)
    → tree.depth ≡ d
    → d ≤ 28
    → InTree d l q
    → level tree (node_at l q) ≡ d - l
unfolding level
level-node_at tree d l q e allowed t =
    rw (e, count_trailing_zeros-node_at l q (omega (arith, level-lt t))) (omega (arith, level-lt t))

-- The answer of the responder about a node.
abbrev pub hash_message : ℕ → List Hash → ℕ → SyncMessageWrapper
hash_message id nodes n = record {
  session_id = id;
  message_body = sync_node_hash (record {
    node_id = n;
    hash_high = (hash_at nodes n).high;
    hash_low = (hash_at nodes n).low;
  });
  direction = 6;
  node_id = [];
}

-- A responder that answers about hashes, and an initiator that looks for a leaf.
abbrev pub answering : ℕ → ℕ → ℕ → ResponderSyncSession
answering id d node = record {
  session_id = id;
  current_state = hash_compare;
  node = node;
  max_depth = d;
  their_depth = d;
  iter = none;
  current_iteration_node = 0;
}

abbrev pub searching : ℕ → ℕ → ℕ → Bool → Dict Bytes Bool → State → List ℕ → InitiatorSyncSession
searching id d limit outgoing known state queue = record {
  session_id = id;
  current_state = state;
  max_depth = d;
  their_depth = d;
  exploration_queue = queue;
  exploration_path_limit = limit;
  replicates_outgoing = outgoing;
  current_node_keys = known;
}

-- A request about a node, and what the responder makes of it.
abbrev pub hash_request : ℕ → ℕ → ℕ → ℕ → SyncMessageWrapper
hash_request id n a b = record {
  session_id = id;
  message_body = sync_node_hash (record { node_id = n; hash_high = a; hash_low = b });
  direction = 5;
  node_id = [];
}

pub answers :
    (bucket : LocalBucket) (d : ℕ)
    → bucket.merkle_tree.depth ≡ d
    → d ≤ 28
    → length bucket.merkle_tree.nodes ≡ 2 ^ d
    → (id root n a b : ℕ) → 0 < n
    → n < 2 ^ d
    → responder_turn
        (relay_bucket_proxy bucket)
        (answering id d root)
        (some (hash_request id n a b))
      ≡ record {
        session = answering id d root;
        reply = some (hash_message id bucket.merkle_tree.nodes n);
        effects = [];
      }
unfolding responder_turn Responder.next_state Responder.by_state Responder.on_hash_compare
    Responder.answer_hash
answers bucket d e allowed sized id root n a b pos small =
    let tree = bucket.merkle_tree in
    let limit : (leb (length tree.nodes % 2 ^ 32) n || eqb n 0) ≡ false =
      ground (arith, pow-lt_uint32 d allowed) in
    let filled : eqb (length tree.nodes) 0 ≡ false = ground (arith, small) in
    rw (filled, limit, translate_same tree d n e, node_hash_in tree n (omega arith)) refl
