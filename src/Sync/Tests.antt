-- ===== src/Sync/Tests.antt =====
-- Tests of the synchronisation of two buckets with trees of depth 3.
use devicedb.Common.{
  any, ◌==◌, ◌&&◌, not, List, ℕ, ◌^◌, ◌≡◌, ◌≢◌, refl, ap, arith, true, false, none, some, [], ◌∷◌,
  replicate, bytes_eq, Bytes,
}
use devicedb.Data.Hash.{Hash, zero_hash, xor}
use devicedb.Merkle.Nodes.{left_child, right_child, count_trailing_zeros, parent_node}
use devicedb.Merkle.Tree.{
  MerkleTree, root_hash, update_leaf_hash, is_leaf, node_hash, level, translate_node,
}
use devicedb.Merkle.Tree.Valid.{IsValidTree, replicate-IsValidTree}
use devicedb.Merkle.Tree.Climb.{update_leaf_hash-IsValid}
use devicedb.Sync.Messages.{end, right_hash_compare, merged, forgot}
use devicedb.Sync.Proxy.{LocalBucket, relay_bucket_proxy}
use devicedb.Sync.Initiator as Initiator
use devicedb.Sync.Responder as Responder
use devicedb.Sync.Initiator.{InitiatorSyncSession, new_initiator_sync_session}
use devicedb.Sync.Responder.{ResponderSyncSession, new_responder_sync_session}
use devicedb.Sync.Initiator.Replies.{Replies}
use devicedb.Sync.Initiator.Handlers.{next_state-Replies}
use devicedb.Sync.Responder.Answers.{Answers, Runs, next_state-Answers}
use devicedb.Sync.Exchange.{rounds, round, initiator_turn, responder_turn}
use devicedb.Sync.Exchange.Finds.{Found}
use devicedb.Sync.Exchange.Begins.{begin, exchange_finds, exchange_agrees}
use devicedb.Sync.Exchange.Transfer.{Pushing, Row, has_key, opening, exchange_transfers}
use devicedb.Sync.Scheduler.{
  PeriodicSyncScheduler, next_sync, call_add_peer, call_schedule, call_advance, calls,
}
use devicedb.Sync.Scheduler.Valid.{IsValid}
use devicedb.Sync.Scheduler.Turns.{calls-next_sync}

abbrev empty_tree : MerkleTree
empty_tree = record { depth = 3; nodes = replicate (2 ^ 3) zero_hash }

empty_tree-IsValid : IsValidTree empty_tree
empty_tree-IsValid = replicate-IsValidTree 3 (omega arith) (omega arith)

abbrev other_tree : MerkleTree
other_tree = update_leaf_hash empty_tree 5 (record { low = 12; high = 10 })

other_tree-IsValid : IsValidTree other_tree
other_tree-IsValid =
    update_leaf_hash-IsValid empty_tree empty_tree-IsValid 5 (record { low = 12; high = 10 })

other_tree-depth : other_tree.depth ≡ 3
unfolding update_leaf_hash is_leaf
other_tree-depth = refl

abbrev bucket_with : MerkleTree → LocalBucket
bucket_with tree = record {
  name = 98 ∷ [];
  merkle_tree = tree;
  get_sync_children = λ _. some (record { rows = []; failed = false; failed_released = true });
  merge = λ _ _. false;
  forget = λ _. false;
}

other_tree-root_hash : (root_hash other_tree).high ≡ 10
unfolding root_hash update_leaf_hash is_leaf parent_node count_trailing_zeros xor left_child
    right_child
other_tree-root_hash = refl

empty_tree-root_hash : (root_hash empty_tree).high ≡ 0
unfolding root_hash
empty_tree-root_hash = refl

roots_differ : root_hash empty_tree ≢ root_hash other_tree
roots_differ e =
    absurd (omega (arith, ap (λ (h : Hash). h.high) e, other_tree-root_hash, empty_tree-root_hash))

exchange_finds_example :
    (k : ℕ) × Found 3 (bucket_with empty_tree) (bucket_with other_tree) 7 (
      rounds
        (relay_bucket_proxy (bucket_with empty_tree))
        (relay_bucket_proxy (bucket_with other_tree))
        k
        (begin (bucket_with empty_tree) (bucket_with other_tree) 7 2 false))
exchange_finds_example =
    exchange_finds (bucket_with empty_tree) (bucket_with other_tree) empty_tree-IsValid
      other_tree-IsValid other_tree-depth roots_differ (λ q t. (_, refl, refl)) 7 2 false
      (omega arith) (omega arith)

exchange_agrees_example :
    ((rounds
        (relay_bucket_proxy (bucket_with empty_tree))
        (relay_bucket_proxy (bucket_with empty_tree))
        3
        (begin (bucket_with empty_tree) (bucket_with empty_tree) 7 2 false)).initiator.current_state
      ≡ end)
    × ((rounds
          (relay_bucket_proxy (bucket_with empty_tree))
          (relay_bucket_proxy (bucket_with empty_tree))
          3
          (begin (bucket_with empty_tree) (bucket_with empty_tree) 7 2 false)).effects
        ≡ [])
exchange_agrees_example =
    exchange_agrees (bucket_with empty_tree) (bucket_with empty_tree) empty_tree-IsValid
      empty_tree-IsValid refl refl 7 2 false

-- The same search, run: the leaf 5 is asked for in the seventh round.
leaf_asked :
    (rounds
      (relay_bucket_proxy (bucket_with empty_tree))
      (relay_bucket_proxy (bucket_with other_tree))
      7
      (begin
        (bucket_with empty_tree)
        (bucket_with other_tree)
        7
        2
        false)).initiator.exploration_queue
    ≡ 5 ∷ []
unfolding begin round initiator_turn responder_turn new_initiator_sync_session
    new_responder_sync_session Initiator.next_state Initiator.dig Initiator.on_right_hash_compare
    Responder.next_state update_leaf_hash is_leaf node_hash level translate_node left_child
    right_child count_trailing_zeros parent_node xor
leaf_asked = refl

-- A session at RIGHT_HASH_COMPARE that wakes up without a message.
abbrev some_session : InitiatorSyncSession
some_session = record {
  session_id = 7;
  current_state = right_hash_compare;
  max_depth = 3;
  their_depth = 3;
  exploration_queue = 4 ∷ 2 ∷ [];
  exploration_path_limit = 2;
  replicates_outgoing = false;
  current_node_keys = [];
}

next_state-Replies_example :
    Replies 7 2
      (Initiator.next_state (relay_bucket_proxy (bucket_with empty_tree)) some_session none)
next_state-Replies_example =
    next_state-Replies (relay_bucket_proxy (bucket_with empty_tree)) some_session none tt
      (omega arith) (omega arith)

new_responder_sync_session-Runs :
    Runs (new_responder_sync_session (relay_bucket_proxy (bucket_with empty_tree))).current_state
unfolding new_responder_sync_session
new_responder_sync_session-Runs = tt

next_state-Answers_example : Answers (
    Responder.next_state
      (relay_bucket_proxy (bucket_with empty_tree))
      (new_responder_sync_session (relay_bucket_proxy (bucket_with empty_tree)))
      none)
next_state-Answers_example =
    next_state-Answers (relay_bucket_proxy (bucket_with empty_tree))
      (new_responder_sync_session (relay_bucket_proxy (bucket_with empty_tree))) none
      new_responder_sync_session-Runs

abbrev some_pushing : Pushing
some_pushing = record {
  id = 7;
  max_depth = 3;
  their_depth = 3;
  queue = 5 ∷ [];
  limit = 2;
  outgoing = false;
  node = 4;
  depth_of_responder = 3;
  depth_of_initiator = 3;
  released = true;
}

abbrev with_rows : List Row → LocalBucket
with_rows rows = record (bucket_with empty_tree) {
  get_sync_children = λ _. some (record { rows = rows; failed = false; failed_released = true });
}

abbrev sent_rows : List Row
sent_rows = (1 ∷ [], none) ∷ (2 ∷ [], some (1 ∷ [])) ∷ []

leaf_level : level empty_tree 5 ≡ 3
unfolding level count_trailing_zeros
leaf_level = refl

-- The responder has two objects at the leaf 5, and the initiator one of them, and another.
exchange_transfers_example :
    let mine = relay_bucket_proxy (with_rows ((1 ∷ [], none) ∷ (3 ∷ [], none) ∷ [])) in
    let theirs = relay_bucket_proxy (with_rows sent_rows) in
    let e = rounds mine theirs 3 (opening mine theirs some_pushing [] 0) in
    (forgotten : List Bytes) × (e.initiator.current_state ≡ end)
    × (e.effects ≡ merged (1 ∷ []) none ∷ merged (2 ∷ []) (some (1 ∷ [])) ∷ forgot forgotten ∷ [])
    × ((k : Bytes)
        → any (λ j. j == k) forgotten
          ≡ (has_key ((1 ∷ [], none) ∷ (3 ∷ [], none) ∷ []) k && not (has_key sent_rows k)))
exchange_transfers_example =
    exchange_transfers (relay_bucket_proxy (with_rows ((1 ∷ [], none) ∷ (3 ∷ [], none) ∷ [])))
      (relay_bucket_proxy (with_rows sent_rows)) refl refl (λ _ _. refl) some_pushing
      (record {
        rows = (1 ∷ [], none) ∷ (3 ∷ [], none) ∷ [];
        failed = false;
        failed_released = true;
      })
      [] 0 (1 ∷ [], none) ((2 ∷ [], some (1 ∷ [])) ∷ []) refl leaf_level refl refl refl

-- Two peers, each in the queue once.
abbrev two_peers : PeriodicSyncScheduler
two_peers = record {
  store =
      record { id = 1 ∷ []; buckets = (7 ∷ []) ∷ (8 ∷ []) ∷ []; next_bucket = 0 }
      ∷ record { id = 2 ∷ []; buckets = (9 ∷ []) ∷ []; next_bucket = 0 }
      ∷ [];
  peers = (1 ∷ [], 0) ∷ (2 ∷ [], 1) ∷ [];
  queue = 0 ∷ 1 ∷ [];
}

two_peers-IsValid : IsValid two_peers
two_peers-IsValid = record {
  ready = (omega arith, (omega arith, tt));
  queued = (omega arith, (omega arith, tt));
  known = λ id a e. ground (arith, e);
}

-- The second peer gets its turn after one `Advance`, though a peer joins and the first comes again.
calls-next_sync_example :
    (s' : PeriodicSyncScheduler) × (calls
        (call_add_peer (3 ∷ []) ((5 ∷ []) ∷ []) ∷ call_schedule (1 ∷ []) ∷ call_advance ∷ [])
        two_peers
      ≡ some s')
    × IsValid s'
    × ((bucket : Bytes) × (next_sync s' ≡ some (2 ∷ [], bucket)))
calls-next_sync_example =
    calls-next_sync
      (call_add_peer (3 ∷ []) ((5 ∷ []) ∷ []) ∷ call_schedule (1 ∷ []) ∷ call_advance ∷ [])
      two_peers (0 ∷ []) 1 [] two_peers-IsValid (omega arith, (tt, (tt, tt))) refl refl
