-- ===== src/Sync/Initiator.antt =====
-- server/sync.go: the session of the peer that pulls updates. Each state's part of NextState is a
-- function; `next_state` chooses among them and applies the check of the tree that ends the method.
pub mod Replies
pub mod Handlers
use devicedb.Common.{
  ℕ, ◌%◌, ◌^◌, Bool, true, false, Option, none, some, List, [], ◌∷◌, ◌++◌, ◌||◌, not, Bytes, ltb,
  leb, eqb, if◌then◌else◌, length, bytes_eq,
}
use devicedb.Common.Dict.{Dict, insert, erase, keys}
use devicedb.Data.Hash.{Hash}
use devicedb.Data.SiblingSet.{SiblingSet}
use devicedb.Sync.Messages.{
  State, start, handshake, root_hash_compare, left_hash_compare, right_hash_compare, hash_compare,
  db_object_push, end, protocol_version, Start, MerkleNodeHash, PushMessage, MessageBody,
  sync_start, sync_abort, sync_node_hash, sync_object_next, sync_push_message, sync_push_done,
  request, response, push, SyncMessageWrapper, message, Turn, Effect, merged, forgot,
}
use devicedb.Sync.Proxy.{BucketProxy, SyncIter}

pub record InitiatorSyncSession : Type 0 where
  pub session_id : ℕ
  pub current_state : State
  pub max_depth : ℕ
  pub their_depth : ℕ
  pub exploration_queue : List ℕ
  pub exploration_path_limit : ℕ
  pub replicates_outgoing : Bool
  pub current_node_keys : Dict Bytes Bool

unfoldable pub new_initiator_sync_session : ℕ → BucketProxy → ℕ → Bool → InitiatorSyncSession
new_initiator_sync_session id bucket exploration_path_limit replicates_outgoing = record {
  session_id = id;
  current_state = start;
  max_depth = bucket.merkle_tree.depth;
  their_depth = 0;
  exploration_queue = [];
  exploration_path_limit = exploration_path_limit;
  replicates_outgoing = replicates_outgoing;
  current_node_keys = [];
}

abbrev pub push_exploration_queue : InitiatorSyncSession → ℕ → InitiatorSyncSession
push_exploration_queue s n = record s { exploration_queue = s.exploration_queue ++ (n ∷ []) }

abbrev pub rest_of : List ℕ → List ℕ
rest_of [] = []
rest_of (n ∷ ns) = ns

abbrev pub first_of : List ℕ → ℕ
first_of [] = 0
first_of (n ∷ ns) = n

-- The popped node is not used by any caller.
abbrev pub pop_exploration_queue : InitiatorSyncSession → InitiatorSyncSession
pop_exploration_queue s = record s { exploration_queue = rest_of s.exploration_queue }

abbrev pub peek_exploration_queue : InitiatorSyncSession → ℕ
peek_exploration_queue s = first_of s.exploration_queue

abbrev pub exploration_queue_size : InitiatorSyncSession → ℕ
exploration_queue_size s = length s.exploration_queue % 2 ^ 32

abbrev pub reply : InitiatorSyncSession → MessageBody → Turn InitiatorSyncSession
reply s body = record { session = s; reply = some (message s.session_id body); effects = [] }

abbrev pub abort : InitiatorSyncSession → Turn InitiatorSyncSession
abort s = reply (record s { current_state = end }) sync_abort

-- The same after an effect on the bucket.
abbrev pub after : Effect → Turn InitiatorSyncSession → Turn InitiatorSyncSession
after effect turn = record turn { effects = effect ∷ turn.effects }

unfoldable pub row_keys : List (Bytes × Option SiblingSet) → Dict Bytes Bool → Dict Bytes Bool
row_keys [] found = found
row_keys ((key, _) ∷ rows) found = row_keys rows (insert key true found)

-- `getNodeKeys`; none is an error.
unfoldable pub get_node_keys : BucketProxy → InitiatorSyncSession → Option InitiatorSyncSession
unfolding row_keys
get_node_keys bucket s =
    if s.replicates_outgoing
    then some s
    else elim (bucket.get_sync_children (peek_exploration_queue s)) [
      | none ↦ none
      | some iter ↦
          if iter.failed
          then none
          else some (record s { current_node_keys = row_keys iter.rows [] })
    ]

-- Does a hash that the responder sent differ from mine?
abbrev pub differs : MerkleNodeHash → Hash → Bool
differs theirs mine = not (eqb theirs.hash_high mine.high) || not (eqb theirs.hash_low mine.low)

-- The messages that ask for the hash of a node, and for the objects of the first node of the queue.
abbrev pub ask_hash : BucketProxy → InitiatorSyncSession → ℕ → MessageBody
ask_hash bucket s node = sync_node_hash (record {
  node_id = bucket.merkle_tree.translate_node node s.their_depth;
  hash_high = 0;
  hash_low = 0;
})

abbrev pub ask_next : BucketProxy → InitiatorSyncSession → MessageBody
ask_next bucket s = sync_object_next (record {
  node_id = bucket.merkle_tree.translate_node (peek_exploration_queue s) s.their_depth;
})

unfoldable pub on_start : BucketProxy → InitiatorSyncSession → Turn InitiatorSyncSession
on_start bucket s =
    reply (record s { current_state = handshake })
      (sync_start (record {
        protocol_version = protocol_version;
        merkle_depth = bucket.merkle_tree.depth;
        bucket = bucket.name;
      }))

-- A handshake with a start message of the supported version.
abbrev pub shake_hands : BucketProxy → InitiatorSyncSession → Start → Turn InitiatorSyncSession
shake_hands bucket s theirs =
    let s' =
      push_exploration_queue
        (record s {
          max_depth =
              if ltb theirs.merkle_depth s.max_depth then theirs.merkle_depth else s.max_depth;
          their_depth = theirs.merkle_depth;
          current_state = root_hash_compare;
        })
        bucket.merkle_tree.root_node in
    let node = peek_exploration_queue s' in
    reply s' (
      sync_node_hash (record {
        node_id = bucket.merkle_tree.translate_node node s'.their_depth;
        hash_high = (bucket.merkle_tree.node_hash node).high;
        hash_low = (bucket.merkle_tree.node_hash node).low;
      }))

unfoldable pub on_handshake :
    BucketProxy → InitiatorSyncSession → Option MessageBody → Turn InitiatorSyncSession
on_handshake bucket s (some (sync_start theirs)) =
    if not (eqb theirs.protocol_version protocol_version)
    then abort s
    else shake_hands bucket s theirs
on_handshake bucket s _ = abort s

unfoldable pub on_root_hash_compare :
    BucketProxy → InitiatorSyncSession → Option MessageBody → Turn InitiatorSyncSession
on_root_hash_compare bucket s (some (sync_node_hash theirs)) =
    let tree = bucket.merkle_tree in
    let node = peek_exploration_queue s in
    if not (differs theirs (tree.node_hash node))
    then abort s
    else if not (eqb (tree.level node) s.max_depth)
    then reply (record s { current_state = left_hash_compare })
        (ask_hash bucket s (tree.left_child node))
    else reply (record s { current_state = db_object_push }) (ask_next bucket s)
on_root_hash_compare bucket s _ = abort s

unfoldable pub on_left_hash_compare :
    BucketProxy → InitiatorSyncSession → Option MessageBody → Turn InitiatorSyncSession
on_left_hash_compare bucket s (some (sync_node_hash theirs)) =
    let tree = bucket.merkle_tree in
    let left = tree.left_child (peek_exploration_queue s) in
    let s' =
      record (if differs theirs (tree.node_hash left) then push_exploration_queue s left else s) {
        current_state = right_hash_compare;
      } in
    reply s' (ask_hash bucket s' (tree.right_child (peek_exploration_queue s')))
on_left_hash_compare bucket s _ = abort s

-- The change of the queue that RIGHT_HASH_COMPARE makes.
abbrev pub explored : BucketProxy → InitiatorSyncSession → MerkleNodeHash → InitiatorSyncSession
explored bucket s theirs =
    let right = bucket.merkle_tree.right_child (peek_exploration_queue s) in
    pop_exploration_queue (
      if differs theirs (bucket.merkle_tree.node_hash right)
      then if leb (exploration_queue_size s) s.exploration_path_limit
        then push_exploration_queue s right
        else s
      else s)

-- What it does then: end, ask for objects, or look at the next node of the queue.
unfoldable pub dig : BucketProxy → InitiatorSyncSession → Turn InitiatorSyncSession
unfolding get_node_keys
dig bucket s =
    let tree = bucket.merkle_tree in
    if eqb (exploration_queue_size s) 0
    then abort s
    else if eqb (tree.level (peek_exploration_queue s)) s.max_depth
    then elim (get_node_keys bucket s) [
      | none ↦ abort s
      | some s' ↦ reply (record s' { current_state = db_object_push }) (ask_next bucket s')
    ]
    else reply (record s { current_state = left_hash_compare })
        (ask_hash bucket s (tree.left_child (peek_exploration_queue s)))

unfoldable pub on_right_hash_compare :
    BucketProxy → InitiatorSyncSession → Option MessageBody → Turn InitiatorSyncSession
on_right_hash_compare bucket s (some (sync_node_hash theirs)) =
    dig bucket (explored bucket s theirs)
on_right_hash_compare bucket s _ = abort s

-- After the keys of a node were forgotten, with or without an error.
unfoldable pub next_node : BucketProxy → InitiatorSyncSession → Bool → Turn InitiatorSyncSession
unfolding get_node_keys
next_node bucket s failed =
    if failed || eqb (exploration_queue_size s) 0
    then abort s
    else elim (get_node_keys bucket s) [ none ↦ abort s | some s' ↦ reply s' (ask_next bucket s') ]

-- `PopExplorationQueue` and `forgetNonAuthoritativeKeys` at the end of a node.
unfoldable pub node_done : BucketProxy → InitiatorSyncSession → Turn InitiatorSyncSession
unfolding next_node
node_done bucket s =
    let s' = pop_exploration_queue s in
    let node_keys = keys s'.current_node_keys in
    if s'.replicates_outgoing
    then next_node bucket s' false
    else after (forgot node_keys) (next_node bucket s' (bucket.forget node_keys))

unfoldable pub take_object :
    BucketProxy → InitiatorSyncSession → PushMessage → Turn InitiatorSyncSession
take_object bucket s pushed =
    let s' = record s { current_node_keys = erase pushed.key s.current_node_keys } in
    after (merged pushed.key pushed.value)
      (if bucket.merge pushed.key pushed.value then abort s' else reply s' (ask_next bucket s'))

unfoldable pub on_db_object_push :
    BucketProxy → InitiatorSyncSession → Option MessageBody → Turn InitiatorSyncSession
unfolding node_done take_object
on_db_object_push bucket s (some sync_push_done) = node_done bucket s
on_db_object_push bucket s (some (sync_push_message pushed)) = take_object bucket s pushed
on_db_object_push bucket s _ = abort s

-- The end of NextState: an error of the tree replaces the message, and ends the session.
abbrev pub check_tree : BucketProxy → Turn InitiatorSyncSession → Turn InitiatorSyncSession
check_tree bucket turn =
    if bucket.merkle_tree.error
    then record turn {
      session = record turn.session { current_state = end };
      reply = some (message turn.session.session_id sync_abort);
    }
    else turn

abbrev pub body_of : Option SyncMessageWrapper → Option MessageBody
body_of none = none
body_of (some m) = some m.message_body

unfoldable pub by_state :
    State → BucketProxy → InitiatorSyncSession → Option MessageBody → Turn InitiatorSyncSession
unfolding on_start on_handshake on_root_hash_compare on_left_hash_compare on_right_hash_compare
    on_db_object_push
by_state start bucket s m = check_tree bucket (on_start bucket s)
by_state handshake bucket s m = check_tree bucket (on_handshake bucket s m)
by_state root_hash_compare bucket s m = check_tree bucket (on_root_hash_compare bucket s m)
by_state left_hash_compare bucket s m = check_tree bucket (on_left_hash_compare bucket s m)
by_state right_hash_compare bucket s m = check_tree bucket (on_right_hash_compare bucket s m)
by_state hash_compare bucket s m =
    check_tree bucket (record { session = s; reply = none; effects = [] })
by_state db_object_push bucket s m = check_tree bucket (on_db_object_push bucket s m)
by_state end bucket s m = record { session = s; reply = none; effects = [] }

unfoldable pub next_state :
    BucketProxy → InitiatorSyncSession → Option SyncMessageWrapper → Turn InitiatorSyncSession
unfolding by_state
next_state bucket s m = by_state s.current_state bucket s (body_of m)
