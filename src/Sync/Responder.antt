-- ===== src/Sync/Responder.antt =====
-- server/sync.go: the session of the peer that answers. Each state's part of NextState is a function.
pub mod Answers
use devicedb.Common.{
  ℕ, Bool, true, false, Option, none, some, List, [], ◌∷◌, ◌||◌, not, Bytes, ltb, leb, eqb,
  if◌then◌else◌,
}
use devicedb.Data.SiblingSet.{SiblingSet}
use devicedb.Sync.Messages.{
  State, start, handshake, root_hash_compare, left_hash_compare, right_hash_compare, hash_compare,
  db_object_push, end, protocol_version, MerkleNodeHash, MessageBody, sync_start, sync_abort,
  sync_node_hash, sync_object_next, sync_push_message, sync_push_done, request, response, push,
  SyncMessageWrapper, message, Turn,
}
use devicedb.Sync.Proxy.{BucketProxy, SyncIter, release}

pub record ResponderSyncSession : Type 0 where
  pub session_id : ℕ
  pub current_state : State
  pub node : ℕ
  pub max_depth : ℕ
  pub their_depth : ℕ
  pub iter : Option SyncIter
  pub current_iteration_node : ℕ

unfoldable pub new_responder_sync_session : BucketProxy → ResponderSyncSession
new_responder_sync_session bucket = record {
  session_id = 0;
  current_state = start;
  node = bucket.merkle_tree.root_node;
  max_depth = bucket.merkle_tree.depth;
  their_depth = 0;
  iter = none;
  current_iteration_node = 0;
}

abbrev pub reply : ResponderSyncSession → MessageBody → Turn ResponderSyncSession
reply s body = record { session = s; reply = some (message s.session_id body); effects = [] }

abbrev pub abort : ResponderSyncSession → Turn ResponderSyncSession
abort s = reply (record s { current_state = end }) sync_abort

abbrev pub push_object : Bytes × Option SiblingSet → MessageBody
push_object (key, value) = sync_push_message (record { bucket = []; key = key; value = value })

-- START, once the session has the id of the message.
unfoldable pub on_start :
    BucketProxy → ResponderSyncSession → Option MessageBody → Turn ResponderSyncSession
on_start bucket s (some (sync_start theirs)) =
    if not (eqb theirs.protocol_version protocol_version)
    then abort s
    else reply (record s { their_depth = theirs.merkle_depth; current_state = hash_compare })
        (sync_start (record {
          protocol_version = protocol_version;
          merkle_depth = bucket.merkle_tree.depth;
          bucket = bucket.name;
        }))
on_start bucket s _ = abort s

unfoldable pub answer_hash : BucketProxy → ResponderSyncSession → ℕ → Turn ResponderSyncSession
answer_hash bucket s node_id =
    let tree = bucket.merkle_tree in
    if leb tree.node_limit node_id || eqb node_id 0
    then abort s
    else reply s (
        sync_node_hash (record {
          node_id = tree.translate_node node_id s.their_depth;
          hash_high = (tree.node_hash node_id).high;
          hash_low = (tree.node_hash node_id).low;
        }))

-- The first call of Next on a new iterator: the session keeps the iterator only if there is a row.
abbrev pub first_object : ResponderSyncSession → SyncIter → Turn ResponderSyncSession
first_object s iter = elim iter.rows [
  | [] ↦
      if iter.failed
      then abort s
      else reply (record s { current_state = db_object_push }) sync_push_done
  | row ∷ rows ↦
      reply (record s { iter = some (record iter { rows = rows }); current_state = db_object_push })
        (push_object row)
]

unfoldable pub first_objects : BucketProxy → ResponderSyncSession → ℕ → Turn ResponderSyncSession
first_objects bucket s node_id =
    let s' = record s { current_iteration_node = node_id } in
    elim (bucket.get_sync_children node_id) [ none ↦ abort s' | some iter ↦ first_object s' iter ]

unfoldable pub on_hash_compare :
    BucketProxy → ResponderSyncSession → Option MessageBody → Turn ResponderSyncSession
unfolding answer_hash first_objects
on_hash_compare bucket s (some (sync_node_hash theirs)) = answer_hash bucket s theirs.node_id
on_hash_compare bucket s (some (sync_object_next asked)) = first_objects bucket s asked.node_id
on_hash_compare bucket s _ = abort s

-- A call of Next on the session's iterator.
unfoldable pub next_object : ResponderSyncSession → SyncIter → Turn ResponderSyncSession
next_object s iter = elim iter.rows [
  | [] ↦
      let s' = record s { iter = some (release iter) } in
      if iter.failed then abort s' else reply s' sync_push_done
  | row ∷ rows ↦ reply (record s { iter = some (record iter { rows = rows }) }) (push_object row)
]

-- An OBJECT_NEXT while there is an iterator: for another node there is a new one.
unfoldable pub more_objects :
    BucketProxy → ResponderSyncSession → SyncIter → ℕ → Turn ResponderSyncSession
unfolding next_object
more_objects bucket s iter node_id =
    if not (eqb s.current_iteration_node node_id)
    then (let s' = record s { iter = some (release iter); current_iteration_node = node_id } in
        elim (bucket.get_sync_children node_id) [
          | none ↦ abort s'
          | some iter' ↦ next_object s' iter'
        ])
    else next_object s iter

abbrev pub release_held : ResponderSyncSession → ResponderSyncSession
release_held s = elim s.iter [ none ↦ s | some iter ↦ record s { iter = some (release iter) } ]

unfoldable pub on_db_object_push :
    BucketProxy → ResponderSyncSession → Option MessageBody → Turn ResponderSyncSession
unfolding more_objects
on_db_object_push bucket s (some (sync_object_next asked)) = elim s.iter [
  | none ↦ abort s
  | some iter ↦ more_objects bucket s iter asked.node_id
]
on_db_object_push bucket s _ = abort (release_held s)

abbrev pub check_tree : BucketProxy → Turn ResponderSyncSession → Turn ResponderSyncSession
check_tree bucket turn =
    if bucket.merkle_tree.error
    then record turn {
      session = record turn.session { current_state = end };
      reply = some (message turn.session.session_id sync_abort);
    }
    else turn

-- START takes the session's id from the message.
abbrev pub identify : ResponderSyncSession → Option SyncMessageWrapper → ResponderSyncSession
identify s none = s
identify s (some m) = record s { session_id = m.session_id }

abbrev pub body_of : Option SyncMessageWrapper → Option MessageBody
body_of none = none
body_of (some m) = some m.message_body

-- The states of an initiator have no case: NextState returns nil there.
unfoldable pub by_state :
    State
    → BucketProxy
    → ResponderSyncSession
    → Option SyncMessageWrapper
    → Turn ResponderSyncSession
unfolding on_start on_hash_compare on_db_object_push
by_state start bucket s m = check_tree bucket (on_start bucket (identify s m) (body_of m))
by_state hash_compare bucket s m = check_tree bucket (on_hash_compare bucket s (body_of m))
by_state db_object_push bucket s m = check_tree bucket (on_db_object_push bucket s (body_of m))
by_state end bucket s m = record { session = s; reply = none; effects = [] }
by_state handshake bucket s m =
    check_tree bucket (record { session = s; reply = none; effects = [] })
by_state root_hash_compare bucket s m =
    check_tree bucket (record { session = s; reply = none; effects = [] })
by_state left_hash_compare bucket s m =
    check_tree bucket (record { session = s; reply = none; effects = [] })
by_state right_hash_compare bucket s m =
    check_tree bucket (record { session = s; reply = none; effects = [] })

unfoldable pub next_state :
    BucketProxy → ResponderSyncSession → Option SyncMessageWrapper → Turn ResponderSyncSession
unfolding by_state
next_state bucket s m = by_state s.current_state bucket s m
