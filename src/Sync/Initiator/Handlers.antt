-- ===== src/Sync/Initiator/Handlers.antt =====
-- server/sync.go: what each state of the initiator replies, and what it leaves in the queue.
use devicedb.Common.{
  ℕ, ◌+◌, leb→le, bytes_eq, not, ltb, ◌≤◌, ◌<◌, ◌^◌, length, eqb, leb, [], ◌∷◌, ◌++◌, List,
  length-append, ◌≡◌, Bytes, ◌||◌, refl, arith, Bool, true, false, Option, none, some, ◌⊎◌, inl,
  inr, Bool-cases, if◌then◌else◌,
}
use devicedb.Common.Dict.{Dict, erase}
use devicedb.Sync.Messages.{
  State, start, handshake, root_hash_compare, left_hash_compare, right_hash_compare, hash_compare,
  db_object_push, end, MessageBody, sync_start, sync_node_hash, sync_push_message, sync_push_done,
  SyncMessageWrapper,
}
use devicedb.Sync.Proxy.{BucketProxy, SyncIter}
use devicedb.Sync.Initiator.{
  InitiatorSyncSession, get_node_keys, on_start, on_handshake, on_root_hash_compare,
  on_left_hash_compare, on_right_hash_compare, on_db_object_push, dig, next_node, by_state,
  next_state, row_keys, peek_exploration_queue, exploration_queue_size, push_exploration_queue,
  pop_exploration_queue, rest_of, differs, body_of,
}
use devicedb.Sync.Initiator.Replies.{
  Runs, room, InRoom, Replies, Replies-reply, Replies-abort, Replies-after, Replies-if,
  Replies-check_tree,
}

-- What a session goes on with once the keys of a node were read, if they can be.
get_node_keys_cases :
    (bucket : BucketProxy) (s : InitiatorSyncSession)
    → (get_node_keys bucket s ≡ none)
      ⊎ ((known : Dict Bytes Bool) × (get_node_keys bucket s
            ≡ some (record s { current_node_keys = known })))
unfolding get_node_keys
get_node_keys_cases bucket s =
    go s.replicates_outgoing refl (bucket.get_sync_children (peek_exploration_queue s)) refl
  where
    go :
        (b : Bool)
        → s.replicates_outgoing ≡ b
        → (o : Option SyncIter) → bucket.get_sync_children (peek_exploration_queue s) ≡ o
        → (get_node_keys bucket s ≡ none)
          ⊎ ((known : Dict Bytes Bool) × (get_node_keys bucket s
                ≡ some (record s { current_node_keys = known })))
    go true e o f = inr (s.current_node_keys, rw e refl)
    go false e none f = inl (rw (e, f) refl)
    go false e (some iter) f = elim (Bool-cases iter.failed) [
      | inl g ↦ inl (rw (e, f, g) refl)
      | inr g ↦ inr (row_keys iter.rows [], ground (arith, e, f, g))
    ]

dig-Replies :
    (bucket : BucketProxy) (s : InitiatorSyncSession)
    → length s.exploration_queue ≤ s.exploration_path_limit + 1
    → Replies s.session_id s.exploration_path_limit (dig bucket s)
unfolding dig
dig-Replies bucket s h =
    Replies-if (eqb (exploration_queue_size s) 0) _ _ (Replies-abort s (omega arith)) (
      Replies-if (eqb (bucket.merkle_tree.level (peek_exploration_queue s)) s.max_depth) _ _
        (elim (get_node_keys_cases bucket s) [
          | inl e ↦ rw e (Replies-abort s (omega arith))
          | inr (known, e) ↦ rw e (
              Replies-reply (record s { current_node_keys = known; current_state = db_object_push })
                _ tt h)
        ])
        (Replies-reply (record s { current_state = left_hash_compare }) _ tt h))

next_node-Replies :
    (bucket : BucketProxy) (s : InitiatorSyncSession) (failed : Bool)
    → s.current_state ≡ db_object_push
    → length s.exploration_queue ≤ s.exploration_path_limit + 1
    → Replies s.session_id s.exploration_path_limit (next_node bucket s failed)
unfolding next_node
next_node-Replies bucket s failed c h =
    Replies-if (failed || eqb (exploration_queue_size s) 0) _ _ (Replies-abort s (omega arith))
      (elim (get_node_keys_cases bucket s) [
        | inl e ↦ rw e (Replies-abort s (omega arith))
        | inr (known, e) ↦
            rw e (Replies-reply (record s { current_node_keys = known }) _ (rw c tt) (rw c h))
      ])

length-rest_of : (queue : List ℕ) (n : ℕ) → length queue ≤ n + 2 → length (rest_of queue) ≤ n + 1
length-rest_of [] n h = omega arith
length-rest_of (m ∷ queue) n h = omega arith

length-rest_push : (queue : List ℕ) (n : ℕ) → length (rest_of (queue ++ (n ∷ []))) ≡ length queue
length-rest_push [] n = refl
length-rest_push (m ∷ queue) n = omega (arith, length-append queue (n ∷ []))

on_right_hash_compare-Replies :
    (bucket : BucketProxy) (s : InitiatorSyncSession) (m : Option MessageBody)
    → s.exploration_path_limit + 2 < 2 ^ 32
    → length s.exploration_queue ≤ s.exploration_path_limit + 2
    → Replies s.session_id s.exploration_path_limit (on_right_hash_compare bucket s m)
unfolding on_right_hash_compare
on_right_hash_compare-Replies bucket s (some (sync_node_hash theirs)) small h =
    let right = bucket.merkle_tree.right_child (peek_exploration_queue s) in
    elim (Bool-cases (differs theirs (bucket.merkle_tree.node_hash right))) [
      | inl e ↦ elim (Bool-cases (leb (exploration_queue_size s) s.exploration_path_limit)) [
        | inl f ↦
            rw (e, f)
              (dig-Replies bucket (pop_exploration_queue (push_exploration_queue s right)) (
                let le = leb→le (exploration_queue_size s) s.exploration_path_limit f in
                omega (arith, length-rest_push s.exploration_queue right)))
        | inr f ↦
            rw (e, f)
              (dig-Replies bucket (pop_exploration_queue s)
                (length-rest_of s.exploration_queue s.exploration_path_limit h))
      ]
      | inr e ↦ rw e (
          dig-Replies bucket (pop_exploration_queue s)
            (length-rest_of s.exploration_queue s.exploration_path_limit h))
    ]
on_right_hash_compare-Replies bucket s _ small h = Replies-abort s h

on_left_hash_compare-Replies :
    (bucket : BucketProxy) (s : InitiatorSyncSession) (m : Option MessageBody)
    → length s.exploration_queue ≤ s.exploration_path_limit + 1
    → Replies s.session_id s.exploration_path_limit (on_left_hash_compare bucket s m)
unfolding on_left_hash_compare
on_left_hash_compare-Replies bucket s (some (sync_node_hash theirs)) h =
    let left = bucket.merkle_tree.left_child (peek_exploration_queue s) in
    elim (Bool-cases (differs theirs (bucket.merkle_tree.node_hash left))) [
      | inl e ↦ rw e (
          Replies-reply
            (record (push_exploration_queue s left) { current_state = right_hash_compare }) _ tt
            (omega (arith, length-append s.exploration_queue (left ∷ []))))
      | inr e ↦
          rw e (Replies-reply (record s { current_state = right_hash_compare }) _ tt (omega arith))
    ]
on_left_hash_compare-Replies bucket s _ h = Replies-abort s (omega arith)

on_root_hash_compare-Replies :
    (bucket : BucketProxy) (s : InitiatorSyncSession) (m : Option MessageBody)
    → length s.exploration_queue ≤ s.exploration_path_limit + 1
    → Replies s.session_id s.exploration_path_limit (on_root_hash_compare bucket s m)
unfolding on_root_hash_compare
on_root_hash_compare-Replies bucket s (some (sync_node_hash theirs)) h =
    let tree = bucket.merkle_tree in
    let node = peek_exploration_queue s in
    Replies-if (not (differs theirs (tree.node_hash node))) _ _ (Replies-abort s (omega arith)) (
      Replies-if (not (eqb (tree.level node) s.max_depth)) _ _
        (Replies-reply (record s { current_state = left_hash_compare }) _ tt h)
        (Replies-reply (record s { current_state = db_object_push }) _ tt h))
on_root_hash_compare-Replies bucket s _ h = Replies-abort s (omega arith)

on_handshake-Replies :
    (bucket : BucketProxy) (s : InitiatorSyncSession) (m : Option MessageBody)
    → length s.exploration_queue ≤ 0
    → Replies s.session_id s.exploration_path_limit (on_handshake bucket s m)
unfolding on_handshake
on_handshake-Replies bucket s (some (sync_start theirs)) h =
    Replies-if (not (eqb theirs.protocol_version 2)) _ _ (Replies-abort s (omega arith)) (
      Replies-reply
        (record (push_exploration_queue s bucket.merkle_tree.root_node) {
          max_depth =
              if ltb theirs.merkle_depth s.max_depth then theirs.merkle_depth else s.max_depth;
          their_depth = theirs.merkle_depth;
          current_state = root_hash_compare;
        })
        _ tt (omega (arith, length-append s.exploration_queue (bucket.merkle_tree.root_node ∷ []))))
on_handshake-Replies bucket s _ h = Replies-abort s (omega arith)

on_db_object_push-Replies :
    (bucket : BucketProxy) (s : InitiatorSyncSession) (m : Option MessageBody)
    → s.current_state ≡ db_object_push
    → length s.exploration_queue ≤ s.exploration_path_limit + 1
    → Replies s.session_id s.exploration_path_limit (on_db_object_push bucket s m)
unfolding on_db_object_push
on_db_object_push-Replies bucket s (some sync_push_done) c h =
    let s' = pop_exploration_queue s in
    let shorter = length-rest_of s.exploration_queue s.exploration_path_limit (omega arith) in
    Replies-if s.replicates_outgoing _ _ (next_node-Replies bucket s' false c shorter)
      (Replies-after _ _ (next_node-Replies bucket s' _ c shorter))
on_db_object_push-Replies bucket s (some (sync_push_message pushed)) c h =
    let s' = record s { current_node_keys = erase pushed.key s.current_node_keys } in
    Replies-after _ _ (
      Replies-if (bucket.merge pushed.key pushed.value) _ _ (Replies-abort s' (omega arith))
        (Replies-reply s' _ (rw c tt) (rw c h)))
on_db_object_push-Replies bucket s _ c h = Replies-abort s (omega arith)

by_state-Replies :
    (state : State) (bucket : BucketProxy) (s : InitiatorSyncSession) (m : Option MessageBody)
    → s.current_state ≡ state
    → Runs state
    → s.exploration_path_limit + 2 < 2 ^ 32
    → length s.exploration_queue ≤ room state s.exploration_path_limit
    → Replies s.session_id s.exploration_path_limit (by_state state bucket s m)
unfolding by_state on_start
by_state-Replies start bucket s m c r small h =
    Replies-check_tree bucket _ (Replies-reply (record s { current_state = handshake }) _ tt h)
by_state-Replies handshake bucket s m c r small h =
    Replies-check_tree bucket _ (on_handshake-Replies bucket s m h)
by_state-Replies root_hash_compare bucket s m c r small h =
    Replies-check_tree bucket _ (on_root_hash_compare-Replies bucket s m h)
by_state-Replies left_hash_compare bucket s m c r small h =
    Replies-check_tree bucket _ (on_left_hash_compare-Replies bucket s m h)
by_state-Replies right_hash_compare bucket s m c r small h =
    Replies-check_tree bucket _ (on_right_hash_compare-Replies bucket s m small h)
by_state-Replies hash_compare bucket s m c r small h = absurd r
by_state-Replies db_object_push bucket s m c r small h =
    Replies-check_tree bucket _ (on_db_object_push-Replies bucket s m c h)
by_state-Replies end bucket s m c r small h = absurd r

-- Whatever the bucket does and whatever message comes, or none: an initiator in one of the states of
-- its loop whose queue has room has a message with its own id to send, keeps its id, its limit and the
-- room of its queue, and goes on in such a state or ends with an abort. Its limit is at most 2 ^ 32 - 3.
pub next_state-Replies :
    (bucket : BucketProxy) (s : InitiatorSyncSession) (m : Option SyncMessageWrapper)
    → Runs s.current_state
    → s.exploration_path_limit + 2 < 2 ^ 32
    → InRoom s
    → Replies s.session_id s.exploration_path_limit (next_state bucket s m)
unfolding next_state
next_state-Replies bucket s m r small h =
    by_state-Replies s.current_state bucket s (body_of m) refl r small h
