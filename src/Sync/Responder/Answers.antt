-- ===== src/Sync/Responder/Answers.antt =====
-- server/sync.go: the responder always has a message to send, and its states are those of its role.
use devicedb.Common.{
  ℕ, ◌≡◌, refl, Bool, true, false, Option, none, some, ◌⊎◌, inl, inr, if◌then◌else◌, not, eqb, leb,
  ◌||◌, List, [], ◌∷◌, Bytes,
}
use devicedb.Data.SiblingSet.{SiblingSet}
use devicedb.Sync.Messages.{
  State, start, handshake, root_hash_compare, left_hash_compare, right_hash_compare, hash_compare,
  db_object_push, end, MessageBody, sync_start, sync_abort, sync_node_hash, sync_object_next,
  SyncMessageWrapper, Turn,
}
use devicedb.Sync.Proxy.{BucketProxy, SyncIter, release}
use devicedb.Sync.Responder.{
  ResponderSyncSession, reply, abort, on_start, on_hash_compare, on_db_object_push, first_objects,
  next_object, more_objects, release_held, check_tree, by_state, next_state, identify, body_of,
  first_object,
}

-- The states of a responder whose loop goes on.
abbrev pub Runs : State → Type 0
Runs start = Unit
Runs hash_compare = Unit
Runs db_object_push = Unit
Runs _ = ⊥

-- The session has a message with its id to send, and goes on, or has ended and sends an abort. It
-- changes nothing of its bucket.
pub record Answers (turn : Turn ResponderSyncSession) : Type 0 where
  pub sent : SyncMessageWrapper
  pub reply_eq : turn.reply ≡ some sent
  pub labelled : sent.session_id ≡ turn.session.session_id
  pub goes :
      Runs turn.session.current_state
      ⊎ ((turn.session.current_state ≡ end) × (sent.message_body ≡ sync_abort))
  pub no_effect : turn.effects ≡ []

Answers-reply :
    (s : ResponderSyncSession) (body : MessageBody) → Runs s.current_state → Answers (reply s body)
Answers-reply s body r = record {
  sent = _;
  reply_eq = refl;
  labelled = refl;
  goes = inl r;
  no_effect = refl;
}

Answers-abort : (s : ResponderSyncSession) → Answers (abort s)
Answers-abort s = record {
  sent = _;
  reply_eq = refl;
  labelled = refl;
  goes = inr (refl, refl);
  no_effect = refl;
}

Answers-if :
    (b : Bool) (x y : Turn ResponderSyncSession)
    → Answers x
    → Answers y
    → Answers (if b then x else y)
Answers-if true x y p q = p
Answers-if false x y p q = q

Answers-check_tree :
    (bucket : BucketProxy) (turn : Turn ResponderSyncSession)
    → Answers turn
    → Answers (check_tree bucket turn)
Answers-check_tree bucket turn r = go bucket.merkle_tree.error refl
  where
    go : (b : Bool) → bucket.merkle_tree.error ≡ b → Answers (check_tree bucket turn)
    go true e = rw e (record {
      sent = _;
      reply_eq = refl;
      labelled = refl;
      goes = inr (refl, refl);
      no_effect = r.no_effect;
    })
    go false e = rw e r

on_start-Answers :
    (bucket : BucketProxy) (s : ResponderSyncSession) (m : Option MessageBody)
    → Answers (on_start bucket s m)
unfolding on_start
on_start-Answers bucket s (some (sync_start theirs)) =
    Answers-if (not (eqb theirs.protocol_version 2)) _ _ (Answers-abort s) (
      Answers-reply (record s { their_depth = theirs.merkle_depth; current_state = hash_compare }) _
        tt)
on_start-Answers bucket s _ = Answers-abort s

first_object-Answers : (s : ResponderSyncSession) (iter : SyncIter) → Answers (first_object s iter)
first_object-Answers s iter = go iter.rows refl
  where
    go :
        (rows : List (Bytes × Option SiblingSet)) → iter.rows ≡ rows → Answers (first_object s iter)
    go [] e = rw e (
        Answers-if iter.failed _ _ (Answers-abort s)
          (Answers-reply (record s { current_state = db_object_push }) _ tt))
    go (row ∷ rows) e = rw e (
        Answers-reply
          (record s { iter = some (record iter { rows = rows }); current_state = db_object_push }) _
          tt)

on_hash_compare-Answers :
    (bucket : BucketProxy) (s : ResponderSyncSession) (m : Option MessageBody)
    → s.current_state ≡ hash_compare
    → Answers (on_hash_compare bucket s m)
unfolding on_hash_compare
on_hash_compare-Answers bucket s (some (sync_node_hash theirs)) c =
    Answers-if (leb bucket.merkle_tree.node_limit theirs.node_id || eqb theirs.node_id 0) _ _
      (Answers-abort s) (Answers-reply s _ (rw c tt))
on_hash_compare-Answers bucket s (some (sync_object_next asked)) c =
    go (bucket.get_sync_children asked.node_id) refl
  where
    go :
        (o : Option SyncIter)
        → bucket.get_sync_children asked.node_id ≡ o
        → Answers (first_objects bucket s asked.node_id)
    go none e =
        rw (e, first_objects) (Answers-abort (record s { current_iteration_node = asked.node_id }))
    go (some iter) e =
        rw (e, first_objects)
          (first_object-Answers (record s { current_iteration_node = asked.node_id }) iter)
on_hash_compare-Answers bucket s _ c = Answers-abort s

next_object-Answers :
    (s : ResponderSyncSession) (iter : SyncIter)
    → s.current_state ≡ db_object_push
    → Answers (next_object s iter)
unfolding next_object
next_object-Answers s iter c = go iter.rows refl
  where
    go : (rows : List (Bytes × Option SiblingSet)) → iter.rows ≡ rows → Answers (next_object s iter)
    go [] e = rw e (
        Answers-if iter.failed _ _ (Answers-abort (record s { iter = some (release iter) }))
          (Answers-reply (record s { iter = some (release iter) }) _ (rw c tt)))
    go (row ∷ rows) e =
        rw e (Answers-reply (record s { iter = some (record iter { rows = rows }) }) _ (rw c tt))

more_objects-Answers :
    (bucket : BucketProxy) (s : ResponderSyncSession) (iter : SyncIter) (node_id : ℕ)
    → s.current_state ≡ db_object_push
    → Answers (more_objects bucket s iter node_id)
unfolding more_objects
more_objects-Answers bucket s iter node_id c =
    Answers-if (not (eqb s.current_iteration_node node_id)) _ _
      (go (bucket.get_sync_children node_id)) (next_object-Answers s iter c)
  where
    go :
        (o : Option SyncIter)
        → Answers (elim o [
          | none ↦ abort (record s { iter = some (release iter); current_iteration_node = node_id })
          | some iter' ↦
              next_object
                (record s { iter = some (release iter); current_iteration_node = node_id })
                iter'
        ])
    go none =
        Answers-abort (record s { iter = some (release iter); current_iteration_node = node_id })
    go (some iter') =
        next_object-Answers
          (record s { iter = some (release iter); current_iteration_node = node_id }) iter' c

on_db_object_push-Answers :
    (bucket : BucketProxy) (s : ResponderSyncSession) (m : Option MessageBody)
    → s.current_state ≡ db_object_push
    → Answers (on_db_object_push bucket s m)
unfolding on_db_object_push
on_db_object_push-Answers bucket s (some (sync_object_next asked)) c = go s.iter
  where
    go :
        (o : Option SyncIter)
        → Answers (elim o [ none ↦ abort s | some iter ↦ more_objects bucket s iter asked.node_id ])
    go none = Answers-abort s
    go (some iter) = more_objects-Answers bucket s iter asked.node_id c
on_db_object_push-Answers bucket s _ c = Answers-abort (release_held s)

by_state-Answers :
    (state : State) (bucket : BucketProxy) (s : ResponderSyncSession)
    (m : Option SyncMessageWrapper)
    → s.current_state ≡ state
    → Runs state
    → Answers (by_state state bucket s m)
unfolding by_state
by_state-Answers start bucket s m c r =
    Answers-check_tree bucket _ (on_start-Answers bucket (identify s m) (body_of m))
by_state-Answers hash_compare bucket s m c r =
    Answers-check_tree bucket _ (on_hash_compare-Answers bucket s (body_of m) c)
by_state-Answers db_object_push bucket s m c r =
    Answers-check_tree bucket _ (on_db_object_push-Answers bucket s (body_of m) c)
by_state-Answers handshake bucket s m c r = absurd r
by_state-Answers root_hash_compare bucket s m c r = absurd r
by_state-Answers left_hash_compare bucket s m c r = absurd r
by_state-Answers right_hash_compare bucket s m c r = absurd r
by_state-Answers end bucket s m c r = absurd r

-- Whatever the bucket does and whatever message comes, or none: a responder in one of the states of its
-- loop has a message with its id to send, goes on in such a state or ends with an abort, and asks for
-- no change of its bucket.
pub next_state-Answers :
    (bucket : BucketProxy) (s : ResponderSyncSession) (m : Option SyncMessageWrapper)
    → Runs s.current_state
    → Answers (next_state bucket s m)
unfolding next_state
next_state-Answers bucket s m r = by_state-Answers s.current_state bucket s m refl r
