-- ===== src/Sync/Initiator/Replies.antt =====
-- server/sync.go: the initiator always has a message to send, and its states are those of its role.
use devicedb.Common.{
  ℕ, ◌+◌, bytes_eq, ◌≤◌, length, ◌≡◌, refl, arith, Bool, true, false, some, ◌⊎◌, inl, inr,
  if◌then◌else◌,
}
use devicedb.Sync.Messages.{
  State, start, handshake, root_hash_compare, left_hash_compare, right_hash_compare, hash_compare,
  db_object_push, end, MessageBody, sync_abort, SyncMessageWrapper, Turn, Effect,
}
use devicedb.Sync.Proxy.{BucketProxy}
use devicedb.Sync.Initiator.{InitiatorSyncSession, reply, abort, after, check_tree}

-- The states of an initiator whose loop goes on.
abbrev pub Runs : State → Type 0
Runs hash_compare = ⊥
Runs end = ⊥
Runs _ = Unit

-- The length of the queue that a state allows.
abbrev pub room : State → ℕ → ℕ
room start limit = 0
room handshake limit = 0
room right_hash_compare limit = limit + 2
room end limit = limit + 2
room _ limit = limit + 1

abbrev pub InRoom : InitiatorSyncSession → Type 0
InRoom s = length s.exploration_queue ≤ room s.current_state s.exploration_path_limit

-- The session has a message with its id to send, and goes on, or has ended and sends an abort. Its
-- limit is the one it had, and its queue is as long as its state allows at most.
pub record Replies (id limit : ℕ) (turn : Turn InitiatorSyncSession) : Type 0 where
  pub sent : SyncMessageWrapper
  pub reply_eq : turn.reply ≡ some sent
  pub labelled : sent.session_id ≡ id
  pub keeps_id : turn.session.session_id ≡ id
  pub keeps_limit : turn.session.exploration_path_limit ≡ limit
  pub goes :
      Runs turn.session.current_state
      ⊎ ((turn.session.current_state ≡ end) × (sent.message_body ≡ sync_abort))
  pub in_room : length turn.session.exploration_queue ≤ room turn.session.current_state limit

pub Replies-reply :
    (s : InitiatorSyncSession) (body : MessageBody)
    → Runs s.current_state
    → InRoom s
    → Replies s.session_id s.exploration_path_limit (reply s body)
Replies-reply s body r h = record {
  sent = _;
  reply_eq = refl;
  labelled = refl;
  keeps_id = refl;
  keeps_limit = refl;
  goes = inl r;
  in_room = h;
}

pub Replies-abort :
    (s : InitiatorSyncSession)
    → length s.exploration_queue ≤ s.exploration_path_limit + 2
    → Replies s.session_id s.exploration_path_limit (abort s)
Replies-abort s h = record {
  sent = _;
  reply_eq = refl;
  labelled = refl;
  keeps_id = refl;
  keeps_limit = refl;
  goes = inr (refl, refl);
  in_room = h;
}

pub Replies-after :
    {id limit : ℕ} (effect : Effect) (turn : Turn InitiatorSyncSession)
    → Replies id limit turn
    → Replies id limit (after effect turn)
Replies-after effect turn r = record {
  sent = r.sent;
  reply_eq = r.reply_eq;
  labelled = r.labelled;
  keeps_id = r.keeps_id;
  keeps_limit = r.keeps_limit;
  in_room = r.in_room;
  goes = r.goes;
}

pub Replies-if :
    {id limit : ℕ} (b : Bool) (x y : Turn InitiatorSyncSession)
    → Replies id limit x
    → Replies id limit y
    → Replies id limit (if b then x else y)
Replies-if true x y p q = p
Replies-if false x y p q = q

-- No state has more room than the end.
room-le_end : (state : State) (limit : ℕ) → room state limit ≤ limit + 2
room-le_end start limit = omega arith
room-le_end handshake limit = omega arith
room-le_end root_hash_compare limit = omega arith
room-le_end left_hash_compare limit = omega arith
room-le_end right_hash_compare limit = omega arith
room-le_end hash_compare limit = omega arith
room-le_end db_object_push limit = omega arith
room-le_end end limit = omega arith

pub Replies-check_tree :
    {id limit : ℕ} (bucket : BucketProxy) (turn : Turn InitiatorSyncSession)
    → Replies id limit turn
    → Replies id limit (check_tree bucket turn)
Replies-check_tree {id} {limit} bucket turn r = go bucket.merkle_tree.error refl
  where
    go : (b : Bool) → bucket.merkle_tree.error ≡ b → Replies id limit (check_tree bucket turn)
    go true e = rw e (record {
      sent = _;
      reply_eq = refl;
      labelled = r.keeps_id;
      keeps_id = r.keeps_id;
      keeps_limit = r.keeps_limit;
      goes = inr (refl, refl);
      in_room = omega (arith, r.in_room, room-le_end turn.session.current_state limit);
    })
    go false e = rw e r
