-- ===== src/Sync/Messages.antt =====
-- server/sync.go: the states of a session and its messages. A message's type is the constructor of
-- its body: the code that decodes a message makes a body of the type that it announces.
use devicedb.Common.{ℕ, Bytes, Option, List, []}
use devicedb.Data.SiblingSet.{SiblingSet}

pub data State : Type 0 where
  start : State
  handshake : State
  root_hash_compare : State
  left_hash_compare : State
  right_hash_compare : State
  hash_compare : State
  db_object_push : State
  end : State

abbrev pub protocol_version : ℕ
protocol_version = 2

pub record Start : Type 0 where
  pub protocol_version : ℕ
  pub merkle_depth : ℕ
  pub bucket : Bytes

pub record MerkleNodeHash : Type 0 where
  pub node_id : ℕ
  pub hash_high : ℕ
  pub hash_low : ℕ

pub record ObjectNext : Type 0 where
  pub node_id : ℕ

-- The value is a pointer that may be nil.
pub record PushMessage : Type 0 where
  pub bucket : Bytes
  pub key : Bytes
  pub value : Option SiblingSet

pub data MessageBody : Type 0 where
  sync_start : Start → MessageBody
  sync_abort : MessageBody
  sync_node_hash : MerkleNodeHash → MessageBody
  sync_object_next : ObjectNext → MessageBody
  sync_push_message : PushMessage → MessageBody
  request : MessageBody
  response : MessageBody
  push : MessageBody
  sync_push_done : MessageBody

pub record SyncMessageWrapper : Type 0 where
  pub session_id : ℕ
  pub message_body : MessageBody
  pub direction : ℕ
  pub node_id : Bytes

-- A message as the sessions make it: the fields that they do not set are zero.
abbrev pub message : ℕ → MessageBody → SyncMessageWrapper
message session_id body = record {
  session_id = session_id;
  message_body = body;
  direction = 0;
  node_id = [];
}

-- What a session asks of its bucket that changes it.
pub data Effect : Type 0 where
  merged : Bytes → Option SiblingSet → Effect
  forgot : List Bytes → Effect

-- What a call of NextState does: the session after it, the message it returns (none for nil), and
-- what it asked of the bucket.
pub record Turn {ℓ} (Session : Type ℓ) : Type ℓ where
  pub session : Session
  pub reply : Option SyncMessageWrapper
  pub effects : List Effect
