-- ===== src/Sync/Exchange.antt =====
-- server/peer.go: the loops that run a session. The messages of an exchange alternate: a session waits
-- for the answer of the other one before its next turn, and its loop ends in the state END.
pub mod Answers
pub mod Search
pub mod Finds
pub mod Begins
pub mod Transfer
use devicedb.Common.{
  ℕ, zero, suc, Bool, true, false, Option, none, some, List, [], ◌++◌, if◌then◌else◌, map,
}
use devicedb.Sync.Messages.{
  State, end, start, handshake, root_hash_compare, left_hash_compare, right_hash_compare,
  hash_compare, db_object_push, SyncMessageWrapper, Turn, Effect,
}
use devicedb.Sync.Proxy.{BucketProxy}
use devicedb.Sync.Initiator as Initiator
use devicedb.Sync.Responder as Responder
use devicedb.Sync.Initiator.{InitiatorSyncSession}
use devicedb.Sync.Responder.{ResponderSyncSession}

-- The directions of a message.
abbrev pub request_direction : ℕ
request_direction = 5

abbrev pub response_direction : ℕ
response_direction = 6

abbrev pub directed : ℕ → Option SyncMessageWrapper → Option SyncMessageWrapper
directed direction none = none
directed direction (some m) = some (record m { direction = direction })

abbrev pub is_end : State → Bool
is_end end = true
is_end start = false
is_end handshake = false
is_end root_hash_compare = false
is_end left_hash_compare = false
is_end right_hash_compare = false
is_end hash_compare = false
is_end db_object_push = false

-- Two sessions, the message that is on its way to the initiator, what it did to its bucket, and what it
-- last sent.
pub record Exchange : Type 0 where
  pub initiator : InitiatorSyncSession
  pub responder : ResponderSyncSession
  pub received : Option SyncMessageWrapper
  pub effects : List Effect
  pub sent : Option SyncMessageWrapper

-- A turn of the loop of runInitiatorSession, and then one of runResponderSession with its message.
-- If the responder has ended, the initiator next wakes up without a message.
unfoldable pub initiator_turn :
    BucketProxy → InitiatorSyncSession → Option SyncMessageWrapper → Turn InitiatorSyncSession
initiator_turn bucket session received =
    let turn = Initiator.next_state bucket session received in
    record turn { reply = directed request_direction turn.reply }

unfoldable pub responder_turn :
    BucketProxy → ResponderSyncSession → Option SyncMessageWrapper → Turn ResponderSyncSession
responder_turn bucket session received =
    let turn = Responder.next_state bucket session received in
    record turn { reply = directed response_direction turn.reply }

abbrev pub answer :
    BucketProxy → ResponderSyncSession → Turn InitiatorSyncSession → List Effect → Exchange
answer theirs responder turn effects =
    if is_end responder.current_state
    then record {
      initiator = turn.session;
      responder = responder;
      received = none;
      effects = effects ++ turn.effects;
      sent = turn.reply;
    }
    else (let answered = responder_turn theirs responder turn.reply in
        record {
          initiator = turn.session;
          responder = answered.session;
          received = answered.reply;
          effects = effects ++ turn.effects;
          sent = turn.reply;
        })

unfoldable pub round : BucketProxy → BucketProxy → Exchange → Exchange
round mine theirs e =
    if is_end e.initiator.current_state
    then e
    else answer theirs e.responder (initiator_turn mine e.initiator e.received) e.effects

abbrev pub rounds : BucketProxy → BucketProxy → ℕ → Exchange → Exchange
rounds mine theirs zero e = e
rounds mine theirs (suc n) e = rounds mine theirs n (round mine theirs e)
