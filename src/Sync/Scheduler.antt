-- ===== src/Sync/Scheduler.antt =====
-- sync/sync_scheduler.go: the peers of a scheduler, and the periodic scheduler. The peers that
-- `NewPeer` makes are a store, and a `*Peer` is the number of its peer in it. `Next` first waits for
-- the period; the waiting and the lock are not modelled.
pub mod Valid
pub mod Turns
use devicedb.Common.{
  ℕ, ◌+◌, ◌%◌, Bool, true, false, Option, none, some, List, [], ◌∷◌, ◌++◌, Bytes, length, get_elem?,
  set, if◌then◌else◌, ◌==◌, nat_eq, bytes_eq,
}
use devicedb.Common.Dict.{Dict, lookup, contains, insert, erase}

pub record Peer : Type 0 where
  pub id : Bytes
  pub buckets : List Bytes
  pub next_bucket : ℕ

abbrev pub new_peer : Bytes → List Bytes → Peer
new_peer id buckets = record { id = id; buckets = buckets; next_bucket = 0 }

-- `NextBucket`; none is the panic of an index out of range.
unfoldable pub bucket_of : Peer → Option Bytes
bucket_of peer =
    if length peer.buckets == 0 then some [] else get_elem? peer.buckets peer.next_bucket

-- `Advance` of a peer; none is the panic of a division by 0.
unfoldable pub advance_peer : Peer → Option Peer
advance_peer peer =
    if length peer.buckets == 0
    then none
    else some (record peer { next_bucket = (peer.next_bucket + 1) % length peer.buckets })

pub record PeriodicSyncScheduler : Type 0 where
  pub store : List Peer
  pub peers : Dict Bytes ℕ
  pub queue : List ℕ

unfoldable pub add_peer : PeriodicSyncScheduler → Bytes → List Bytes → PeriodicSyncScheduler
add_peer s id buckets = if contains id s.peers then s else record s {
  store = s.store ++ (new_peer id buckets ∷ []);
  peers = insert id (length s.store) s.peers;
}

-- The queue without the peers of an id.
abbrev pub has_id : List Peer → Bytes → ℕ → Bool
has_id store id a = elim (get_elem? store a) [ none ↦ false | some peer ↦ peer.id == id ]

unfoldable pub new_queue : List Peer → Bytes → List ℕ → List ℕ
new_queue store id [] = []
new_queue store id (a ∷ queue) =
    let rest = new_queue store id queue in if has_id store id a then rest else a ∷ rest

unfoldable pub remove_peer : PeriodicSyncScheduler → Bytes → PeriodicSyncScheduler
remove_peer s id = record s { queue = new_queue s.store id s.queue; peers = erase id s.peers }

-- `Next`: the id and the bucket to synchronise, empty if nobody is in the queue.
unfoldable pub next_sync : PeriodicSyncScheduler → Option (Bytes × Bytes)
unfolding bucket_of
next_sync s = elim s.queue [
  | [] ↦ some ([], [])
  | a ∷ _ ↦ elim (get_elem? s.store a) [
    | none ↦ none
    | some peer ↦ elim (bucket_of peer) [ none ↦ none | some bucket ↦ some (peer.id, bucket) ]
  ]
]

-- `Advance`: the first peer leaves the queue, and its next bucket is the one after.
unfoldable pub advance : PeriodicSyncScheduler → Option PeriodicSyncScheduler
unfolding advance_peer
advance s = elim s.queue [
  | [] ↦ some s
  | a ∷ rest ↦ elim (get_elem? s.store a) [
    | none ↦ none
    | some peer ↦ elim (advance_peer peer) [
      | none ↦ none
      | some peer' ↦ some (record s { store = set s.store a peer'; queue = rest })
    ]
  ]
]

unfoldable pub schedule : PeriodicSyncScheduler → Bytes → PeriodicSyncScheduler
schedule s id = elim (lookup id s.peers) [
  | none ↦ s
  | some a ↦ record s { queue = s.queue ++ (a ∷ []) }
]

-- The calls that change the scheduler, and a sequence of them.
pub data SchedulerCall : Type 0 where
  call_add_peer : Bytes → List Bytes → SchedulerCall
  call_remove_peer call_schedule : Bytes → SchedulerCall
  call_advance : SchedulerCall

abbrev pub call : SchedulerCall → PeriodicSyncScheduler → Option PeriodicSyncScheduler
call (call_add_peer id buckets) s = some (add_peer s id buckets)
call (call_remove_peer id) s = some (remove_peer s id)
call (call_schedule id) s = some (schedule s id)
call call_advance s = advance s

abbrev pub calls : List SchedulerCall → PeriodicSyncScheduler → Option PeriodicSyncScheduler
calls [] s = some s
calls (c ∷ cs) s = elim (call c s) [ none ↦ none | some s' ↦ calls cs s' ]
