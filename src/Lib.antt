-- ===== src/Lib.antt =====
-- DeviceDB is a replicated key-value store for devices and the cloud. A value is a set of siblings
-- with dotted version vectors (data/), a bucket keeps one sibling set per key in leveldb together
-- with a merkle tree over the keys (bucket/, merkle/, storage/), nodes find their differences by
-- comparing merkle trees (sync/, server/sync.go), and in the cloud a raft log keeps the cluster state
-- that says which node holds which partition (cluster/, node/, raft/, transfer/, clusterio/).
--
-- Files and sources:
--   Common            lists, Go maps as association lists, tests into Bool, XOR of words
--   Data/Clock        data/dvv.go: Dot, DVV; Clock/Causality proves
--   Data/Sibling      data/sibling.go
--   Data/SiblingSet   data/sibling_set.go: Sync, Diff, Join, JoinOne, Discard, Event and the tests on
--                     tombstones; SiblingSet/Members, Joins and Events prove
--   Data/Hash         data/hash.go, and the methods Hash of dvv.go, sibling.go and sibling_set.go;
--                     Hash/Laws proves
--   Data/Update       data/update.go
--   Bucket/Resolver   resolver/strategies/; Resolver/Kept proves
--   Bucket/Write      bucket/store.go: what Batch does for one key; Write/Keeps proves
--   Merkle/Nodes      merkle/merkle.go: node ids; Nodes/Position, Zeros, Family and InTree prove
--   Merkle/Queue      merkle/merkle.go: the ring buffer
--   Merkle/Tree       merkle/merkle.go: NewMerkleTree, UpdateLeafHash, Update, UndoUpdate,
--                     PreviewUpdate; Tree/Rehash, Drain, Enter, Valid, Updates and Climb prove
--   Cluster/State     cluster/state.go: nodes, AssignToken, AssignPartitionReplica and
--                     AssignPartitionReplicaOwnership; State/Marks, Tokens, Replicas and Moves prove
--   Cluster/Start     cluster/state.go: Initialize, and AddNode again
--   Cluster/Removal   cluster/state.go: RemoveNode; Removal/Loops and Keeps prove
--   Cluster/Sites     cluster/state.go: sites and relays; Sites/Placed proves
--   Cluster/Partitioner  cluster/partitioner.go: Owners and Partition; its children prove
--   Cluster/Controller  cluster/controller.go, delta.go and command.go: the caches, the deltas
--                     (Controller/Deltas) and Step with every command (Controller/Commands);
--                     Controller/Agreement, Members, Sound, Steps, Follows and Takes prove
--   Sync/Messages, Sync/Proxy  the states and messages of server/sync.go, and what a session sees of
--                     a bucket: sync/bucket_proxy.go and sync/merkle_proxy.go
--   Sync/Initiator    server/sync.go: the session that pulls; Initiator/Replies and Handlers prove
--   Sync/Responder    server/sync.go: the session that answers; Responder/Answers proves
--   Sync/Exchange     server/peer.go: the loops that run the two sessions, as rounds; its children prove
--   Sync/Scheduler    sync/sync_scheduler.go: the periodic scheduler; Scheduler/Valid and Turns prove
--   Clusterio/MergeIterator  clusterio/sibling_set_merge_iterator.go; MergeIterator/Walk and Adds prove
-- The modules called Tests hold concrete inputs.
--
-- How the state is modelled:
--   A Sibling is shared by address, so a SiblingSet is a list of addresses, in an order in which range
--   may visit the Go map, and a heap gives the sibling at an address. Words keep their wrap-around:
--   Event adds one modulo 2 ^ 64, and node ids are uint32. MD5 is a parameter of every definition that
--   hashes; what is assumed of it is that it returns bytes.
--   The methods of MerkleTree hold its lock from their first line to their return, so a call is one
--   function from the tree to the tree.
--   The operations of ClusterState return an Outcome: a state, an error, or a panic, where the code
--   would use a nil node or an index out of range. The maps inside a node are never nil. A loop that
--   deletes from the map that it ranges over runs over the keys that were there.
--   NextState returns a Turn: the session after it, its message, and what it asked of the bucket. The
--   bucket of a call is an argument, so it may change between two calls; the theorems on an exchange
--   take one that does not. An exchange is a sequence of rounds, in each of which the initiator takes a
--   turn and then the responder, because each waits for the other; a lost message is a turn without one.
--   What the initiator sent last is kept beside the exchange; merges and forgotten keys are what it asked
--   of its bucket, which in the cloud forgets nothing.
--   A command of the raft log is one step of the controller. The strategy that assigns tokens and the
--   sort of the node configurations are parameters, of which nothing is assumed but that they
--   return.
--   A SiblingSet that Batch keeps is the one that the strategy of the bucket leaves of what it returns;
--   both are in the model.
--
-- Bounds and fuel:
--   The ring buffer adds its head and its size as uint32, so the theorems on Update take at most 2 ^ 31
--   differences. The length above which make panics is a property of the Go runtime: the parameter
--   max_slice of Initialize, of Owners and of the commands gives it for the size of an element in bytes.
--   A tree has a depth from 1 to 28. The second loop of Update runs on fuel: the number of
--   differences times the depth, which is at least the number of nodes from every queued leaf to the
--   root, each counted as often as it is queued. The loop of UpdateLeafHash has one turn more than the
--   depth. The shift of the partitioner is computed on fuel 64, one for every bit of a uint64. The loops of
--   Owners have fuel for every token and for every missing owner.
--
-- Of the controller ApplySnapshot and the getters are not modelled, nor is a proxy of a bucket on
-- another node, which is HTTP calls.
-- Of the schedulers the one for the cloud is not modelled: it waits on clocks and calls the library's heap.
-- Not modelled: storage, network and HTTP I/O, JSON and gob codecs, metrics and logging, the vendored
-- libraries (leveldb, etcd raft), and the goroutines around them.
pub mod Bucket
pub mod Cluster
pub mod Clusterio
pub mod Common
pub mod Data
pub mod Merkle
pub mod Sync
