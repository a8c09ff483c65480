-- ===== src/Sync/Proxy.antt =====
-- sync/bucket_proxy.go and sync/merkle_proxy.go: what a session sees of a bucket. The interfaces are
-- records of what their methods return, at one call of NextState: the bucket may change between two
-- calls, so every call is given its own. `direct_proxy` is the implementation of the tree's interface
-- over a tree in the same process.
use devicedb.Common.{ℕ, ◌^◌, ◌%◌, Bool, false, Option, List, [], Bytes, length, eqb, if◌then◌else◌}
use devicedb.Data.SiblingSet.{SiblingSet}
use devicedb.Data.Hash.{Hash}
use devicedb.Merkle.Nodes.{left_child, right_child}
use devicedb.Merkle.Tree.{MerkleTree, root_node, level, node_hash, translate_node}

pub record MerkleTreeProxy : Type 0 where
  pub root_node : ℕ
  pub depth : ℕ
  pub node_limit : ℕ
  pub level : ℕ → ℕ
  pub left_child : ℕ → ℕ
  pub right_child : ℕ → ℕ
  pub node_hash : ℕ → Hash
  pub translate_node : ℕ → ℕ → ℕ
  pub error : Bool

-- A tree without nodes, whose slice is nil, has the limit of its depth.
abbrev pub node_limit : MerkleTree → ℕ
node_limit tree =
    if eqb (length tree.nodes) 0 then 2 ^ tree.depth % 2 ^ 32 else length tree.nodes % 2 ^ 32

abbrev pub direct_proxy : MerkleTree → MerkleTreeProxy
direct_proxy tree = record {
  root_node = root_node tree.depth;
  depth = tree.depth;
  node_limit = node_limit tree;
  level = level tree;
  left_child = left_child;
  right_child = right_child;
  node_hash = node_hash tree;
  translate_node = translate_node tree;
  error = false;
}

-- A SiblingSetIterator: the rows that Next has not reached, whether it then reports an error, and
-- whether it reports one when Next is called after Release.
pub record SyncIter : Type 0 where
  pub rows : List (Bytes × Option SiblingSet)
  pub failed : Bool
  pub failed_released : Bool

abbrev pub release : SyncIter → SyncIter
release iter = record iter { rows = []; failed = iter.failed_released }

-- Where a method returns an error, the result is none, or true for a method that returns nothing else.
pub record BucketProxy : Type 0 where
  pub name : Bytes
  pub merkle_tree : MerkleTreeProxy
  pub get_sync_children : ℕ → Option SyncIter
  pub merge : Bytes → Option SiblingSet → Bool
  pub forget : List Bytes → Bool

-- A bucket in the same process: the methods of bucket.Bucket that the proxies call.
pub record LocalBucket : Type 0 where
  pub name : Bytes
  pub merkle_tree : MerkleTree
  pub get_sync_children : ℕ → Option SyncIter
  pub merge : Bytes → Option SiblingSet → Bool
  pub forget : List Bytes → Bool

abbrev pub relay_bucket_proxy : LocalBucket → BucketProxy
relay_bucket_proxy bucket = record {
  name = bucket.name;
  merkle_tree = direct_proxy bucket.merkle_tree;
  get_sync_children = bucket.get_sync_children;
  merge = bucket.merge;
  forget = bucket.forget;
}

-- In the cloud an object is merged through the agent of the cluster, and no key is forgotten.
abbrev pub cloud_local_bucket_proxy : (Bytes → Option SiblingSet → Bool) → LocalBucket → BucketProxy
cloud_local_bucket_proxy agent_merge bucket = record {
  name = bucket.name;
  merkle_tree = direct_proxy bucket.merkle_tree;
  get_sync_children = bucket.get_sync_children;
  merge = agent_merge;
  forget = λ _. false;
}
