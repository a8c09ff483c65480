-- ===== src/Bucket/Write.antt =====
-- bucket/store.go: what `Batch` does for one key, between reading its sibling set and recording the
-- difference (the body of the loop over the operations, and `updateToSibling`).
pub mod Keeps
use devicedb.Common.{
  ℕ, Bool, true, false, Option, none, some, List, [], ◌∷◌, ◌&&◌, ◌||◌, not, ◌≡◌, ◌≢◌, refl, arith,
  any, Bytes, length, if◌then◌else◌, eqb, ◌==◌, nat_eq, Bool-cases, inl, inr, eqb_iff, ◌<◌, ◌∙◌,
  leb,
}
use devicedb.Common.Dict.{Dict}
use devicedb.Data.Clock.{Dvv, happened_before, equals}
use devicedb.Data.Sibling.{Sibling, new_sibling, compare_siblings}
use devicedb.Data.SiblingSet.{
  SiblingSet, Heap, has, size, join, event, discard, sync, is_tombstone_set, get_oldest_tombstone,
  mine_goes, theirs_goes,
}
use devicedb.Data.SiblingSet.Members.{has-sync_goes, has-discard}
use devicedb.Data.SiblingSet.Events.{HasRoom, event_not_before, event_not_equal}
use devicedb.Data.SiblingSet.Joins.{happened_before-join}
use devicedb.Bucket.Resolver.{Strategy, resolve_conflicts}

-- storage.Op, as far as `updateToSibling` reads it: what is no delete is a put.
pub data Op : Type 0 where
  put : Bytes → Op
  delete : Op

abbrev pub is_delete : Op → Bool
is_delete (put v) = false
is_delete delete = true

-- `now` is the clock's reading in milliseconds.
unfoldable pub update_to_sibling : Heap → ℕ → Op → Dvv → Option ℕ → Sibling
update_to_sibling heap now delete c none = new_sibling c none now
update_to_sibling heap now delete c (some p) = new_sibling c none (heap p).physical_timestamp
update_to_sibling heap now (put v) c _ = new_sibling c (some v) now

-- A new object at an address.
abbrev pub alloc : Heap → ℕ → Sibling → Heap
alloc heap p s q = if p == q then s else heap q

-- What one operation of a batch leaves: the heap with the new sibling, the set that `Batch`
-- returns, and the resolved set that it stores.
pub record Written : Type 0 where
  pub heap : Heap
  pub returned : SiblingSet
  pub stored : SiblingSet

-- An empty context is replaced by the set's own.
abbrev pub update_context : Heap → SiblingSet → Dict Bytes ℕ → Dict Bytes ℕ
update_context heap s context = if length context == 0 then join heap s else context

abbrev pub update_clock : Bytes → Heap → SiblingSet → Dict Bytes ℕ → Dvv
update_clock node_id heap s context = event heap s (update_context heap s context) node_id

module _ (node_id : Bytes) (strategy : Strategy) (now : ℕ) where
  -- `none`: deleting a key that is not there changes nothing. `fresh` is the address of the new
  -- sibling.
  unfoldable pub write : Heap → ℕ → SiblingSet → Op → Dict Bytes ℕ → Option Written
  write heap fresh s op context =
      if (size s == 0) && is_delete op
      then none
      else (let clock = update_clock node_id heap s context in
          let oldest : Option ℕ =
            if is_tombstone_set heap s then get_oldest_tombstone heap s else none in
          let heap' = alloc heap fresh (update_to_sibling heap now op clock oldest) in
          let updated = sync heap' (discard heap s clock) (fresh ∷ []) in
          some (record {
            heap = heap';
            returned = updated;
            stored = resolve_conflicts heap' strategy updated;
          }))
