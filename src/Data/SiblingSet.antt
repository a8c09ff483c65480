-- ===== src/Data/SiblingSet.antt =====
-- data/sibling_set.go. A SiblingSet is a Go map from *Sibling to bool, so its members are
-- addresses: a set is the list of them, in an order in which `range` may visit the map, and a heap
-- gives what an address points to. Two siblings with the same fields at two addresses are two
-- members.
pub mod Members
pub mod Joins
pub mod Events
use devicedb.Common.{
  ℕ, zero, suc, ◌+◌, ◌%◌, ◌^◌, Bool, true, false, Option, none, some, List, [], ◌∷◌, ◌&&◌, ◌||◌,
  not, Bytes, ltb, leb, length, eqb, any, if◌then◌else◌, ◌==◌, nat_eq, bytes_eq, Ordering,
}
use devicedb.Common.Dict.{Dict, lookup, contains, insert}
use devicedb.Data.Clock.{Dvv, new_dot, new_dvv, happened_before, equals, max_dot, replicas, at}
use devicedb.Data.Sibling.{Sibling, new_sibling, is_tombstone, compare_siblings}

abbrev pub SiblingSet : Type 0
SiblingSet = List ℕ

abbrev pub Heap : Type 0
Heap = ℕ → Sibling

abbrev pub has : SiblingSet → ℕ → Bool
has [] p = false
has (q ∷ s) p = (q == p) || has s p

abbrev pub add : SiblingSet → ℕ → SiblingSet
add s p = if has s p then s else p ∷ s

abbrev pub delete : SiblingSet → ℕ → SiblingSet
delete [] p = []
delete (q ∷ s) p = let rest = delete s p in if q == p then rest else q ∷ rest

abbrev pub size : SiblingSet → ℕ
size = length

-- `mySibling.Compare(theirSibling) <= 0` and `< 0`.
abbrev pub le_zero : Ordering → Bool
le_zero Ordering.gt = false
le_zero _ = true

abbrev pub lt_zero : Ordering → Bool
lt_zero Ordering.lt = true
lt_zero _ = false

-- The body of the inner loop of `Join`: the entry of a replica is raised to a dot.
raise_dot : Bytes → ℕ → Dict Bytes ℕ → Dict Bytes ℕ
raise_dot replica dot acc =
    if not (contains replica acc) || ltb (at replica acc) dot then insert replica dot acc else acc

join_replicas : Dvv → List Bytes → Dict Bytes ℕ → Dict Bytes ℕ
join_replicas clock [] acc = acc
join_replicas clock (replica ∷ rest) acc =
    join_replicas clock rest (raise_dot replica (max_dot clock replica) acc)

module _ (heap : Heap) where
  -- The test of the first loop of `Sync` on one pair: must `mine` go?
  unfoldable pub mine_goes : ℕ → ℕ → Bool
  mine_goes mine theirs =
      if happened_before (heap mine).vector_clock (heap theirs).vector_clock
      then true
      else (if equals (heap mine).vector_clock (heap theirs).vector_clock
          then le_zero (compare_siblings (heap mine) (heap theirs))
          else false)

  -- And of the second loop: must `theirs` go?
  unfoldable pub theirs_goes : ℕ → ℕ → Bool
  theirs_goes theirs mine =
      if happened_before (heap theirs).vector_clock (heap mine).vector_clock
      then true
      else (if equals (heap theirs).vector_clock (heap mine).vector_clock
          then lt_zero (compare_siblings (heap theirs) (heap mine))
          else false)

  -- An inner loop: `p` is deleted at each member of the other set for which the test says so.
  unfoldable pub sync_inner : (ℕ → ℕ → Bool) → ℕ → SiblingSet → SiblingSet → SiblingSet
  sync_inner goes p [] acc = acc
  sync_inner goes p (q ∷ others) acc =
      sync_inner goes p others (if goes p q then delete acc p else acc)

  unfoldable pub sync_outer : (ℕ → ℕ → Bool) → SiblingSet → SiblingSet → SiblingSet → SiblingSet
  sync_outer goes [] others acc = acc
  sync_outer goes (p ∷ s) others acc =
      sync_outer goes s others (sync_inner goes p others (add acc p))

  unfoldable pub sync : SiblingSet → SiblingSet → SiblingSet
  sync mine theirs = sync_outer theirs_goes theirs mine (sync_outer mine_goes mine theirs [])

  unfoldable pub diff : SiblingSet → SiblingSet → SiblingSet
  diff mine theirs =
      sync_outer
        (λ t m.
          happened_before (heap t).vector_clock (heap m).vector_clock
          || equals (heap t).vector_clock (heap m).vector_clock)
        theirs mine []

  join_from : SiblingSet → Dict Bytes ℕ → Dict Bytes ℕ
  join_from [] acc = acc
  join_from (p ∷ s) acc =
      join_from s (join_replicas (heap p).vector_clock (replicas (heap p).vector_clock) acc)

  unfoldable pub join : SiblingSet → Dict Bytes ℕ
  unfolding join_from join_replicas raise_dot
  join s = join_from s []

  -- The loop of `JoinOne` and of `Event`, from a first value.
  unfoldable pub max_dot_from : Bytes → SiblingSet → ℕ → ℕ
  max_dot_from replica [] s = s
  max_dot_from replica (p ∷ rest) s =
      let dot = max_dot (heap p).vector_clock replica in
      max_dot_from replica rest (if ltb s dot then dot else s)

  unfoldable pub join_one : SiblingSet → Bytes → ℕ
  join_one s replica = max_dot_from replica s 0

  discard_from : Dvv → SiblingSet → SiblingSet → SiblingSet
  discard_from clock [] acc = acc
  discard_from clock (p ∷ s) acc =
      discard_from clock s
        (if not (happened_before (heap p).vector_clock clock) then add acc p else acc)

  unfoldable pub discard : SiblingSet → Dvv → SiblingSet
  unfolding discard_from
  discard s clock = discard_from clock s []

  -- `s + 1` is a uint64 addition.
  unfoldable pub event : SiblingSet → Dict Bytes ℕ → Bytes → Dvv
  event s context replica =
      new_dvv (new_dot replica ((max_dot_from replica s (at replica context) + 1) % 2 ^ 64)) context

  unfoldable pub is_tombstone_set : SiblingSet → Bool
  is_tombstone_set [] = true
  is_tombstone_set (p ∷ s) =
      let rest = is_tombstone_set s in if not (is_tombstone (heap p)) then false else rest

  unfoldable pub can_purge : SiblingSet → ℕ → Bool
  can_purge [] cutoff = true
  can_purge (p ∷ s) cutoff =
      let rest = can_purge s cutoff in
      if not (is_tombstone (heap p)) || leb cutoff (heap p).physical_timestamp then false else rest

  oldest_from : SiblingSet → Option ℕ → Option ℕ
  oldest_from [] oldest = oldest
  oldest_from (p ∷ s) oldest =
      oldest_from s (if is_tombstone (heap p) then older p oldest else oldest)
    where
      older : ℕ → Option ℕ → Option ℕ
      older p none = some p
      older p (some q) =
          if ltb (heap p).physical_timestamp (heap q).physical_timestamp then some p else some q

  -- `GetOldestTombstone`; nil is none.
  unfoldable pub get_oldest_tombstone : SiblingSet → Option ℕ
  unfolding oldest_from
  get_oldest_tombstone s = oldest_from s none

  -- `Value`: the value of a set of one sibling. `range` over such a map visits that one.
  unfoldable pub value : SiblingSet → Option Bytes
  unfolding is_tombstone_set
  value s = if not (size s == 1) || is_tombstone_set s then none else first s
    where
      first : SiblingSet → Option Bytes
      first [] = none
      first (p ∷ _) = (heap p).binary_value
