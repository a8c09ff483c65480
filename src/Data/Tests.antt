-- ===== src/Data/Tests.antt =====
-- Tests of the modules on clocks, siblings and hashes: two nodes write to one key.
use mathlib.Core.List.{Permᴰ}
use devicedb.Common.{
  ◌+◌, ◌*◌, ◌%◌, ◌<◌, ◌≡◌, refl, arith, ◌&&◌, ◌||◌, not, true, none, some, [], ◌∷◌, Bytes, length,
  any, nat_eq, ◌==◌, if◌then◌else◌,
}
use devicedb.Data.Clock.{new_dot, new_dvv, at, max_dot, happened_before, equals}
use devicedb.Data.Sibling.{new_sibling}
use devicedb.Data.SiblingSet.{
  Heap, has, sync, diff, join, join_one, discard, event, mine_goes, theirs_goes, can_purge,
  sync_inner, sync_outer, max_dot_from,
}
use devicedb.Data.SiblingSet.Members.{has-sync, has-diff, has-discard}
use devicedb.Data.SiblingSet.Joins.{at-join, happened_before-join}
use devicedb.Data.SiblingSet.Events.{max_dot-lt-event}
use devicedb.Data.Hash.{hash_dvv, hash_set}
use devicedb.Data.Hash.Laws.{hash_dvv_exchange, hash_set_perm, hash_set_purge, ReturnsBytes}

-- A function from bytes to 16 bytes.
abbrev pub toy_md5 : Bytes → Bytes
toy_md5 [] = 1 ∷ 2 ∷ 3 ∷ 4 ∷ 5 ∷ 6 ∷ 7 ∷ 8 ∷ 9 ∷ 10 ∷ 11 ∷ 12 ∷ 13 ∷ 14 ∷ 15 ∷ 16 ∷ []
toy_md5 (x ∷ b) =
    ((x * 37 + length b) % 256)
    ∷ 2
    ∷ 3
    ∷ 4
    ∷ 5
    ∷ 6
    ∷ 7
    ∷ 8
    ∷ ((x + 5) % 256)
    ∷ 10
    ∷ 11
    ∷ 12
    ∷ 13
    ∷ 14
    ∷ 15
    ∷ 16
    ∷ []

pub toy_md5-ReturnsBytes : ReturnsBytes toy_md5
toy_md5-ReturnsBytes [] = ground arith
toy_md5-ReturnsBytes (x ∷ b) = ground arith

abbrev pub node_a : Bytes
node_a = 97 ∷ []

abbrev pub node_b : Bytes
node_b = 98 ∷ []

-- Node a wrote first, node b wrote over it, and node a wrote beside that.
abbrev pub some_heap : Heap
some_heap p =
    if p == 1
    then new_sibling (new_dvv (new_dot node_a 1) []) (some (10 ∷ [])) 100
    else (if p == 2
        then new_sibling (new_dvv (new_dot node_b 1) ((node_a, 1) ∷ [])) (some (20 ∷ [])) 200
        else new_sibling (new_dvv (new_dot node_a 2) ((node_a, 1) ∷ [])) none 300)

has-sync_example : has (sync some_heap (1 ∷ 3 ∷ []) (2 ∷ [])) 1 ≡ (
    if has (2 ∷ []) 1
    then not (any (theirs_goes some_heap 1) (1 ∷ 3 ∷ []))
    else (has (1 ∷ 3 ∷ []) 1 && not (any (mine_goes some_heap 1) (2 ∷ []))))
unfolding mine_goes happened_before
has-sync_example = has-sync some_heap (1 ∷ 3 ∷ []) (2 ∷ []) 1

test_sync : sync some_heap (1 ∷ 3 ∷ []) (2 ∷ []) ≡ (2 ∷ 3 ∷ [])
unfolding sync sync_outer sync_inner mine_goes theirs_goes happened_before equals
test_sync = refl

has-diff_example : has (diff some_heap (2 ∷ []) (1 ∷ 3 ∷ [])) 3 ≡ (
    has (1 ∷ 3 ∷ []) 3
    && not (
        any
          (λ m.
            happened_before (some_heap 3).vector_clock (some_heap m).vector_clock
            || equals (some_heap 3).vector_clock (some_heap m).vector_clock)
          (2 ∷ [])))
has-diff_example = has-diff some_heap (2 ∷ []) (1 ∷ 3 ∷ []) 3

has-discard_example : has (discard some_heap (1 ∷ 3 ∷ []) (some_heap 2).vector_clock) 1 ≡ (
    has (1 ∷ 3 ∷ []) 1
    && not (happened_before (some_heap 1).vector_clock (some_heap 2).vector_clock))
has-discard_example = has-discard some_heap (1 ∷ 3 ∷ []) (some_heap 2).vector_clock 1

at-join_example : at node_a (join some_heap (2 ∷ 3 ∷ [])) ≡ join_one some_heap (2 ∷ 3 ∷ []) node_a
at-join_example = at-join some_heap (2 ∷ 3 ∷ []) node_a (omega arith)

happened_before-join_example :
    happened_before
      (some_heap 3).vector_clock
      (new_dvv (new_dot node_b 2) (join some_heap (2 ∷ 3 ∷ [])))
    ≡ true
happened_before-join_example =
    happened_before-join some_heap (2 ∷ 3 ∷ [])
      (new_dvv (new_dot node_b 2) (join some_heap (2 ∷ 3 ∷ []))) 3 refl (omega arith) refl

max_dot-lt-event_example :
    max_dot (some_heap 3).vector_clock node_a
    < (event some_heap (2 ∷ 3 ∷ []) ((node_a, 1) ∷ []) node_a).vv_dot.count
max_dot-lt-event_example =
    max_dot-lt-event some_heap (2 ∷ 3 ∷ []) ((node_a, 1) ∷ []) node_a
      (unfold max_dot in unfold max_dot_from in omega arith) 3 refl

hash_dvv_exchange_example :
    hash_dvv toy_md5 (record { vv_dot = new_dot node_a 3; vv = (node_a, 1) ∷ (node_b, 2) ∷ [] })
    ≡ hash_dvv toy_md5 (record { vv_dot = new_dot node_a 3; vv = (node_a, 2) ∷ (node_b, 1) ∷ [] })
hash_dvv_exchange_example = hash_dvv_exchange toy_md5 (new_dot node_a 3) node_a node_b 1 2 []

hash_set_perm_example :
    hash_set toy_md5 some_heap (some (2 ∷ 3 ∷ [])) (7 ∷ [])
    ≡ hash_set toy_md5 some_heap (some (3 ∷ 2 ∷ [])) (7 ∷ [])
hash_set_perm_example = hash_set_perm toy_md5 some_heap (7 ∷ []) ∣ Permᴰ.swap refl refl ∣₁

hash_set_purge_example :
    hash_set toy_md5 some_heap (some (3 ∷ [])) (7 ∷ []) ≡ hash_set toy_md5 some_heap none (7 ∷ [])
hash_set_purge_example =
    hash_set_purge toy_md5 some_heap (3 ∷ []) 400 (7 ∷ []) (unfold can_purge in refl)
