-- ===== src/Bucket/Tests.antt =====
-- Tests of the writes to a bucket.
use devicedb.Common.{
  ℕ, ◌<◌, ◌≡◌, refl, arith, ◌&&◌, ◌||◌, not, true, none, some, if◌then◌else◌, [], ◌∷◌, length,
  nat_eq, ◌==◌,
}
use devicedb.Data.Clock.{max_dot, happened_before, replicas}
use devicedb.Data.SiblingSet.{has, max_dot_from, join}
use devicedb.Data.Tests.{some_heap, node_b}
use devicedb.Bucket.Resolver.{Strategy}
use devicedb.Bucket.Write.{Op, Written, write, update_clock}
use devicedb.Bucket.Write.Keeps.{write_keeps, write_blind}
use devicedb.Bucket.Resolver.Kept.{IsKept}

write_keeps_example :
    (w : Written) × (write node_b Strategy.last_writer_wins 500 some_heap 9
        (2 ∷ 3 ∷ [])
        (Op.put (30 ∷ []))
        ((node_b, 1) ∷ [])
      ≡ some w)
    × ((p : ℕ)
        → has w.returned p ≡ (
            (9 == p)
            || (has (2 ∷ 3 ∷ []) p
                && not (
                    happened_before
                      (some_heap p).vector_clock
                      (update_clock node_b some_heap (2 ∷ 3 ∷ []) ((node_b, 1) ∷ []))))))
    × ((w.heap 9).binary_value ≡ some (30 ∷ []))
    × ((w.heap 9).vector_clock ≡ update_clock node_b some_heap (2 ∷ 3 ∷ []) ((node_b, 1) ∷ []))
    × ((p : ℕ) → w.heap p ≡ (if 9 == p then w.heap 9 else some_heap p))
    × IsKept Strategy.last_writer_wins w.heap w.returned w.stored
write_keeps_example =
    write_keeps node_b Strategy.last_writer_wins 500 some_heap 9 (2 ∷ 3 ∷ []) (Op.put (30 ∷ []))
      ((node_b, 1) ∷ []) refl (unfold max_dot in unfold max_dot_from in omega arith) refl

named : (q : ℕ) → has (2 ∷ 3 ∷ []) q ≡ true → 0 < length (some_heap q).vector_clock.vv_dot.node_id
named q m = ground arith

write_blind_example :
    (w : Written) × (write node_b Strategy.multi_value 500 some_heap 9 (2 ∷ 3 ∷ []) Op.delete []
      ≡ some w)
    × ((p : ℕ) → has w.returned p ≡ (9 == p))
    × ((p : ℕ) → has w.stored p ≡ (9 == p))
    × ((w.heap 9).binary_value ≡ none)
write_blind_example =
    write_blind node_b Strategy.multi_value 500 some_heap 9 (2 ∷ 3 ∷ []) Op.delete [] refl
      (unfold replicas in unfold join in unfold max_dot in unfold max_dot_from in omega arith) refl
      refl named
