-- ===== src/Data/SiblingSet/Joins.antt =====
-- data/sibling_set.go: `Join` and `JoinOne` compute the same maxima, and a context that comes from
-- `Join` covers every sibling of the set.
use Prim.Native.Nat.{max}
use devicedb.Common.{
  ℕ, ◌≤◌, ◌<◌, true, List, [], ◌∷◌, ◌||◌, ◌≡◌, refl, ◌∙◌, ap, arith, Bytes, length, if◌then◌else◌,
  ◌==◌, nat_eq, bytes_eq, bytes_eqb_iff, Bool-cases, inl, inr, eqb_iff, ltb,
}
use devicedb.Common.Dict.{Dict, contains, lookup-insert}
use devicedb.Data.Clock.{Dvv, at, max_dot, replicas, happened_before}
use devicedb.Data.Clock.Causality.{mem_bytes, max_dot_absent, replicas-dot, count-le-max_dot}
use devicedb.Data.SiblingSet.{
  SiblingSet, Heap, has, raise_dot, join, join_from, join_replicas, join_one, max_dot_from,
}

at-raise_dot :
    (r : Bytes) (d : ℕ) (acc : Dict Bytes ℕ) (k : Bytes)
    → at k (raise_dot r d acc) ≡ (if r == k then max (at k acc) d else at k acc)
unfolding raise_dot
at-raise_dot r d acc k = ground (arith, lookup-insert r k d acc, bytes_eqb_iff r k)

contains-raise_dot :
    (r : Bytes) (d : ℕ) (acc : Dict Bytes ℕ) (k : Bytes)
    → contains k (raise_dot r d acc) ≡ ((r == k) || contains k acc)
unfolding raise_dot
contains-raise_dot r d acc k = ground (arith, lookup-insert r k d acc, bytes_eqb_iff r k)

at-join_replicas :
    (c : Dvv) (rs : List Bytes) (acc : Dict Bytes ℕ) (k : Bytes)
    → at k (join_replicas c rs acc)
      ≡ (if mem_bytes k rs then max (at k acc) (max_dot c k) else at k acc)
unfolding join_replicas
at-join_replicas c [] acc k = refl
at-join_replicas c (r ∷ rs) acc k =
    rw (at-join_replicas c rs _ k, at-raise_dot) (ground (arith, bytes_eqb_iff r k))

contains-join_replicas :
    (c : Dvv) (rs : List Bytes) (acc : Dict Bytes ℕ) (k : Bytes)
    → contains k (join_replicas c rs acc) ≡ (mem_bytes k rs || contains k acc)
unfolding join_replicas
contains-join_replicas c [] acc k = refl
contains-join_replicas c (r ∷ rs) acc k =
    contains-join_replicas c rs _ k ∙ ground (arith, contains-raise_dot r (max_dot c r) acc k)

module _ (heap : Heap) where
  at-join_from :
      (s : SiblingSet) (acc : Dict Bytes ℕ) (k : Bytes)
      → 0 < length k
      → at k (join_from heap s acc) ≡ max_dot_from heap k s (at k acc)
  unfolding join_from max_dot_from
  at-join_from [] acc k h = refl
  at-join_from (p ∷ s) acc k h =
      at-join_from s _ k h
      ∙ ap (max_dot_from heap k s) (
          ground (
            arith,
            at-join_replicas (heap p).vector_clock (replicas (heap p).vector_clock) acc k,
            max_dot_absent (heap p).vector_clock k,
          ))

  -- `Join` maps every node name but "" to the number that `JoinOne` computes for it.
  pub at-join : (s : SiblingSet) (k : Bytes) → 0 < length k → at k (join heap s) ≡ join_one heap s k
  unfolding join join_one
  at-join s k h = at-join_from s [] k h

  contains-join_from-keeps :
      (s : SiblingSet) (acc : Dict Bytes ℕ) (k : Bytes)
      → contains k acc ≡ true
      → contains k (join_from heap s acc) ≡ true
  unfolding join_from
  contains-join_from-keeps [] acc k h = h
  contains-join_from-keeps (p ∷ s) acc k h =
      contains-join_from-keeps s _ k (contains-join_replicas _ _ acc k ∙ ground arith)

  contains-join_from :
      (s : SiblingSet) (acc : Dict Bytes ℕ) (p : ℕ)
      → has s p ≡ true
      → 0 < length (heap p).vector_clock.vv_dot.node_id
      → contains (heap p).vector_clock.vv_dot.node_id (join_from heap s acc) ≡ true
  unfolding join_from
  contains-join_from [] acc p m h = cc
  contains-join_from (q ∷ s) acc p m h = elim (Bool-cases (q == p)) [
    | inl e ↦ contains-join_from-keeps s _ _ (
        contains-join_replicas _ _ acc _
        ∙ rw ((eqb_iff q p).0 e) (rw (replicas-dot (heap p).vector_clock h) refl))
    | inr e ↦ contains-join_from s _ p (ground arith) h
  ]

  max_dot_from-ge : (k : Bytes) (s : SiblingSet) (a : ℕ) → a ≤ max_dot_from heap k s a
  unfolding max_dot_from
  max_dot_from-ge k [] a = omega arith
  max_dot_from-ge k (p ∷ s) a =
      let d = max_dot (heap p).vector_clock k in
      ground (arith, max_dot_from-ge k s (if ltb a d then d else a))

  -- `Event` and `JoinOne` count at least as far as every sibling of the set.
  pub max_dot-le-max_dot_from :
      (k : Bytes) (s : SiblingSet) (a p : ℕ)
      → has s p ≡ true
      → max_dot (heap p).vector_clock k ≤ max_dot_from heap k s a
  unfolding max_dot_from
  max_dot-le-max_dot_from k [] a p m = cc
  max_dot-le-max_dot_from k (q ∷ s) a p m =
      let d = max_dot (heap q).vector_clock k in
      let a' : ℕ = if ltb a d then d else a in
      elim (Bool-cases (q == p)) [
        | inl e ↦
            let e' : q ≡ p = (eqb_iff q p).0 e in rw (← e') (ground (arith, max_dot_from-ge k s a'))
        | inr e ↦ max_dot-le-max_dot_from k s a' p (ground arith)
      ]

  -- A sibling of the set whose dot has a node id happened before every clock whose context is the
  -- set's `Join`.
  pub happened_before-join :
      (s : SiblingSet) (c : Dvv) (p : ℕ)
      → has s p ≡ true
      → 0 < length (heap p).vector_clock.vv_dot.node_id
      → c.vv ≡ join heap s
      → happened_before (heap p).vector_clock c ≡ true
  unfolding happened_before join join_one
  happened_before-join s c p m h e =
      let node = (heap p).vector_clock.vv_dot.node_id in
      rw (e, contains-join_from s [] p m h)
        (rw (at-join_from s [] node h) (
          ground
            (arith, count-le-max_dot (heap p).vector_clock, max_dot-le-max_dot_from node s 0 p m)))
