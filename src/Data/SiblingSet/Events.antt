-- ===== src/Data/SiblingSet/Events.antt =====
-- data/sibling_set.go: the clock that `Event` makes for a write.
use devicedb.Common.{
  ℕ, ◌+◌, ◌^◌, ◌<◌, true, false, ◌≡◌, arith, Bytes, Bool-cases, inl, inr, bytes_eqb_iff,
}
use devicedb.Common.Dict.{Dict}
use devicedb.Data.Clock.{at, max_dot, happened_before, equals}
use devicedb.Data.Clock.Causality.{count-le-max_dot, happened_before-le}
use devicedb.Data.SiblingSet.{SiblingSet, Heap, has, event, max_dot_from}
use devicedb.Data.SiblingSet.Joins.{max_dot-le-max_dot_from}

module _ (heap : Heap) (s : SiblingSet) (context : Dict Bytes ℕ) (replica : Bytes) where
  -- The counter that `Event` starts from has not reached the last uint64.
  abbrev pub HasRoom : Type 0
  HasRoom = max_dot_from heap replica s (at replica context) + 1 < 2 ^ 64

  module _ (room : HasRoom) (p : ℕ) (m : has s p ≡ true) where
    -- While the counter is below the last uint64, the new dot is above everything that the siblings
    -- know of the replica.
    pub max_dot-lt-event :
        max_dot (heap p).vector_clock replica < (event heap s context replica).vv_dot.count
    unfolding event
    max_dot-lt-event =
        omega (arith, max_dot-le-max_dot_from heap replica s (at replica context) p m)

    -- Under the same condition the new clock did not happen before any sibling of the set.
    pub event_not_before :
        happened_before (event heap s context replica) (heap p).vector_clock ≡ false
    unfolding event
    event_not_before =
        elim (Bool-cases (happened_before (event heap s context replica) (heap p).vector_clock)) [
          | inr h ↦ h
          | inl h ↦ absurd (
              omega (
                arith,
                max_dot-lt-event,
                happened_before-le (event heap s context replica) (heap p).vector_clock h,
              ))
        ]

    -- It equals none of their clocks.
    pub event_not_equal :
        (equals (heap p).vector_clock (event heap s context replica) ≡ false)
        × (equals (event heap s context replica) (heap p).vector_clock ≡ false)
    unfolding event equals
    event_not_equal = ground (
      arith,
      max_dot-lt-event,
      bytes_eqb_iff replica (heap p).vector_clock.vv_dot.node_id,
      bytes_eqb_iff (heap p).vector_clock.vv_dot.node_id replica,
      count-le-max_dot (heap p).vector_clock,
    )
