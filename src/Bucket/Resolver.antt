-- ===== src/Bucket/Resolver.antt =====
-- resolver/strategies: the conflict resolution of a bucket. `range` over the map visits the members
-- in the order of the list.
pub mod Kept
use devicedb.Common.{ℕ, Option, none, some, [], ◌∷◌, ltb, if◌then◌else◌}
use devicedb.Data.SiblingSet.{SiblingSet, Heap}

pub data Strategy : Type 0 where
  last_writer_wins multi_value : Strategy

module _ (heap : Heap) where
  -- `sibling.Timestamp() > newestSibling.Timestamp()`, or there is no newest yet.
  abbrev pub newer : ℕ → Option ℕ → Option ℕ
  newer p none = some p
  newer p (some q) =
      if ltb (heap q).physical_timestamp (heap p).physical_timestamp then some p else some q

  unfoldable pub newest_from : SiblingSet → Option ℕ → Option ℕ
  newest_from [] newest = newest
  newest_from (p ∷ s) newest = newest_from s (newer p newest)

  unfoldable pub resolve_lww : SiblingSet → SiblingSet
  unfolding newest_from
  resolve_lww s = elim (newest_from s none) [ none ↦ s | some p ↦ p ∷ [] ]

  unfoldable pub resolve_conflicts : Strategy → SiblingSet → SiblingSet
  unfolding resolve_lww
  resolve_conflicts last_writer_wins s = resolve_lww s
  resolve_conflicts multi_value s = s
