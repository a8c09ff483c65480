-- ===== src/Data/Sibling.antt =====
-- data/sibling.go: a value with its clock. A nil value is a tombstone. The int that `Compare` and
-- `bytes.Compare` return, -1, 0 or 1, is an `Ordering`.
use devicedb.Common.{
  ℕ, Bool, true, false, Option, none, some, [], ◌∷◌, ◌&&◌, not, Bytes, ltb, if◌then◌else◌, Ordering,
}
use devicedb.Data.Clock.{Dvv}

pub record Sibling : Type 0 where
  pub vector_clock : Dvv
  pub binary_value : Option Bytes
  pub physical_timestamp : ℕ

abbrev pub new_sibling : Dvv → Option Bytes → ℕ → Sibling
new_sibling clock value timestamp = record {
  vector_clock = clock;
  binary_value = value;
  physical_timestamp = timestamp;
}

abbrev pub is_tombstone : Sibling → Bool
is_tombstone s = elim s.binary_value [ none ↦ true | some _ ↦ false ]

-- `bytes.Compare`: lexicographic, a prefix first; nil is as empty.
unfoldable pub bytes_compare : Bytes → Bytes → Ordering
bytes_compare [] [] = Ordering.eq
bytes_compare [] (b ∷ bs) = Ordering.lt
bytes_compare (a ∷ as') [] = Ordering.gt
bytes_compare (a ∷ as') (b ∷ bs) =
    let rest = bytes_compare as' bs in
    if ltb a b then Ordering.lt else (if ltb b a then Ordering.gt else rest)

abbrev pub value_bytes : Option Bytes → Bytes
value_bytes none = []
value_bytes (some v) = v

unfoldable pub compare_siblings : Sibling → Sibling → Ordering
compare_siblings s o =
    if is_tombstone s && not (is_tombstone o)
    then Ordering.lt
    else (if not (is_tombstone s) && is_tombstone o
        then Ordering.gt
        else (if is_tombstone s && is_tombstone o
            then (if ltb s.physical_timestamp o.physical_timestamp
                then Ordering.lt
                else (if ltb o.physical_timestamp s.physical_timestamp
                    then Ordering.gt
                    else Ordering.eq))
            else bytes_compare (value_bytes s.binary_value) (value_bytes o.binary_value)))
