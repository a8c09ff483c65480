-- ===== src/Cluster/Partitioner.antt =====
-- cluster/partitioner.go: which partition a key belongs to, and which nodes own a partition. `Owners`
-- works on the token assignment of the cluster state. The numbers of tokens and of
-- partitions are lengths of slices, so their conversions to `int` keep them.
pub mod Shift
pub mod Owners
use devicedb.Common.{
  ℕ, zero, suc, ◌+◌, ◌-◌, ◌/◌, ◌%◌, ◌^◌, Bool, true, false, Option, none, some, List, [], ◌∷◌, ◌++◌,
  ◌&&◌, ◌||◌, not, Bytes, ltb, leb, if◌then◌else◌, length, get_or, ◌==◌, nat_eq,
}
use devicedb.Common.Dict.{Dict, contains, insert}
use devicedb.Data.Hash.{new_hash}

pub record SimplePartitioningStrategy : Type 0 where
  pub partition_count : ℕ
  pub shift_amount : ℕ

-- The loop of `CalculateShiftAmount`, with fuel for the 64 bits of a uint64.
pub shift_loop : ℕ → ℕ → ℕ → ℕ
shift_loop zero shift count = shift
shift_loop (suc fuel) shift count =
    let rest = shift_loop fuel (shift - 1) (count / 2) in if ltb 0 count then rest else shift

unfoldable pub calculate_shift_amount : SimplePartitioningStrategy → ℕ → SimplePartitioningStrategy
unfolding shift_loop
calculate_shift_amount ps partition_count =
    if not (ps.shift_amount == 0)
    then ps
    else record ps { shift_amount = shift_loop 64 65 partition_count }

-- `Partition`, and the strategy with its cached shift.
unfoldable pub partition :
    (Bytes → Bytes) → SimplePartitioningStrategy → Bytes → ℕ → ℕ × SimplePartitioningStrategy
unfolding calculate_shift_amount
partition md5 ps key partition_count =
    let hash = (new_hash md5 key).high in
    let ps' : SimplePartitioningStrategy =
      if ps.shift_amount == 0 then calculate_shift_amount ps partition_count else ps in
    (hash / 2 ^ ps'.shift_amount, ps')

-- The first loop of `Owners`, from index i on, on fuel for the tokens left.
pub collect : ℕ → List ℕ → ℕ → ℕ → ℕ → Dict ℕ Bool → List ℕ → List ℕ
collect zero tokens p factor i owners_set owners = owners
collect (suc fuel) tokens p factor i owners_set owners =
    let owner = get_or tokens ((i + p) % length tokens) 0 in
    let new = not (contains owner owners_set) in
    let rest =
      collect fuel tokens p factor (i + 1)
        (if new then insert owner true owners_set else owners_set)
        (if new then owners ++ (owner ∷ []) else owners) in
    if ltb (length owners_set) factor then rest else owners

-- The second loop: `n` more owners, from index i of the first ones on.
pub pad : ℕ → List ℕ → ℕ → List ℕ → List ℕ
pad zero original i owners = owners
pad (suc n) original i owners =
    pad n original (i + 1) (owners ++ (get_or original (i % length original) 0 ∷ []))

-- `make` panics, here none, for a capacity above what the runtime takes for elements of 8 bytes. That is
-- an int, so what is not above it keeps its value when it is converted to int.
unfoldable pub owners : (ℕ → ℕ) → List ℕ → ℕ → ℕ → Option (List ℕ)
unfolding collect pad
owners max_slice tokens p factor =
    if leb (length tokens) p
    then some []
    else if ltb (max_slice 8) factor
    then none
    else some (
        let found = collect (length tokens) tokens p factor 0 [] [] in
        if ltb 0 (length found) && ltb (length found) factor
        then pad (factor - length found) found 0 found
        else found)
