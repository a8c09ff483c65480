-- ===== src/Merkle/Nodes.antt =====
-- merkle/merkle.go: the arithmetic of node ids. A node id is a uint32; the leaves are the odd ids,
-- and a node of level l above the leaves is an odd number times 2 ^ l.
-- `x & mask` with a mask of k ones is `x % 2 ^ k`, and `x >> k` is `x / 2 ^ k`.
pub mod Position
pub mod InTree
pub mod Zeros
pub mod Family
use devicedb.Common.{ℕ, ◌+◌, ◌-◌, ◌*◌, ◌/◌, ◌%◌, ◌^◌, Bool, ◌&&◌, if◌then◌else◌, ltb, eqb, not}
use devicedb.Data.Hash.{Hash}

-- uint32 addition and subtraction, and `1 << s`.
abbrev pub add32 : ℕ → ℕ → ℕ
add32 a b = (a + b) % 2 ^ 32

abbrev pub sub32 : ℕ → ℕ → ℕ
sub32 a b = (a + 2 ^ 32 - b) % 2 ^ 32

abbrev pub one_shl : ℕ → ℕ
one_shl s = if ltb s 32 then 2 ^ s else 0

-- One test of `CountTrailingZeros`: if the lowest k digits are 0, they are shifted out and counted.
unfoldable pub skip_zeros : ℕ → ℕ × ℕ → ℕ × ℕ
skip_zeros k (n, c) = if eqb (n % 2 ^ k) 0 then (n / 2 ^ k, c + k) else (n, c)

unfoldable pub count_trailing_zeros : ℕ → ℕ
unfolding skip_zeros
count_trailing_zeros n =
    if eqb (n % 2) 0
    then (let (n', c) = skip_zeros 2 (skip_zeros 4 (skip_zeros 8 (skip_zeros 16 (n, 1)))) in
        c - n' % 2)
    else 0

unfoldable pub parent_node : ℕ → ℕ
parent_node node =
    let shift = count_trailing_zeros node in
    if eqb (node / 2 ^ (shift + 1) % 2) 1
    then sub32 node (one_shl shift)
    else add32 node (one_shl shift)

-- The neighbours at distance 1 << (CountTrailingZeros(node) - 1), of use at an even node only.
abbrev pub below : ℕ → ℕ
below node = sub32 node (one_shl (sub32 (count_trailing_zeros node) 1))

abbrev pub above : ℕ → ℕ
above node = add32 node (one_shl (sub32 (count_trailing_zeros node) 1))

unfoldable pub left_child : ℕ → ℕ
left_child node = if eqb (node % 2) 1 then node else below node

unfoldable pub right_child : ℕ → ℕ
right_child node = if eqb (node % 2) 1 then node else above node

unfoldable pub sub_range_min : ℕ → ℕ
sub_range_min node = sub32 node (one_shl (count_trailing_zeros node))

unfoldable pub sub_range_max : ℕ → ℕ
sub_range_max node = add32 node (one_shl (count_trailing_zeros node))

-- `LeafNode`: the highest `depth` bits of the key's hash, with the lowest of them set.
unfoldable pub leaf_node : Hash → ℕ → ℕ
leaf_node key_hash depth =
    let normalized = key_hash.high / 2 ^ (64 - depth) % 2 ^ 32 in
    if eqb (normalized % 2) 0 then normalized + 1 else normalized
