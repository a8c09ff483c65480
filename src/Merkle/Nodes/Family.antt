-- ===== src/Merkle/Nodes/Family.antt =====
-- merkle/merkle.go: `ParentNode`, `LeftChild` and `RightChild` by level and position.
use native.Mathlib.Nat.{pow-suc, mul-div-mul_left}
use devicedb.Common.{
  ℕ, zero, suc, ◌+◌, ◌*◌, ◌/◌, ◌%◌, ◌^◌, ◌<◌, ◌≡◌, ap, ◌∙◌, arith, eqb, Bool-cases, inl, inr, false,
}
use devicedb.Merkle.Nodes.{parent_node, left_child, right_child, one_shl, sub32}
use devicedb.Merkle.Nodes.Position.{node_at}
use devicedb.Merkle.Nodes.Zeros.{count_trailing_zeros-node_at}

-- A node lies 2 ^ l above its left child and below its right one.
node_at_left : (l r : ℕ) → node_at (suc l) r ≡ node_at l (2 * r) + 2 ^ l
node_at_left zero r = omega arith
node_at_left (suc l) r = omega (arith, node_at_left l r, pow-suc 2 l)

node_at_right : (l r : ℕ) → node_at l (2 * r + 1) ≡ node_at (suc l) r + 2 ^ l
node_at_right zero r = omega arith
node_at_right (suc l) r = omega (arith, node_at_right l r, pow-suc 2 l)

-- The bits above the lowest one are the position.
node_at-div : (l q : ℕ) → node_at l q / 2 ^ (l + 1) ≡ q
node_at-div zero q = omega arith
node_at-div (suc l) q =
    rw shift (mul-div-mul_left {m = 2} (node_at l q) (2 ^ (l + 1)) (omega arith) ∙ node_at-div l q)
  where
    shift : 2 ^ (suc l + 1) ≡ 2 * 2 ^ (l + 1)
    shift = ap (λ (j : ℕ). 2 ^ j) (omega arith) ∙ pow-suc 2 (l + 1) ∙ omega arith

one_shl_lt : (l : ℕ) → l < 32 → one_shl l ≡ 2 ^ l
one_shl_lt l h = ground arith

-- `ParentNode` goes up one level and halves the position, while both ids are below 2 ^ 32.
pub parent_node-node_at :
    (l q : ℕ)
    → l < 32
    → node_at l q < 2 ^ 32
    → node_at (suc l) (q / 2) < 2 ^ 32
    → parent_node (node_at l q) ≡ node_at (suc l) (q / 2)
unfolding parent_node
parent_node-node_at l q h small above =
    rw (count_trailing_zeros-node_at l q h, node_at-div l q, one_shl_lt l h)
      (elim (Bool-cases (eqb (q % 2) 1)) [
        | inl odd ↦
            let e : q ≡ 2 * (q / 2) + 1 = ground arith in
            rw odd (omega (arith, node_at_right l (q / 2), ap (node_at l) e))
        | inr even ↦
            let e : q ≡ 2 * (q / 2) = ground arith in
            rw even (omega (arith, node_at_left l (q / 2), ap (node_at l) e))
      ])

-- `LeftChild` of an inner node below 2 ^ 32 is the node one level down at twice the position.
pub left_child-node_at :
    (l q : ℕ)
    → l < 31
    → node_at (suc l) q < 2 ^ 32
    → left_child (node_at (suc l) q) ≡ node_at l (2 * q)
unfolding left_child
left_child-node_at l q h small =
    let odd : eqb (node_at (suc l) q % 2) 1 ≡ false = ground arith in
    let shift : sub32 (suc l) 1 ≡ l = omega arith in
    rw
      (odd, count_trailing_zeros-node_at (suc l) q (omega arith), shift, one_shl_lt l (omega arith))
      (omega (arith, node_at_left l q))

-- `RightChild` of an inner node is the node one level down at twice the position plus one, if that
-- id is below 2 ^ 32.
pub right_child-node_at :
    (l q : ℕ)
    → l < 31
    → node_at l (2 * q + 1) < 2 ^ 32
    → right_child (node_at (suc l) q) ≡ node_at l (2 * q + 1)
unfolding right_child
right_child-node_at l q h small =
    let odd : eqb (node_at (suc l) q % 2) 1 ≡ false = ground arith in
    let shift : sub32 (suc l) 1 ≡ l = omega arith in
    rw
      (odd, count_trailing_zeros-node_at (suc l) q (omega arith), shift, one_shl_lt l (omega arith))
      (omega (arith, node_at_right l q))
