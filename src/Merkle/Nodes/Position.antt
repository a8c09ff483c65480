-- ===== src/Merkle/Nodes/Position.antt =====
-- merkle/merkle.go: nodes by their level and their position in it.
use devicedb.Common.{ℕ, zero, suc, ◌+◌, ◌*◌, ◌≡◌, ap, arith}

-- The node of level `l` above the leaves at position `q`: 2 ^ l * (2 * q + 1).
abbrev pub node_at : ℕ → ℕ → ℕ
node_at zero q = 2 * q + 1
node_at (suc l) q = 2 * node_at l q

pub node_at_injective : (l m q r : ℕ) → node_at l q ≡ node_at m r → (l ≡ m) × (q ≡ r)
node_at_injective zero zero q r e = omega arith
node_at_injective zero (suc m) q r e = absurd (omega arith)
node_at_injective (suc l) zero q r e = absurd (omega arith)
node_at_injective (suc l) (suc m) q r e =
    let (a, b) = node_at_injective l m q r (omega arith) in (ap suc a, b)
