-- ===== src/Merkle/Nodes/InTree.antt =====
-- merkle/merkle.go: the positions of a tree of some depth, that is the node ids below 2 ^ depth.
use Prim.Native.Nat.add
use native.Mathlib.Nat.{pow-suc, pow-le-pow_right, div-lt_iff_lt-mul, one-le-pow}
use native.Mathlib.Decide.{ℕ_discrete}
use devicedb.Common.{
  ℕ, zero, suc, ◌+◌, ◌-◌, ◌*◌, ◌/◌, ◌%◌, ◌^◌, ◌≤◌, ◌<◌, ◌≡◌, refl, sym, ap, arith, ◌∙◌,
}
use devicedb.Data.Hash.{Hash}
use devicedb.Merkle.Nodes.{leaf_node}
use devicedb.Merkle.Nodes.Position.{node_at, node_at_injective}

-- `j` levels lie above the node.
pub record InTree (d l q : ℕ) : Type 0 where
  pub j : ℕ
  pub depth_eq : l + suc j ≡ d
  pub inside : q < 2 ^ j

pub node_at-pos : (l q : ℕ) → 0 < node_at l q
node_at-pos zero q = omega arith
node_at-pos (suc l) q = omega (arith, node_at-pos l q)

node_at-lt_levels : (l d q j : ℕ) → l + suc j ≡ d → q < 2 ^ j → node_at l q < 2 ^ d
node_at-lt_levels zero d q j e h =
    let e' : d ≡ suc j = omega arith in rw e' (omega (arith, pow-suc 2 j))
node_at-lt_levels (suc l) zero q j e h = absurd (omega arith)
node_at-lt_levels (suc l) (suc d) q j e h =
    omega (arith, pow-suc 2 d, node_at-lt_levels l d q j (omega arith) h)

pub node_at-lt : {d l q : ℕ} → InTree d l q → node_at l q < 2 ^ d
node_at-lt {d} {l} {q} t = node_at-lt_levels l d q t.j t.depth_eq t.inside

pub InTree-of_lt : (d l q : ℕ) → node_at l q < 2 ^ d → InTree d l q
InTree-of_lt zero l q h = absurd (omega (arith, node_at-pos l q))
InTree-of_lt (suc d) zero q h = record {
  j = d;
  depth_eq = omega arith;
  inside = omega (arith, pow-suc 2 d);
}
InTree-of_lt (suc d) (suc l) q h =
    let t = InTree-of_lt d l q (omega (arith, pow-suc 2 d)) in
    record { j = t.j; depth_eq = omega (arith, t.depth_eq); inside = t.inside }

pub level-lt : {d l q : ℕ} → InTree d l q → l < d
level-lt t = omega (arith, t.depth_eq)

-- The parent of a node below the root is in the tree.
pub InTree-parent : {d l q : ℕ} → InTree d l q → suc l < d → InTree d (suc l) (q / 2)
InTree-parent {d} {l} {q} t h = up t.j t.depth_eq t.inside
  where
    up : (j : ℕ) → l + suc j ≡ d → q < 2 ^ j → InTree d (suc l) (q / 2)
    up zero e i = absurd (omega arith)
    up (suc j) e i = record { j = j; depth_eq = omega arith; inside = omega (arith, pow-suc 2 j) }

-- The children of an inner node are in the tree.
pub InTree-left : {d l q : ℕ} → InTree d (suc l) q → InTree d l (2 * q)
InTree-left {d} {l} {q} t = record {
  j = suc t.j;
  depth_eq = omega (arith, t.depth_eq);
  inside = omega (arith, pow-suc 2 t.j, t.inside);
}

pub InTree-right : {d l q : ℕ} → InTree d (suc l) q → InTree d l (2 * q + 1)
InTree-right {d} {l} {q} t = record {
  j = suc t.j;
  depth_eq = omega (arith, t.depth_eq);
  inside = omega (arith, pow-suc 2 t.j, t.inside);
}

pub node_at_zero : (l : ℕ) → node_at l 0 ≡ 2 ^ l
node_at_zero zero = refl
node_at_zero (suc l) = omega (arith, node_at_zero l, pow-suc 2 l)

-- The root is the only node of its level.
pub node_at_root : (d l q : ℕ) → InTree d l q → suc l ≡ d → node_at l q ≡ 2 ^ (d - 1)
node_at_root d l q t e =
    let j0 : t.j ≡ 0 = omega (arith, t.depth_eq) in
    let q0 : q ≡ 0 = omega (arith, t.inside, ap (λ (k : ℕ). 2 ^ k) j0) in
    ap (node_at l) q0 ∙ node_at_zero l ∙ ap (λ (k : ℕ). 2 ^ k) (omega arith)

pub root_level : (d l q : ℕ) → 0 < d → node_at l q ≡ 2 ^ (d - 1) → suc l ≡ d
root_level d l q pos e =
    let (a, b) = node_at_injective l (d - 1) q 0 (e ∙ sym (node_at_zero (d - 1))) in omega arith

-- A depth that the program allows keeps node ids well below 2 ^ 32.
pub pow-lt_uint32 : (d : ℕ) → d ≤ 28 → 2 ^ d < 2 ^ 32
pow-lt_uint32 d h = let le : 2 ^ d ≤ 2 ^ 28 = pow-le-pow_right (omega arith) h in omega arith

pub pow_add : (a b : ℕ) → 2 ^ (a + b) ≡ 2 ^ a * 2 ^ b
pow_add zero b = rw add.zero (omega arith)
pow_add (suc a) b = rw add.suc (
    omega
      (arith, pow-suc 2 (a + b), pow-suc 2 a, pow_add a b, ap (λ (k : ℕ). k * 2 ^ b) (pow-suc 2 a)))

-- `LeafNode` is a leaf of a tree of depth 1 to 28, for a key hash whose high word is a uint64.
pub leaf_node-InTree :
    (h : Hash) (d : ℕ)
    → 0 < d
    → d ≤ 28
    → h.high < 2 ^ 64
    → (leaf_node h d ≡ node_at zero (leaf_node h d / 2)) × InTree d zero (leaf_node h d / 2)
unfolding leaf_node
leaf_node-InTree h d pos allowed small =
    let split : 2 ^ 64 ≡ 2 ^ d * 2 ^ (64 - d) =
      ap (λ (k : ℕ). 2 ^ k) {x = 64} (omega arith) ∙ pow_add d (64 - d) in
    let bound : h.high / 2 ^ (64 - d) < 2 ^ d =
      (div-lt_iff_lt-mul (one-le-pow (64 - d) 2 (omega arith))).1 (omega arith) in
    let d' : d ≡ suc (d - 1) = omega arith in
    let twice : 2 ^ d ≡ 2 ^ (d - 1) * 2 = ap (λ (k : ℕ). 2 ^ k) d' ∙ pow-suc 2 (d - 1) in
    (ground arith, record { j = d - 1; depth_eq = omega arith; inside = ground arith })

within : (fuel n : ℕ) → n ≤ fuel → 0 < n → (l : ℕ) × (q : ℕ) × (n ≡ node_at l q)
within zero n h p = absurd (omega arith)
within (suc fuel) n h p = elim (ℕ_discrete (n % 2) 1) [
  | yes odd ↦ (0, n / 2, omega arith)
  | no even ↦
      let (l, q, e) = within fuel (n / 2) (omega arith) (omega arith) in (suc l, q, omega arith)
]

-- Every positive number is a node of some level.
pub position : (n : ℕ) → 0 < n → (l : ℕ) × (q : ℕ) × (n ≡ node_at l q)
position n h = within n n (omega arith) h
