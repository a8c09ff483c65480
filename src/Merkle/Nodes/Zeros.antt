-- ===== src/Merkle/Nodes/Zeros.antt =====
-- merkle/merkle.go: `CountTrailingZeros` counts the zeros below the lowest one.
use Prim.Native.Nat.add
use native.Mathlib.Nat.{div-add-mod, mul-mod_right, pow-suc, mul-div_cancel_left, one-le-pow}
use devicedb.Common.{
  ℕ, zero, suc, ◌+◌, ◌-◌, ◌*◌, ◌/◌, ◌%◌, ◌^◌, ◌<◌, ◌≤◌, ◌≡◌, ◌≢◌, ap, ◌∙◌, arith, if◌then◌else◌,
  ltb, ltb→lt, Bool-cases, inl, inr,
}
use devicedb.Merkle.Nodes.{skip_zeros, count_trailing_zeros}
use devicedb.Merkle.Nodes.Position.{node_at}

pub node_at-add : (k l q : ℕ) → node_at (k + l) q ≡ 2 ^ k * node_at l q
node_at-add zero l q = rw add.zero (omega arith)
node_at-add (suc k) l q =
    rw add.suc (omega (arith, node_at-add k l q, ap (λ (t : ℕ). t * node_at l q) (pow-suc 2 k)))

node_at-mod-ne : (k l q : ℕ) → l < k → node_at l q % 2 ^ k ≢ 0
node_at-mod-ne zero l q h e = absurd (omega arith)
node_at-mod-ne (suc k) zero q h e = omega (
  arith,
  div-add-mod (2 * q + 1) (2 ^ suc k),
  ap (λ (t : ℕ). t * ((2 * q + 1) / 2 ^ suc k)) (pow-suc 2 k),
  e,
)
node_at-mod-ne (suc k) (suc l) q h e =
    let t = 2 * node_at l q / 2 ^ suc k in
    let whole : node_at l q ≡ 2 ^ k * t =
      omega (
        arith,
        div-add-mod (2 * node_at l q) (2 ^ suc k),
        ap (λ (u : ℕ). u * t) (pow-suc 2 k),
        e,
      ) in
    node_at-mod-ne k l q (omega arith) (ap (λ (u : ℕ). u % 2 ^ k) whole ∙ mul-mod_right (2 ^ k) t)

-- The level that is left after a test for k zeros.
abbrev rest : ℕ → ℕ → ℕ
rest k l = if ltb l k then l else l - k

rest-le : (k l : ℕ) → rest k l ≤ l
rest-le k l = ground arith

skip_zeros-lt : (k l q c : ℕ) → l < k → skip_zeros k (node_at l q, c) ≡ (node_at l q, c)
unfolding skip_zeros
skip_zeros-lt k l q c h = ground (arith, node_at-mod-ne k l q h)

skip_zeros-add : (k m q c : ℕ) → skip_zeros k (node_at (k + m) q, c) ≡ (node_at m q, c + k)
unfolding skip_zeros
skip_zeros-add k m q c = rw (node_at-add k m q) (
    ground (
      arith,
      mul-mod_right (2 ^ k) (node_at m q),
      mul-div_cancel_left (node_at m q) (one-le-pow k 2 (omega arith)),
    ))

skip_zeros-node_at :
    (k l q c : ℕ) → skip_zeros k (node_at l q, c) ≡ (node_at (rest k l) q, c + (l - rest k l))
skip_zeros-node_at k l q c = elim (Bool-cases (ltb l k)) [
  | inl h ↦
      rw h (skip_zeros-lt k l q c (ltb→lt l k h) ∙ ap (λ (d : ℕ). (node_at l q, d)) (omega arith))
  | inr h ↦
      let le : k ≤ l = ground arith in
      let e : l ≡ k + (l - k) = omega arith in
      rw h (
        ap (λ (j : ℕ). skip_zeros k (node_at j q, c)) e
        ∙ skip_zeros-add k (l - k) q c
        ∙ ap (λ (d : ℕ). (node_at (l - k) q, c + d)) (omega arith))
]

-- The lowest bit of a node at level 0 or 1.
node_at-mod : (r q : ℕ) → r < 2 → node_at r q % 2 ≡ 1 - r
node_at-mod zero q h = omega arith
node_at-mod (suc zero) q h = omega arith
node_at-mod (suc (suc r)) q h = absurd (omega arith)

-- What the four tests leave.
abbrev left : ℕ → ℕ
left l = rest 2 (rest 4 (rest 8 (rest 16 l)))

four_tests :
    (l q : ℕ)
    → (d : ℕ) × (skip_zeros 2 (skip_zeros 4 (skip_zeros 8 (skip_zeros 16 (node_at l q, 1))))
        ≡ (node_at (left l) q, d))
      × (d ≡ 1 + (l - left l))
four_tests l q =
    let a = rest 16 l in
    let b = rest 8 a in
    let c = rest 4 b in
    let d = rest 2 c in
    (
      1 + (l - a) + (a - b) + (b - c) + (c - d),
      rw (
        skip_zeros-node_at 16 l q 1,
        skip_zeros-node_at 8 a q (1 + (l - a)),
        skip_zeros-node_at 4 b q (1 + (l - a) + (a - b)),
        skip_zeros-node_at 2 c q (1 + (l - a) + (a - b) + (b - c)),
      ),
      omega (arith, rest-le 16 l, rest-le 8 a, rest-le 4 b, rest-le 2 c),
    )

-- `CountTrailingZeros` of an odd number times 2 ^ l is l, for every l that a uint32 allows.
pub count_trailing_zeros-node_at : (l q : ℕ) → l < 32 → count_trailing_zeros (node_at l q) ≡ l
unfolding count_trailing_zeros
count_trailing_zeros-node_at zero q h = ground arith
count_trailing_zeros-node_at (suc l) q h =
    let (d, tests, count) = four_tests (suc l) q in
    let small : left (suc l) < 2 = ground arith in
    rw tests (ground (arith, node_at-mod (left (suc l)) q small, count))
