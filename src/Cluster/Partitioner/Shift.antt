-- ===== src/Cluster/Partitioner/Shift.antt =====
-- cluster/partitioner.go: the partition of a key is a number below the partition count.
use native.Mathlib.Nat.{pow-suc, div-lt_iff_lt-mul, one-le-pow}
use native.Mathlib.Decide.{ℕ_discrete}
use devicedb.Common.{
  ℕ, zero, suc, ◌-◌, ◌*◌, ◌/◌, ◌^◌, ◌≤◌, ◌<◌, ◌≡◌, refl, sym, ap, ◌∙◌, arith, true, ltb, Bytes,
  ◌==◌, nat_eq, Bool-cases, inl, inr,
}
use devicedb.Data.Hash.{new_hash}
use devicedb.Data.Hash.Laws.{ReturnsBytes, high-new_hash-lt}
use devicedb.Merkle.Nodes.InTree.{pow_add}
use devicedb.Cluster.Partitioner.{
  SimplePartitioningStrategy, shift_loop, calculate_shift_amount, partition,
}

-- The loop takes as many from the shift as the count has binary digits.
shift_loop_lem :
    (fuel shift count : ℕ)
    → count < 2 ^ fuel
    → fuel ≤ shift
    → (b : ℕ) × (shift_loop fuel shift count ≡ shift - b)
      × (b ≤ fuel)
      × (count ≡ 0 → b ≡ 0)
      × (0 < count → (0 < b) × (2 ^ (b - 1) ≤ count))
unfolding shift_loop
shift_loop_lem zero shift count small h =
    (0, omega arith, omega arith, λ _. refl, λ p. absurd (omega arith))
shift_loop_lem (suc fuel) shift count small h = elim (Bool-cases (ltb 0 count)) [
  | inr z ↦ (0, rw z (omega arith), omega arith, λ _. refl, λ p. absurd (ground arith))
  | inl y ↦
      let pos : 0 < count = ground arith in
      let (b, e, le, none, some) =
        shift_loop_lem fuel (shift - 1) (count / 2) (omega (arith, pow-suc 2 fuel)) (omega arith) in
      (
        suc b,
        rw y (omega arith),
        omega arith,
        λ z. absurd (omega arith),
        λ _. (omega arith, bound b count pos none some),
      )
]
  where
    bound :
        (b count : ℕ)
        → 0 < count
        → (count / 2 ≡ 0 → b ≡ 0)
        → (0 < count / 2 → (0 < b) × (2 ^ (b - 1) ≤ count / 2))
        → 2 ^ (suc b - 1) ≤ count
    bound b count pos none some =
        let e : suc b - 1 ≡ b = omega arith in
        rw e (elim (ℕ_discrete (count / 2) 0) [
          | yes y ↦ rw (none y) pos
          | no n ↦
              let (b_pos, le) = some (omega arith) in
              let b' : suc (b - 1) ≡ b = omega arith in
              let twice : 2 ^ b ≡ 2 ^ (b - 1) * 2 =
                ap (λ (k : ℕ). 2 ^ k) (sym b') ∙ pow-suc 2 (b - 1) in
              omega arith
        ])

-- The partition of a key is below the partition count, for a strategy that has computed no shift
-- before, and a count from 1 to 2 ^ 64 - 1.
pub partition-lt :
    (md5 : Bytes → Bytes) (ps : SimplePartitioningStrategy) (key : Bytes) (count : ℕ)
    → ReturnsBytes md5
    → ps.shift_amount ≡ 0
    → 0 < count
    → count < 2 ^ 64
    → (partition md5 ps key count).0 < count
unfolding partition calculate_shift_amount
partition-lt md5 ps key count bytes first pos small =
    let (b, e, le, none, some) = shift_loop_lem 64 65 count small (omega arith) in
    let (b_pos, le_count) = some pos in
    let z : (ps.shift_amount == 0) ≡ true = ground arith in
    let split : 2 ^ 64 ≡ 2 ^ (b - 1) * 2 ^ (65 - b) =
      ap (λ (k : ℕ). 2 ^ k) {x = 64} (omega arith) ∙ pow_add (b - 1) (65 - b) in
    let bound : (new_hash md5 key).high / 2 ^ (65 - b) < 2 ^ (b - 1) =
      (div-lt_iff_lt-mul (one-le-pow (65 - b) 2 (omega arith))).1
        (omega (arith, high-new_hash-lt md5 bytes key)) in
    rw (z, e) (omega (arith, bound))
