-- ===== src/Cluster/Partitioner/Owners.antt =====
-- cluster/partitioner.go: how many owners `Owners` returns, and from where.
use devicedb.Common.{
  ℕ, zero, suc, ◌+◌, ◌-◌, ◌%◌, ◌≤◌, ◌<◌, ◌≡◌, refl, ◌∙◌, arith, Bool, true, false, some, List, [],
  ◌∷◌, ◌++◌, ◌&&◌, ltb, leb, length, get_or, ◌==◌, nat_eq, Bool-cases, inl, inr, length-append,
}
use devicedb.Common.Dict.{Dict, contains, insert}
use devicedb.Cluster.Partitioner.{collect, pad, owners}

length-pad :
    (n : ℕ) (original : List ℕ) (i : ℕ) (found : List ℕ)
    → length (pad n original i found) ≡ length found + n
unfolding pad
length-pad zero original i found = omega arith
length-pad (suc n) original i found =
    length-pad n original (i + 1) (found ++ (get_or original (i % length original) 0 ∷ []))
    ∙ omega (arith, length-append found (get_or original (i % length original) 0 ∷ []))

-- The set that the first loop keeps has as many members as the list.
length-insert :
    (n : ℕ) (d : Dict ℕ Bool) → contains n d ≡ false → length (insert n true d) ≡ length d + 1
length-insert n [] h = omega arith
length-insert n ((m, b) ∷ d) h = elim (Bool-cases (m == n)) [
  | inl y ↦ absurd (ground arith)
  | inr z ↦
      let h' : contains n d ≡ false = ground arith in rw z (omega (arith, length-insert n d h'))
]

collect-le :
    (fuel : ℕ) (tokens : List ℕ) (p factor i : ℕ) (seen : Dict ℕ Bool) (found : List ℕ)
    → length seen ≡ length found
    → length found ≤ factor
    → (length (collect fuel tokens p factor i seen found) ≤ factor)
      × (length found ≤ length (collect fuel tokens p factor i seen found))
unfolding collect
collect-le zero tokens p factor i seen found e le = (le, omega arith)
collect-le (suc fuel) tokens p factor i seen found e le =
    let owner = get_or tokens ((i + p) % length tokens) 0 in
    elim (Bool-cases (ltb (length seen) factor)) [
      | inr full ↦ rw full (le, omega arith)
      | inl room ↦ rw room (elim (Bool-cases (contains owner seen)) [
        | inl y ↦ rw y (collect-le fuel tokens p factor (i + 1) seen found e le)
        | inr z ↦
            let longer = length-append found (owner ∷ []) in
            let (a, b) =
              collect-le fuel tokens p factor (i + 1) (insert owner true seen)
                (found ++ (owner ∷ [])) (omega (arith, longer, length-insert owner seen z))
                (ground (arith, longer)) in
            rw z (a, omega (arith, longer))
      ])
    ]

-- With a token and a positive replication factor the first loop finds an owner.
collect-pos :
    (fuel : ℕ) (tokens : List ℕ) (p factor : ℕ)
    → 0 < fuel
    → 0 < factor
    → 0 < length (collect fuel tokens p factor 0 [] [])
unfolding collect
collect-pos zero tokens p factor h pos = absurd (omega arith)
collect-pos (suc fuel) tokens p factor h pos =
    let room : ltb 0 factor ≡ true = ground arith in
    let owner = get_or tokens ((0 + p) % length tokens) 0 in
    let (a, b) =
      collect-le fuel tokens p factor 1 ((owner, true) ∷ []) (owner ∷ []) refl (omega arith) in
    rw room (omega arith)

-- For a partition of the assignment, and a replication factor that a slice may have for its length,
-- `Owners` does not panic and returns as many owners as the replication factor says.
pub length-owners :
    (max_slice : ℕ → ℕ) (tokens : List ℕ) (p factor : ℕ)
    → p < length tokens
    → factor ≤ max_slice 8
    → (found : List ℕ) × (owners max_slice tokens p factor ≡ some found) × (length found ≡ factor)
unfolding owners
length-owners max_slice tokens p factor small fits =
    let found = collect (length tokens) tokens p factor 0 [] [] in
    let inside : leb (length tokens) p ≡ false = ground arith in
    let made : ltb (max_slice 8) factor ≡ false = ground arith in
    let (le, _) = collect-le (length tokens) tokens p factor 0 [] [] refl (omega arith) in
    rw (inside, made)
      (
        _,
        refl,
        (elim (Bool-cases (ltb 0 (length found) && ltb (length found) factor)) [
          | inl more ↦
              let n = factor - length found in rw more (length-pad n found 0 found ∙ ground arith)
          | inr enough ↦ rw enough (elim (Bool-cases (ltb 0 factor)) [
            | inl y ↦
                let some_found =
                  collect-pos (length tokens) tokens p factor (omega arith) (ground arith) in
                ground arith
            | inr z ↦ ground arith
          ])
        ]),
      )
