-- ===== src/Data/Clock/Causality.antt =====
-- data/dvv.go: what `Replicas`, `MaxDot` and `HappenedBefore` say together.
use devicedb.Common.{
  ℕ, ◌≤◌, ◌<◌, ◌≡◌, Bool, true, false, some, List, [], ◌∷◌, ◌++◌, inl, inr, Bytes, length, any,
  arith, ◌==◌, bytes_eq, bytes_eqb_iff, Bool-cases,
}
use devicedb.Common.Dict.{Dict, lookup, contains}
use devicedb.Data.Clock.{Dvv, at, happened_before, replicas, replicas_loop, max_dot}

-- `MaxDot` is at least the dot's count at the dot's own node.
pub count-le-max_dot : (c : Dvv) → c.vv_dot.count ≤ max_dot c c.vv_dot.node_id
unfolding max_dot
count-le-max_dot c = ground (arith, bytes_eqb_iff c.vv_dot.node_id c.vv_dot.node_id)

-- And at least what the context holds.
pub at-le-max_dot : (c : Dvv) (node : Bytes) → at node c.vv ≤ max_dot c node
unfolding max_dot
at-le-max_dot c node = ground arith

-- A clock that happened before another has its dot's count within the other's `MaxDot`.
pub happened_before-le :
    (c d : Dvv) → happened_before c d ≡ true → c.vv_dot.count ≤ max_dot d c.vv_dot.node_id
unfolding happened_before
happened_before-le c d h = ground (arith, at-le-max_dot d c.vv_dot.node_id)

-- A context that covers a dot comes after it.
pub happened_before_of_covered :
    (c d : Dvv) (n : ℕ)
    → lookup c.vv_dot.node_id d.vv ≡ some n
    → c.vv_dot.count ≤ n
    → happened_before c d ≡ true
unfolding happened_before
happened_before_of_covered c d n h le = ground arith

-- Membership in a list of node names.
abbrev pub mem_bytes : Bytes → List Bytes → Bool
mem_bytes k = any (λ j. j == k)

mem_bytes-append_left :
    (k : Bytes) (xs ys : List Bytes) → mem_bytes k xs ≡ true → mem_bytes k (xs ++ ys) ≡ true
mem_bytes-append_left k [] ys h = cc
mem_bytes-append_left k (x ∷ xs) ys h = ground (arith, mem_bytes-append_left k xs ys)

mem_bytes-append_last : (k : Bytes) (xs : List Bytes) → mem_bytes k (xs ++ (k ∷ [])) ≡ true
mem_bytes-append_last k [] = ground (arith, bytes_eqb_iff k k)
mem_bytes-append_last k (x ∷ xs) = ground (arith, mem_bytes-append_last k xs)

-- What the loop of `Replicas` has collected stays.
replicas_loop-keeps :
    (vv : Dict Bytes ℕ) (acc : List Bytes) (dot k : Bytes)
    → mem_bytes k acc ≡ true
    → mem_bytes k (replicas_loop vv acc dot) ≡ true
unfolding replicas_loop
replicas_loop-keeps [] acc dot k h = ground (arith, mem_bytes-append_left k acc (dot ∷ []))
replicas_loop-keeps ((node, n) ∷ vv) acc dot k h =
    replicas_loop-keeps vv (acc ++ (node ∷ [])) _ k (mem_bytes-append_left k acc (node ∷ []) h)

replicas_loop-dot :
    (vv : Dict Bytes ℕ) (acc : List Bytes) (dot : Bytes)
    → 0 < length dot
    → mem_bytes dot (replicas_loop vv acc dot) ≡ true
unfolding replicas_loop
replicas_loop-dot [] acc dot h = ground (arith, mem_bytes-append_last dot acc)
replicas_loop-dot ((node, n) ∷ vv) acc dot h = elim (Bool-cases (node == dot)) [
  | inl e ↦
      replicas_loop-keeps vv (acc ++ (node ∷ [])) _ dot
        (rw ((bytes_eqb_iff node dot).0 e) (mem_bytes-append_last dot acc))
  | inr e ↦ rw e (replicas_loop-dot vv (acc ++ (node ∷ [])) dot h)
]

-- `Replicas` names the dot's node, unless that is the empty string.
pub replicas-dot :
    (c : Dvv) → 0 < length c.vv_dot.node_id → mem_bytes c.vv_dot.node_id (replicas c) ≡ true
unfolding replicas
replicas-dot c h = replicas_loop-dot c.vv [] c.vv_dot.node_id h

replicas_loop-key :
    (vv : Dict Bytes ℕ) (acc : List Bytes) (dot k : Bytes)
    → contains k vv ≡ true
    → mem_bytes k (replicas_loop vv acc dot) ≡ true
unfolding replicas_loop
replicas_loop-key [] acc dot k h = cc
replicas_loop-key ((node, n) ∷ vv) acc dot k h = elim (Bool-cases (node == k)) [
  | inl e ↦
      replicas_loop-keeps vv (acc ++ (node ∷ [])) _ k
        (rw ((bytes_eqb_iff node k).0 e) (mem_bytes-append_last k acc))
  | inr e ↦ replicas_loop-key vv (acc ++ (node ∷ [])) _ k (ground arith)
]

-- A node that `Replicas` does not name has `MaxDot` 0.
pub max_dot_absent :
    (c : Dvv) (k : Bytes) → 0 < length k → mem_bytes k (replicas c) ≡ false → max_dot c k ≡ 0
unfolding max_dot replicas
max_dot_absent c k h absent = elim (Bool-cases (c.vv_dot.node_id == k)) [
  | inl e ↦
      let k' : c.vv_dot.node_id ≡ k = (bytes_eqb_iff _ _).0 e in
      let here = rw k' at (replicas_loop-dot c.vv [] c.vv_dot.node_id (rw k' h)) in cc
  | inr e ↦ elim (Bool-cases (contains k c.vv)) [
    | inl m ↦ cc (replicas_loop-key c.vv [] c.vv_dot.node_id k m)
    | inr m ↦ rw (e, m)
  ]
]
