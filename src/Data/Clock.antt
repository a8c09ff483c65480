-- ===== src/Data/Clock.antt =====
-- data/dvv.go: a dot, a dotted version vector, and the causal order. Counts are uint64 values; no
-- function here computes a new one.
pub mod Causality
use devicedb.Common.{
  ℕ, Bool, true, false, Option, none, some, List, [], ◌∷◌, ◌++◌, ◌&&◌, not, Bytes, ltb, leb, length,
  eqb, if◌then◌else◌, ◌==◌, nat_eq, bytes_eq,
}
use devicedb.Common.Dict.{Dict, lookup, contains}

pub record Dot : Type 0 where
  pub node_id : Bytes
  pub count : ℕ

pub record Dvv : Type 0 where
  pub vv_dot : Dot
  pub vv : Dict Bytes ℕ

abbrev pub new_dot : Bytes → ℕ → Dot
new_dot node_id count = record { node_id = node_id; count = count }

abbrev pub new_dvv : Dot → Dict Bytes ℕ → Dvv
new_dvv dot vv = record { vv_dot = dot; vv = vv }

-- `m[k]`, which is 0 for a missing key.
abbrev pub at : Bytes → Dict Bytes ℕ → ℕ
at k m = elim (lookup k m) [ none ↦ 0 | some c ↦ c ]

unfoldable pub happened_before : Dvv → Dvv → Bool
happened_before dvv other =
    if contains dvv.vv_dot.node_id other.vv
    then leb dvv.vv_dot.count (at dvv.vv_dot.node_id other.vv)
    else false

-- The loop of `Replicas`: the keys so far, and the dot's node, which becomes "" once it is met.
replicas_loop : Dict Bytes ℕ → List Bytes → Bytes → List Bytes
replicas_loop [] replicas dot_node =
    if ltb 0 (length dot_node) then replicas ++ (dot_node ∷ []) else replicas
replicas_loop ((node, _) ∷ vv) replicas dot_node =
    replicas_loop vv (replicas ++ (node ∷ [])) (if node == dot_node then [] else dot_node)

unfoldable pub replicas : Dvv → List Bytes
unfolding replicas_loop
replicas dvv = replicas_loop dvv.vv [] dvv.vv_dot.node_id

unfoldable pub max_dot : Dvv → Bytes → ℕ
max_dot dvv node =
    let own : ℕ =
      if (dvv.vv_dot.node_id == node) && ltb 0 dvv.vv_dot.count then dvv.vv_dot.count else 0 in
    if contains node dvv.vv && ltb own (at node dvv.vv) then at node dvv.vv else own

-- The loop of `Equals` over the first clock's context.
equals_loop : Dict Bytes ℕ → Dict Bytes ℕ → Bool
equals_loop [] other = true
equals_loop ((node, count) ∷ vv) other =
    let rest = equals_loop vv other in
    if not (contains node other)
    then false
    else (if not (count == at node other) then false else rest)

unfoldable pub equals : Dvv → Dvv → Bool
unfolding equals_loop
equals dvv other =
    if not
      ((dvv.vv_dot.node_id == other.vv_dot.node_id) && (dvv.vv_dot.count == other.vv_dot.count))
    then false
    else (if not (length dvv.vv == length other.vv) then false else equals_loop dvv.vv other.vv)
