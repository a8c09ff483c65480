-- ===== src/Cluster/Removal/Loops.antt =====
-- cluster/state.go: what the loops of `RemoveNode` do.
use devicedb.Common.{
  ℕ, zero, suc, ◌≡◌, ◌<◌, ◌≤◌, refl, sym, ap, ◌∙◌, arith, Bool, true, false, List, [], ◌∷◌, ◌&&◌,
  ◌||◌, leb, if◌then◌else◌, length, get_or, set, any, ◌==◌, nat_eq, Bool-cases, inl, inr, eqb_iff,
  length-set, get_or-set_self, get_or-set_ne,
}
use devicedb.Common.Dict.{Dict, contains, keys}
use devicedb.Cluster.State.{
  NodeConfig, PartitionReplica, ReplicaMap, done, inner, replica_at, set_replica, no_replica,
  relinquish_token,
}
use devicedb.Cluster.State.Replicas.{
  in_map, same_cell, replica_at-set_self, replica_at-set_ne, cell_eq, inner_absent,
}
use devicedb.Cluster.Removal.{Cells, release, release_inner, release_outer, release_tokens}

abbrev pub mem : ℕ → List ℕ → Bool
mem k = any (λ j. j == k)

pub mem-keys {ℓ} : {V : Type ℓ} (k : ℕ) (d : Dict ℕ V) → mem k (keys d) ≡ contains k d
mem-keys k [] = refl
mem-keys k ((j, v) ∷ d) = ground (arith, mem-keys k d)

pub record InRange (cells : Cells) (p r : ℕ) : Type 0 where
  pub row : p < length cells
  pub column : r < length (get_or cells p [])

pub get_or_out : {A : Type 0} (xs : List A) (i : ℕ) (z : A) → length xs ≤ i → get_or xs i z ≡ z
get_or_out [] i z h = refl
get_or_out (x ∷ xs) zero z h = absurd (omega arith)
get_or_out (x ∷ xs) (suc i) z h = get_or_out xs i z (omega arith)

-- A replica with a holder or an owner is there.
pub InRange-of_field :
    (field : PartitionReplica → ℕ) (cells : Cells) (p r : ℕ)
    → field no_replica ≡ 0
    → (field (replica_at cells p r) == 0) ≡ false
    → InRange cells p r
InRange-of_field field cells p r z h = elim (Bool-cases (leb (length cells) p)) [
  | inl out ↦
      let e =
        ap (λ (row : List PartitionReplica). field (get_or row r no_replica))
          (get_or_out cells p [] (ground arith)) in
      absurd (ground (arith, e, z))
  | inr row ↦ elim (Bool-cases (leb (length (get_or cells p [])) r)) [
    | inl out ↦
        let e = ap field (get_or_out (get_or cells p []) r no_replica (ground arith)) in
        absurd (ground (arith, e, z))
    | inr column ↦ record { row = ground arith; column = ground arith }
  ]
]

-- The loops change replicas in place.
pub record SameShape (cells cells' : Cells) : Type 0 where
  pub rows : length cells' ≡ length cells
  pub columns : (p : ℕ) → length (get_or cells' p []) ≡ length (get_or cells p [])

pub SameShape-InRange :
    {cells cells' : Cells} {p r : ℕ}
    → SameShape cells cells'
    → InRange cells p r
    → InRange cells' p r
SameShape-InRange {p = p} sh i = record {
  row = omega (arith, sh.rows, i.row);
  column = omega (arith, sh.columns p, i.column);
}

SameShape-set :
    (cells : Cells) (p r : ℕ) (x : PartitionReplica)
    → p < length cells
    → SameShape cells (set_replica cells p r x)
SameShape-set cells p r x h = record {
  rows = length-set cells p (set (get_or cells p []) r x);
  columns = λ q. elim (Bool-cases (p == q)) [
    | inl y ↦
        rw (← (eqb_iff p q).0 y, get_or-set_self cells p (set (get_or cells p []) r x) [] h)
          (length-set (get_or cells p []) r x)
    | inr z ↦
        ap length
          (get_or-set_ne cells p q (set (get_or cells p []) r x) [] (λ e. absurd (ground arith)))
  ];
}

SameShape-trans : {a b c : Cells} → SameShape a b → SameShape b c → SameShape a c
SameShape-trans s t = record { rows = t.rows ∙ s.rows; columns = λ p. t.columns p ∙ s.columns p }

-- After a loop exactly the replicas that it went through are cleared.
pub record Released {Kept : Type 0} (kept : NodeConfig → Kept)
    (clear : PartitionReplica → PartitionReplica) (hit : ℕ → ℕ → Bool)
    (before after : NodeConfig × Cells) : Type 0 where
  pub config : kept after.0 ≡ kept before.0
  pub shape : SameShape before.1 after.1
  pub cleared :
      (p r : ℕ)
      → replica_at after.1 p r
        ≡ (if hit p r then clear (replica_at before.1 p r) else replica_at before.1 p r)

module _ {Kept : Type 0} (kept : NodeConfig → Kept) (gives : NodeConfig → ℕ → ℕ → NodeConfig)
    (clear : PartitionReplica → PartitionReplica)
    (keeps : (c : NodeConfig) (p r : ℕ) → kept (gives c p r) ≡ kept c)
    (again : (x : PartitionReplica) → clear (clear x) ≡ clear x) where
  nothing : (a : NodeConfig × Cells) → Released kept clear (λ _ _. false) a a
  nothing a = record {
    config = refl;
    shape = record { rows = refl; columns = λ p. refl };
    cleared = λ p r. refl;
  }

  both :
      {a b c : NodeConfig × Cells} {f g h : ℕ → ℕ → Bool}
      → Released kept clear f a b
      → Released kept clear g b c
      → ((p r : ℕ) → h p r ≡ (f p r || g p r))
      → Released kept clear h a c
  both {a} {b} {c} {f} {g} {h} x y e = record {
    config = y.config ∙ x.config;
    shape = SameShape-trans x.shape y.shape;
    cleared = λ p r.
        y.cleared p r
        ∙ ap (λ k. if g p r then clear k else k) (x.cleared p r)
        ∙ merge (f p r) (g p r) (replica_at a.1 p r)
        ∙ ap (λ t. if t then clear (replica_at a.1 p r) else replica_at a.1 p r) (sym (e p r));
  }
    where
      merge :
          (s t : Bool) (x : PartitionReplica)
          → (if t then clear (if s then clear x else x) else (if s then clear x else x))
            ≡ (if s || t then clear x else x)
      merge true true x = again x
      merge true false x = refl
      merge false true x = refl
      merge false false x = refl

  one :
      (p r : ℕ) (acc : NodeConfig × Cells)
      → InRange acc.1 p r
      → (acc' : NodeConfig × Cells) × (release gives clear p r acc ≡ done acc')
        × Released kept clear (same_cell p r) acc acc'
  unfolding release
  one p r (c, cells) i =
      let inside : (leb (length cells) p || leb (length (get_or cells p [])) r) ≡ false =
        ground (arith, i.row, i.column) in
      (
        (gives c p r, set_replica cells p r (clear (replica_at cells p r))),
        rw inside refl,
        record {
          config = keeps c p r;
          shape = SameShape-set cells p r (clear (replica_at cells p r)) i.row;
          cleared = λ p' r'. elim (Bool-cases (same_cell p r p' r')) [
            | inl y ↦
                let e = cell_eq p r p' r' y in
                rw (y, ← e.0, ← e.1)
                  (replica_at-set_self cells p r (clear (replica_at cells p r)) i.row i.column)
            | inr z ↦
                rw z (replica_at-set_ne cells p r p' r' (clear (replica_at cells p r)) i.row z)
          ];
        },
      )

  inner_loop :
      (p : ℕ) (rs : List ℕ) (acc : NodeConfig × Cells)
      → ((r : ℕ) → mem r rs ≡ true → InRange acc.1 p r)
      → (acc' : NodeConfig × Cells) × (release_inner gives clear p rs acc ≡ done acc')
        × Released kept clear (λ p' r'. (p == p') && mem r' rs) acc acc'
  unfolding release_inner
  inner_loop p [] acc i = (acc, refl, both (nothing acc) (nothing acc) (λ p r. ground arith))
  inner_loop p (r ∷ rs) acc i =
      let (b, e, x) = one p r acc (i r (ground (arith, eqb_iff r r))) in
      let (c, e', y) =
        inner_loop p rs b (λ r' m. SameShape-InRange x.shape (i r' (ground (arith, m)))) in
      (c, rw e e', both x y (λ p' r'. ground arith))

  outer_loop :
      (m : ReplicaMap) (ps : List ℕ) (acc : NodeConfig × Cells)
      → ((p r : ℕ) → mem p ps ≡ true → in_map p r m ≡ true → InRange acc.1 p r)
      → (acc' : NodeConfig × Cells) × (release_outer gives clear m ps acc ≡ done acc')
        × Released kept clear (λ p r. mem p ps && in_map p r m) acc acc'
  unfolding release_outer
  outer_loop m [] acc i = (acc, refl, both (nothing acc) (nothing acc) (λ p r. refl))
  outer_loop m (p ∷ ps) acc i =
      let (b, e, x) =
        inner_loop p (keys (inner p m)) acc
          (λ r h. i p r (ground (arith, eqb_iff p p)) (sym (mem-keys r (inner p m)) ∙ h)) in
      let (c, e', y) =
        outer_loop m ps b
          (λ p' r' h k. SameShape-InRange x.shape (i p' r' (ground (arith, h)) k)) in
      (c, rw e e', both x y (λ p' r'. hits p p' r' m ps))
    where
      hits :
          (p p' r' : ℕ) (m : ReplicaMap) (ps : List ℕ)
          → (mem p' (p ∷ ps) && in_map p' r' m)
            ≡ (((p == p') && mem r' (keys (inner p m))) || (mem p' ps && in_map p' r' m))
      hits p p' r' m ps = elim (Bool-cases (p == p')) [
        | inl y ↦
            let k : mem r' (keys (inner p m)) ≡ in_map p' r' m =
              mem-keys r' (inner p m) ∙ ap (λ q. in_map q r' m) ((eqb_iff p p').0 y) in
            ground (arith, k, y)
        | inr z ↦ rw z
      ]

  -- Over all keys the loops go through exactly the replicas of the map.
  pub released :
      (m : ReplicaMap) (acc : NodeConfig × Cells)
      → ((p r : ℕ) → in_map p r m ≡ true → InRange acc.1 p r)
      → (acc' : NodeConfig × Cells) × (release_outer gives clear m (keys m) acc ≡ done acc')
        × Released kept clear (λ p r. in_map p r m) acc acc'
  released m acc i =
      let (b, e, x) = outer_loop m (keys m) acc (λ p r _ h. i p r h) in
      (b, e, both x (nothing b) (λ p r. all p r m))
    where
      all : (p r : ℕ) (m : ReplicaMap) → in_map p r m ≡ ((mem p (keys m) && in_map p r m) || false)
      all p r m = elim (Bool-cases (contains p m)) [
        | inl y ↦ rw (mem-keys p m, y) (ground arith)
        | inr z ↦
            let e : in_map p r m ≡ false = ap (contains r) (inner_absent p m z) in ground (arith, e)
      ]

get_or-unset :
    (tokens : List ℕ) (t u : ℕ)
    → (mem t (t ∷ []) ≡ true → t < length tokens)
    → get_or (set tokens t 0) u 0 ≡ (if t == u then 0 else get_or tokens u 0)
get_or-unset tokens t u small = elim (Bool-cases (t == u)) [
  | inl y ↦
      rw (y, ← (eqb_iff t u).0 y)
        (get_or-set_self tokens t 0 0 (small (ground (arith, eqb_iff t t))))
  | inr z ↦ rw z (get_or-set_ne tokens t u 0 0 (λ e. absurd (ground arith)))
]

pub tokens_released :
    (ts : List ℕ) (c : NodeConfig) (tokens : List ℕ)
    → ((t : ℕ) → mem t ts ≡ true → t < length tokens)
    → (acc : NodeConfig × List ℕ) × (release_tokens ts (c, tokens) ≡ done acc)
      × ((t : ℕ) → get_or acc.1 t 0 ≡ (if mem t ts then 0 else get_or tokens t 0))
      × (length acc.1 ≡ length tokens)
unfolding release_tokens
tokens_released [] c tokens i = ((c, tokens), refl, λ t. refl, refl)
tokens_released (t ∷ ts) c tokens i =
    let inside : leb (length tokens) t ≡ false = ground (arith, i t, eqb_iff t t) in
    let (acc, e, h, l) =
      tokens_released ts (relinquish_token c t) (set tokens t 0)
        (λ u m. omega (arith, length-set tokens t 0, i u (ground (arith, m)))) in
    (
      acc,
      rw inside e,
      λ u. h u ∙ ground (arith, get_or-unset tokens t u (λ _. i t (ground (arith, eqb_iff t t)))),
      l ∙ length-set tokens t 0,
    )
