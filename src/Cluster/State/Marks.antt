-- ===== src/Cluster/State/Marks.antt =====
-- cluster/state.go: a test on the configuration of a node, and how changing one node changes it.
use devicedb.Common.{
  ℕ, ◌≡◌, refl, sym, ap, ◌∙◌, arith, Bool, true, false, Option, none, some, ◌&&◌, ◌||◌, not,
  if◌then◌else◌, ◌==◌, nat_eq, Bool-cases, inl, inr, eqb_iff,
}
use devicedb.Common.Dict.{Dict, lookup, contains, insert, lookup-insert}
use devicedb.Cluster.State.{NodeConfig, Outcome, done, panicked, on_node}

-- Is there a node with this id that passes the test?
abbrev pub marks : (NodeConfig → Bool) → Dict ℕ NodeConfig → ℕ → Bool
marks f nodes n = elim (lookup n nodes) [ none ↦ false | some c ↦ f c ]

pub marks-insert :
    (f : NodeConfig → Bool) (k : ℕ) (c : NodeConfig) (nodes : Dict ℕ NodeConfig) (n : ℕ)
    → marks f (insert k c nodes) n ≡ (if k == n then f c else marks f nodes n)
marks-insert f k c nodes n = ground (arith, lookup-insert k n c nodes)

pub marks_or :
    (f g : NodeConfig → Bool) (h : Bool) (nodes : Dict ℕ NodeConfig) (n : ℕ)
    → ((c : NodeConfig) → g c ≡ (f c || h))
    → marks g nodes n ≡ (marks f nodes n || (contains n nodes && h))
marks_or f g h nodes n e = go (lookup n nodes)
  where
    go :
        (o : Option NodeConfig)
        → (elim o as (λ _. Bool) [ none ↦ false | some c ↦ g c ]) ≡ (
            (elim o as (λ _. Bool) [ none ↦ false | some c ↦ f c ])
            || ((elim o as (λ _. Bool) [ none ↦ false | some _ ↦ true ]) && h))
    go none = refl
    go (some c) = e c

pub marks_and :
    (f g : NodeConfig → Bool) (h : Bool) (nodes : Dict ℕ NodeConfig) (n : ℕ)
    → ((c : NodeConfig) → g c ≡ (f c && h))
    → marks g nodes n ≡ (marks f nodes n && h)
marks_and f g h nodes n e = go (lookup n nodes)
  where
    go :
        (o : Option NodeConfig)
        → (elim o as (λ _. Bool) [ none ↦ false | some c ↦ g c ])
          ≡ ((elim o as (λ _. Bool) [ none ↦ false | some c ↦ f c ]) && h)
    go none = refl
    go (some c) = e c

pub marks_at :
    (f : NodeConfig → Bool) (nodes : Dict ℕ NodeConfig) (n : ℕ) (c : NodeConfig)
    → lookup n nodes ≡ some c
    → marks f nodes n ≡ f c
marks_at f nodes n c e =
    ap (λ (o : Option NodeConfig). elim o as (λ _. Bool) [ none ↦ false | some c ↦ f c ]) e

-- A node that passes some test is there.
pub marks-contains :
    (f : NodeConfig → Bool) (nodes : Dict ℕ NodeConfig) (n : ℕ)
    → marks f nodes n ≡ true
    → contains n nodes ≡ true
marks-contains f nodes n h = ground (arith, h)

-- What one change to the node map does to every test.
abbrev pub Changes : (NodeConfig → NodeConfig) → ℕ → Dict ℕ NodeConfig → Dict ℕ NodeConfig → Type 0
Changes g k nodes nodes' =
    (f : NodeConfig → Bool) (n : ℕ)
    → marks f nodes' n
      ≡ (if (k == n) && not (k == 0) then marks (λ c. f (g c)) nodes n else marks f nodes n)

pub on_node-Changes :
    (g : NodeConfig → NodeConfig) (k : ℕ) (nodes : Dict ℕ NodeConfig)
    → (k == 0) ≡ false
    → contains k nodes ≡ true
    → (nodes' : Dict ℕ NodeConfig) × (on_node nodes k g ≡ done nodes') × Changes g k nodes nodes'
on_node-Changes g k nodes pos there = go (lookup k nodes) refl
  where
    go :
        (o : Option NodeConfig)
        → lookup k nodes ≡ o
        → (nodes' : Dict ℕ NodeConfig) × (on_node nodes k g ≡ done nodes')
          × Changes g k nodes nodes'
    go none e = cc
    go (some c) e = (
      insert k (g c) nodes,
      ap
          (λ (o : Option NodeConfig). elim o as (λ _. Outcome (Dict ℕ NodeConfig)) [
            | none ↦ panicked
            | some c ↦ done (insert k (g c) nodes)
          ])
          e,
      λ f n.
          rw (marks-insert f k (g c) nodes n, pos)
            (elim (Bool-cases (k == n)) [
              | inl y ↦ rw (y, ← (eqb_iff k n).0 y) (sym (marks_at (λ c. f (g c)) nodes k c e))
              | inr z ↦ rw z
            ]),
    )

-- The same where the code skips the node id 0.
pub on_node_unless_zero :
    (g : NodeConfig → NodeConfig) (k : ℕ) (nodes : Dict ℕ NodeConfig)
    → ((k == 0) ≡ false → contains k nodes ≡ true)
    → (nodes' : Dict ℕ NodeConfig) × ((if not (k == 0) then on_node nodes k g else done nodes)
        ≡ done nodes')
      × Changes g k nodes nodes'
on_node_unless_zero g k nodes there = elim (Bool-cases (k == 0)) [
  | inr z ↦ let (nodes', e, ch) = on_node-Changes g k nodes z (there z) in (nodes', rw z e, ch)
  | inl y ↦ (nodes, rw y refl, λ f n. ground arith)
]

-- A test that a change leaves alone.
pub marks_unchanged :
    (g : NodeConfig → NodeConfig) (k : ℕ) (nodes nodes' : Dict ℕ NodeConfig) (f : NodeConfig → Bool)
    → Changes g k nodes nodes'
    → ((c : NodeConfig) → f (g c) ≡ f c)
    → (n : ℕ) → marks f nodes' n ≡ marks f nodes n
marks_unchanged g k nodes nodes' f ch same n =
    let e = marks_and f (λ c. f (g c)) true nodes n (λ c. same c ∙ and_true (f c)) in
    ground (arith, ch f n, e)
  where
    and_true : (b : Bool) → b ≡ (b && true)
    and_true true = refl
    and_true false = refl
