-- ===== src/Bucket/Resolver/Kept.antt =====
-- resolver/strategies: what a strategy keeps of a set of siblings.
use devicedb.Common.{
  all, leb, ℕ, Bool, true, false, some, [], ◌∷◌, ◌||◌, ◌≡◌, refl, sym, ap, arith, ◌==◌, nat_eq,
  Bool-cases, inl, inr, eqb_iff, ◌≤◌, ◌∙◌, ltb, subst,
}
use devicedb.Data.SiblingSet.{SiblingSet, Heap, has}
use devicedb.Bucket.Resolver.{Strategy, newest_from, resolve_lww, resolve_conflicts}

-- What the bucket keeps of a set: all of it, or the one sibling that no other is later than.
abbrev pub IsKept : Strategy → Heap → SiblingSet → SiblingSet → Type 0
IsKept Strategy.multi_value heap s kept = (p : ℕ) → has kept p ≡ has s p
IsKept Strategy.last_writer_wins heap s kept =
    (q : ℕ) × (kept ≡ q ∷ [])
    × (has s q ≡ true)
    × (all (λ p. leb (heap p).physical_timestamp (heap q).physical_timestamp) s ≡ true)

all-true :
    (f : ℕ → Bool) (s : SiblingSet) → ((p : ℕ) → has s p ≡ true → f p ≡ true) → all f s ≡ true
all-true f [] h = refl
all-true f (q ∷ s) h =
    rw (h q (ground (arith, eqb_iff q q))) (all-true f s (λ p m. h p (ground (arith, m))))

newest_bound :
    (heap : Heap) (x : ℕ) (s : SiblingSet) (r p : ℕ)
    → (heap x).physical_timestamp ≤ (heap r).physical_timestamp
    → ((p : ℕ) → has s p ≡ true → (heap p).physical_timestamp ≤ (heap r).physical_timestamp)
    → ((x == p) || has s p) ≡ true
    → (heap p).physical_timestamp ≤ (heap r).physical_timestamp
newest_bound heap x s r p le bound h = elim (Bool-cases (x == p)) [
  | inl y ↦
      subst (λ k. (heap k).physical_timestamp ≤ (heap r).physical_timestamp) ((eqb_iff x p).0 y) le
  | inr z ↦ bound p (ground arith)
]

newest :
    (heap : Heap) (s : SiblingSet) (q : ℕ)
    → (r : ℕ) × (newest_from heap s (some q) ≡ some r)
      × (((r == q) || has s r) ≡ true)
      × ((heap q).physical_timestamp ≤ (heap r).physical_timestamp)
      × ((p : ℕ) → has s p ≡ true → (heap p).physical_timestamp ≤ (heap r).physical_timestamp)
unfolding newest_from
newest heap [] q = (q, refl, ground (arith, eqb_iff q q), omega arith, λ p m. absurd cc)
newest heap (x ∷ s) q =
    elim (Bool-cases (ltb (heap q).physical_timestamp (heap x).physical_timestamp)) [
      | inl later ↦
          let (r, e, m, le, bound) = newest heap s x in
          rw later (
            r,
            e,
            ground (arith, m, eqb_iff x r, eqb_iff r x),
            ground (arith, le, later),
            λ p h. newest_bound heap x s r p le bound h,
          )
      | inr not_later ↦
          let (r, e, m, le, bound) = newest heap s q in
          rw not_later (
            r,
            e,
            ground (arith, m),
            le,
            λ p h. newest_bound heap x s r p (ground (arith, le, not_later)) bound h,
          )
    ]

pub resolve_conflicts-IsKept :
    (heap : Heap) (strategy : Strategy) (s : SiblingSet) (q : ℕ)
    → has s q ≡ true
    → IsKept strategy heap s (resolve_conflicts heap strategy s)
unfolding resolve_conflicts resolve_lww newest_from
resolve_conflicts-IsKept heap Strategy.multi_value s q m = λ p. refl
resolve_conflicts-IsKept heap Strategy.last_writer_wins [] q m = absurd cc
resolve_conflicts-IsKept heap Strategy.last_writer_wins (x ∷ s) q m =
    let (r, e, m, le, bound) = newest heap s x in
    (
      r,
      rw (resolve_conflicts, resolve_lww, e) refl,
      ground (arith, m, eqb_iff x r, eqb_iff r x),
      all-true _ (x ∷ s) (λ p h. latest p (newest_bound heap x s r p le bound h)),
    )
  where
    latest :
        {r : ℕ} (p : ℕ)
        → (heap p).physical_timestamp ≤ (heap r).physical_timestamp
        → leb (heap p).physical_timestamp (heap r).physical_timestamp ≡ true
    latest p h = ground arith

pub kept_alone :
    (heap : Heap) (strategy : Strategy) (s kept : SiblingSet) (n : ℕ)
    → ((p : ℕ) → has s p ≡ (n == p))
    → IsKept strategy heap s kept
    → (p : ℕ) → has kept p ≡ (n == p)
kept_alone heap Strategy.multi_value s kept n alone k p = k p ∙ alone p
kept_alone heap Strategy.last_writer_wins s kept n alone (q, e, m, _) p =
    ap (λ (t : SiblingSet). has t p) e
    ∙ ap (λ k. (k == p) || false) (sym ((eqb_iff n q).0 (sym (alone q) ∙ m)))
    ∙ ground arith
