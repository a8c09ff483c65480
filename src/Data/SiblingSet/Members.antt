-- ===== src/Data/SiblingSet/Members.antt =====
-- data/sibling_set.go: which siblings the set operations keep.
use devicedb.Common.{
  ℕ, Bool, true, false, [], ◌∷◌, ◌&&◌, ◌||◌, not, ◌≡◌, refl, arith, any, if◌then◌else◌, ◌==◌,
  nat_eq, Bool-cases, ◌⊎◌, inl, inr, eqb_iff, ◌∙◌, ap₂, fun_ext, Ordering,
}
use devicedb.Data.Clock.{Dvv, happened_before, equals}
use devicedb.Data.Sibling.{compare_siblings}
use devicedb.Data.SiblingSet.{
  SiblingSet, Heap, has, add, delete, mine_goes, theirs_goes, sync_inner, sync_outer, sync, diff,
  discard, discard_from, le_zero, lt_zero,
}

pub has-add : (s : SiblingSet) (p q : ℕ) → has (add s p) q ≡ ((p == q) || has s q)
has-add s p q = elim (Bool-cases (has s p)) [ inl h ↦ rw h (there s p q h) | inr h ↦ rw h ]
  where
    there : (s : SiblingSet) (p q : ℕ) → has s p ≡ true → has s q ≡ ((p == q) || has s q)
    there s p q h = elim (Bool-cases (p == q)) [
      | inl e ↦ rw (e, ← (eqb_iff p q).0 e) h
      | inr e ↦ rw e
    ]

pub has-delete : (s : SiblingSet) (p q : ℕ) → has (delete s p) q ≡ (has s q && not (p == q))
has-delete [] p q = refl
has-delete (r ∷ s) p q = ground (arith, has-delete s p q)

module _ (heap : Heap) (goes : ℕ → ℕ → Bool) where
  has-sync_inner :
      (p : ℕ) (others acc : SiblingSet) (q : ℕ)
      → has (sync_inner heap goes p others acc) q
        ≡ (if (p == q) && any (goes p) others then false else has acc q)
  unfolding sync_inner
  has-sync_inner p [] acc q = ground arith
  has-sync_inner p (o ∷ others) acc q = elim (Bool-cases (goes p o)) [
    | inl h ↦
        rw h
          (rw (has-sync_inner p others (delete acc p) q) (rw (has-delete acc p q) (ground arith)))
    | inr h ↦ rw h (has-sync_inner p others acc q)
  ]

  pub has-sync_outer :
      (s others acc : SiblingSet) (q : ℕ)
      → has (sync_outer heap goes s others acc) q
        ≡ (if has s q then not (any (goes q) others) else has acc q)
  unfolding sync_outer
  has-sync_outer [] others acc q = refl
  has-sync_outer (p ∷ s) others acc q =
      rw (has-sync_outer s others (sync_inner heap goes p others (add acc p)) q) (
        rw (has-sync_inner p others (add acc p) q)
          (rw (has-add acc p q) (split (Bool-cases (p == q)))))
    where
      split :
          ((p == q) ≡ true) ⊎ ((p == q) ≡ false)
          → (if has s q
              then not (any (goes q) others)
              else (if (p == q) && any (goes p) others then false else ((p == q) || has acc q)))
            ≡ (if (p == q) || has s q then not (any (goes q) others) else has acc q)
      split (inl e) = rw (e, (eqb_iff p q).0 e) (ground arith)
      split (inr e) = rw e

module _ (heap : Heap) where
  pub has-sync_goes :
      (mine theirs : SiblingSet) (p : ℕ)
      → has (sync heap mine theirs) p ≡ (
          if has theirs p
          then not (any (theirs_goes heap p) mine)
          else has mine p && not (any (mine_goes heap p) theirs))
  unfolding sync
  has-sync_goes mine theirs p =
      rw (has-sync_outer heap (theirs_goes heap) theirs mine _ p)
        (rw (has-sync_outer heap (mine_goes heap) mine theirs [] p) (ground arith))

  mine_goes_lem :
      (p t : ℕ)
      → mine_goes heap p t ≡ (
          happened_before (heap p).vector_clock (heap t).vector_clock
          || (equals (heap p).vector_clock (heap t).vector_clock
              && elim (compare_siblings (heap p) (heap t)) as (λ _. Bool) [
                | Ordering.lt ↦ true
                | Ordering.eq ↦ true
                | Ordering.gt ↦ false
              ]))
  unfolding mine_goes
  mine_goes_lem p t =
      elim (compare_siblings (heap p) (heap t))
        as (λ o.
          (if happened_before (heap p).vector_clock (heap t).vector_clock
            then true
            else (if equals (heap p).vector_clock (heap t).vector_clock then le_zero o else false))
          ≡ (happened_before (heap p).vector_clock (heap t).vector_clock
              || (equals (heap p).vector_clock (heap t).vector_clock && elim o as (λ _. Bool) [
                | Ordering.lt ↦ true
                | Ordering.eq ↦ true
                | Ordering.gt ↦ false
              ]))) [
                | Ordering.lt ↦ ground arith
                | Ordering.eq ↦ ground arith
                | Ordering.gt ↦ ground arith
              ]

  theirs_goes_lem :
      (p m : ℕ)
      → theirs_goes heap p m ≡ (
          happened_before (heap p).vector_clock (heap m).vector_clock
          || (equals (heap p).vector_clock (heap m).vector_clock
              && elim (compare_siblings (heap p) (heap m)) as (λ _. Bool) [
                | Ordering.lt ↦ true
                | Ordering.eq ↦ false
                | Ordering.gt ↦ false
              ]))
  unfolding theirs_goes
  theirs_goes_lem p m =
      elim (compare_siblings (heap p) (heap m))
        as (λ o.
          (if happened_before (heap p).vector_clock (heap m).vector_clock
            then true
            else (if equals (heap p).vector_clock (heap m).vector_clock then lt_zero o else false))
          ≡ (happened_before (heap p).vector_clock (heap m).vector_clock
              || (equals (heap p).vector_clock (heap m).vector_clock && elim o as (λ _. Bool) [
                | Ordering.lt ↦ true
                | Ordering.eq ↦ false
                | Ordering.gt ↦ false
              ]))) [
                | Ordering.lt ↦ ground arith
                | Ordering.eq ↦ ground arith
                | Ordering.gt ↦ ground arith
              ]

  -- The result of `Sync` holds one of their siblings exactly when none of mine follows it, or has an
  -- equal clock and is greater in the order of siblings; and one that is mine alone exactly when none
  -- of theirs follows it, or has an equal clock and is not smaller.
  pub has-sync :
      (mine theirs : SiblingSet) (p : ℕ)
      → has (sync heap mine theirs) p ≡ (
          if has theirs p
          then not (
              any
                (λ m.
                  happened_before (heap p).vector_clock (heap m).vector_clock
                  || (equals (heap p).vector_clock (heap m).vector_clock
                      && elim (compare_siblings (heap p) (heap m)) as (λ _. Bool) [
                        | Ordering.lt ↦ true
                        | Ordering.eq ↦ false
                        | Ordering.gt ↦ false
                      ]))
                mine)
          else has mine p
            && not (
                any
                  (λ t.
                    happened_before (heap p).vector_clock (heap t).vector_clock
                    || (equals (heap p).vector_clock (heap t).vector_clock
                        && elim (compare_siblings (heap p) (heap t)) as (λ _. Bool) [
                          | Ordering.lt ↦ true
                          | Ordering.eq ↦ true
                          | Ordering.gt ↦ false
                        ]))
                  theirs))
  has-sync mine theirs p =
      has-sync_goes mine theirs p
      ∙ ap₂
          (λ (f g : ℕ → Bool).
            if has theirs p then not (any f mine) else has mine p && not (any g theirs))
          (fun_ext (theirs_goes_lem p)) (fun_ext (mine_goes_lem p))

  -- `Diff` holds exactly those of their siblings that no sibling of mine follows or equals.
  pub has-diff :
      (mine theirs : SiblingSet) (p : ℕ)
      → has (diff heap mine theirs) p ≡ (
          has theirs p
          && not (
              any
                (λ m.
                  happened_before (heap p).vector_clock (heap m).vector_clock
                  || equals (heap p).vector_clock (heap m).vector_clock)
                mine))
  unfolding diff
  has-diff mine theirs p = rw (has-sync_outer heap _ theirs mine [] p) (ground arith)

  has-discard_from :
      (clock : Dvv) (s acc : SiblingSet) (p : ℕ)
      → has (discard_from heap clock s acc) p
        ≡ ((has s p && not (happened_before (heap p).vector_clock clock)) || has acc p)
  unfolding discard_from
  has-discard_from clock [] acc p = refl
  has-discard_from clock (q ∷ s) acc p =
      rw (has-discard_from clock s _ p)
        (step (Bool-cases (happened_before (heap q).vector_clock clock)) (Bool-cases (q == p)))
    where
      test : ℕ → Bool
      test r = not (happened_before (heap r).vector_clock clock)

      step :
          (happened_before (heap q).vector_clock clock ≡ true)
            ⊎ (happened_before (heap q).vector_clock clock ≡ false)
          → ((q == p) ≡ true) ⊎ ((q == p) ≡ false)
          → ((has s p && test p) || has (if test q then add acc q else acc) p)
            ≡ ((((q == p) || has s p) && test p) || has acc p)
      step (inl h) (inl e) = rw (h, e, ← (eqb_iff q p).0 e, h) (ground arith)
      step (inl h) (inr e) = rw (h, e)
      step (inr h) (inl e) = rw (h, has-add, e, ← (eqb_iff q p).0 e, h) (ground arith)
      step (inr h) (inr e) = rw (h, has-add, e)

  -- `Discard` keeps exactly the siblings that did not happen before the clock.
  pub has-discard :
      (s : SiblingSet) (clock : Dvv) (p : ℕ)
      → has (discard heap s clock) p
        ≡ (has s p && not (happened_before (heap p).vector_clock clock))
  unfolding discard
  has-discard s clock p = rw (has-discard_from clock s [] p) (ground arith)
