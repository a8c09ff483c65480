-- ===== src/Bucket/Write/Keeps.antt =====
-- bucket/store.go: which siblings are left after one operation of a batch.
use devicedb.Common.{
  ℕ, Bool, true, false, Option, none, some, [], ◌∷◌, ◌&&◌, ◌||◌, not, ◌≡◌, refl, sym, ap, arith,
  any, Bytes, length, if◌then◌else◌, ◌==◌, nat_eq, Bool-cases, inl, inr, eqb_iff, ◌<◌, ◌∙◌, subst,
}
use devicedb.Common.Dict.{Dict}
use devicedb.Data.Clock.{Dvv, happened_before}
use devicedb.Data.Sibling.{Sibling}
use devicedb.Data.SiblingSet.{
  SiblingSet, Heap, has, size, event, discard, sync, mine_goes, theirs_goes, is_tombstone_set,
  get_oldest_tombstone,
}
use devicedb.Data.SiblingSet.Members.{has-sync_goes, has-discard}
use devicedb.Data.SiblingSet.Events.{HasRoom, event_not_before, event_not_equal}
use devicedb.Data.SiblingSet.Joins.{happened_before-join}
use devicedb.Bucket.Resolver.{Strategy, resolve_conflicts}
use devicedb.Bucket.Write.{
  Op, is_delete, update_to_sibling, alloc, Written, update_context, update_clock, write,
}
use devicedb.Bucket.Resolver.Kept.{IsKept, resolve_conflicts-IsKept, kept_alone}

any-false :
    (f : ℕ → Bool) (s : SiblingSet) → ((p : ℕ) → has s p ≡ true → f p ≡ false) → any f s ≡ false
any-false f [] h = refl
any-false f (q ∷ s) h =
    rw (h q (ground (arith, eqb_iff q q))) (any-false f s (λ p m. h p (ground (arith, m))))

clock-update_to_sibling :
    (heap : Heap) (now : ℕ) (op : Op) (c : Dvv) (o : Option ℕ)
    → (update_to_sibling heap now op c o).vector_clock ≡ c
unfolding update_to_sibling
clock-update_to_sibling heap now Op.delete c none = refl
clock-update_to_sibling heap now Op.delete c (some p) = refl
clock-update_to_sibling heap now (Op.put v) c o = refl

module _ (node_id : Bytes) (heap : Heap) (fresh : ℕ) (s : SiblingSet) (context : Dict Bytes ℕ)
    (unused : has s fresh ≡ false) (room : HasRoom heap s context node_id) (n : Sibling)
    (new : n.vector_clock ≡ event heap s context node_id) where
  abbrev clock : Dvv
  clock = event heap s context node_id

  abbrev heap' : Heap
  heap' = alloc heap fresh n

  ne_fresh : (p : ℕ) → has s p ≡ true → (fresh == p) ≡ false
  ne_fresh p m = elim (Bool-cases (fresh == p)) [
    | inl e ↦ cc (rw ((eqb_iff fresh p).0 e) at unused)
    | inr e ↦ e
  ]

  fresh_stays : (p : ℕ) → has s p ≡ true → theirs_goes heap' fresh p ≡ false
  unfolding theirs_goes
  fresh_stays p m =
      rw (ne_fresh p m, (eqb_iff fresh fresh).1 refl)
        (rw new (
          rw (event_not_before heap s context node_id room p m)
            (rw (event_not_equal heap s context node_id room p m).1)))

  old_stays :
      (p : ℕ)
      → has s p ≡ true
      → mine_goes heap' p fresh ≡ happened_before (heap p).vector_clock clock
  unfolding mine_goes
  old_stays p m =
      rw (ne_fresh p m, (eqb_iff fresh fresh).1 refl)
        (rw new (rw (event_not_equal heap s context node_id room p m).0 (ground arith)))

  -- Of the old siblings those stay that did not happen before the new clock, and the new one is in.
  has-sync-discard :
      (p : ℕ)
      → has (sync heap' (discard heap s clock) (fresh ∷ [])) p
        ≡ ((fresh == p) || (has s p && not (happened_before (heap p).vector_clock clock)))
  has-sync-discard p = has-sync_goes heap' (discard heap s clock) (fresh ∷ []) p ∙ split
    where
      kept : (q : ℕ) → has (discard heap s clock) q ≡ true → has s q ≡ true
      kept q m = ground (arith, has-discard heap s clock q)

      split :
          (if (fresh == p) || false
            then not (any (theirs_goes heap' p) (discard heap s clock))
            else (has (discard heap s clock) p && not (mine_goes heap' p fresh || false)))
          ≡ ((fresh == p) || (has s p && not (happened_before (heap p).vector_clock clock)))
      split = elim (Bool-cases (fresh == p)) [
        | inl e ↦
            rw (e, ← (eqb_iff fresh p).0 e)
              (rw (
                any-false (theirs_goes heap' fresh) (discard heap s clock)
                  (λ q m. fresh_stays q (kept q m))))
        | inr e ↦ elim (Bool-cases (has s p)) [
          | inl m ↦ rw (e, has-discard heap s clock p, m, old_stays p m) (ground arith)
          | inr m ↦ rw (e, has-discard heap s clock p, m)
        ]
      ]

module _ (node_id : Bytes) (strategy : Strategy) (now : ℕ) (heap : Heap) (fresh : ℕ)
    (s : SiblingSet) (op : Op) (context : Dict Bytes ℕ) (w : Written)
    (written : write node_id strategy now heap fresh s op context ≡ some w)
    (unused : has s fresh ≡ false)
    (room : HasRoom heap s (update_context heap s context) node_id) where
  has-write :
      (p : ℕ)
      → has w.returned p ≡ (
          (fresh == p)
          || (has s p
              && not (happened_before (heap p).vector_clock (update_clock node_id heap s context))))
  unfolding write
  has-write p =
      let clock = update_clock node_id heap s context in
      let oldest : Option ℕ =
        if is_tombstone_set heap s then get_oldest_tombstone heap s else none in
      let n = update_to_sibling heap now op clock oldest in
      let all =
        has-sync-discard node_id heap fresh s (update_context heap s context) unused room n
          (clock-update_to_sibling heap now op clock oldest) p in
      ground (arith, all)

  has-write_blind :
      length context ≡ 0
      → ((q : ℕ) → has s q ≡ true → 0 < length (heap q).vector_clock.vv_dot.node_id)
      → (p : ℕ) → has w.returned p ≡ (fresh == p)
  unfolding event
  has-write_blind blind named p = rw (has-write p) (elim (Bool-cases (has s p)) [
    | inl m ↦
        rw
          (happened_before-join heap s (update_clock node_id heap s context) p m (named p m)
            (rw blind))
          (ground arith)
    | inr m ↦ rw m (ground arith)
  ])

-- What the new sibling says: the value of a put, nothing for a delete.
abbrev pub new_value : Op → Option Bytes
new_value (Op.put v) = some v
new_value Op.delete = none

value-update_to_sibling :
    (heap : Heap) (now : ℕ) (op : Op) (c : Dvv) (o : Option ℕ)
    → (update_to_sibling heap now op c o).binary_value ≡ new_value op
unfolding update_to_sibling
value-update_to_sibling heap now Op.delete c none = refl
value-update_to_sibling heap now Op.delete c (some p) = refl
value-update_to_sibling heap now (Op.put v) c o = refl

otherwise :
    (t : Bool) (y : Written) → t ≡ false → (w : Written) × ((if t then none else some y) ≡ some w)
otherwise t y e = (y, rw e refl)

module _ (node_id : Bytes) (strategy : Strategy) (now : ℕ) (heap : Heap) (fresh : ℕ)
    (s : SiblingSet) (op : Op) (context : Dict Bytes ℕ) (unused : has s fresh ≡ false)
    (room : HasRoom heap s (update_context heap s context) node_id)
    (changes : ((size s == 0) && is_delete op) ≡ false) where
  new_clock : Dvv
  new_clock = update_clock node_id heap s context

  oldest : Option ℕ
  oldest = if is_tombstone_set heap s then get_oldest_tombstone heap s else none

  returns :
      (w : Written) × (write node_id strategy now heap fresh s op context ≡ some w)
      × (w.heap ≡ alloc heap fresh (update_to_sibling heap now op new_clock oldest))
      × (w.stored ≡ resolve_conflicts w.heap strategy w.returned)
  unfolding write new_clock oldest otherwise
  returns = let (w, e) = otherwise _ _ changes in (w, e, refl, refl)

  left_alone : (p : ℕ) → returns.0.heap p ≡ (if fresh == p then returns.0.heap fresh else heap p)
  left_alone p = elim (Bool-cases (fresh == p)) [
    | inl e ↦ rw e (ap returns.0.heap (sym ((eqb_iff fresh p).0 e)))
    | inr e ↦ rw e (ap (λ (h : Heap). h p) returns.2 ∙ rw e refl)
  ]

  new_there : returns.0.heap fresh ≡ update_to_sibling heap now op new_clock oldest
  new_there = ap (λ (h : Heap). h fresh) returns.2 ∙ rw ((eqb_iff fresh fresh).1 refl) refl

  -- Unless it deletes a missing key, and while the replica's counter is below the last uint64, an
  -- operation of `Batch` with a new address for the new sibling returns exactly that sibling and those
  -- old ones whose clock did not happen before the new one. The new sibling has the value that is put,
  -- or none for a delete, and the new clock; the old ones are unchanged; and the bucket keeps what is
  -- returned, or under last-writer-wins the one sibling of it that none is later than.
  pub write_keeps :
      (w : Written) × (write node_id strategy now heap fresh s op context ≡ some w)
      × ((p : ℕ)
          → has w.returned p ≡ (
              (fresh == p)
              || (has s p
                  && not (
                      happened_before
                        (heap p).vector_clock
                        (update_clock node_id heap s context)))))
      × ((w.heap fresh).binary_value ≡ new_value op)
      × ((w.heap fresh).vector_clock ≡ update_clock node_id heap s context)
      × ((p : ℕ) → w.heap p ≡ (if fresh == p then w.heap fresh else heap p))
      × IsKept strategy w.heap w.returned w.stored
  unfolding new_clock
  write_keeps =
      let (w, e, at, kept) = returns in
      let all = has-write node_id strategy now heap fresh s op context w e unused room in
      (
        w,
        e,
        all,
        ap (λ (n : Sibling). n.binary_value) new_there
            ∙ value-update_to_sibling heap now op new_clock oldest,
        ap (λ (n : Sibling). n.vector_clock) new_there
            ∙ clock-update_to_sibling heap now op new_clock oldest,
        left_alone,
        subst (IsKept strategy w.heap w.returned) (sym kept) (
            resolve_conflicts-IsKept w.heap strategy w.returned fresh
              (all fresh ∙ rw ((eqb_iff fresh fresh).1 refl) refl)),
      )

  -- Such an operation, with the same conditions and an empty context, leaves the new sibling alone in
  -- what is returned and in what the bucket keeps, with the value that is put or none for a delete, if
  -- no old sibling's dot has an empty node id.
  pub write_blind :
      length context ≡ 0
      → ((q : ℕ) → has s q ≡ true → 0 < length (heap q).vector_clock.vv_dot.node_id)
      → (w : Written) × (write node_id strategy now heap fresh s op context ≡ some w)
        × ((p : ℕ) → has w.returned p ≡ (fresh == p))
        × ((p : ℕ) → has w.stored p ≡ (fresh == p))
        × ((w.heap fresh).binary_value ≡ new_value op)
  write_blind blind named =
      let (w, e, at, kept) = returns in
      let alone =
        has-write_blind node_id strategy now heap fresh s op context w e unused room blind named in
      (
        w,
        e,
        alone,
        λ p.
            kept_alone w.heap strategy w.returned w.stored fresh alone
              (subst (IsKept strategy w.heap w.returned) (sym kept) (
                resolve_conflicts-IsKept w.heap strategy w.returned fresh
                  (alone fresh ∙ (eqb_iff fresh fresh).1 refl)))
              p,
        ap (λ (n : Sibling). n.binary_value) new_there
            ∙ value-update_to_sibling heap now op new_clock oldest,
      )
