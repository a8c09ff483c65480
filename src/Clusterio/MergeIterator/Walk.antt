-- ===== src/Clusterio/MergeIterator/Walk.antt =====
-- clusterio/sibling_set_merge_iterator.go: the walk meets every key once, in order.
use devicedb.Common.{
  ℕ, zero, suc, ◌+◌, ◌≤◌, ◌<◌, ◌≡◌, refl, sym, ap, ap₂, ◌∙◌, arith, Bool, true, false, Option, none,
  some, List, [], ◌∷◌, ◌++◌, Bytes, ltb, leb, length, get_or, nat_eq, bytes_eq, Bool-cases, inl,
  inr,
}
use devicedb.Common.Dict.{Dict, lookup}
use devicedb.Clusterio.MergeIterator.{MergeIterator, next, key_at, walk}

-- No row is empty, and prefixes point to rows.
pub record IsValid (it : MergeIterator) : Type 0 where
  pub filled : (i : ℕ) → i < length it.keys → 0 < length (get_or it.keys i [])
  pub inside :
      (prefix : Bytes) (i : ℕ) → lookup prefix it.prefix_indexes ≡ some i → i < length it.keys

abbrev pub marked : List Bytes → List (Option Bytes)
marked [] = []
marked (k ∷ ks) = some k ∷ marked ks

-- The keys of all rows, one row after the other.
abbrev pub all_keys : List (List Bytes) → List (Option Bytes)
all_keys [] = []
all_keys (row ∷ rows) = marked row ++ all_keys rows

abbrev drop {ℓ} : {A : Type ℓ} → ℕ → List A → List A
drop zero xs = xs
drop (suc n) [] = []
drop (suc n) (x ∷ xs) = drop n xs

drop_at {ℓ} :
    {A : Type ℓ} (n : ℕ) (xs : List A) (z : A)
    → n < length xs
    → drop n xs ≡ get_or xs n z ∷ drop (n + 1) xs
drop_at n [] z h = absurd (omega arith)
drop_at zero (x ∷ xs) z h = refl
drop_at (suc n) (x ∷ xs) z h =
    drop_at n xs z (omega arith)
    ∙ ap (λ k. get_or xs n z ∷ drop k (x ∷ xs)) {x = suc (n + 1)} (omega arith)

drop_end {ℓ} : {A : Type ℓ} (n : ℕ) (xs : List A) → length xs ≤ n → drop n xs ≡ []
drop_end zero [] h = refl
drop_end zero (x ∷ xs) h = absurd (omega arith)
drop_end (suc n) [] h = refl
drop_end (suc n) (x ∷ xs) h = drop_end n xs (omega arith)

module _ (keys : List (List Bytes)) (prefixes : List Bytes) (key_set : Dict Bytes Bool)
    (prefix_indexes : Dict Bytes ℕ)
    (filled : (i : ℕ) → i < length keys → 0 < length (get_or keys i [])) where
  abbrev there : Option ℕ → Option ℕ → MergeIterator
  there p k = record {
    keys = keys;
    prefixes = prefixes;
    key_set = key_set;
    prefix_indexes = prefix_indexes;
    current_prefix_index = p;
    current_key_index = k;
  }

  -- The keys from index k of row p on.
  abbrev left : ℕ → ℕ → List (Option Bytes)
  left p k = marked (drop k (get_or keys p [])) ++ all_keys (drop (p + 1) keys)

  left_at :
      (p k : ℕ)
      → k < length (get_or keys p [])
      → left p k ≡ some (get_or (get_or keys p []) k []) ∷ left p (k + 1)
  left_at p k h =
      ap (λ row. marked row ++ all_keys (drop (p + 1) keys)) (drop_at k (get_or keys p []) [] h)

  left_end : (p k : ℕ) → length (get_or keys p []) ≤ k → left p k ≡ all_keys (drop (p + 1) keys)
  left_end p k h =
      ap (λ row. marked row ++ all_keys (drop (p + 1) keys)) (drop_end k (get_or keys p []) h)

  left_row : (p : ℕ) → p < length keys → all_keys (drop p keys) ≡ left p 0
  left_row p h = ap all_keys (drop_at p keys [] h)

  key_there :
      (p k : ℕ)
      → p < length keys
      → k < length (get_or keys p [])
      → key_at (there (some p) (some k)) ≡ some (get_or (get_or keys p []) k [])
  unfolding key_at
  key_there p k hp hk =
      let a : leb (length keys) p ≡ false = ground arith in
      let b : leb (length (get_or keys p [])) k ≡ false = ground arith in rw (a, b)

  walk_from :
      (fuel p k : ℕ)
      → p < length keys
      → k < length (get_or keys p [])
      → length (left p (k + 1)) < fuel
      → walk fuel (there (some p) (some k)) ≡ left p (k + 1)
  unfolding walk next
  walk_from zero p k hp hk h = absurd (omega arith)
  walk_from (suc fuel) p k hp hk h =
      let a : ltb p (length keys) ≡ true = ground arith in
      elim (Bool-cases (leb (length (get_or keys p [])) (k + 1))) [
        | inr more ↦
            let hk' : k + 1 < length (get_or keys p []) = ground arith in
            let e = left_at p (k + 1) hk' in
            rw (a, more)
              (ap₂ ◌∷◌ (key_there p (k + 1) hp hk')
                  (walk_from fuel p (k + 1) hp hk' (omega (arith, ap length e)))
                ∙ sym e)
        | inl over ↦
            let e = left_end p (k + 1) (ground arith) in
            elim (Bool-cases (ltb (p + 1) (length keys))) [
              | inr last ↦
                  rw (a, over, last) (sym (e ∙ ap all_keys (drop_end (p + 1) keys (ground arith))))
              | inl row ↦
                  let hp' : p + 1 < length keys = ground arith in
                  let hk' = filled (p + 1) hp' in
                  let some_key : ltb 0 (length (get_or keys (p + 1) [])) ≡ true = ground arith in
                  let e' = e ∙ left_row (p + 1) hp' ∙ left_at (p + 1) 0 hk' in
                  rw (a, over, row, some_key)
                    (ap₂ ◌∷◌ (key_there (p + 1) 0 hp' hk')
                        (walk_from fuel (p + 1) 0 hp' hk' (omega (arith, ap length e')))
                      ∙ sym e')
            ]
      ]

  walk_start :
      (fuel : ℕ) → length (all_keys keys) < fuel → walk fuel (there none none) ≡ all_keys keys
  unfolding walk next
  walk_start zero h = absurd (omega arith)
  walk_start (suc fuel) h = elim (Bool-cases (ltb 0 (length keys))) [
    | inr none_left ↦ rw none_left (sym (ap all_keys (drop_end 0 keys (ground arith))))
    | inl row ↦
        let hp : 0 < length keys = ground arith in
        let hk = filled 0 hp in
        let inside : leb (length (get_or keys 0 [])) 0 ≡ false = ground arith in
        let e = left_row 0 hp ∙ left_at 0 0 hk in
        rw (row, inside)
          (ap₂ ◌∷◌ (key_there 0 0 hp hk) (walk_from fuel 0 0 hp hk (omega (arith, ap length e)))
            ∙ sym e)
  ]

-- The walk over a valid iterator that has not been moved yet meets every key of every row, in order,
-- and then ends, given fuel for one more step than there are keys.
pub walk-all_keys :
    (it : MergeIterator) (fuel : ℕ)
    → IsValid it
    → it.current_prefix_index ≡ none
    → it.current_key_index ≡ none
    → length (all_keys it.keys) < fuel
    → walk fuel it ≡ all_keys it.keys
walk-all_keys it fuel v p k h =
    ap₂ (λ a b. walk fuel (there it.keys it.prefixes it.key_set it.prefix_indexes v.filled a b)) p k
    ∙ walk_start it.keys it.prefixes it.key_set it.prefix_indexes v.filled fuel h
