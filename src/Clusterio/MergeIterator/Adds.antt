-- ===== src/Clusterio/MergeIterator/Adds.antt =====
-- clusterio/sibling_set_merge_iterator.go: `AddKey` keeps an iterator valid.
use mathlib.Core.Bool.{false≢true}
use devicedb.Common.{
  ℕ, zero, suc, ◌<◌, ◌≡◌, refl, sym, ap, subst, ◌∙◌, arith, true, false, Option, none, some, List,
  [], ◌∷◌, ◌++◌, Bytes, length, get_or, set, ◌==◌, nat_eq, bytes_eq, bytes_eqb_iff, Bool-cases, inl,
  inr, eqb_iff, length-append, length-set, get_or-set_self, get_or-set_ne,
}
use devicedb.Common.Dict.{Dict, lookup, contains, insert, lookup-insert}
use devicedb.Clusterio.MergeIterator.{MergeIterator, with_prefix, index_of, add_key}
use devicedb.Clusterio.MergeIterator.Walk.{IsValid}

get_or-append_left :
    {A : Type 0} (xs ys : List A) (i : ℕ) (z : A)
    → i < length xs
    → get_or (xs ++ ys) i z ≡ get_or xs i z
get_or-append_left [] ys i z h = absurd (omega arith)
get_or-append_left (x ∷ xs) ys zero z h = refl
get_or-append_left (x ∷ xs) ys (suc i) z h = get_or-append_left xs ys i z (omega arith)

abbrev with_key : MergeIterator → ℕ → Bytes → MergeIterator
with_key it i key = record it { keys = set it.keys i (get_or it.keys i [] ++ (key ∷ [])) }

with_key-IsValid :
    (it : MergeIterator) (i : ℕ) (key : Bytes)
    → i < length it.keys
    → ((j : ℕ) → j < length it.keys → (i == j) ≡ false → 0 < length (get_or it.keys j []))
    → ((q : Bytes) (j : ℕ) → lookup q it.prefix_indexes ≡ some j → j < length it.keys)
    → IsValid (with_key it i key)
with_key-IsValid it i key small others inside =
    let row = get_or it.keys i [] ++ (key ∷ []) in
    let sized = length-set it.keys i row in
    record {
      filled = λ j h. elim (Bool-cases (i == j)) [
        | inl y ↦
            rw (← (eqb_iff i j).0 y, get_or-set_self it.keys i row [] small)
              (omega (arith, length-append (get_or it.keys i []) (key ∷ [])))
        | inr z ↦
            rw (get_or-set_ne it.keys i j row [] (λ e. false≢true (sym z ∙ (eqb_iff i j).1 e)))
              (others j (omega (arith, sized)) z)
      ];
      inside = λ q j e. omega (arith, sized, inside q j e);
    }

index_known :
    (prefix : Bytes) (d : Dict Bytes ℕ) (i : ℕ) → lookup prefix d ≡ some i → index_of prefix d ≡ i
index_known prefix d i e = ap (λ (o : Option ℕ). elim o as (λ _. ℕ) [ none ↦ 0 | some i ↦ i ]) e

lookup_known :
    (prefix : Bytes) (d : Dict Bytes ℕ)
    → contains prefix d ≡ true
    → (i : ℕ) × (lookup prefix d ≡ some i)
lookup_known prefix d h = go (lookup prefix d) refl
  where
    go : (o : Option ℕ) → lookup prefix d ≡ o → (i : ℕ) × (lookup prefix d ≡ some i)
    go none e = absurd (ground (arith, e, h))
    go (some i) e = (i, e)

module _ (it : MergeIterator) (v : IsValid it) (prefix key : Bytes) where
  abbrev wider : MergeIterator
  wider = record it {
    key_set = insert key true it.key_set;
    prefix_indexes = insert prefix (length it.keys) it.prefix_indexes;
    keys = it.keys ++ ([] ∷ []);
    prefixes = it.prefixes ++ (prefix ∷ []);
  }

  wider_inside :
      (q : Bytes) (j : ℕ)
      → lookup q (insert prefix (length it.keys) it.prefix_indexes) ≡ some j
      → j < length (it.keys ++ ([] ∷ []))
  wider_inside q j e =
      let longer = length-append it.keys ([] ∷ []) in
      let found = sym (lookup-insert prefix q (length it.keys) it.prefix_indexes) ∙ e in
      elim (Bool-cases (prefix == q)) [
        | inl y ↦ ground (arith, longer, found, y)
        | inr z ↦ ground (arith, longer, found, z, v.inside q j)
      ]

  wider_index : index_of prefix wider.prefix_indexes ≡ length it.keys
  wider_index = index_known prefix wider.prefix_indexes (length it.keys) (
      lookup-insert prefix prefix (length it.keys) it.prefix_indexes
      ∙ rw ((bytes_eqb_iff prefix prefix).1 refl) refl)

  wider-IsValid : IsValid (with_key wider (length it.keys) key)
  wider-IsValid =
      let longer = length-append it.keys ([] ∷ []) in
      with_key-IsValid wider (length it.keys) key (omega (arith, longer))
        (λ j h z.
          let small : j < length it.keys = ground (arith, longer) in
          rw (get_or-append_left it.keys ([] ∷ []) j [] small) (v.filled j small))
        (λ q j e. wider_inside q j e)

  -- `AddKey` keeps every row filled and every prefix on a row.
  pub add_key-IsValid : IsValid (add_key it prefix key)
  unfolding add_key with_prefix
  add_key-IsValid = elim (Bool-cases (contains key it.key_set)) [
    | inl y ↦ rw y v
    | inr z ↦ elim (Bool-cases (contains prefix it.prefix_indexes)) [
      | inl seen ↦
          let (i, e) = lookup_known prefix it.prefix_indexes seen in
          rw (z, seen, index_known prefix it.prefix_indexes i e)
            (with_key-IsValid (record it { key_set = insert key true it.key_set }) i key
              (v.inside prefix i e) (λ j h _. v.filled j h) v.inside)
      | inr new ↦
          rw (z, new) (subst (λ i. IsValid (with_key wider i key)) (sym wider_index) wider-IsValid)
    ]
  ]
