-- ===== src/Clusterio/Tests.antt =====
-- Tests of the merge iterator: three keys under two prefixes, one of them returned twice.
use devicedb.Common.{◌<◌, ◌≡◌, refl, arith, none, some, [], ◌∷◌, length}
use devicedb.Clusterio.MergeIterator.{
  MergeIterator, new_merge_iterator, add_key, next, key_at, walk,
}
use devicedb.Clusterio.MergeIterator.Walk.{IsValid, all_keys, walk-all_keys}
use devicedb.Clusterio.MergeIterator.Adds.{add_key-IsValid}

empty-IsValid : IsValid new_merge_iterator
empty-IsValid = record { filled = λ i h. absurd (omega arith); inside = λ q i e. cc }

abbrev one : MergeIterator
one = add_key new_merge_iterator (97 ∷ []) (97 ∷ 1 ∷ [])

abbrev two : MergeIterator
two = add_key one (98 ∷ []) (98 ∷ 2 ∷ [])

abbrev three : MergeIterator
three = add_key (add_key two (97 ∷ []) (97 ∷ 3 ∷ [])) (98 ∷ []) (97 ∷ 1 ∷ [])

add_key-IsValid_example : IsValid (add_key new_merge_iterator (97 ∷ []) (97 ∷ 1 ∷ []))
add_key-IsValid_example = add_key-IsValid new_merge_iterator empty-IsValid (97 ∷ []) (97 ∷ 1 ∷ [])

three-IsValid : IsValid three
three-IsValid =
    let a = add_key-IsValid new_merge_iterator empty-IsValid (97 ∷ []) (97 ∷ 1 ∷ []) in
    let b = add_key-IsValid one a (98 ∷ []) (98 ∷ 2 ∷ []) in
    add_key-IsValid (add_key two (97 ∷ []) (97 ∷ 3 ∷ []))
      (add_key-IsValid two b (97 ∷ []) (97 ∷ 3 ∷ [])) (98 ∷ []) (97 ∷ 1 ∷ [])

three-start :
    (three.current_prefix_index ≡ none)
    × (three.current_key_index ≡ none)
    × (length (all_keys three.keys) < 10)
unfolding add_key
three-start = (refl, refl, omega arith)

walk-all_keys_example : walk 10 three ≡ all_keys three.keys
walk-all_keys_example =
    walk-all_keys three 10 three-IsValid three-start.0 three-start.1 three-start.2

test_walk : walk 10 three ≡ (some (97 ∷ 1 ∷ []) ∷ some (97 ∷ 3 ∷ []) ∷ some (98 ∷ 2 ∷ []) ∷ [])
unfolding add_key next key_at walk
test_walk = refl
