-- ===== src/Clusterio/MergeIterator.antt =====
-- clusterio/sibling_set_merge_iterator.go: the keys that several nodes returned for some prefixes,
-- each once, and the walk over them. An index of -1 is `none`. The merger that gives the values and
-- `sort.Strings` are parameters. The positions in `prefix_indexes` are positions in `keys`, so no
-- index is out of range.
pub mod Walk
pub mod Adds
use devicedb.Common.{
  ℕ, zero, suc, ◌+◌, Bool, true, false, Option, none, some, List, [], ◌∷◌, ◌++◌, ◌||◌, ◌&&◌, not,
  Bytes, ltb, leb, if◌then◌else◌, length, get_or, set, ◌==◌, nat_eq, bytes_eq,
}
use devicedb.Common.Dict.{Dict, lookup, contains, insert}
use devicedb.Data.SiblingSet.{SiblingSet}

pub record MergeIterator : Type 0 where
  pub keys : List (List Bytes)
  pub prefixes : List Bytes
  pub key_set : Dict Bytes Bool
  pub prefix_indexes : Dict Bytes ℕ
  pub current_prefix_index : Option ℕ
  pub current_key_index : Option ℕ

abbrev pub new_merge_iterator : MergeIterator
new_merge_iterator = record {
  keys = [];
  prefixes = [];
  key_set = [];
  prefix_indexes = [];
  current_prefix_index = none;
  current_key_index = none;
}

-- The prefix's list of keys, made if there is none.
pub with_prefix : MergeIterator → Bytes → MergeIterator
with_prefix it prefix = if contains prefix it.prefix_indexes then it else record it {
  prefix_indexes = insert prefix (length it.keys) it.prefix_indexes;
  keys = it.keys ++ ([] ∷ []);
  prefixes = it.prefixes ++ (prefix ∷ []);
}

abbrev pub index_of : Bytes → Dict Bytes ℕ → ℕ
index_of prefix d = elim (lookup prefix d) [ none ↦ 0 | some i ↦ i ]

unfoldable pub add_key : MergeIterator → Bytes → Bytes → MergeIterator
unfolding with_prefix
add_key it prefix key =
    if contains key it.key_set
    then it
    else (let it' = with_prefix (record it { key_set = insert key true it.key_set }) prefix in
        let i = index_of prefix it'.prefix_indexes in
        record it' { keys = set it'.keys i (get_or it'.keys i [] ++ (key ∷ [])) })

sort_rows : (List Bytes → List Bytes) → List (List Bytes) → List (List Bytes)
sort_rows sort [] = []
sort_rows sort (row ∷ rows) = sort row ∷ sort_rows sort rows

unfoldable pub sort_keys : (List Bytes → List Bytes) → MergeIterator → MergeIterator
unfolding sort_rows
sort_keys sort it = record it { keys = sort_rows sort it.keys }

-- `currentKeyIndex++`.
abbrev pub increment : Option ℕ → ℕ
increment none = 0
increment (some i) = i + 1

abbrev pub at_least_zero : Option ℕ → ℕ
at_least_zero none = 0
at_least_zero (some i) = i

unfoldable pub next : MergeIterator → Bool × MergeIterator
next it =
    let p = at_least_zero it.current_prefix_index in
    let started = record it { current_prefix_index = some p } in
    if not (ltb p (length it.keys))
    then (false, started)
    else (let k = increment it.current_key_index in
        if leb (length (get_or it.keys p [])) k
        then (
          ltb (p + 1) (length it.keys) && ltb 0 (length (get_or it.keys (p + 1) [])),
          record it { current_prefix_index = some (p + 1); current_key_index = some 0 },
        )
        else (true, record it { current_prefix_index = some p; current_key_index = some k }))

-- `Prefix`; nil is none.
unfoldable pub prefix_at : MergeIterator → Option Bytes
prefix_at it = elim it.current_prefix_index [
  | none ↦ none
  | some p ↦ if leb (length it.keys) p then none else some (get_or it.prefixes p [])
]

-- `Key`; nil is none. Without a first `Next` the indices are -1 together.
unfoldable pub key_at : MergeIterator → Option Bytes
key_at it = elim it.current_prefix_index [
  | none ↦ none
  | some p ↦
      let k = at_least_zero it.current_key_index in
      if leb (length it.keys) p
      then none
      else (if leb (length (get_or it.keys p [])) k
          then none
          else some (get_or (get_or it.keys p []) k []))
]

unfoldable pub value_at : (Bytes → Option SiblingSet) → MergeIterator → Option SiblingSet
unfolding key_at
value_at get it = elim (key_at it) [ none ↦ none | some key ↦ get key ]

-- What a client reads: a key after every `Next` that says true, at most `fuel` of them.
unfoldable pub walk : ℕ → MergeIterator → List (Option Bytes)
walk zero it = []
walk (suc fuel) it =
    let (more, it') = next it in let rest = walk fuel it' in if more then key_at it' ∷ rest else []
