-- ===== src/Data/Hash.antt =====
-- data/hash.go, and the `Hash` methods of data/dvv.go, data/sibling.go and data/sibling_set.go.
-- MD5 is a parameter: the function that `md5.Sum` computes, from a byte slice to 16 bytes.
pub mod Laws
use Prim.Native.Nat.{bit_xor}
use devicedb.Common.{
  ℕ, zero, suc, ◌+◌, ◌*◌, ◌/◌, ◌%◌, ◌^◌, Bool, Option, none, some, List, [], ◌∷◌, ◌++◌, ◌&&◌, not,
  Bytes, if◌then◌else◌, eqb,
}
use devicedb.Common.Dict.{Dict}
use devicedb.Data.Clock.{Dvv}
use devicedb.Data.Sibling.{Sibling}
use devicedb.Data.SiblingSet.{SiblingSet, Heap}

-- `Hash[0]` is the low word, `Hash[1]` the high one.
pub record Hash : Type 0 where
  pub low : ℕ
  pub high : ℕ

abbrev pub zero_hash : Hash
zero_hash = record { low = 0; high = 0 }

unfoldable pub xor : Hash → Hash → Hash
xor h o = record { low = bit_xor h.low o.low; high = bit_xor h.high o.high }

-- `binary.BigEndian.Uint64` of the bytes `b[i:i+n]`.
be_uint : ℕ → Bytes → ℕ → ℕ
be_uint zero b acc = acc
be_uint (suc n) [] acc = be_uint n [] (acc * 256)
be_uint (suc n) (x ∷ b) acc = be_uint n b (acc * 256 + x)

drop_bytes : ℕ → Bytes → Bytes
drop_bytes zero b = b
drop_bytes (suc n) [] = []
drop_bytes (suc n) (x ∷ b) = drop_bytes n b

-- `binary.BigEndian.PutUint64`.
unfoldable pub put_uint64 : ℕ → Bytes
put_uint64 n =
    (n / 2 ^ 56 % 256)
    ∷ (n / 2 ^ 48 % 256)
    ∷ (n / 2 ^ 40 % 256)
    ∷ (n / 2 ^ 32 % 256)
    ∷ (n / 2 ^ 24 % 256)
    ∷ (n / 2 ^ 16 % 256)
    ∷ (n / 2 ^ 8 % 256)
    ∷ (n % 256)
    ∷ []

-- `Bytes`: the high word first.
unfoldable pub hash_bytes : Hash → Bytes
unfolding put_uint64
hash_bytes h = put_uint64 h.high ++ put_uint64 h.low

module _ (md5 : Bytes → Bytes) where
  unfoldable pub new_hash : Bytes → Hash
  unfolding be_uint drop_bytes
  new_hash input =
      let sum = md5 input in record { low = be_uint 8 (drop_bytes 8 sum) 0; high = be_uint 8 sum 0 }

  -- The loop over the context in `DVV.Hash`, from the hash so far.
  hash_context : Dict Bytes ℕ → Hash → Hash
  hash_context [] hash = hash
  hash_context ((node, count) ∷ vv) hash =
      hash_context vv (xor (xor hash (new_hash node)) (new_hash (put_uint64 count)))

  unfoldable pub hash_dvv : Dvv → Hash
  unfolding hash_context
  hash_dvv c =
      xor (xor (hash_context c.vv zero_hash) (new_hash c.vv_dot.node_id))
        (new_hash (put_uint64 c.vv_dot.count))

  unfoldable pub hash_sibling : Sibling → Hash
  hash_sibling s = elim s.binary_value [
    | none ↦ zero_hash
    | some v ↦ xor (new_hash v) (hash_dvv s.vector_clock)
  ]

  module _ (heap : Heap) where
    hash_siblings : SiblingSet → Hash → Hash
    hash_siblings [] result = result
    hash_siblings (p ∷ s) result = hash_siblings s (xor result (hash_sibling (heap p)))

    -- `SiblingSet.Hash`; `none` is a nil set.
    unfoldable pub hash_set : Option SiblingSet → Bytes → Hash
    unfolding hash_siblings
    hash_set none key = zero_hash
    hash_set (some s) key =
        let result = hash_siblings s zero_hash in
        if not (eqb result.low 0) && not (eqb result.high 0)
        then xor result (new_hash key)
        else result
