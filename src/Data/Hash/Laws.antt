-- ===== src/Data/Hash/Laws.antt =====
-- data/hash.go: hashes form a group under `Xor`, and what the hashes of clocks and sets depend on.
use mathlib.Core.List.{Perm, Permᴰ}
use mathlib.Core.Logic.{∥∥₁_elim}
use native.Mathlib.Nat.{pow-suc, one-le-pow}
use devicedb.Common.{
  ℕ, zero, suc, ◌+◌, ◌*◌, ◌^◌, ◌<◌, ◌≤◌, true, none, some, [], ◌∷◌, ◌≡◌, refl, ◌∙◌, sym, ap, arith,
  Bytes,
}
use devicedb.Common.Dict.{Dict}
use devicedb.Common.Xor.{bit_xor_self, bit_xor_comm, bit_xor_assoc, zero-bit_xor}
use devicedb.Data.Clock.{Dot}
use devicedb.Data.SiblingSet.{SiblingSet, Heap, can_purge}
use devicedb.Data.Hash.{
  Hash, zero_hash, xor, new_hash, be_uint, put_uint64, hash_dvv, hash_context, hash_sibling,
  hash_siblings, hash_set,
}

Hash-set : IsSet Hash
Hash-set = hlevel

pub xor_self : (h : Hash) → xor h h ≡ zero_hash
unfolding xor
xor_self h = ground (arith, bit_xor_self h.low, bit_xor_self h.high)

pub xor_comm : (h o : Hash) → xor h o ≡ xor o h
unfolding xor
xor_comm h o = ground (arith, bit_xor_comm h.low o.low, bit_xor_comm h.high o.high)

pub xor_assoc : (h o k : Hash) → xor (xor h o) k ≡ xor h (xor o k)
unfolding xor
xor_assoc h o k =
    ground (arith, bit_xor_assoc h.low o.low k.low, bit_xor_assoc h.high o.high k.high)

pub zero-xor : (h : Hash) → xor zero_hash h ≡ h
unfolding xor
zero-xor h = ground (arith, zero-bit_xor h.low, zero-bit_xor h.high)

pub xor-zero : (h : Hash) → xor h zero_hash ≡ h
xor-zero h = xor_comm h zero_hash ∙ zero-xor h

-- The last two terms of a sum change places.
pub xor_swap : (h o k : Hash) → xor (xor h o) k ≡ xor (xor h k) o
xor_swap h o k = xor_assoc h o k ∙ ap (xor h) (xor_comm o k) ∙ sym (xor_assoc h k o)

-- What is added twice is gone.
pub xor_cancel : (h o : Hash) → xor (xor h o) o ≡ h
xor_cancel h o = xor_assoc h o o ∙ ap (xor h) (xor_self o) ∙ xor-zero h

-- What is assumed of MD5: it returns bytes.
abbrev pub AllBytes : Bytes → Type 0
AllBytes [] = Unit
AllBytes (x ∷ b) = (x < 256) × AllBytes b

abbrev pub ReturnsBytes : (Bytes → Bytes) → Type 0
ReturnsBytes md5 = (b : Bytes) → AllBytes (md5 b)

be_uint-lt : (n : ℕ) (b : Bytes) (acc : ℕ) → AllBytes b → be_uint n b acc < (acc + 1) * 256 ^ n
unfolding be_uint
be_uint-lt zero b acc h = omega arith
be_uint-lt (suc n) [] acc h = omega (
  arith,
  be_uint-lt n [] (acc * 256) h,
  ap (λ (k : ℕ). (acc + 1) * k) (pow-suc 256 n),
  one-le-pow n 256 (omega arith),
)
be_uint-lt (suc n) (x ∷ b) acc h =
    let room : (acc * 256 + x + 1) * 256 ^ n ≤ (acc + 1) * 256 * 256 ^ n = grind arith in
    omega (
      arith,
      be_uint-lt n b (acc * 256 + x) h.1,
      room,
      ap (λ (k : ℕ). (acc + 1) * k) (pow-suc 256 n),
    )

-- The words of a hash are uint64 values.
pub high-new_hash-lt :
    (md5 : Bytes → Bytes) → ReturnsBytes md5 → (b : Bytes) → (new_hash md5 b).high < 2 ^ 64
unfolding new_hash
high-new_hash-lt md5 r b = omega (arith, be_uint-lt 8 (md5 b) 0 (r b))

-- Two terms of a sum with one between them change places.
xor_exchange : (h m b n : Hash) → xor (xor (xor h m) b) n ≡ xor (xor (xor h n) b) m
xor_exchange h m b n =
    xor_swap (xor h m) b n ∙ ap (λ k. xor k b) (xor_swap h m n) ∙ xor_swap (xor h n) m b

module _ (md5 : Bytes → Bytes) where
  -- Two clocks whose contexts give two nodes each other's count have the same hash, whatever MD5
  -- computes: the hash of a clock does not tie a count to its node.
  pub hash_dvv_exchange :
      (dot : Dot) (a b : Bytes) (m n : ℕ) (vv : Dict Bytes ℕ)
      → hash_dvv md5 (record { vv_dot = dot; vv = (a, m) ∷ (b, n) ∷ vv })
        ≡ hash_dvv md5 (record { vv_dot = dot; vv = (a, n) ∷ (b, m) ∷ vv })
  unfolding hash_dvv
  hash_dvv_exchange dot a b m n vv =
      ap
        (λ k.
          xor (xor (hash_context md5 vv k) (new_hash md5 dot.node_id))
            (new_hash md5 (put_uint64 dot.count)))
        (xor_exchange (xor zero_hash (new_hash md5 a)) (new_hash md5 (put_uint64 m))
          (new_hash md5 b) (new_hash md5 (put_uint64 n)))

  module _ (heap : Heap) where
    hash_siblings_perm :
        {s t : SiblingSet}
        → Permᴰ s t
        → (h : Hash) → hash_siblings md5 heap s h ≡ hash_siblings md5 heap t h
    unfolding hash_siblings
    hash_siblings_perm Permᴰ.nil h = refl
    hash_siblings_perm (Permᴰ.cons {b = b} e p) h =
        rw e (hash_siblings_perm p (xor h (hash_sibling md5 (heap b))))
    hash_siblings_perm (Permᴰ.swap {a' = a'} {b' = b'} {l = l} e f) h =
        rw (e, f)
          (ap (hash_siblings md5 heap l)
            (xor_swap h (hash_sibling md5 (heap b')) (hash_sibling md5 (heap a'))))
    hash_siblings_perm (Permᴰ.trans p q) h = hash_siblings_perm p h ∙ hash_siblings_perm q h

    -- The hash of a set does not depend on the order in which the map is visited.
    pub hash_set_perm :
        {s t : SiblingSet} (key : Bytes)
        → Perm s t
        → hash_set md5 heap (some s) key ≡ hash_set md5 heap (some t) key
    unfolding hash_set
    hash_set_perm key p = ∥∥₁_elim p (Hash-set _ _) (λ q. rw (hash_siblings_perm q zero_hash))

    hash_siblings_purge :
        (s : SiblingSet) (cutoff : ℕ) (h : Hash)
        → can_purge heap s cutoff ≡ true
        → hash_siblings md5 heap s h ≡ h
    unfolding can_purge hash_siblings hash_sibling
    hash_siblings_purge [] cutoff h e = refl
    hash_siblings_purge (p ∷ s) cutoff h e =
        ground (arith, hash_siblings_purge s cutoff h, xor-zero h)

    -- A set that may be purged has the hash of a missing set, so that garbage collection need not
    -- touch the merkle tree.
    pub hash_set_purge :
        (s : SiblingSet) (cutoff : ℕ) (key : Bytes)
        → can_purge heap s cutoff ≡ true
        → hash_set md5 heap (some s) key ≡ hash_set md5 heap none key
    unfolding hash_set
    hash_set_purge s cutoff key e = rw (hash_siblings_purge s cutoff zero_hash e)
