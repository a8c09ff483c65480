-- ===== src/Merkle/Queue.antt =====
-- merkle/merkle.go: the ring buffer `queue`, and the first-in first-out queue that it implements.
use native.Mathlib.Numerals.{add-one}
use devicedb.Common.{
  ℕ, zero, suc, ◌+◌, ◌-◌, ◌%◌, ◌^◌, ◌≤◌, ◌<◌, ◌≡◌, refl, ap, ap₂, arith, false, List, [], ◌∷◌, ◌++◌,
  leb, eqb, if◌then◌else◌, length, get_or, set, replicate, length-set, length-replicate,
  get_or-set_self, get_or-set_ne,
}

-- The Go field `q` is `buf`.
pub record Queue : Type 0 where
  pub buf : List ℕ
  pub head : ℕ
  pub size : ℕ

unfoldable pub new_queue : ℕ → Queue
new_queue capacity = record { buf = replicate capacity 0; head = 0; size = 0 }

-- `head + size` is a sum of uint32, which wraps.
unfoldable pub enqueue : Queue → ℕ → Queue
enqueue q n =
    if eqb q.size (length q.buf)
    then q
    else (let i = (q.head + q.size) % 2 ^ 32 in
        let i' : ℕ = if leb (length q.buf) i then i - length q.buf else i in
        record q { buf = set q.buf i' n; size = q.size + 1 })

unfoldable pub dequeue : Queue → ℕ × Queue
dequeue q =
    if eqb q.size 0
    then (0, q)
    else (let head' = q.head + 1 in
        (
          get_or q.buf q.head 0,
          record q { head = if leb (length q.buf) head' then 0 else head'; size = q.size - 1 },
        ))

-- The head and the size are in range, and their sum does not wrap.
pub record IsValid (q : Queue) : Type 0 where
  pub fits : q.size ≤ length q.buf
  pub inside : q.head ≤ length q.buf - 1
  pub small : length q.buf ≤ 2 ^ 31

-- An index one time round the buffer.
abbrev wrap : ℕ → ℕ → ℕ
wrap cap i = if leb cap i then i - cap else i

-- The `n` entries from index `h` on, going round at the end of the buffer.
abbrev pub window : List ℕ → ℕ → ℕ → ℕ → List ℕ
window buf cap h zero = []
window buf cap h (suc n) = get_or buf h 0 ∷ window buf cap (if leb cap (h + 1) then 0 else h + 1) n

window-pos :
    (buf : List ℕ) (cap h n : ℕ)
    → 0 < n
    → window buf cap h n
      ≡ get_or buf h 0 ∷ window buf cap (if leb cap (h + 1) then 0 else h + 1) (n - 1)
window-pos buf cap h zero p = absurd (omega arith)
window-pos buf cap h (suc n) p = ap (λ k. window buf cap h (suc k)) (omega arith)

-- The queue's entries, the oldest first.
abbrev pub contents : Queue → List ℕ
contents q = window q.buf (length q.buf) q.head q.size

-- A write just past a window extends it by that entry.
window-set :
    (buf : List ℕ) (cap x n h i : ℕ)
    → cap ≤ length buf
    → h < cap
    → n < cap
    → i ≡ wrap cap (h + n)
    → window (set buf i x) cap h (suc n) ≡ window buf cap h n ++ (x ∷ [])
window-set buf cap x zero h i hs hh hn e =
    let e' : i ≡ h = ground arith in rw (e', get_or-set_self buf h x 0 (omega arith))
window-set buf cap x (suc n) h i hs hh hn e = ap₂ ◌∷◌ (get_or-set_ne buf i h x 0 (ground arith)) (
    window-set buf cap x n (if leb cap (h + 1) then 0 else h + 1) i hs (ground arith) (omega arith)
      (ground arith))

pub enqueue-IsValid : {q : Queue} (n : ℕ) → IsValid q → IsValid (enqueue q n)
unfolding enqueue
enqueue-IsValid {q} n v =
    ground (arith, length-set q.buf (wrap (length q.buf) ((q.head + q.size) % 2 ^ 32)) n)

pub dequeue-IsValid : {q : Queue} → IsValid q → IsValid (dequeue q).1
unfolding dequeue
dequeue-IsValid v = ground arith

pub new_queue-IsValid : (capacity : ℕ) → capacity ≤ 2 ^ 31 → IsValid (new_queue capacity)
unfolding new_queue
new_queue-IsValid capacity small = omega (arith, length-replicate {A = ℕ} capacity 0)

-- While there is room in a valid queue, of at most 2 ^ 31 slots, `Enqueue` adds at the end of the queue.
pub contents-enqueue :
    {q : Queue} (n : ℕ)
    → IsValid q
    → q.size < length q.buf
    → contents (enqueue q n) ≡ contents q ++ (n ∷ [])
unfolding enqueue
contents-enqueue {q} n v h =
    let i = wrap (length q.buf) (q.head + q.size) in
    let no_wrap : (q.head + q.size) % 2 ^ 32 ≡ q.head + q.size = omega (arith, v.small, v.inside) in
    let e : eqb q.size (length q.buf) ≡ false = ground arith in
    rw (e, no_wrap)
      (rw (length-set q.buf i n, add-one)
        (window-set q.buf (length q.buf) n q.size q.head i (omega arith) (omega arith) h refl))

-- `Dequeue` takes the first entry off a valid queue that has one.
pub contents-dequeue :
    {q : Queue} → IsValid q → 0 < q.size → contents q ≡ (dequeue q).0 ∷ contents (dequeue q).1
unfolding dequeue
contents-dequeue {q} v h =
    let e : eqb q.size 0 ≡ false = ground arith in
    rw e (window-pos q.buf (length q.buf) q.head q.size h)

length-window : (buf : List ℕ) (cap h n : ℕ) → length (window buf cap h n) ≡ n
length-window buf cap h zero = refl
length-window buf cap h (suc n) =
    ap suc (length-window buf cap (if leb cap (h + 1) then 0 else h + 1) n)

pub length-contents : (q : Queue) → length (contents q) ≡ q.size
length-contents q = length-window q.buf (length q.buf) q.head q.size

-- `Dequeue` makes room.
pub dequeue_room :
    {q : Queue} → IsValid q → 0 < q.size → (dequeue q).1.size < length (dequeue q).1.buf
unfolding dequeue
dequeue_room v h = ground arith

pub size-enqueue :
    (q : Queue) (n : ℕ)
    → q.size < length q.buf
    → ((enqueue q n).size ≡ q.size + 1) × (length (enqueue q n).buf ≡ length q.buf)
unfolding enqueue
size-enqueue q n h =
    ground (arith, length-set q.buf (wrap (length q.buf) ((q.head + q.size) % 2 ^ 32)) n)
