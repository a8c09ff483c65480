-- ===== src/Sync/Scheduler/Valid.antt =====
-- sync/sync_scheduler.go: the calls of the periodic scheduler keep its pointers and its buckets in range.
use devicedb.Common.{
  ℕ, zero, suc, ◌+◌, ◌%◌, ◌<◌, ◌≤◌, ◌≡◌, refl, sym, ap, ◌∙◌, arith, false, Option, none, some, List,
  [], ◌∷◌, ◌++◌, Bytes, length, get_elem?, set, length-append, length-set, ◌==◌, nat_eq, bytes_eq,
  Bool-cases, inl, inr, subst,
}
use devicedb.Common.Dict.{lookup, contains, lookup-insert, lookup-erase}
use devicedb.Sync.Scheduler.{
  Peer, PeriodicSyncScheduler, new_peer, advance_peer, add_peer, has_id, new_queue, remove_peer,
  advance, schedule,
}

-- A peer whose next bucket is one of its buckets, and a store of such peers.
abbrev pub IsReady : Peer → Type 0
IsReady peer = peer.next_bucket < length peer.buckets

abbrev pub AreReady : List Peer → Type 0
AreReady [] = Unit
AreReady (peer ∷ store) = IsReady peer × AreReady store

abbrev pub Within : ℕ → List ℕ → Type 0
Within n [] = Unit
Within n (a ∷ queue) = (a < n) × Within n queue

-- Every pointer of the map and of the queue is to a peer of the store.
pub record IsValid (s : PeriodicSyncScheduler) : Type 0 where
  pub ready : AreReady s.store
  pub queued : Within (length s.store) s.queue
  pub known : (id : Bytes) (a : ℕ) → lookup id s.peers ≡ some a → a < length s.store

abbrev pub id_of : List Peer → ℕ → Bytes
id_of store a = elim (get_elem? store a) [ none ↦ [] | some peer ↦ peer.id ]

pub found :
    (store : List Peer) (a : ℕ)
    → AreReady store
    → a < length store
    → (peer : Peer) × (get_elem? store a ≡ some peer) × IsReady peer
found [] a r h = absurd (omega arith)
found (peer ∷ store) zero (r, _) h = (peer, refl, r)
found (peer ∷ store) (suc a) (_, r) h = found store a r (omega arith)

AreReady-append :
    (store : List Peer) (peer : Peer)
    → AreReady store
    → IsReady peer
    → AreReady (store ++ (peer ∷ []))
AreReady-append [] peer r h = (h, tt)
AreReady-append (x ∷ store) peer (k, r) h = (k, AreReady-append store peer r h)

AreReady-set :
    (store : List Peer) (a : ℕ) (peer : Peer)
    → AreReady store
    → IsReady peer
    → AreReady (set store a peer)
AreReady-set [] a peer r h = tt
AreReady-set (x ∷ store) zero peer (_, r) h = (h, r)
AreReady-set (x ∷ store) (suc a) peer (k, r) h = (k, AreReady-set store a peer r h)

Within-more : (n m : ℕ) (queue : List ℕ) → n ≤ m → Within n queue → Within m queue
Within-more n m [] h w = tt
Within-more n m (a ∷ queue) h (k, w) = (omega arith, Within-more n m queue h w)

Within-append :
    (n : ℕ) (queue : List ℕ) (a : ℕ) → Within n queue → a < n → Within n (queue ++ (a ∷ []))
Within-append n [] a w h = (h, tt)
Within-append n (b ∷ queue) a (k, w) h = (k, Within-append n queue a w h)

pub Within-middle :
    (n : ℕ) (before : List ℕ) (a : ℕ) (after : List ℕ) → Within n (before ++ (a ∷ after)) → a < n
Within-middle n [] a after (h, _) = h
Within-middle n (b ∷ before) a after (_, w) = Within-middle n before a after w

id_of-append :
    (store : List Peer) (peer : Peer) (a : ℕ)
    → a < length store
    → id_of (store ++ (peer ∷ [])) a ≡ id_of store a
id_of-append [] peer a h = absurd (omega arith)
id_of-append (x ∷ store) peer zero h = refl
id_of-append (x ∷ store) peer (suc a) h = id_of-append store peer a (omega arith)

id_of-set :
    (store : List Peer) (b : ℕ) (old peer : Peer) (a : ℕ)
    → get_elem? store b ≡ some old
    → peer.id ≡ old.id
    → id_of (set store b peer) a ≡ id_of store a
id_of-set [] b old peer a e h = refl
id_of-set (x ∷ store) zero old peer zero e h = h ∙ cc
id_of-set (x ∷ store) zero old peer (suc a) e h = refl
id_of-set (x ∷ store) (suc b) old peer zero e h = refl
id_of-set (x ∷ store) (suc b) old peer (suc a) e h = id_of-set store b old peer a e h

-- A valid scheduler in which no peer of the old one has another id.
pub record Follows (s s' : PeriodicSyncScheduler) : Type 0 where
  pub valid : IsValid s'
  pub same_ids : (a : ℕ) → a < length s.store → id_of s'.store a ≡ id_of s.store a

pub add_peer-Follows :
    (s : PeriodicSyncScheduler) (id : Bytes) (buckets : List Bytes)
    → IsValid s
    → 0 < length buckets
    → Follows s (add_peer s id buckets) × ((add_peer s id buckets).queue ≡ s.queue)
unfolding add_peer
add_peer-Follows s id buckets v h = elim (Bool-cases (contains id s.peers)) [
  | inl there ↦ rw there (record { valid = v; same_ids = λ a k. refl }, refl)
  | inr new ↦ rw new (
    record {
      valid = record {
        ready = AreReady-append s.store (new_peer id buckets) v.ready h;
        queued =
            Within-more (length s.store) _ s.queue
              (omega (arith, length-append s.store (new_peer id buckets ∷ []))) v.queued;
        known = λ id' a e.
            rw (length-append s.store (new_peer id buckets ∷ [])) (elim (Bool-cases (id == id')) [
              | inl y ↦
                  let k : some (length s.store) ≡ some a =
                    sym (lookup-insert id id' (length s.store) s.peers ∙ rw y refl) ∙ e in
                  ground (arith, k)
              | inr n ↦
                  let k : lookup id' s.peers ≡ some a =
                    sym (lookup-insert id id' (length s.store) s.peers ∙ rw n refl) ∙ e in
                  let b = v.known id' a k in omega arith
            ]);
      };
      same_ids = λ a k. id_of-append s.store (new_peer id buckets) a k;
    },
    refl,
  )
]

pub schedule-Follows :
    (s : PeriodicSyncScheduler) (id : Bytes)
    → IsValid s
    → Follows s (schedule s id) × ((more : List ℕ) × ((schedule s id).queue ≡ s.queue ++ more))
unfolding schedule
schedule-Follows s id v = go (lookup id s.peers) refl
  where
    append_nil : (queue : List ℕ) → queue ≡ queue ++ []
    append_nil [] = refl
    append_nil (a ∷ queue) = ap (λ q. a ∷ q) (append_nil queue)

    go :
        (o : Option ℕ)
        → lookup id s.peers ≡ o
        → Follows s (schedule s id) × ((more : List ℕ) × ((schedule s id).queue ≡ s.queue ++ more))
    go none e =
        rw (schedule, e) (record { valid = v; same_ids = λ a k. refl }, ([], append_nil s.queue))
    go (some b) e =
        rw (schedule, e)
          (
            record {
              valid = record {
                ready = v.ready;
                queued = Within-append (length s.store) s.queue b v.queued (v.known id b e);
                known = v.known;
              };
              same_ids = λ a k. refl;
            },
            (b ∷ [], refl),
          )

new_queue-Within :
    (store : List Peer) (id : Bytes) (n : ℕ) (queue : List ℕ)
    → Within n queue
    → Within n (new_queue store id queue)
unfolding new_queue
new_queue-Within store id n [] w = tt
new_queue-Within store id n (a ∷ queue) (h, w) = elim (Bool-cases (has_id store id a)) [
  | inl y ↦ rw y (new_queue-Within store id n queue w)
  | inr z ↦ rw z (h, new_queue-Within store id n queue w)
]

remove_peer-Follows :
    (s : PeriodicSyncScheduler) (id : Bytes) → IsValid s → Follows s (remove_peer s id)
unfolding remove_peer
remove_peer-Follows s id v = record {
  valid = record {
    ready = v.ready;
    queued = new_queue-Within s.store id (length s.store) s.queue v.queued;
    known = λ id' a e. v.known id' a (ground (arith, lookup-erase id id' s.peers, e));
  };
  same_ids = λ a k. refl;
}

pub advance-Follows :
    (s : PeriodicSyncScheduler) (b : ℕ) (rest : List ℕ)
    → IsValid s
    → s.queue ≡ b ∷ rest
    → (s' : PeriodicSyncScheduler) × (advance s ≡ some s') × Follows s s' × (s'.queue ≡ rest)
unfolding advance advance_peer
advance-Follows s b rest v e =
    let (h, w) = subst (Within (length s.store)) e v.queued in
    let (peer, here, r) = found s.store b v.ready h in
    let moved : Peer = record peer { next_bucket = (peer.next_bucket + 1) % length peer.buckets } in
    (
      record s { store = set s.store b moved; queue = rest },
      advanced peer here r,
      record {
        valid = record {
          ready = AreReady-set s.store b moved v.ready (turned peer r);
          queued = subst (λ n. Within n rest) (sym (length-set s.store b moved)) w;
          known = λ id a k. subst (λ n. a < n) (sym (length-set s.store b moved)) (v.known id a k);
        };
        same_ids = λ a k. id_of-set s.store b peer moved a here refl;
      },
      refl,
    )
  where
    turned :
        (peer : Peer)
        → IsReady peer
        → (peer.next_bucket + 1) % length peer.buckets < length peer.buckets
    turned peer r = omega arith

    advanced :
        (peer : Peer)
        → get_elem? s.store b ≡ some peer
        → IsReady peer
        → advance s
          ≡ some (record s {
            store =
                set s.store b
                  (record peer { next_bucket = (peer.next_bucket + 1) % length peer.buckets });
            queue = rest;
          })
    advanced peer here r =
        let some_buckets : (length peer.buckets == 0) ≡ false = ground arith in
        rw (advance, e, here, advance_peer, some_buckets) refl
