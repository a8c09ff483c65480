-- ===== src/Sync/Exchange/Begins.antt =====
-- server/sync.go: the first rounds of an exchange between two buckets in the same process, and with
-- what is known of the later ones, what comes of it.
use devicedb.Common.{
  ℕ, zero, suc, ◌+◌, ◌-◌, ◌^◌, ◌<◌, ◌≡◌, ◌≢◌, refl, sym, ap, arith, ◌∙◌, subst, Bool, true, false,
  none, some, [], ◌∷◌, ltb, eqb, inl, inr, Bool-cases,
}
use devicedb.Merkle.Nodes.Position.{node_at}
use devicedb.Merkle.Nodes.{left_child}
use devicedb.Merkle.Nodes.InTree.{InTree, node_at_zero, node_at-pos, node_at-lt, InTree-left}
use devicedb.Merkle.Tree.{MerkleTree, hash_at, root_hash, level, node_hash}
use devicedb.Merkle.Tree.Rehash.{Sums}
use devicedb.Merkle.Tree.Valid.{IsValidTree, Sums-of_valid}
use devicedb.Sync.Messages.{
  start, end, handshake, root_hash_compare, left_hash_compare, db_object_push, Effect,
  sync_object_next,
}
use devicedb.Sync.Proxy.{LocalBucket, relay_bucket_proxy, SyncIter}
use devicedb.Sync.Initiator as Initiator
use devicedb.Sync.Initiator.{
  InitiatorSyncSession, new_initiator_sync_session, peek_exploration_queue,
}
use devicedb.Sync.Responder as Responder
use devicedb.Sync.Responder.{new_responder_sync_session}
use devicedb.Sync.Exchange.{Exchange, round, rounds, initiator_turn, responder_turn}
use devicedb.Sync.Exchange.Answers.{
  answering, searching, translate_same, node_hash_in, level-node_at, answers, hash_request,
}
use devicedb.Sync.Exchange.Search.{SameDepth, differ_at, exchange_at, left_at, theirs_answer}
use devicedb.Sync.Exchange.Finds.{Found, search, same_hash, differ_self, differ_apart}

-- The exchange that two new sessions begin.
unfoldable pub begin : LocalBucket → LocalBucket → ℕ → ℕ → Bool → Exchange
begin mine theirs id limit outgoing = record {
  initiator = new_initiator_sync_session id (relay_bucket_proxy mine) limit outgoing;
  responder = new_responder_sync_session (relay_bucket_proxy theirs);
  received = none;
  effects = [];
  sent = none;
}

SameDepth-of_valid :
    (mine theirs : LocalBucket)
    → IsValidTree mine.merkle_tree
    → IsValidTree theirs.merkle_tree
    → theirs.merkle_tree.depth ≡ mine.merkle_tree.depth
    → SameDepth mine.merkle_tree.depth mine theirs
SameDepth-of_valid mine theirs v w e = record {
  depth = refl;
  depth_theirs = e;
  allowed = v.allowed;
  sized = v.sized;
  sized_theirs = w.sized ∙ ap (λ (k : ℕ). 2 ^ k) e;
}

-- The root, by level and position.
root_InTree : (d : ℕ) → 0 < d → InTree d (d - 1) 0
root_InTree d pos = record { j = 0; depth_eq = omega arith; inside = omega arith }

module _ (d : ℕ) (mine theirs : LocalBucket) (same : SameDepth d mine theirs) (pos : 0 < d)
    (id limit : ℕ) (outgoing : Bool) where
  handshaken :
      round
        (relay_bucket_proxy mine)
        (relay_bucket_proxy theirs)
        (begin mine theirs id limit outgoing)
      ≡ record {
        initiator = record {
          session_id = id;
          current_state = handshake;
          max_depth = d;
          their_depth = 0;
          exploration_queue = [];
          exploration_path_limit = limit;
          replicates_outgoing = outgoing;
          current_node_keys = [];
        };
        responder = answering id d (2 ^ (d - 1));
        received = some (record {
          session_id = id;
          message_body =
              devicedb.Sync.Messages.sync_start
                (record { protocol_version = 2; merkle_depth = d; bucket = theirs.name });
          direction = 6;
          node_id = [];
        });
        effects = [];
        sent = some (record {
          session_id = id;
          message_body =
              devicedb.Sync.Messages.sync_start
                (record { protocol_version = 2; merkle_depth = d; bucket = mine.name });
          direction = 5;
          node_id = [];
        });
      }
  unfolding begin round initiator_turn responder_turn new_initiator_sync_session
      new_responder_sync_session Initiator.next_state Initiator.by_state Initiator.on_start
      Responder.next_state Responder.by_state Responder.on_start
  handshaken = rw (same.depth, same.depth_theirs) refl

  -- The initiator has sent the hash of its root, and has that of the other root.
  at_root : Exchange
  at_root =
      record (exchange_at d mine theirs same id (2 ^ (d - 1)) limit outgoing [] root_hash_compare
        (node_at (d - 1) 0 ∷ []) (node_at (d - 1) 0)) {
          sent = some (
              hash_request id (node_at (d - 1) 0)
                (node_hash mine.merkle_tree (node_at (d - 1) 0)).high
                (node_hash mine.merkle_tree (node_at (d - 1) 0)).low);
        }

  opened :
      rounds
        (relay_bucket_proxy mine)
        (relay_bucket_proxy theirs)
        2
        (begin mine theirs id limit outgoing)
      ≡ at_root
  unfolding at_root round initiator_turn Initiator.next_state Initiator.by_state
      Initiator.on_handshake
  opened =
      let tree : MerkleTree = record { depth = d; nodes = mine.merkle_tree.nodes } in
      let root = 2 ^ (d - 1) in
      let least : ltb d d ≡ false = ground arith in
      rw
        (
          handshaken,
          same.depth,
          least,
          translate_same tree d root refl,
          node_at_zero (d - 1),
          answers theirs d same.depth_theirs same.allowed same.sized_theirs id root root
              (node_hash tree root).high (node_hash tree root).low root_pos root_lt,
        )
        refl
    where
      root_pos : 0 < 2 ^ (d - 1)
      root_pos = rw (sym (node_at_zero (d - 1))) (node_at-pos (d - 1) 0)

      root_lt : 2 ^ (d - 1) < 2 ^ d
      root_lt = rw (sym (node_at_zero (d - 1))) (node_at-lt (root_InTree d pos))

  root_hashed :
      node_hash mine.merkle_tree (node_at (d - 1) 0)
      ≡ hash_at mine.merkle_tree.nodes (node_at (d - 1) 0)
  root_hashed =
      node_hash_in mine.merkle_tree _ (omega (arith, same.sized, node_at-lt (root_InTree d pos)))

  root_level : level mine.merkle_tree (node_at (d - 1) 0) ≡ d - (d - 1)
  root_level =
      level-node_at mine.merkle_tree d (d - 1) 0 same.depth same.allowed (root_InTree d pos)

  agreed :
      differ_at mine theirs (node_at (d - 1) 0) ≡ false
      → ((round
            (relay_bucket_proxy mine)
            (relay_bucket_proxy theirs)
            at_root).initiator.current_state
          ≡ end)
        × ((round (relay_bucket_proxy mine) (relay_bucket_proxy theirs) at_root).effects ≡ [])
  unfolding at_root round initiator_turn Initiator.next_state Initiator.by_state
      Initiator.on_root_hash_compare
  agreed h = (rw (root_hashed, h) refl, rw (root_hashed, h) refl)

  -- A tree of one leaf: the root is asked for.
  single :
      differ_at mine theirs (node_at (d - 1) 0) ≡ true
      → d ≡ 1
      → ((round (relay_bucket_proxy mine) (relay_bucket_proxy theirs) at_root).initiator
          ≡ searching id d limit outgoing [] db_object_push (node_at (d - 1) 0 ∷ []))
        × ((round (relay_bucket_proxy mine) (relay_bucket_proxy theirs) at_root).sent
            ≡ some (record {
              session_id = id;
              message_body = sync_object_next (record { node_id = node_at (d - 1) 0 });
              direction = 5;
              node_id = [];
            }))
  unfolding at_root round initiator_turn Initiator.next_state Initiator.by_state
      Initiator.on_root_hash_compare
  single h e =
      let bottom : eqb (d - (d - 1)) d ≡ true = ground arith in
      (
        rw (root_hashed, h, root_level, bottom) refl,
        rw
            (
              root_hashed,
              h,
              root_level,
              bottom,
              translate_same mine.merkle_tree d (node_at (d - 1) 0) same.depth,
            )
            refl,
      )

  deeper :
      (l : ℕ)
      → d ≡ suc (suc l)
      → differ_at mine theirs (node_at (d - 1) 0) ≡ true
      → round (relay_bucket_proxy mine) (relay_bucket_proxy theirs) at_root
        ≡ exchange_at d mine theirs same id
            (2 ^ (d - 1))
            limit
            outgoing
            []
            left_hash_compare
            (node_at (d - 1) 0 ∷ [])
            (node_at l 0)
  unfolding at_root round initiator_turn Initiator.next_state Initiator.by_state
      Initiator.on_root_hash_compare
  deeper l e h =
      let above : d - 1 ≡ suc l = omega arith in
      let t : InTree d (suc l) 0 = subst (λ (k : ℕ). InTree d k 0) above (root_InTree d pos) in
      let left : left_child (node_at (d - 1) 0) ≡ node_at l 0 =
        rw above (left_at d mine theirs same id (2 ^ (d - 1)) limit outgoing [] l 0 [] t) in
      let inner : eqb (d - (d - 1)) d ≡ false = ground arith in
      rw
        (
          root_hashed,
          h,
          root_level,
          inner,
          left,
          translate_same mine.merkle_tree d (node_at l 0) same.depth,
          theirs_answer d mine theirs same id (2 ^ (d - 1)) limit outgoing [] l 0 (InTree-left t),
        )
        refl

module _ (mine theirs : LocalBucket) (v : IsValidTree mine.merkle_tree)
    (w : IsValidTree theirs.merkle_tree)
    (depths : theirs.merkle_tree.depth ≡ mine.merkle_tree.depth) where
  sums_theirs :
      (l q : ℕ) → InTree mine.merkle_tree.depth (suc l) q → Sums theirs.merkle_tree.nodes l q
  sums_theirs l q t =
      Sums-of_valid theirs.merkle_tree w l q (subst (λ (d : ℕ). InTree d (suc l) q) (sym depths) t)

  root_at :
      (tree : MerkleTree)
      → tree.depth ≡ mine.merkle_tree.depth
      → hash_at tree.nodes (node_at (mine.merkle_tree.depth - 1) 0) ≡ root_hash tree
  unfolding root_hash
  root_at tree e = rw (e, node_at_zero (mine.merkle_tree.depth - 1)) refl

  -- Two buckets whose trees have the same depth and different root hashes, and do not change meanwhile:
  -- after finitely many rounds the initiator has sent the request for the objects of a leaf whose hashes
  -- differ, the first of its queue. Its limit of paths is from 1 to 2 ^ 32 - 2, and it can read its own
  -- keys of every leaf.
  pub exchange_finds :
      root_hash mine.merkle_tree ≢ root_hash theirs.merkle_tree
      → ((q : ℕ)
          → InTree mine.merkle_tree.depth zero q
          → (iter : SyncIter) × (mine.get_sync_children (node_at zero q) ≡ some iter)
            × (iter.failed ≡ false))
      → (id limit : ℕ) (outgoing : Bool) → 0 < limit
      → limit + 1 < 2 ^ 32
      → (k : ℕ) × Found mine.merkle_tree.depth mine theirs id (
          rounds
            (relay_bucket_proxy mine)
            (relay_bucket_proxy theirs)
            k
            (begin mine theirs id limit outgoing))
  unfolding at_root
  exchange_finds apart readable id limit outgoing some_room small =
      from (mine.merkle_tree.depth - 1) refl
    where
      same : SameDepth mine.merkle_tree.depth mine theirs
      same = SameDepth-of_valid mine theirs v w depths

      root_differs : differ_at mine theirs (node_at (mine.merkle_tree.depth - 1) 0) ≡ true
      root_differs =
          elim (Bool-cases (differ_at mine theirs (node_at (mine.merkle_tree.depth - 1) 0))) [
            | inl h ↦ h
            | inr h ↦ absurd (
                apart (
                  sym (root_at mine.merkle_tree refl)
                  ∙ same_hash _ _ h
                  ∙ root_at theirs.merkle_tree depths))
          ]

      third :
          (k : ℕ)
          → Found mine.merkle_tree.depth mine theirs id (
              rounds
                (relay_bucket_proxy mine)
                (relay_bucket_proxy theirs)
                (suc k)
                (at_root mine.merkle_tree.depth mine theirs same v.positive id limit outgoing))
          → (k : ℕ) × Found mine.merkle_tree.depth mine theirs id (
              rounds
                (relay_bucket_proxy mine)
                (relay_bucket_proxy theirs)
                k
                (begin mine theirs id limit outgoing))
      third k found = (
        suc (suc (suc k)),
        subst
            (λ (x : Exchange).
              Found mine.merkle_tree.depth mine theirs id
                (rounds (relay_bucket_proxy mine) (relay_bucket_proxy theirs) (suc k) x))
            (sym (opened mine.merkle_tree.depth mine theirs same v.positive id limit outgoing))
            found,
      )

      from :
          (l : ℕ)
          → mine.merkle_tree.depth - 1 ≡ l
          → (k : ℕ) × Found mine.merkle_tree.depth mine theirs id (
              rounds
                (relay_bucket_proxy mine)
                (relay_bucket_proxy theirs)
                k
                (begin mine theirs id limit outgoing))
      from zero e =
          let (asked, message) =
            single mine.merkle_tree.depth mine theirs same v.positive id limit outgoing root_differs
              (omega (arith, v.positive)) in
          third 0 (record {
            position = 0;
            in_tree =
                subst (λ (l : ℕ). InTree mine.merkle_tree.depth l 0) e
                  (root_InTree mine.merkle_tree.depth v.positive);
            asks = ap (λ (s : InitiatorSyncSession). s.current_state) asked;
            first =
                ap (λ (s : InitiatorSyncSession). peek_exploration_queue s) asked
                ∙ ap (λ (l : ℕ). node_at l 0) e;
            sent =
                message
                ∙ ap
                    (λ (l : ℕ). some (record {
                      session_id = id;
                      message_body = sync_object_next (record { node_id = node_at l 0 });
                      direction = 5;
                      node_id = [];
                    }))
                    e;
            apart = differ_apart _ _ (rw e at root_differs);
          })
      from (suc l) e =
          let go =
            deeper mine.merkle_tree.depth mine theirs same v.positive id limit outgoing l
              (omega (arith, v.positive)) root_differs in
          let t =
            subst (λ (k : ℕ). InTree mine.merkle_tree.depth k 0) e
              (root_InTree mine.merkle_tree.depth v.positive) in
          let (k, found) =
            search mine.merkle_tree.depth mine theirs same (Sums-of_valid mine.merkle_tree v)
              sums_theirs id (2 ^ (mine.merkle_tree.depth - 1)) limit outgoing [] small readable
              (3 ^ suc l + 0) l 0 [] (omega arith) (t, rw e at root_differs, tt) (omega arith) in
          third k (
            subst
              (λ (x : Exchange).
                Found mine.merkle_tree.depth mine theirs id
                  (rounds (relay_bucket_proxy mine) (relay_bucket_proxy theirs) k x))
              (sym (
                go
                ∙ ap
                    (λ (n : ℕ).
                      exchange_at mine.merkle_tree.depth mine theirs same id
                        (2 ^ (mine.merkle_tree.depth - 1)) limit outgoing [] left_hash_compare
                        (n ∷ []) (node_at l 0))
                    (ap (λ (k : ℕ). node_at k 0) e)))
              found)

  -- Two buckets whose trees have the same depth and the same root hash: the exchange ends after three
  -- rounds, and the initiator has left its bucket alone.
  pub exchange_agrees :
      root_hash mine.merkle_tree ≡ root_hash theirs.merkle_tree
      → (id limit : ℕ) (outgoing : Bool)
      → ((rounds
            (relay_bucket_proxy mine)
            (relay_bucket_proxy theirs)
            3
            (begin mine theirs id limit outgoing)).initiator.current_state
          ≡ end)
        × ((rounds
              (relay_bucket_proxy mine)
              (relay_bucket_proxy theirs)
              3
              (begin mine theirs id limit outgoing)).effects
            ≡ [])
  unfolding at_root
  exchange_agrees e id limit outgoing =
      let same = SameDepth-of_valid mine theirs v w depths in
      let h : differ_at mine theirs (node_at (mine.merkle_tree.depth - 1) 0) ≡ false =
        rw (root_at mine.merkle_tree refl ∙ e ∙ sym (root_at theirs.merkle_tree depths)) (
          differ_self
            (hash_at theirs.merkle_tree.nodes (node_at (mine.merkle_tree.depth - 1) 0))) in
      let a = agreed mine.merkle_tree.depth mine theirs same v.positive id limit outgoing h in
      let o = opened mine.merkle_tree.depth mine theirs same v.positive id limit outgoing in
      (
        ap
              (λ (x : Exchange).
                (round (relay_bucket_proxy mine) (relay_bucket_proxy theirs)
                  x).initiator.current_state)
              o
            ∙ a.0,
        ap
              (λ (x : Exchange).
                (round (relay_bucket_proxy mine) (relay_bucket_proxy theirs) x).effects)
              o
            ∙ a.1,
      )
