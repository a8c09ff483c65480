-- ===== src/Sync/Exchange/Transfer.antt =====
-- server/sync.go: the rounds in which the objects of one node are transferred.
use mathlib.Core.List.{append_assoc}
use devicedb.Common.{
  any, ◌==◌, ◌&&◌, ◌||◌, not, inl, inr, Bool-cases, ◌%◌, ◌^◌, ℕ, zero, suc, ◌+◌, ◌≡◌, refl, ap,
  arith, ◌∙◌, Bool, true, false, Option, none, some, List, [], ◌∷◌, ◌++◌, Bytes, eqb, length,
  if◌then◌else◌, bytes_eq,
}
use devicedb.Common.Dict.{Dict, erase, keys, contains, insert, lookup-insert, lookup-erase}
use devicedb.Data.SiblingSet.{SiblingSet}
use devicedb.Sync.Messages.{
  db_object_push, right_hash_compare, hash_compare, sync_object_next, end, Effect, merged, forgot,
  sync_push_done, SyncMessageWrapper, MessageBody,
}
use devicedb.Sync.Proxy.{BucketProxy, SyncIter, release}
use devicedb.Sync.Initiator as Initiator
use devicedb.Sync.Initiator.{InitiatorSyncSession, row_keys}
use devicedb.Sync.Responder as Responder
use devicedb.Sync.Responder.{ResponderSyncSession}
use devicedb.Sync.Exchange.{Exchange, round, rounds, initiator_turn, responder_turn, answer}
use devicedb.Sync.Exchange.Search.{request_of}

abbrev pub Row : Type 0
Row = Bytes × Option SiblingSet

abbrev pub merges : List Row → List Effect
merges [] = []
merges ((key, value) ∷ rows) = merged key value ∷ merges rows

-- The keys that are left of a set once those of the rows are gone.
abbrev pub not_among : List Row → Dict Bytes Bool → Dict Bytes Bool
not_among [] known = known
not_among ((key, _) ∷ rows) known = not_among rows (erase key known)

abbrev pub response_message : ℕ → MessageBody → SyncMessageWrapper
response_message id body = record {
  session_id = id;
  message_body = body;
  direction = 6;
  node_id = [];
}

none_left :
    (queue : List ℕ) → length queue ≡ 1 → eqb (length (Initiator.rest_of queue) % 2 ^ 32) 0 ≡ true
none_left [] h = absurd (omega arith)
none_left (n ∷ []) h = refl
none_left (n ∷ m ∷ queue) h = absurd (omega arith)

rounds-suc :
    (mine theirs : BucketProxy) (k : ℕ) (e : Exchange)
    → rounds mine theirs (suc k) e ≡ round mine theirs (rounds mine theirs k e)
rounds-suc mine theirs zero e = refl
rounds-suc mine theirs (suc k) e = rounds-suc mine theirs k (round mine theirs e)

-- What does not change while the objects of a node are sent: the fields of the two sessions, and what
-- the responder's iterator reports after Release.
pub record Pushing : Type 0 where
  pub id : ℕ
  pub max_depth : ℕ
  pub their_depth : ℕ
  pub queue : List ℕ
  pub limit : ℕ
  pub outgoing : Bool
  pub node : ℕ
  pub depth_of_responder : ℕ
  pub depth_of_initiator : ℕ
  pub released : Bool

abbrev pub pulling : Pushing → Dict Bytes Bool → InitiatorSyncSession
pulling p known = record {
  session_id = p.id;
  current_state = db_object_push;
  max_depth = p.max_depth;
  their_depth = p.their_depth;
  exploration_queue = p.queue;
  exploration_path_limit = p.limit;
  replicates_outgoing = p.outgoing;
  current_node_keys = known;
}

-- The responder is at the node that the initiator asks for.
abbrev pub sending : BucketProxy → Pushing → SyncIter → ResponderSyncSession
sending mine p iter = record {
  session_id = p.id;
  current_state = db_object_push;
  node = p.node;
  max_depth = p.depth_of_responder;
  their_depth = p.depth_of_initiator;
  iter = some iter;
  current_iteration_node =
      mine.merkle_tree.translate_node (Initiator.first_of p.queue) p.their_depth;
}

-- The exchange with the rows that the responder has not sent, the message on its way to the initiator,
-- and what was done so far.
abbrev pub pushing :
    BucketProxy → Pushing → Dict Bytes Bool → SyncIter → MessageBody → List Effect → Exchange
pushing mine p known iter body effects = record {
  initiator = pulling p known;
  responder = sending mine p iter;
  received = some (response_message p.id body);
  effects = effects;
  sent = some (record {
    session_id = p.id;
    message_body = sync_object_next (record {
      node_id = mine.merkle_tree.translate_node (Initiator.first_of p.queue) p.their_depth;
    });
    direction = 5;
    node_id = [];
  });
}

-- The two sessions when the initiator turns to a leaf at the end of RIGHT_HASH_COMPARE: it digs, and the
-- responder, which has sent no objects yet, answers.
abbrev pub waiting : Pushing → ℕ → ResponderSyncSession
waiting p last = record {
  session_id = p.id;
  current_state = hash_compare;
  node = p.node;
  max_depth = p.depth_of_responder;
  their_depth = p.depth_of_initiator;
  iter = none;
  current_iteration_node = last;
}

unfoldable pub opening : BucketProxy → BucketProxy → Pushing → Dict Bytes Bool → ℕ → Exchange
opening mine theirs p before last =
    answer theirs (waiting p last)
      (request_of
        (Initiator.dig mine (record (pulling p before) { current_state = right_hash_compare })))
      []

-- Is a key among those of some rows?
abbrev pub has_key : List Row → Bytes → Bool
has_key rows k = any (λ r. r.0 == k) rows

any-keys : (k : Bytes) (d : Dict Bytes Bool) → any (λ j. j == k) (keys d) ≡ contains k d
any-keys k [] = refl
any-keys k ((j, b) ∷ d) = ground (arith, any-keys k d)

contains-row_keys :
    (k : Bytes) (rows : List Row) (d : Dict Bytes Bool)
    → contains k (row_keys rows d) ≡ (has_key rows k || contains k d)
unfolding row_keys
contains-row_keys k [] d = refl
contains-row_keys k ((j, v) ∷ rows) d =
    contains-row_keys k rows (insert j true d) ∙ ground (arith, lookup-insert j k true d)

contains-not_among :
    (k : Bytes) (rows : List Row) (d : Dict Bytes Bool)
    → contains k (not_among rows d) ≡ (contains k d && not (has_key rows k))
contains-not_among k [] d = ground arith
contains-not_among k ((j, v) ∷ rows) d =
    contains-not_among k rows (erase j d) ∙ ground (arith, lookup-erase j k d)

module _ (mine theirs : BucketProxy) (quiet : mine.merkle_tree.error ≡ false)
    (quiet_theirs : theirs.merkle_tree.error ≡ false)
    (merges_fine : (key : Bytes) (value : Option SiblingSet) → mine.merge key value ≡ false)
    (p : Pushing) where
  abbrev left : List Row → SyncIter
  left rows = record { rows = rows; failed = false; failed_released = p.released }

  here :
      eqb
        (mine.merkle_tree.translate_node (Initiator.first_of p.queue) p.their_depth)
        (mine.merkle_tree.translate_node (Initiator.first_of p.queue) p.their_depth)
      ≡ true
  here = ground arith

  one_object :
      (known : Dict Bytes Bool) (row next : Row) (rows : List Row) (effects : List Effect)
      → round mine theirs
          (pushing mine p known (left (next ∷ rows)) (Responder.push_object row) effects)
        ≡ pushing mine p
            (erase row.0 known)
            (left rows)
            (Responder.push_object next)
            (effects ++ (merged row.0 row.1 ∷ []))
  unfolding round initiator_turn responder_turn Initiator.next_state Initiator.by_state
      Initiator.on_db_object_push Responder.next_state Responder.by_state
      Responder.on_db_object_push Initiator.take_object
  one_object known row next rows effects =
      rw (quiet, merges_fine row.0 row.1, quiet_theirs, here) refl

  last_object :
      (known : Dict Bytes Bool) (row : Row) (effects : List Effect)
      → round mine theirs (pushing mine p known (left []) (Responder.push_object row) effects)
        ≡ pushing mine p
            (erase row.0 known)
            (release (left []))
            sync_push_done
            (effects ++ (merged row.0 row.1 ∷ []))
  unfolding round initiator_turn responder_turn Initiator.next_state Initiator.by_state
      Initiator.on_db_object_push Responder.next_state Responder.by_state
      Responder.on_db_object_push Initiator.take_object
  last_object known row effects = rw (quiet, merges_fine row.0 row.1, quiet_theirs, here) refl

  all_objects :
      (rows : List Row) (row : Row) (known : Dict Bytes Bool) (effects : List Effect)
      → rounds mine theirs
          (suc (length rows))
          (pushing mine p known (left rows) (Responder.push_object row) effects)
        ≡ pushing mine p
            (not_among (row ∷ rows) known)
            (release (left []))
            sync_push_done
            (effects ++ merges (row ∷ rows))
  all_objects [] (key, value) known effects = last_object known (key, value) effects
  all_objects ((key', value') ∷ rows) (key, value) known effects =
      ap (rounds mine theirs (suc (length rows)))
        (one_object known (key, value) (key', value') rows effects)
      ∙ all_objects rows (key', value') (erase key known) (effects ++ (merged key value ∷ []))
      ∙ ap
          (pushing mine p (not_among ((key, value) ∷ (key', value') ∷ rows) known)
            (release (left [])) sync_push_done)
          (append_assoc effects (merged key value ∷ []) (merges ((key', value') ∷ rows)))

  -- The end of the last node of the queue.
  node_ends :
      (known : Dict Bytes Bool) (effects : List Effect) (iter : SyncIter)
      → length p.queue ≡ 1
      → ((round mine theirs
            (pushing mine p known iter sync_push_done effects)).initiator.current_state
          ≡ end)
        × ((round mine theirs (pushing mine p known iter sync_push_done effects)).effects
            ≡ effects ++ (if p.outgoing then [] else (forgot (keys known) ∷ [])))
  unfolding round initiator_turn Initiator.next_state Initiator.by_state Initiator.on_db_object_push
      Initiator.node_done Initiator.next_node
  node_ends known effects iter one =
      let empty : eqb (length (Initiator.rest_of p.queue) % 2 ^ 32) 0 ≡ true =
        none_left p.queue one in
      elim (Bool-cases p.outgoing) [
        | inl o ↦ (rw (quiet, o, empty) refl, rw (quiet, o, empty) refl)
        | inr o ↦ elim (Bool-cases (mine.forget (keys known))) [
          | inl f ↦ (rw (quiet, o, f) refl, rw (quiet, o, f) refl)
          | inr f ↦ (rw (quiet, o, f, empty) refl, rw (quiet, o, f, empty) refl)
        ]
      ]

  pushed_all :
      (rows : List Row) (row : Row) (known : Dict Bytes Bool)
      → length p.queue ≡ 1
      → ((rounds mine theirs (length rows + 2) (
            pushing mine p known
              (left rows)
              (Responder.push_object row)
              [])).initiator.current_state
          ≡ end)
        × ((rounds mine theirs
              (length rows + 2)
              (pushing mine p known (left rows) (Responder.push_object row) [])).effects
            ≡ merges (row ∷ rows)
              ++ (if p.outgoing then [] else (forgot (keys (not_among (row ∷ rows) known)) ∷ [])))
  pushed_all rows row known one =
      let ends =
        node_ends (not_among (row ∷ rows) known) (merges (row ∷ rows)) (release (left [])) one in
      let e : rounds mine theirs (length rows + 2)
            (pushing mine p known (left rows) (Responder.push_object row) [])
          ≡ round mine theirs (
              pushing mine p (not_among (row ∷ rows) known) (release (left [])) sync_push_done
                (merges (row ∷ rows))) =
        ap
          (λ (k : ℕ).
            rounds mine theirs k (pushing mine p known (left rows) (Responder.push_object row) []))
          {x = length rows + 2} {y = suc (suc (length rows))} (omega arith)
        ∙ rounds-suc mine theirs (suc (length rows))
            (pushing mine p known (left rows) (Responder.push_object row) [])
        ∙ ap (round mine theirs) (all_objects rows row known []) in
      (
        ap (λ (x : Exchange). x.initiator.current_state) e ∙ ends.0,
        ap (λ (x : Exchange). x.effects) e ∙ ends.1,
      )

  opened_as :
      (b : Bool) (own : SyncIter) (before : Dict Bytes Bool) (last : ℕ) (row : Row)
      (rows : List Row)
      → length p.queue ≡ 1
      → mine.merkle_tree.level (Initiator.first_of p.queue) ≡ p.max_depth
      → mine.get_sync_children (Initiator.first_of p.queue) ≡ some own
      → own.failed ≡ false
      → theirs.get_sync_children
          (mine.merkle_tree.translate_node (Initiator.first_of p.queue) p.their_depth)
        ≡ some (left (row ∷ rows))
      → opening mine theirs (record p { outgoing = b }) before last
        ≡ pushing mine
            (record p { outgoing = b })
            (if b then before else row_keys own.rows [])
            (left rows)
            (Responder.push_object row)
            []
  unfolding opening Initiator.dig responder_turn Responder.next_state Responder.by_state
      Responder.on_hash_compare Responder.first_objects
  opened_as true own before last row rows one bottom mine_rows fine their_rows =
      let some_left : eqb (length p.queue % 2 ^ 32) 0 ≡ false = rw one refl in
      let at_leaf : eqb (mine.merkle_tree.level (Initiator.first_of p.queue)) p.max_depth ≡ true =
        rw bottom (ground arith) in
      rw (some_left, at_leaf, Responder.first_objects, their_rows, quiet_theirs) refl
  opened_as false own before last row rows one bottom mine_rows fine their_rows =
      let some_left : eqb (length p.queue % 2 ^ 32) 0 ≡ false = rw one refl in
      let at_leaf : eqb (mine.merkle_tree.level (Initiator.first_of p.queue)) p.max_depth ≡ true =
        rw bottom (ground arith) in
      rw (some_left, at_leaf, mine_rows, fine, Responder.first_objects, their_rows, quiet_theirs)
        refl

  -- Between buckets that report no error the initiator turns, at the end of RIGHT_HASH_COMPARE, to a
  -- leaf, the last of its queue, for which the responder has at least one object, and can read its own
  -- keys of the leaf: in as many rounds as there are objects and one more it ends, having asked its
  -- bucket to merge every object of the leaf in the responder's order, and then, unless it replicates in
  -- both directions, to forget keys that are exactly its own of the leaf that were not among them.
  pub exchange_transfers :
      (own : SyncIter) (before : Dict Bytes Bool) (last : ℕ) (row : Row) (rows : List Row)
      → length p.queue ≡ 1
      → mine.merkle_tree.level (Initiator.first_of p.queue) ≡ p.max_depth
      → mine.get_sync_children (Initiator.first_of p.queue) ≡ some own
      → own.failed ≡ false
      → theirs.get_sync_children
          (mine.merkle_tree.translate_node (Initiator.first_of p.queue) p.their_depth)
        ≡ some (record { rows = row ∷ rows; failed = false; failed_released = p.released })
      → (forgotten : List Bytes) × ((rounds mine theirs
            (length rows + 2)
            (opening mine theirs p before last)).initiator.current_state
          ≡ end)
        × ((rounds mine theirs (length rows + 2) (opening mine theirs p before last)).effects
            ≡ merges (row ∷ rows) ++ (if p.outgoing then [] else (forgot forgotten ∷ [])))
        × ((k : Bytes)
            → any (λ j. j == k) forgotten ≡ (has_key own.rows k && not (has_key (row ∷ rows) k)))
  exchange_transfers own before last row rows one bottom mine_rows fine their_rows =
      let e = opened_as p.outgoing own before last row rows one bottom mine_rows fine their_rows in
      let known : Dict Bytes Bool = if p.outgoing then before else row_keys own.rows [] in
      let (ends, effects) = pushed_all rows row known one in
      (
        keys (not_among (row ∷ rows) (row_keys own.rows [])),
        ap (λ (x : Exchange). (rounds mine theirs (length rows + 2) x).initiator.current_state) e
            ∙ ends,
        ap (λ (x : Exchange). (rounds mine theirs (length rows + 2) x).effects) e
            ∙ effects
            ∙ ap (λ (l : List Effect). merges (row ∷ rows) ++ l)
                (elim (Bool-cases p.outgoing) [ inl o ↦ rw o refl | inr o ↦ rw o refl ]),
        λ k.
            any-keys k (not_among (row ∷ rows) (row_keys own.rows []))
            ∙ contains-not_among k (row ∷ rows) (row_keys own.rows [])
            ∙ ap (λ b. b && not (has_key (row ∷ rows) k))
                (contains-row_keys k own.rows [] ∙ ground arith),
      )
