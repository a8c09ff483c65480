-- ===== src/Cluster/Controller/Agreement.antt =====
-- cluster/state.go under the commands of cluster/controller.go: what every change of the state keeps.
use devicedb.Common.{
  ℕ, ◌+◌, ◌≡◌, ◌<◌, refl, sym, ap, ◌∙◌, subst, arith, Bool, true, false, some, List, [], ◌∷◌, ◌&&◌,
  not, length, get_or, set, length-set, leb, ◌==◌, nat_eq, Bool-cases, inl, inr, eqb_iff,
}
use devicedb.Common.Dict.{Dict, lookup, contains, insert, erase}
use devicedb.Cluster.State.{
  NodeConfig, ClusterState, Outcome, done, failed, and_then, assign_token, take_token,
  relinquish_token, replica_at, no_such_token, no_such_node,
}
use devicedb.Cluster.State.Marks.{marks, marks-insert, marks_at, marks_unchanged}
use devicedb.Cluster.State.Tokens.{TokensAgree, assign_token_runs}
use devicedb.Cluster.State.Replicas.{in_map}
use devicedb.Cluster.State.Moves.{HoldersAgree, OwnersAgree}
use devicedb.Cluster.Start.{are_initialized, Fits}
use devicedb.Cluster.Controller.Commands.{or_unchanged, try_assign, assign_each, assign_to}

module _ (max_slice : ℕ → ℕ) where
  -- Nodes, tokens and replicas agree, no removed node is a member, 0 is no node, and before the settings
  -- are known there are no tokens and no partitions; no setting is larger than a slice may be.
  pub record IsSound (s : ClusterState) : Type 0 where
    pub tokens : TokensAgree s
    pub holders : HoldersAgree s
    pub owners : OwnersAgree s
    pub removed_out : (n : ℕ) → contains n s.removed_nodes ≡ true → contains n s.nodes ≡ false
    pub zero_out : contains 0 s.nodes ≡ false
    pub fits : Fits max_slice s.cluster_settings
    pub fresh :
        are_initialized s.cluster_settings ≡ false
        → (length s.tokens ≡ 0) × (length s.partitions ≡ 0)

  -- The call returns, and the state is sound.
  abbrev pub Sound : Outcome ClusterState → Type 0
  Sound o = (s : ClusterState) × (o ≡ done s) × IsSound s

  pub and_then-Sound :
      (o : Outcome ClusterState) (f : ClusterState → Outcome ClusterState)
      → Sound o
      → ((s : ClusterState) → IsSound s → Sound (f s))
      → Sound (and_then o f)
  and_then-Sound o f (s, e, i) g =
      let (t, e', j) = g s i in (t, ap (λ (o : Outcome ClusterState). and_then o f) e ∙ e', j)

  -- A change of tokens and nodes that the tests on replicas and on membership do not see.
  pub same_tests :
      (s s' : ClusterState)
      → IsSound s
      → TokensAgree s'
      → s'.partitions ≡ s.partitions
      → s'.removed_nodes ≡ s.removed_nodes
      → s'.cluster_settings ≡ s.cluster_settings
      → length s'.tokens ≡ length s.tokens
      → ((f : NodeConfig → Bool)
          → ((c : NodeConfig) (ts : Dict ℕ Bool) → f (record c { tokens = ts }) ≡ f c)
          → (n : ℕ) → marks f s'.nodes n ≡ marks f s.nodes n)
      → IsSound s'
  same_tests s s' i tokens cells removed settings lengths same = record {
    tokens = tokens;
    holders = λ n p r.
        same (λ c. in_map p r c.partition_replicas) (λ c ts. refl) n
        ∙ i.holders n p r
        ∙ ap (λ k. not (n == 0) && ((replica_at k p r).holder == n)) (sym cells);
    owners = λ n p r.
        same (λ c. in_map p r c.owned_partition_replicas) (λ c ts. refl) n
        ∙ i.owners n p r
        ∙ ap (λ k. not (n == 0) && ((replica_at k p r).owner == n)) (sym cells);
    removed_out = λ n h.
        same (λ _. true) (λ c ts. refl) n ∙ i.removed_out n (ap (contains n) (sym removed) ∙ h);
    zero_out = same (λ _. true) (λ c ts. refl) 0 ∙ i.zero_out;
    fits = subst (Fits max_slice) (sym settings) i.fits;
    fresh = λ h.
        let (a, b) = i.fresh (ap are_initialized (sym settings) ∙ h) in
        (lengths ∙ a, ap length cells ∙ b);
  }

  -- `AssignToken`, whatever its arguments.
  assigned :
      (s : ClusterState) (i : IsSound s) (node token : ℕ)
      → token < length s.tokens
      → ((node == 0) ≡ false → contains node s.nodes ≡ true)
      → Sound (assign_token s node token)
  unfolding take_token relinquish_token
  assigned s i node token small there =
      let (nodes, nodes', e, given, taken, agree) =
        assign_token_runs s i.tokens node token small there in
      let s' : ClusterState = record s { nodes = nodes'; tokens = set s.tokens token node } in
      (
        s',
        e,
        same_tests s s' i agree refl refl refl (length-set s.tokens token node) (λ f same n.
            marks_unchanged (λ c. take_token c token) node nodes nodes' f taken
              (λ c. same c (insert token true c.tokens)) n
            ∙ marks_unchanged (λ c. relinquish_token c token) (get_or s.tokens token 0) s.nodes
                nodes f given (λ c. same c (erase token c.tokens)) n),
      )

  pub try_assign-Sound :
      (s : ClusterState) (node token : ℕ) → IsSound s → Sound (try_assign s node token)
  unfolding assign_token
  try_assign-Sound s node token i = elim (Bool-cases (leb (length s.tokens) token)) [
    | inl out ↦
        let e : assign_token s node token ≡ failed no_such_token = rw out refl in
        (s, ap (or_unchanged s) e, i)
    | inr inside ↦ elim (Bool-cases (not (contains node s.nodes) && not (node == 0))) [
      | inl unknown ↦
          let e : assign_token s node token ≡ failed no_such_node = rw (inside, unknown) refl in
          (s, ap (or_unchanged s) e, i)
      | inr known ↦
          let (s', e, j) = assigned s i node token (ground arith) (λ z. ground (arith, z, known)) in
          (s', ap (or_unchanged s) e, j)
    ]
  ]

  pub assign_each-Sound :
      (owners : List ℕ) (s : ClusterState) (t : ℕ) → IsSound s → Sound (assign_each s t owners)
  unfolding assign_each
  assign_each-Sound [] s t i = (s, refl, i)
  assign_each-Sound (owner ∷ owners) s t i =
      and_then-Sound (try_assign s owner t) (λ s'. assign_each s' (t + 1) owners)
        (try_assign-Sound s owner t i) (λ s' j. assign_each-Sound owners s' (t + 1) j)

  pub assign_to-Sound :
      (ts : List ℕ) (s : ClusterState) (node : ℕ) → IsSound s → Sound (assign_to s node ts)
  unfolding assign_to
  assign_to-Sound [] s node i = (s, refl, i)
  assign_to-Sound (t ∷ ts) s node i =
      and_then-Sound (try_assign s node t) (λ s'. assign_to s' node ts)
        (try_assign-Sound s node t i) (λ s' j. assign_to-Sound ts s' node j)

  -- A node's configuration is replaced by one with the same tokens and replicas.
  pub replaced-Sound :
      (s : ClusterState) (id : ℕ) (old new : NodeConfig)
      → IsSound s
      → lookup id s.nodes ≡ some old
      → new.tokens ≡ old.tokens
      → new.partition_replicas ≡ old.partition_replicas
      → new.owned_partition_replicas ≡ old.owned_partition_replicas
      → IsSound (record s { nodes = insert id new s.nodes })
  replaced-Sound s id old new i there a b c = record {
    tokens = λ n t. at (λ c. contains t c.tokens) (ap (contains t) a) n ∙ i.tokens n t;
    holders =
        λ n p r. at (λ c. in_map p r c.partition_replicas) (ap (in_map p r) b) n ∙ i.holders n p r;
    owners = λ n p r.
        at (λ c. in_map p r c.owned_partition_replicas) (ap (in_map p r) c) n ∙ i.owners n p r;
    removed_out = λ n h. at (λ _. true) refl n ∙ i.removed_out n h;
    zero_out = at (λ _. true) refl 0 ∙ i.zero_out;
    fits = i.fits;
    fresh = i.fresh;
  }
    where
      at :
          (f : NodeConfig → Bool)
          → f new ≡ f old
          → (n : ℕ) → marks f (insert id new s.nodes) n ≡ marks f s.nodes n
      at f e n = marks-insert f id new s.nodes n ∙ (elim (Bool-cases (id == n)) [
        | inl y ↦
            rw y (
              e ∙ sym (marks_at f s.nodes id old there) ∙ ap (marks f s.nodes) ((eqb_iff id n).0 y))
        | inr z ↦ rw z
      ])
