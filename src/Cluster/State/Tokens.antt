-- ===== src/Cluster/State/Tokens.antt =====
-- cluster/state.go: `AssignToken` keeps the owner of every token and the tokens of every node in
-- agreement.
use mathlib.Core.Bool.{false≢true}
use devicedb.Common.{
  ℕ, ◌≡◌, ◌<◌, refl, sym, ap, ◌∙◌, arith, Bool, true, false, ◌&&◌, ◌||◌, not, ◌==◌, nat_eq, leb,
  Bool-cases, inl, inr, eqb_iff, get_or, set, length, get_or-set_self, get_or-set_ne,
}
use devicedb.Common.Dict.{Dict, contains, lookup-insert, lookup-erase}
use devicedb.Cluster.State.{
  NodeConfig, ClusterState, done, take_token, relinquish_token, assign_token,
}
use devicedb.Cluster.State.Marks.{
  marks, marks_or, marks_and, marks-contains, Changes, on_node_unless_zero,
}

-- Does the configuration of this node hold the token?
abbrev pub owns : Dict ℕ NodeConfig → ℕ → ℕ → Bool
owns nodes n t = marks (λ c. contains t c.tokens) nodes n

-- A node's configuration holds exactly the tokens that are assigned to it.
abbrev pub TokensAgree : ClusterState → Type 0
TokensAgree s = (n t : ℕ) → owns s.nodes n t ≡ (not (n == 0) && (get_or s.tokens t 0 == n))

contains-take :
    (c : NodeConfig) (token t : ℕ)
    → contains t (take_token c token).tokens ≡ (contains t c.tokens || (token == t))
unfolding take_token
contains-take c token t = ground (arith, lookup-insert token t true c.tokens)

contains-relinquish :
    (c : NodeConfig) (token t : ℕ)
    → contains t (relinquish_token c token).tokens ≡ (contains t c.tokens && not (token == t))
unfolding relinquish_token
contains-relinquish c token t = ground (arith, lookup-erase token t c.tokens)

module _ (s : ClusterState) (agree : TokensAgree s) (node token : ℕ) where
  abbrev owner : ℕ
  owner = get_or s.tokens token 0

  owner_there : (owner == 0) ≡ false → contains owner s.nodes ≡ true
  owner_there z =
      marks-contains (λ c. contains token c.tokens) s.nodes owner
        (agree owner token ∙ rw (z, (eqb_iff owner owner).1 refl) refl)

  owns-moved :
      (nodes nodes' : Dict ℕ NodeConfig)
      → token < length s.tokens
      → ((node == 0) ≡ false → contains node nodes ≡ true)
      → Changes (λ c. relinquish_token c token) owner s.nodes nodes
      → Changes (λ c. take_token c token) node nodes nodes'
      → (n t : ℕ) → owns nodes' n t ≡ (not (n == 0) && (get_or (set s.tokens token node) t 0 == n))
  owns-moved nodes nodes' small there given taken n t =
      let held = λ (c : NodeConfig). contains t c.tokens in
      let a = taken held n in
      let b =
        marks_or held (λ c. held (take_token c token)) (token == t) nodes n
          (λ c. contains-take c token t) in
      let g = given held n in
      let d =
        marks_and held (λ c. held (relinquish_token c token)) (not (token == t)) s.nodes n
          (λ c. contains-relinquish c token t) in
      let here = there_n n nodes there in
      elim (Bool-cases (token == t)) [
        | inl y ↦
            let et : token ≡ t = (eqb_iff token t).0 y in
            let eo : owner ≡ get_or s.tokens t 0 = ap (λ k. get_or s.tokens k 0) et in
            let new : get_or (set s.tokens token node) t 0 ≡ node =
              rw et (get_or-set_self s.tokens t node 0 (rw et at small)) in
            rw new (ground (arith, a, b, g, d, agree n t, eo, here))
        | inr z ↦
            let old : get_or (set s.tokens token node) t 0 ≡ get_or s.tokens t 0 =
              get_or-set_ne s.tokens token t node 0
                (λ e. false≢true (sym z ∙ (eqb_iff token t).1 e)) in
            rw old (ground (arith, a, b, g, d, agree n t))
      ]
    where
      there_n :
          (n : ℕ) (nodes : Dict ℕ NodeConfig)
          → ((node == 0) ≡ false → contains node nodes ≡ true)
          → (node == n) ≡ true
          → (node == 0) ≡ false
          → contains n nodes ≡ true
      there_n n nodes h y z = rw (← (eqb_iff node n).0 y) (h z)

  -- The two changes of the nodes that `AssignToken` makes.
  pub assign_token_runs :
      token < length s.tokens
      → ((node == 0) ≡ false → contains node s.nodes ≡ true)
      → (nodes : Dict ℕ NodeConfig) × (nodes' : Dict ℕ NodeConfig) × (assign_token s node token
          ≡ done (record s { nodes = nodes'; tokens = set s.tokens token node }))
        × Changes (λ c. relinquish_token c token) owner s.nodes nodes
        × Changes (λ c. take_token c token) node nodes nodes'
        × TokensAgree (record s { nodes = nodes'; tokens = set s.tokens token node })
  unfolding assign_token
  assign_token_runs small there =
      let (nodes, e, given) =
        on_node_unless_zero (λ c. relinquish_token c token) owner s.nodes owner_there in
      let kept : (node == 0) ≡ false → contains node nodes ≡ true =
        λ z. given-contains nodes given (there z) in
      let (nodes', e', taken) = on_node_unless_zero (λ c. take_token c token) node nodes kept in
      let inside : leb (length s.tokens) token ≡ false = ground arith in
      let known : (not (contains node s.nodes) && not (node == 0)) ≡ false =
        ground (arith, there) in
      (
        nodes,
        nodes',
        rw (inside, known) (rw (e, e')),
        given,
        taken,
        owns-moved nodes nodes' small kept given taken,
      )
    where
      given-contains :
          (nodes : Dict ℕ NodeConfig)
          → Changes (λ c. relinquish_token c token) owner s.nodes nodes
          → contains node s.nodes ≡ true
          → contains node nodes ≡ true
      given-contains nodes given h = ground (arith, given (λ _. true) node)

  -- `AssignToken` of a token of the cluster to a node of it, or to no node (0), succeeds: the token
  -- then has that owner, other tokens keep theirs, and the configurations of the nodes agree.
  pub assign_token-TokensAgree :
      token < length s.tokens
      → ((node == 0) ≡ false → contains node s.nodes ≡ true)
      → (s' : ClusterState) × (assign_token s node token ≡ done s')
        × (s'.tokens ≡ set s.tokens token node)
        × TokensAgree s'
  assign_token-TokensAgree small there =
      let (nodes, nodes', e, given, taken, agree) = assign_token_runs small there in
      (record s { nodes = nodes'; tokens = set s.tokens token node }, e, refl, agree)
