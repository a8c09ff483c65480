-- ===== src/Cluster/Sites.antt =====
-- cluster/state.go: sites and relays. A relay is mapped to its site, or to "" if it has none.
pub mod Placed
use devicedb.Common.{
  ℕ, Bool, true, false, Option, none, some, List, [], ◌∷◌, ◌||◌, ◌&&◌, not, if◌then◌else◌, Bytes,
  ◌==◌, bytes_eq, ◌≡◌, refl, arith, length,
}
use devicedb.Common.Dict.{Dict, lookup, contains, insert, erase, lookup-insert, lookup-erase}
use devicedb.Cluster.State.{ClusterState}

abbrev pub or_empty {ℓ} : {A : Type ℓ} → Option (Dict Bytes A) → Dict Bytes A
or_empty none = []
or_empty (some d) = d

unfoldable pub site_exists : ClusterState → Bytes → Bool
site_exists s site = elim s.sites [ none ↦ false | some d ↦ contains site d ]

unfoldable pub add_site : ClusterState → Bytes → ClusterState
add_site s site = record s { sites = some (insert site true (or_empty s.sites)) }

-- The loop of `RemoveSite` over the relays.
abbrev pub detach : Bytes → Dict Bytes Bytes → Dict Bytes Bytes
detach site [] = []
detach site ((relay, at) ∷ relays) = (relay, (if site == at then [] else at)) ∷ detach site relays

unfoldable pub remove_site : ClusterState → Bytes → ClusterState
remove_site s site = elim s.sites [
  | none ↦ s
  | some d ↦ record s {
    relays = elim s.relays [ none ↦ none | some rs ↦ some (detach site rs) ];
    sites = some (erase site d);
  }
]

unfoldable pub add_relay : ClusterState → Bytes → ClusterState
add_relay s relay = record s { relays = some (insert relay [] (or_empty s.relays)) }

unfoldable pub remove_relay : ClusterState → Bytes → ClusterState
remove_relay s relay = elim s.relays [
  | none ↦ s
  | some rs ↦ record s { relays = some (erase relay rs) }
]

unfoldable pub move_relay : ClusterState → Bytes → Bytes → ClusterState
move_relay s relay site = elim s.relays [
  | none ↦ s
  | some rs ↦ elim s.sites [
    | none ↦ s
    | some d ↦
        if not (contains relay rs)
        then s
        else (if not (contains site d) && not (site == [])
            then s
            else record s { relays = some (insert relay site rs) })
  ]
]

-- A step of the state by one of these operations, and several of them.
pub data SiteStep : ClusterState → ClusterState → Type 0 where
  adds_site : (s : ClusterState) (site : Bytes) → SiteStep s (add_site s site)
  removes_site : (s : ClusterState) (site : Bytes) → SiteStep s (remove_site s site)
  adds_relay : (s : ClusterState) (relay : Bytes) → SiteStep s (add_relay s relay)
  removes_relay : (s : ClusterState) (relay : Bytes) → SiteStep s (remove_relay s relay)
  moves_relay : (s : ClusterState) (relay site : Bytes) → SiteStep s (move_relay s relay site)

pub data SiteSteps : ClusterState → ClusterState → Type 0 where
  at_rest : (s : ClusterState) → SiteSteps s s
  then_step : {s t u : ClusterState} → SiteSteps s t → SiteStep t u → SiteSteps s u
