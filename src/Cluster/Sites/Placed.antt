-- ===== src/Cluster/Sites/Placed.antt =====
-- cluster/state.go: a relay is never left in a site that does not exist.
use devicedb.Common.{
  Bool, true, Option, none, some, [], ◌∷◌, ◌||◌, ◌&&◌, not, if◌then◌else◌, Bytes, ◌==◌, bytes_eq,
  ◌≡◌, refl, arith, Bool-cases, inl, inr,
}
use devicedb.Common.Dict.{Dict, lookup, contains, insert, erase, lookup-insert, lookup-erase}
use devicedb.Cluster.State.{ClusterState}
use devicedb.Cluster.Sites.{
  or_empty, detach, add_site, remove_site, add_relay, remove_relay, move_relay, SiteStep, SiteSteps,
}

-- The site of a relay, "" for a relay that is not there.
abbrev pub site_of : Bytes → Dict Bytes Bytes → Bytes
site_of relay d = elim (lookup relay d) [ none ↦ [] | some site ↦ site ]

-- "", or a site that exists.
abbrev pub is_place : Bytes → Dict Bytes Bool → Bool
is_place site sites = (site == []) || contains site sites

abbrev pub Placed : Dict Bytes Bytes → Dict Bytes Bool → Type 0
Placed relays sites = (relay : Bytes) → is_place (site_of relay relays) sites ≡ true

-- Every relay is in a site that exists, or in none.
abbrev pub RelaysPlaced : ClusterState → Type 0
RelaysPlaced s = Placed (or_empty s.relays) (or_empty s.sites)

site_of-insert :
    (r r' site : Bytes) (d : Dict Bytes Bytes)
    → site_of r' (insert r site d) ≡ (if r == r' then site else site_of r' d)
site_of-insert r r' site d = ground (arith, lookup-insert r r' site d)

site_of-erase :
    (r r' : Bytes) (d : Dict Bytes Bytes)
    → site_of r' (erase r d) ≡ (if r == r' then [] else site_of r' d)
site_of-erase r r' d = ground (arith, lookup-erase r r' d)

site_of-detach :
    (site r : Bytes) (d : Dict Bytes Bytes)
    → site_of r (detach site d) ≡ (if site == site_of r d then [] else site_of r d)
site_of-detach site r [] = ground arith
site_of-detach site r ((k, v) ∷ d) = ground (arith, site_of-detach site r d)

contains-insert :
    (k j : Bytes) (d : Dict Bytes Bool) → contains j (insert k true d) ≡ ((k == j) || contains j d)
contains-insert k j d = ground (arith, lookup-insert k j true d)

contains-erase :
    (k j : Bytes) (d : Dict Bytes Bool) → contains j (erase k d) ≡ (contains j d && not (k == j))
contains-erase k j d = ground (arith, lookup-erase k j d)

empty_is_place : (sites : Dict Bytes Bool) → is_place [] sites ≡ true
empty_is_place sites = refl

Placed-insert :
    (relays : Dict Bytes Bytes) (sites : Dict Bytes Bool) (relay site : Bytes)
    → Placed relays sites
    → is_place site sites ≡ true
    → Placed (insert relay site relays) sites
Placed-insert relays sites relay site h ok r =
    rw (site_of-insert relay r site relays)
      (elim (Bool-cases (relay == r)) [ inl y ↦ rw y ok | inr z ↦ rw z (h r) ])

Placed-erase :
    (relays : Dict Bytes Bytes) (sites : Dict Bytes Bool) (relay : Bytes)
    → Placed relays sites
    → Placed (erase relay relays) sites
Placed-erase relays sites relay h r =
    rw (site_of-erase relay r relays)
      (elim (Bool-cases (relay == r)) [ inl y ↦ rw y refl | inr z ↦ rw z (h r) ])

Placed-detach :
    (relays : Dict Bytes Bytes) (sites : Dict Bytes Bool) (site : Bytes)
    → Placed relays sites
    → Placed (detach site relays) (erase site sites)
Placed-detach relays sites site h r =
    rw (site_of-detach site r relays) (elim (Bool-cases (site == site_of r relays)) [
      | inl y ↦ rw y refl
      | inr z ↦
          let c = contains-erase site (site_of r relays) sites in rw z (ground (arith, c, h r, z))
    ])

add_site-RelaysPlaced :
    (s : ClusterState) (site : Bytes) → RelaysPlaced s → RelaysPlaced (add_site s site)
unfolding add_site
add_site-RelaysPlaced s site h r =
    let c = contains-insert site (site_of r (or_empty s.relays)) (or_empty s.sites) in
    ground (arith, c, h r)

remove_site-RelaysPlaced :
    (s : ClusterState) (site : Bytes) → RelaysPlaced s → RelaysPlaced (remove_site s site)
unfolding remove_site
remove_site-RelaysPlaced s site h = go s.sites s.relays h
  where
    go :
        (sites : Option (Dict Bytes Bool)) (relays : Option (Dict Bytes Bytes))
        → Placed (or_empty relays) (or_empty sites)
        → RelaysPlaced (elim sites as (λ _. ClusterState) [
          | none ↦ s
          | some d ↦ record s {
            relays = elim relays [ none ↦ none | some rs ↦ some (detach site rs) ];
            sites = some (erase site d);
          }
        ])
    go none relays ok = h
    go (some d) none ok = λ r. refl
    go (some d) (some rs) ok = Placed-detach rs d site ok

remove_relay-RelaysPlaced :
    (s : ClusterState) (relay : Bytes) → RelaysPlaced s → RelaysPlaced (remove_relay s relay)
unfolding remove_relay
remove_relay-RelaysPlaced s relay h = go s.relays h
  where
    go :
        (relays : Option (Dict Bytes Bytes))
        → Placed (or_empty relays) (or_empty s.sites)
        → RelaysPlaced (elim relays as (λ _. ClusterState) [
          | none ↦ s
          | some rs ↦ record s { relays = some (erase relay rs) }
        ])
    go none ok = h
    go (some rs) ok = Placed-erase rs (or_empty s.sites) relay ok

move_relay-RelaysPlaced :
    (s : ClusterState) (relay site : Bytes)
    → RelaysPlaced s
    → RelaysPlaced (move_relay s relay site)
unfolding move_relay
move_relay-RelaysPlaced s relay site h = go s.relays s.sites refl h
  where
    go :
        (relays : Option (Dict Bytes Bytes)) (sites : Option (Dict Bytes Bool))
        → s.sites ≡ sites
        → Placed (or_empty relays) (or_empty s.sites)
        → RelaysPlaced (elim relays as (λ _. ClusterState) [
          | none ↦ s
          | some rs ↦ elim sites as (λ _. ClusterState) [
            | none ↦ s
            | some d ↦
                if not (contains relay rs)
                then s
                else (if not (contains site d) && not (site == [])
                    then s
                    else record s { relays = some (insert relay site rs) })
          ]
        ])
    go none sites e ok = h
    go (some rs) none e ok = h
    go (some rs) (some d) e ok = elim (Bool-cases (contains relay rs)) [
      | inr z ↦ rw z h
      | inl y ↦ elim (Bool-cases (not (contains site d) && not (site == []))) [
        | inl bad ↦ rw (y, bad) h
        | inr fine ↦
            let place : is_place site (or_empty s.sites) ≡ true = rw e (ground (arith, fine)) in
            rw (y, fine) (Placed-insert rs (or_empty s.sites) relay site ok place)
      ]
    ]

step-RelaysPlaced : {s t : ClusterState} → SiteStep s t → RelaysPlaced s → RelaysPlaced t
step-RelaysPlaced (SiteStep.adds_site s site) h = add_site-RelaysPlaced s site h
step-RelaysPlaced (SiteStep.removes_site s site) h = remove_site-RelaysPlaced s site h
step-RelaysPlaced (SiteStep.adds_relay s relay) h =
    unfold add_relay in Placed-insert (or_empty s.relays) (or_empty s.sites) relay [] h refl
step-RelaysPlaced (SiteStep.removes_relay s relay) h = remove_relay-RelaysPlaced s relay h
step-RelaysPlaced (SiteStep.moves_relay s relay site) h = move_relay-RelaysPlaced s relay site h

-- However sites and relays are added, removed and moved, every relay stays in a site that exists or
-- in none.
pub SiteSteps-RelaysPlaced : {s t : ClusterState} → SiteSteps s t → RelaysPlaced s → RelaysPlaced t
SiteSteps-RelaysPlaced (SiteSteps.at_rest s) h = h
SiteSteps-RelaysPlaced (SiteSteps.then_step steps step) h =
    step-RelaysPlaced step (SiteSteps-RelaysPlaced steps h)
