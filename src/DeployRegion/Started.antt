-- ===== src/DeployRegion/Started.antt =====
-- The start of the cache links every node to its region.
use extended_deployment.Base.{
  String, ◌≡◌, ◌≢◌, refl, sym, ◌∙◌, ap, Option-cases, Result-cases, inl, inr, List, [], ◌∷◌, All,
  Distinct, none, Result, ok, err, lookup, put_key, lookup-put_key, lookup-put_key_other, arith,
}
use extended_deployment.Adapter.{done}
use extended_deployment.DeployRegion.Cache.{
  Node, Pod, RegionResourceCache, AllResourceCache, new_node, add_node, add_pod, empty_region,
}
use extended_deployment.DeployRegion.Events.{set_node}
use extended_deployment.DeployRegion.Sync.{sync_nodes, sync_regions, sync_pods}
use extended_deployment.DeployRegion.Links.{
  AllLinked, equal_or_not, set_node-IsLinked, with_node-found,
}

-- The cache while the nodes of one region are added.
abbrev during :
    AllResourceCache → String → RegionResourceCache × List (String × String) → AllResourceCache
during c region s = record c { regions = put_key region s.0 c.regions; node_to_region = s.1 }

-- One more node of the region.
add_node-AllLinked :
    (c : AllResourceCache) (region : String) (node : Node)
    (s : RegionResourceCache × List (String × String))
    → AllLinked (during c region s)
    → AllLinked (during c region (add_node node s.0, put_key node.name region s.1))
unfolding add_node
add_node-AllLinked c region node s v other at h = elim (equal_or_not other node.name) [
  | inl e ↦
      let q : at ≡ region = ground (
        arith,
        h,
        ap (λ x. lookup x (put_key node.name region s.1)) e,
        lookup-put_key node.name region s.1,
      ) in
      record {
        cache = add_node node s.0;
        region_found = rw q (lookup-put_key region (add_node node s.0) c.regions);
        node = new_node node;
        node_found = rw e (lookup-put_key node.name (new_node node) s.0.nodes);
      }
  | inr d ↦
      let k = v other at (sym (lookup-put_key_other node.name other region s.1 d) ∙ h) in
      elim (equal_or_not at region) [
        | inl q ↦
            let same : s.0 ≡ k.cache = ground (
              arith,
              k.region_found,
              ap (λ x. lookup x (put_key region s.0 c.regions)) q,
              lookup-put_key region s.0 c.regions,
            ) in
            record {
              cache = add_node node s.0;
              region_found = rw q (lookup-put_key region (add_node node s.0) c.regions);
              node = k.node;
              node_found =
                  lookup-put_key_other node.name other (new_node node) s.0.nodes d
                  ∙ ap (λ r. lookup other r.nodes) same
                  ∙ k.node_found;
            }
        | inr n ↦ record {
          cache = k.cache;
          region_found =
              lookup-put_key_other region at (add_node node s.0) c.regions n
              ∙ sym (lookup-put_key_other region at s.0 c.regions n)
              ∙ k.region_found;
          node = k.node;
          node_found = k.node_found;
        }
      ]
]

sync_nodes-AllLinked :
    (c : AllResourceCache) (region : String) (nodes : List Node)
    (s s' : RegionResourceCache × List (String × String))
    → AllLinked (during c region s)
    → sync_nodes region nodes s ≡ ok s'
    → AllLinked (during c region s')
unfolding sync_nodes
sync_nodes-AllLinked c region [] s s' v h = let q : s ≡ s' = ground (arith, h) in rw (sym q) v
sync_nodes-AllLinked c region (node ∷ rest) s s' v h = elim (Option-cases (lookup node.name s.1)) [
  | inr (name, e) ↦ absurd (ground (arith, h, e))
  | inl e ↦
      sync_nodes-AllLinked c region rest (add_node node s.0, put_key node.name region s.1) s'
        (add_node-AllLinked c region node s v) (ground (arith, h, e))
]

-- A region that the cache does not have yet.
new_region-AllLinked :
    (c : AllResourceCache) (region : String)
    → lookup region c.regions ≡ none
    → AllLinked c
    → AllLinked (during c region (empty_region region, c.node_to_region))
new_region-AllLinked c region e v other at h =
    let k = v other at h in
    record {
      cache = k.cache;
      region_found =
          lookup-put_key_other region at (empty_region region) c.regions
            (λ q. absurd (ground (arith, k.region_found, e, ap (λ x. lookup x c.regions) q)))
          ∙ k.region_found;
      node = k.node;
      node_found = k.node_found;
    }

abbrev pub listed : List (String × Result (List Node)) → List String
listed [] = []
listed ((name, nodes) ∷ rest) = name ∷ listed rest

abbrev Unknown : AllResourceCache → List String → Type 0
Unknown c names = All (λ x. lookup x c.regions ≡ none) names

still_Unknown :
    (c : AllResourceCache) (region : String) (s : RegionResourceCache × List (String × String))
    (names : List String)
    → All (λ y. y ≢ region) names
    → Unknown c names
    → Unknown (during c region s) names
still_Unknown c region s [] d u = tt
still_Unknown c region s (name ∷ rest) d u = (
  lookup-put_key_other region name s.0 c.regions d.0 ∙ u.0,
  still_Unknown c region s rest d.1 u.1,
)

sync_regions-AllLinked :
    (regions : List (String × Result (List Node))) (c c' : AllResourceCache)
    → Distinct (listed regions)
    → Unknown c (listed regions)
    → AllLinked c
    → sync_regions regions c ≡ done tt c'
    → AllLinked c'
unfolding sync_regions
sync_regions-AllLinked [] c c' d u v h = let q : c ≡ c' = ground (arith, h) in rw (sym q) v
sync_regions-AllLinked ((name, err e) ∷ rest) c c' d u v h = absurd (ground (arith, h))
sync_regions-AllLinked ((name, ok nodes) ∷ rest) c c' d u v h =
    elim (Result-cases (sync_nodes name nodes (empty_region name, c.node_to_region))) [
      | inl (e, q) ↦ absurd (ground (arith, h, q))
      | inr (s, q) ↦
          sync_regions-AllLinked rest (during c name s) c' d.1
            (still_Unknown c name s (listed rest) d.0 u.1)
            (sync_nodes-AllLinked c name nodes (empty_region name, c.node_to_region) s
              (new_region-AllLinked c name u.0 v) q)
            (ground (arith, h, q))
    ]

sync_pods-AllLinked :
    (pods : List Pod) (c : AllResourceCache)
    → AllLinked c
    → (d : AllResourceCache) × (sync_pods pods c ≡ done tt d) × AllLinked d
unfolding sync_pods
sync_pods-AllLinked [] c v = (c, refl, v)
sync_pods-AllLinked (pod ∷ rest) c v = elim (Option-cases (lookup pod.node_name c.node_to_region)) [
  | inl e ↦ let r = sync_pods-AllLinked rest c v in (r.0, rw (e, sync_pods) r.1, r.2)
  | inr (region, e) ↦
      let l = v pod.node_name region e in
      let c2 = set_node region l.cache pod.node_name (add_pod pod l.node) c in
      let r = sync_pods-AllLinked rest c2 (λ other at h.
        set_node-IsLinked c pod.node_name region other at l (add_pod pod l.node) (v other at h)) in
      (
        r.0,
        ground (
          arith,
          e,
          r.1,
          with_node-found c region pod.node_name (add_pod pod) l.cache l.node l.region_found
              l.node_found,
        ),
        r.2,
      )
]

-- The cache as the start finds it: whatever was in it is dropped.
abbrev pub cleared : AllResourceCache → AllResourceCache
cleared c = record c { regions = []; node_to_region = [] }

nothing-Unknown : (c : AllResourceCache) (names : List String) → Unknown (cleared c) names
nothing-Unknown c [] = tt
nothing-Unknown c (name ∷ rest) = (refl, nothing-Unknown c rest)

-- Where the names of the listed regions differ and the regions and their nodes are taken into the
-- cleared cache without an error, recording any pods, on nodes known or not, meets no nil pointer,
-- and then every node is where the map says.
pub sync-AllLinked :
    (regions : List (String × Result (List Node))) (pods : List Pod) (c c' : AllResourceCache)
    → Distinct (listed regions)
    → sync_regions regions (cleared c) ≡ done tt c'
    → (d : AllResourceCache) × (sync_pods pods c' ≡ done tt d) × AllLinked d
sync-AllLinked regions pods c c' d h = sync_pods-AllLinked pods c' (
    sync_regions-AllLinked regions (cleared c) c' d (nothing-Unknown c (listed regions))
      (λ name region q. absurd (ground (arith, q))) h)
