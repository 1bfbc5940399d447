-- ===== src/DeployRegion/Events.antt =====
-- The handlers of events (pkg/controllers/deployregion/syncContext.go). What a handler asks the API server
-- for is an argument; the state is the cache, which keeps its changes when a handler fails.
use extended_deployment.Base.{
  String, str_eq, Bool, true, false, if◌then◌else◌, List, [], ◌∷◌, Option, none, some, Result, ok,
  err, nil_pointer, lookup, put_key,
}
use extended_deployment.Adapter.{Outcome, done, fail}
use extended_deployment.DeployRegion.Cache.{
  Node, Pod, NodeResourceCache, RegionResourceCache, AllResourceCache, add_node, on_node_update,
  on_pod_update, add_pod, add_region, empty_region, del_region,
}
use extended_deployment.DeployRegion.Failure.{World, check_region_status}

-- Replaces a node of a region of the cache.
abbrev pub set_node :
    String → RegionResourceCache → String → NodeResourceCache → AllResourceCache → AllResourceCache
set_node region r name n c = record c {
  regions = put_key region (record r { nodes = put_key name n r.nodes }) c.regions;
}

abbrev pub with_node :
    String
    → String
    → (NodeResourceCache → NodeResourceCache)
    → AllResourceCache
    → Outcome AllResourceCache (Unit {0})
with_node region name f c = elim (lookup region c.regions) [
  | none ↦ fail nil_pointer c
  | some r ↦ elim (lookup name r.nodes) [
    | none ↦ fail nil_pointer c
    | some n ↦ done tt (set_node region r name (f n) c)
  ]
]

unfoldable pub apply_pod : Pod → AllResourceCache → Outcome AllResourceCache (Unit {0})
apply_pod pod c =
    if str_eq pod.node_name "" then done tt c else elim (lookup pod.node_name c.node_to_region) [
      | none ↦ done tt c
      | some region ↦ with_node region pod.node_name (on_pod_update pod) c
    ]

unfoldable pub handle_pod_event :
    Result (Option Pod) → AllResourceCache → Outcome AllResourceCache (Unit {0})
unfolding apply_pod
handle_pod_event (err e) c = fail e c
handle_pod_event (ok none) c = done tt c
handle_pod_event (ok (some pod)) c = apply_pod pod c

-- The pods of one node, or of the nodes of one region, are recorded.
unfoldable pub add_pods_of_node : String → List Pod → NodeResourceCache → NodeResourceCache
add_pods_of_node name [] n = n
add_pods_of_node name (pod ∷ rest) n =
    add_pods_of_node name rest (if str_eq pod.node_name name then add_pod pod n else n)

abbrev add_pod_in : Pod → RegionResourceCache → RegionResourceCache
add_pod_in pod r = elim (lookup pod.node_name r.nodes) [
  | none ↦ r
  | some n ↦ record r { nodes = put_key pod.node_name (add_pod pod n) r.nodes }
]

unfoldable pub add_pods_of_region : List Pod → RegionResourceCache → RegionResourceCache
add_pods_of_region [] r = r
add_pods_of_region (pod ∷ rest) r = add_pods_of_region rest (add_pod_in pod r)

-- Nodes are added to a region, and the map from nodes to regions learns of them.
unfoldable pub add_nodes :
    String
    → List Node
    → RegionResourceCache × List (String × String)
    → RegionResourceCache × List (String × String)
add_nodes region [] s = s
add_nodes region (node ∷ rest) s =
    add_nodes region rest (add_node node s.0, put_key node.name region s.1)

module _ (w : World) where
  abbrev Both : Type 0
  Both = AllResourceCache × w.State

  -- CheckRegionStatus on the cache and the world.
  abbrev check : String → Both → Outcome Both (Unit {0})
  check region s = elim (check_region_status w region s.0 s.1) [
    | done c t ↦ done tt (c, t)
    | fail e t ↦ fail e (s.0, t)
  ]

  abbrev put_region : String → RegionResourceCache → AllResourceCache → AllResourceCache
  put_region name r c = record c { regions = put_key name r c.regions }

  -- A new region: its nodes, the pods on these, and its status.
  unfoldable pub handle_region_create :
      String → Result (List Node) → Result (List Pod) → Both → Outcome Both (Unit {0})
  unfolding add_nodes add_pods_of_region
  handle_region_create name (err e) pods s = fail e (add_region name s.0, s.1)
  handle_region_create name (ok nodes) pods s =
      let added = add_nodes name nodes (empty_region name, s.0.node_to_region) in
      let c = record (put_region name added.0 s.0) { node_to_region = added.1 } in
      elim pods [
        | err e ↦ fail e (c, s.1)
        | ok all ↦ check name (put_region name (add_pods_of_region all added.0) c, s.1)
      ]

  -- Whether the region is being deleted.
  unfoldable pub handle_region_event :
      String
      → Result (Option Bool)
      → Result (List Node)
      → Result (List Pod)
      → Both
      → Outcome Both (Unit {0})
  unfolding handle_region_create
  handle_region_event name (err e) nodes pods s = fail e s
  handle_region_event name (ok none) nodes pods s = done tt s
  handle_region_event name (ok (some deleted)) nodes pods s =
      if deleted then done tt (del_region name s.0, s.1) else elim (lookup name s.0.regions) [
        | some r ↦ check name s
        | none ↦ handle_region_create name nodes pods s
      ]

  abbrev bool_eq : Bool → Bool → Bool
  bool_eq true b = b
  bool_eq false b = if b then false else true

  -- A node that the cache knows: the status is checked where its readiness has changed.
  unfoldable pub update_node : String → Node → Both → Outcome Both (Unit {0})
  update_node region node s = elim (lookup region s.0.regions) [
    | none ↦ fail nil_pointer s
    | some r ↦ elim (lookup node.name r.nodes) [
      | none ↦ fail nil_pointer s
      | some n ↦
          let r' = on_node_update node r in
          let s' : Both = (put_region region r' s.0, s.1) in
          elim (lookup node.name r'.nodes) [
            | none ↦ fail nil_pointer s'
            | some n' ↦ if bool_eq n.is_ready n'.is_ready then done tt s' else check region s'
          ]
    ]
  ]

  -- A new node of a region: its pods are recorded.
  unfoldable pub insert_node : String → Node → Result (List Pod) → Both → Outcome Both (Unit {0})
  unfolding add_pods_of_node
  insert_node region node pods s = elim (lookup region s.0.regions) [
    | none ↦ fail nil_pointer s
    | some r ↦
        let r' = add_node node r in
        let c = record (put_region region r' s.0) {
          node_to_region = put_key node.name region s.0.node_to_region;
        } in
        elim pods [
          | err e ↦ fail e (c, s.1)
          | ok all ↦ elim (lookup node.name r'.nodes) [
            | none ↦ fail nil_pointer (c, s.1)
            | some n ↦
                check region
                  (set_node region r' node.name (add_pods_of_node node.name all n) c, s.1)
          ]
        ]
  ]

  -- The first region that the node belongs to, by its name.
  abbrev owner : (String → Bool) → List (String × RegionResourceCache) → Option String
  owner belongs [] = none
  owner belongs ((name, r) ∷ rest) = if belongs name then some name else owner belongs rest

  -- IsNodeBelongRegion is an argument. A node that is gone is nil, and stopReconcile(nil) returns.
  unfoldable pub handle_node_event :
      Result (Option Node)
      → (Node → String → Bool)
      → Result (List Pod)
      → Both
      → Outcome Both (Unit {0})
  unfolding update_node insert_node
  handle_node_event (err e) belongs pods s = fail e s
  handle_node_event (ok none) belongs pods s = fail nil_pointer s
  handle_node_event (ok (some node)) belongs pods s = elim (lookup node.name s.0.node_to_region) [
    | some region ↦ update_node region node s
    | none ↦ elim (owner (belongs node) s.0.regions) [
      | none ↦ done tt s
      | some region ↦ insert_node region node pods s
    ]
  ]
