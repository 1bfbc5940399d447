-- ===== src/DeployRegion/Sync.antt =====
-- The start of the cache (waitCacheSynced in pkg/controllers/deployregion/syncContext.go).
use extended_deployment.Base.{
  String, true, List, [], ◌∷◌, none, some, Result, ok, err, multi_region, lookup, put_key,
}
use extended_deployment.Adapter.{Outcome, done, fail, ◌>>◌}
use extended_deployment.DeployRegion.Cache.{
  Node, Pod, RegionResourceCache, AllResourceCache, add_node, add_pod, add_region, empty_region,
}
use extended_deployment.DeployRegion.Failure.{World, check_region_status}
use extended_deployment.DeployRegion.Events.{with_node}

-- The loops of waitCacheSynced: a node that two regions have ends the start.
unfoldable pub sync_nodes :
    String
    → List Node
    → RegionResourceCache × List (String × String)
    → Result (RegionResourceCache × List (String × String))
sync_nodes region [] s = ok s
sync_nodes region (node ∷ rest) s =
    let later = sync_nodes region rest (add_node node s.0, put_key node.name region s.1) in
    elim (lookup node.name s.1) [ some name ↦ err multi_region | none ↦ later ]

unfoldable pub sync_regions :
    List (String × Result (List Node)) → AllResourceCache → Outcome AllResourceCache (Unit {0})
unfolding sync_nodes
sync_regions [] c = done tt c
sync_regions ((name, err e) ∷ rest) c = fail e (add_region name c)
sync_regions ((name, ok nodes) ∷ rest) c =
    elim (sync_nodes name nodes (empty_region name, c.node_to_region)) [
      | err e ↦ fail e (add_region name c)
      | ok s ↦
          sync_regions rest
            (record c { regions = put_key name s.0 c.regions; node_to_region = s.1 })
    ]

-- A pod is recorded on its node, where its node is known.
unfoldable pub sync_pods : List Pod → AllResourceCache → Outcome AllResourceCache (Unit {0})
sync_pods [] c = done tt c
sync_pods (pod ∷ rest) c = elim (lookup pod.node_name c.node_to_region) [
  | none ↦ sync_pods rest c
  | some region ↦ (with_node region pod.node_name (add_pod pod) >> sync_pods rest) c
]

abbrev pub names_of : List (String × RegionResourceCache) → List String
names_of [] = []
names_of ((name, r) ∷ rest) = name ∷ names_of rest

module _ (w : World) where
  unfoldable pub check_all :
      List String → AllResourceCache × w.State → Outcome (AllResourceCache × w.State) (Unit {0})
  check_all [] s = done tt s
  check_all (name ∷ rest) s = elim (check_region_status w name s.0 s.1) [
    | fail e t ↦ fail e (s.0, t)
    | done c t ↦ check_all rest (c, t)
  ]

  unfoldable pub wait_cache_synced :
      Result (List (String × Result (List Node)))
      → Result (List Pod)
      → AllResourceCache × w.State
      → Outcome (AllResourceCache × w.State) (Unit {0})
  unfolding sync_regions sync_pods check_all
  wait_cache_synced (err e) pods s =
      fail e (record (s.0) { regions = []; node_to_region = [] }, s.1)
  wait_cache_synced (ok regions) pods s =
      elim (sync_regions regions (record (s.0) { regions = []; node_to_region = [] })) [
        | fail e c ↦ fail e (c, s.1)
        | done u c ↦ elim pods [
          | err e ↦ fail e (c, s.1)
          | ok all ↦ elim (sync_pods all c) [
            | fail e d ↦ fail e (d, s.1)
            | done u d ↦ check_all (names_of d.regions) (record d { synced = true }, s.1)
          ]
        ]
      ]
