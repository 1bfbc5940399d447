-- ===== src/DeployRegion/Current.antt =====
-- The whole start of the cache: where the nodes are, and the statuses of the regions.
use mathlib.Core.Logic.{◌⊎◌}
use mathlib.Core.List.Memᴰ.{head, tail}
use extended_deployment.Base.{
  String, str_eq, eq_iff, ◌≡◌, refl, sym, ◌∙◌, ap, true, Bool-cases, inl, inr, List, [], ◌∷◌, Memᴰ,
  Distinct, some, Result, ok, lookup, arith,
}
use extended_deployment.Adapter.{Outcome-cases, done}
use extended_deployment.DeployRegion.Cache.{
  Node, Pod, RegionResourceCache, AllResourceCache, region_status,
}
use extended_deployment.DeployRegion.Failure.{World, check_region_status}
use extended_deployment.DeployRegion.Sync.{names_of, sync_regions, check_all, wait_cache_synced}
use extended_deployment.DeployRegion.Links.{AllLinked, equal_or_not}
use extended_deployment.DeployRegion.Started.{listed, cleared, sync-AllLinked}
use extended_deployment.DeployRegion.Flags.{
  IsChecked, IsChecked-AllLinked, check_region_status-IsChecked,
}

-- The status of a region is that of its nodes.
abbrev pub IsCurrent : RegionResourceCache → Type 0
IsCurrent r = r.status ≡ region_status r.nodes

abbrev pub AllCurrent : AllResourceCache → Type 0
AllCurrent c =
    (name : String) (r : RegionResourceCache) → lookup name c.regions ≡ some r → IsCurrent r

-- Only the regions with these names may have an old status.
abbrev CurrentBut : List String → AllResourceCache → Type 0
CurrentBut names c =
    (name : String) (r : RegionResourceCache)
    → lookup name c.regions ≡ some r
    → Memᴰ name names ⊎ IsCurrent r

lookup-Mem :
    (name : String) (regions : List (String × RegionResourceCache)) (r : RegionResourceCache)
    → lookup name regions ≡ some r
    → Memᴰ name (names_of regions)
lookup-Mem name [] r h = absurd (ground (arith, h))
lookup-Mem name ((at, x) ∷ rest) r h = elim (Bool-cases (str_eq name at)) [
  | inl e ↦ head ((eq_iff name at).0 e)
  | inr e ↦ tail (lookup-Mem name rest r (ground (arith, h, e)))
]

-- One more region is checked.
IsChecked-CurrentBut :
    (region : String) (rest : List String) (c c' : AllResourceCache)
    → IsChecked region c c'
    → CurrentBut (region ∷ rest) c
    → CurrentBut rest c'
IsChecked-CurrentBut region rest c c' k v name r h = elim (equal_or_not name region) [
  | inl q ↦
      let same : record (k.before) { status = region_status k.before.nodes } ≡ r =
        ground (arith, h, ap (λ x. lookup x c'.regions) q, k.found) in
      inr (rw (sym same) refl)
  | inr d ↦ elim (v name r (sym (k.others name d) ∙ h)) [
    | inl (head e) ↦ absurd (d e)
    | inl (tail m) ↦ inl m
    | inr e ↦ inr e
  ]
]

module _ (w : World) where
  check_all-AllCurrent :
      (names : List String) (c d : AllResourceCache) (s t : w.State)
      → CurrentBut names c
      → AllLinked c
      → check_all w names (c, s) ≡ done tt (d, t)
      → AllLinked d × AllCurrent d
  unfolding check_all
  check_all-AllCurrent [] c d s t v l h =
      let same : c ≡ d = ground (arith, h) in
      rw (sym same) (l, λ name r e. elim (v name r e) [ inl m ↦ absurd (elim m [ ]) | inr q ↦ q ])
  check_all-AllCurrent (name ∷ rest) c d s t v l h =
      elim (Outcome-cases (check_region_status w name c s)) [
        | inr (x, u, e) ↦ absurd (ground (arith, h, e))
        | inl (c', u, e) ↦
            let k = check_region_status-IsChecked w name c c' s u e in
            check_all-AllCurrent rest c' d u t (IsChecked-CurrentBut name rest c c' k v)
              (IsChecked-AllLinked name c c' k l) (ground (arith, h, e))
      ]

  -- Where the names of the listed regions differ and the start ends well, every node is where the
  -- map says, and the status of every region is that of its nodes, whatever was in the cache.
  pub wait_cache_synced-AllCurrent :
      (regions : List (String × Result (List Node))) (pods : List Pod) (c d : AllResourceCache)
      (s t : w.State)
      → Distinct (listed regions)
      → wait_cache_synced w (ok regions) (ok pods) (c, s) ≡ done tt (d, t)
      → AllLinked d × AllCurrent d
  unfolding wait_cache_synced
  wait_cache_synced-AllCurrent regions pods c d s t distinct h =
      elim (Outcome-cases (sync_regions regions (cleared c))) [
        | inr (x, c', e) ↦ absurd (ground (arith, h, e))
        | inl (u, c', e) ↦
            let r = sync-AllLinked regions pods c c' distinct e in
            check_all-AllCurrent (names_of r.0.regions) (record (r.0) { synced = true }) d s t
              (λ name x q. inl (lookup-Mem name r.0.regions x q))
              (λ name at q.
                let l = r.2 name at q in
                record {
                  cache = l.cache;
                  region_found = l.region_found;
                  node = l.node;
                  node_found = l.node_found;
                })
              (ground (arith, h, e, r.1))
      ]
