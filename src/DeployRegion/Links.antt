-- ===== src/DeployRegion/Links.antt =====
-- The map from nodes to regions, and the nodes of the regions.
use mathlib.Core.Logic.{◌⊎◌}
use extended_deployment.Base.{
  String, str_eq, eq_iff, ◌≡◌, ◌≢◌, refl, ◌∙◌, ap, false, Bool-cases, Option-cases, inl, inr,
  Option, none, some, ok, nil_pointer, lookup, put_key, lookup-put_key, lookup-put_key_other,
  lookup-delete_key, arith,
}
use extended_deployment.Adapter.{done, fail}
use extended_deployment.DeployRegion.Cache.{
  Pod, NodeResourceCache, RegionResourceCache, AllResourceCache, on_pod_update, del_region,
}
use extended_deployment.DeployRegion.Events.{with_node, set_node, apply_pod, handle_pod_event}

-- A node is where the map says.
pub record IsLinked (c : AllResourceCache) (name region : String) : Type 0 where
  pub cache : RegionResourceCache
  pub region_found : lookup region c.regions ≡ some cache
  pub node : NodeResourceCache
  pub node_found : lookup name cache.nodes ≡ some node

abbrev pub AllLinked : AllResourceCache → Type 0
AllLinked c =
    (name region : String) → lookup name c.node_to_region ≡ some region → IsLinked c name region

pub equal_or_not : (a b : String) → (a ≡ b) ⊎ (a ≢ b)
equal_or_not a b = elim (Bool-cases (str_eq a b)) [
  | inl e ↦ inl ((eq_iff a b).0 e)
  | inr e ↦ inr (λ q. absurd (ground (arith, (eq_iff a b).1 q)))
]

-- A node that is replaced stays linked, and so do all others.
pub set_node-IsLinked :
    (c : AllResourceCache) (name region other at : String) (l : IsLinked c name region)
    (n : NodeResourceCache)
    → IsLinked c other at
    → IsLinked (set_node region l.cache name n c) other at
set_node-IsLinked c name region other at l n k = elim (equal_or_not at region) [
  | inr d ↦ record {
    cache = k.cache;
    region_found = lookup-put_key_other region at _ c.regions d ∙ k.region_found;
    node = k.node;
    node_found = k.node_found;
  }
  | inl e ↦
      let found : lookup at (set_node region l.cache name n c).regions
          ≡ some (record (l.cache) { nodes = put_key name n l.cache.nodes }) =
        rw e (
          lookup-put_key region (record (l.cache) { nodes = put_key name n l.cache.nodes })
            c.regions) in
      let same : l.cache ≡ k.cache =
        ground (arith, l.region_found, ap (λ x. lookup x c.regions) e, k.region_found) in
      elim (equal_or_not other name) [
        | inl q ↦ record {
          cache = record (l.cache) { nodes = put_key name n l.cache.nodes };
          region_found = found;
          node = n;
          node_found = rw q (lookup-put_key name n l.cache.nodes);
        }
        | inr q ↦ record {
          cache = record (l.cache) { nodes = put_key name n l.cache.nodes };
          region_found = found;
          node = k.node;
          node_found =
              lookup-put_key_other name other n l.cache.nodes q
              ∙ ap (λ r. lookup other r.nodes) same
              ∙ k.node_found;
        }
      ]
]

pub with_node-found :
    (c : AllResourceCache) (region name : String) (f : NodeResourceCache → NodeResourceCache)
    (r : RegionResourceCache) (n : NodeResourceCache)
    → lookup region c.regions ≡ some r
    → lookup name r.nodes ≡ some n
    → with_node region name f c ≡ done tt (set_node region r name (f n) c)
with_node-found c region name f r n e h = ground (arith, e, h)

with_node-lost :
    (c : AllResourceCache) (region name : String) (f : NodeResourceCache → NodeResourceCache)
    → lookup region c.regions ≡ none
    → with_node region name f c ≡ fail nil_pointer c
with_node-lost c region name f e = ground (arith, e)

apply_pod-known :
    (c : AllResourceCache) (pod : Pod) (region : String)
    → str_eq pod.node_name "" ≡ false
    → lookup pod.node_name c.node_to_region ≡ some region
    → apply_pod pod c ≡ with_node region pod.node_name (on_pod_update pod) c
unfolding apply_pod
apply_pod-known c pod region e f = rw (e, f, apply_pod) refl

-- While every node is where the map says, the event of a pod never meets a nil pointer, whatever the
-- pod is, and leaves every node where the map says.
pub handle_pod_event-AllLinked :
    (c : AllResourceCache) (pod : Option Pod)
    → AllLinked c
    → (c' : AllResourceCache) × (handle_pod_event (ok pod) c ≡ done tt c') × AllLinked c'
unfolding handle_pod_event apply_pod
handle_pod_event-AllLinked c none v = (c, refl, v)
handle_pod_event-AllLinked c (some pod) v = elim (Bool-cases (str_eq pod.node_name "")) [
  | inl e ↦ (c, rw (e, handle_pod_event, apply_pod) refl, v)
  | inr e ↦ elim (Option-cases (lookup pod.node_name c.node_to_region)) [
    | inl f ↦ (c, rw (e, f, handle_pod_event, apply_pod) refl, v)
    | inr (region, f) ↦
        let l = v pod.node_name region f in
        (
          set_node region l.cache pod.node_name (on_pod_update pod l.node) c,
          apply_pod-known c pod region e f
              ∙ with_node-found c region pod.node_name (on_pod_update pod) l.cache l.node
                  l.region_found l.node_found,
          λ other at h.
              set_node-IsLinked c pod.node_name region other at l (on_pod_update pod l.node)
                (v other at h),
        )
  ]
]

-- Once a region is deleted, the event of a pod on one of its nodes meets a nil pointer: the
-- deletion leaves the nodes in the map.
pub handle_pod_event-del_region :
    (c : AllResourceCache) (pod : Pod) (region : String)
    → str_eq pod.node_name "" ≡ false
    → lookup pod.node_name c.node_to_region ≡ some region
    → handle_pod_event (ok (some pod)) (del_region region c)
      ≡ fail nil_pointer (del_region region c)
unfolding handle_pod_event apply_pod
handle_pod_event-del_region c pod region e f =
    apply_pod-known (del_region region c) pod region e f
    ∙ with_node-lost (del_region region c) region pod.node_name (on_pod_update pod)
        (lookup-delete_key region c.regions)
