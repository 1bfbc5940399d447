-- ===== src/DeployRegion/Cache.antt =====
-- What is kept of each node and region (pkg/controllers/deployregion/cache.go), and what others ask
-- of it (utils.go). The pointers of the cache are never shared between two keys.
use Prim.Native.String.{◌++◌ as concat}
use extended_deployment.Base.{
  String, ℕ, suc, ◌==◌, leb, ℤ, pos, add64, Bool, true, false, ◌||◌, if◌then◌else◌, List, [], ◌∷◌,
  none, some, Result, ok, err, nil_pointer, lookup, put_key, delete_key, length,
}
use extended_deployment.DeployRegion.Resource.{
  Resource, ResourceList, empty_resource, add, sub, sub_resource, max_divided, resource_list,
}

-- The types of conditions of a node that the code tells apart, and whether the status is "True".
pub record NodeCondition : Type 0 where
  pub is_ready_type : Bool
  pub status : Bool

pub record Node : Type 0 where
  pub name : String
  pub conditions : List NodeCondition
  pub allocatable : ResourceList

pub data PodPhase : Type 0 where
  succeeded failed : PodPhase
  other_phase : String → PodPhase

pub record Pod : Type 0 where
  pub namespace : String
  pub name : String
  pub node_name : String
  pub phase : PodPhase
  -- Whether there is a deletion timestamp.
  pub deleted : Bool
  -- The requests of each container.
  pub requests : List ResourceList

pub record NodeResourceCache : Type 0 where
  pub name : String
  pub is_ready : Bool
  pub allocatable : Resource
  pub allocated : Resource
  pub pods : List (String × ℕ)

pub data RegionStatus : Type 0 where
  status_unknown status_ok status_failed : RegionStatus

pub record RegionResourceCache : Type 0 where
  pub name : String
  pub nodes : List (String × NodeResourceCache)
  pub status : RegionStatus

pub record AllResourceCache : Type 0 where
  pub synced : Bool
  pub regions : List (String × RegionResourceCache)
  pub node_to_region : List (String × String)

abbrev pub ready_in : List NodeCondition → Bool
ready_in [] = false
ready_in (c ∷ rest) = if c.is_ready_type then c.status else ready_in rest

abbrev pub is_node_ready : Node → Bool
is_node_ready node = ready_in node.conditions

unfoldable pub new_node : Node → NodeResourceCache
new_node node = record {
  name = node.name;
  is_ready = is_node_ready node;
  allocatable = add empty_resource node.allocatable;
  allocated = empty_resource;
  pods = [];
}

unfoldable pub add_node : Node → RegionResourceCache → RegionResourceCache
unfolding new_node
add_node node c = record c { nodes = put_key node.name (new_node node) c.nodes }

unfoldable pub on_node_update : Node → RegionResourceCache → RegionResourceCache
on_node_update node c = elim (lookup node.name c.nodes) [
  | none ↦ c
  | some n ↦ record c {
    nodes =
        put_key node.name
          (record n {
            is_ready = is_node_ready node;
            allocatable = add empty_resource node.allocatable;
          })
          c.nodes;
  }
]

abbrev pub pod_key : Pod → String
pod_key pod = concat pod.namespace (concat "/" pod.name)

abbrev is_over : PodPhase → Bool
is_over succeeded = true
is_over failed = true
is_over (other_phase s) = false

-- The life of the pod has ended.
abbrev pub is_finished : Pod → Bool
is_finished pod = pod.deleted || is_over pod.phase

unfoldable pub add_requests : Resource → List ResourceList → Resource
add_requests r [] = r
add_requests r (rl ∷ rest) = add_requests (add r rl) rest

-- The errors of Sub are dropped.
unfoldable pub sub_requests : Resource → List ResourceList → Resource
sub_requests r [] = r
sub_requests r (rl ∷ rest) = sub_requests ((sub r rl).0) rest

unfoldable pub add_pod : Pod → NodeResourceCache → NodeResourceCache
unfolding add_requests
add_pod pod c = if is_finished pod then c else record c {
  pods = put_key (pod_key pod) 0 c.pods;
  allocated = add_requests c.allocated pod.requests;
}

unfoldable pub on_pod_update : Pod → NodeResourceCache → NodeResourceCache
unfolding add_pod sub_requests
on_pod_update pod c = elim (lookup (pod_key pod) c.pods) [
  | none ↦ add_pod pod c
  | some n ↦
      if is_finished pod
      then record c {
        pods = delete_key (pod_key pod) c.pods;
        allocated = sub_requests c.allocated pod.requests;
      }
      else c
]

abbrev pub empty_region : String → RegionResourceCache
empty_region name = record { name = name; nodes = []; status = status_unknown }

abbrev pub add_region : String → AllResourceCache → AllResourceCache
add_region name c = record c { regions = put_key name (empty_region name) c.regions }

abbrev pub del_region : String → AllResourceCache → AllResourceCache
del_region name c = record c { regions = delete_key name c.regions }

abbrev pub not_ready : List (String × NodeResourceCache) → ℕ
not_ready [] = 0
not_ready ((name, n) ∷ rest) = if n.is_ready then not_ready rest else suc (not_ready rest)

-- The test of CheckRegionStatus on the share of nodes that are not ready: at least 1.0, or at most
-- 0.0. Without a node the share is 0.0 / 0.0, which is neither.
unfoldable pub region_status : List (String × NodeResourceCache) → RegionStatus
region_status nodes =
    if length nodes == 0
    then status_unknown
    else if leb (length nodes) (not_ready nodes)
    then status_failed
    else if not_ready nodes == 0
    then status_ok
    else status_unknown

abbrev pub is_failed : RegionStatus → Bool
is_failed status_failed = true
is_failed status_ok = false
is_failed status_unknown = false

unfoldable pub is_region_failed : String → AllResourceCache → Result Bool
is_region_failed region c = elim (lookup region c.regions) [
  | none ↦ err nil_pointer
  | some r ↦ ok (is_failed r.status)
]

abbrev divided_sum : Resource → ℤ → List (String × NodeResourceCache) → ℤ
divided_sum res num [] = num
divided_sum res num ((name, n) ∷ rest) =
    divided_sum res (add64 num (max_divided (sub_resource n.allocatable res) (resource_list res)))
      rest

abbrev allocatable_pods : Resource → RegionResourceCache → ℤ
allocatable_pods res r = if is_failed r.status then pos 0 else divided_sum res (pos 0) r.nodes

unfoldable pub get_region_allocatable_pod_num : String → Resource → AllResourceCache → ℤ
get_region_allocatable_pod_num region res c = elim (lookup region c.regions) [
  | none ↦ pos 0
  | some r ↦ allocatable_pods res r
]
