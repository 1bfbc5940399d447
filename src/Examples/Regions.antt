-- ===== src/Examples/Regions.antt =====
-- Resources of regions and rescheduling at concrete inputs.
use mathlib.Core.Logic.{◌↔◌}
use extended_deployment.DeployRegion.Cache.{
  AllResourceCache, Node, new_node, add_pod, add_node, empty_region, del_region, status_unknown,
}
use extended_deployment.DeployRegion.Events.{handle_pod_event}
use extended_deployment.DeployRegion.Links.{
  AllLinked, handle_pod_event-AllLinked, handle_pod_event-del_region,
}
use extended_deployment.DeployRegion.Sync.{
  sync_nodes, sync_regions, sync_pods, check_all, wait_cache_synced,
}
use extended_deployment.DeployRegion.Current.{AllCurrent, wait_cache_synced-AllCurrent}
use extended_deployment.DeployRegion.Failure.{World, check_region_status, flag_all}
use extended_deployment.DeployRegion.Started.{cleared}
use extended_deployment.Adapter.{done, fail}
use extended_deployment.Base.{
  Result, nil_pointer, Bool-cases, inl, inr, String, str_eq, ℕ, ◌+◌, ◌^◌, ◌≤◌, ◌<◌, ◌≡◌, ◌≢◌, refl,
  pos, Bool, true, false, List, [], ◌∷◌, All, Memᴰ, sum_of, none, some, ok, err,
  no_available_region, arith, pos_part, neg_part, eq_iff, if◌then◌else◌,
}
use extended_deployment.DeployRegion.Resource.{ResourceList, Quantity, cpu, memory, max_divided}
use extended_deployment.DeployRegion.Totals.{amounts}
use extended_deployment.DeployRegion.Division.{Holds, max_divided_lem}
use extended_deployment.DeployRegion.Cache.{
  Pod, other_phase, on_pod_update, NodeResourceCache, region_status, status_failed, status_ok,
}
use extended_deployment.DeployRegion.Requests.{
  Kind, cpu_kind, memory_kind, storage_kind, pods_kind, amount_of,
}
use extended_deployment.DeployRegion.Pods.{Accounts, on_pod_update-Accounts}
use extended_deployment.DeployRegion.Tracking.{track}
use extended_deployment.DeployRegion.Status.{AllReady, region_status_lem}
use extended_deployment.Reschedule.{
  ScheduleRegionInfo, ScheduleInfo, Infos, reschedule, reschedule_failed_regions, failed_in,
}
use extended_deployment.Reschedule.Choice.{IsRegion, room_of, planned_of}
use extended_deployment.Reschedule.Transfer.{Transferred, reschedule_lem}
use extended_deployment.Reschedule.Failed.{reschedule_failed_regions_lem}

abbrev quantity : ℕ → Quantity
quantity n = record { milli_value = pos n; value = pos n }

abbrev request : ResourceList
request = (cpu, quantity 500) ∷ (memory, quantity 64) ∷ []

abbrev turned : ResourceList
turned = (memory, quantity 64) ∷ (cpu, quantity 500) ∷ []

max_divided_lem_example :
    (k : ℕ) × (max_divided (amounts 2000 256 0 10) request ≡ pos k)
    × ((n : ℕ) → (n ≤ k) ↔ ((n ≤ 10) × All (Holds 2000 256 0 10 n) request))
max_divided_lem_example =
    max_divided_lem 2000 256 0 10 request ((refl, refl), ((refl, refl), tt)) (omega arith)

abbrev node : NodeResourceCache
node = record {
  name = "n1";
  is_ready = true;
  allocatable = amounts 4000 512 0 10;
  allocated = amounts 0 0 0 0;
  pods = [];
}

abbrev pod : Pod
pod = record {
  namespace = "shop";
  name = "web-1";
  node_name = "n1";
  phase = other_phase "Running";
  deleted = false;
  requests = request ∷ [];
}

abbrev node-Accounts : Accounts node []
node-Accounts = record { keys = refl; distinct = tt; demands = tt; allocated = refl }

small : (k : Kind) → 0 + sum_of (λ rl. sum_of (amount_of k) rl) (request ∷ []) < 2 ^ 63
small cpu_kind = omega arith
small memory_kind = omega arith
small storage_kind = omega arith
small pods_kind = omega arith

on_pod_update-Accounts_example : Accounts (on_pod_update pod node) (track pod [])
on_pod_update-Accounts_example =
    on_pod_update-Accounts pod node [] node-Accounts (((refl, refl), ((refl, refl), tt)), tt) tt
      small

abbrev region_nodes : List (String × NodeResourceCache)
region_nodes = ("n1", record node { is_ready = false }) ∷ []

region_status_lem_example :
    ((region_status region_nodes ≡ status_failed)
      ↔ ((region_nodes ≢ []) × AllReady false region_nodes))
    × ((region_status region_nodes ≡ status_ok)
        ↔ ((region_nodes ≢ []) × AllReady true region_nodes))
region_status_lem_example = region_status_lem region_nodes

abbrev region : String → ℕ → ℕ → ScheduleRegionInfo
region name replicas room = record {
  name = name;
  config_replicas = pos replicas;
  schedule_replicas = pos replicas;
  reschedule_replicas = pos replicas;
  allocatable_pod = pos room;
}

abbrev regions : Infos
regions name =
    if str_eq name "east"
    then some (region "east" 3 0)
    else if str_eq name "west"
    then some (region "west" 2 2)
    else if str_eq name "north"
    then some (region "north" 1 4)
    else none

abbrev is_region :
    (name : String) (r : ScheduleRegionInfo)
    → regions name ≡ some r
    → r.name ≡ name
    → pos_part r.allocatable_pod < 2 ^ 63
    → neg_part r.reschedule_replicas ≡ 0
    → IsRegion regions name
is_region name r f n s p = record {
  region = r;
  found = f;
  named = n;
  room_small = s;
  planned_nonneg = p;
}

abbrev west : IsRegion regions "west"
west = is_region "west" (region "west" 2 2) refl refl (omega arith) refl

abbrev north : IsRegion regions "north"
north = is_region "north" (region "north" 1 4) refl refl (omega arith) refl

abbrev east : IsRegion regions "east"
east = is_region "east" (region "east" 3 0) refl refl (omega arith) refl

abbrev two : List String
two = "west" ∷ "north" ∷ []

differ : (a b : String) → str_eq a b ≡ false → a ≢ b
differ a b h e = absurd (ground (arith, (eq_iff a b).1 e))

reschedule_lem_example :
    (3 ≤ sum_of (room_of regions) two
      → (m : Infos) × (reschedule two 3 regions ≡ ok m) × Transferred regions m two 3)
    × (sum_of (room_of regions) two < 3 → reschedule two 3 regions ≡ err no_available_region)
reschedule_lem_example =
    reschedule_lem regions two 3 (west, (north, tt)) ((differ "north" "west" refl, tt), (tt, tt))
      (omega arith)

abbrev info : ScheduleInfo
info = record { names = "east" ∷ two; regions_info = regions }

abbrev failed : List (String × Bool)
failed = ("east", true) ∷ []

reschedule_failed_regions_lem_example :
    (m : Infos) × (reschedule_failed_regions failed info ≡ ok m)
    × (sum_of (planned_of m) info.names ≡ sum_of (planned_of regions) info.names)
    × ((t : String)
        → Memᴰ t info.names
        → (failed_in failed t ≡ true → planned_of m t ≡ 0)
          × (failed_in failed t ≡ false
              → (planned_of regions t ≤ planned_of m t)
                × (planned_of m t ≤ planned_of regions t + room_of regions t)))
reschedule_failed_regions_lem_example =
    (reschedule_failed_regions_lem ("east", true) [] info
        (
          record { is_region = east; planned_config = refl },
          (
            record { is_region = west; planned_config = refl },
            (record { is_region = north; planned_config = refl }, tt),
          ),
        )
        (
          (differ "west" "east" refl, (differ "north" "east" refl, tt)),
          ((differ "north" "west" refl, tt), (tt, tt)),
        )
        (omega arith)).0
      (omega arith)

abbrev linked : AllResourceCache
linked = record {
  synced = true;
  regions =
      ("east", record { name = "east"; nodes = ("n1", node) ∷ []; status = status_unknown }) ∷ [];
  node_to_region = ("n1", "east") ∷ [];
}

linked-AllLinked : AllLinked linked
linked-AllLinked name region h = elim (Bool-cases (str_eq name "n1")) [
  | inl e ↦
      let n : name ≡ "n1" = (eq_iff name "n1").0 e in
      let r : region ≡ "east" = ground (arith, e) in
      record {
        cache = record { name = "east"; nodes = ("n1", node) ∷ []; status = status_unknown };
        region_found = rw r refl;
        node = node;
        node_found = rw n refl;
      }
  | inr e ↦ absurd (ground (arith, e))
]

handle_pod_event-AllLinked_example :
    (c : AllResourceCache) × (handle_pod_event (ok (some pod)) linked ≡ done tt c) × AllLinked c
handle_pod_event-AllLinked_example = handle_pod_event-AllLinked linked (some pod) linked-AllLinked

handle_pod_event-del_region_example :
    handle_pod_event (ok (some pod)) (del_region "east" linked)
    ≡ fail nil_pointer (del_region "east" linked)
handle_pod_event-del_region_example = handle_pod_event-del_region linked pod "east" refl refl

abbrev n1 : Node
n1 = record { name = "n1"; conditions = []; allocatable = request }

abbrev n2 : Node
n2 = record { name = "n2"; conditions = []; allocatable = request }

abbrev all_regions : List (String × Result (List Node))
all_regions = ("east", ok (n1 ∷ [])) ∷ ("west", ok (n2 ∷ [])) ∷ []

abbrev started : AllResourceCache
started = record {
  synced = true;
  regions =
      ("east", add_node n1 (empty_region "east"))
      ∷ ("west", add_node n2 (empty_region "west"))
      ∷ [];
  node_to_region = ("n1", "east") ∷ ("n2", "west") ∷ [];
}

all_regions-started : sync_regions all_regions (cleared linked) ≡ done tt started
unfolding sync_regions sync_nodes add_node
all_regions-started = refl

-- An API server without deployments.
abbrev world : World
world = record {
  State = Unit;
  in_region = λ region s. ok [];
  query = λ key s. ok none;
  update = λ key deploy s. done tt s;
}

-- No node is ready, so the regions have failed.
abbrev synced : AllResourceCache
synced = record {
  synced = true;
  regions =
      (
        "east",
        record {
          name = "east";
          nodes = ("n1", add_pod pod (new_node n1)) ∷ [];
          status = status_failed;
        },
      )
      ∷ ("west", record { name = "west"; nodes = ("n2", new_node n2) ∷ []; status = status_failed })
      ∷ [];
  node_to_region = ("n1", "east") ∷ ("n2", "west") ∷ [];
}

start : wait_cache_synced world (ok all_regions) (ok (pod ∷ [])) (linked, tt) ≡ done tt (synced, tt)
unfolding wait_cache_synced sync_regions sync_nodes add_node new_node sync_pods add_pod check_all
    check_region_status region_status flag_all
start = refl

wait_cache_synced-AllCurrent_example : AllLinked synced × AllCurrent synced
wait_cache_synced-AllCurrent_example =
    wait_cache_synced-AllCurrent world all_regions (pod ∷ []) linked synced tt tt
      ((differ "west" "east" refl, tt), (tt, tt)) start
