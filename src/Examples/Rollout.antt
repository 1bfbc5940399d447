-- ===== src/Examples/Rollout.antt =====
-- Grouping, readiness and confirmation at concrete inputs.
use extended_deployment.Grouping.{get_inplace_set_update_spec}
use extended_deployment.Base.{
  String, ℕ, ◌+◌, ◌≤◌, ◌≡◌, refl, pos, Bool, true, false, str_eq, List, [], ◌∷◌, All, Option, none,
  some, Result, err, lookup, not_valid,
}
use extended_deployment.Api.{Strategy, group_rollout}
use extended_deployment.Adapter.{Subset, RegionInfo}
use extended_deployment.Grouping.{
  RegionInfos, InplaceSetUpdateSpec, annotation_region_name, group_loop, check_saturated,
  region_states,
}
use extended_deployment.Grouping.Partition.{first_equal, others, in_region, outside, group_loop_lem}
use extended_deployment.Grouping.Readiness.{IsReached, check_saturated-IsReached}
use extended_deployment.Confirm.Rounds.{
  check, confirm, rounds_started, confirmations, pending, rounds_started-confirmations,
}

abbrev workload : String → String → ℕ → Subset
workload name region replicas = record {
  namespace = "shop";
  name = name;
  creation_timestamp = 1;
  annotations = (annotation_region_name, region) ∷ [];
  containers = [];
  spec = record { replicas = pos replicas; min_ready_seconds = pos 0 };
  status = record {
    replicas = pos replicas;
    ready_replicas = pos replicas;
    available_replicas = pos replicas;
    inplace_update_status = none;
  };
}

abbrev info : Option Subset → Bool → RegionInfo
info new available = record {
  new = new;
  olds = [];
  replicas_desired = false;
  available_desired = available;
  desired_replicas = pos 2;
  configured_replicas = pos 2;
}

abbrev current : Subset → Bool
current ss = str_eq ss.name "web2"

abbrev all : List Subset
all = workload "web1" "east" 1 ∷ workload "web2" "east" 2 ∷ workload "web3" "north" 1 ∷ []

group_loop_lem_example :
    (lookup "east" (group_loop current (("east", info none false) ∷ []) [] all).0
      ≡ some (record (info none false) {
        new = first_equal current (in_region "east" all);
        olds = others current (in_region "east" all);
      }))
    × ((group_loop current (("east", info none false) ∷ []) [] all).1
        ≡ outside (("east", info none false) ∷ []) all)
group_loop_lem_example =
    group_loop_lem current (("east", info none false) ∷ []) all "east" (info none false) refl refl
      refl

abbrev ready : RegionInfos
ready = ("east", info (some (workload "web2" "east" 2)) true) ∷ []

abbrev unmarshal : String → Result InplaceSetUpdateSpec
unmarshal text = err not_valid

check_saturated-IsReached_example : All (IsReached unmarshal) ready
unfolding check_saturated region_states get_inplace_set_update_spec
check_saturated-IsReached_example = check_saturated-IsReached unmarshal ready (refl, tt) refl

abbrev confirming : Strategy
confirming = record {
  batch_size = pos 1;
  min_ready_seconds = pos 0;
  need_waiting_for_confirm = true;
  need_first_confirm = false;
  sync_wait_timeout = pos 0;
  rollout_strategy = group_rollout;
  pause = false;
  auto_reschedule = none;
  update_strategy = none;
}

rounds_started-confirmations_example :
    (rounds_started confirming [] (check ∷ check ∷ confirm ∷ check ∷ check ∷ [])
      ≤ confirmations (check ∷ check ∷ confirm ∷ check ∷ check ∷ []) + pending [])
    × (rounds_started confirming [] (confirm ∷ check ∷ []) ≡ 1)
    × (rounds_started confirming [] (check ∷ []) ≡ 0)
rounds_started-confirmations_example =
    rounds_started-confirmations confirming [] (check ∷ check ∷ confirm ∷ check ∷ check ∷ []) refl
      refl
