-- ===== src/Status.antt =====
-- The status of a deployment (calculateStatus, SyncStatusOnly and UpdateProgressing in
-- pkg/controllers/extendeddeployment/update.go, SetDeploymentCondition in pkg/utils/deployment_util.go, which is
-- SetCondition of the in-place sets but for its times). The text of the selector is a parameter, and so
-- are the texts of numbers; a start time that cannot be read counts as none.
pub mod Progress
use Prim.Native.String.{compare}
use text.Mathlib.Text.{is_lt}
use extended_deployment.Base.{
  ℤ, pos, add32, sub32, sub64, ltb_ℤ, eqb_ℤ, String, str_eq, str_append, Bool, true, not, ◌&&◌,
  ◌||◌, if◌then◌else◌, List, [], ◌∷◌, ◌++◌, Option, none, some, Result, ok, err, Error, nil_pointer,
}
use extended_deployment.Api.{Strategy}
use extended_deployment.Adapter.{Subset, RegionInfo, Outcome, fail}
use extended_deployment.Adapter.Order.{sort}
use extended_deployment.Grouping.{
  Annotations, AutoScheduleSpec, RegionInfos, get_auto_schedule_spec,
}
use extended_deployment.InplaceSet.Conditions.{Condition, set_condition}
use extended_deployment.InplaceSet.Update.{retry_on_conflict}
use extended_deployment.Rollout.{
  IntText, pointers, get_actual_replica_count_for_subsets, get_ready_replica_count_for_subsets,
  get_available_replica_count_for_subsets, get_replica_count_for_subsets, count_replicas,
}

pub record RegionStatus : Type 0 where
  pub region_name : String
  pub replicas : ℤ
  pub updated_replicas : ℤ
  pub ready_replicas : ℤ
  pub available_replicas : ℤ
  pub unavailable_replicas : ℤ

pub record DeploymentStatus : Type 0 where
  pub replicas : ℤ
  pub label_selector : String
  pub regions : List RegionStatus
  pub conditions : List Condition
  pub collision_count : Option ℤ
  pub overview : String
  pub last_term_start_time : String

-- The deployment, by what its status is made from.
pub record Observed : Type 0 where
  pub annotations : Annotations
  pub strategy : Strategy
  pub status : DeploymentStatus

-- What is read besides the deployment and its regions; `selector` is none where it is not valid.
pub record Reading : Type 0 where
  pub text : IntText
  pub unmarshal : String → Result AutoScheduleSpec
  pub selector : Option String
  pub now : ℤ

-- All workloads of a region, with the new one last, which may be nil.
abbrev pub all_subsets : RegionInfo → List (Option Subset)
all_subsets info = pointers info.olds ++ (info.new ∷ [])

unfoldable pub region_status_of : String → RegionInfo → RegionStatus
unfolding count_replicas
region_status_of name info = record {
  region_name = name;
  replicas = get_actual_replica_count_for_subsets (all_subsets info);
  updated_replicas = get_actual_replica_count_for_subsets (info.new ∷ []);
  ready_replicas = get_ready_replica_count_for_subsets (all_subsets info);
  available_replicas = get_available_replica_count_for_subsets (all_subsets info);
  unavailable_replicas =
      sub32 (get_replica_count_for_subsets (all_subsets info))
        (get_available_replica_count_for_subsets (all_subsets info));
}

unfoldable pub region_statuses : RegionInfos → List RegionStatus
unfolding region_status_of
region_statuses [] = []
region_statuses ((name, info) ∷ rest) = region_status_of name info ∷ region_statuses rest

-- allReplicas.
unfoldable pub sum_replicas : ℤ → RegionInfos → ℤ
unfolding region_status_of
sum_replicas total [] = total
sum_replicas total ((name, info) ∷ rest) =
    sum_replicas (add32 total (region_status_of name info).replicas) rest

-- allRegionSynced.
unfoldable pub all_synced : RegionInfos → Bool
all_synced [] = true
all_synced ((name, info) ∷ rest) =
    info.replicas_desired && info.available_desired && all_synced rest

-- The texts of the regions.
unfoldable pub region_texts : IntText → RegionInfos → List String
unfolding region_status_of
region_texts text [] = []
region_texts text ((name, info) ∷ rest) =
    str_append name (
      str_append ": " (
        str_append (text.format (region_status_of name info).replicas)
          (str_append "/" (text.format info.configured_replicas))))
    ∷ region_texts text rest

abbrev pub join_texts : List String → String
join_texts [] = ""
join_texts (a ∷ []) = a
join_texts (a ∷ b ∷ rest) = str_append a (str_append "; " (join_texts (b ∷ rest)))

abbrev pub title : Result (Option AutoScheduleSpec) → String
title (err e) = "[Normal]"
title (ok none) = "[Normal]"
title (ok (some spec)) = if str_eq spec.failure_region "" then "[Insufficient]" else "[Failure]"

unfoldable pub overview_of : Reading → Observed → RegionInfos → String
unfolding region_texts sort get_auto_schedule_spec
overview_of x d infos =
    str_append (title (get_auto_schedule_spec x.unmarshal d.annotations))
      (join_texts (sort (λ a b. is_lt (compare a b)) (region_texts x.text infos)))

abbrev pub progressing : String → String → String → Condition
progressing status reason message = record {
  kind = "Progressing";
  status = status;
  reason = reason;
  message = message;
}

abbrev pub synced_condition : Condition
synced_condition = progressing "False" "AllRegionSynced" "all region is synced"

abbrev pub timeout_condition : Condition
timeout_condition = progressing "False" "SyncWaitTimeout" "sync wait timeout"

abbrev pub not_synced_condition : Condition
not_synced_condition = progressing "True" "NotAllRegionSynced" "not all region is synced"

abbrev pub or_zero : Result ℤ → ℤ
or_zero (err e) = pos 0
or_zero (ok n) = n

-- The seconds to wait for a round: 300 if none are set.
abbrev pub term_timeout : Strategy → ℤ
term_timeout strategy =
    if eqb_ℤ strategy.sync_wait_timeout (pos 0) then pos 300 else strategy.sync_wait_timeout

-- The round has started, and longer ago than the time to wait.
unfoldable pub is_timed_out : Reading → Observed → Bool
is_timed_out x d =
    let t = or_zero (x.text.parse d.status.last_term_start_time) in
    not (eqb_ℤ t (pos 0)) && ltb_ℤ (term_timeout d.strategy) (sub64 x.now t)

unfoldable pub progress_condition : Reading → Observed → RegionInfos → Condition
unfolding all_synced is_timed_out
progress_condition x d infos =
    if all_synced infos
    then synced_condition
    else if is_timed_out x d
    then timeout_condition
    else not_synced_condition

abbrev pub or_no_text : Option String → String
or_no_text none = ""
or_no_text (some s) = s

unfoldable pub calculate_status : Reading → Observed → RegionInfos → DeploymentStatus
unfolding region_statuses sum_replicas overview_of progress_condition set_condition
calculate_status x d infos = record {
  replicas = sum_replicas (pos 0) infos;
  label_selector = or_no_text x.selector;
  regions = region_statuses infos;
  conditions = set_condition d.status.conditions (progress_condition x d infos);
  collision_count = d.status.collision_count;
  overview = overview_of x d infos;
  last_term_start_time = d.status.last_term_start_time;
}

-- The start time of the round after a call.
unfoldable pub start_time : Reading → Bool → Bool → String → String
start_time x refresh_time saturated old =
    if saturated then "" else if refresh_time || str_eq old "" then x.text.format x.now else old

-- The API server: a deployment that is gone is none, without an error.
pub record Deployments : Type 1 where
  pub State : Type 0
  pub query : State → Result (Option Observed)
  pub update_status : Observed → State → Outcome State (Unit {0})
  pub is_conflict : Error → Bool

module _ (c : Deployments) where
  -- One run of a call that writes the status. The comparison of the new status with the old one is
  -- between a pointer and a value, and so is never true.
  abbrev pub write_status : (Observed → DeploymentStatus) → c.State → Outcome c.State (Unit {0})
  write_status make s = elim (c.query s) [
    | err e ↦ fail e s
    | ok none ↦ fail nil_pointer s
    | ok (some d) ↦ c.update_status (record d { status = make d }) s
  ]

  abbrev with_start : String → Option ℤ → Observed → Observed
  with_start start count d = record d {
    status = record (d.status) { last_term_start_time = start; collision_count = count };
  }

  unfoldable pub sync_status_only :
      Reading
      → Observed
      → RegionInfos
      → (refresh_time saturated : Bool) → c.State
      → Outcome c.State (Unit {0})
  unfolding retry_on_conflict calculate_status start_time
  sync_status_only x d infos refresh_time saturated =
      let start = start_time x refresh_time saturated d.status.last_term_start_time in
      retry_on_conflict c.is_conflict 3 (
        write_status
          (λ cd. calculate_status x (with_start start d.status.collision_count cd) infos))

  unfoldable pub update_progressing : c.State → Outcome c.State (Unit {0})
  unfolding retry_on_conflict set_condition
  update_progressing = retry_on_conflict c.is_conflict 3 (
      write_status (λ cd. record (cd.status) {
        conditions = set_condition cd.status.conditions not_synced_condition;
      }))
