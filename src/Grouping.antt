-- ===== src/Grouping.antt =====
-- Which workloads belong to which region, what each region should have, and whether it has it
-- (groupSubset in pkg/controllers/extendeddeployment/subset_control.go, checkIfTermReady and
-- checkSaturated in controller.go, and the annotations that these read, pkg/utils/annotation.go).
-- The decoding of JSON is a parameter.
pub mod Partition
pub mod Readiness
use extended_deployment.Base.{
  String, ℤ, pos, ltb_ℤ, leb_ℤ, eqb_ℤ, add32, wrap32, Bool, true, false, ◌||◌, if◌then◌else◌,
  str_eq, List, [], ◌∷◌, ◌++◌, Option, none, some, Result, ok, err, Error, nil_pointer, lookup,
  put_key,
}
use extended_deployment.Api.{Region, IntOrString}
use extended_deployment.Adapter.{Subset, RegionInfo, InplaceUpdateStatus}
use extended_deployment.Replicas.{parse_region_replicas}

pub record ScheduleReplicas : Type 0 where
  pub config : ℤ
  pub schedule : ℤ

abbrev pub desired_of : ScheduleReplicas → ℤ
desired_of r = add32 r.config r.schedule

pub record AutoScheduleSpec : Type 0 where
  pub generation : ℤ
  pub failure_region : String
  pub infos : List (String × ScheduleReplicas)

pub record InplaceSetUpdateSpec : Type 0 where
  pub update_pod_num : ℤ
  pub pod_template_hash : String

abbrev pub Annotations : Type 0
Annotations = List (String × String)

abbrev pub annotation_reschedule : String
annotation_reschedule = "deployment.extendeddeployment.io/reschedule"

abbrev pub annotation_region_name : String
annotation_region_name = "inplaceset.extendeddeployment.io/region-name"

abbrev pub annotation_update_spec : String
annotation_update_spec = "inplaceset.extendeddeployment.io/inplaceset-update-spec"

abbrev pub or_empty : Option String → String
or_empty none = ""
or_empty (some s) = s

abbrev pub get_subset_region_name : Subset → String
get_subset_region_name ss = or_empty (lookup annotation_region_name ss.annotations)

unfoldable pub get_auto_schedule_spec :
    (String → Result AutoScheduleSpec) → Annotations → Result (Option AutoScheduleSpec)
get_auto_schedule_spec unmarshal anno = elim (lookup annotation_reschedule anno) [
  | none ↦ ok none
  | some text ↦ elim (unmarshal text) [ err e ↦ err e | ok spec ↦ ok (some spec) ]
]

-- The specification, if it is there and can be read.
unfoldable pub get_inplace_set_update_spec :
    (String → Result InplaceSetUpdateSpec) → Annotations → Option InplaceSetUpdateSpec
get_inplace_set_update_spec unmarshal anno = elim (lookup annotation_update_spec anno) [
  | none ↦ none
  | some text ↦ elim (unmarshal text) [ err e ↦ none | ok spec ↦ some spec ]
]

abbrev pub RegionInfos : Type 0
RegionInfos = List (String × RegionInfo)

abbrev new_region_info : ℤ → RegionInfo
new_region_info replicas = record {
  new = none;
  olds = [];
  replicas_desired = false;
  available_desired = false;
  desired_replicas = replicas;
  configured_replicas = replicas;
}

abbrev pub replicas_behind : ℤ → Option IntOrString → Result ℤ
replicas_behind total none = err nil_pointer
replicas_behind total (some v) = parse_region_replicas total v

-- The regions of the specification; of two with the same name the last one counts.
unfoldable pub region_infos_from : ℤ → RegionInfos → List Region → Result RegionInfos
region_infos_from total infos [] = ok infos
region_infos_from total infos (r ∷ rest) = elim (replicas_behind total r.replicas) [
  | err e ↦ err e
  | ok n ↦ region_infos_from total (put_key r.name (new_region_info n) infos) rest
]

module _ (equal : Subset → Bool) where
  -- The first workload with the current template is the new one.
  unfoldable pub join : Subset → RegionInfo → RegionInfo
  join ss ri = elim ri.new [
    | some n ↦ record ri { olds = ri.olds ++ ss ∷ [] }
    | none ↦
        if equal ss then record ri { new = some ss } else record ri { olds = ri.olds ++ ss ∷ [] }
  ]

  -- The loop over all workloads: the regions, and the workloads of no region.
  unfoldable pub group_loop : RegionInfos → List Subset → List Subset → RegionInfos × List Subset
  unfolding join
  group_loop infos unused [] = (infos, unused)
  group_loop infos unused (ss ∷ rest) = elim (lookup (get_subset_region_name ss) infos) [
    | none ↦ group_loop infos (unused ++ ss ∷ []) rest
    | some ri ↦ group_loop (put_key (get_subset_region_name ss) (join ss ri) infos) unused rest
  ]

abbrev pub scheduled : List (String × ScheduleReplicas) → String → RegionInfo → RegionInfo
scheduled infos name ri = elim (lookup name infos) [
  | none ↦ ri
  | some r ↦ record ri { desired_replicas = desired_of r }
]

unfoldable pub set_scheduled : Option AutoScheduleSpec → RegionInfos → RegionInfos
set_scheduled none infos = infos
set_scheduled (some spec) [] = []
set_scheduled (some spec) ((name, ri) ∷ rest) =
    (name, scheduled spec.infos name ri) ∷ set_scheduled (some spec) rest

-- An update in place is under way: the flags change if the status is the one of this update.
unfoldable pub inplace_state : InplaceSetUpdateSpec → Subset → RegionInfo → RegionInfo
inplace_state spec ss ri = elim ss.status.inplace_update_status [
  | none ↦ ri
  | some status ↦
      let enough = leb_ℤ (wrap32 spec.update_pod_num) status.available_replicas in
      let scale_down = ltb_ℤ ri.desired_replicas ss.spec.replicas in
      if str_eq status.pod_template_hash spec.pod_template_hash
      then record ri {
        replicas_desired = eqb_ℤ (wrap32 spec.update_pod_num) ri.desired_replicas;
        available_desired =
            if enough
            then true
            else if scale_down
            then leb_ℤ ri.desired_replicas status.available_replicas
            else false;
      }
      else ri
]

unfoldable pub plain_state : Subset → RegionInfo → RegionInfo
plain_state ss ri = record ri {
  replicas_desired = eqb_ℤ ss.spec.replicas ri.desired_replicas;
  available_desired =
      ltb_ℤ ri.desired_replicas ss.spec.replicas
      || leb_ℤ ss.spec.replicas ss.status.available_replicas;
}

module _ (unmarshal : String → Result InplaceSetUpdateSpec) where
  unfoldable pub region_state : RegionInfo → RegionInfo
  unfolding inplace_state plain_state
  region_state ri = elim ri.new [
    | none ↦ ri
    | some ss ↦ elim (get_inplace_set_update_spec unmarshal ss.annotations) [
      | some spec ↦ inplace_state spec ss ri
      | none ↦ plain_state ss ri
    ]
  ]

  unfoldable pub region_states : RegionInfos → RegionInfos
  unfolding region_state
  region_states [] = []
  region_states ((name, ri) ∷ rest) = (name, region_state ri) ∷ region_states rest

unfoldable pub region_infos : Option ℤ → List Region → Result RegionInfos
unfolding region_infos_from
region_infos total [] = ok []
region_infos none (r ∷ rest) = err nil_pointer
region_infos (some n) (r ∷ rest) = region_infos_from n [] (r ∷ rest)

-- groupSubset: the regions with their workloads, and the workloads of no region.
unfoldable pub group_subset :
    (Subset → Bool)
    → (String → Result AutoScheduleSpec)
    → (String → Result InplaceSetUpdateSpec)
    → Annotations
    → Option ℤ
    → List Region
    → List Subset
    → Result (RegionInfos × List Subset)
unfolding region_infos group_loop set_scheduled region_states
group_subset equal unmarshal unmarshal_update anno total regions all =
    elim (region_infos total regions) [
      | err e ↦ err e
      | ok infos ↦ elim (get_auto_schedule_spec unmarshal anno) [
        | err e ↦ err e
        | ok spec ↦
            let grouped = group_loop equal infos [] all in
            ok (region_states unmarshal_update (set_scheduled spec grouped.0), grouped.1)
      ]
    ]

pub data Term : Type 0 where
  term_init term_ready term_not_ready : Term

abbrev is_missing : Option Subset → Bool
is_missing none = true
is_missing (some ss) = false

unfoldable pub check_if_term_ready : RegionInfos → Term
check_if_term_ready [] = term_ready
check_if_term_ready ((name, ri) ∷ rest) =
    if is_missing ri.new
    then term_init
    else if ri.available_desired
    then check_if_term_ready rest
    else term_not_ready

unfoldable pub check_saturated : RegionInfos → Bool
check_saturated [] = true
check_saturated ((name, ri) ∷ rest) =
    if ri.replicas_desired
    then if ri.available_desired then check_saturated rest else false
    else false
