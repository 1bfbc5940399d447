-- ===== src/Rollout/Inplace.antt =====
-- One batch of an update in place (CheckInplaceUpdate and isCanInplaceUpdate in
-- pkg/controllers/extendeddeployment/subset_control.go, and the annotation of it in
-- pkg/utils/annotation.go). JSON, hashes and the comparison of templates are parameters.
use extended_deployment.Base.{
  length, ◌==◌, ℤ, pos, add64, sub32, wrap32, eqb_ℤ, leb_ℤ, ltb_ℤ, String, Bool, true, false, not,
  ◌&&◌, ◌||◌, if◌then◌else◌, List, [], ◌∷◌, Option, none, some, Result, put_key, delete_key,
}
use extended_deployment.Api.{Strategy}
use extended_deployment.Adapter.{Container, Subset, RegionInfo, Client, done, fail}
use extended_deployment.Grouping.{
  Annotations, InplaceSetUpdateSpec, annotation_update_spec, get_inplace_set_update_spec,
  get_subset_region_name,
}
use extended_deployment.StepControl.{calculate_step_size}
use extended_deployment.Scaling.{M}
use extended_deployment.Rollout.{annotation_template_hash, update_subset_annotations}

-- What is compared and written of templates.
pub record InplaceTemplates : Type 0 where
  pub unmarshal : String → Result InplaceSetUpdateSpec
  pub marshal : InplaceSetUpdateSpec → String
  -- The containers of the template of a region, with its overrides.
  pub template_containers : String → List Container
  -- The templates are equal but for the images of the containers.
  pub equal_but_images : Subset → Bool
  pub object_hash : String → Subset → String
  pub template_hash : String → String

unfoldable pub is_can_inplace_update : InplaceTemplates → ℤ → Subset → Bool
is_can_inplace_update t desired ss =
    if not (length (t.template_containers (get_subset_region_name ss)) == length ss.containers)
      || ltb_ℤ ss.spec.replicas desired
    then false
    else t.equal_but_images ss

-- The workload to update: the new one if there is no other, or the first old one.
unfoldable pub inplace_candidate : RegionInfo → Option Subset
inplace_candidate info = elim info.new [
  | some ss ↦ elim info.olds [ [] ↦ some ss | o ∷ rest ↦ none ]
  | none ↦ elim info.olds [ [] ↦ none | o ∷ rest ↦ some o ]
]

abbrev pub is_none : {A : Type 0} → Option A → Bool
is_none none = true
is_none (some a) = false

abbrev pub del_inplaceset_update_spec : Annotations → Annotations
del_inplaceset_update_spec anno = delete_key annotation_update_spec anno

-- The annotation of the first old workload is removed, in memory, before the test of the templates.
abbrev pub drop_spec : Bool → List Subset → Subset → Subset
drop_spec exists [] ss = ss
drop_spec exists (o ∷ rest) ss =
    if exists then record ss { annotations = del_inplaceset_update_spec ss.annotations } else ss

abbrev pub or_no_spec : Option InplaceSetUpdateSpec → InplaceSetUpdateSpec
or_no_spec none = record { update_pod_num = pos 0; pod_template_hash = "" }
or_no_spec (some spec) = spec

-- The first old workload is the same object as the candidate, and changes with it.
abbrev pub set_first : Subset → List Subset → List Subset
set_first ss [] = []
set_first ss (o ∷ rest) = ss ∷ rest

abbrev pub with_first : Subset → RegionInfo → RegionInfo
with_first ss info = record info { olds = set_first ss info.olds }

-- A first batch that would be all of them is one pod.
unfoldable pub first_step : ℤ → ℤ → ℤ → ℤ
first_step desired update_pod_num step =
    if eqb_ℤ update_pod_num (pos 0) && eqb_ℤ step desired && ltb_ℤ (pos 0) step then pos 1 else step

unfoldable pub inplace_step : Strategy → ℤ → ℤ → ℤ
inplace_step strategy desired update_pod_num =
    first_step desired update_pod_num (calculate_step_size strategy desired (wrap32 update_pod_num))

module _ (c : Client) (t : InplaceTemplates) where
  abbrev pub with_containers : String → Subset → Subset
  with_containers region ss = record ss { containers = t.template_containers region }

  -- The workload with the containers of the template and the specification of the batch.
  unfoldable pub with_batch : String → InplaceSetUpdateSpec → ℤ → Subset → Subset
  with_batch region spec step ss =
      let spec' : InplaceSetUpdateSpec = record {
        update_pod_num = add64 spec.update_pod_num step;
        pod_template_hash = t.object_hash region (with_containers region ss);
      } in
      record (with_containers region ss) {
        annotations =
            put_key annotation_template_hash (t.template_hash region)
              (put_key annotation_update_spec (t.marshal spec') ss.annotations);
      }

  -- The new workload of the region, after a batch.
  abbrev less_available : Subset → ℤ → Subset
  less_available ss step = record ss {
    status = record (ss.status) { available_replicas = sub32 ss.status.available_replicas step };
  }

  abbrev started : Subset → ℤ → RegionInfo → RegionInfo
  started ss step info = record (with_first (less_available ss step) info) {
    new = some (less_available ss step);
  }

  unfoldable pub start_batch :
      String → RegionInfo → InplaceSetUpdateSpec → ℤ → Subset → M c (Bool × RegionInfo)
  unfolding with_batch update_subset_annotations
  start_batch region info spec step ss s =
      elim (update_subset_annotations c true (with_batch region spec step ss) s) [
        | fail e u ↦ fail e u
        | done x u ↦ done (true, started (with_batch region spec step ss) step info) u
      ]

  -- From the candidate on.
  unfoldable pub try_batch : Strategy → String → RegionInfo → Subset → M c (Bool × RegionInfo)
  try_batch strategy region info found s =
      let spec = get_inplace_set_update_spec t.unmarshal found.annotations in
      let ss = drop_spec (not (is_none spec)) info.olds found in
      let step = inplace_step strategy info.desired_replicas (or_no_spec spec).update_pod_num in
      if is_none spec && not (is_none info.new)
      then done (false, info) s
      else if not (is_can_inplace_update t info.desired_replicas ss)
      then done (false, with_first ss info) s
      else if leb_ℤ step (pos 0)
      then done (false, with_first ss info) s
      else start_batch region info (or_no_spec spec) step ss s

  unfoldable pub check_inplace_update : Strategy → String → RegionInfo → M c (Bool × RegionInfo)
  unfolding try_batch inplace_candidate
  check_inplace_update strategy region info s = elim (inplace_candidate info) [
    | none ↦ done (false, info) s
    | some found ↦ try_batch strategy region info found s
  ]
