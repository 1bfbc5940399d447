-- ===== src/InplaceSet/Batch.antt =====
-- The pods of a batch of an update in place (pkg/controllers/inplaceset/batch.go and
-- checkPodInplaceUpdateTried of inplace_update.go).
use extended_deployment.Base.{
  ℕ, ◌-◌, leb, length, take, ℤ, pos, pos_part, ltb_ℤ, leb_ℤ, String, str_eq, Bool, true, false,
  ◌&&◌, if◌then◌else◌, List, [], ◌∷◌, Option, none, some, Result, ok, err, lookup, put_key,
}
use extended_deployment.Api.{UpdateStrategyType, recreate}
use extended_deployment.Grouping.{InplaceSetUpdateSpec as BatchSpec, annotation_update_spec}
use extended_deployment.InplaceSet.PodState.{
  Pod, Container, UpdateState, Json, get_pod_in_place_update_state,
}

-- What the modelled code reads of an in-place set.
pub record InplaceSet : Type 0 where
  pub annotations : List (String × String)
  pub update_strategy : UpdateStrategyType
  -- The seconds of grace, where the strategy has them.
  pub grace_period_seconds : Option ℤ
  pub containers : List Container
  pub replicas : ℕ
  pub min_ready_seconds : ℤ

-- utils.InplaceSetUpdateSpec with its images.
pub record UpdateSpec : Type 0 where
  pub new_images : List (String × String)
  pub update_pod_num : ℤ
  pub pod_template_hash : String

abbrev pub images_from : List Container → List (String × String) → List (String × String)
images_from [] images = images
images_from (c ∷ rest) images = images_from rest (put_key c.name c.image images)

abbrev pub images_of : List Container → List (String × String)
images_of containers = images_from containers []

unfoldable pub get_update_spec :
    (String → Result BatchSpec) → InplaceSet → Result (Option UpdateSpec)
get_update_spec unmarshal set = elim (lookup annotation_update_spec set.annotations) [
  | none ↦ ok none
  | some v ↦ elim (unmarshal v) [
    | err e ↦ err e
    | ok spec ↦ ok (
        some (record {
          new_images = images_of set.containers;
          update_pod_num = spec.update_pod_num;
          pod_template_hash = spec.pod_template_hash;
        }))
  ]
]

-- Each new image that the pod's record names is the recorded one.
unfoldable pub images_match : List (String × String) → List (String × String) → Bool
images_match [] recorded = true
images_match ((name, image) ∷ rest) recorded = elim (lookup name recorded) [
  | none ↦ images_match rest recorded
  | some v ↦ str_eq image v && images_match rest recorded
]

abbrev pub state_matches : UpdateSpec → Option UpdateState → Bool
state_matches spec none = false
state_matches spec (some state) =
    str_eq spec.pod_template_hash state.pod_template_hash
    && images_match spec.new_images state.spec_container_images

unfoldable pub check_pod_in_place_update_tried : Json → Pod → UpdateSpec → Result Bool
unfolding get_pod_in_place_update_state images_match
check_pod_in_place_update_tried json pod spec = elim (get_pod_in_place_update_state json pod) [
  | err e ↦ err e
  | ok state ↦ ok (state_matches spec state)
]

abbrev cons_unless : Pod → Bool → Result (List Pod) → Result (List Pod)
cons_unless pod tried (err e) = err e
cons_unless pod true (ok rest) = ok rest
cons_unless pod false (ok rest) = ok (pod ∷ rest)

unfoldable pub get_not_tried_pods : Json → UpdateSpec → List Pod → Result (List Pod)
unfolding check_pod_in_place_update_tried
get_not_tried_pods json spec [] = ok []
get_not_tried_pods json spec (pod ∷ rest) =
    let more = get_not_tried_pods json spec rest in
    elim (check_pod_in_place_update_tried json pod spec) [
      | err e ↦ err e
      | ok tried ↦ cons_unless pod tried more
    ]

-- The number of pods that are to be tried in all.
unfoldable pub batch_total : ℕ → ℤ → ℤ
batch_total all update_pod_num = if ltb_ℤ (pos all) update_pod_num then pos all else update_pod_num

-- The first of the pods that were not tried, as many as the batch lacks.
unfoldable pub first_not_tried : ℤ → ℕ → List Pod → List Pod
first_not_tried total tried not_tried =
    if leb_ℤ total (pos tried)
    then []
    else if leb (length not_tried) (pos_part total - tried)
    then not_tried
    else take (pos_part total - tried) not_tried

abbrev pub is_recreate : UpdateStrategyType → Bool
is_recreate recreate = true
is_recreate UpdateStrategyType.delete_all_first = false
is_recreate UpdateStrategyType.rolling_update = false
is_recreate UpdateStrategyType.in_place_if_possible = false
is_recreate UpdateStrategyType.in_place_only = false
is_recreate (UpdateStrategyType.other_update s) = false

unfoldable pub get_need_in_place_update_pods :
    Json → InplaceSet → List Pod → UpdateSpec → Result (List Pod)
unfolding get_not_tried_pods first_not_tried batch_total
get_need_in_place_update_pods json set pods spec =
    if is_recreate set.update_strategy then ok [] else elim (get_not_tried_pods json spec pods) [
      | err e ↦ err e
      | ok not_tried ↦ ok (
          first_not_tried (batch_total (length pods) spec.update_pod_num)
            (length pods - length not_tried) not_tried)
    ]
