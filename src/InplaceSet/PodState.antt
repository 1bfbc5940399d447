-- ===== src/InplaceSet/PodState.antt =====
-- The pods of an in-place set and what an update in place records in their annotations (the types and
-- GetInPlaceUpdateGrace, GetPodInPlaceUpdateState, RemoveInPlaceUpdateGrace, patchUpdateSpecToPod and
-- checkContainersInPlaceUpdateCompleted of pkg/controllers/inplaceset/inplace_update.go). JSON is a
-- parameter; a time is a number of nanoseconds.
use extended_deployment.Base.{
  ℕ, ℤ, String, str_eq, Bool, true, false, not, ◌&&◌, if◌then◌else◌, List, [], ◌∷◌, Option, none,
  some, Result, ok, err, not_completed, lookup, put_key, delete_key, str_append, find?,
}
use extended_deployment.Adapter.{ObjectKey}

-- InPlaceUpdateStateKey and InPlaceUpdateGraceKey, with the group of api/v1beta1.
abbrev pub in_place_update_state_key : String
in_place_update_state_key = "extendeddeployment.io/inplace-update-state"

abbrev pub in_place_update_grace_key : String
in_place_update_grace_key = "extendeddeployment.io/inplace-update-grace"

pub record Container : Type 0 where
  pub name : String
  pub image : String

pub record ContainerStatus : Type 0 where
  pub name : String
  pub image_id : String
  pub container_id : String

pub record PodCondition : Type 0 where
  pub kind : String
  pub status : String
  pub reason : String

pub record Pod : Type 0 where
  pub key : ObjectKey
  pub annotations : List (String × String)
  pub containers : List Container
  pub readiness_gates : List String
  pub container_statuses : List ContainerStatus
  pub conditions : List PodCondition

-- PodInPlaceUpdateState, without the record of batches, which nothing reads.
pub record UpdateState : Type 0 where
  pub update_timestamp : ℕ
  pub pod_template_hash : String
  pub last_container_image : List (String × String)
  pub last_container_statuses : List (String × (String × String))
  pub spec_container_images : List (String × String)

-- PodUpdateSpec, without the field that nothing sets.
pub record PodUpdateSpec : Type 0 where
  pub container_images : List (String × String)
  pub grace_seconds : ℤ
  pub pod_template_hash : String

-- JSON of the two annotations.
pub record Json : Type 0 where
  pub marshal_state : UpdateState → String
  pub unmarshal_state : String → Result UpdateState
  pub marshal_grace : PodUpdateSpec → String
  pub unmarshal_grace : String → Result PodUpdateSpec

-- A value that may be missing, and may fail to decode.
abbrev decoded : {A : Type 0} → Result A → Result (Option A)
decoded (ok a) = ok (some a)
decoded (err e) = err e

unfoldable pub get_in_place_update_grace : Json → Pod → Result (Option PodUpdateSpec)
get_in_place_update_grace json pod = elim (lookup in_place_update_grace_key pod.annotations) [
  | none ↦ ok none
  | some v ↦ decoded (json.unmarshal_grace v)
]

unfoldable pub get_pod_in_place_update_state : Json → Pod → Result (Option UpdateState)
get_pod_in_place_update_state json pod = elim (lookup in_place_update_state_key pod.annotations) [
  | none ↦ ok none
  | some v ↦ decoded (json.unmarshal_state v)
]

abbrev pub remove_in_place_update_grace : Pod → Pod
remove_in_place_update_grace pod = record pod {
  annotations = delete_key in_place_update_grace_key pod.annotations;
}

abbrev pub set_state : Json → UpdateState → Pod → Pod
set_state json state pod = record pod {
  annotations = put_key in_place_update_state_key (json.marshal_state state) pod.annotations;
}

-- The containers with their new images.
unfoldable pub new_images : List (String × String) → List Container → List Container
new_images images [] = []
new_images images (c ∷ rest) = elim (lookup c.name images) [
  | none ↦ c ∷ new_images images rest
  | some image ↦ record c { image = image } ∷ new_images images rest
]

-- The images that the containers to update had.
unfoldable pub last_images :
    List (String × String) → List Container → List (String × String) → List (String × String)
last_images images [] last = last
last_images images (c ∷ rest) last = elim (lookup c.name images) [
  | none ↦ last_images images rest last
  | some image ↦ last_images images rest (put_key c.name c.image last)
]

abbrev pub has_container : String → List Container → Bool
has_container name [] = false
has_container name (c ∷ rest) = if str_eq name c.name then true else has_container name rest

abbrev pub is_some : {A : Type 0} → Option A → Bool
is_some none = false
is_some (some a) = true

-- Whether an image of this container changes: the specification names it, and the pod has it.
abbrev pub is_changed : List (String × String) → List Container → String → Bool
is_changed images containers name = is_some (lookup name images) && has_container name containers

unfoldable pub last_statuses :
    List (String × String)
    → List Container
    → List ContainerStatus
    → List (String × (String × String))
    → List (String × (String × String))
last_statuses images containers [] last = last
last_statuses images containers (c ∷ rest) last = last_statuses images containers rest (
    if is_changed images containers c.name
    then put_key c.name (c.image_id, c.container_id) last
    else last)

unfoldable pub patched_state : PodUpdateSpec → Pod → UpdateState → UpdateState
unfolding last_images last_statuses
patched_state spec pod state = record state {
  last_container_image =
      last_images spec.container_images pod.containers state.last_container_image;
  last_container_statuses =
      last_statuses spec.container_images pod.containers pod.container_statuses
        state.last_container_statuses;
}

unfoldable pub patch_update_spec_to_pod : Json → PodUpdateSpec → UpdateState → Pod → Pod
unfolding new_images patched_state
patch_update_spec_to_pod json spec state pod =
    set_state json (patched_state spec pod state)
      (record pod { containers = new_images spec.container_images pod.containers })

-- An image without a tag is the latest one.
abbrev pub tagged : String → String
tagged image = elim (find? image ":") [ none ↦ str_append image ":latest" | some i ↦ image ]

unfoldable pub container_images : List Container → List (String × String) → List (String × String)
container_images [] images = images
container_images (c ∷ rest) images = container_images rest (put_key c.name (tagged c.image) images)

-- What a missing key reads as.
abbrev pub or_empty : Option String → String
or_empty none = ""
or_empty (some s) = s

unfoldable pub completed_loop :
    List (String × String)
    → List (String × String)
    → List ContainerStatus
    → List (String × (String × String))
    → Result (Unit {0})
completed_loop images last [] [] = ok tt
completed_loop images last [] (x ∷ left) = err not_completed
completed_loop images last (c ∷ rest) left =
    let go : Result (Unit {0}) = completed_loop images last rest (delete_key c.name left) in
    let skip : Result (Unit {0}) = completed_loop images last rest left in
    elim (lookup c.name left) [
      | none ↦ skip
      | some (image_id, container_id) ↦
          if str_eq image_id c.image_id
            && not (str_eq (or_empty (lookup c.name last)) (or_empty (lookup c.name images)))
            && str_eq container_id c.container_id
          then err not_completed
          else go
    ]

unfoldable pub check_containers_in_place_update_completed : Pod → UpdateState → Result (Unit {0})
unfolding completed_loop container_images
check_containers_in_place_update_completed pod state =
    completed_loop (container_images pod.containers []) state.last_container_image
      pod.container_statuses state.last_container_statuses
