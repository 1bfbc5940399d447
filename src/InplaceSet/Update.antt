-- ===== src/InplaceSet/Update.antt =====
-- An update of pods in place (manageInplaceUpdate in pkg/controllers/inplaceset/batch.go, TryInplaceUpdate and its calls in inplace_update.go). The API server's
-- pods are an interface; a call is tried again on a conflict, at most four times in all, by
-- RetryOnConflict of k8s.io/client-go with its default backoff.

use extended_deployment.Base.{
  ℕ, zero, suc, ◌*◌, ◌==◌, ℤ, pos, pos_part, leb_ℤ, String, Bool, true, false, not, ◌||◌,
  if◌then◌else◌, List, [], ◌∷◌, none, some, Result, ok, err, Error, put_key,
}
use extended_deployment.Adapter.{ObjectKey, Outcome, done, fail, ◌>>◌}
use extended_deployment.Grouping.{InplaceSetUpdateSpec as BatchSpec}
use extended_deployment.InplaceSet.PodState.{
  Pod, UpdateState, PodUpdateSpec, PodCondition, Json, remove_in_place_update_grace, set_state,
  patch_update_spec_to_pod, in_place_update_grace_key,
}
use extended_deployment.InplaceSet.PodConditions.{
  in_place_update_ready, contains_readiness_gate, with_condition,
}
use extended_deployment.InplaceSet.Batch.{
  InplaceSet, UpdateSpec, get_update_spec, check_pod_in_place_update_tried,
  get_need_in_place_update_pods,
}

-- The pods of the API server.
pub record PodClient : Type 1 where
  pub State : Type 0
  pub get : ObjectKey → State → Result Pod
  pub update : Pod → State → Outcome State (Unit {0})
  pub update_status : Pod → State → Outcome State (Unit {0})
  pub is_conflict : Error → Bool
  pub now : State → ℕ

-- The argument is the number of runs that are left.
unfoldable pub retry_on_conflict :
    {S A : Type 0} → (Error → Bool) → ℕ → (S → Outcome S A) → S → Outcome S A
retry_on_conflict is_conflict zero fn s = fn s
retry_on_conflict is_conflict (suc left) fn s = elim (fn s) [
  | done a t ↦ done a t
  | fail e t ↦
      let again = retry_on_conflict is_conflict left fn t in
      if is_conflict e then again else fail e t
]

-- How TryInplaceUpdate ends without an error.
pub record UpdateResult : Type 0 where
  pub in_place_update : Bool
  pub delay_duration : ℕ

abbrev pub second : ℕ
second = 1000000000

abbrev pub new_state : ℕ → PodUpdateSpec → UpdateState
new_state now spec = record {
  update_timestamp = now;
  pod_template_hash = spec.pod_template_hash;
  last_container_image = [];
  last_container_statuses = [];
  spec_container_images = spec.container_images;
}

module _ (json : Json) where
  abbrev pub set_grace : PodUpdateSpec → Pod → Pod
  set_grace spec pod = record pod {
    annotations = put_key in_place_update_grace_key (json.marshal_grace spec) pod.annotations;
  }

  -- The new containers at once, or the wish for them where there is a time of grace.
  unfoldable pub updated_pod : PodUpdateSpec → ℕ → Pod → Pod
  unfolding patch_update_spec_to_pod
  updated_pod spec now clone =
      let state = new_state now spec in
      let set = set_state json state clone in
      if leb_ℤ spec.grace_seconds (pos 0)
      then remove_in_place_update_grace (patch_update_spec_to_pod json spec state set)
      else set_grace spec set

abbrev pub grace_of : InplaceSet → Pod → ℤ
grace_of set pod = elim set.grace_period_seconds [
  | some seconds ↦ seconds
  | none ↦ if contains_readiness_gate pod then pos 1 else pos 0
]

abbrev pub start_condition : PodCondition
start_condition = record {
  kind = in_place_update_ready;
  status = "False";
  reason = "StartInPlaceUpdate";
}

abbrev pub pod_update_spec : InplaceSet → Pod → UpdateSpec → PodUpdateSpec
pod_update_spec set pod spec = record {
  container_images = spec.new_images;
  grace_seconds = grace_of set pod;
  pod_template_hash = spec.pod_template_hash;
}

-- A negative grace makes no delay.
abbrev pub updated : InplaceSet → Pod → UpdateResult
updated set pod = record {
  in_place_update = true;
  delay_duration = second * pos_part (grace_of set pod);
}

abbrev pub untouched : UpdateResult
untouched = record { in_place_update = false; delay_duration = 0 }

abbrev pub next_requeue : ℕ → UpdateResult → ℕ
next_requeue requeue r =
    if not r.in_place_update || r.delay_duration == 0 then requeue else r.delay_duration

module _ (c : PodClient) (json : Json) where
  abbrev pub PodM : Type 0 → Type 0
  PodM A = c.State → Outcome c.State A

  -- One run of the calls that write a pod: the pod is read and its edit is written.
  abbrev pub write_once : (Pod → PodM (Unit {0})) → (ℕ → Pod → Pod) → ObjectKey → PodM (Unit {0})
  write_once write edit key s = elim (c.get key s) [
    | err e ↦ fail e s
    | ok clone ↦ write (edit (c.now s) clone) s
  ]

  unfoldable pub update_condition : ObjectKey → PodCondition → PodM (Unit {0})
  unfolding retry_on_conflict with_condition
  update_condition key condition =
      retry_on_conflict c.is_conflict 3
        (write_once c.update_status (λ now. with_condition condition) key)

  unfoldable pub update_pod_in_place : ObjectKey → PodUpdateSpec → PodM (Unit {0})
  unfolding updated_pod retry_on_conflict
  update_pod_in_place key spec =
      retry_on_conflict c.is_conflict 3 (write_once c.update (updated_pod json spec) key)

  -- The condition of a pod with the readiness gate says that an update has started.
  abbrev pub mark_started : Pod → PodM (Unit {0})
  mark_started pod =
      if contains_readiness_gate pod then update_condition pod.key start_condition else done tt

  abbrev pub start_update : InplaceSet → Pod → UpdateSpec → PodM UpdateResult
  start_update set pod spec =
      mark_started pod
      >> update_pod_in_place pod.key (pod_update_spec set pod spec)
      >> done (updated set pod)

  unfoldable pub try_in_place_update : InplaceSet → Pod → UpdateSpec → PodM UpdateResult
  unfolding update_condition update_pod_in_place check_pod_in_place_update_tried
  try_in_place_update set pod spec s = elim (check_pod_in_place_update_tried json pod spec) [
    | err e ↦ fail e s
    | ok true ↦ done untouched s
    | ok false ↦ start_update set pod spec s
  ]

  -- A failed update of a pod ends the loop with no requeue and no error.
  unfoldable pub update_loop : InplaceSet → UpdateSpec → ℕ → List Pod → PodM ℕ
  unfolding try_in_place_update
  update_loop set spec requeue [] s = done requeue s
  update_loop set spec requeue (pod ∷ rest) s = elim (try_in_place_update set pod spec s) [
    | fail e t ↦ done 0 t
    | done r t ↦ update_loop set spec (next_requeue requeue r) rest t
  ]

  unfoldable pub manage_in_place_update :
      (String → Result BatchSpec) → List Pod → InplaceSet → PodM ℕ
  unfolding update_loop get_need_in_place_update_pods get_update_spec
  manage_in_place_update unmarshal pods set s = elim (get_update_spec unmarshal set) [
    | err e ↦ fail e s
    | ok none ↦ done 0 s
    | ok (some spec) ↦ elim (get_need_in_place_update_pods json set pods spec) [
      | err e ↦ fail e s
      | ok need ↦ update_loop set spec 0 need s
    ]
  ]
