-- ===== src/Examples/InPlace.antt =====
-- An update of pods in place at concrete inputs.
use extended_deployment.Base.{
  ◌≡◌, ◌≢◌, ◌⊎◌, ◌-◌, Error, Option-cases, subst, str_eq, eq_iff, refl, sym, ap, ◌∙◌, inl, inr, pos,
  ◌≤ℤ◌, true, String, false, if◌then◌else◌, List, [], ◌∷◌, All, Option, none, some, Result, ok, err,
  api_error, arith,
}
use extended_deployment.Api.{in_place_if_possible}
use extended_deployment.Adapter.{ObjectKey, Outcome, done, fail, state_of}
use extended_deployment.Grouping.{InplaceSetUpdateSpec as BatchSpec, annotation_update_spec}
use extended_deployment.InplaceSet.PodState.{Pod, Json, UpdateState}
use extended_deployment.InplaceSet.Batch.{
  InplaceSet, UpdateSpec, get_update_spec, get_need_in_place_update_pods,
  check_pod_in_place_update_tried,
}
use extended_deployment.InplaceSet.Update.{PodClient, manage_in_place_update}
use extended_deployment.InplaceSet.Choice.{IsUntried, NotAmong, get_need_in_place_update_pods_lem}
use extended_deployment.InplaceSet.Writes.{IsPodClient, with_status}
use extended_deployment.InplaceSet.Tried.{HasFailed, IsTried, manage_in_place_update-IsTried}
use extended_deployment.InplaceSet.Conditions.{get_condition}
use extended_deployment.InplaceSet.Status.{Tests, SetStatus, replica_failure, calculate_status}
use extended_deployment.InplaceSet.Reported.{Says, calculate_status-Says}
use extended_deployment.Examples.Store.{key_eq, key_eq_refl, key_eq_other}

abbrev Pods : Type 0
Pods = ObjectKey → Option Pod

abbrev get : ObjectKey → Pods → Result Pod
get k s = elim (s k) [ none ↦ err api_error | some p ↦ ok (record p { key = k }) ]

abbrev put : ObjectKey → Pod → Pods → Pods
put k p s j = if key_eq j k then some p else s j

abbrev write : (Pod → Pod → Pod) → Pod → Pods → Outcome Pods (Unit {0})
write merge p s = elim (s p.key) [
  | none ↦ fail api_error s
  | some old ↦ done tt (put p.key (merge p old) s)
]

abbrev pods_client : PodClient
pods_client = record {
  State = Pods;
  get = get;
  update = write with_status;
  update_status = write (λ p old. with_status old p);
  is_conflict = λ e. false;
  now = λ s. 0;
}

module _ (merge : Pod → Pod → Pod) where
  stored :
      (p o : Pod) (s t : Pods)
      → s p.key ≡ some o
      → write merge p s ≡ done tt t
      → get p.key t ≡ ok (record (merge p o) { key = p.key })
  stored p o s t g h =
      let end : put p.key (merge p o) s ≡ t = ground (arith, h, g) in
      subst (λ t. get p.key t ≡ ok (record (merge p o) { key = p.key })) end
        (rw (key_eq_refl p.key, get) refl)

  others_kept :
      (p : Pod) (s : Pods) (k : ObjectKey)
      → k ≢ p.key
      → get k (state_of (write merge p s)) ≡ get k s
  others_kept p s k d = elim (Option-cases (s p.key)) [
    | inl e ↦ rw (e, state_of) refl
    | inr (o, e) ↦ rw (e, state_of) (rw (key_eq_other k p.key d, get) refl)
  ]

  rejected :
      (p : Pod) (s t : Pods) (e : Error) (k : ObjectKey)
      → write merge p s ≡ fail e t
      → get k t ≡ get k s
  rejected p s t e k h = elim (Option-cases (s p.key)) [
    | inl f ↦ let same : s ≡ t = ground (arith, h, f) in ap (get k) (sym same)
    | inr (o, f) ↦ absurd (ground (arith, h, f))
  ]

found :
    (k : ObjectKey) (s : Pods) (p : Pod)
    → get k s ≡ ok p
    → (o : Pod) × (s k ≡ some o) × (record o { key = k } ≡ p)
found k s p g = elim (Option-cases (s k)) [
  | inl e ↦ absurd (ground (arith, g, e))
  | inr (o, e) ↦ (o, e, ground (arith, g, e))
]

pods_client-IsPodClient : IsPodClient pods_client
pods_client-IsPodClient = record {
  get_key = λ k s p g. let (o, e, same) = found k s p g in sym (ap (λ p. p.key) same);
  get-update = λ p old s t g h.
      let (o, e, same) = found p.key s old g in
      stored with_status p o s t e h ∙ ap (λ old. ok (with_status p old)) same;
  get-update_status = λ p old s t g h.
      let (o, e, same) = found p.key s old g in
      stored (λ p old. with_status old p) p o s t e h ∙ ap (λ old. ok (with_status old p)) same;
  get-update_other = λ p s k d. others_kept with_status p s k d;
  get-update_status_other = λ p s k d. others_kept (λ p old. with_status old p) p s k d;
  get-update_fail = λ p s t e k h. rejected with_status p s t e k h;
  get-update_status_fail = λ p s t e k h. rejected (λ p old. with_status old p) p s t e k h;
}

abbrev key : String → ObjectKey
key name = record { namespace = "default"; name = name }

abbrev pod : String → Pod
pod name = record {
  key = key name;
  annotations = [];
  containers = record { name = "web"; image = "web:1" } ∷ [];
  readiness_gates = [];
  container_statuses = [];
  conditions = [];
}

abbrev set : InplaceSet
set = record {
  annotations = (annotation_update_spec, "batch") ∷ [];
  update_strategy = in_place_if_possible;
  grace_period_seconds = none;
  containers = record { name = "web"; image = "web:2" } ∷ [];
  replicas = 3;
  min_ready_seconds = pos 0;
}

abbrev unmarshal : String → Result BatchSpec
unmarshal text = ok (record { update_pod_num = pos 2; pod_template_hash = "h2" })

abbrev spec : UpdateSpec
spec = record {
  new_images = ("web", "web:2") ∷ [];
  update_pod_num = pos 2;
  pod_template_hash = "h2";
}

abbrev recorded : UpdateState
recorded = record {
  update_timestamp = 0;
  pod_template_hash = "h2";
  last_container_image = [];
  last_container_statuses = [];
  spec_container_images = ("web", "web:2") ∷ [];
}

abbrev json : Json
json = record {
  marshal_state = λ st. "state";
  unmarshal_state = λ text. ok recorded;
  marshal_grace = λ u. "grace";
  unmarshal_grace = λ text. err api_error;
}

abbrev pods : List Pod
pods = pod "web-1" ∷ pod "web-2" ∷ pod "web-3" ∷ []

abbrev held : Pods
held k =
    if key_eq k (key "web-1")
    then some (pod "web-1")
    else if key_eq k (key "web-2")
    then some (pod "web-2")
    else if key_eq k (key "web-3")
    then some (pod "web-3")
    else none

-- Two of the three pods are to be updated.
chosen : get_need_in_place_update_pods json set pods spec ≡ ok (pod "web-1" ∷ pod "web-2" ∷ [])
unfolding get_need_in_place_update_pods
chosen = refl

get_need_in_place_update_pods_lem_example :
    (2 ≡ 2 - 0) × All (IsUntried json spec) (pod "web-1" ∷ pod "web-2" ∷ [])
unfolding check_pod_in_place_update_tried
get_need_in_place_update_pods_lem_example =
    get_need_in_place_update_pods_lem json set spec pods (pod "web-1" ∷ pod "web-2" ∷ []) refl
      chosen

abbrev after : Pods
after = state_of (manage_in_place_update pods_client json unmarshal pods set held)

names_differ : (a b : String) → str_eq a b ≡ false → key a ≢ key b
names_differ a b e q = ground (arith, e, (eq_iff a b).1 (ap (λ k. k.name) q))

managed : manage_in_place_update pods_client json unmarshal pods set held ≡ done 0 after
unfolding manage_in_place_update
managed = refl

manage_in_place_update-IsTried_example :
    (HasFailed pods_client pods_client-IsPodClient json spec set
        (pod "web-1" ∷ pod "web-2" ∷ [])
        held
      ⊎ All
          (λ p. IsTried pods_client pods_client-IsPodClient json spec p.key after)
          (pod "web-1" ∷ pod "web-2" ∷ []))
    × ((j : ObjectKey)
        → NotAmong j (pod "web-1" ∷ pod "web-2" ∷ [])
        → pods_client.get j after ≡ pods_client.get j held)
unfolding get_update_spec
manage_in_place_update-IsTried_example =
    manage_in_place_update-IsTried pods_client pods_client-IsPodClient json unmarshal set spec pods
      (pod "web-1" ∷ pod "web-2" ∷ []) 0 held after refl chosen
      (record { decode = λ st h i. (recorded, refl, refl, refl) })
      (
        (names_differ "web-1" "web-2" refl, (names_differ "web-1" "web-3" refl, tt)),
        ((names_differ "web-2" "web-3" refl, tt), (tt, tt)),
      )
      managed

abbrev tests : Tests
tests = record {
  unmarshal = unmarshal;
  is_ready = λ p. true;
  is_available = λ min_ready p. true;
  has_labels = λ p. true;
}

abbrev no_status : SetStatus
no_status = record {
  replicas = pos 0;
  fully_labeled_replicas = pos 0;
  ready_replicas = pos 0;
  available_replicas = pos 0;
  observed_generation = 0;
  conditions = [];
  in_place_update_status = none;
}

abbrev new_status : SetStatus
new_status = calculate_status tests json (λ e. "failed") set no_status pods (some api_error)

calculate_status-Says_example :
    Says (some api_error) new_status.conditions
    × ((other : String)
        → other ≢ replica_failure
        → get_condition new_status.conditions other ≡ get_condition [] other)
    × (new_status.replicas ≡ pos 3)
    × (new_status.fully_labeled_replicas ≤ℤ new_status.replicas)
    × (new_status.ready_replicas ≤ℤ new_status.replicas)
    × (new_status.available_replicas ≤ℤ new_status.ready_replicas)
calculate_status-Says_example =
    calculate_status-Says tests json (λ e. "failed") set no_status pods (some api_error)
      (omega arith)
