-- ===== src/InplaceSet/Status.antt =====
-- The status of an in-place set (calculateStatus and updateInplaceSetStatus of
-- pkg/controllers/inplaceset/controller.go, calcInplaceUpdateStatus and getInplaceUpdatedPods of
-- inplace_update.go and batch.go). Whether a pod is ready or available by k8s.io/kubernetes, and whether its
-- labels match, are parameters; the copy of the status in an annotation is left out.
use extended_deployment.Base.{
  ℕ, zero, suc, ◌==◌, ltb, length, ℤ, pos, wrap32, eqb_ℤ, String, str_eq, Bool, true, false, ◌&&◌,
  if◌then◌else◌, List, [], ◌∷◌, Option, none, some, Result, ok, err, Error,
}
use extended_deployment.Adapter.{Outcome, done, fail}
use extended_deployment.Grouping.{InplaceSetUpdateSpec as BatchSpec}
use extended_deployment.InplaceSet.Conditions.{
  Condition, get_condition, set_condition, remove_condition,
}
use extended_deployment.InplaceSet.PodState.{
  Pod, Json, UpdateState, get_pod_in_place_update_state, check_containers_in_place_update_completed,
}
use extended_deployment.InplaceSet.Batch.{InplaceSet, get_update_spec}
use extended_deployment.InplaceSet.Refresh.{is_ok}

pub record UpdateStatus : Type 0 where
  pub pod_template_hash : String
  pub ready_replicas : ℤ
  pub available_replicas : ℤ

pub record SetStatus : Type 0 where
  pub replicas : ℤ
  pub fully_labeled_replicas : ℤ
  pub ready_replicas : ℤ
  pub available_replicas : ℤ
  pub observed_generation : ℕ
  pub conditions : List Condition
  pub in_place_update_status : Option UpdateStatus

-- What the status is made from besides the pods.
pub record Tests : Type 0 where
  pub unmarshal : String → Result BatchSpec
  pub is_ready : Pod → Bool
  pub is_available : ℤ → Pod → Bool
  pub has_labels : Pod → Bool

unfoldable pub count_if : (Pod → Bool) → List Pod → ℕ
count_if test [] = 0
count_if test (pod ∷ rest) = if test pod then suc (count_if test rest) else count_if test rest

-- Whether the pod records the update with this hash. The comparison of images after it only writes a
-- message: its `continue` goes on with the next container.
abbrev pub state_has : String → Result (Option UpdateState) → Bool
state_has hash (err e) = false
state_has hash (ok none) = false
state_has hash (ok (some state)) = str_eq hash state.pod_template_hash

-- As getInplaceUpdatedPods filters.
unfoldable pub get_in_place_updated_pods : Json → String → List Pod → List Pod
unfolding get_pod_in_place_update_state
get_in_place_updated_pods json hash [] = []
get_in_place_updated_pods json hash (pod ∷ rest) =
    if state_has hash (get_pod_in_place_update_state json pod)
    then pod ∷ get_in_place_updated_pods json hash rest
    else get_in_place_updated_pods json hash rest

abbrev pub containers_updated : Pod → Result (Option UpdateState) → Bool
containers_updated pod (err e) = false
containers_updated pod (ok none) = false
containers_updated pod (ok (some state)) =
    is_ok (check_containers_in_place_update_completed pod state)

abbrev pub is_update_ready : Tests → Json → Pod → Bool
is_update_ready x json pod =
    x.is_ready pod && containers_updated pod (get_pod_in_place_update_state json pod)

unfoldable pub update_status_of : Tests → Json → ℤ → String → List Pod → UpdateStatus
unfolding count_if get_in_place_updated_pods
update_status_of x json min_ready hash pods =
    let updated = get_in_place_updated_pods json hash pods in
    record {
      pod_template_hash = hash;
      ready_replicas = wrap32 (pos (count_if (is_update_ready x json) updated));
      available_replicas = wrap32 (
          pos
            (count_if (λ pod. is_update_ready x json pod && x.is_available min_ready pod) updated));
    }

unfoldable pub calc_in_place_update_status :
    Tests → Json → InplaceSet → List Pod → Option UpdateStatus
unfolding get_update_spec update_status_of
calc_in_place_update_status x json set pods = elim (get_update_spec x.unmarshal set) [
  | err e ↦ none
  | ok none ↦ none
  | ok (some spec) ↦
      some (update_status_of x json set.min_ready_seconds spec.pod_template_hash pods)
]

abbrev pub replica_failure : String
replica_failure = "ReplicaFailure"

-- The reason by the number of pods and the replicas.
abbrev pub failure_reason : ℕ → ℕ → String
failure_reason pods replicas =
    if ltb pods replicas then "FailedCreate" else if ltb replicas pods then "FailedDelete" else ""

-- The condition that manageReplicas has failed; `texts` are the messages of errors.
unfoldable pub failure_conditions :
    (Error → String) → ℕ → ℕ → Option Error → Option Condition → List Condition → List Condition
unfolding set_condition
failure_conditions texts pods replicas (some e) none conditions = set_condition conditions (record {
  kind = replica_failure;
  status = "True";
  reason = failure_reason pods replicas;
  message = texts e;
})
failure_conditions texts pods replicas none (some old) conditions =
    remove_condition conditions replica_failure
failure_conditions texts pods replicas none none conditions = conditions
failure_conditions texts pods replicas (some e) (some old) conditions = conditions

unfoldable pub calculate_status :
    Tests → Json → (Error → String) → InplaceSet → SetStatus → List Pod → Option Error → SetStatus
unfolding count_if failure_conditions calc_in_place_update_status get_condition
calculate_status x json texts set status pods manage_err = record {
  replicas = wrap32 (pos (length pods));
  fully_labeled_replicas = wrap32 (pos (count_if x.has_labels pods));
  ready_replicas = wrap32 (pos (count_if x.is_ready pods));
  available_replicas =
      wrap32
        (pos (count_if (λ pod. x.is_ready pod && x.is_available set.min_ready_seconds pod) pods));
  observed_generation = status.observed_generation;
  conditions =
      failure_conditions texts (length pods) set.replicas manage_err
        (get_condition status.conditions replica_failure) status.conditions;
  in_place_update_status = calc_in_place_update_status x json set pods;
}

-- The object of the set, by what the update of its status reads.
pub record SetObject : Type 0 where
  pub generation : ℕ
  pub status : SetStatus

pub record StatusClient : Type 1 where
  pub State : Type 0
  pub get : State → Result SetObject
  pub update_status : SetObject → State → Outcome State (Unit {0})

abbrev same_condition : Condition → Condition → Bool
same_condition a b =
    str_eq a.kind b.kind
    && str_eq a.status b.status
    && str_eq a.reason b.reason
    && str_eq a.message b.message

abbrev same_conditions : List Condition → List Condition → Bool
same_conditions [] [] = true
same_conditions [] (b ∷ more) = false
same_conditions (a ∷ rest) [] = false
same_conditions (a ∷ rest) (b ∷ more) = same_condition a b && same_conditions rest more

abbrev same_update : Option UpdateStatus → Option UpdateStatus → Bool
same_update none none = true
same_update none (some b) = false
same_update (some a) none = false
same_update (some a) (some b) =
    str_eq a.pod_template_hash b.pod_template_hash
    && eqb_ℤ a.ready_replicas b.ready_replicas
    && eqb_ℤ a.available_replicas b.available_replicas

-- The steady state: there is nothing to write.
unfoldable pub is_steady : SetObject → SetStatus → Bool
is_steady set new =
    eqb_ℤ set.status.replicas new.replicas
    && eqb_ℤ set.status.fully_labeled_replicas new.fully_labeled_replicas
    && eqb_ℤ set.status.ready_replicas new.ready_replicas
    && eqb_ℤ set.status.available_replicas new.available_replicas
    && set.generation == set.status.observed_generation
    && same_conditions set.status.conditions new.conditions
    && same_update set.status.in_place_update_status new.in_place_update_status

module _ (c : StatusClient) where
  -- The loop over two attempts. What is left after the last one is the error of the read, which is nil.
  unfoldable pub status_loop : ℕ → SetStatus → SetObject → c.State → Outcome c.State SetObject
  status_loop zero new set s = done set s
  status_loop (suc left) new set s = elim (c.update_status (record set { status = new }) s) [
    | done u t ↦ done (record set { status = new }) t
    | fail e t ↦ elim (c.get t) [ err x ↦ fail x t | ok fresh ↦ status_loop left new fresh t ]
  ]

  unfoldable pub update_in_place_set_status :
      SetObject → SetStatus → c.State → Outcome c.State SetObject
  unfolding is_steady status_loop
  update_in_place_set_status set new s =
      if is_steady set new
      then done set s
      else status_loop 2 (record new { observed_generation = set.generation }) set s
