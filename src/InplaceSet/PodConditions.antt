-- ===== src/InplaceSet/PodConditions.antt =====
-- The conditions of a pod (getCondition, setPodCondition, updatePodReadyCondition, containsReadinessGate and
-- InjectReadinessGate of pkg/controllers/inplaceset/inplace_update.go), without times and messages.
use extended_deployment.Base.{
  String, str_eq, Bool, true, false, ◌&&◌, if◌then◌else◌, List, [], ◌∷◌, ◌++◌, Option, none, some,
}
use extended_deployment.InplaceSet.PodState.{Pod, PodCondition}

abbrev pub in_place_update_ready : String
in_place_update_ready = "InPlaceUpdateReady"

unfoldable pub get_condition : String → List PodCondition → Option PodCondition
get_condition kind [] = none
get_condition kind (c ∷ rest) = if str_eq c.kind kind then some c else get_condition kind rest

-- The first condition of the kind is replaced if its status differs.
unfoldable pub set_pod_condition : PodCondition → List PodCondition → List PodCondition
set_pod_condition condition [] = condition ∷ []
set_pod_condition condition (c ∷ rest) =
    if str_eq c.kind condition.kind
    then (if str_eq c.status condition.status then c ∷ rest else condition ∷ rest)
    else c ∷ set_pod_condition condition rest

abbrev pub has_status : String → Option PodCondition → Bool
has_status status none = false
has_status status (some c) = str_eq c.status status

unfoldable pub gates_ready : List String → List PodCondition → Bool
unfolding get_condition
gates_ready [] conditions = true
gates_ready (gate ∷ rest) conditions =
    has_status "True" (get_condition gate conditions) && gates_ready rest conditions

abbrev pod_ready : Bool → PodCondition
pod_ready true = record { kind = "Ready"; status = "True"; reason = "" }
pod_ready false = record { kind = "Ready"; status = "False"; reason = "ReadinessGatesNotReady" }

unfoldable pub update_pod_ready_condition : List String → List PodCondition → List PodCondition
unfolding gates_ready set_pod_condition
update_pod_ready_condition gates conditions = elim (get_condition "Ready" conditions) [
  | none ↦ conditions
  | some ready ↦
      if has_status "True" (get_condition "ContainersReady" conditions)
      then set_pod_condition (pod_ready (gates_ready gates conditions)) conditions
      else conditions
]

abbrev pub has_gate : List String → Bool
has_gate [] = false
has_gate (gate ∷ rest) = if str_eq gate in_place_update_ready then true else has_gate rest

abbrev pub contains_readiness_gate : Pod → Bool
contains_readiness_gate pod = has_gate pod.readiness_gates

abbrev pub inject_readiness_gate : Pod → Pod
inject_readiness_gate pod =
    if has_gate pod.readiness_gates
    then pod
    else record pod { readiness_gates = pod.readiness_gates ++ (in_place_update_ready ∷ []) }

-- The conditions that updateCondition writes.
unfoldable pub with_condition : PodCondition → Pod → Pod
unfolding set_pod_condition update_pod_ready_condition
with_condition condition pod =
    let set = set_pod_condition condition pod.conditions in
    record pod {
      conditions =
          if str_eq condition.status "False"
          then update_pod_ready_condition pod.readiness_gates set
          else set;
    }
