-- ===== src/InplaceSet/Refresh.antt =====
-- What follows an update of a pod in place (finishGracePeriod, refreshPod, refreshPods and roundupSeconds of
-- pkg/controllers/inplaceset/inplace_update.go). A time of grace is never negative: it is written down
-- only where it is greater than 0.
use extended_deployment.Base.{
  ℕ, ◌+◌, ◌-◌, ◌*◌, ◌/◌, ◌%◌, ◌==◌, ltb, pos, pos_part, ltb_ℤ, Bool, true, false, not,
  if◌then◌else◌, List, [], ◌∷◌, Option, none, some, Result, ok, err, no_update_state,
}
use extended_deployment.Adapter.{ObjectKey, done, fail, ◌>>◌}
use extended_deployment.InplaceSet.PodState.{
  Pod, UpdateState, PodUpdateSpec, PodCondition, Json, get_in_place_update_grace,
  get_pod_in_place_update_state, remove_in_place_update_grace, patch_update_spec_to_pod,
  check_containers_in_place_update_completed,
}
use extended_deployment.InplaceSet.PodConditions.{
  in_place_update_ready, contains_readiness_gate, get_condition, has_status,
}
use extended_deployment.InplaceSet.Update.{
  PodClient, PodM, second, retry_on_conflict, update_condition,
}

unfoldable pub roundup_seconds : ℕ → ℕ
roundup_seconds d = if d % second == 0 then d else (d / second + 1) * second

abbrev pub grace_duration : PodUpdateSpec → ℕ
grace_duration spec = second * pos_part spec.grace_seconds

-- The time since the update is less than the time of grace.
abbrev pub is_in_grace : ℕ → PodUpdateSpec → UpdateState → Bool
is_in_grace now spec state = ltb now (state.update_timestamp + grace_duration spec)

abbrev pub ready_condition : PodCondition
ready_condition = record { kind = in_place_update_ready; status = "True"; reason = "" }

abbrev pub is_ok : Result (Unit {0}) → Bool
is_ok (ok u) = true
is_ok (err e) = false

-- The containers have been updated, if an update was recorded.
abbrev pub is_updated : Pod → Option UpdateState → Bool
is_updated pod none = true
is_updated pod (some state) = is_ok (check_containers_in_place_update_completed pod state)

abbrev pub is_pending : Option PodUpdateSpec → Bool
is_pending none = false
is_pending (some spec) = ltb_ℤ (pos 0) spec.grace_seconds

module _ (c : PodClient) (json : Json) where
  -- The end of the time of grace, or what is left of it.
  unfoldable pub finish_update : PodUpdateSpec → UpdateState → Pod → PodM c json ℕ
  unfolding roundup_seconds patch_update_spec_to_pod
  finish_update spec state clone s =
      if is_in_grace (c.now s) spec state
      then done (roundup_seconds (state.update_timestamp + grace_duration spec - c.now s)) s
      else (c.update (remove_in_place_update_grace (patch_update_spec_to_pod json spec state clone))
            >> done 0)
          s

  unfoldable pub finish_once : ObjectKey → PodM c json ℕ
  unfolding finish_update get_in_place_update_grace get_pod_in_place_update_state
  finish_once key s = elim (c.get key s) [
    | err e ↦ fail e s
    | ok clone ↦ elim (get_in_place_update_grace json clone) [
      | err e ↦ fail e s
      | ok none ↦ done 0 s
      | ok (some spec) ↦ elim (get_pod_in_place_update_state json clone) [
        | err e ↦ fail e s
        | ok none ↦ fail no_update_state s
        | ok (some state) ↦ finish_update spec state clone s
      ]
    ]
  ]

  unfoldable pub finish_grace_period : ObjectKey → PodM c json ℕ
  unfolding retry_on_conflict finish_once
  finish_grace_period key = retry_on_conflict c.is_conflict 3 (finish_once key)

  -- The condition of the readiness gate becomes true, if it is not.
  unfoldable pub mark_ready : Pod → PodM c json ℕ
  unfolding update_condition
  mark_ready pod s =
      if not (contains_readiness_gate pod)
      then done 0 s
      else if has_status "True" (get_condition in_place_update_ready pod.conditions)
      then done 0 s
      else (update_condition c json pod.key ready_condition >> done 0) s

  unfoldable pub refresh_updated : Pod → PodM c json ℕ
  unfolding mark_ready get_pod_in_place_update_state
  refresh_updated pod s = elim (get_pod_in_place_update_state json pod) [
    | err e ↦ fail e s
    | ok state ↦ if is_updated pod state then mark_ready pod s else done 0 s
  ]

  unfoldable pub refresh_pod : Pod → PodM c json ℕ
  unfolding finish_grace_period refresh_updated get_in_place_update_grace
  refresh_pod pod s = elim (get_in_place_update_grace json pod) [
    | err e ↦ fail e s
    | ok spec ↦ if is_pending spec then finish_grace_period pod.key s else refresh_updated pod s
  ]

  unfoldable pub refresh_loop : ℕ → List Pod → PodM c json ℕ
  unfolding refresh_pod
  refresh_loop requeue [] s = done requeue s
  refresh_loop requeue (pod ∷ rest) s = elim (refresh_pod pod s) [
    | fail e t ↦ fail e t
    | done d t ↦ refresh_loop (if d == 0 then requeue else d) rest t
  ]

  unfoldable pub refresh_pods : List Pod → PodM c json ℕ
  unfolding refresh_loop
  refresh_pods pods = refresh_loop 0 pods
