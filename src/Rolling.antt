-- ===== src/Rolling.antt =====
-- The RollingUpdate strategy of a region (pkg/controllers/extendeddeployment/rolling.go).
-- intstr.GetValueFromIntOrPercent is a parameter.
pub mod Limits
pub mod ScaleDown
pub mod Errors
use extended_deployment.Adapter.Order.{sort, less_creation}
use extended_deployment.Base.{
  ◌++◌, ℤ, pos, ltb_ℤ, leb_ℤ, eqb_ℤ, add32, sub32, wrap32, Bool, true, false, ◌&&◌, if◌then◌else◌,
  Result, ok, err, invalid_scale_down, List, [], ◌∷◌, Option, some, none,
}
use extended_deployment.Api.{IntOrString, int, RollingUpdate}
use extended_deployment.Adapter.{Subset, Client, Outcome, done, fail, ◌>>=◌, ◌>>◌}
use extended_deployment.StepControl.{min32}
use extended_deployment.Scaling.{
  scale_count, with_replicas, cleanup_unhealthy_replicas, get_replicas_count, scale_subset, M,
}

-- `intstr.GetValueFromIntOrPercent(v, total, roundUp)`; a nil `v` is an error.
abbrev pub GetValue : Type 0
GetValue = Option IntOrString → ℤ → Bool → Result ℤ

-- `intstr.ValueOrDefault(v, intstr.FromInt(0))`.
abbrev pub value_or_zero : Option IntOrString → Option IntOrString
value_or_zero none = some (int (pos 0))
value_or_zero (some v) = some v

module _ (get_value : GetValue) where
  unfoldable pub resolve_fenceposts : Option IntOrString → Option IntOrString → ℤ → Result (ℤ × ℤ)
  resolve_fenceposts max_surge max_unavailable desired =
      elim (get_value (value_or_zero max_surge) desired true) [
        | err e ↦ err e
        | ok surge ↦ elim (get_value (value_or_zero max_unavailable) desired true) [
          | err e ↦ err e
          | ok unavailable ↦ ok (
            wrap32 surge,
            wrap32
                (if eqb_ℤ surge (pos 0) && eqb_ℤ unavailable (pos 0) then pos 1 else unavailable),
          )
        ]
      ]

  -- An error counts as 0.
  unfoldable pub max_unavailable : RollingUpdate → ℤ → ℤ
  unfolding resolve_fenceposts
  max_unavailable rolling desired =
      if eqb_ℤ desired (pos 0)
      then pos 0
      else elim (resolve_fenceposts rolling.max_surge rolling.max_unavailable desired) [
        | err e ↦ pos 0
        | ok r ↦ r.1
      ]

  -- The number for the new workload once the surge is known.
  unfoldable pub surge_to : ℤ → ℤ → ℤ → ℤ → ℤ
  surge_to desired max_surge current_pod_count replicas =
      let max_total_pods = add32 desired (wrap32 max_surge) in
      if leb_ℤ max_total_pods current_pod_count
      then replicas
      else add32 replicas (min32 (sub32 max_total_pods current_pod_count) (sub32 desired replicas))

  -- int32(math.Min(float64(a), float64(b))) is the smaller int32, which a float64 holds.
  unfoldable pub new_rs_new_replicas : RollingUpdate → List Subset → Subset → ℤ → Result ℤ
  unfolding surge_to
  new_rs_new_replicas rolling all_rs new_rs desired =
      elim (get_value rolling.max_surge desired true) [
        | err e ↦ err e
        | ok max_surge ↦
            ok (surge_to desired max_surge (get_replicas_count all_rs) new_rs.spec.replicas)
      ]

  unfoldable pub scale_up : (c : Client) → RollingUpdate → List Subset → Subset → ℤ → M c Bool
  scale_up c rolling all_rs new_rs desired s =
      elim (new_rs_new_replicas rolling all_rs new_rs desired) [
        | err e ↦ fail e s
        | ok n ↦ (scale_subset c new_rs n >> done true) s
      ]

  unfoldable pub reconcile_new_subset :
      (c : Client) → RollingUpdate → List Subset → Subset → ℤ → M c Bool
  unfolding scale_up
  reconcile_new_subset c rolling all_rs new_rs desired s =
      if eqb_ℤ new_rs.spec.replicas desired
      then done false s
      else if ltb_ℤ desired new_rs.spec.replicas
      then (scale_subset c new_rs desired >> done true) s
      else scale_up c rolling all_rs new_rs desired s

-- The loop of scaleDownOldSubsetsForRollingUpdate; `limit` is totalScaleDownCount.
unfoldable pub scale_down_old_loop : (c : Client) → ℤ → ℤ → List Subset → M c ℤ
scale_down_old_loop c limit total [] s = done total s
scale_down_old_loop c limit total (rs ∷ rest) s =
    let count = min32 rs.spec.replicas (sub32 limit total) in
    let n = sub32 rs.spec.replicas count in
    let skip : Outcome c.Server ℤ = scale_down_old_loop c limit total rest s in
    let cut : Outcome c.Server ℤ =
      (scale_subset c rs n >> scale_down_old_loop c limit (add32 total count) rest) s in
    if leb_ℤ limit total
    then done total s
    else if eqb_ℤ rs.spec.replicas (pos 0)
    then skip
    else if ltb_ℤ rs.spec.replicas n
    then fail invalid_scale_down s
    else cut

unfoldable pub scale_down_old_subsets_for_rolling_update :
    GetValue → (c : Client) → RollingUpdate → List Subset → List Subset → ℤ → M c ℤ
unfolding max_unavailable
scale_down_old_subsets_for_rolling_update get_value c rolling all_rs old_rs desired s =
    let min_available = sub32 desired (max_unavailable get_value rolling desired) in
    let pod_count = get_replicas_count all_rs in
    if leb_ℤ pod_count min_available
    then done (pos 0) s
    else scale_down_old_loop c (sub32 pod_count min_available) (pos 0) old_rs s

-- The old workloads as the caller still holds them after the clean-up: sorted, with the new replicas
-- of those that were scaled; a deleted one keeps its replicas.
unfoldable pub marked : ℤ → ℤ → List Subset → List Subset
unfolding scale_count
marked max total [] = []
marked max total (ss ∷ rest) =
    let n = sub32 ss.spec.replicas (scale_count max total ss) in
    let keep = marked max total rest in
    let cut = marked max (add32 total (scale_count max total ss)) rest in
    if leb_ℤ max total
    then ss ∷ rest
    else if eqb_ℤ ss.spec.replicas ss.status.available_replicas
    then ss ∷ keep
    else (if eqb_ℤ n (pos 0) then ss else with_replicas ss n) ∷ cut

module _ (get_value : GetValue) (c : Client) (rolling : RollingUpdate) where
  -- After the clean-up; an error is dropped.
  unfoldable pub scale_down_rest : List Subset → List Subset → ℤ → ℤ → M c Bool
  unfolding scale_down_old_subsets_for_rolling_update
  scale_down_rest all_rs old_rs desired cleanup_count s =
      elim (scale_down_old_subsets_for_rolling_update get_value c rolling all_rs old_rs desired s) [
        | fail e t ↦ done false t
        | done n t ↦ done (ltb_ℤ (pos 0) (add32 cleanup_count n)) t
      ]

  unfoldable pub reconcile_old_subsets : List Subset → List Subset → Subset → ℤ → M c Bool
  unfolding scale_down_rest marked
  reconcile_old_subsets all_rs old_rs new_rs desired s =
      let min_available = sub32 desired (max_unavailable get_value rolling desired) in
      let new_unavailable = sub32 new_rs.spec.replicas new_rs.status.available_replicas in
      let max_scale_down =
        sub32 (sub32 (get_replicas_count all_rs) min_available) new_unavailable in
      if eqb_ℤ (get_replicas_count old_rs) (pos 0)
      then done false s
      else if leb_ℤ max_scale_down (pos 0)
      then done false s
      else elim (cleanup_unhealthy_replicas c old_rs max_scale_down s) [
        | fail e t ↦ done false t
        | done r t ↦
            scale_down_rest (r.1 ++ new_rs ∷ [])
              (marked max_scale_down (pos 0) (sort less_creation old_rs)) desired r.0 t
      ]
