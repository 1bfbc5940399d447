-- ===== src/Rollout/DeleteFirst.antt =====
-- The strategy that deletes all old pods first (rolloutDeleteAllFirst,
-- scaleDownOldReplicaSetsForDeleteAllFirst and oldPodsRunning in
-- pkg/controllers/extendeddeployment/subset_control.go). Whether the server lists a pod that a workload
-- controls is a parameter.
use extended_deployment.Base.{
  pos, eqb_ℤ, ltb_ℤ, String, Bool, true, false, if◌then◌else◌, List, [], ◌∷◌, Option, none, some,
  Result, ok, err, Error,
}
use extended_deployment.Adapter.{Subset, RegionInfo, Client, Outcome, done, fail, ◌>>=◌, ◌>>◌}
use extended_deployment.Scaling.{M, scale_subset}
use extended_deployment.Rollout.{
  IntText, Templates, new_subset, pointers, get_actual_replica_count_for_subsets,
  get_available_replica_count_for_subsets, count_replicas,
}

-- What is left of the loop over the old workloads: the first error, if there is one.
abbrev answered : Option Error → Result Bool
answered none = ok false
answered (some e) = err e

unfoldable pub list_pods_of : (Subset → Result Bool) → Option Error → List Subset → Result Bool
list_pods_of has_pod errs [] = answered errs
list_pods_of has_pod errs (old ∷ rest) = elim (has_pod old) [
  | err e ↦ list_pods_of has_pod (some e) rest
  | ok true ↦ ok true
  | ok false ↦ list_pods_of has_pod errs rest
]

unfoldable pub old_pods_running : (Subset → Result Bool) → List Subset → Result Bool
unfolding list_pods_of count_replicas
old_pods_running has_pod olds =
    if ltb_ℤ (pos 0) (get_actual_replica_count_for_subsets (pointers olds))
    then ok true
    else if ltb_ℤ (pos 0) (get_available_replica_count_for_subsets (pointers olds))
    then ok true
    else list_pods_of has_pod none olds

module _ (c : Client) where
  unfoldable pub scale_down_all : Bool → List Subset → M c Bool
  scale_down_all scaled [] s = done scaled s
  scale_down_all scaled (ss ∷ rest) s =
      let skip : Outcome c.Server Bool = scale_down_all scaled rest s in
      let cut : Outcome c.Server Bool = (scale_subset c ss (pos 0) >> scale_down_all true rest) s in
      if eqb_ℤ ss.spec.replicas (pos 0) then skip else cut

  module _ (text : IntText) (templates : Templates c)
      (has_pod : c.Server → Subset → Result Bool) where
    -- No old pod is left: the new workload is made, or gets its replicas.
    unfoldable pub bring_up : String → RegionInfo → M c Bool
    unfolding new_subset
    bring_up region ri = do
      new ← new_subset c text templates region ri ri.desired_replicas
      (if eqb_ℤ new.spec.replicas ri.desired_replicas
          then done tt
          else scale_subset c new ri.desired_replicas)
      done true

    unfoldable pub rollout_delete_all_first : String → RegionInfo → M c Bool
    unfolding scale_down_all old_pods_running bring_up
    rollout_delete_all_first region ri s = elim (scale_down_all false ri.olds s) [
      | fail e t ↦ fail e t
      | done true t ↦ done true t
      | done false t ↦ elim (old_pods_running (has_pod t) ri.olds) [
        | err e ↦ fail e t
        | ok true ↦ done false t
        | ok false ↦ bring_up region ri t
      ]
    ]
