-- ===== src/Scaling.antt =====
-- Calls that scale and delete workloads, and the clean-up of unavailable replicas
-- (ScaleSubset, DeleteSubset, cleanupUnhealthyReplicas and regionSyncOnce in
-- pkg/controllers/extendeddeployment/subset_control.go).
pub mod Server
pub mod Left
pub mod Shrunk
pub mod Counts
pub mod Removed
pub mod Errors
pub mod Cleanup
use extended_deployment.Base.{
  ◌++◌, add32, sub32, leb_ℤ, ltb_ℤ, true, invalid_scale_down, ℕ, zero, suc, ℤ, pos, eqb_ℤ, Bool,
  false, if◌then◌else◌, Result, ok, err, Error, List, [], ◌∷◌,
}
use extended_deployment.Api.{Strategy}
use extended_deployment.Adapter.{
  RegionInfo, ◌>>=◌, Subset, ObjectKey, Workload, Outcome, done, fail, Client, ◌>>◌,
}
use extended_deployment.Adapter.Order.{less_creation, sort}
use extended_deployment.StepControl.{min32, calculate_step_size}

abbrev pub object_key : Subset → ObjectKey
object_key ss = record { namespace = ss.namespace; name = ss.name }

-- SetReplicas of the three adapters.
abbrev pub set_replicas : Workload → ℤ → Workload
set_replicas set replicas = record set { replicas = replicas }

abbrev pub with_replicas : Subset → ℤ → Subset
with_replicas ss replicas = record ss { spec = record (ss.spec) { replicas = replicas } }

abbrev pub update_retries : ℕ
update_retries = 5

abbrev pub finish : {S : Type 0} → Result (Unit {0}) → S → Outcome S (Unit {0})
finish (ok u) s = done u s
finish (err e) s = fail e s

-- `totalScaleDown` counts up to the limit.
unfoldable pub scale_count : ℤ → ℤ → Subset → ℤ
scale_count max total ss =
    min32 (sub32 ss.spec.replicas ss.status.available_replicas) (sub32 max total)

-- GetReplicasCount of rolling.go; regionSyncOnce has the same loop.
unfoldable pub count_from : ℤ → List Subset → ℤ
count_from count [] = count
count_from count (ss ∷ rest) = count_from (add32 count ss.spec.replicas) rest

unfoldable pub get_replicas_count : List Subset → ℤ
unfolding count_from
get_replicas_count all = count_from (pos 0) all

unfoldable pub max_cleanup : RegionInfo → Subset → ℤ
max_cleanup info new =
    sub32 (add32 (get_replicas_count info.olds) new.status.available_replicas) info.desired_replicas

module _ (c : Client) where
  abbrev pub M : Type 0 → Type 0
  M A = c.Server → Outcome c.Server A

  -- The loop over `i < updateRetries` of the calls that write one workload; `last` is the value of
  -- updateError.
  unfoldable pub edit_loop :
      (Workload → Workload) → ObjectKey → ℕ → Result (Unit {0}) → M (Unit {0})
  edit_loop edit k zero last s = finish last s
  edit_loop edit k (suc left) last s = elim (c.get k s) [
    | err e ↦ fail e s
    | ok set ↦ elim (c.update (edit set) s) [
      | done u t ↦ done tt t
      | fail e t ↦ edit_loop edit k left (err e) t
    ]
  ]

  abbrev pub scale_loop : ObjectKey → ℤ → ℕ → Result (Unit {0}) → M (Unit {0})
  scale_loop k n = edit_loop (λ set. set_replicas set n) k

  unfoldable pub scale_subset : Subset → ℤ → M (Unit {0})
  unfolding edit_loop
  scale_subset ss new_replicas s =
      if eqb_ℤ ss.spec.replicas new_replicas
      then done tt s
      else scale_loop (object_key ss) new_replicas update_retries (ok tt) s

  unfoldable pub delete_subset : Subset → M (Unit {0})
  delete_subset ss = c.delete (object_key ss)

  -- `newReplicas == 0` deletes the workload; else it is scaled and kept in the list.
  unfoldable pub shrink : Subset → ℤ → M (List Subset)
  shrink ss new_replicas =
      if eqb_ℤ new_replicas (pos 0)
      then delete_subset ss >> (λ s. done [] s)
      else scale_subset ss new_replicas >> (λ s. done (with_replicas ss new_replicas ∷ []) s)

  -- The loop of cleanupUnhealthyReplicas over the sorted old workloads: the replicas scaled down,
  -- and the workloads that are left.
  unfoldable pub cleanup_loop : ℤ → ℤ → List Subset → M (ℤ × List Subset)
  unfolding scale_count
  cleanup_loop max total [] s = done (total, []) s
  cleanup_loop max total (ss ∷ rest) s =
      let new_replicas = sub32 ss.spec.replicas (scale_count max total ss) in
      let keep : Outcome c.Server (ℤ × List Subset) =
        (cleanup_loop max total rest >>= λ r. done (r.0, ss ∷ r.1)) s in
      let cut : Outcome c.Server (ℤ × List Subset) =
        (shrink ss new_replicas >>= λ kept.
        cleanup_loop max (add32 total (scale_count max total ss)) rest >>= λ r.
        done (r.0, kept ++ r.1))
          s in
      if leb_ℤ max total
      then done (total, ss ∷ rest) s
      else if eqb_ℤ ss.spec.replicas ss.status.available_replicas
      then keep
      else if ltb_ℤ ss.spec.replicas new_replicas
      then fail invalid_scale_down s
      else cut

  unfoldable pub cleanup_unhealthy_replicas : List Subset → ℤ → M (ℤ × List Subset)
  cleanup_unhealthy_replicas olds max_cleanup_count =
      cleanup_loop max_cleanup_count (pos 0) (sort less_creation olds)

  -- The loop of regionSyncOnce over the old workloads: the first one with more than enough
  -- replicas is scaled, and one with fewer only lowers the number that is still needed.
  unfoldable pub scale_down_loop : ℤ → List Subset → M (Unit {0})
  scale_down_loop need [] s = done tt s
  scale_down_loop need (ss ∷ rest) s =
      let later = scale_down_loop (sub32 need ss.spec.replicas) rest s in
      if ltb_ℤ need ss.spec.replicas then scale_subset ss (sub32 ss.spec.replicas need) s else later

  unfoldable pub region_sync_once : Strategy → RegionInfo → Subset → Bool → M (Bool × List Subset)
  unfolding max_cleanup
  region_sync_once strategy info new update_new = do
    r ← cleanup_unhealthy_replicas info.olds (max_cleanup info new)
    let need = sub32 (max_cleanup info new) r.0
    (if ltb_ℤ (pos 0) need then scale_down_loop need r.1 else done tt)
    (if update_new
        then scale_subset new (
            add32 new.spec.replicas
              (calculate_step_size strategy info.desired_replicas new.spec.replicas))
        else done tt)
    done (true, r.1)
