-- ===== src/Rollout/Manage.antt =====
-- One call of ManageSubsets in pkg/controllers/extendeddeployment/subset_control.go, over the regions in
-- the order of one iteration of the map.
use extended_deployment.Base.{
  pos, String, Bool, true, false, ◌||◌, ◌++◌, if◌then◌else◌, List, [], ◌∷◌, Option, none, some,
  Result, ok, err, in_place_only,
}
use extended_deployment.Api.{
  Strategy, UpdateStrategy, UpdateStrategyType, RollingUpdate, SubsetType, delete_all_first,
  recreate, rolling_update, in_place_only as only, in_place_if_possible, other_update, in_place_set,
  replica_set, deployment, other_subset,
}
use extended_deployment.Adapter.{Subset, RegionInfo, Client, Outcome, done, fail, ◌>>=◌, ◌>>◌}
use extended_deployment.Grouping.{RegionInfos}
use extended_deployment.StepControl.{calculate_step_size}
use extended_deployment.Scaling.{M, region_sync_once}
use extended_deployment.Rolling.{
  GetValue, new_rs_new_replicas, reconcile_new_subset, reconcile_old_subsets,
}
use extended_deployment.Rollout.{IntText, Templates, new_subset, clear_unused}
use extended_deployment.Rollout.DeleteFirst.{rollout_delete_all_first}
use extended_deployment.Rollout.Inplace.{InplaceTemplates, check_inplace_update}

-- How the handling of one region ends: the loop goes on, with the region updated or not, or the
-- function returns.
pub data Verdict : Type 0 where
  next return : Bool → Verdict

abbrev is_in_place_set : SubsetType → Bool
is_in_place_set in_place_set = true
is_in_place_set replica_set = false
is_in_place_set deployment = false
is_in_place_set (other_subset s) = false

abbrev is_only : UpdateStrategyType → Bool
is_only only = true
is_only delete_all_first = false
is_only recreate = false
is_only rolling_update = false
is_only in_place_if_possible = false
is_only (other_update s) = false

-- What ManageSubsets works with besides the server and the regions.
pub record Setting (c : Client) : Type 1 where
  pub text : IntText
  pub templates : Templates c
  pub inplace : InplaceTemplates
  pub get_value : GetValue
  pub has_pod : c.Server → Subset → Result Bool
  pub strategy : Strategy
  pub update : UpdateStrategy
  pub subset_type : SubsetType
  pub disable_inplace_update : Bool

module _ (c : Client) (x : Setting c) where
  unfoldable pub recreate_region : String → RegionInfo → M c Verdict
  unfolding new_subset region_sync_once
  recreate_region region ri = do
    new ←
        new_subset c x.text x.templates region ri
          (calculate_step_size x.strategy ri.desired_replicas (pos 0))
    r ← region_sync_once c x.strategy ri new true
    done (next r.0)

  -- The `continue` after a batch skips the count of this region as updated.
  unfoldable pub in_place_region : String → RegionInfo → M c Verdict
  unfolding recreate_region check_inplace_update
  in_place_region region ri s =
      let in_place : Outcome c.Server Verdict =
        (check_inplace_update c x.inplace x.strategy region ri >>= λ r.
        if r.0
        then done (next false)
        else if is_only x.update.type
        then fail in_place_only
        else recreate_region region r.1)
          s in
      if is_in_place_set x.subset_type
      then (if x.disable_inplace_update then recreate_region region ri s else in_place)
      else recreate_region region ri s

  -- The replicas of the new workload where there is none yet.
  abbrev empty_subset : Subset
  empty_subset = record {
    namespace = "";
    name = "";
    creation_timestamp = 0;
    annotations = [];
    containers = [];
    spec = record { replicas = pos 0; min_ready_seconds = pos 0 };
    status = record {
      replicas = pos 0;
      ready_replicas = pos 0;
      available_replicas = pos 0;
      inplace_update_status = none;
    };
  }

  unfoldable pub first_of_rolling : RollingUpdate → String → RegionInfo → M c Subset
  unfolding new_subset
  first_of_rolling rolling region ri s = elim ri.new [
    | some ss ↦ done ss s
    | none ↦
        elim (new_rs_new_replicas x.get_value rolling ri.olds empty_subset ri.desired_replicas) [
          | err e ↦ fail e s
          | ok n ↦ new_subset c x.text x.templates region ri n s
        ]
  ]

  unfoldable pub rolling_region : RollingUpdate → String → RegionInfo → M c Verdict
  unfolding first_of_rolling
  rolling_region rolling region ri = do
    new ← first_of_rolling rolling region ri
    up ← reconcile_new_subset x.get_value c rolling (ri.olds ++ new ∷ []) new ri.desired_replicas
    down ←
        reconcile_old_subsets x.get_value c rolling (ri.olds ++ new ∷ []) ri.olds new
          ri.desired_replicas
    done (next true)

  abbrev rolling_if_set : Option RollingUpdate → String → RegionInfo → M c Verdict
  rolling_if_set none region ri = done (next false)
  rolling_if_set (some rolling) region ri = rolling_region rolling region ri

  unfoldable pub by_strategy : UpdateStrategyType → String → RegionInfo → M c Verdict
  unfolding in_place_region rolling_region rollout_delete_all_first
  by_strategy in_place_if_possible region ri = in_place_region region ri
  by_strategy only region ri = in_place_region region ri
  by_strategy recreate region ri = recreate_region region ri
  by_strategy rolling_update region ri = rolling_if_set x.update.rolling_update region ri
  by_strategy delete_all_first region ri =
      rollout_delete_all_first c x.text x.templates x.has_pod region ri >>= λ b. done (return b)
  by_strategy (other_update t) region ri = done (next false)

  unfoldable pub manage_loop : Bool → RegionInfos → M c Bool
  manage_loop any [] s = done any s
  manage_loop any ((region, ri) ∷ rest) s = elim (by_strategy x.update.type region ri s) [
    | fail e t ↦ fail e t
    | done (return b) t ↦ done b t
    | done (next b) t ↦ manage_loop (any || b) rest t
  ]

  unfoldable pub manage_subsets : List Subset → RegionInfos → M c Bool
  unfolding manage_loop by_strategy
  manage_subsets unused infos = clear_unused c unused >> manage_loop false infos
