-- ===== src/Reconcile.antt =====
-- One call of Reconcile in pkg/controllers/extendeddeployment/controller.go. Its steps are an interface
-- here, as functions of a state that holds the server, the deployment and the regions; the other
-- modules model them. A panic is a failure, as stopHandler makes an error of it.
pub mod Guards
use extended_deployment.Base.{String, str_eq, Bool, true, false, ◌&&◌, if◌then◌else◌, List, [], ◌∷◌}
use extended_deployment.Adapter.{Outcome, done, fail, ◌>>=◌, ◌>>◌}
use extended_deployment.Grouping.{
  RegionInfos, Term, term_init, term_ready, term_not_ready, check_if_term_ready, check_saturated,
}

-- What the query of the deployment finds.
pub data Found : Type 0 where
  absent deleted live : Found

-- When the next call is due, besides those for events.
pub data Requeue : Type 0 where
  no_requeue after_second : Requeue

pub record DeploymentCondition : Type 0 where
  pub type : String
  pub status : String

-- A condition says that the deployment is not progressing.
unfoldable pub is_progressing : List DeploymentCondition → Bool
is_progressing [] = true
is_progressing (c ∷ rest) =
    if str_eq c.type "Progressing" && str_eq c.status "False" then false else is_progressing rest

pub record Steps : Type 1 where
  pub State : Type 0
  pub query : State → Outcome State Found
  pub check_rollback : State → Outcome State Bool
  pub sync_revisions : State → Outcome State Bool
  pub check_selector : State → Outcome State (Unit {0})
  pub check_regions : State → Outcome State (Unit {0})
  pub get_subset_control : State → Outcome State (Unit {0})
  pub query_subsets : State → Outcome State RegionInfos
  pub update_subset_strategy : State → Outcome State (Unit {0})
  pub clean_after_saturated : State → Outcome State (Unit {0})
  pub conditions : State → List DeploymentCondition
  pub check_upgrade_confirm : State → Outcome State Bool
  -- SyncStatusOnly with refreshTime; saturated is false here.
  pub sync_status_only : Bool → State → Outcome State (Unit {0})
  pub manage_subsets : State → Outcome State Bool
  pub update_progressing : State → Outcome State (Unit {0})

module _ (x : Steps) where
  abbrev R : Type 0
  R = x.State → Outcome x.State Requeue

  unfoldable pub finish_round : Bool → R
  finish_round updated =
      x.sync_status_only true
      >> (if updated then x.update_progressing >> done no_requeue else done after_second)

  unfoldable pub schedule : R
  unfolding finish_round
  schedule = x.manage_subsets >>= finish_round

  unfoldable pub after_confirm : Bool → R
  unfolding schedule
  after_confirm wait = if wait then x.sync_status_only true >> done no_requeue else schedule

  unfoldable pub by_term : Term → R
  unfolding after_confirm is_progressing
  by_term term_init s = schedule s
  by_term term_not_ready s = (x.sync_status_only false >> done no_requeue) s
  by_term term_ready s =
      if is_progressing (x.conditions s)
      then (x.check_upgrade_confirm >>= after_confirm) s
      else schedule s

  unfoldable pub after_groups : RegionInfos → R
  unfolding by_term check_saturated check_if_term_ready
  after_groups infos =
      x.update_subset_strategy
      >> (if check_saturated infos
          then x.clean_after_saturated >> done no_requeue
          else by_term (check_if_term_ready infos))

  -- An invalid selector ends the call without an error.
  unfoldable pub after_revisions : Bool → R
  unfolding after_groups
  after_revisions true s = done no_requeue s
  after_revisions false s = elim (x.check_selector s) [
    | fail e t ↦ done no_requeue t
    | done u t ↦ (x.check_regions >> x.get_subset_control >> (x.query_subsets >>= after_groups)) t
  ]

  unfoldable pub after_rollback : Bool → R
  unfolding after_revisions
  after_rollback rolled_back =
      if rolled_back then done no_requeue else x.sync_revisions >>= after_revisions

  unfoldable pub after_query : Found → R
  unfolding after_rollback
  after_query absent = done no_requeue
  after_query deleted = done no_requeue
  after_query live = x.check_rollback >>= after_rollback

  unfoldable pub reconcile : R
  unfolding after_query
  reconcile = x.query >>= after_query
