-- ===== src/Api.antt =====
-- The custom resources of api/v1beta1, with the fields that the modelled code reads.
-- Pod templates, selectors and override patches are left to the functions that take them.
use extended_deployment.Base.{ℕ, String, ℤ, Bool, Option, List}

-- A string constant of the API, or any other text that a client may send.
pub data RolloutStrategyType : Type 0 where
  beta_rollout group_rollout : RolloutStrategyType
  other_rollout : String → RolloutStrategyType

pub data UpdateStrategyType : Type 0 where
  delete_all_first recreate rolling_update in_place_only in_place_if_possible : UpdateStrategyType
  other_update : String → UpdateStrategyType

pub data SubsetType : Type 0 where
  in_place_set replica_set deployment : SubsetType
  other_subset : String → SubsetType

-- intstr.IntOrString: an int32, or a text, here by its bytes.
pub data IntOrString : Type 0 where
  int : ℤ → IntOrString
  str : List ℕ → IntOrString

pub record RollingUpdate : Type 0 where
  pub max_surge : Option IntOrString
  pub max_unavailable : Option IntOrString

pub record UpdateStrategy : Type 0 where
  pub type : UpdateStrategyType
  pub grace_period_seconds : ℤ
  pub rolling_update : Option RollingUpdate

pub record AutoReschedule : Type 0 where
  pub enable : Bool
  pub timeout_seconds : ℤ

pub record Strategy : Type 0 where
  pub batch_size : ℤ
  pub min_ready_seconds : ℤ
  pub need_waiting_for_confirm : Bool
  pub need_first_confirm : Bool
  pub sync_wait_timeout : ℤ
  pub rollout_strategy : RolloutStrategyType
  pub pause : Bool
  pub auto_reschedule : Option AutoReschedule
  pub update_strategy : Option UpdateStrategy

pub record Region : Type 0 where
  pub name : String
  pub replicas : Option IntOrString

pub record ExtendedDeploymentSpec : Type 0 where
  pub history_limit : ℤ
  pub subset_type : SubsetType
  pub strategy : Strategy
  pub replicas : Option ℤ
  pub regions : List Region
