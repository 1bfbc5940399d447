-- ===== src/StepControl.antt =====
-- Step control: how far one round of a rollout moves a region towards its desired replicas
-- (calculateStepSize in pkg/controllers/extendeddeployment/subset_control.go).
pub mod Rounds
use Prim.Native.Nat.{min}
use extended_deployment.Base.{
  ℕ, ◌-◌, ◌^◌, ◌≤◌, ◌<◌, ◌≡◌, arith, String, ℤ, pos, ltb_ℤ, leb_ℤ, eqb_ℤ, sub32, if◌then◌else◌,
}
use extended_deployment.Api.{
  Strategy, RolloutStrategyType, beta_rollout, group_rollout, other_rollout,
}

abbrev pub beta_step_size : ℤ
beta_step_size = pos 1

-- -x in int32, where the lowest value is its own negation.
unfoldable pub neg32 : ℤ → ℤ
unfolding sub32
neg32 a = sub32 (pos 0) a

-- integer.Int32Min of k8s.io/utils.
unfoldable pub min32 : ℤ → ℤ → ℤ
min32 a b = if leb_ℤ a b then a else b

pub min32_pos :
    (a b c d : ℕ)
    → b ≤ a
    → a < 2 ^ 31
    → d < c
    → c < 2 ^ 31
    → min32 (sub32 (pos a) (pos b)) (sub32 (pos c) (pos d)) ≡ pos (min (a - b) (c - d))
unfolding min32 sub32
min32_pos a b c d h k l m = ground arith

-- The switch on the rollout strategy.
unfoldable pub batch_step : RolloutStrategyType → ℤ → ℤ → ℤ
batch_step group_rollout batch_size replicas = batch_size
batch_step beta_rollout batch_size replicas =
    if eqb_ℤ replicas (pos 0) then beta_step_size else batch_size
batch_step (other_rollout s) batch_size replicas = pos 0

-- `step_size *= factor`: the factor is 1 or -1.
unfoldable pub calculate_step_size : Strategy → ℤ → ℤ → ℤ
unfolding neg32 min32 sub32
calculate_step_size strategy desired_replicas replicas =
    let step_size = batch_step strategy.rollout_strategy strategy.batch_size replicas in
    let diff = sub32 desired_replicas replicas in
    let scale_down = ltb_ℤ diff (pos 0) in
    let step = min32 step_size (if scale_down then neg32 diff else diff) in
    if eqb_ℤ step (pos 0) then pos 0 else if scale_down then neg32 step else step
