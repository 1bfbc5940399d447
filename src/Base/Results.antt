-- ===== src/Base/Results.antt =====
-- Go's `(value, error)` results, and state passing for calls that reach the API server.

use mathlib.Core.Path.{◌≡◌, refl}
use mathlib.Core.Logic.{◌⊎◌, inl, inr}

-- The errors that the modelled code makes or passes on; the texts of the messages are left out.
pub data Error : Type 0 where
  -- Returned by a client call or by another library call.
  api_error : Error
  -- `ParseRegionReplicas`.
  negative_replicas : Error
  total_unset : Error
  not_percentage : Error
  not_integer : Error
  out_of_range : Error
  -- `compareReplicas`.
  int_replicas : Error
  not_total : Error
  not_valid : Error
  -- `cleanupUnhealthyReplicas`, `scaleDownOldSubsetsForRollingUpdate`.
  invalid_scale_down : Error
  -- The reschedule controller.
  no_available_region : Error
  not_synced : Error
  no_request : Error
  pending_not_timeout : Error
  unknown_region : Error
  -- The rollout driver.
  in_place_only : Error
  not_supported : Error
  -- An update of a pod in place.
  not_completed : Error
  no_update_state : Error
  -- The cache of regions.
  multi_region : Error
  -- A nil pointer dereference, which `recover` turns into an error.
  nil_pointer : Error

pub data Result {ℓ} (A : Type ℓ) : Type ℓ where
  ok : A → Result A
  err : Error → Result A

pub Result-cases {ℓ} :
    {A : Type ℓ} (r : Result A) → ((e : Error) × (r ≡ err e)) ⊎ ((a : A) × (r ≡ ok a))
Result-cases (ok a) = inr (a, refl)
Result-cases (err e) = inl (e, refl)
