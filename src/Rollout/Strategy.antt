-- ===== src/Rollout/Strategy.antt =====
-- The update strategy of the new workloads (UpdateSubsetStrategy and updateSubSetStrategy in
-- pkg/controllers/extendeddeployment/subset_control.go, SetUpdateStrategy in adapter/inplaceset_adapter.go), and
-- the template of a region (ApplyOverridePolicies in pkg/utils/overridemanager/overridemanager.go, where the
-- JSON patch is a parameter).
use extended_deployment.Base.{
  ℕ, zero, suc, ◌≡◌, refl, Bool-cases, inl, inr, ℤ, eqb_ℤ, String, str_eq, Bool, true, false, not,
  if◌then◌else◌, List, [], ◌∷◌, Option, none, some, Result, ok, err, Error, nil_pointer, arith,
}
use extended_deployment.Api.{
  Strategy, UpdateStrategy, UpdateStrategyType, SubsetType, delete_all_first, recreate,
  rolling_update, in_place_only, in_place_if_possible, other_update, in_place_set, replica_set,
  deployment, other_subset, Region,
}
use extended_deployment.Adapter.{Subset, RegionInfo, Workload, ObjectKey, Client, done, fail}
use extended_deployment.Grouping.{RegionInfos}
use extended_deployment.Scaling.{M, object_key, update_retries}

-- The part of an in-place set that a strategy sets.
pub record SetStrategy : Type 0 where
  pub min_ready_seconds : ℤ
  pub type : UpdateStrategyType
  pub grace_period_seconds : Option ℤ

-- The type that an in-place set has for a type of the deployment; any other text changes nothing.
abbrev pub set_type : UpdateStrategyType → Option UpdateStrategyType
set_type in_place_if_possible = some in_place_if_possible
set_type in_place_only = some in_place_if_possible
set_type delete_all_first = some recreate
set_type recreate = some recreate
set_type rolling_update = some recreate
set_type (other_update t) = none

abbrev or_type : UpdateStrategyType → Option UpdateStrategyType → UpdateStrategyType
or_type old none = old
or_type old (some new) = new

unfoldable pub set_update_strategy : Strategy → UpdateStrategy → SetStrategy → SetStrategy
set_update_strategy strategy update set = record {
  min_ready_seconds = strategy.min_ready_seconds;
  type = or_type set.type (set_type update.type);
  grace_period_seconds = some update.grace_period_seconds;
}

abbrev pub is_recreate : UpdateStrategyType → Bool
is_recreate recreate = true
is_recreate delete_all_first = false
is_recreate rolling_update = false
is_recreate in_place_only = false
is_recreate in_place_if_possible = false
is_recreate (other_update t) = false

abbrev pub is_in_place : UpdateStrategyType → Bool
is_in_place in_place_if_possible = true
is_in_place delete_all_first = false
is_in_place recreate = false
is_in_place rolling_update = false
is_in_place in_place_only = false
is_in_place (other_update t) = false

abbrev pub type_differs : UpdateStrategyType → UpdateStrategyType → Bool
type_differs in_place_if_possible old = not (is_in_place old)
type_differs in_place_only old = not (is_in_place old)
type_differs delete_all_first old = not (is_recreate old)
type_differs recreate old = not (is_recreate old)
type_differs rolling_update old = not (is_recreate old)
type_differs (other_update t) old = false

-- A set without the time of grace is a nil pointer.
unfoldable pub set_needs_update : UpdateStrategy → SetStrategy → Result Bool
set_needs_update update set =
    if type_differs update.type set.type then ok true else elim set.grace_period_seconds [
      | none ↦ err nil_pointer
      | some seconds ↦ ok (not (eqb_ℤ update.grace_period_seconds seconds))
    ]

abbrev pub is_set : SubsetType → Bool
is_set in_place_set = true
is_set replica_set = false
is_set deployment = false
is_set (other_subset t) = false

unfoldable pub needs_update : Strategy → UpdateStrategy → SubsetType → SetStrategy → Result Bool
unfolding set_needs_update
needs_update strategy update subset_type set =
    if not (eqb_ℤ strategy.min_ready_seconds set.min_ready_seconds)
    then ok true
    else if is_set subset_type
    then set_needs_update update set
    else ok false

-- The adapter of a kind of workload.
pub record StrategyAdapter : Type 0 where
  pub strategy_of : Subset → SetStrategy
  pub set_update_strategy : Workload → Workload
  pub convert : Workload → Subset

module _ (c : Client) (a : StrategyAdapter) where
  -- The loop over `i < updateRetries`, with the object that was written.
  unfoldable pub strategy_loop : ObjectKey → ℕ → Error → M c Subset
  strategy_loop key zero last s = fail last s
  strategy_loop key (suc left) last s = elim (c.get key s) [
    | err e ↦ fail e s
    | ok set ↦ elim (c.update (a.set_update_strategy set) s) [
      | done u t ↦ done (a.convert (a.set_update_strategy set)) t
      | fail e t ↦ strategy_loop key left e t
    ]
  ]

  unfoldable pub update_sub_set_strategy : Subset → M c Subset
  unfolding strategy_loop
  update_sub_set_strategy ss = strategy_loop (object_key ss) update_retries nil_pointer

  unfoldable pub update_new : Strategy → UpdateStrategy → SubsetType → RegionInfo → M c RegionInfo
  unfolding update_sub_set_strategy needs_update
  update_new strategy update subset_type info s = elim info.new [
    | none ↦ done info s
    | some ss ↦ elim (needs_update strategy update subset_type (a.strategy_of ss)) [
      | err e ↦ fail e s
      | ok false ↦ done info s
      | ok true ↦ elim (update_sub_set_strategy ss s) [
        | fail e t ↦ fail e t
        | done new t ↦ done (record info { new = some new }) t
      ]
    ]
  ]

  unfoldable pub update_subset_strategy :
      Strategy → UpdateStrategy → SubsetType → RegionInfos → M c RegionInfos
  unfolding update_new
  update_subset_strategy strategy update subset_type [] s = done [] s
  update_subset_strategy strategy update subset_type ((name, info) ∷ rest) s =
      elim (update_new strategy update subset_type info s) [
        | fail e t ↦ fail e t
        | done new t ↦ elim (update_subset_strategy strategy update subset_type rest t) [
          | fail e u ↦ fail e u
          | done more u ↦ done ((name, new) ∷ more) u
        ]
      ]

type_set : (t old : UpdateStrategyType) → type_differs t (or_type old (set_type t)) ≡ false
type_set in_place_if_possible old = refl
type_set in_place_only old = refl
type_set delete_all_first old = refl
type_set recreate old = refl
type_set rolling_update old = refl
type_set (other_update t) old = refl

eqb_ℤ_refl : (a : ℤ) → eqb_ℤ a a ≡ true
eqb_ℤ_refl a = ground arith

-- After the strategy is set on an in-place set, no update of it is needed, whatever the set had
-- before, a missing time of grace included.
needs_update-set_update_strategy :
    (strategy : Strategy) (update : UpdateStrategy) (subset_type : SubsetType) (set : SetStrategy)
    → needs_update strategy update subset_type (set_update_strategy strategy update set) ≡ ok false
unfolding needs_update set_update_strategy set_needs_update
needs_update-set_update_strategy strategy update subset_type set =
    rw (eqb_ℤ_refl strategy.min_ready_seconds, needs_update)
      (elim (Bool-cases (is_set subset_type)) [
        | inr e ↦ rw e refl
        | inl e ↦ rw e (
            rw (type_set update.type set.type, set_needs_update)
              (rw (eqb_ℤ_refl update.grace_period_seconds) refl))
      ])

-- The overriders of a deployment: a region's name and its patches.
pub record Overrider (Patch : Type 0) : Type 0 where
  pub name : String
  pub patches : List Patch

module _ {Template Patch : Type 0} (patch : List Patch → Template → Result Template) where
  abbrev has_region : String → List Region → Bool
  has_region name [] = false
  has_region name (r ∷ rest) = if str_eq r.name name then true else has_region name rest

  -- The first overrider of the region; a patch that fails leaves the template as it is.
  unfoldable pub override : String → List (Overrider Patch) → Template → Template
  override name [] template = template
  override name (o ∷ rest) template =
      if str_eq o.name name
      then (elim (patch o.patches template) [ err e ↦ template | ok t ↦ t ])
      else override name rest template

  -- A region that the deployment does not name has no template, unless there is no overrider at all.
  unfoldable pub apply_override_policies :
      String → List Region → List (Overrider Patch) → Template → Option Template
  unfolding override
  apply_override_policies name regions [] template = some template
  apply_override_policies name regions (o ∷ rest) template =
      if has_region name regions then some (override name (o ∷ rest) template) else none
