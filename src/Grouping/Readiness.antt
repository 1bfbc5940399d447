-- ===== src/Grouping/Readiness.antt =====
-- When a round of a rollout has ended, and when the rollout has.
use mathlib.Core.Logic.{◌↔◌}
use extended_deployment.Base.{
  wrap32, str_eq, eq_iff, String, ◌≡◌, refl, ◌≤ℤ◌, true, false, Bool-cases, Option-cases, inl, inr,
  [], ◌∷◌, All, none, some, Result, arith, eq_of_parts,
}
use extended_deployment.Adapter.{InplaceUpdateStatus, Subset, RegionInfo}
use extended_deployment.Grouping.{
  RegionInfos, InplaceSetUpdateSpec, term_ready, check_if_term_ready, check_saturated, region_state,
  region_states, get_inplace_set_update_spec, plain_state, inplace_state,
}

-- A region whose new workload is there and available.
abbrev pub IsReady : String × RegionInfo → Type 0
IsReady (name, ri) = ((ss : Subset) × (ri.new ≡ some ss)) × (ri.available_desired ≡ true)

-- A round has ended exactly if every region has a new workload with its flag set.
pub check_if_term_ready_lem :
    (infos : RegionInfos) → (check_if_term_ready infos ≡ term_ready) ↔ All IsReady infos
unfolding check_if_term_ready
check_if_term_ready_lem [] = ((λ h. tt), (λ h. refl))
check_if_term_ready_lem ((name, ri) ∷ rest) =
    let iff = check_if_term_ready_lem rest in
    elim (Option-cases ri.new) [
      | inl e ↦ ((λ h. absurd (ground (arith, e))), (λ h. absurd (ground (arith, e, h.0.0.1))))
      | inr (ss, e) ↦ elim (Bool-cases ri.available_desired) [
        | inl a ↦ (
          (λ h. (((ss, e), a), iff.0 (ground (arith, e, a)))),
          (λ h. ground (arith, e, a, iff.1 h.1)),
        )
        | inr a ↦ ((λ h. absurd (ground (arith, e, a))), (λ h. absurd (ground (arith, a, h.0.1))))
      ]
    ]

-- What the end of a rollout means for one region.
module _ (unmarshal : String → Result InplaceSetUpdateSpec) where
  -- The flags of a region before its state is computed.
  abbrev pub IsUnset : String × RegionInfo → Type 0
  IsUnset (name, ri) = ri.replicas_desired ≡ false

  -- The new workload has the desired replicas, or as many pods were updated in place, and at least
  -- that many are available.
  abbrev pub IsReached : String × RegionInfo → Type 0
  IsReached (name, ri) =
      (ss : Subset) × (ri.new ≡ some ss)
      × (get_inplace_set_update_spec unmarshal ss.annotations ≡ none
          → (ss.spec.replicas ≡ ri.desired_replicas)
            × (ri.desired_replicas ≤ℤ ss.status.available_replicas))
      × ((spec : InplaceSetUpdateSpec)
          → get_inplace_set_update_spec unmarshal ss.annotations ≡ some spec
          → (status : InplaceUpdateStatus) × (ss.status.inplace_update_status ≡ some status)
            × (status.pod_template_hash ≡ spec.pod_template_hash)
            × (wrap32 spec.update_pod_num ≡ ri.desired_replicas)
            × (ri.desired_replicas ≤ℤ status.available_replicas))

  plain_reached :
      (ri : RegionInfo) (ss : Subset)
      → (plain_state ss ri).replicas_desired ≡ true
      → (plain_state ss ri).available_desired ≡ true
      → (ss.spec.replicas ≡ ri.desired_replicas)
        × (ri.desired_replicas ≤ℤ ss.status.available_replicas)
  unfolding plain_state
  plain_reached ri ss r a =
      let e : ss.spec.replicas ≡ ri.desired_replicas = eq_of_parts _ _ (ground arith) in
      (e, ground (arith, e))

  inplace_reached :
      (spec : InplaceSetUpdateSpec) (ri : RegionInfo) (ss : Subset)
      → ri.replicas_desired ≡ false
      → (inplace_state spec ss ri).replicas_desired ≡ true
      → (inplace_state spec ss ri).available_desired ≡ true
      → (status : InplaceUpdateStatus) × (ss.status.inplace_update_status ≡ some status)
        × (status.pod_template_hash ≡ spec.pod_template_hash)
        × (wrap32 spec.update_pod_num ≡ ri.desired_replicas)
        × (ri.desired_replicas ≤ℤ status.available_replicas)
  unfolding inplace_state
  inplace_reached spec ri ss u r a = elim (Option-cases ss.status.inplace_update_status) [
    | inl e ↦ absurd (ground (arith, e))
    | inr (status, e) ↦ elim (Bool-cases (str_eq status.pod_template_hash spec.pod_template_hash)) [
      | inl h ↦
          let q : wrap32 spec.update_pod_num ≡ ri.desired_replicas =
            eq_of_parts _ _ (ground (arith, e, h)) in
          (
            status,
            e,
            (eq_iff status.pod_template_hash spec.pod_template_hash).0 h,
            q,
            ground (arith, e, h, q),
          )
      | inr h ↦ absurd (ground (arith, e, h))
    ]
  ]

  region_state-IsReached :
      (name : String) (ri : RegionInfo)
      → ri.replicas_desired ≡ false
      → (region_state unmarshal ri).replicas_desired ≡ true
      → (region_state unmarshal ri).available_desired ≡ true
      → IsReached (name, ri)
  unfolding region_state
  region_state-IsReached name ri u r a = elim (Option-cases ri.new) [
    | inl e ↦ absurd (ground (arith, e))
    | inr (ss, e) ↦ (
      ss,
      e,
      (λ n. plain_reached ri ss (ground (arith, e, n)) (ground (arith, e, n))),
      (λ spec n. inplace_reached spec ri ss u (ground (arith, e, n)) (ground (arith, e, n))),
    )
  ]

  -- A rollout counts as saturated only where every region has a new workload with the desired
  -- replicas, or with that many pods updated in place to the current template, and at least that many
  -- are available.
  pub check_saturated-IsReached :
      (infos : RegionInfos)
      → All IsUnset infos
      → check_saturated (region_states unmarshal infos) ≡ true
      → All IsReached infos
  unfolding check_saturated region_states
  check_saturated-IsReached [] u h = tt
  check_saturated-IsReached ((name, ri) ∷ rest) u h = (
    region_state-IsReached name ri u.0 (ground arith) (ground arith),
    check_saturated-IsReached rest u.1 (ground arith),
  )
