-- ===== src/Reschedule/Transfer.antt =====
-- What rescheduling moves: no replica is lost or invented, and no region gets more than it has room
-- for.
use extended_deployment.Base.{
  String, ℕ, zero, suc, ◌+◌, ◌^◌, ◌≤◌, ◌<◌, ◌≡◌, ◌⊎◌, inl, inr, refl, ◌∙◌, pos, pos_part, leb_ℤ,
  true, false, Bool-cases, List, [], ◌∷◌, Memᴰ, All, Distinct, sum_of, none, some, ok, err,
  no_available_region, arith,
}
use extended_deployment.Reschedule.{
  ScheduleRegionInfo, Infos, best_region, place, place_one, reschedule,
}
use extended_deployment.Reschedule.Choice.{IsRegion, room_of, planned_of, best_of, target_bounds}
use extended_deployment.Reschedule.Steps.{Step, place-Step}

no_room :
    (m : Infos) (targets : List String) (n : ℕ)
    → All (λ t. room_of m t ≤ n) targets
    → n ≡ 0
    → sum_of (room_of m) targets ≡ 0
no_room m [] n h e = refl
no_room m (t ∷ rest) n h e = omega (arith, h.0, no_room m rest n h.1 e)

round_run :
    (m : Infos) (targets : List String) (n : ℕ) (r : ScheduleRegionInfo)
    → best_region m none targets ≡ ok (some r)
    → (leb_ℤ r.allocatable_pod (pos 0) ≡ false
        → reschedule targets (suc n) m ≡ reschedule targets n (place r m))
      × (leb_ℤ r.allocatable_pod (pos 0) ≡ true
          → reschedule targets (suc n) m ≡ err no_available_region)
unfolding reschedule
round_run m targets n r e =
    ((λ h. rw (e, h, reschedule, place_one) refl), (λ h. rw (e, h, reschedule, place_one) refl))

-- A round either places a replica, or finds that there is no room.
round :
    (m : Infos) (targets : List String) (n : ℕ)
    → All (IsRegion m) targets
    → Distinct targets
    → sum_of (planned_of m) targets + 1 < 2 ^ 31
    → ((m' : Infos) × Step m m' targets × (reschedule targets (suc n) m ≡ reschedule targets n m'))
      ⊎ ((sum_of (room_of m) targets ≡ 0)
          × (reschedule targets (suc n) m ≡ err no_available_region))
unfolding reschedule
round m [] n v d small = inr (refl, refl)
round m (t ∷ rest) n v d small =
    let (r, eq, found, mem, all) = best_of m t rest v in
    let b = target_bounds m (t ∷ rest) r v found mem in
    elim (Bool-cases (leb_ℤ r.allocatable_pod (pos 0))) [
      | inl h ↦ inr (
        no_room m (t ∷ rest) (pos_part r.allocatable_pod) all (ground arith),
        (round_run m (t ∷ rest) n r eq).1 h,
      )
      | inr h ↦ inl (
        place r m,
        place-Step m r found (ground arith) b.0 b.1 (omega (arith, b.2)) (t ∷ rest) v d mem,
        (round_run m (t ∷ rest) n r eq).0 h,
      )
    ]

-- What a successful reschedule has done to the regions.
pub record Transferred (m m' : Infos) (targets : List String) (n : ℕ) : Type 0 where
  pub planned : sum_of (planned_of m') targets ≡ sum_of (planned_of m) targets + n
  pub each :
      (t : String)
      → (planned_of m' t + room_of m' t ≡ planned_of m t + room_of m t)
        × (planned_of m t ≤ planned_of m' t)
  pub others : (t : String) → ¬ Memᴰ t targets → m' t ≡ m t

-- Where the target regions have room for all the replicas, these are placed, one after the other:
-- the plans of the targets grow by that number in all, the room of each falls by what it gets, so
-- that none gets more than it has room for, and other regions stay. Where there is less room, the
-- code fails.
pub reschedule_lem :
    (m : Infos) (targets : List String) (n : ℕ)
    → All (IsRegion m) targets
    → Distinct targets
    → sum_of (planned_of m) targets + n < 2 ^ 31
    → (n ≤ sum_of (room_of m) targets
        → (m' : Infos) × (reschedule targets n m ≡ ok m') × Transferred m m' targets n)
      × (sum_of (room_of m) targets < n → reschedule targets n m ≡ err no_available_region)
unfolding reschedule
reschedule_lem m targets zero v d small = (
  (λ h. (
    m,
    refl,
    record { planned = omega arith; each = λ t. (refl, omega arith); others = λ t n. refl },
  )),
  (λ h. absurd (omega arith)),
)
reschedule_lem m targets (suc n) v d small = elim (round m targets n v d (omega arith)) [
  | inl (m', step, eq) ↦
      let (more, less) = reschedule_lem m' targets n step.regions d (omega (arith, step.planned)) in
      (
        (λ h.
            let (m2, e, w) = more (omega (arith, step.room)) in
            (
              m2,
              eq ∙ e,
              record {
                planned = omega (arith, w.planned, step.planned);
                each = λ t. (
                  omega (arith, (w.each t).0, (step.each t).0),
                  omega (arith, (w.each t).1, (step.each t).1),
                );
                others = λ t k. w.others t k ∙ step.others t k;
              },
            )),
        (λ h. eq ∙ less (omega (arith, step.room))),
      )
  | inr (empty, eq) ↦ ((λ h. absurd (omega (arith, empty))), (λ h. eq))
]
