-- ===== src/Reschedule/Choice.antt =====
-- The region with the most room, among the targets of a reschedule.
use mathlib.Core.List.Memᴰ.{head, tail}
use extended_deployment.Base.{
  String, ℕ, ◌^◌, ◌≤◌, ◌<◌, ◌≡◌, ◌⊎◌, inl, inr, refl, ◌∙◌, ap, pos_part, neg_part, ltb_ℤ,
  Bool-cases, List, [], ◌∷◌, Memᴰ, All, All-Memᴰ, sum_of, none, some, ok, arith,
}
use extended_deployment.Reschedule.{ScheduleRegionInfo, Infos, best_region}

-- A region of the map: its pointer is not nil, it is kept under its own name, and its counts are
-- numbers.
pub record IsRegion (m : Infos) (name : String) : Type 0 where
  pub region : ScheduleRegionInfo
  pub found : m name ≡ some region
  pub named : region.name ≡ name
  pub room_small : pos_part region.allocatable_pod < 2 ^ 63
  pub planned_nonneg : neg_part region.reschedule_replicas ≡ 0

-- The pods that a region has room for, and the replicas that are planned for it.
abbrev pub room_of : Infos → String → ℕ
room_of m name = elim (m name) [ none ↦ 0 | some r ↦ pos_part r.allocatable_pod ]

abbrev pub planned_of : Infos → String → ℕ
planned_of m name = elim (m name) [ none ↦ 0 | some r ↦ pos_part r.reschedule_replicas ]

moved :
    {x y b t : String} {rest : List String}
    → (x ≡ y) ⊎ Memᴰ x rest
    → y ≡ t
    → (x ≡ b) ⊎ Memᴰ x (t ∷ rest)
moved (inl e) h = inr (head (e ∙ h))
moved (inr m) h = inr (tail m)

kept : {x b t : String} {rest : List String} → (x ≡ b) ⊎ Memᴰ x rest → (x ≡ b) ⊎ Memᴰ x (t ∷ rest)
kept (inl e) = inl e
kept (inr m) = inr (tail m)

best_region_lem :
    (m : Infos) (best : ScheduleRegionInfo) (targets : List String)
    → All (IsRegion m) targets
    → m best.name ≡ some best
    → (r : ScheduleRegionInfo) × (best_region m (some best) targets ≡ ok (some r))
      × (m r.name ≡ some r)
      × ((r.name ≡ best.name) ⊎ Memᴰ r.name targets)
      × (pos_part best.allocatable_pod ≤ pos_part r.allocatable_pod)
      × All (λ t. room_of m t ≤ pos_part r.allocatable_pod) targets
unfolding best_region
best_region_lem m best [] v e = (best, refl, e, inl refl, omega arith, tt)
best_region_lem m best (t ∷ rest) v e =
    elim (Bool-cases (ltb_ℤ best.allocatable_pod v.0.region.allocatable_pod)) [
      | inl h ↦
          let (r, eq, found, mem, most, all) =
            best_region_lem m v.0.region rest v.1 (ap m v.0.named ∙ v.0.found) in
          (
            r,
            rw (v.0.found, h, best_region) eq,
            found,
            moved mem v.0.named,
            ground arith,
            (ground (arith, v.0.found), all),
          )
      | inr h ↦
          let (r, eq, found, mem, most, all) = best_region_lem m best rest v.1 e in
          (
            r,
            rw (v.0.found, h, best_region) eq,
            found,
            kept mem,
            most,
            (ground (arith, v.0.found), all),
          )
    ]

pub best_of :
    (m : Infos) (t : String) (rest : List String)
    → All (IsRegion m) (t ∷ rest)
    → (r : ScheduleRegionInfo) × (best_region m none (t ∷ rest) ≡ ok (some r))
      × (m r.name ≡ some r)
      × Memᴰ r.name (t ∷ rest)
      × All (λ t. room_of m t ≤ pos_part r.allocatable_pod) (t ∷ rest)
unfolding best_region
best_of m t rest v =
    let (r, eq, found, mem, most, all) =
      best_region_lem m v.0.region rest v.1 (ap m v.0.named ∙ v.0.found) in
    (
      r,
      rw (v.0.found, best_region) eq,
      found,
      first mem v.0.named,
      (ground (arith, v.0.found), all),
    )
  where
    first : {x y : String} → (x ≡ y) ⊎ Memᴰ x rest → y ≡ t → Memᴰ x (t ∷ rest)
    first (inl e) h = head (e ∙ h)
    first (inr m) h = tail m

planned_le :
    (m : Infos) (name : String) (targets : List String)
    → Memᴰ name targets
    → planned_of m name ≤ sum_of (planned_of m) targets
planned_le m name [] h = elim h [ ]
planned_le m name (t ∷ rest) (head e) = rw e (omega arith)
planned_le m name (t ∷ rest) (tail h) = omega (arith, planned_le m name rest h)

-- A region that the map holds under its own name, and that is a target.
pub target_bounds :
    (m : Infos) (targets : List String) (r : ScheduleRegionInfo)
    → All (IsRegion m) targets
    → m r.name ≡ some r
    → Memᴰ r.name targets
    → (pos_part r.allocatable_pod < 2 ^ 63)
      × (neg_part r.reschedule_replicas ≡ 0)
      × (pos_part r.reschedule_replicas ≤ sum_of (planned_of m) targets)
target_bounds m targets r v e mem =
    let w = All-Memᴰ (IsRegion m) r.name targets v mem in
    (
      ground (arith, e, w.found, w.room_small),
      ground (arith, e, w.found, w.planned_nonneg),
      ground (arith, e, planned_le m r.name targets mem),
    )
