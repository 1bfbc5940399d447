-- ===== src/Reschedule/Failed.antt =====
-- Where the replicas of failed regions go.
use mathlib.Core.List.Memᴰ.{head, tail}
use extended_deployment.Base.{
  String, ℕ, ◌+◌, ◌^◌, ◌≤◌, ◌<◌, ◌≡◌, inl, inr, refl, ◌∙◌, ap, pos, Bool, true, false, Bool-cases,
  List, [], ◌∷◌, Memᴰ, All, Distinct, sum_of, ok, err, no_available_region, arith,
}
use extended_deployment.Reschedule.{
  ScheduleInfo, Infos, reschedule, failed_in, failed_loop, reschedule_failed_regions,
}
use extended_deployment.Reschedule.Choice.{IsRegion, room_of, planned_of}
use extended_deployment.Reschedule.Transfer.{reschedule_lem}
use extended_deployment.Reschedule.Kept.{
  IsConfigured, kept, lost_of, kept-Distinct, kept_sum, kept_not_failed,
}
use extended_deployment.Reschedule.Emptied.{Emptied, config_same, failed_loop_lem}

module _ (regions : List (String × Bool)) where
  emptied_region :
      (m m' : Infos) (names : List String)
      → Emptied regions m m' names
      → (t : String) → IsConfigured m t
      → failed_in regions t ≡ false
      → IsRegion m' t
  emptied_region m m' names w t v e = (config_same regions m m' t (w.alive t e) v).is_region

  kept_regions :
      (m m' : Infos) (all names : List String)
      → Emptied regions m m' all
      → All (IsConfigured m) names
      → All (IsRegion m') (kept regions names)
  kept_regions m m' all [] w v = tt
  kept_regions m m' all (t ∷ rest) w v = elim (Bool-cases (failed_in regions t)) [
    | inl e ↦ rw e (kept_regions m m' all rest w v.1)
    | inr e ↦ rw e (emptied_region m m' all w t v.0 e, kept_regions m m' all rest w v.1)
  ]

  kept_same :
      (m m' : Infos) (all names : List String)
      → Emptied regions m m' all
      → (sum_of (planned_of m') (kept regions names) ≡ sum_of (planned_of m) (kept regions names))
        × (sum_of (room_of m') (kept regions names) ≡ sum_of (room_of m) (kept regions names))
  kept_same m m' all [] w = (refl, refl)
  kept_same m m' all (t ∷ rest) w = elim (Bool-cases (failed_in regions t)) [
    | inl e ↦ rw e (kept_same m m' all rest w)
    | inr e ↦
        let (p, r) = kept_same m m' all rest w in
        rw e (ground (arith, p, w.alive t e), ground (arith, r, w.alive t e))
  ]

  -- The plans of the failed regions are 0, so the kept regions ones have the whole sum.
  failed_sum :
      (m : Infos) (names : List String)
      → ((t : String) → Memᴰ t names → failed_in regions t ≡ true → planned_of m t ≡ 0)
      → sum_of (planned_of m) names ≡ sum_of (planned_of m) (kept regions names)
  failed_sum m [] h = refl
  failed_sum m (t ∷ rest) h = elim (Bool-cases (failed_in regions t)) [
    | inl e ↦ rw e (omega (arith, h t (head refl) e, failed_sum m rest (λ y k. h y (tail k))))
    | inr e ↦ rw e (omega (arith, failed_sum m rest (λ y k. h y (tail k))))
  ]

failed_run :
    (region : String × Bool) (regions : List (String × Bool)) (info : ScheduleInfo) (n : ℕ)
    (ts : List String) (m : Infos)
    → failed_loop (region ∷ regions) info.names (pos 0) info.regions_info ≡ ok (pos n, ts, m)
    → reschedule_failed_regions (region ∷ regions) info ≡ reschedule ts n m
unfolding reschedule_failed_regions
failed_run region regions info n ts m e = rw (e, reschedule_failed_regions) refl

-- Where the regions that have not failed have room for the replicas that are configured for the
-- failed ones, these go there: the plans of all regions sum up to what is configured, a failed
-- region has nothing planned, and any other one at least what is configured and at most that and its
-- room. Where there is less room, the code fails.
pub reschedule_failed_regions_lem :
    (region : String × Bool) (regions : List (String × Bool)) (info : ScheduleInfo)
    → All (IsConfigured info.regions_info) info.names
    → Distinct info.names
    → sum_of (planned_of info.regions_info) info.names < 2 ^ 31
    → (sum_of (lost_of (region ∷ regions) info.regions_info) info.names
          ≤ sum_of (room_of info.regions_info) (kept (region ∷ regions) info.names)
        → (m : Infos) × (reschedule_failed_regions (region ∷ regions) info ≡ ok m)
          × (sum_of (planned_of m) info.names ≡ sum_of (planned_of info.regions_info) info.names)
          × ((t : String)
              → Memᴰ t info.names
              → (failed_in (region ∷ regions) t ≡ true → planned_of m t ≡ 0)
                × (failed_in (region ∷ regions) t ≡ false
                    → (planned_of info.regions_info t ≤ planned_of m t)
                      × (planned_of m t
                          ≤ planned_of info.regions_info t + room_of info.regions_info t))))
      × (sum_of (room_of info.regions_info) (kept (region ∷ regions) info.names)
            < sum_of (lost_of (region ∷ regions) info.regions_info) info.names
          → reschedule_failed_regions (region ∷ regions) info ≡ err no_available_region)
reschedule_failed_regions_lem region regions info v d small =
    let rs = region ∷ regions in
    let whole = kept_sum rs (planned_of info.regions_info) info.names in
    let (m, run, w) =
      failed_loop_lem rs info.regions_info info.names 0 v d (omega (arith, whole)) in
    let (same, room) = kept_same rs info.regions_info m info.names info.names w in
    let (more, less) =
      reschedule_lem m (kept rs info.names) (sum_of (lost_of rs info.regions_info) info.names)
        (kept_regions rs info.regions_info m info.names info.names w v)
        (kept-Distinct rs info.names d) (omega (arith, whole, same)) in
    let start =
      failed_run region regions info (sum_of (lost_of rs info.regions_info) info.names)
        (kept rs info.names) m (run ∙ ap (λ n. ok (pos n, kept rs info.names, m)) (omega arith)) in
    (
      (λ h.
          let (m', e, t) = more (omega (arith, room)) in
          let zeros : (y : String)
              → Memᴰ y info.names
              → failed_in rs y ≡ true
              → planned_of m' y ≡ 0 =
            λ y k q.
              ground (arith, t.others y (kept_not_failed rs y info.names q), w.failed y k q) in
          (
            m',
            start ∙ e,
            omega (arith, failed_sum rs m' info.names zeros, t.planned, same, whole),
            λ y k. (
              zeros y k,
              λ q. (
                ground (arith, w.alive y q, (t.each y).1),
                ground (arith, w.alive y q, (t.each y).0),
              ),
            ),
          )),
      (λ h. start ∙ less (omega (arith, room))),
    )
