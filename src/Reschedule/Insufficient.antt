-- ===== src/Reschedule/Insufficient.antt =====
-- Pods that lack resources (RescheduleInsufficientPods in pkg/controllers/reschedule/reschedule.go).
use extended_deployment.Base.{
  sub32, wrap32, lookup, pos_part, Bool, true, false, String, ℕ, pos, ltb_ℤ, if◌then◌else◌, List,
  [], ◌∷◌, none, some, Result, ok, err, nil_pointer,
}
use extended_deployment.Reschedule.{ScheduleInfo, Infos, set_region, reschedule}

-- The pods of each region that lack resources, by their number.
abbrev is_listed : String → List (String × ℕ) → Bool
is_listed name pods = elim (lookup name pods) [ none ↦ false | some n ↦ true ]

-- The regions that replicas can be moved to: no pod of theirs is waiting, and nothing is planned to
-- leave them.
unfoldable pub schedule_in_regions : List (String × ℕ) → Infos → List String → Result (List String)
schedule_in_regions pods m [] = ok []
schedule_in_regions pods m (name ∷ rest) = elim (m name) [
  | none ↦ err nil_pointer
  | some r ↦
      let later = schedule_in_regions pods m rest in
      if is_listed name pods
      then later
      else if ltb_ℤ r.reschedule_replicas r.config_replicas
      then later
      else elim later [ err e ↦ err e | ok names ↦ ok (name ∷ names) ]
]

-- What leaves a region: its configured replicas less those that have started.
unfoldable pub insufficient_loop : List String → List (String × ℕ) → Infos → Result Infos
insufficient_loop targets [] m = ok m
insufficient_loop targets ((name, pods) ∷ rest) m = elim (m name) [
  | none ↦ err nil_pointer
  | some r ↦
      let started = sub32 r.schedule_replicas (wrap32 (pos pods)) in
      let m' = set_region (record r { reschedule_replicas = started }) m in
      elim (reschedule targets (pos_part (sub32 r.config_replicas started)) m') [
        | err e ↦ err e
        | ok m2 ↦ insufficient_loop targets rest m2
      ]
]

unfoldable pub reschedule_insufficient_pods : List (String × ℕ) → ScheduleInfo → Result Infos
unfolding schedule_in_regions insufficient_loop
reschedule_insufficient_pods pods info =
    elim (schedule_in_regions pods info.regions_info info.names) [
      | err e ↦ err e
      | ok targets ↦ insufficient_loop targets pods info.regions_info
    ]
