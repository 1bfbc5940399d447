-- ===== src/Reschedule.antt =====
-- Automatic rescheduling: replicas of regions that failed, or whose pods lack resources, are moved to
-- regions with room (pkg/controllers/reschedule/reschedule.go).
pub mod Insufficient
pub mod Annotation
pub mod Deployment
pub mod Controller
pub mod Subsets
pub mod Start
pub mod Choice
pub mod Steps
pub mod Transfer
pub mod Kept
pub mod Emptied
pub mod Failed
pub mod Split
pub mod Flagged
pub mod Waiting
use extended_deployment.Api.{Region}
use extended_deployment.Grouping.{
  Annotations, AutoScheduleSpec, ScheduleReplicas, annotation_reschedule, get_auto_schedule_spec,
  replicas_behind,
}
use extended_deployment.DeployRegion.Resource.{Resource}
use extended_deployment.DeployRegion.Cache.{AllResourceCache, get_region_allocatable_pod_num}
use extended_deployment.DeployRegion.Failure.{annotation_failed_flag}
use extended_deployment.Base.{
  eqb_ℤ, sub32, wrap32, lookup, put_key, delete_key, not_synced, ◌++◌, pos_part, Bool, true, false,
  String, str_eq, ℕ, zero, suc, ℤ, pos, ltb_ℤ, leb_ℤ, add32, sub64, if◌then◌else◌, List, [], ◌∷◌,
  Option, none, some, Result, ok, err, no_available_region, nil_pointer,
}

pub record ScheduleRegionInfo : Type 0 where
  pub name : String
  pub config_replicas : ℤ
  pub schedule_replicas : ℤ
  pub reschedule_replicas : ℤ
  pub allocatable_pod : ℤ

-- The map from the names of regions to what a pointer of it holds.
abbrev pub Infos : Type 0
Infos = String → Option ScheduleRegionInfo

-- `names` are the keys of the map, in the order of one iteration.
pub record ScheduleInfo : Type 0 where
  pub names : List String
  pub regions_info : Infos

-- What a nil pointer is worth to the code that reads behind it.
abbrev pub allocatable_of : Option ScheduleRegionInfo → Result ℤ
allocatable_of none = err nil_pointer
allocatable_of (some r) = ok r.allocatable_pod

-- The better one of the best region so far and another one; a nil pointer is replaced.
unfoldable pub better :
    Option ScheduleRegionInfo → Option ScheduleRegionInfo → Result (Option ScheduleRegionInfo)
better none region = ok region
better (some best) none = err nil_pointer
better (some best) (some region) =
    ok (if ltb_ℤ best.allocatable_pod region.allocatable_pod then some region else some best)

unfoldable pub best_region :
    Infos → Option ScheduleRegionInfo → List String → Result (Option ScheduleRegionInfo)
unfolding better
best_region m best [] = ok best
best_region m best (region ∷ rest) = elim (better best (m region)) [
  | err e ↦ err e
  | ok next ↦ best_region m next rest
]

-- Writes behind the pointer that the map holds for the region.
abbrev pub set_region : ScheduleRegionInfo → Infos → Infos
set_region r m name = if str_eq name r.name then some r else m name

unfoldable pub place : ScheduleRegionInfo → Infos → Infos
place r m =
    set_region
      (record r {
        reschedule_replicas = add32 r.reschedule_replicas (pos 1);
        allocatable_pod = sub64 r.allocatable_pod (pos 1);
      })
      m

-- One round: a replica goes to the region with the most room.
unfoldable pub place_one : Infos → Option ScheduleRegionInfo → Result Infos
unfolding place
place_one m none = err no_available_region
place_one m (some best) =
    if leb_ℤ best.allocatable_pod (pos 0) then err no_available_region else ok (place best m)

unfoldable pub reschedule : List String → ℕ → Infos → Result Infos
unfolding best_region place_one
reschedule targets zero m = ok m
reschedule targets (suc n) m = elim (best_region m none targets) [
  | err e ↦ err e
  | ok best ↦ elim (place_one m best) [ err e ↦ err e | ok m' ↦ reschedule targets n m' ]
]

-- A map that is read with its default, false.
abbrev pub failed_in : List (String × Bool) → String → Bool
failed_in [] name = false
failed_in ((region, failed) ∷ rest) name =
    if str_eq region name then failed else failed_in rest name

-- The loop of RescheduleFailedRegions: the number of replicas to place, the regions for them, and the
-- map, where the failed regions have nothing planned. The code also appends the names of these to
-- a field of its receiver, but the receiver is a copy, and the field is lost.
unfoldable pub failed_loop :
    List (String × Bool) → List String → ℤ → Infos → Result (ℤ × List String × Infos)
failed_loop regions [] num m = ok (num, [], m)
failed_loop regions (name ∷ rest) num m = elim (m name) [
  | none ↦ err nil_pointer
  | some r ↦
      let out =
        failed_loop regions rest (add32 num r.config_replicas)
          (set_region (record r { reschedule_replicas = pos 0 }) m) in
      let stay = failed_loop regions rest num m in
      if failed_in regions name
      then out
      else elim stay [ err e ↦ err e | ok x ↦ ok (x.0, name ∷ x.1, x.2) ]
]

unfoldable pub reschedule_failed_regions : List (String × Bool) → ScheduleInfo → Result Infos
unfolding failed_loop
reschedule_failed_regions [] info = ok info.regions_info
reschedule_failed_regions (r ∷ rs) info =
    elim (failed_loop (r ∷ rs) info.names (pos 0) info.regions_info) [
      | err e ↦ err e
      | ok x ↦ reschedule x.1 (pos_part x.0) x.2
    ]
