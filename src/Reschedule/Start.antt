-- ===== src/Reschedule/Start.antt =====
-- What rescheduling starts from (NewScheduleRegionInfo in pkg/controllers/reschedule/reschedule.go).
use extended_deployment.Api.{Region}
use extended_deployment.Grouping.{replicas_behind}
use extended_deployment.DeployRegion.Resource.{Resource}
use extended_deployment.DeployRegion.Cache.{AllResourceCache, get_region_allocatable_pod_num}
use extended_deployment.Base.{
  not_synced, ◌++◌, String, ℤ, pos, if◌then◌else◌, List, [], ◌∷◌, none, some, Result, ok, err,
  nil_pointer,
}
use extended_deployment.Reschedule.{ScheduleRegionInfo, ScheduleInfo, Infos, set_region}

-- The part of NewScheduleRegionInfo for one region: its replicas, and the pods that it has room for.
-- RequestResourceByRegion is an argument.
unfoldable pub new_region :
    (String → Result Resource) → AllResourceCache → ℤ → Region → Result ScheduleRegionInfo
new_region request cache total region = elim (replicas_behind total region.replicas) [
  | err e ↦ err e
  | ok replicas ↦ elim (request region.name) [
    | err e ↦ err e
    | ok res ↦
        if cache.synced
        then ok (record {
          name = region.name;
          config_replicas = replicas;
          schedule_replicas = pos 0;
          reschedule_replicas = replicas;
          allocatable_pod = get_region_allocatable_pod_num region.name res cache;
        })
        else err not_synced
  ]
]

unfoldable pub new_regions :
    (String → Result Resource)
    → AllResourceCache
    → ℤ
    → List Region
    → ScheduleInfo
    → Result ScheduleInfo
unfolding new_region
new_regions request cache total [] info = ok info
new_regions request cache total (region ∷ rest) info =
    elim (new_region request cache total region) [
      | err e ↦ err e
      | ok r ↦ new_regions request cache total rest (record {
        names = elim (info.regions_info region.name) [
          | none ↦ info.names ++ region.name ∷ []
          | some old ↦ info.names
        ];
        regions_info = set_region r info.regions_info;
      })
    ]

-- The status of each region has the replicas of its new workload; a region of the status that is not
-- in the specification is a nil pointer.
unfoldable pub set_schedule_replicas : List (String × ℤ) → Infos → Result Infos
set_schedule_replicas [] m = ok m
set_schedule_replicas ((name, updated) ∷ rest) m = elim (m name) [
  | none ↦ err nil_pointer
  | some r ↦ set_schedule_replicas rest (set_region (record r { schedule_replicas = updated }) m)
]

unfoldable pub new_schedule_region_info :
    (String → Result Resource)
    → AllResourceCache
    → ℤ
    → List Region
    → List (String × ℤ)
    → Result ScheduleInfo
unfolding new_regions set_schedule_replicas
new_schedule_region_info request cache total regions status =
    elim (new_regions request cache total regions
      (record { names = []; regions_info = λ name. none })) [
        | err e ↦ err e
        | ok info ↦ elim (set_schedule_replicas status info.regions_info) [
          | err e ↦ err e
          | ok m ↦ ok (record info { regions_info = m })
        ]
      ]
