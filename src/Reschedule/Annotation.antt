-- ===== src/Reschedule/Annotation.antt =====
-- The annotation with the result (SetRescheduleAnnotation and CheckAnnotation in
-- pkg/controllers/reschedule/reschedule.go).
use extended_deployment.Grouping.{
  Annotations, AutoScheduleSpec, ScheduleReplicas, annotation_reschedule, get_auto_schedule_spec,
}
use extended_deployment.DeployRegion.Failure.{annotation_failed_flag}
use extended_deployment.Base.{
  eqb_ℤ, sub32, lookup, put_key, delete_key, Bool, true, false, String, str_eq, ℤ, if◌then◌else◌,
  List, [], ◌∷◌, Option, none, some, Result, ok, err, nil_pointer,
}
use extended_deployment.Reschedule.{ScheduleInfo, Infos}

-- The records of the annotation; the failed regions are never set.
unfoldable pub schedule_records : Infos → List String → Result (List (String × ScheduleReplicas))
schedule_records m [] = ok []
schedule_records m (name ∷ rest) = elim (m name) [
  | none ↦ err nil_pointer
  | some r ↦ elim (schedule_records m rest) [
    | err e ↦ err e
    | ok records ↦ ok (
        (
          name,
          record {
            config = r.config_replicas;
            schedule = sub32 r.reschedule_replicas r.config_replicas;
          },
        )
        ∷ records)
  ]
]

unfoldable pub new_spec : ℤ → ScheduleInfo → Result AutoScheduleSpec
unfolding schedule_records
new_spec generation info = elim (schedule_records info.regions_info info.names) [
  | err e ↦ err e
  | ok infos ↦ ok (record { generation = generation; failure_region = ""; infos = infos })
]

-- SetRescheduleAnnotation; the encoding to JSON is a parameter.
unfoldable pub set_reschedule_annotation :
    (AutoScheduleSpec → Result String) → ℤ → ScheduleInfo → Annotations → Result Annotations
unfolding new_spec
set_reschedule_annotation marshal generation info anno = elim (new_spec generation info) [
  | err e ↦ err e
  | ok spec ↦ elim (marshal spec) [
    | err e ↦ err e
    | ok text ↦ ok (put_key annotation_reschedule text anno)
  ]
]

pub data RescheduleType : Type 0 where
  reschedule_never reschedule_unknown reschedule_for_failed_region : RescheduleType
  reschedule_for_resource_insufficient : RescheduleType
  reschedule_for_failed_region_and_resource_insufficient : RescheduleType

-- The type for a specification of the current generation, by whether a region's failure is flagged.
abbrev type_of : Bool → Option AutoScheduleSpec → RescheduleType
type_of true spec = reschedule_unknown
type_of false none = reschedule_never
type_of false (some spec) =
    if str_eq spec.failure_region ""
    then reschedule_for_resource_insufficient
    else reschedule_unknown

abbrev is_outdated : ℤ → Option AutoScheduleSpec → Bool
is_outdated generation none = false
is_outdated generation (some spec) = if eqb_ℤ spec.generation generation then false else true

abbrev is_set : String → Annotations → Bool
is_set key anno = elim (lookup key anno) [ none ↦ false | some text ↦ true ]

-- CheckAnnotation: the type of the last reschedule, whether to go on, and the annotations.
unfoldable pub check_annotation :
    (String → Result AutoScheduleSpec)
    → ℤ
    → Annotations
    → Result (RescheduleType × Bool × Annotations)
check_annotation unmarshal generation anno = elim (get_auto_schedule_spec unmarshal anno) [
  | err e ↦ err e
  | ok spec ↦
      if is_outdated generation spec
      then ok (reschedule_unknown, false, delete_key annotation_reschedule anno)
      else ok (type_of (is_set annotation_failed_flag anno) spec, true, anno)
]
