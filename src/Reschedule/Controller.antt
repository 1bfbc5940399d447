-- ===== src/Reschedule/Controller.antt =====
-- One call of the reschedule controller (reconcile in pkg/controllers/reschedule/controller.go). The
-- queries of workloads and pods, whether the rollout is finished, JSON and the calls on the API server
-- are an interface.
use extended_deployment.Base.{
  ℕ, ◌+◌, ◌==◌, ℤ, pos, ltb_ℤ, String, Bool, true, false, not, if◌then◌else◌, List, [], ◌∷◌, Option,
  none, some, Result, ok, err, pending_not_timeout, lookup, put_key, delete_key,
}
use extended_deployment.Api.{AutoReschedule}
use extended_deployment.Adapter.{Subset, Outcome, done, fail, ◌>>◌}
use extended_deployment.Grouping.{Annotations, AutoScheduleSpec, annotation_reschedule}
use extended_deployment.Reschedule.{ScheduleInfo, failed_in, reschedule_failed_regions}
use extended_deployment.Reschedule.Insufficient.{reschedule_insufficient_pods}
use extended_deployment.Reschedule.Annotation.{
  RescheduleType, reschedule_never, reschedule_for_failed_region,
  reschedule_for_resource_insufficient, set_reschedule_annotation, check_annotation,
}
use extended_deployment.Reschedule.Deployment.{
  Rescheduled, get_failed_regions, set_reschedule_condition, del_reschedule_condition,
}

pub record RescheduleClient : Type 1 where
  pub State : Type 0
  pub query : State → Result (Option Rescheduled)
  pub is_progress_finished : Rescheduled → Bool
  pub query_subsets : Rescheduled → State → Result (List (String × List Subset))
  -- The pods of a workload that lack resources, by their number, and the seconds that one has waited.
  pub query_insufficient_pods : Subset → State → Result (ℕ × ℤ)
  pub new_schedule_info : Rescheduled → State → Result ScheduleInfo
  pub unmarshal : String → Result AutoScheduleSpec
  pub marshal : AutoScheduleSpec → Result String
  pub update : Rescheduled → State → Outcome State (Unit {0})
  pub update_status : Rescheduled → State → Outcome State (Unit {0})

abbrev is_enabled : Option AutoReschedule → Bool
is_enabled none = false
is_enabled (some a) = a.enable

abbrev timeout_of : Option AutoReschedule → ℤ
timeout_of none = pos 0
timeout_of (some a) = a.timeout_seconds

abbrev pub or_zero : Option ℕ → ℕ
or_zero none = 0
or_zero (some n) = n

abbrev pub count_at : String → List (String × ℕ) → ℕ
count_at name m = or_zero (lookup name m)

-- Nothing to do: no region failed and no pod waits, after a reschedule that was not for a failed region.
abbrev pub is_idle : RescheduleType → RescheduleType → Bool
is_idle reschedule_never reschedule_never = true
is_idle reschedule_never reschedule_for_resource_insufficient = true
is_idle kind last = false

module _ (c : RescheduleClient) where
  -- The pods of one region's workloads. A pod that has not waited long enough ends the call.
  unfoldable pub waiting_in :
      ℤ
      → String
      → List Subset
      → RescheduleType × List (String × ℕ)
      → c.State
      → Result (RescheduleType × List (String × ℕ))
  waiting_in timeout name [] found s = ok found
  waiting_in timeout name (ss ∷ rest) found s = elim (c.query_insufficient_pods ss s) [
    | err e ↦ err e
    | ok (n, seconds) ↦
        let more = put_key name (count_at name found.1 + n) found.1 in
        let skip = waiting_in timeout name rest found s in
        let go = waiting_in timeout name rest (reschedule_for_resource_insufficient, more) s in
        if n == 0 then skip else if ltb_ℤ timeout seconds then go else err pending_not_timeout
  ]

  unfoldable pub waiting :
      ℤ
      → List (String × Bool)
      → List (String × List Subset)
      → RescheduleType × List (String × ℕ)
      → c.State
      → Result (RescheduleType × List (String × ℕ))
  unfolding waiting_in
  waiting timeout failed [] found s = ok found
  waiting timeout failed ((name, subsets) ∷ rest) found s =
      let skip = waiting timeout failed rest found s in
      let go : Result (RescheduleType × List (String × ℕ)) =
        elim (waiting_in timeout name subsets found s) [
          | err e ↦ err e
          | ok more ↦ waiting timeout failed rest more s
        ] in
      if failed_in failed name then skip else go

  -- The new plan, without the writes.
  unfoldable pub plan :
      Rescheduled → List (String × Bool) → List (String × ℕ) → c.State → Result Annotations
  unfolding reschedule_failed_regions reschedule_insufficient_pods set_reschedule_annotation
  plan d failed pods s = elim (c.new_schedule_info d s) [
    | err e ↦ err e
    | ok info ↦ elim (reschedule_failed_regions failed info) [
      | err e ↦ err e
      | ok m ↦ elim (reschedule_insufficient_pods pods (record info { regions_info = m })) [
        | err e ↦ err e
        | ok m2 ↦
            set_reschedule_annotation c.marshal d.generation (record info { regions_info = m2 })
              d.annotations
      ]
    ]
  ]

  abbrev stop : Rescheduled → c.State → Outcome c.State (Unit {0})
  stop d = c.update_status (del_reschedule_condition d)

  unfoldable pub write_plan :
      Rescheduled
      → RescheduleType
      → List (String × Bool)
      → List (String × ℕ)
      → c.State
      → Outcome c.State (Unit {0})
  unfolding plan set_reschedule_condition
  write_plan d kind failed pods s = elim (plan d failed pods s) [
    | err e ↦ fail e s
    | ok anno ↦
        let new = record d { annotations = anno } in
        (c.update new >> c.update_status (set_reschedule_condition kind new)) s
  ]

  unfoldable pub after_check : RescheduleType → Rescheduled → c.State → Outcome c.State (Unit {0})
  unfolding waiting write_plan get_failed_regions
  after_check last d s =
      let (failed, has_failed) = get_failed_regions d.annotations d.regions in
      elim (c.query_subsets d s) [
        | err e ↦ fail e s
        | ok subsets ↦
            let first = if has_failed then reschedule_for_failed_region else reschedule_never in
            elim (waiting (timeout_of d.auto_reschedule) failed subsets (first, []) s) [
              | err e ↦ fail e s
              | ok (kind, pods) ↦
                  if is_idle kind last then done tt s else write_plan d kind failed pods s
            ]
      ]

  -- The annotation goes where rescheduling is turned off.
  unfoldable pub turn_off : Rescheduled → c.State → Outcome c.State (Unit {0})
  unfolding del_reschedule_condition
  turn_off d s =
      let new = record d { annotations = delete_key annotation_reschedule d.annotations } in
      elim (lookup annotation_reschedule d.annotations) [
        | none ↦ stop d s
        | some text ↦ (c.update new >> stop new) s
      ]

  unfoldable pub reconcile : c.State → Outcome c.State (Unit {0})
  unfolding turn_off after_check check_annotation del_reschedule_condition
  reconcile s = elim (c.query s) [
    | err e ↦ fail e s
    | ok none ↦ done tt s
    | ok (some d) ↦
        if not (is_enabled d.auto_reschedule)
        then turn_off d s
        else if not (c.is_progress_finished d)
        then done tt s
        else elim (check_annotation c.unmarshal d.generation d.annotations) [
          | err e ↦ fail e s
          | ok (last, true, anno) ↦ after_check last (record d { annotations = anno }) s
          | ok (last, false, anno) ↦
              let new = record d { annotations = anno } in (c.update new >> stop new) s
        ]
  ]
