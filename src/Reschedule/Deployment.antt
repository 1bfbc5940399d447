-- ===== src/Reschedule/Deployment.antt =====
-- What the reschedule controller reads of a deployment and writes to it: the failed regions, the requests
-- of a region's template and the conditions (pkg/controllers/reschedule/deployment.go).
use Prim.Native.Char.{Char, code}
use extended_deployment.Base.{
  ◌==◌, ℤ, pos, add64, eqb_ℤ, String, str_eq, Bool, true, false, if◌then◌else◌, List, [], ◌∷◌,
  Option, none, some, Result, ok, err, no_request, lookup, put_key,
}
use extended_deployment.Api.{AutoReschedule, Region}
use extended_deployment.Grouping.{Annotations}
use extended_deployment.DeployRegion.Resource.{Resource, ResourceList, empty_resource, add}
use extended_deployment.DeployRegion.Failure.{annotation_failed_flag}
use extended_deployment.InplaceSet.Conditions.{Condition, set_condition}
use extended_deployment.Reschedule.Annotation.{
  RescheduleType, reschedule_never, reschedule_unknown, reschedule_for_failed_region,
  reschedule_for_resource_insufficient, reschedule_for_failed_region_and_resource_insufficient,
}

-- strings.Split by a comma: the texts before the first one, and the rest.
abbrev pub is_comma : Char → Bool
is_comma c = code c == 44

abbrev pub add_char : Char → List String → List String
add_char c [] = (String.◌∷◌ c String.[]) ∷ []
add_char c (t ∷ rest) = (String.◌∷◌ c t) ∷ rest

unfoldable pub split_comma : String → List String
split_comma String.[] = String.[] ∷ []
split_comma (String.◌∷◌ c rest) =
    if is_comma c then String.[] ∷ split_comma rest else add_char c (split_comma rest)

abbrev pub all_failed : List String → List (String × Bool) → List (String × Bool)
all_failed [] m = m
all_failed (name ∷ rest) m = all_failed rest (put_key name true m)

abbrev pub add_regions : List Region → List (String × Bool) → List (String × Bool)
add_regions [] m = m
add_regions (r ∷ rest) m =
    add_regions rest (elim (lookup r.name m) [ none ↦ put_key r.name false m | some b ↦ m ])

-- The regions by whether their failure is flagged, and whether one is.
unfoldable pub get_failed_regions : Annotations → List Region → List (String × Bool) × Bool
unfolding split_comma
get_failed_regions anno regions = elim (lookup annotation_failed_flag anno) [
  | none ↦ (add_regions regions [], false)
  | some flag ↦
      if str_eq flag ""
      then (add_regions regions [], false)
      else (add_regions regions (all_failed (split_comma flag) []), true)
]

abbrev sum_requests : List ResourceList → Resource → Resource
sum_requests [] r = r
sum_requests (q ∷ rest) r = sum_requests rest (add r q)

-- The requests of the containers of a region's template.
unfoldable pub request_resource_by_region : List ResourceList → Result Resource
unfolding add
request_resource_by_region requests =
    let r = sum_requests requests empty_resource in
    if eqb_ℤ (add64 r.memory r.milli_cpu) (pos 0) then err no_request else ok r

-- A deployment, by what the controller reads and writes.
pub record Rescheduled : Type 0 where
  pub annotations : Annotations
  pub generation : ℤ
  pub auto_reschedule : Option AutoReschedule
  pub regions : List Region
  pub conditions : List Condition

abbrev reason_of : RescheduleType → String × String
reason_of reschedule_for_failed_region = ("FailureSchedule", "some region is failure")
reason_of reschedule_for_resource_insufficient =
    ("InsufficientSchedule", "some region resource is insufficient")
reason_of reschedule_for_failed_region_and_resource_insufficient =
    ("FailureSchedule", "some region is failure, some region resource is insufficient")
reason_of reschedule_never = ("Reschedule Failed", "Reschedule Failed")
reason_of reschedule_unknown = ("Reschedule Failed", "Reschedule Failed")

unfoldable pub set_reschedule_condition : RescheduleType → Rescheduled → Rescheduled
unfolding set_condition
set_reschedule_condition kind d = record d {
  conditions = set_condition d.conditions (record {
    kind = "Reschedule";
    status = "True";
    reason = (reason_of kind).0;
    message = (reason_of kind).1;
  });
}

unfoldable pub del_reschedule_condition : Rescheduled → Rescheduled
unfolding set_condition
del_reschedule_condition d = record d {
  conditions = set_condition d.conditions (record {
    kind = "Reschedule";
    status = "False";
    reason = "all region works well";
    message = "all region works well";
  });
}
