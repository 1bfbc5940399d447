-- ===== src/Examples/Reschedules.antt =====
-- The flag of failed regions and the pods that lack resources, at concrete inputs.
use extended_deployment.Base.{
  ℕ, ◌≡◌, refl, ◌⊎◌, pos, String, str_eq, if◌then◌else◌, true, false, List, [], ◌∷◌, none, ok, err,
  some, api_error, Option,
}
use extended_deployment.Api.{Region}
use extended_deployment.Adapter.{Subset, done}
use extended_deployment.DeployRegion.Failure.{
  Deployment, World, annotation_failed_flag, set_failure_annotation,
}
use extended_deployment.Reschedule.Deployment.{get_failed_regions}
use extended_deployment.Reschedule.Flagged.{ReadsBack, get_failed_regions-set_failure_annotation}
use extended_deployment.Reschedule.Annotation.{
  RescheduleType, reschedule_never, reschedule_for_resource_insufficient,
}
use extended_deployment.Reschedule.Controller.{RescheduleClient, waiting, waiting_in}
use extended_deployment.Reschedule.Waiting.{IsCounted, waiting-IsCounted}

-- A server that takes every update.
abbrev world : World
world = record {
  State = Option Deployment;
  in_region = λ name s. ok ("web" ∷ []);
  query = λ key s. ok s;
  update = λ key d s. done tt (some d);
}

-- A deployment whose annotation names a region that has recovered.
abbrev recovered : Deployment
recovered = record {
  regions = "east" ∷ "west" ∷ [];
  annotations = (annotation_failed_flag, "east,west") ∷ ("owner", "web") ∷ [];
  is_progress_finished = true;
}

get_failed_regions-set_failure_annotation_example :
    (deploy : Deployment) × (((deploy ≡ recovered)
        × (set_failure_annotation world "web" recovered ("west" ∷ "south" ∷ []) none
            ≡ done tt none))
      ⊎ (set_failure_annotation world "web" recovered ("west" ∷ "south" ∷ []) none
          ≡ world.update "web" deploy none))
    × ((regions : List Region)
        → ReadsBack ("west" ∷ "south" ∷ []) (get_failed_regions deploy.annotations regions))
get_failed_regions-set_failure_annotation_example =
    get_failed_regions-set_failure_annotation world "web" recovered ("west" ∷ "south" ∷ []) none (
      record { some_text = refl; comma_free = refl },
      (record { some_text = refl; comma_free = refl }, tt),
    )

abbrev workload : String → Subset
workload name = record {
  namespace = "default";
  name = name;
  creation_timestamp = 1;
  annotations = [];
  containers = [];
  spec = record { replicas = pos 4; min_ready_seconds = pos 0 };
  status = record {
    replicas = pos 4;
    ready_replicas = pos 2;
    available_replicas = pos 2;
    inplace_update_status = none;
  };
}

-- Two pods of the workload in the east have waited for 700 seconds.
abbrev client : RescheduleClient
client = record {
  State = Unit {0};
  query = λ s. ok none;
  is_progress_finished = λ d. true;
  query_subsets = λ d s. ok [];
  query_insufficient_pods =
      λ ss s. ok (if str_eq ss.name "web-east" then (2, pos 700) else (0, pos 0));
  new_schedule_info = λ d s. err api_error;
  unmarshal = λ text. err api_error;
  marshal = λ spec. ok "{}";
  update = λ d s. done tt s;
  update_status = λ d s. done tt s;
}

abbrev entries : List (String × List Subset)
entries =
    ("east", workload "web-east" ∷ workload "web-east-old" ∷ [])
    ∷ ("west", workload "web-west" ∷ [])
    ∷ []

abbrev nothing : RescheduleType × List (String × ℕ)
nothing = (reschedule_never, [])

abbrev lacking : RescheduleType × List (String × ℕ)
lacking = (reschedule_for_resource_insufficient, ("east", 2) ∷ [])

found_lacking :
    waiting client (pos 600) (("west", true) ∷ ("east", false) ∷ []) entries nothing tt ≡ ok lacking
unfolding waiting waiting_in
found_lacking = refl

waiting-IsCounted_example :
    IsCounted client tt (pos 600) (("west", true) ∷ ("east", false) ∷ []) entries nothing lacking
waiting-IsCounted_example =
    waiting-IsCounted client tt (pos 600) (("west", true) ∷ ("east", false) ∷ []) entries nothing
      lacking found_lacking
