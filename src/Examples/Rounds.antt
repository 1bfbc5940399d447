-- ===== src/Examples/Rounds.antt =====
-- Batches of an update in place, strategies and the status of a deployment at concrete inputs.
use extended_deployment.Base.{
  ◌≡◌, ◌≢◌, ◌⊎◌, ◌↔◌, All, refl, ℕ, zero, suc, ◌+◌, ◌≤◌, ℤ, pos, eqb_ℤ, wrap32, sub32, add64,
  String, str_eq, if◌then◌else◌, [], ◌∷◌, none, some, ok, err, api_error, arith,
}
use extended_deployment.Adapter.{Subset, RegionInfo, state_of}
use extended_deployment.Grouping.{RegionInfos, annotation_update_spec, get_inplace_set_update_spec}
use extended_deployment.StepControl.{calculate_step_size, batch_step}
use extended_deployment.Scaling.{object_key}
use extended_deployment.Rollout.{annotation_template_hash, update_subset_annotations}
use extended_deployment.Rollout.Inplace.{
  InplaceTemplates, inplace_candidate, check_inplace_update, try_batch, inplace_step, first_step,
  is_can_inplace_update, start_batch, with_batch,
}
use extended_deployment.Rollout.Ends.{Reads, BatchRounds, BatchRounds-end}
use extended_deployment.InplaceSet.Conditions.{Condition, get_condition}
use extended_deployment.Status.{Observed, Reading, DeploymentStatus, calculate_status}
use extended_deployment.Status.Progress.{InSync, IsLate, total_of, calculate_status-Progress}
use extended_deployment.Examples.Store.{Store, client, client-IsClient}
use extended_deployment.Examples.Driver.{
  new_containers, old, region, strategy, inplace, text, server,
}

-- A text for each number of pods up to 2.
abbrev text_of : ℤ → String
text_of n = if eqb_ℤ n (pos 1) then "1" else if eqb_ℤ n (pos 2) then "2" else "0"

abbrev number : String → ℤ
number t = if str_eq t "1" then pos 1 else if str_eq t "2" then pos 2 else pos 0

abbrev templates : InplaceTemplates
templates = record inplace {
  unmarshal = λ t. ok (record { update_pod_num = number t; pod_template_hash = "hash" });
  marshal = λ spec. text_of spec.update_pod_num;
}

two_read : (n : ℕ) → n ≤ 2 → number (text_of (pos n)) ≡ pos n
two_read zero h = refl
two_read (suc zero) h = refl
two_read (suc (suc zero)) h = refl
two_read (suc (suc (suc n))) h = absurd (omega (arith, h))

templates-Reads : Reads templates 2
templates-Reads = record {
  decode = λ n hash l. (
    record { update_pod_num = number (text_of (pos n)); pod_template_hash = "hash" },
    refl,
    two_read n l,
  );
}

abbrev info : RegionInfo
info = record (region (old "web-1" 4 ∷ [])) { desired_replicas = pos 2 }

abbrev after : Store
after = state_of (check_inplace_update client templates strategy "east" info server)

abbrev first_updated : Subset
first_updated = record (old "web-1" 4) {
  annotations = (annotation_update_spec, "1") ∷ (annotation_template_hash, "hash") ∷ [];
  containers = new_containers;
  status = record ((old "web-1" 4).status) { available_replicas = pos 3 };
}

abbrev updated : RegionInfo
updated = record info { new = some first_updated; olds = first_updated ∷ [] }

one_batch : BatchRounds client templates strategy "east" 2 1 (object_key (old "web-1" 4)) 0 server
unfolding check_inplace_update try_batch inplace_step first_step calculate_step_size batch_step
    wrap32 sub32 is_can_inplace_update start_batch with_batch update_subset_annotations
    get_inplace_set_update_spec add64 inplace_candidate
one_batch =
    BatchRounds.more info updated (old "web-1" 4)
      (record {
        key = object_key (old "web-1" 4);
        replicas = pos 4;
        annotations = (annotation_update_spec, "1") ∷ (annotation_template_hash, "hash") ∷ [];
        containers = new_containers;
      })
      0 0 1 server after after refl refl refl refl refl refl refl
      (BatchRounds.stop (object_key (old "web-1" 4)) 1 after)

BatchRounds-end_example : 1 + 0 ≤ 2
BatchRounds-end_example =
    BatchRounds-end client templates strategy "east" 2 client-IsClient templates-Reads 2 refl
      (omega arith) (omega arith) (omega arith) one_batch

abbrev no_status : DeploymentStatus
no_status = record {
  replicas = pos 0;
  label_selector = "";
  regions = [];
  conditions = [];
  collision_count = none;
  overview = "";
  last_term_start_time = "";
}

abbrev observed : Observed
observed = record { annotations = []; strategy = strategy; status = no_status }

abbrev reading : Reading
reading = record { text = text; unmarshal = λ t. err api_error; selector = none; now = pos 5 }

abbrev infos : RegionInfos
infos = ("east", info) ∷ []

abbrev new : DeploymentStatus
new = calculate_status reading observed infos

calculate_status-Progress_example :
    ((found : Condition) × (get_condition new.conditions "Progressing" ≡ some found)
      × ((found.status ≡ "False") ↔ (All InSync infos ⊎ IsLate reading observed))
      × ((found.status ≡ "False") ⊎ (found.status ≡ "True")))
    × ((other : String)
        → other ≢ "Progressing"
        → get_condition new.conditions other ≡ get_condition [] other)
    × (new.replicas ≡ total_of (pos 0) new.regions)
calculate_status-Progress_example = calculate_status-Progress reading observed infos
