-- ===== src/Examples/Driver.antt =====
-- The strategies and the driver at concrete inputs.
use mathlib.Core.Logic.{◌⊎◌}
use mathlib.Core.List.Permᴰ
use extended_deployment.Base.{
  ℕ, zero, suc, ◌<◌, ◌≤◌, ◌≡◌, ◌≢◌, refl, pos, String, str_eq, eq_iff, ap, Bool, true, false, List,
  [], ◌∷◌, All, none, some, ok, err, wrap32, sub32, add64, api_error, arith,
}
use extended_deployment.Api.{Strategy, group_rollout}
use extended_deployment.Adapter.{
  Container, Subset, RegionInfo, ObjectKey, Outcome, state_of, done, fail,
}
use extended_deployment.Adapter.Order.{sort, insert, less_creation}
use extended_deployment.Grouping.{annotation_update_spec, get_inplace_set_update_spec}
use extended_deployment.Scaling.{object_key}
use extended_deployment.Rollout.{
  annotation_template_hash, IntText, Templates, revision_to_int64, update_subset_annotations,
}
use extended_deployment.Rollout.DeleteFirst.{rollout_delete_all_first}
use extended_deployment.Rollout.Stopped.{IsStopped, rollout_delete_all_first-IsStopped}
use extended_deployment.Rollout.Inplace.{
  InplaceTemplates, check_inplace_update, try_batch, inplace_candidate, or_no_spec, inplace_step,
  first_step, is_can_inplace_update, start_batch, with_batch,
}
use extended_deployment.StepControl.{calculate_step_size, batch_step}
use extended_deployment.Rollout.Batches.{HasBatch, check_inplace_update-HasBatch}
use extended_deployment.Rollout.Saturated.{less_revision, clean_old_subsets}
use extended_deployment.Rollout.History.{Old, IsSorting, clean_old_subsets-KeptOrUnused}
use extended_deployment.Reconcile.{Steps, live, reconcile}
use extended_deployment.Reconcile.Guards.{Allowed, other, reconcile-Allowed}
use extended_deployment.Examples.Store.{Store, put, client, client-IsClient}

abbrev pub text : IntText
text = record { parse = λ s. ok (pos 1); format = λ n. "2" }

abbrev pub old : String → ℕ → Subset
old name n = record {
  namespace = "shop";
  name = name;
  creation_timestamp = 1;
  annotations = [];
  containers = record { name = "web"; image = "web:1" } ∷ [];
  spec = record { replicas = pos n; min_ready_seconds = pos 0 };
  status = record {
    replicas = pos n;
    ready_replicas = pos n;
    available_replicas = pos n;
    inplace_update_status = none;
  };
}

abbrev pub region : List Subset → RegionInfo
region olds = record {
  new = none;
  olds = olds;
  replicas_desired = false;
  available_desired = false;
  desired_replicas = pos 4;
  configured_replicas = pos 4;
}

abbrev templates : Templates client
templates = record {
  apply = λ name n. ok (record {
    key = record { namespace = "shop"; name = "web-new" };
    replicas = n;
    annotations = [];
    containers = [];
  });
  hash = λ name. "hash";
  create = λ w s. fail api_error s;
}

abbrev pub server : Store
server k = some (pos 4, [], [])

abbrev new_key : ObjectKey
new_key = record { namespace = "shop"; name = "web-new" }

keys_differ : (a : Subset) → str_eq "web-new" a.name ≡ false → new_key ≢ object_key a
keys_differ a h q = absurd (ground (arith, h, (eq_iff "web-new" a.name).1 (ap (λ k. k.name) q)))

rollout_delete_all_first-IsStopped_example :
    (client.get new_key (
        state_of (
          rollout_delete_all_first client text templates
            (λ s ss. ok false)
            "east"
            (region (old "web-1" 4 ∷ []))
            server))
      ≡ client.get new_key server)
    ⊎ All (IsStopped (λ ss. ok false)) (old "web-1" 4 ∷ [])
rollout_delete_all_first-IsStopped_example =
    rollout_delete_all_first-IsStopped client client-IsClient text templates (λ s ss. ok false)
      "east" (region (old "web-1" 4 ∷ [])) server new_key
      (record {
        pods_nonneg = (refl, tt);
        available_nonneg = (refl, tt);
        pods_small = omega arith;
        available_small = omega arith;
      })
      (keys_differ (old "web-1" 4) refl, tt)

abbrev pub strategy : Strategy
strategy = record {
  batch_size = pos 2;
  min_ready_seconds = pos 0;
  need_waiting_for_confirm = false;
  need_first_confirm = false;
  sync_wait_timeout = pos 0;
  rollout_strategy = group_rollout;
  pause = false;
  auto_reschedule = none;
  update_strategy = none;
}

abbrev pub new_containers : List Container
new_containers = record { name = "web"; image = "web:2" } ∷ []

abbrev pub inplace : InplaceTemplates
inplace = record {
  unmarshal = λ s. err api_error;
  marshal = λ spec. "spec";
  template_containers = λ name. new_containers;
  equal_but_images = λ ss. true;
  object_hash = λ name ss. "hash";
  template_hash = λ name. "hash";
}

-- The annotations of the first batch.
abbrev batch_annotations : List (String × String)
batch_annotations = (annotation_update_spec, "spec") ∷ (annotation_template_hash, "hash") ∷ []

abbrev first_updated : Subset
first_updated = record (old "web-1" 4) {
  annotations = batch_annotations;
  containers = new_containers;
  status = record {
    replicas = pos 4;
    ready_replicas = pos 4;
    available_replicas = pos 2;
    inplace_update_status = none;
  };
}

abbrev updated : RegionInfo
updated = record (region (old "web-1" 4 ∷ [])) {
  new = some first_updated;
  olds = first_updated ∷ [];
}

abbrev after_batch : Store
after_batch =
    put (object_key (old "web-1" 4)) (some (pos 4, batch_annotations, new_containers)) server

first_batch :
    check_inplace_update client inplace strategy "east" (region (old "web-1" 4 ∷ [])) server
    ≡ done (true, updated) after_batch
unfolding check_inplace_update try_batch inplace_step first_step calculate_step_size batch_step
    wrap32 sub32 is_can_inplace_update start_batch with_batch update_subset_annotations
    get_inplace_set_update_spec add64
first_batch = refl

first_candidate : inplace_candidate (region (old "web-1" 4 ∷ [])) ≡ some (old "web-1" 4)
unfolding inplace_candidate
first_candidate = refl

none_updated :
    (or_no_spec
      (get_inplace_set_update_spec inplace.unmarshal (old "web-1" 4).annotations)).update_pod_num
    ≡ pos 0
unfolding get_inplace_set_update_spec
none_updated = refl

check_inplace_update-HasBatch_example :
    (m : ℕ) × HasBatch client client-IsClient inplace "east"
      (object_key (old "web-1" 4))
      m
      server
      after_batch
    × (0 < m)
    × (m ≤ 4)
    × (◌≡◌ {A = ℕ} 0 0 → 1 < 4 → m < 4)
check_inplace_update-HasBatch_example =
    check_inplace_update-HasBatch client client-IsClient inplace strategy "east"
      (region (old "web-1" 4 ∷ [])) updated (old "web-1" 4) 2 0 4 server after_batch refl
      (omega arith) (omega arith) (omega arith) refl first_candidate none_updated first_batch

same_order :
    IsSorting
      (less_revision text)
      (old "web-1" 0 ∷ old "web-2" 0 ∷ [])
      (sort (less_revision text) (old "web-1" 0 ∷ old "web-2" 0 ∷ []))
unfolding sort insert less_revision less_creation revision_to_int64
same_order = record {
  same_elements = Permᴰ.refl (old "web-1" 0 ∷ old "web-2" 0 ∷ []);
  in_order = ((refl, tt), (tt, tt));
}

clean_old_subsets-KeptOrUnused_example :
    (client.get (object_key (old "web-1" 0)) (
        state_of (clean_old_subsets client sort text 1 (old "web-1" 0 ∷ old "web-2" 0 ∷ []) server))
      ≡ client.get (object_key (old "web-1" 0)) server)
    ⊎ Old text 1 (old "web-1" 0 ∷ old "web-2" 0 ∷ []) (object_key (old "web-1" 0))
clean_old_subsets-KeptOrUnused_example =
    clean_old_subsets-KeptOrUnused client client-IsClient sort text 1
      (old "web-1" 0 ∷ old "web-2" 0 ∷ []) (object_key (old "web-1" 0)) server same_order

-- Steps that all succeed, over a region that has no new workload yet; the state counts the calls of
-- ManageSubsets.
abbrev steps : Steps
steps = record {
  State = ℕ;
  query = done live;
  check_rollback = done false;
  sync_revisions = done false;
  check_selector = done tt;
  check_regions = done tt;
  get_subset_control = done tt;
  query_subsets = done (("east", region []) ∷ []);
  update_subset_strategy = done tt;
  clean_after_saturated = done tt;
  conditions = λ s. [];
  check_upgrade_confirm = done false;
  sync_status_only = λ refresh. done tt;
  manage_subsets = λ s. done true (suc s);
  update_progressing = done tt;
}

abbrev no_manage : ℕ → Outcome ℕ Bool
no_manage s = fail api_error s

abbrev no_call : steps.State
no_call = zero

reconcile-Allowed_example :
    (reconcile steps no_call ≡ reconcile (other steps no_manage) no_call) ⊎ Allowed steps no_call
reconcile-Allowed_example = reconcile-Allowed steps no_manage no_call
