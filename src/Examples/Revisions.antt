-- ===== src/Examples/Revisions.antt =====
-- The return to a revision at concrete inputs.
use extended_deployment.Base.{
  ℤ, ◌≡◌, refl, ◌⊎◌, ℕ, suc, ◌==◌, ◌*◌, true, pos, String, str_eq, if◌then◌else◌, [], ◌∷◌, none, ok,
  err, api_error,
}
use extended_deployment.Adapter.{done, fail}
use extended_deployment.Rollout.{IntText, annotation_rollback_to}
use extended_deployment.Revisions.{
  Specs, Deployment, Revision, History, target_revision, find_revision, check_rollback, rollback_to,
  rollback_to_revision, update_deployment_and_clear_rollback_to,
}
use extended_deployment.Revisions.Rollback.{
  CannotAsk, WrittenWith, Asks, Answered, check_rollback-Written,
}

-- A specification is a number.
abbrev specs : Specs
specs = record { Spec = ℕ; equal_ignore_hash = λ a b. a == b; without_hash = λ a. a }

abbrev revision : String → ℕ → Revision specs
revision name n = record { name = name; revision = pos n; annotations = []; spec = ok (10 * n) }

-- The state is the number of writes.
abbrev history : History specs
history = record {
  State = ℕ;
  list = λ s. ok (revision "web-1" 1 ∷ revision "web-2" 2 ∷ []);
  sort = λ revisions. revisions;
  find_equal = λ revisions new. [];
  new_revision = λ d number count. err api_error;
  create = λ new s. fail api_error s;
  renumber = λ old number s. fail api_error s;
  delete = λ old s. done tt (suc s);
  update = λ d s. done tt (suc s);
  update_annotations = λ anno s. done tt (suc s);
}

abbrev text : IntText
text = record { parse = λ t. if str_eq t "1" then ok (pos 1) else err api_error; format = λ n. "1" }

abbrev deployment : Deployment specs
deployment = record {
  annotations = (annotation_rollback_to, "1") ∷ [];
  spec = 20;
  collision_count = none;
  history_limit = 5;
}

check_rollback-Written_example :
    (CannotAsk specs history text (λ t. t) deployment
      × WrittenWith specs history text (λ t. t) 20 0 1)
    ⊎ ((number : ℤ) × Asks specs history text (λ t. t) deployment number
        × Answered specs history text (λ t. t) deployment number 0 1)
unfolding check_rollback rollback_to rollback_to_revision target_revision find_revision
    update_deployment_and_clear_rollback_to
check_rollback-Written_example =
    check_rollback-Written specs history text (λ t. t) deployment 0 1 refl

-- A deployment that has the specification of the revision already is left with the wish to return.
stuck : check_rollback specs history text (λ t. t) (record deployment { spec = 10 }) 0 ≡ done true 0
unfolding check_rollback rollback_to rollback_to_revision target_revision find_revision
    update_deployment_and_clear_rollback_to
stuck = refl
