-- ===== src/Revisions.antt =====
-- The revisions of a deployment and the return to one of them (pkg/controllers/extendeddeployment/revision.go
-- and rollback.go, and the annotations in pkg/utils/deployment_util.go). The history of revisions by
-- k8s.io/kubernetes and the API server are an interface; a specification is compared and written without
-- its hash label by parameters.
pub mod Target
pub mod Rollback
use extended_deployment.Base.{
  ℕ, ◌-◌, leb, length, take, ℤ, pos, add64, eqb_ℤ, ltb_ℤ, String, str_eq, Bool, true, false,
  if◌then◌else◌, List, [], ◌∷◌, ◌++◌, Option, none, some, Result, ok, err, lookup, put_key,
  delete_key,
}
use extended_deployment.Adapter.{Outcome, done, fail, ◌>>◌, ◌>>=◌}
use extended_deployment.Grouping.{Annotations}
use extended_deployment.Confirm.{annotation_upgrade_confirm}
use extended_deployment.DeployRegion.Failure.{annotation_failed_flag}
use extended_deployment.Rollout.{IntText, annotation_revision, annotation_rollback_to, is_one_of}

-- What the revisions are kept of.
pub record Specs : Type 1 where
  pub Spec : Type 0
  pub equal_ignore_hash : Spec → Spec → Bool
  pub without_hash : Spec → Spec

pub record Deployment (x : Specs) : Type 0 where
  pub annotations : Annotations
  pub spec : x.Spec
  pub collision_count : Option ℤ
  pub history_limit : ℕ

-- A revision, with what its data decodes to.
pub record Revision (x : Specs) : Type 0 where
  pub name : String
  pub revision : ℤ
  pub annotations : Annotations
  pub spec : Result x.Spec

-- The calls on the API server. A revision that is created may change the count of collisions, and so is
-- returned with it.
pub record History (x : Specs) : Type 1 where
  pub State : Type 0
  pub list : State → Result (List (Revision x))
  pub sort : List (Revision x) → List (Revision x)
  pub find_equal : List (Revision x) → Revision x → List (Revision x)
  pub new_revision : Deployment x → ℤ → Option ℤ → Result (Revision x)
  pub create : Revision x → State → Outcome State (Revision x × ℤ)
  pub renumber : Revision x → ℤ → State → Outcome State (Revision x)
  pub delete : Revision x → State → Outcome State (Unit {0})
  pub update : Deployment x → State → Outcome State (Unit {0})
  pub update_annotations : Annotations → State → Outcome State (Unit {0})

abbrev pub annotation_roll_term : String
annotation_roll_term = "deployment.extendeddeployment.io/roll-term"

-- annotationsToSkip.
abbrev pub annotations_to_skip : List String
annotations_to_skip =
    "kubectl.kubernetes.io/last-applied-configuration" ∷ annotation_upgrade_confirm
    ∷ annotation_failed_flag ∷ annotation_rollback_to ∷ annotation_revision ∷ annotation_roll_term
    ∷ []

abbrev pub skip_copy_annotation : String → Bool
skip_copy_annotation key = is_one_of key annotations_to_skip

unfoldable pub get_skipped_annotations : Annotations → Annotations → Annotations
get_skipped_annotations [] skipped = skipped
get_skipped_annotations ((key, value) ∷ rest) skipped =
    get_skipped_annotations rest
      (if skip_copy_annotation key then put_key key value skipped else skipped)

unfoldable pub copy_from_revision : Annotations → Annotations → Annotations
copy_from_revision [] anno = anno
copy_from_revision ((key, value) ∷ rest) anno =
    copy_from_revision rest (if skip_copy_annotation key then anno else put_key key value anno)

module _ (x : Specs) where
  unfoldable pub set_deployment_annotations_to : Deployment x → Revision x → Deployment x
  unfolding get_skipped_annotations copy_from_revision
  set_deployment_annotations_to d rev = record d {
    annotations = copy_from_revision rev.annotations (get_skipped_annotations d.annotations []);
  }

  -- The deployment without the wish to return to a revision.
  abbrev pub clear_rollback_to : Deployment x → Deployment x
  clear_rollback_to d = record d { annotations = delete_key annotation_rollback_to d.annotations }

  abbrev pub set_from_template : Deployment x → x.Spec → Deployment x
  set_from_template d spec = record d { spec = x.without_hash spec }

  -- The last revision but one of a sorted list.
  abbrev pub last_but_one : List (Revision x) → Option (Revision x)
  last_but_one [] = none
  last_but_one (a ∷ []) = none
  last_but_one (a ∷ b ∷ []) = some a
  last_but_one (a ∷ b ∷ c ∷ rest) = last_but_one (b ∷ c ∷ rest)

  -- The last one of those with the number.
  unfoldable pub find_revision : ℤ → List (Revision x) → Option (Revision x) → Option (Revision x)
  find_revision number [] found = found
  find_revision number (r ∷ rest) found =
      find_revision number rest (if eqb_ℤ r.revision number then some r else found)

  unfoldable pub target_revision : ℤ → List (Revision x) → Option (Revision x)
  unfolding find_revision
  target_revision number revisions =
      if eqb_ℤ number (pos 0) then last_but_one revisions else find_revision number revisions none

  module _ (h : History x) where
    abbrev pub RevisionM : Type 0 → Type 0
    RevisionM A = h.State → Outcome h.State A

    unfoldable pub update_deployment_and_clear_rollback_to : Deployment x → RevisionM (Unit {0})
    update_deployment_and_clear_rollback_to d = h.update (clear_rollback_to d)

    -- Nothing is written where the specification is the same.
    unfoldable pub rollback_to_revision : Deployment x → Revision x → RevisionM (Unit {0})
    unfolding update_deployment_and_clear_rollback_to set_deployment_annotations_to
    rollback_to_revision d rev s = elim rev.spec [
      | err e ↦ fail e s
      | ok spec ↦
          if x.equal_ignore_hash d.spec spec
          then done tt s
          else update_deployment_and_clear_rollback_to
              (set_deployment_annotations_to (set_from_template d spec) rev) s
    ]

    unfoldable pub rollback_to : ℤ → Deployment x → RevisionM (Unit {0})
    unfolding rollback_to_revision target_revision
    rollback_to number d s = elim (h.list s) [
      | err e ↦ fail e s
      | ok revisions ↦ elim (target_revision number (h.sort revisions)) [
        | none ↦ update_deployment_and_clear_rollback_to d s
        | some rev ↦ rollback_to_revision d rev s
      ]
    ]

    -- The number that an annotation gives; an empty text is 0.
    abbrev pub version_num : IntText → String → Result ℤ
    version_num text v = if str_eq v "" then ok (pos 0) else text.parse v

    -- `trim` is strings.TrimSpace.
    unfoldable pub check_rollback : IntText → (String → String) → Deployment x → RevisionM Bool
    unfolding rollback_to update_deployment_and_clear_rollback_to
    check_rollback text trim d s = elim (lookup annotation_rollback_to d.annotations) [
      | none ↦ done false s
      | some v ↦ elim (version_num text (trim v)) [
        | err e ↦ (update_deployment_and_clear_rollback_to d >> done true) s
        | ok number ↦ (rollback_to number d >> done true) s
      ]
    ]

    unfoldable pub next_revision : List (Revision x) → ℤ
    next_revision [] = pos 1
    next_revision (r ∷ []) = add64 r.revision (pos 1)
    next_revision (r ∷ q ∷ rest) = next_revision (q ∷ rest)

    unfoldable pub delete_revisions : List (Revision x) → RevisionM (Unit {0})
    delete_revisions [] = done tt
    delete_revisions (r ∷ rest) = h.delete r >> delete_revisions rest

    unfoldable pub truncate_history : Deployment x → List (Revision x) → RevisionM (Unit {0})
    unfolding delete_revisions
    truncate_history d revisions s =
        if leb (length revisions) d.history_limit
        then done tt s
        else delete_revisions (take (length revisions - d.history_limit - 1) (h.sort revisions)) s

    abbrev last_of : List (Revision x) → Option (Revision x)
    last_of [] = none
    last_of (r ∷ []) = some r
    last_of (r ∷ q ∷ rest) = last_of (q ∷ rest)

    -- The annotations that a new number of the revision leaves.
    abbrev with_number : IntText → ℤ → Annotations → Annotations
    with_number text number anno =
        delete_key annotation_upgrade_confirm
          (put_key annotation_revision (text.format number) anno)

    -- An old revision becomes the newest one.
    unfoldable pub reuse_revision : IntText → Deployment x → Revision x → ℤ → RevisionM Bool
    reuse_revision text d old number = h.renumber old number >>= λ rev.
        h.update_annotations (with_number text rev.revision d.annotations) >> done true

    abbrev same_count : Option ℤ → ℤ → Bool
    same_count none count = if ltb_ℤ (pos 0) count then false else true
    same_count (some old) count = eqb_ℤ old count

    unfoldable pub add_revision :
        IntText → Deployment x → List (Revision x) → Revision x → RevisionM Bool
    unfolding truncate_history
    add_revision text d revisions rev = h.create rev >>= λ made.
        (if same_count d.collision_count made.1
          then h.update_annotations (with_number text made.0.revision d.annotations)
          else h.update (record d {
            annotations = with_number text made.0.revision d.annotations;
            collision_count = some made.1;
          }))
        >> truncate_history d (revisions ++ (made.0 ∷ []))
        >> done true

    -- A revision is known by its name.
    abbrev is_last : Revision x → List (Revision x) → Bool
    is_last r revisions = elim (last_of revisions) [
      | none ↦ false
      | some last ↦ str_eq r.name last.name
    ]

    unfoldable pub sync_new :
        IntText → Deployment x → List (Revision x) → Revision x → RevisionM Bool
    unfolding reuse_revision add_revision
    sync_new text d revisions new s = elim (last_of (h.find_equal revisions new)) [
      | none ↦ add_revision text d revisions new s
      | some equal ↦
          if is_last equal revisions
          then done false s
          else reuse_revision text d equal new.revision s
    ]

    -- utils.Revision fails only on an object without metadata, which a deployment is not.
    unfoldable pub sync_revisions : IntText → Deployment x → RevisionM Bool
    unfolding sync_new next_revision
    sync_revisions text d s = elim (h.list s) [
      | err e ↦ fail e s
      | ok listed ↦
          let revisions = h.sort listed in
          elim (h.new_revision d (next_revision revisions) d.collision_count) [
            | err e ↦ fail e s
            | ok new ↦ sync_new text d revisions new s
          ]
    ]
