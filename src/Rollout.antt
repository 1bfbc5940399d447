-- ===== src/Rollout.antt =====
-- The workloads of a rollout (NewSubset, CreateSubset, UpdateSubsetAnnotations and ClearUnused in
-- pkg/controllers/extendeddeployment/subset_control.go, maxRevisionForSubsets in revision.go, and
-- copyDeploymentAnnotationsToReplicaSet in adapter/adapter_util.go). The texts of numbers, the hashes
-- of templates and the call that creates an object are parameters.
pub mod DeleteFirst
pub mod Inplace
pub mod Manage
pub mod Stopped
pub mod Batches
pub mod Saturated
pub mod History
pub mod Ends
pub mod Strategy
use extended_deployment.Base.{
  ℤ, pos, add64, add32, ltb_ℤ, String, str_eq, Bool, true, false, ◌||◌, if◌then◌else◌, List, [],
  ◌∷◌, Option, none, some, Result, ok, err, nil_pointer, lookup, put_key,
}
use extended_deployment.Adapter.{
  Subset, RegionInfo, ObjectKey, Workload, Client, Outcome, done, fail, ◌>>=◌, ◌>>◌,
}
use extended_deployment.Grouping.{Annotations, annotation_region_name}
use extended_deployment.Scaling.{M, edit_loop, object_key, finish, update_retries, delete_subset}

abbrev pub annotation_revision : String
annotation_revision = "deployment.extendeddeployment.io/revision"

abbrev pub annotation_rollback_to : String
annotation_rollback_to = "deployment.extendeddeployment.io/rollback-to"

abbrev pub annotation_template_hash : String
annotation_template_hash = "inplaceset.extendeddeployment.io/template-hash"

-- strconv.ParseInt(text, 10, 64), and FormatInt or Itoa.
pub record IntText : Type 0 where
  pub parse : String → Result ℤ
  pub format : ℤ → String

-- utils.RevisionToInt64.
unfoldable pub revision_to_int64 : IntText → Annotations → Result ℤ
revision_to_int64 text anno = elim (lookup annotation_revision anno) [
  | none ↦ ok (pos 0)
  | some v ↦ text.parse v
]

unfoldable pub max_revision_from : IntText → ℤ → List Subset → Result ℤ
unfolding revision_to_int64
max_revision_from text max [] = ok max
max_revision_from text max (ss ∷ rest) = elim (revision_to_int64 text ss.annotations) [
  | err e ↦ err e
  | ok v ↦ max_revision_from text (if ltb_ℤ max v then v else max) rest
]

unfoldable pub max_revision_for_subsets : IntText → List Subset → Result ℤ
unfolding max_revision_from
max_revision_for_subsets text objs = max_revision_from text (pos 0) objs

-- annotationsToSkip of adapter_util.go: these stay with the deployment.
abbrev pub is_one_of : String → List String → Bool
is_one_of key [] = false
is_one_of key (name ∷ rest) = str_eq key name || is_one_of key rest

unfoldable pub copy_annotations : List String → Annotations → Annotations → Annotations
copy_annotations skip [] anno = anno
copy_annotations skip ((key, value) ∷ rest) anno =
    copy_annotations skip rest (if is_one_of key skip then anno else put_key key value anno)

module _ (c : Client) where
  -- An update in place writes the containers of the template too (setInplaceUpdate).
  abbrev pub set_annotations : Bool → Subset → Workload → Workload
  set_annotations true ss set = record set {
    annotations = ss.annotations;
    containers = ss.containers;
  }
  set_annotations false ss set = record set { annotations = ss.annotations }

  unfoldable pub update_subset_annotations : Bool → Subset → M c (Unit {0})
  unfolding edit_loop
  update_subset_annotations is_inplace_update ss =
      edit_loop c (set_annotations is_inplace_update ss) (object_key ss) update_retries (ok tt)

  -- An error ends the loop.
  unfoldable pub clear_unused : List Subset → M c (Unit {0})
  clear_unused [] s = done tt s
  clear_unused (ss ∷ rest) s = (delete_subset c ss >> clear_unused rest) s

-- What a new workload is made of: the result of ApplySubsetTemplate for a region and a number of
-- replicas, and the hash of the template with the region's overrides.
pub record Templates (c : Client) : Type 1 where
  pub apply : String → ℤ → Result Workload
  pub hash : String → String
  -- Creates the object, and converts what the server answers.
  pub create : Workload → c.Server → Outcome c.Server Subset

module _ (c : Client) (text : IntText) (templates : Templates c) where
  unfoldable pub create_subset : String → ℤ → String → M c Subset
  create_subset region replicas revision s = elim (templates.apply region replicas) [
    | err e ↦ fail e s
    | ok set ↦
        templates.create
          (record set {
            annotations = put_key annotation_revision revision (
                put_key annotation_region_name region
                  (put_key annotation_template_hash (templates.hash region) set.annotations));
          })
          s
  ]

  -- Whether the revision of the new workload is to be raised; none is lower than all.
  unfoldable pub is_behind : ℤ → Annotations → Result Bool
  is_behind revision anno = elim (lookup annotation_revision anno) [
    | none ↦ ok true
    | some v ↦ elim (text.parse v) [ err e ↦ err e | ok old ↦ ok (ltb_ℤ old revision) ]
  ]

  abbrev pub with_revision : ℤ → Subset → Subset
  with_revision revision ss = record ss {
    annotations = put_key annotation_revision (text.format revision) ss.annotations;
  }

  -- A new workload that exists gets the revision after those of the old ones.
  unfoldable pub raise_revision : Subset → ℤ → M c Subset
  unfolding is_behind update_subset_annotations
  raise_revision ss revision s = elim (is_behind revision ss.annotations) [
    | err e ↦ fail e s
    | ok false ↦ done ss s
    | ok true ↦
        (update_subset_annotations c false (with_revision revision ss)
            >> done (with_revision revision ss))
          s
  ]

  -- The message after the creation reads the name of `ri.New`, which is nil then.
  unfoldable pub new_subset : String → RegionInfo → ℤ → M c Subset
  unfolding max_revision_for_subsets raise_revision create_subset
  new_subset region ri replicas s = elim (max_revision_for_subsets text ri.olds) [
    | err e ↦ fail e s
    | ok max ↦ elim ri.new [
      | some ss ↦ raise_revision ss (add64 max (pos 1)) s
      | none ↦
          (create_subset region replicas (text.format (add64 max (pos 1))) >>= λ ss.
          fail nil_pointer)
            s
    ]
  ]

-- A sum of one of the numbers of workloads, where a nil workload counts nothing.
unfoldable pub count_replicas : (Subset → ℤ) → ℤ → List (Option Subset) → ℤ
count_replicas f total [] = total
count_replicas f total (none ∷ rest) = count_replicas f total rest
count_replicas f total (some ss ∷ rest) = count_replicas f (add32 total (f ss)) rest

abbrev pub get_actual_replica_count_for_subsets : List (Option Subset) → ℤ
get_actual_replica_count_for_subsets = count_replicas (λ ss. ss.status.replicas) (pos 0)

abbrev pub get_ready_replica_count_for_subsets : List (Option Subset) → ℤ
get_ready_replica_count_for_subsets = count_replicas (λ ss. ss.status.ready_replicas) (pos 0)

abbrev pub get_available_replica_count_for_subsets : List (Option Subset) → ℤ
get_available_replica_count_for_subsets =
    count_replicas (λ ss. ss.status.available_replicas) (pos 0)

abbrev pub get_replica_count_for_subsets : List (Option Subset) → ℤ
get_replica_count_for_subsets = count_replicas (λ ss. ss.spec.replicas) (pos 0)

abbrev pub pointers : List Subset → List (Option Subset)
pointers [] = []
pointers (ss ∷ rest) = some ss ∷ pointers rest
