-- ===== src/DeployRegion/Failure.antt =====
-- What follows when the status of a region changes: the annotation of the deployments that have a
-- failed region (pkg/controllers/deployregion/failure.go). The API server is a parameter, and
-- a panic by stopReconcile, or on a nil pointer, is a failure.
use Prim.Native.String.{◌++◌ as concat, compare}
use text.Mathlib.Text.{is_lt}
use extended_deployment.Base.{
  String, str_eq, Bool, true, false, if◌then◌else◌, List, [], ◌∷◌, Option, none, some, Result, ok,
  err, nil_pointer, lookup, put_key, delete_key,
}
use extended_deployment.Adapter.{Outcome, done, fail, ◌>>◌}
use extended_deployment.Adapter.Order.{sort}
use extended_deployment.Grouping.{Annotations, or_empty}
use extended_deployment.DeployRegion.Cache.{
  RegionStatus, status_unknown, status_ok, status_failed, AllResourceCache, region_status,
  is_failed,
}

-- An ExtendedDeployment, by what this controller reads of it.
pub record Deployment : Type 0 where
  pub regions : List String
  pub annotations : Annotations
  -- IsExtendedDeploymentProgressFinished.
  pub is_progress_finished : Bool

pub record World : Type 1 where
  pub State : Type 0
  -- The deployments with workloads in a region, by their keys.
  pub in_region : String → State → Result (List String)
  pub query : String → State → Result (Option Deployment)
  pub update : String → Deployment → State → Outcome State (Unit {0})

abbrev pub annotation_failed_flag : String
annotation_failed_flag = "deployment.extendeddeployment.io/failed-flag"

abbrev pub less_string : String → String → Bool
less_string a b = is_lt (compare a b)

unfoldable pub join_with : String → List String → String
join_with sep [] = ""
join_with sep (s ∷ []) = s
join_with sep (s ∷ t ∷ rest) = concat s (concat sep (join_with sep (t ∷ rest)))

abbrev pub status_eq : RegionStatus → RegionStatus → Bool
status_eq status_unknown status_unknown = true
status_eq status_ok status_ok = true
status_eq status_failed status_failed = true
status_eq a b = false

-- The failed ones of a deployment's regions; the cache still has the old status of `region`.
unfoldable pub failed_regions :
    String → RegionStatus → AllResourceCache → List String → Result (List String)
failed_regions region now c [] = ok []
failed_regions region now c (name ∷ rest) =
    let later = failed_regions region now c rest in
    let known : Result RegionStatus =
      if str_eq name region
      then ok now
      else elim (lookup name c.regions) [ none ↦ err nil_pointer | some r ↦ ok r.status ] in
    elim known [
      | err e ↦ err e
      | ok temp ↦ elim later [
        | err e ↦ err e
        | ok names ↦ ok (if is_failed temp then name ∷ names else names)
      ]
    ]

abbrev pub flagged : Deployment → Annotations → Deployment
flagged deploy anno = record deploy { annotations = anno }

module _ (w : World) where
  unfoldable pub set_failure_annotation :
      String → Deployment → List String → w.State → Outcome w.State (Unit {0})
  unfolding join_with
  set_failure_annotation key deploy [] s = elim (lookup annotation_failed_flag deploy.annotations) [
    | none ↦ done tt s
    | some text ↦
        w.update key (flagged deploy (delete_key annotation_failed_flag deploy.annotations)) s
  ]
  set_failure_annotation key deploy (r ∷ rs) s =
      let value = join_with "," (sort less_string (r ∷ rs)) in
      if str_eq value (or_empty (lookup annotation_failed_flag deploy.annotations))
      then done tt s
      else w.update key (flagged deploy (put_key annotation_failed_flag value deploy.annotations)) s

  unfoldable pub flag_one :
      String → RegionStatus → AllResourceCache → String → w.State → Outcome w.State (Unit {0})
  unfolding failed_regions set_failure_annotation
  flag_one region now c key s = elim (w.query key s) [
    | err e ↦ fail e s
    | ok none ↦ done tt s
    | ok (some deploy) ↦ elim (failed_regions region now c deploy.regions) [
      | err e ↦ fail e s
      | ok names ↦
          if deploy.is_progress_finished
          then set_failure_annotation key deploy names s
          else done tt s
    ]
  ]

  unfoldable pub flag_all :
      String → RegionStatus → AllResourceCache → List String → w.State → Outcome w.State (Unit {0})
  unfolding flag_one
  flag_all region now c [] s = done tt s
  flag_all region now c (key ∷ rest) s = (flag_one region now c key >> flag_all region now c rest) s

  -- CheckRegionStatus: the cache gets the new status when all deployments are flagged.
  unfoldable pub check_region_status :
      String → AllResourceCache → w.State → Outcome w.State AllResourceCache
  unfolding flag_all
  check_region_status region c s = elim (lookup region c.regions) [
    | none ↦ fail nil_pointer s
    | some r ↦
        let status = region_status r.nodes in
        if status_eq r.status status then done c s else elim (w.in_region region s) [
          | err e ↦ fail e s
          | ok keys ↦
              (flag_all region status c keys
                  >> done (record c {
                    regions = put_key region (record r { status = status }) c.regions;
                  }))
                s
        ]
  ]
