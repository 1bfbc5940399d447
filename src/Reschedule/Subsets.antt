-- ===== src/Reschedule/Subsets.antt =====
-- The workloads of the regions and their pods that lack resources (QuerySubsetAndRegionInfo in
-- pkg/controllers/reschedule/deployment.go and QueryInsufficientPodsBySubset in controller.go). The
-- lists of the API server and of the lister are arguments, and so are the conversion of a workload by its
-- adapter and the comparison of its template with that of the region, which is k8s.io/apimachinery's.
use extended_deployment.Base.{
  ℕ, suc, ℤ, pos, ltb_ℤ, String, str_eq, find?, Bool, true, false, not, ◌&&◌, ◌||◌, if◌then◌else◌,
  List, [], ◌∷◌, ◌++◌, Option, none, some, Result, ok, err, unknown_region, lookup, put_key,
}
use extended_deployment.Api.{Region}
use extended_deployment.Adapter.{Subset}
use extended_deployment.Grouping.{get_subset_region_name}
use extended_deployment.Labels.{Labels}

abbrev pub error_msg_mem_detect : String
error_msg_mem_detect = "Insufficient memory"

abbrev pub error_msg_cpu_detect : String
error_msg_cpu_detect = "Insufficient cpu"

abbrev contains : String → String → Bool
contains text part = elim (find? text part) [ none ↦ false | some i ↦ true ]

-- A pod, by its first owner, the message of its condition that it is scheduled, and the whole seconds since that
-- condition changed.
pub record WaitingPod : Type 0 where
  pub is_deleted : Bool
  pub owner : Option String
  pub message : Option String
  pub seconds : ℤ

abbrev pub is_owned : String → Option String → Bool
is_owned uid none = false
is_owned uid (some owner) = str_eq owner uid

abbrev pub lacks_resources : Option String → Bool
lacks_resources none = false
lacks_resources (some text) =
    contains text error_msg_cpu_detect || contains text error_msg_mem_detect

abbrev pub counts : String → WaitingPod → Bool
counts uid p = not p.is_deleted && is_owned uid p.owner && lacks_resources p.message

abbrev longer : ℤ → ℤ → ℤ
longer seconds pending = if ltb_ℤ pending seconds then seconds else pending

-- QueryInsufficientPodsBySubset, after the list: the pods by their number, and the longest time.
unfoldable pub insufficient_pods : String → List WaitingPod → ℕ × ℤ → ℕ × ℤ
insufficient_pods uid [] found = found
insufficient_pods uid (p ∷ rest) (n, pending) =
    let go = insufficient_pods uid rest (suc n, longer p.seconds pending) in
    let skip = insufficient_pods uid rest (n, pending) in if counts uid p then go else skip

unfoldable pub query_insufficient_pods_by_subset :
    String → Result (List WaitingPod) → Result (ℕ × ℤ)
unfolding insufficient_pods
query_insufficient_pods_by_subset uid (err e) = err e
query_insufficient_pods_by_subset uid (ok pods) = ok (insufficient_pods uid pods (0, pos 0))

-- A workload of the list with its owner, as it is converted.
pub record OwnedSubset : Type 0 where
  pub subset : Subset
  pub is_deleted : Bool
  pub owner : Option String

-- getAllSubsets, after the claim: the workloads of the deployment that are not to be deleted.
unfoldable pub own_subsets {ℓ} :
    {A : Type ℓ} → (A → Result OwnedSubset) → String → List A → Result (List Subset)
own_subsets convert uid [] = ok []
own_subsets convert uid (set ∷ rest) =
    let later = own_subsets convert uid rest in
    elim (convert set) [
      | err e ↦ err e
      | ok s ↦ elim later [
        | err e ↦ err e
        | ok others ↦
            ok (if not s.is_deleted && is_owned uid s.owner then s.subset ∷ others else others)
      ]
    ]

abbrev pub region_map : List (String × Labels) → List (String × Labels) → List (String × Labels)
region_map [] m = m
region_map ((name, labels) ∷ rest) m = region_map rest (put_key name labels m)

abbrev pub labels_of_regions :
    List (String × Labels) → List Region → List (String × Labels) → Result (List (String × Labels))
labels_of_regions mp [] res = ok res
labels_of_regions mp (r ∷ rest) res = elim (lookup r.name mp) [
  | none ↦ err unknown_region
  | some labels ↦ labels_of_regions mp rest (put_key r.name labels res)
]

-- The labels of the regions that the deployment names; all of them exist.
unfoldable pub check_regions :
    List Region → Result (List (String × Labels)) → Result (List (String × Labels))
check_regions regions (err e) = err e
check_regions regions (ok items) = labels_of_regions (region_map items []) regions []

abbrev pub no_subsets : List Region → List (String × List Subset) → List (String × List Subset)
no_subsets [] res = res
no_subsets (r ∷ rest) res = no_subsets rest (put_key r.name [] res)

abbrev or_no_labels : Option Labels → Labels
or_no_labels none = []
or_no_labels (some labels) = labels

module _ (template_equal : Subset → Labels → Bool) where
  unfoldable pub group_subset_loop :
      List (String × Labels)
      → List Subset
      → List (String × List Subset)
      → List (String × List Subset)
  group_subset_loop rml [] res = res
  group_subset_loop rml (ss ∷ rest) res =
      let name = get_subset_region_name ss in
      let skip = group_subset_loop rml rest res in
      elim (lookup name res) [
        | none ↦ skip
        | some found ↦
            let go = group_subset_loop rml rest (put_key name (found ++ ss ∷ []) res) in
            if template_equal ss (or_no_labels (lookup name rml)) then go else skip
      ]

  unfoldable pub group_subset :
      List Region → List Subset → List (String × Labels) → List (String × List Subset)
  unfolding group_subset_loop
  group_subset regions subsets rml = group_subset_loop rml subsets (no_subsets regions [])

  unfoldable pub query_subset_and_region_info :
      List Region
      → Result (List (String × Labels))
      → Result (List Subset)
      → Result (List (String × List Subset))
  unfolding check_regions group_subset
  query_subset_and_region_info regions items subsets = elim (check_regions regions items) [
    | err e ↦ err e
    | ok rml ↦ elim subsets [ err e ↦ err e | ok all ↦ ok (group_subset regions all rml) ]
  ]
