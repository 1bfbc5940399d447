-- ===== src/Webhook.antt =====
-- Admission of an ExtendedDeployment (pkg/webhook/v1beta1/extendeddeployment_webhook.go).
pub mod Totals
use extended_deployment.Base.{
  ℕ, ◌+◌, ◌%◌, ◌^◌, ◌==◌, List, [], ◌∷◌, ℤ, pos, pos_part, ltb_ℤ, Bool, true, false, ◌||◌, ◌&&◌,
  if◌then◌else◌, Option, none, some, Result, ok, err, Error, not_percentage, not_integer,
  out_of_range, nil_pointer, int_replicas, not_total, not_valid,
}
use extended_deployment.Api.{IntOrString, int, str, Region, ExtendedDeploymentSpec}
use extended_deployment.Replicas.Decimal.{cut_percent, parse_int32}

abbrev pub is_int : IntOrString → Bool
is_int (int v) = true
is_int (str s) = false

-- Whether the replicas are set and have another type than the first region's.
abbrev pub differs : Bool → Option IntOrString → Bool
differs target none = false
differs true (some v) = if is_int v then false else true
differs false (some v) = is_int v

abbrev pub all_same : Bool → List Region → Bool
all_same target [] = true
all_same target (r ∷ rs) = if differs target r.replicas then false else all_same target rs

abbrev first_type : List Region → Option IntOrString → Result Bool
first_type regions none = err nil_pointer
first_type regions (some v) = ok (all_same (is_int v) regions)

-- The type of the first region is read without a test for nil.
unfoldable pub is_region_replicas_type_consistent : List Region → Result Bool
is_region_replicas_type_consistent [] = ok true
is_region_replicas_type_consistent (r ∷ rs) = first_type (r ∷ rs) r.replicas

abbrev has_int : Option IntOrString → Bool
has_int none = false
has_int (some v) = is_int v

-- Whether the loop over the regions meets one whose replicas are an int.
unfoldable pub any_int : List Region → Bool
any_int [] = false
any_int (r ∷ rs) = if has_int r.replicas then true else any_int rs

-- The percentage of one region.
unfoldable pub percent_of : List ℕ → Result ℕ
percent_of s = elim (cut_percent s) [
  | none ↦ err not_percentage
  | some digits ↦ elim (parse_int32 digits) [
    | none ↦ err not_integer
    | some percent ↦
        if ltb_ℤ (pos 100) percent || ltb_ℤ percent (pos 0)
        then err out_of_range
        else ok (pos_part percent)
  ]
]

-- One round of the loop that adds up the percentages, in the 64 bits of an int.
unfoldable pub add_percent : ℕ → Option IntOrString → Result ℕ
add_percent total none = ok total
add_percent total (some (int v)) = ok total
add_percent total (some (str s)) = elim (percent_of s) [
  | err e ↦ err e
  | ok percent ↦ ok ((total + percent) % 2 ^ 64)
]

unfoldable pub sum_percents : ℕ → List Region → Result ℕ
sum_percents total [] = ok total
sum_percents total (r ∷ rs) = elim (add_percent total r.replicas) [
  | err e ↦ err e
  | ok more ↦ sum_percents more rs
]

abbrev check_total : Result ℕ → Result (Unit {0})
check_total (err e) = err e
check_total (ok total) = if total == 100 then ok tt else err not_total

abbrev check_consistent : Result Bool → Result (Unit {0})
check_consistent (err e) = err e
check_consistent (ok same) = if same then ok tt else err int_replicas

abbrev has_text : Option IntOrString → Bool
has_text none = false
has_text (some v) = if is_int v then false else true

unfoldable pub check_no_text : List Region → Result (Unit {0})
check_no_text [] = ok tt
check_no_text (r ∷ rs) = if has_text r.replicas then err not_valid else check_no_text rs

-- With a positive total: an int is admitted only where every region has one, and percentages
-- have to sum up to 100. `ok` is the empty list of errors.
unfoldable pub compare_positive : List Region → Result (Unit {0})
unfolding any_int is_region_replicas_type_consistent sum_percents
compare_positive regions =
    if any_int regions
    then check_consistent (is_region_replicas_type_consistent regions)
    else check_total (sum_percents 0 regions)

abbrev is_positive : Option ℤ → Bool
is_positive none = false
is_positive (some n) = ltb_ℤ (pos 0) n

unfoldable pub compare_replicas : ExtendedDeploymentSpec → Result (Unit {0})
unfolding compare_positive check_no_text
compare_replicas spec =
    if is_positive spec.replicas then compare_positive spec.regions else check_no_text spec.regions
