-- ===== src/InplaceSet/Reported.antt =====
-- What the status of an in-place set says, and what is left when it cannot be written.
use extended_deployment.Base.{
  ℕ, ◌≤◌, ◌<◌, ◌^◌, ◌≡◌, ◌≢◌, refl, pos, wrap32, wrap32_eq, ◌≤ℤ◌, length, String, Bool, ◌&&◌, List,
  [], ◌∷◌, Option, none, some, Error, arith,
}
use extended_deployment.InplaceSet.Conditions.{
  Condition, get_condition, set_condition_lem, remove_condition_lem,
}
use extended_deployment.InplaceSet.PodState.{Pod, Json}
use extended_deployment.InplaceSet.Batch.{InplaceSet}
use extended_deployment.InplaceSet.Status.{
  Tests, SetStatus, count_if, failure_conditions, failure_reason, replica_failure, calculate_status,
}

count_if_le : (f : Pod → Bool) (pods : List Pod) → count_if f pods ≤ length pods
unfolding count_if
count_if_le f [] = omega arith
count_if_le f (pod ∷ rest) = ground (arith, count_if_le f rest)

count_if_both_le :
    (f g : Pod → Bool) (pods : List Pod) → count_if (λ p. f p && g p) pods ≤ count_if f pods
unfolding count_if
count_if_both_le f g [] = omega arith
count_if_both_le f g (pod ∷ rest) = ground (arith, count_if_both_le f g rest)

abbrev OthersKept : List Condition → List Condition → Type 0
OthersKept old new =
    (other : String) → other ≢ replica_failure → get_condition new other ≡ get_condition old other

-- The conditions say whether the replicas failed.
abbrev pub Says : Option Error → List Condition → Type 0
Says none new = get_condition new replica_failure ≡ none
Says (some e) new = (found : Condition) × (get_condition new replica_failure ≡ some found)

module _ (texts : Error → String) (pods replicas : ℕ) (conditions : List Condition) where
  says :
      (manage_err : Option Error) (o : Option Condition)
      → get_condition conditions replica_failure ≡ o
      → let new = failure_conditions texts pods replicas manage_err o conditions in
        Says manage_err new × OthersKept conditions new
  unfolding failure_conditions
  says none none h = (h, λ other d. refl)
  says none (some old) h = remove_condition_lem conditions replica_failure
  says (some e) none h =
      let (found, others) = set_condition_lem conditions (record {
        kind = replica_failure;
        status = "True";
        reason = failure_reason pods replicas;
        message = texts e;
      }) in
      ((found.0, found.1), others)
  says (some e) (some old) h = ((old, h), λ other d. refl)

-- The status has the condition that the replicas failed exactly where managing them ended with an
-- error, and every other condition as it was; its numbers of labelled, of ready and of available pods are
-- at most the number of pods, which it gives as its replicas, and no more pods are available than
-- ready, where there are fewer than 2 ^ 31 pods.
pub calculate_status-Says :
    (x : Tests) (json : Json) (texts : Error → String) (set : InplaceSet) (status : SetStatus)
    (pods : List Pod) (manage_err : Option Error)
    → length pods < 2 ^ 31
    → let new = calculate_status x json texts set status pods manage_err in
      Says manage_err new.conditions
      × ((other : String)
          → other ≢ replica_failure
          → get_condition new.conditions other ≡ get_condition status.conditions other)
      × (new.replicas ≡ pos (length pods))
      × (new.fully_labeled_replicas ≤ℤ new.replicas)
      × (new.ready_replicas ≤ℤ new.replicas)
      × (new.available_replicas ≤ℤ new.ready_replicas)
unfolding calculate_status
calculate_status-Says x json texts set status pods manage_err l =
    let available = λ (p : Pod). x.is_available set.min_ready_seconds p in
    let (here, others) =
      says texts (length pods) set.replicas status.conditions manage_err
        (get_condition status.conditions replica_failure) refl in
    let a = count_if_le x.has_labels pods in
    let b = count_if_le x.is_ready pods in
    let d = count_if_both_le x.is_ready available pods in
    let same : (n : ℕ) → n ≤ length pods → wrap32 (pos n) ≡ pos n =
      λ n h. wrap32_eq (pos n) (omega (arith, h, l), omega arith) in
    (
      here,
      others,
      same (length pods) (omega arith),
      rw (same (length pods) (omega arith), same (count_if x.has_labels pods) a) (omega (arith, a)),
      rw (same (length pods) (omega arith), same (count_if x.is_ready pods) b) (omega (arith, b)),
      rw
          (
            same (count_if x.is_ready pods) b,
            same (count_if (λ p. x.is_ready p && available p) pods) (omega (arith, b, d)),
          )
          (omega (arith, d)),
    )
