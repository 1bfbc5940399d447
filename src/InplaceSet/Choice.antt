-- ===== src/InplaceSet/Choice.antt =====
-- Which pods a batch of an update in place takes.
use extended_deployment.Base.{
  ℕ, zero, suc, ◌+◌, ◌-◌, ◌≤◌, ◌≡◌, ◌≢◌, subst, refl, sym, leb, if◌then◌else◌, length, take, All, ℤ,
  pos, negsuc, pos_part, leb_ℤ, Bool, true, false, Bool-cases, List, [], ◌∷◌, Result, ok, err,
  Result-cases, inl, inr, ◌⊎◌, arith, length-take, All-take,
}
use extended_deployment.Adapter.{ObjectKey}
use extended_deployment.InplaceSet.PodState.{Pod, Json}
use extended_deployment.InplaceSet.Batch.{
  InplaceSet, UpdateSpec, check_pod_in_place_update_tried, get_not_tried_pods, first_not_tried,
  batch_total, is_recreate, get_need_in_place_update_pods,
}

abbrev count_tried : Result Bool → ℕ
count_tried (ok true) = 1
count_tried (ok false) = 0
count_tried (err e) = 0

module _ (json : Json) (spec : UpdateSpec) where
  -- The number of pods in which the update was tried.
  abbrev pub tried_in : List Pod → ℕ
  tried_in [] = 0
  tried_in (pod ∷ rest) =
      count_tried (check_pod_in_place_update_tried json pod spec) + tried_in rest

  -- The pod was read, and the update was not tried in it.
  abbrev pub IsUntried : Pod → Type 0
  IsUntried pod = check_pod_in_place_update_tried json pod spec ≡ ok false

  -- How a list of pods that were not tried is made.
  unfoldable Chosen : Pod → List Pod → List Pod → Type 0
  Chosen pod rest nt =
      (more : List Pod) × (get_not_tried_pods json spec rest ≡ ok more)
      × ((check_pod_in_place_update_tried json pod spec ≡ ok true) × (more ≡ nt)
          ⊎ (IsUntried pod × (pod ∷ more ≡ nt)))

  choice :
      (pod : Pod) (rest nt : List Pod)
      → get_not_tried_pods json spec (pod ∷ rest) ≡ ok nt
      → Chosen pod rest nt
  unfolding get_not_tried_pods Chosen
  choice pod rest nt h = elim (Result-cases (check_pod_in_place_update_tried json pod spec)) [
    | inl (e, c) ↦ absurd (ground arith)
    | inr (true, c) ↦ elim (Result-cases (get_not_tried_pods json spec rest)) [
      | inl (e, m) ↦ absurd (ground (arith, h))
      | inr (more, m) ↦ (more, m, inl (c, ground arith))
    ]
    | inr (false, c) ↦ elim (Result-cases (get_not_tried_pods json spec rest)) [
      | inl (e, m) ↦ absurd (ground (arith, h))
      | inr (more, m) ↦ (more, m, inr (c, ground arith))
    ]
  ]

  none_left : (nt : List Pod) → get_not_tried_pods json spec [] ≡ ok nt → [] ≡ nt
  unfolding get_not_tried_pods
  none_left nt h = ground arith

  not_tried_lem :
      (pods nt : List Pod)
      → get_not_tried_pods json spec pods ≡ ok nt
      → (length nt + tried_in pods ≡ length pods) × All IsUntried nt
  unfolding Chosen
  not_tried_lem [] nt h =
      subst (λ n. (length n + 0 ≡ 0) × All IsUntried n) (none_left nt h) (refl, tt)
  not_tried_lem (pod ∷ rest) nt h =
      let (more, m, way) = choice pod rest nt h in
      elim way [
        | inl (c, same) ↦
            let rec = not_tried_lem rest more m in
            (rw (sym same, c) (omega (arith, rec.0)), subst (All IsUntried) same rec.1)
        | inr (c, same) ↦
            let rec = not_tried_lem rest more m in
            (rw (sym same, c) (omega (arith, rec.0)), subst (All IsUntried) same (c, rec.1))
      ]

batch_total_lem :
    (all : ℕ) (num : ℤ)
    → pos_part (batch_total all num) ≡ (if leb (pos_part num) all then pos_part num else all)
unfolding batch_total
batch_total_lem all (pos n) = ground arith
batch_total_lem all (negsuc n) = ground arith

first_not_tried_lem :
    (P : Pod → Type 0) (total : ℤ) (tried : ℕ) (nt : List Pod)
    → pos_part total ≤ tried + length nt
    → All P nt
    → (length (first_not_tried total tried nt) ≡ pos_part total - tried)
      × All P (first_not_tried total tried nt)
unfolding first_not_tried
first_not_tried_lem P total tried nt h p = elim (Bool-cases (leb_ℤ total (pos tried))) [
  | inl e ↦ rw (e, first_not_tried) (ground arith, tt)
  | inr e ↦ elim (Bool-cases (leb (length nt) (pos_part total - tried))) [
    | inl f ↦ rw (e, f, first_not_tried) (ground arith, p)
    | inr f ↦
        rw (e, f, first_not_tried)
          (
            length-take (pos_part total - tried) nt (ground arith),
            All-take P (pos_part total - tried) nt p,
          )
  ]
]

-- Where a batch's pods are found, the strategy not being to recreate them, each one has a state that
-- could be read and was not tried yet, and there are as many as are missing from the batch: with
-- those that were tried before, they make up the number that the specification counts, or all pods
-- if that is less. None are taken if that many were tried.
pub get_need_in_place_update_pods_lem :
    (json : Json) (set : InplaceSet) (spec : UpdateSpec) (pods need : List Pod)
    → is_recreate set.update_strategy ≡ false
    → get_need_in_place_update_pods json set pods spec ≡ ok need
    → (length need
        ≡ (if leb (pos_part spec.update_pod_num) (length pods)
            then pos_part spec.update_pod_num
            else length pods)
          - tried_in json spec pods)
      × All (IsUntried json spec) need
unfolding get_need_in_place_update_pods
get_need_in_place_update_pods_lem json set spec pods need recreate h =
    elim (Result-cases (get_not_tried_pods json spec pods)) [
      | inl (e, m) ↦ absurd (ground arith)
      | inr (nt, m) ↦
          let (count, untried) = not_tried_lem json spec pods nt m in
          let total = batch_total (length pods) spec.update_pod_num in
          let sum = batch_total_lem (length pods) spec.update_pod_num in
          let (len, all) =
            first_not_tried_lem (IsUntried json spec) total (length pods - length nt) nt
              (ground arith) untried in
          let same : first_not_tried total (length pods - length nt) nt ≡ need = ground arith in
          (
            rw (sym same, len, sym sum) (omega (arith, count)),
            subst (All (IsUntried json spec)) same all,
          )
    ]

pub get_need_in_place_update_pods-IsUntried :
    (json : Json) (set : InplaceSet) (spec : UpdateSpec) (pods need : List Pod)
    → get_need_in_place_update_pods json set pods spec ≡ ok need
    → All (IsUntried json spec) need
unfolding get_need_in_place_update_pods
get_need_in_place_update_pods-IsUntried json set spec pods need h =
    elim (Bool-cases (is_recreate set.update_strategy)) [
      | inl e ↦ let same : [] ≡ need = ground arith in subst (All (IsUntried json spec)) same tt
      | inr e ↦ (get_need_in_place_update_pods_lem json set spec pods need e h).1
    ]

-- No pod of the list has the key.
abbrev pub NotAmong : ObjectKey → List Pod → Type 0
NotAmong k pods = All (λ p. k ≢ p.key) pods

abbrev pub DistinctKeys : List Pod → Type 0
DistinctKeys [] = Unit
DistinctKeys (pod ∷ rest) = NotAmong pod.key rest × DistinctKeys rest

take-DistinctKeys : (n : ℕ) (pods : List Pod) → DistinctKeys pods → DistinctKeys (take n pods)
take-DistinctKeys zero pods d = tt
take-DistinctKeys (suc n) [] d = tt
take-DistinctKeys (suc n) (pod ∷ rest) d =
    (All-take (λ p. pod.key ≢ p.key) n rest d.0, take-DistinctKeys n rest d.1)

module _ (json : Json) (spec : UpdateSpec) where
  -- What is left of the pods is a part of them.
  not_tried-All :
      (P : Pod → Type 0) (pods nt : List Pod)
      → get_not_tried_pods json spec pods ≡ ok nt
      → All P pods
      → All P nt
  unfolding Chosen
  not_tried-All P [] nt h p = subst (All P) (none_left json spec nt h) tt
  not_tried-All P (pod ∷ rest) nt h p =
      let (more, m, way) = choice json spec pod rest nt h in
      elim way [
        | inl (c, same) ↦ subst (All P) same (not_tried-All P rest more m p.1)
        | inr (c, same) ↦ subst (All P) same (p.0, not_tried-All P rest more m p.1)
      ]

  not_tried-DistinctKeys :
      (pods nt : List Pod)
      → get_not_tried_pods json spec pods ≡ ok nt
      → DistinctKeys pods
      → DistinctKeys nt
  unfolding Chosen
  not_tried-DistinctKeys [] nt h d = subst DistinctKeys (none_left json spec nt h) tt
  not_tried-DistinctKeys (pod ∷ rest) nt h d =
      let (more, m, way) = choice json spec pod rest nt h in
      elim way [
        | inl (c, same) ↦ subst DistinctKeys same (not_tried-DistinctKeys rest more m d.1)
        | inr (c, same) ↦ subst DistinctKeys same (
          not_tried-All (λ p. pod.key ≢ p.key) rest more m d.0,
          not_tried-DistinctKeys rest more m d.1,
        )
      ]

first_not_tried-DistinctKeys :
    (total : ℤ) (tried : ℕ) (nt : List Pod)
    → DistinctKeys nt
    → DistinctKeys (first_not_tried total tried nt)
unfolding first_not_tried
first_not_tried-DistinctKeys total tried nt d = elim (Bool-cases (leb_ℤ total (pos tried))) [
  | inl e ↦ rw (e, first_not_tried) tt
  | inr e ↦ elim (Bool-cases (leb (length nt) (pos_part total - tried))) [
    | inl f ↦ rw (e, f, first_not_tried) d
    | inr f ↦ rw (e, f, first_not_tried) (take-DistinctKeys (pos_part total - tried) nt d)
  ]
]

pub get_need_in_place_update_pods-DistinctKeys :
    (json : Json) (set : InplaceSet) (spec : UpdateSpec) (pods need : List Pod)
    → get_need_in_place_update_pods json set pods spec ≡ ok need
    → DistinctKeys pods
    → DistinctKeys need
unfolding get_need_in_place_update_pods
get_need_in_place_update_pods-DistinctKeys json set spec pods need h d =
    elim (Bool-cases (is_recreate set.update_strategy)) [
      | inl e ↦ let same : [] ≡ need = ground arith in subst DistinctKeys same tt
      | inr e ↦ elim (Result-cases (get_not_tried_pods json spec pods)) [
        | inl (x, m) ↦ absurd (ground arith)
        | inr (nt, m) ↦
            let total = batch_total (length pods) spec.update_pod_num in
            let same : first_not_tried total (length pods - length nt) nt ≡ need = ground arith in
            subst DistinctKeys same (
              first_not_tried-DistinctKeys total (length pods - length nt) nt
                (not_tried-DistinctKeys json spec pods nt m d))
      ]
    ]
