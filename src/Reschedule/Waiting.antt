-- ===== src/Reschedule/Waiting.antt =====
-- The pods that lack resources (the loop over the workloads in reconcile of
-- pkg/controllers/reschedule/controller.go).
use extended_deployment.Base.{
  ℕ, ◌+◌, ◌==◌, ℤ, ltb_ℤ, String, str_eq, ◌≡◌, ◌≢◌, ◌⊎◌, ◌||◌, refl, sym, ap, ◌∙◌, Bool, true,
  false, Bool-cases, Result-cases, inl, inr, if◌then◌else◌, List, [], ◌∷◌, ok, err, put_key,
  lookup-put_key, lookup-put_key_other, sum_of, All, arith, eq_iff,
}
use mathlib.Core.Bool.{true≢false}
use extended_deployment.Adapter.{Subset}
use extended_deployment.Reschedule.{failed_in}
use extended_deployment.Reschedule.Annotation.{RescheduleType, reschedule_for_resource_insufficient}
use extended_deployment.Reschedule.Controller.{
  RescheduleClient, waiting_in, waiting, count_at, or_zero,
}

module _ (c : RescheduleClient) (s : c.State) where
  abbrev pub pods_of : Subset → ℕ
  pods_of ss = elim (c.query_insufficient_pods ss s) [ err e ↦ 0 | ok (n, seconds) ↦ n ]

  -- No pod of a workload lacks resources, or one has waited for longer than the limit.
  abbrev pub is_over : ℤ → Subset → Bool
  is_over timeout ss = elim (c.query_insufficient_pods ss s) [
    | err e ↦ false
    | ok (n, seconds) ↦ n == 0 || ltb_ℤ timeout seconds
  ]

  abbrev pub pods_of_region : String → List (String × Bool) → List (String × List Subset) → ℕ
  pods_of_region name failed [] = 0
  pods_of_region name failed ((region, subsets) ∷ rest) =
      (if failed_in failed region
        then 0
        else if str_eq name region
        then sum_of pods_of subsets
        else 0)
      + pods_of_region name failed rest

  abbrev pub Kind : RescheduleType × List (String × ℕ) → RescheduleType × List (String × ℕ) → Type 0
  Kind found found' = (found' ≡ found) ⊎ (found'.0 ≡ reschedule_for_resource_insufficient)

  count_at-put_key :
      (name region : String) (n : ℕ) (m : List (String × ℕ))
      → count_at name (put_key region (count_at region m + n) m)
        ≡ count_at name m + (if str_eq name region then n else 0)
  count_at-put_key name region n m = elim (Bool-cases (str_eq name region)) [
    | inl e ↦
        let new = ap or_zero (lookup-put_key region (count_at region m + n) m) in
        let same =
          ap (λ x. count_at x (put_key region (count_at region m + n) m))
            ((eq_iff name region).0 e) in
        let old = ap (λ x. count_at x m) ((eq_iff name region).0 e) in
        rw e (omega (arith, new, same, old))
    | inr e ↦
        let d : name ≢ region = λ q. true≢false (sym ((eq_iff name region).1 q) ∙ e) in
        let kept = ap or_zero (lookup-put_key_other region name (count_at region m + n) m d) in
        rw e (omega (arith, kept))
  ]

  then_kind : (a b d : RescheduleType × List (String × ℕ)) → Kind a b → Kind b d → Kind a d
  then_kind a b d first (inr e) = inr e
  then_kind a b d (inl e) (inl q) = inl (q ∙ e)
  then_kind a b d (inr e) (inl q) = inr (ap (λ f. f.0) q ∙ e)

  record InRegion (timeout : ℤ) (region : String) (subsets : List Subset)
      (found found' : RescheduleType × List (String × ℕ)) : Type 0 where
    count :
        (name : String)
        → count_at name found'.1
          ≡ count_at name found.1 + (if str_eq name region then sum_of pods_of subsets else 0)
    waited : All (λ ss. is_over timeout ss ≡ true) subsets
    kind : Kind found found'

  waiting_in-InRegion :
      (timeout : ℤ) (region : String) (subsets : List Subset)
      (found found' : RescheduleType × List (String × ℕ))
      → waiting_in c timeout region subsets found s ≡ ok found'
      → InRegion timeout region subsets found found'
  unfolding waiting_in
  waiting_in-InRegion timeout region [] found found' h =
      let same : found ≡ found' = ground (arith, h) in
      record {
        count = λ name. let counted = ap (λ f. count_at name f.1) same in ground (arith, counted);
        waited = tt;
        kind = inl (sym same);
      }
  waiting_in-InRegion timeout region (ss ∷ rest) found found' h =
      elim (Result-cases (c.query_insufficient_pods ss s)) [
        | inl (e, q) ↦ absurd (ground (arith, h, q))
        | inr ((n, seconds), q) ↦
            let here : pods_of ss ≡ n = rw (q, pods_of) refl in
            elim (Bool-cases (n == 0)) [
              | inl z ↦
                  let k : waiting_in c timeout region rest found s ≡ ok found' =
                    ground (arith, h, q, z) in
                  let step = waiting_in-InRegion timeout region rest found found' k in
                  record {
                    count =
                        λ name. let counted = step.count name in ground (arith, counted, here, z);
                    waited = (rw (q, is_over, z) refl, step.waited);
                    kind = step.kind;
                  }
              | inr z ↦ elim (Bool-cases (ltb_ℤ timeout seconds)) [
                | inl l ↦
                    let more : RescheduleType × List (String × ℕ) = (
                      reschedule_for_resource_insufficient,
                      put_key region (count_at region found.1 + n) found.1,
                    ) in
                    let k : waiting_in c timeout region rest more s ≡ ok found' =
                      ground (arith, h, q, z, l) in
                    let step = waiting_in-InRegion timeout region rest more found' k in
                    record {
                      count = λ name.
                          let counted = step.count name in
                          let first = count_at-put_key name region n found.1 in
                          ground (arith, counted, here, first);
                      waited = (rw (q, is_over, z, l) refl, step.waited);
                      kind = inr (elim step.kind [ inl e ↦ ap (λ f. f.0) e | inr e ↦ e ]);
                    }
                | inr l ↦ absurd (ground (arith, h, q, z, l))
              ]
            ]
      ]

  -- What the loop is to find in the workloads of the regions.
  pub record IsCounted (timeout : ℤ) (failed : List (String × Bool))
      (entries : List (String × List Subset)) (found found' : RescheduleType × List (String × ℕ))
      : Type 0 where
    pub count :
        (name : String)
        → count_at name found'.1 ≡ count_at name found.1 + pods_of_region name failed entries
    pub waited :
        All
          (λ entry.
            (failed_in failed entry.0 ≡ true) ⊎ All (λ ss. is_over timeout ss ≡ true) entry.1)
          entries
    pub kind : Kind found found'

  -- Where the loop over the workloads gives a result, each region is listed with the pods that it had before
  -- and all pods of its workloads that lack resources, none for a failed region. In each
  -- workload of a region that did not fail no pod lacks resources, or one has waited for
  -- longer than the limit. The reason is that resources lack, or nothing was found.
  pub waiting-IsCounted :
      (timeout : ℤ) (failed : List (String × Bool)) (entries : List (String × List Subset))
      (found found' : RescheduleType × List (String × ℕ))
      → waiting c timeout failed entries found s ≡ ok found'
      → IsCounted timeout failed entries found found'
  unfolding waiting
  waiting-IsCounted timeout failed [] found found' h =
      let same : found ≡ found' = ground (arith, h) in
      record {
        count = λ name. let counted = ap (λ f. count_at name f.1) same in ground (arith, counted);
        waited = tt;
        kind = inl (sym same);
      }
  waiting-IsCounted timeout failed ((region, subsets) ∷ rest) found found' h =
      elim (Bool-cases (failed_in failed region)) [
        | inl f ↦
            let k : waiting c timeout failed rest found s ≡ ok found' = ground (arith, h, f) in
            let step = waiting-IsCounted timeout failed rest found found' k in
            record {
              count = λ name. let counted = step.count name in ground (arith, counted, f);
              waited = (inl f, step.waited);
              kind = step.kind;
            }
        | inr f ↦ elim (Result-cases (waiting_in c timeout region subsets found s)) [
          | inl (e, q) ↦ absurd (ground (arith, h, f, q))
          | inr (more, q) ↦
              let k : waiting c timeout failed rest more s ≡ ok found' = ground (arith, h, f, q) in
              let here = waiting_in-InRegion timeout region subsets found more q in
              let step = waiting-IsCounted timeout failed rest more found' k in
              record {
                count = λ name.
                    let first = here.count name in
                    let counted = step.count name in ground (arith, first, counted, f);
                waited = (inr here.waited, step.waited);
                kind = then_kind found more found' here.kind step.kind;
              }
        ]
      ]
