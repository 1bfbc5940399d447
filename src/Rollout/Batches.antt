-- ===== src/Rollout/Batches.antt =====
-- How far one batch of an update in place goes.
use Prim.Native.Nat.{min}
use mathlib.Core.Path.{ap₂}
use extended_deployment.Base.{
  ℕ, ◌+◌, ◌^◌, ◌≤◌, ◌<◌, ◌≡◌, ◌≢◌, refl, subst, sym, ◌∙◌, ap, inl, inr, ◌-◌, ◌==◌, ltb,
  if◌then◌else◌, pos, add64, add64_pos, leb_ℤ, wrap32_eq, String, eq_iff, Bool, true, false, not,
  ◌&&◌, Bool-cases, List, [], ◌∷◌, some, ok, lookup, put_key, lookup-put_key, lookup-put_key_other,
  arith,
}
use extended_deployment.Api.{Strategy}
use extended_deployment.Adapter.{
  Subset, RegionInfo, ObjectKey, Workload, Client, IsClient, Outcome-cases, done,
}
use extended_deployment.Grouping.{
  InplaceSetUpdateSpec, annotation_update_spec, get_inplace_set_update_spec,
}
use extended_deployment.StepControl.{calculate_step_size, batch_step}
use extended_deployment.StepControl.Rounds.{step_up, batch_step-count}
use extended_deployment.Scaling.{object_key}
use extended_deployment.Scaling.Server.{edit_loop-HasEdited}
use extended_deployment.Rollout.{
  annotation_template_hash, set_annotations, update_subset_annotations,
}
use extended_deployment.Rollout.Inplace.{
  InplaceTemplates, inplace_candidate, is_can_inplace_update, first_step, inplace_step, or_no_spec,
  with_batch, with_containers, drop_spec, is_none, start_batch, try_batch, check_inplace_update,
}

-- The step of a batch upwards.
step_bounds :
    (strategy : Strategy) (b n d : ℕ)
    → strategy.batch_size ≡ pos b
    → b < 2 ^ 30
    → n ≤ d
    → d < 2 ^ 31
    → (k : ℕ) × (calculate_step_size strategy (pos d) (pos n) ≡ pos k) × (n + k ≤ d)
step_bounds strategy b n d e l h m =
    let (s, count, most) = batch_step-count strategy.rollout_strategy b n in
    let count' = ap (λ x. batch_step strategy.rollout_strategy x (pos n)) e ∙ count in
    (
      min s (d - n),
      step_up strategy d n s m (omega arith) (omega (arith, most)) count' h,
      omega arith,
    )

first_step_bounds :
    (n d k : ℕ)
    → n + k ≤ d
    → (k' : ℕ) × (first_step (pos d) (pos n) (pos k) ≡ pos k')
      × (n + k' ≤ d)
      × (n ≡ 0 → 1 < d → k' < d)
unfolding first_step
first_step_bounds n d k h = (
  (if n == 0 && k == d && ltb 0 k then 1 else k),
  ground arith,
  ground arith,
  λ z more. ground (arith, z, more),
)

-- The whole step: the pods updated after it are at most those desired, and not all of them at first.
inplace_step_bounds :
    (strategy : Strategy) (b n d : ℕ)
    → strategy.batch_size ≡ pos b
    → b < 2 ^ 30
    → n ≤ d
    → d < 2 ^ 31
    → (k : ℕ) × (inplace_step strategy (pos d) (pos n) ≡ pos k)
      × (n + k ≤ d)
      × (n ≡ 0 → 1 < d → k < d)
unfolding inplace_step
inplace_step_bounds strategy b n d e l h m =
    let (k, step, limit) = step_bounds strategy b n d e l h m in
    let (k', first, rest, part) = first_step_bounds n d k limit in
    (
      k',
      ap (λ x. first_step (pos d) (pos n) (calculate_step_size strategy (pos d) x))
            (wrap32_eq (pos n) (omega arith, omega arith))
          ∙ ap (first_step (pos d) (pos n)) step
          ∙ first,
      rest,
      part,
    )

specs_differ : annotation_update_spec ≢ annotation_template_hash
specs_differ h = ground (arith, (eq_iff annotation_update_spec annotation_template_hash).1 h)

module _ (c : Client) (v : IsClient c) (t : InplaceTemplates) where
  -- The server holds the batch of a workload in its annotation, and all else as before.
  pub record HasBatch (region : String) (k : ObjectKey) (n : ℕ) (s u : c.Server) : Type 0 where
    pub stored : Workload
    pub stored_found : c.get k u ≡ ok stored
    pub hash : String
    pub batch :
        lookup annotation_update_spec stored.annotations
        ≡ some (t.marshal (record { update_pod_num = pos n; pod_template_hash = hash }))
    pub same_containers : stored.containers ≡ t.template_containers region
    pub others : (j : ObjectKey) → j ≢ k → c.get j u ≡ c.get j s

  start_batch-HasBatch :
      (region : String) (info info' : RegionInfo) (spec : InplaceSetUpdateSpec) (n k : ℕ)
      (ss : Subset) (s u : c.Server)
      → spec.update_pod_num ≡ pos n
      → n + k < 2 ^ 63
      → start_batch c t region info spec (pos k) ss s ≡ done (true, info') u
      → HasBatch region (object_key ss) (n + k) s u
  unfolding start_batch with_batch update_subset_annotations
  start_batch-HasBatch region info info' spec n k ss s u e l h =
      let written = with_batch c t region spec (pos k) ss in
      elim (Outcome-cases (update_subset_annotations c true written s)) [
        | inr (x, u', f) ↦ absurd (ground (arith, h, f))
        | inl (y, u', f) ↦
            let same : u' ≡ u = ground (arith, h, f) in
            let r =
              edit_loop-HasEdited c v (set_annotations c true written) (λ w. refl) (object_key ss) 4
                (ok tt) s u' f in
            let number : add64 spec.update_pod_num (pos k) ≡ pos (n + k) =
              ap (λ x. add64 x (pos k)) e ∙ add64_pos n k l in
            let text = t.marshal (record {
              update_pod_num = add64 spec.update_pod_num (pos k);
              pod_template_hash = t.object_hash region (with_containers c t region ss);
            }) in
            let inner = put_key annotation_update_spec text ss.annotations in
            rw (sym same) (record {
              stored = set_annotations c true written r.0.0;
              stored_found = r.0.1;
              hash = t.object_hash region (with_containers c t region ss);
              batch =
                  lookup-put_key_other annotation_template_hash annotation_update_spec
                    (t.template_hash region) inner specs_differ
                  ∙ lookup-put_key annotation_update_spec text ss.annotations
                  ∙ ap
                      (λ x. some (
                        t.marshal (record {
                          update_pod_num = x;
                          pod_template_hash = t.object_hash region (with_containers c t region ss);
                        })))
                      number;
              same_containers = refl;
              others = r.1;
            })
      ]

  object_key-drop_spec :
      (exists : Bool) (olds : List Subset) (ss : Subset)
      → object_key (drop_spec exists olds ss) ≡ object_key ss
  object_key-drop_spec exists [] ss = refl
  object_key-drop_spec true (o ∷ rest) ss = refl
  object_key-drop_spec false (o ∷ rest) ss = refl

  -- A batch that starts has passed every test.
  try_batch-start :
      (strategy : Strategy) (region : String) (info info' : RegionInfo) (found : Subset)
      (s u : c.Server)
      → let spec = get_inplace_set_update_spec t.unmarshal found.annotations in
        let step = inplace_step strategy info.desired_replicas (or_no_spec spec).update_pod_num in
        try_batch c t strategy region info found s ≡ done (true, info') u
        → (leb_ℤ step (pos 0) ≡ false)
          × (start_batch c t region info
                (or_no_spec spec)
                step
                (drop_spec (not (is_none spec)) info.olds found)
                s
              ≡ done (true, info') u)
  unfolding try_batch
  try_batch-start strategy region info info' found s u h =
      let spec = get_inplace_set_update_spec t.unmarshal found.annotations in
      let ss = drop_spec (not (is_none spec)) info.olds found in
      let step = inplace_step strategy info.desired_replicas (or_no_spec spec).update_pod_num in
      elim (Bool-cases (is_none spec && not (is_none info.new))) [
        | inl a ↦ absurd (ground (arith, h, a))
        | inr a ↦ elim (Bool-cases (not (is_can_inplace_update t info.desired_replicas ss))) [
          | inl b ↦ absurd (ground (arith, h, a, b))
          | inr b ↦ elim (Bool-cases (leb_ℤ step (pos 0))) [
            | inl q ↦ absurd (ground (arith, h, a, b, q))
            | inr q ↦ (q, ground (arith, h, a, b, q))
          ]
        ]
      ]

  -- Where a batch starts, on a workload whose annotation counts `n` pods of the `d` desired ones: the
  -- server holds the containers of the region's template with an annotation that counts more, but not
  -- more than desired, and if these are more than one, the first batch does not count all of
  -- them; no other object has changed.
  pub check_inplace_update-HasBatch :
      (strategy : Strategy) (region : String) (info info' : RegionInfo) (found : Subset) (b n d : ℕ)
      (s u : c.Server)
      → strategy.batch_size ≡ pos b
      → b < 2 ^ 30
      → n ≤ d
      → d < 2 ^ 31
      → info.desired_replicas ≡ pos d
      → inplace_candidate info ≡ some found
      → (or_no_spec (get_inplace_set_update_spec t.unmarshal found.annotations)).update_pod_num
        ≡ pos n
      → check_inplace_update c t strategy region info s ≡ done (true, info') u
      → (m : ℕ) × HasBatch region (object_key found) m s u
        × (n < m)
        × (m ≤ d)
        × (n ≡ 0 → 1 < d → m < d)
  unfolding check_inplace_update
  check_inplace_update-HasBatch strategy region info info' found b n d s u e l le m desired found_is
        num h =
      let (k, step, rest, part) = inplace_step_bounds strategy b n d e l le m in
      let spec = get_inplace_set_update_spec t.unmarshal found.annotations in
      let ss = drop_spec (not (is_none spec)) info.olds found in
      let h' : try_batch c t strategy region info found s ≡ done (true, info') u =
        ground (arith, h, found_is) in
      let (positive, start) = try_batch-start strategy region info info' found s u h' in
      let number : inplace_step strategy info.desired_replicas (or_no_spec spec).update_pod_num
          ≡ pos k =
        ap₂ (inplace_step strategy) desired num ∙ step in
      let some_pods : 0 < k = ground (arith, number, positive) in
      let start' : start_batch c t region info (or_no_spec spec) (pos k) ss s
          ≡ done (true, info') u =
        ap (λ x. start_batch c t region info (or_no_spec spec) x ss s) (sym number) ∙ start in
      (
        n + k,
        subst (λ key. HasBatch region key (n + k) s u) (object_key-drop_spec _ info.olds found)
            (start_batch-HasBatch region info info' (or_no_spec spec) n k ss s u num (omega arith)
              start'),
        omega arith,
        rest,
        λ z more. omega (arith, z, part z more),
      )
