-- ===== src/InplaceSet/Tried.antt =====
-- What a call of manageInplaceUpdate leaves on the server.
use extended_deployment.Base.{
  ℕ, ◌≡◌, refl, sym, ap, ◌∙◌, subst, true, false, Bool-cases, List, [], ◌∷◌, All, some, Result, ok,
  Error, Result-cases, Option-cases, inl, inr, ◌⊎◌, arith, String, lookup,
}
use extended_deployment.Adapter.{ObjectKey, done, fail, state_of, Outcome-cases, ◌>>◌, >>=-eq-done}
use extended_deployment.Grouping.{InplaceSetUpdateSpec as BatchSpec, annotation_update_spec}
use extended_deployment.InplaceSet.PodState.{Pod, Json, PodCondition, PodUpdateSpec}
use extended_deployment.InplaceSet.PodConditions.{contains_readiness_gate, with_condition}
use extended_deployment.InplaceSet.Batch.{
  InplaceSet, UpdateSpec, check_pod_in_place_update_tried, get_need_in_place_update_pods,
  get_update_spec, images_of,
}
use extended_deployment.InplaceSet.Update.{
  PodClient, UpdateResult, update_condition, updated_pod, update_pod_in_place, pod_update_spec,
  start_condition, mark_started, start_update, updated, try_in_place_update, update_loop,
  next_requeue, manage_in_place_update,
}
use extended_deployment.InplaceSet.Choice.{
  IsUntried, NotAmong, DistinctKeys, get_need_in_place_update_pods-DistinctKeys,
  get_need_in_place_update_pods-IsUntried,
}
use extended_deployment.InplaceSet.Writes.{
  IsPodClient, with_status, OnlyAt, >>=-OnlyAt, written, written-OnlyAt,
}
use extended_deployment.InplaceSet.Images.{
  UniqueKeys, images_of-UniqueKeys, Keeps, updated_pod-Records, updated_pod-key, Records-tried,
}

module _ (c : PodClient) (v : IsPodClient c) (json : Json) where
  update_condition-OnlyAt :
      (k : ObjectKey) (condition : PodCondition) (s : c.State)
      → OnlyAt c k s (state_of (update_condition c json k condition s))
  unfolding update_condition with_condition
  update_condition-OnlyAt k condition s =
      written-OnlyAt c json c.update_status (λ now. with_condition condition)
        (λ p s t e h j. v.get-update_status_fail p s t e j h) v (λ n p. refl)
        v.get-update_status_other 3 k s

  update_pod_in_place-OnlyAt :
      (u : PodUpdateSpec) (k : ObjectKey) (s : c.State)
      → OnlyAt c k s (state_of (update_pod_in_place c json k u s))
  unfolding update_pod_in_place
  update_pod_in_place-OnlyAt u k s =
      written-OnlyAt c json c.update (updated_pod json u)
        (λ p s t e h j. v.get-update_fail p s t e j h) v (updated_pod-key json u) v.get-update_other
        3 k s

  mark_started-OnlyAt :
      (pod : Pod) (s : c.State) → OnlyAt c pod.key s (state_of (mark_started c json pod s))
  mark_started-OnlyAt pod s j d = elim (Bool-cases (contains_readiness_gate pod)) [
    | inl e ↦ rw e (update_condition-OnlyAt pod.key start_condition s j d)
    | inr e ↦ rw e refl
  ]

  start_update-OnlyAt :
      (set : InplaceSet) (pod : Pod) (spec : UpdateSpec) (s : c.State)
      → OnlyAt c pod.key s (state_of (start_update c json set pod spec s))
  start_update-OnlyAt set pod spec s =
      let update = update_pod_in_place c json pod.key (pod_update_spec set pod spec) in
      >>=-OnlyAt c (mark_started c json pod >> update) (λ x. done (updated set pod)) pod.key s
        (>>=-OnlyAt c (mark_started c json pod) (λ x. update) pod.key s (mark_started-OnlyAt pod s)
          (λ x. update_pod_in_place-OnlyAt (pod_update_spec set pod spec) pod.key))
        (λ x t j d. refl)

  pub try_in_place_update-OnlyAt :
      (set : InplaceSet) (pod : Pod) (spec : UpdateSpec) (s : c.State)
      → OnlyAt c pod.key s (state_of (try_in_place_update c json set pod spec s))
  unfolding try_in_place_update
  try_in_place_update-OnlyAt set pod spec s j d =
      elim (Result-cases (check_pod_in_place_update_tried json pod spec)) [
        | inl (e, h) ↦ rw (h, try_in_place_update) refl
        | inr (true, h) ↦ rw (h, try_in_place_update) refl
        | inr (false, h) ↦ rw (h, try_in_place_update) (start_update-OnlyAt set pod spec s j d)
      ]

  module _ (spec : UpdateSpec) where
    -- The server holds a pod whose annotations say that this update was tried.
    abbrev pub IsTried : ObjectKey → c.State → Type 0
    IsTried k s =
        (p : Pod) × (c.get k s ≡ ok p) × (check_pod_in_place_update_tried json p spec ≡ ok true)

    update_loop-other :
        (set : InplaceSet) (pods : List Pod) (requeue : ℕ) (s : c.State) (j : ObjectKey)
        → NotAmong j pods
        → c.get j (state_of (update_loop c json set spec requeue pods s)) ≡ c.get j s
    unfolding update_loop
    update_loop-other set [] requeue s j d = refl
    update_loop-other set (pod ∷ rest) requeue s j d =
        let here = try_in_place_update-OnlyAt set pod spec s j d.0 in
        elim (Outcome-cases (try_in_place_update c json set pod spec s)) [
          | inr (e, t, h) ↦ rw (h, update_loop) (ap (λ o. c.get j (state_of o)) (sym h) ∙ here)
          | inl (r, t, h) ↦
              rw (h, update_loop)
                (update_loop-other set rest (next_requeue requeue r) t j d.1
                  ∙ ap (λ o. c.get j (state_of o)) (sym h)
                  ∙ here)
        ]

    -- The updates of the pods, one after another from a state, come to one that fails.
    pub data HasFailed (set : InplaceSet) : List Pod → c.State → Type 0 where
      now :
          (pod : Pod) (rest : List Pod) (e : Error) (s t : c.State)
          → try_in_place_update c json set pod spec s ≡ fail e t
          → HasFailed set (pod ∷ rest) s
      later :
          (pod : Pod) (rest : List Pod) (r : UpdateResult) (s t : c.State)
          → try_in_place_update c json set pod spec s ≡ done r t
          → HasFailed set rest t
          → HasFailed set (pod ∷ rest) s

    module _ (keeps : Keeps json spec) (unique : UniqueKeys spec.new_images) where
      update_pod_in_place-IsTried :
          (set : InplaceSet) (pod : Pod) (k : ObjectKey) (s t : c.State)
          → update_pod_in_place c json k (pod_update_spec set pod spec) s ≡ done tt t
          → IsTried k t
      unfolding update_pod_in_place
      update_pod_in_place-IsTried set pod k s t h =
          let edit = updated_pod json (pod_update_spec set pod spec) in
          let (p, u, same, g, w) =
            written c json c.update edit (λ p s t e h j. v.get-update_fail p s t e j h) 3 k s t h in
          let key : (edit (c.now u) p).key ≡ k =
            updated_pod-key json (pod_update_spec set pod spec) (c.now u) p ∙ v.get_key k u p g in
          let stored = v.get-update (edit (c.now u) p) p u t (ap (λ k. c.get k u) key ∙ g) w in
          (
            with_status (edit (c.now u) p) p,
            ap (λ k. c.get k t) (sym key) ∙ stored,
            Records-tried json spec (with_status (edit (c.now u) p) p) unique keeps (
                updated_pod-Records json spec (pod_update_spec set pod spec) (c.now u) p refl refl),
          )

      try_in_place_update-IsTried :
          (set : InplaceSet) (pod : Pod) (r : UpdateResult) (s t : c.State)
          → IsUntried json spec pod
          → try_in_place_update c json set pod spec s ≡ done r t
          → IsTried pod.key t
      unfolding try_in_place_update
      try_in_place_update-IsTried set pod r s t untried h =
          let start : start_update c json set pod spec s ≡ done r t = ground (arith, h, untried) in
          let (x, u, first, last) =
            >>=-eq-done
              (mark_started c json pod
                >> update_pod_in_place c json pod.key (pod_update_spec set pod spec))
              (λ x. done (updated set pod)) s start in
          let (y, w, mark, up) =
            >>=-eq-done (mark_started c json pod)
              (λ x. update_pod_in_place c json pod.key (pod_update_spec set pod spec)) s first in
          let end : u ≡ t = ground (arith, last) in
          subst (IsTried pod.key) end (update_pod_in_place-IsTried set pod pod.key w u up)

      update_loop-AllTried :
          (set : InplaceSet) (pods : List Pod) (requeue r : ℕ) (s t : c.State)
          → All (IsUntried json spec) pods
          → DistinctKeys pods
          → update_loop c json set spec requeue pods s ≡ done r t
          → HasFailed set pods s ⊎ All (λ pod. IsTried pod.key t) pods
      unfolding update_loop
      update_loop-AllTried set [] requeue r s t untried distinct h = inr tt
      update_loop-AllTried set (pod ∷ rest) requeue r s t untried distinct h =
          elim (Outcome-cases (try_in_place_update c json set pod spec s)) [
            | inr (e, u, g) ↦ inl (HasFailed.now pod rest e s u g)
            | inl (x, u, g) ↦
                let next : update_loop c json set spec (next_requeue requeue x) rest u ≡ done r t =
                  ground (arith, h, g) in
                let (p, held, tried) = try_in_place_update-IsTried set pod x s u untried.0 g in
                let same =
                  update_loop-other set rest (next_requeue requeue x) u pod.key distinct.0 in
                let kept = ap (λ o. c.get pod.key (state_of o)) (sym next) ∙ same in
                elim (update_loop-AllTried set rest (next_requeue requeue x) r u t untried.1
                  distinct.1 next) [
                    | inl f ↦ inl (HasFailed.later pod rest x s u g f)
                    | inr all ↦ inr ((p, kept ∙ held, tried), all)
                  ]
          ]

  get_update_spec-UniqueKeys :
      (unmarshal : String → Result BatchSpec) (set : InplaceSet) (spec : UpdateSpec)
      → get_update_spec unmarshal set ≡ ok (some spec)
      → UniqueKeys spec.new_images
  unfolding get_update_spec
  get_update_spec-UniqueKeys unmarshal set spec h =
      elim (Option-cases (lookup annotation_update_spec set.annotations)) [
        | inl e ↦ absurd (ground (arith, h, e))
        | inr (text, e) ↦ elim (Result-cases (unmarshal text)) [
          | inl (x, f) ↦ absurd (ground (arith, h, e, f))
          | inr (b, f) ↦
              let same : images_of set.containers ≡ spec.new_images = ground (arith, h, e, f) in
              subst UniqueKeys same (images_of-UniqueKeys set.containers)
        ]
      ]

  -- Where a call of manageInplaceUpdate returns without an error, and none of the updates of single pods, one
  -- after another, has failed, the server holds every pod that the batch had to take with the record that this update
  -- was tried, if the pods have different keys and JSON gives back what it was given. The annotations
  -- of the set are those of a batch. All other pods are as they were, also if an update has failed.
  pub manage_in_place_update-IsTried :
      (unmarshal : String → Result BatchSpec) (set : InplaceSet) (spec : UpdateSpec)
      (pods need : List Pod) (r : ℕ) (s t : c.State)
      → get_update_spec unmarshal set ≡ ok (some spec)
      → get_need_in_place_update_pods json set pods spec ≡ ok need
      → Keeps json spec
      → DistinctKeys pods
      → manage_in_place_update c json unmarshal pods set s ≡ done r t
      → (HasFailed spec set need s ⊎ All (λ pod. IsTried spec pod.key t) need)
        × ((j : ObjectKey) → NotAmong j need → c.get j t ≡ c.get j s)
  unfolding manage_in_place_update
  manage_in_place_update-IsTried unmarshal set spec pods need r s t found chosen keeps distinct h =
      let run : update_loop c json set spec 0 need s ≡ done r t =
        ground (arith, h, found, chosen) in
      let unique = get_update_spec-UniqueKeys unmarshal set spec found in
      let untried = get_need_in_place_update_pods-IsUntried json set spec pods need chosen in
      let different =
        get_need_in_place_update_pods-DistinctKeys json set spec pods need chosen distinct in
      (
        update_loop-AllTried spec keeps unique set need 0 r s t untried different run,
        λ j d. ap (λ o. c.get j (state_of o)) (sym run) ∙ update_loop-other spec set need 0 s j d,
      )
