-- ===== src/InplaceSet/Approach.antt =====
-- How far one round of an in-place set moves the number of its pods.
use extended_deployment.Base.{
  ℕ, zero, suc, ◌+◌, ◌-◌, ◌^◌, ◌≤◌, ◌<◌, ◌≡◌, ap, ◌⊎◌, inl, inr, Bool-cases, String, ltb, List, [],
  ◌∷◌, length, take, arith,
}
use extended_deployment.Adapter.{Outcome-cases, state_of}
use extended_deployment.InplaceSet.{
  Pod, Control, int_min, run_batch, slow_start_batch, create_pod, delete_pods, get_pods_to_delete,
  manage_replicas,
}
use extended_deployment.InplaceSet.Batches.{slow_start_batch_lem}

-- The server's number of pods of the set: a call to create adds at most one, and a call to delete
-- takes at most one.
pub record Counts (c : Control) : Type 0 where
  pub pods : c.State → ℕ
  pub create_grows :
      (s : c.State)
      → (pods s ≤ pods (state_of (c.create s))) × (pods (state_of (c.create s)) ≤ suc (pods s))
  pub delete_falls :
      (name : String) (s : c.State)
      → (pods (state_of (c.delete name s)) ≤ pods s)
        × (pods s ≤ suc (pods (state_of (c.delete name s))))

-- A number of pods on the way from one to another, at most so far from where it was.
abbrev pub OnTheWay : ℕ → ℕ → ℕ → ℕ → Type 0
OnTheWay burst have want now =
    (((have ≤ now) × (now ≤ want)) ⊎ ((want ≤ now) × (now ≤ have)))
    × (now ≤ have + burst)
    × (have ≤ now + burst)

module _ (c : Control) (counts : Counts c) where
  abbrev Grows : ℕ → c.State → c.State → Type 0
  Grows n s t = (counts.pods s ≤ counts.pods t) × (counts.pods t ≤ counts.pods s + n)

  abbrev Falls : ℕ → c.State → c.State → Type 0
  Falls n s t = (counts.pods t ≤ counts.pods s) × (counts.pods s ≤ counts.pods t + n)

  create_pod-Grows : (s : c.State) → Grows 1 s (state_of (create_pod c s))
  unfolding create_pod
  create_pod-Grows s = elim (Outcome-cases (c.create s)) [
    | inl (u, t, e) ↦ let g = counts.create_grows s in ground (arith, g, e)
    | inr (x, t, e) ↦ let g = counts.create_grows s in ground (arith, g, e)
  ]

  run_batch-Grows : (n : ℕ) (s : c.State) → Grows n s (run_batch (create_pod c) n s).1
  unfolding run_batch
  run_batch-Grows zero s = (omega arith, omega arith)
  run_batch-Grows (suc n) s = elim (Outcome-cases (create_pod c s)) [
    | inl (u, t, e) ↦
        let g = create_pod-Grows s in
        let more = run_batch-Grows n t in
        rw (e, run_batch) (ground (arith, g, more, e), ground (arith, g, more, e))
    | inr (x, t, e) ↦
        let g = create_pod-Grows s in
        let more = run_batch-Grows n t in
        rw (e, run_batch) (ground (arith, g, more, e), ground (arith, g, more, e))
  ]

  slow_start_batch-Grows :
      (count initial : ℕ) (s : c.State)
      → count < 2 ^ 62
      → 0 < initial
      → Grows count s (slow_start_batch (create_pod c) count initial s).1
  slow_start_batch-Grows count initial s w i =
      elim (slow_start_batch_lem (create_pod c) count initial s w i) [
        | inl (t, all, e) ↦
            let g = run_batch-Grows count s in
            rw (e) (ground (arith, g, ap (λ r. r.1) all), ground (arith, g, ap (λ r. r.1) all))
        | inr k ↦
            let g = run_batch-Grows k.before s in
            let more = run_batch-Grows k.size k.between in
            let same = ap (λ r. counts.pods r.1) k.all_succeed in
            let last = ap (λ r. counts.pods r.1) k.batch_fails in
            rw (k.answer) (
              omega (arith, g.0, g.1, more.0, more.1, same, last, k.count_limit),
              omega (arith, g.0, g.1, more.0, more.1, same, last, k.count_limit),
            )
      ]

  delete_pods-Falls :
      (pods : List Pod) (s : c.State) → Falls (length pods) s (delete_pods c pods s).1
  unfolding delete_pods
  delete_pods-Falls [] s = (omega arith, omega arith)
  delete_pods-Falls (pod ∷ rest) s = elim (Outcome-cases (c.delete pod.name s)) [
    | inl (u, t, e) ↦
        let g = counts.delete_falls pod.name s in
        let more = delete_pods-Falls rest t in
        rw (e, delete_pods) (ground (arith, g, more, e), ground (arith, g, more, e))
    | inr (x, t, e) ↦
        let g = counts.delete_falls pod.name s in
        let more = delete_pods-Falls rest t in
        elim (Bool-cases (c.is_not_found x)) [
          | inl q ↦ rw (e, q, delete_pods) (ground (arith, g, more, e), ground (arith, g, more, e))
          | inr q ↦ rw (e, q, delete_pods) (ground (arith, g, more, e), ground (arith, g, more, e))
        ]
  ]

  length-take_le : (n : ℕ) (pods : List Pod) → length (take n pods) ≤ n
  length-take_le zero pods = omega arith
  length-take_le (suc n) [] = omega arith
  length-take_le (suc n) (pod ∷ rest) = omega (arith, length-take_le n rest)

  get_pods_to_delete-length :
      (pods related : List Pod) (n : ℕ) → length (get_pods_to_delete c pods related n) ≤ n
  unfolding get_pods_to_delete
  get_pods_to_delete-length pods related n = length-take_le n _

  -- Where the listed pods of a set are as many as the server has, one round brings their number on
  -- the way to the replicas, and never beyond, and changes it by at most the burst, whichever calls
  -- of the API server fail.
  pub manage_replicas-OnTheWay :
      (initial burst : ℕ) (pods related : List Pod) (replicas : ℕ) (s : c.State)
      → counts.pods s ≡ length pods
      → replicas < 2 ^ 62
      → 0 < initial
      → OnTheWay burst
          (length pods)
          replicas
          (counts.pods (manage_replicas c initial burst pods related replicas s).1)
  unfolding manage_replicas
  manage_replicas-OnTheWay initial burst pods related replicas s have w i =
      elim (Bool-cases (ltb (length pods) replicas)) [
        | inl few ↦
            let n = int_min (replicas - length pods) burst in
            let g = slow_start_batch-Grows n initial s (ground (arith, w)) i in
            let lower : length pods < replicas = ground (arith, few) in
            let most : n ≤ replicas - length pods = ground arith in
            let limit : n ≤ burst = ground arith in
            rw (few, manage_replicas)
              (
                inl (omega (arith, g.0, have), omega (arith, g.1, have, lower, most)),
                omega (arith, g.1, have, limit),
                omega (arith, g.0, have),
              )
        | inr enough ↦ elim (Bool-cases (ltb replicas (length pods))) [
          | inl many ↦
              let n = int_min (length pods - replicas) burst in
              let chosen = get_pods_to_delete c pods related n in
              let g = delete_pods-Falls chosen s in
              let short = get_pods_to_delete-length pods related n in
              let upper : replicas < length pods = ground (arith, many) in
              let most : n ≤ length pods - replicas = ground arith in
              let limit : n ≤ burst = ground arith in
              rw (enough, many, manage_replicas)
                (
                  inr (omega (arith, g.1, have, upper, most, short), omega (arith, g.0, have)),
                  omega (arith, g.0, have),
                  omega (arith, g.1, have, limit, short),
                )
          | inr same ↦
              rw (enough, same, manage_replicas)
                (
                  inl (omega (arith, have), ground (arith, have, enough, same)),
                  omega (arith, have),
                  omega (arith, have),
                )
        ]
      ]
