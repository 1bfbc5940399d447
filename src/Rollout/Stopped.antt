-- ===== src/Rollout/Stopped.antt =====
-- The strategy that deletes all old pods first leaves the new workload alone while there are some.
use extended_deployment.Base.{
  ℕ, ◌+◌, ◌^◌, ◌<◌, ◌≡◌, ◌≢◌, refl, sym, ◌∙◌, ap, ◌⊎◌, inl, inr, ℤ, pos, pos_part, neg_part, ltb_ℤ,
  eqb_ℤ, add32, add32_pos, eq_of_parts, String, Bool, true, false, Bool-cases, List, [], ◌∷◌, All,
  sum_of, none, some, Result, Result-cases, ok, Error, arith,
}
use extended_deployment.Adapter.{
  Subset, RegionInfo, ObjectKey, Client, IsClient, Outcome-cases, state_of, done, fail,
}
use extended_deployment.Scaling.{object_key, scale_subset}
use extended_deployment.Scaling.Server.{scale_subset-HasScaled}
use extended_deployment.Rollout.{IntText, Templates, count_replicas, pointers}
use extended_deployment.Rollout.DeleteFirst.{
  list_pods_of, old_pods_running, scale_down_all, rollout_delete_all_first,
}

-- The numbers of a status are counts, whose sums an int32 holds.
pub record IsCounted (olds : List Subset) : Type 0 where
  pub pods_nonneg : All (λ ss. neg_part ss.status.replicas ≡ 0) olds
  pub available_nonneg : All (λ ss. neg_part ss.status.available_replicas ≡ 0) olds
  pub pods_small : sum_of (λ ss. pos_part ss.status.replicas) olds < 2 ^ 31
  pub available_small : sum_of (λ ss. pos_part ss.status.available_replicas) olds < 2 ^ 31

-- A workload without pods: by its replicas, by its status, and by what the server lists.
pub record IsStopped (has_pod : Subset → Result Bool) (ss : Subset) : Type 0 where
  pub no_replicas : ss.spec.replicas ≡ pos 0
  pub no_pods : ss.status.replicas ≡ pos 0
  pub none_available : ss.status.available_replicas ≡ pos 0
  pub none_listed : has_pod ss ≡ ok false

pub count_replicas-sum :
    (f : Subset → ℤ) (total : ℕ) (olds : List Subset)
    → All (λ ss. neg_part (f ss) ≡ 0) olds
    → total + sum_of (λ ss. pos_part (f ss)) olds < 2 ^ 31
    → count_replicas f (pos total) (pointers olds)
      ≡ pos (total + sum_of (λ ss. pos_part (f ss)) olds)
unfolding count_replicas
count_replicas-sum f total [] v small = ap pos (omega arith)
count_replicas-sum f total (ss ∷ rest) v small =
    let whole : f ss ≡ pos (pos_part (f ss)) = eq_of_parts _ _ (omega (arith, v.0)) in
    let next : add32 (pos total) (f ss) ≡ pos (total + pos_part (f ss)) =
      ap (add32 (pos total)) whole ∙ add32_pos total (pos_part (f ss)) (omega arith) in
    ap (λ n. count_replicas f n (pointers rest)) next
    ∙ count_replicas-sum f (total + pos_part (f ss)) rest v.1 (omega arith)
    ∙ ap pos (omega arith)

sum_zero :
    (f : Subset → ℤ) (olds : List Subset)
    → All (λ ss. neg_part (f ss) ≡ 0) olds
    → sum_of (λ ss. pos_part (f ss)) olds ≡ 0
    → All (λ ss. f ss ≡ pos 0) olds
sum_zero f [] v z = tt
sum_zero f (ss ∷ rest) v z =
    (eq_of_parts _ _ (omega (arith, v.0)), sum_zero f rest v.1 (omega arith))

none_counted :
    (f : Subset → ℤ) (olds : List Subset)
    → All (λ ss. neg_part (f ss) ≡ 0) olds
    → sum_of (λ ss. pos_part (f ss)) olds < 2 ^ 31
    → ltb_ℤ (pos 0) (count_replicas f (pos 0) (pointers olds)) ≡ false
    → All (λ ss. f ss ≡ pos 0) olds
none_counted f olds v small h =
    let total = count_replicas-sum f 0 olds v (omega arith) in
    sum_zero f olds v (ground (arith, total))

after_error :
    (has_pod : Subset → Result Bool) (e : Error) (olds : List Subset)
    → list_pods_of has_pod (some e) olds ≢ ok false
unfolding list_pods_of
after_error has_pod e [] h = ground (arith, h)
after_error has_pod e (old ∷ rest) h = elim (Result-cases (has_pod old)) [
  | inl (x, q) ↦ after_error has_pod x rest (ground (arith, h, q))
  | inr (true, q) ↦ ground (arith, h, q)
  | inr (false, q) ↦ after_error has_pod e rest (ground (arith, h, q))
]

none_listed :
    (has_pod : Subset → Result Bool) (olds : List Subset)
    → list_pods_of has_pod none olds ≡ ok false
    → All (λ ss. has_pod ss ≡ ok false) olds
unfolding list_pods_of
none_listed has_pod [] h = tt
none_listed has_pod (old ∷ rest) h = elim (Result-cases (has_pod old)) [
  | inl (e, q) ↦ absurd (after_error has_pod e rest (ground (arith, h, q)))
  | inr (true, q) ↦ absurd (ground (arith, h, q))
  | inr (false, q) ↦ (q, none_listed has_pod rest (ground (arith, h, q)))
]

module _ (has_pod : Subset → Result Bool) where
  all-IsStopped :
      (olds : List Subset)
      → All (λ ss. ss.spec.replicas ≡ pos 0) olds
      → All (λ ss. ss.status.replicas ≡ pos 0) olds
      → All (λ ss. ss.status.available_replicas ≡ pos 0) olds
      → All (λ ss. has_pod ss ≡ ok false) olds
      → All (IsStopped has_pod) olds
  all-IsStopped [] a b d e = tt
  all-IsStopped (ss ∷ rest) a b d e = (
    record { no_replicas = a.0; no_pods = b.0; none_available = d.0; none_listed = e.0 },
    all-IsStopped rest a.1 b.1 d.1 e.1,
  )

  not_running :
      (olds : List Subset)
      → IsCounted olds
      → All (λ ss. ss.spec.replicas ≡ pos 0) olds
      → old_pods_running has_pod olds ≡ ok false
      → All (IsStopped has_pod) olds
  unfolding old_pods_running
  not_running olds v zero h =
      let pods = count_replicas (λ ss. ss.status.replicas) (pos 0) (pointers olds) in
      let available = count_replicas (λ ss. ss.status.available_replicas) (pos 0) (pointers olds) in
      elim (Bool-cases (ltb_ℤ (pos 0) pods)) [
        | inl e ↦ absurd (ground (arith, h, e))
        | inr e ↦ elim (Bool-cases (ltb_ℤ (pos 0) available)) [
          | inl q ↦ absurd (ground (arith, h, e, q))
          | inr q ↦
              all-IsStopped olds zero (none_counted _ olds v.pods_nonneg v.pods_small e)
                (none_counted _ olds v.available_nonneg v.available_small q)
                (none_listed has_pod olds (ground (arith, h, e, q)))
        ]
      ]

module _ (c : Client) (v : IsClient c) where
  abbrev Kept : ObjectKey → c.Server → c.Server → Type 0
  Kept j s t = c.get j t ≡ c.get j s

  scale_subset-Kept :
      (ss : Subset) (n : ℤ) (s : c.Server) (j : ObjectKey)
      → j ≢ object_key ss
      → Kept j s (state_of (scale_subset c ss n s))
  scale_subset-Kept ss n s j d = elim (Outcome-cases (scale_subset c ss n s)) [
    | inr (e, t, f) ↦ rw f ((scale_subset-HasScaled c v ss n s t).1 e f j)
    | inl (u, t, f) ↦
        let r = (scale_subset-HasScaled c v ss n s t).0 f in
        elim (Bool-cases (eqb_ℤ ss.spec.replicas n)) [
          | inl q ↦ rw f (ap (c.get j) (r.0 (eq_of_parts _ _ (ground (arith, q)))))
          | inr q ↦ rw f ((r.1 (λ e. absurd (ground (arith, q, e)))).1 j d)
        ]
  ]

  scale_down_all-Kept :
      (scaled : Bool) (olds : List Subset) (s : c.Server) (j : ObjectKey)
      → All (λ ss. j ≢ object_key ss) olds
      → Kept j s (state_of (scale_down_all c scaled olds s))
  unfolding scale_down_all
  scale_down_all-Kept scaled [] s j d = refl
  scale_down_all-Kept scaled (ss ∷ rest) s j d =
      elim (Bool-cases (eqb_ℤ ss.spec.replicas (pos 0))) [
        | inl e ↦ rw (e, scale_down_all) (scale_down_all-Kept scaled rest s j d.1)
        | inr e ↦
            let first = scale_subset-Kept ss (pos 0) s j d.0 in
            elim (Outcome-cases (scale_subset c ss (pos 0) s)) [
              | inr (x, t, f) ↦
                  let stop : scale_down_all c scaled (ss ∷ rest) s ≡ fail x t =
                    ground (arith, e, f) in
                  rw stop (ap (λ o. c.get j (state_of o)) (sym f) ∙ first)
              | inl (u, t, f) ↦
                  let more : scale_down_all c scaled (ss ∷ rest) s ≡ scale_down_all c true rest t =
                    ground (arith, e, f) in
                  rw more (
                    scale_down_all-Kept true rest t j d.1
                    ∙ ap (λ o. c.get j (state_of o)) (sym f)
                    ∙ first)
            ]
      ]

  was_scaled : (olds : List Subset) (s t : c.Server) → scale_down_all c true olds s ≢ done false t
  unfolding scale_down_all
  was_scaled [] s t h = ground (arith, h)
  was_scaled (ss ∷ rest) s t h = elim (Bool-cases (eqb_ℤ ss.spec.replicas (pos 0))) [
    | inl e ↦ was_scaled rest s t (ground (arith, h, e))
    | inr e ↦ elim (Outcome-cases (scale_subset c ss (pos 0) s)) [
      | inr (x, t', f) ↦ ground (arith, h, e, f)
      | inl (u, t', f) ↦ was_scaled rest t' t (ground (arith, h, e, f))
    ]
  ]

  scale_down_all-zero :
      (olds : List Subset) (s t : c.Server)
      → scale_down_all c false olds s ≡ done false t
      → All (λ ss. ss.spec.replicas ≡ pos 0) olds × (t ≡ s)
  unfolding scale_down_all
  scale_down_all-zero [] s t h = (tt, ground (arith, h))
  scale_down_all-zero (ss ∷ rest) s t h = elim (Bool-cases (eqb_ℤ ss.spec.replicas (pos 0))) [
    | inl e ↦
        let more = scale_down_all-zero rest s t (ground (arith, h, e)) in
        ((eq_of_parts _ _ (ground (arith, e)), more.0), more.1)
    | inr e ↦ elim (Outcome-cases (scale_subset c ss (pos 0) s)) [
      | inr (x, t', f) ↦ absurd (ground (arith, h, e, f))
      | inl (u, t', f) ↦ absurd (was_scaled rest t' t (ground (arith, h, e, f)))
    ]
  ]

  module _ (text : IntText) (templates : Templates c)
      (has_pod : c.Server → Subset → Result Bool) where
    -- Where the numbers of the old workloads' statuses are counts, a rollout that deletes all first
    -- leaves every object of the server as it is but the old workloads, whether it ends with an
    -- error or not; or else every old workload has no replicas, no pods and no available ones by its
    -- status, and the server lists no pod of it.
    pub rollout_delete_all_first-IsStopped :
        (region : String) (ri : RegionInfo) (s : c.Server) (j : ObjectKey)
        → IsCounted ri.olds
        → All (λ ss. j ≢ object_key ss) ri.olds
        → (c.get j (state_of (rollout_delete_all_first c text templates has_pod region ri s))
            ≡ c.get j s)
          ⊎ All (IsStopped (has_pod s)) ri.olds
    unfolding rollout_delete_all_first
    rollout_delete_all_first-IsStopped region ri s j counted d =
        let same = scale_down_all-Kept false ri.olds s j d in
        elim (Outcome-cases (scale_down_all c false ri.olds s)) [
          | inr (e, t, f) ↦
              inl (rw (f, rollout_delete_all_first) (ap (λ o. c.get j (state_of o)) (sym f) ∙ same))
          | inl (true, t, f) ↦
              inl (rw (f, rollout_delete_all_first) (ap (λ o. c.get j (state_of o)) (sym f) ∙ same))
          | inl (false, t, f) ↦
              let (zero, here) = scale_down_all-zero ri.olds s t f in
              let f' : scale_down_all c false ri.olds s ≡ done false s = f ∙ ap (done false) here in
              elim (Result-cases (old_pods_running (has_pod s) ri.olds)) [
                | inl (e, q) ↦ inl (rw (f', q, rollout_delete_all_first) refl)
                | inr (true, q) ↦ inl (rw (f', q, rollout_delete_all_first) refl)
                | inr (false, q) ↦ inr (not_running (has_pod s) ri.olds counted zero q)
              ]
        ]
