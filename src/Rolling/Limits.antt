-- ===== src/Rolling/Limits.antt =====
-- The limits of a rolling update: the surge above and the available replicas below.
use Prim.Native.Nat.{min, max}
use mathlib.Core.Path.{ap₂}
use extended_deployment.Base.{
  ℕ, ◌+◌, ◌-◌, ◌≤◌, ◌<◌, ◌^◌, ◌≡◌, ◌≢◌, refl, ◌∙◌, ap, ℤ, pos, IsInt32, ◌&&◌, wrap32_eq, add32,
  add32_pos, sub32, sub32_pos, leb_ℤ, Bool-cases, true, All, ◌⊎◌, false, ok, inl, inr, arith, List,
  [], ◌∷◌, Option, sum_of, eqb_ℤ, eq_of_parts,
}
use extended_deployment.Api.{IntOrString, RollingUpdate}
use extended_deployment.Adapter.{Subset}
use extended_deployment.StepControl.{min32}
use extended_deployment.Scaling.{get_replicas_count, count_from}
use extended_deployment.Scaling.Counts.{IsConsistent, replicas_of}
use extended_deployment.Rolling.{
  GetValue, value_or_zero, resolve_fenceposts, surge_to, new_rs_new_replicas,
}

surge_add :
    (d surge total n : ℕ)
    → d + surge < 2 ^ 31
    → total < d + surge
    → n ≤ d
    → add32 (pos n) (min32 (sub32 (pos (d + surge)) (pos total)) (sub32 (pos d) (pos n)))
      ≡ pos (min d (n + (d + surge - total)))
unfolding min32
surge_add d surge total n a b e =
    rw (sub32_pos (d + surge) total (omega arith) a, sub32_pos d n e (omega arith))
      (ground (arith, add32_pos n (d + surge - total), add32_pos n (d - n)))

surge_to_lem :
    (g : GetValue) (d surge total n : ℕ)
    → d + surge < 2 ^ 31
    → n ≤ d
    → surge_to g (pos d) (pos surge) (pos total) (pos n) ≡ pos (min d (n + (d + surge - total)))
unfolding surge_to
surge_to_lem g d surge total n a e =
    rw (wrap32_eq (pos surge) (omega arith, omega arith), add32_pos d surge a)
      (elim (Bool-cases (leb_ℤ (pos (d + surge)) (pos total))) [
        | inl h ↦ ground arith
        | inr h ↦ ground (arith, surge_add d surge total n a (ground arith) e)
      ])

count_from_lem :
    (start : ℕ) (all : List Subset)
    → All IsConsistent all
    → start + sum_of replicas_of all < 2 ^ 31
    → count_from (pos start) all ≡ pos (start + sum_of replicas_of all)
unfolding count_from
count_from_lem start [] v small = ap pos (omega arith)
count_from_lem start (ss ∷ rest) v small =
    let r : ss.spec.replicas ≡ pos (replicas_of ss) = eq_of_parts _ _ (omega (arith, v.0)) in
    rw (r, add32_pos start (replicas_of ss) (omega arith))
      (count_from_lem (start + replicas_of ss) rest v.1 (omega arith) ∙ ap pos (omega arith))

pub get_replicas_count_lem :
    (all : List Subset)
    → All IsConsistent all
    → sum_of replicas_of all < 2 ^ 31
    → get_replicas_count all ≡ pos (sum_of replicas_of all)
unfolding get_replicas_count
get_replicas_count_lem all v small =
    count_from_lem 0 all v (omega (arith, small)) ∙ ap pos (omega arith)

-- While the new workload has at most the desired replicas, a rolling update gives it as many as
-- the surge leaves room for beside the replicas that all workloads have, and never more than are
-- desired: it never shrinks, and the total never passes the desired replicas and the surge, unless
-- it has passed them before.
pub new_rs_new_replicas_bounds :
    (g : GetValue) (rolling : RollingUpdate) (all : List Subset) (new : Subset) (d surge : ℕ)
    → All IsConsistent all
    → IsConsistent new
    → sum_of replicas_of all < 2 ^ 31
    → d + surge < 2 ^ 31
    → replicas_of new ≤ d
    → replicas_of new ≤ sum_of replicas_of all
    → g rolling.max_surge (pos d) true ≡ ok (pos surge)
    → (n : ℕ) × (new_rs_new_replicas g rolling all new (pos d) ≡ ok (pos n))
      × (n ≡ min d (replicas_of new + (d + surge - sum_of replicas_of all)))
      × (replicas_of new ≤ n)
      × (n + (sum_of replicas_of all - replicas_of new) ≤ max (d + surge) (sum_of replicas_of all))
unfolding new_rs_new_replicas
new_rs_new_replicas_bounds g rolling all new d surge v w small hs le inside e =
    let r : new.spec.replicas ≡ pos (replicas_of new) = eq_of_parts _ _ (omega (arith, w)) in
    (
      min d (replicas_of new + (d + surge - sum_of replicas_of all)),
      rw (e, r, get_replicas_count_lem all v small, new_rs_new_replicas)
          (ap ok (surge_to_lem g d surge (sum_of replicas_of all) (replicas_of new) hs le)),
      refl,
      omega arith,
      omega arith,
    )

not_both : (a b : ℤ) → (eqb_ℤ a (pos 0) && eqb_ℤ b (pos 0)) ≡ false → (a ≢ pos 0) ⊎ (b ≢ pos 0)
not_both a b h = ground arith

-- The surge and the number of unavailable replicas of a rolling update are those that the strategy
-- sets, where an unset one counts as 0, but never both 0: then one replica may be unavailable, so
-- that the update can go on.
pub resolve_fenceposts_progress :
    (g : GetValue) (max_surge max_unavailable : Option IntOrString) (desired surge unavailable : ℤ)
    → IsInt32 surge
    → IsInt32 unavailable
    → g (value_or_zero max_surge) desired true ≡ ok surge
    → g (value_or_zero max_unavailable) desired true ≡ ok unavailable
    → (u : ℤ) × (resolve_fenceposts g max_surge max_unavailable desired ≡ ok (surge, u))
      × ((surge ≡ pos 0) × (unavailable ≡ pos 0) × (u ≡ pos 1)
          ⊎ ((surge ≢ pos 0) ⊎ (unavailable ≢ pos 0)) × (u ≡ unavailable))
unfolding resolve_fenceposts
resolve_fenceposts_progress g ms mu desired surge unavailable hs hu e f =
    elim (Bool-cases (eqb_ℤ surge (pos 0) && eqb_ℤ unavailable (pos 0))) [
      | inl h ↦ (
        pos 1,
        rw (e, f, h, resolve_fenceposts)
            (ap₂ (λ x y. ok (x, y)) (wrap32_eq surge hs)
              (wrap32_eq (pos 1) (omega arith, omega arith))),
        inl (eq_of_parts _ _ (ground arith), eq_of_parts _ _ (ground arith), refl),
      )
      | inr h ↦ (
        unavailable,
        rw (e, f, h, resolve_fenceposts)
            (ap₂ (λ x y. ok (x, y)) (wrap32_eq surge hs) (wrap32_eq unavailable hu)),
        inr (not_both surge unavailable h, refl),
      )
    ]
