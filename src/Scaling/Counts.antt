-- ===== src/Scaling/Counts.antt =====
-- The replicas of workloads as numbers, and those of one round of the clean-up.
use Prim.Native.Nat.{min}
use mathlib.Core.Path.{ap₂}
use extended_deployment.Base.{
  ℕ, ◌+◌, ◌-◌, ◌≤◌, ◌<◌, ◌^◌, ◌≡◌, refl, ◌∙◌, ap, pos, pos_part, neg_part, eqb_ℤ, arith, false,
  eq_of_parts, sub32_pos, sub32,
}
use extended_deployment.Adapter.{Subset}
use extended_deployment.StepControl.{min32, min32_pos}
use extended_deployment.Scaling.{scale_count}

-- The counts of a workload are numbers, and it has no more available replicas than replicas.
pub record IsConsistent (ss : Subset) : Type 0 where
  pub replicas_nonneg : neg_part ss.spec.replicas ≡ 0
  pub available_nonneg : neg_part ss.status.available_replicas ≡ 0
  pub available_le : pos_part ss.status.available_replicas ≤ pos_part ss.spec.replicas

abbrev pub replicas_of : Subset → ℕ
replicas_of ss = pos_part ss.spec.replicas

abbrev pub available_of : Subset → ℕ
available_of ss = pos_part ss.status.available_replicas

-- The numbers of one round: how many replicas go, and how many stay.
pub record Round (max total : ℕ) (ss : Subset) : Type 0 where
  pub k : ℕ
  pub count : scale_count (pos max) (pos total) ss ≡ pos k
  pub left : sub32 ss.spec.replicas (pos k) ≡ pos (replicas_of ss - k)
  pub within : total + k ≤ max
  pub unavailable : k + available_of ss ≤ replicas_of ss
  pub exact : k ≡ min (replicas_of ss - available_of ss) (max - total)

pub replicas_of-Round :
    (max total : ℕ) (ss : Subset)
    → IsConsistent ss
    → replicas_of ss < 2 ^ 31
    → max < 2 ^ 31
    → total < max
    → eqb_ℤ ss.spec.replicas ss.status.available_replicas ≡ false
    → Round max total ss
unfolding scale_count
replicas_of-Round max total ss v small hm ht e =
    let r : ss.spec.replicas ≡ pos (replicas_of ss) = eq_of_parts _ _ (omega (arith, v)) in
    let a : ss.status.available_replicas ≡ pos (available_of ss) =
      eq_of_parts _ _ (omega (arith, v)) in
    let k : ℕ = min (replicas_of ss - available_of ss) (max - total) in
    let lt : available_of ss < replicas_of ss = ground arith in
    record {
      k = k;
      count =
          ap₂ (λ x y. min32 (sub32 x y) (sub32 (pos max) (pos total))) r a
          ∙ min32_pos (replicas_of ss) (available_of ss) max total v.available_le small ht hm;
      left = ap (λ x. sub32 x (pos k)) r ∙ sub32_pos (replicas_of ss) k (omega arith) small;
      within = omega arith;
      unavailable = omega (arith, v);
      exact = refl;
    }
