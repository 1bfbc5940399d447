-- ===== src/DeployRegion/Division.antt =====
-- How many replicas a resource can be divided into.
use Prim.Native.Nat.{min}
use native.Mathlib.Nat.{le-div_iff_mul-le}
use mathlib.Core.Logic.{◌↔◌}
use extended_deployment.Base.{
  ℕ, zero, suc, ◌-◌, ◌*◌, ◌/◌, ◌^◌, ◌≤◌, ◌<◌, ◌≡◌, refl, ℤ, pos, negsuc, pos_part, neg_part, [],
  ◌∷◌, All, arith,
}
use extended_deployment.DeployRegion.Resource.{
  ResourceList, cpu, memory, pods, ephemeral_storage, other, min_int64, quotient, divide_by,
  divide_one, divide_all, max_divided,
}
use extended_deployment.DeployRegion.Totals.{Entry, IsDemand, amounts}

module _ (c m s p : ℕ) where
  -- The resource holds what one entry asks for, this many times.
  abbrev pub Holds : ℕ → Entry → Type 0
  Holds n (cpu, q) = n * pos_part q.milli_value ≤ c
  Holds n (memory, q) = n * pos_part q.value ≤ m
  Holds n (pods, q) = Unit
  Holds n (ephemeral_storage, q) = n * pos_part q.value ≤ s
  Holds n (other x, q) = Unit

divide_by_lem :
    (res have : ℕ) (need : ℤ)
    → neg_part need ≡ 0
    → (k : ℕ) × (divide_by (pos res) (pos have) need ≡ pos k)
      × (k ≤ res)
      × ((n : ℕ) → (n ≤ k) ↔ ((n ≤ res) × (n * pos_part need ≤ have)))
unfolding divide_by min_int64 quotient
divide_by_lem res have (negsuc d) v = absurd (omega (arith, v))
divide_by_lem res have (pos zero) v =
    (res, refl, omega arith, λ n. ((λ h. (h, omega arith)), λ h. h.0))
divide_by_lem res have (pos (suc d)) v =
    let iff : (n : ℕ) → (n ≤ have / suc d) ↔ (n * suc d ≤ have) =
      λ n. le-div_iff_mul-le {k = suc d} {x = n} {y = have} (omega arith) in
    (
      min res (have / suc d),
      ground arith,
      omega arith,
      λ n.
          ((λ h. (omega arith, (iff n).0 (omega arith))), (λ h. omega (arith, h.0, (iff n).1 h.1))),
    )

module _ (c m s p : ℕ) where
  divide_one_lem :
      (res : ℕ) (e : Entry)
      → IsDemand e
      → (k : ℕ) × (divide_one (amounts c m s p) (pos res) e.0 e.1 ≡ pos k)
        × (k ≤ res)
        × ((n : ℕ) → (n ≤ k) ↔ ((n ≤ res) × Holds c m s p n e))
  unfolding divide_one
  divide_one_lem res (cpu, q) v = divide_by_lem res c q.milli_value v.0
  divide_one_lem res (memory, q) v = divide_by_lem res m q.value v.1
  divide_one_lem res (ephemeral_storage, q) v = divide_by_lem res s q.value v.1
  divide_one_lem res (pods, q) v = (res, refl, omega arith, λ n. ((λ h. (h, tt)), λ h. h.0))
  divide_one_lem res (other x, q) v = (res, refl, omega arith, λ n. ((λ h. (h, tt)), λ h. h.0))

  divide_all_lem :
      (res : ℕ) (rl : ResourceList)
      → All IsDemand rl
      → (k : ℕ) × (divide_all (amounts c m s p) (pos res) rl ≡ pos k)
        × (k ≤ res)
        × ((n : ℕ) → (n ≤ k) ↔ ((n ≤ res) × All (Holds c m s p n) rl))
  unfolding divide_all
  divide_all_lem res [] v = (res, refl, omega arith, λ n. ((λ h. (h, tt)), λ h. h.0))
  divide_all_lem res (e ∷ rest) v =
      let (k, eq, le, iff) = divide_one_lem res e v.0 in
      let (k', eq', le', iff') = divide_all_lem k rest v.1 in
      (
        k',
        rw (eq, divide_all) eq',
        omega (arith, le, le'),
        λ n. (
          (λ h. let (a, b) = (iff' n).0 h in let (x, y) = (iff n).0 a in (x, (y, b))),
          (λ h. (iff' n).1 ((iff n).1 (h.0, h.1.0), h.1.1)),
        ),
      )

-- The number of replicas that a resource can be divided into is the greatest one for which it holds
-- the CPU, the memory and the ephemeral storage that that many replicas ask for, within the pods that
-- it allows. Other kinds, such as devices, are not counted.
pub max_divided_lem :
    (c m s p : ℕ) (rl : ResourceList)
    → All IsDemand rl
    → p < 2 ^ 63
    → (k : ℕ) × (max_divided (amounts c m s p) rl ≡ pos k)
      × ((n : ℕ) → (n ≤ k) ↔ ((n ≤ p) × All (Holds c m s p n) rl))
unfolding max_divided min_int64
max_divided_lem c m s p rl v hp =
    let (k, eq, le, iff) = divide_all_lem c m s p (2 ^ 63 - 1) rl v in
    (
      min k p,
      ground (arith, eq),
      λ n. (
        (λ h. (omega arith, ((iff n).0 (omega arith)).1)),
        (λ h. omega (arith, h.0, (iff n).1 (omega (arith, h.0), h.1))),
      ),
    )
