-- ===== src/DeployRegion/Requests.antt =====
-- What pods ask for, and its sums.
use extended_deployment.Base.{
  ℕ, ◌+◌, ◌-◌, ◌^◌, ◌≤◌, ◌<◌, ◌≡◌, ◌∙◌, ap, pos, List, [], ◌∷◌, All, sum_of, arith,
}
use extended_deployment.DeployRegion.Resource.{Resource, ResourceList}
use extended_deployment.DeployRegion.Totals.{
  Entry, IsDemand, amounts, cpu_of, memory_of, pods_of, storage_of, add_lem, sub_lem, amounts_eq,
}
use extended_deployment.DeployRegion.Cache.{Pod, add_requests, sub_requests}

pub data Kind : Type 0 where
  cpu_kind memory_kind storage_kind pods_kind : Kind

abbrev pub amount_of : Kind → Entry → ℕ
amount_of cpu_kind = cpu_of
amount_of memory_kind = memory_of
amount_of storage_kind = storage_of
amount_of pods_kind = pods_of

-- The resource with this amount of each kind.
abbrev pub amounts_at : (Kind → ℕ) → Resource
amounts_at f = amounts (f cpu_kind) (f memory_kind) (f storage_kind) (f pods_kind)

pub amounts_at_eq : (f g : Kind → ℕ) → ((k : Kind) → f k ≡ g k) → amounts_at f ≡ amounts_at g
amounts_at_eq f g h =
    amounts_eq (ap pos (h cpu_kind)) (ap pos (h memory_kind)) (ap pos (h storage_kind))
      (ap pos (h pods_kind))

abbrev pub requested : Kind → List ResourceList → ℕ
requested k requests = sum_of (λ rl. sum_of (amount_of k) rl) requests

-- What a pod asks for.
abbrev pub demand_of : Kind → Pod → ℕ
demand_of k pod = requested k pod.requests

pub add_requests_lem :
    (f : Kind → ℕ) (requests : List ResourceList)
    → All (All IsDemand) requests
    → ((k : Kind) → f k + requested k requests < 2 ^ 63)
    → add_requests (amounts_at f) requests ≡ amounts_at (λ k. f k + requested k requests)
unfolding add_requests
add_requests_lem f [] v h = amounts_at_eq f (λ k. f k + 0) (λ k. omega arith)
add_requests_lem f (rl ∷ rest) v h =
    let small : (k : Kind) → f k + sum_of (amount_of k) rl < 2 ^ 63 = λ k. omega (arith, h k) in
    rw
      (
        add_lem (f cpu_kind) (f memory_kind) (f storage_kind) (f pods_kind) rl v.0 (small cpu_kind)
            (small memory_kind) (small storage_kind) (small pods_kind),
        add_requests,
      )
      (add_requests_lem (λ k. f k + sum_of (amount_of k) rl) rest v.1 (λ k. omega (arith, h k))
        ∙ amounts_at_eq (λ k. f k + sum_of (amount_of k) rl + requested k rest)
            (λ k. f k + requested k (rl ∷ rest)) (λ k. omega arith))

pub sub_requests_lem :
    (f : Kind → ℕ) (requests : List ResourceList)
    → All (All IsDemand) requests
    → ((k : Kind) → requested k requests ≤ f k)
    → ((k : Kind) → f k < 2 ^ 63)
    → sub_requests (amounts_at f) requests ≡ amounts_at (λ k. f k - requested k requests)
unfolding sub_requests
sub_requests_lem f [] v h small = amounts_at_eq f (λ k. f k - 0) (λ k. omega arith)
sub_requests_lem f (rl ∷ rest) v h small =
    let le : (k : Kind) → sum_of (amount_of k) rl ≤ f k = λ k. omega (arith, h k) in
    rw
      (
        sub_lem (f cpu_kind) (f memory_kind) (f storage_kind) (f pods_kind) rl v.0 (le cpu_kind)
            (le memory_kind) (le storage_kind) (le pods_kind) (small cpu_kind) (small memory_kind)
            (small storage_kind) (small pods_kind),
        sub_requests,
      )
      (sub_requests_lem (λ k. f k - sum_of (amount_of k) rl) rest v.1 (λ k. omega (arith, h k))
          (λ k. omega (arith, small k))
        ∙ amounts_at_eq (λ k. f k - sum_of (amount_of k) rl - requested k rest)
            (λ k. f k - requested k (rl ∷ rest)) (λ k. omega arith))
