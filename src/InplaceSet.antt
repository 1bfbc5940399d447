-- ===== src/InplaceSet.antt =====
-- In-place sets: calls of the API server in batches (slowStartBatch of
-- pkg/controllers/inplaceset/controller.go). The calls of a batch are the same, and each is one atomic
-- step, so that their order is that in which they end; a channel of errors is the list of them.
use extended_deployment.Base.{
  ℕ, zero, suc, ◌+◌, ◌-◌, ◌*◌, ◌^◌, ltb, if◌then◌else◌, ◌&&◌, take, String, str_eq, Bool, List, [],
  ◌∷◌, length, Option, none, some, Error,
}
use extended_deployment.Adapter.{Outcome, done, fail}
pub mod Batches
pub mod Approach
pub mod Conditions
pub mod PodState
pub mod PodConditions
pub mod Batch
pub mod Update
pub mod Choice
pub mod Writes
pub mod Images
pub mod Tried
pub mod Refresh
pub mod Status
pub mod Reported

abbrev pub int_min : ℕ → ℕ → ℕ
int_min a b = if ltb b a then b else a

-- The size of the next batch. Twice a size that has 62 bits wraps around to a negative int, which ends
-- the loop, as no calls do.
abbrev pub next_batch : ℕ → ℕ → ℕ
next_batch size remaining = if ltb (2 * size) (2 ^ 63) then int_min (2 * size) remaining else 0

module _ {S : Type 0} (fn : S → Outcome S (Unit {0})) where
  unfoldable pub run_batch : ℕ → S → List Error × S
  run_batch zero s = ([], s)
  run_batch (suc n) s = elim (fn s) [
    | done u t ↦ run_batch n t
    | fail e t ↦ (e ∷ (run_batch n t).0, (run_batch n t).1)
  ]

  -- The first argument bounds the number of batches.
  unfoldable pub batch_loop : ℕ → ℕ → ℕ → ℕ → S → (ℕ × Option Error) × S
  unfolding run_batch
  batch_loop zero size remaining successes s = ((successes, none), s)
  batch_loop (suc fuel) zero remaining successes s = ((successes, none), s)
  batch_loop (suc fuel) (suc n) remaining successes s = elim ((run_batch (suc n) s).0) [
    | e ∷ rest ↦ ((successes + (suc n - length (e ∷ rest)), some e), (run_batch (suc n) s).1)
    | [] ↦
        batch_loop fuel (next_batch (suc n) (remaining - suc n)) (remaining - suc n)
          (successes + suc n) (run_batch (suc n) s).1
  ]

  unfoldable pub slow_start_batch : ℕ → ℕ → S → (ℕ × Option Error) × S
  unfolding batch_loop
  slow_start_batch count initial s = batch_loop (suc count) (int_min count initial) count 0 s

-- A pod, by what the choice of pods to delete reads.
pub record Pod : Type 0 where
  pub name : String
  pub node_name : String
  pub is_active : Bool

-- The API server, and the order of pods by client-go's ActivePodsWithRanks.
pub record Control : Type 1 where
  pub State : Type 0
  pub create : State → Outcome State (Unit {0})
  pub delete : String → State → Outcome State (Unit {0})
  pub is_terminating : Error → Bool
  pub is_not_found : Error → Bool
  pub sort_ranked : List (Pod × ℕ) → List Pod

-- The active pods on a node.
abbrev pub pods_on_node : String → List Pod → ℕ
pods_on_node node [] = 0
pods_on_node node (pod ∷ rest) =
    if pod.is_active && str_eq pod.node_name node
    then suc (pods_on_node node rest)
    else pods_on_node node rest

unfoldable pub ranked : List Pod → List Pod → List (Pod × ℕ)
ranked [] related = []
ranked (pod ∷ rest) related = (pod, pods_on_node pod.node_name related) ∷ ranked rest related

module _ (c : Control) where
  -- What ends a create is an error, unless the namespace is going away.
  unfoldable pub create_pod : c.State → Outcome c.State (Unit {0})
  create_pod s = elim (c.create s) [
    | done u t ↦ done tt t
    | fail e t ↦ if c.is_terminating e then done tt t else fail e t
  ]

  unfoldable pub get_pods_to_delete : List Pod → List Pod → ℕ → List Pod
  unfolding ranked
  get_pods_to_delete pods related diff =
      take diff (if ltb diff (length pods) then c.sort_ranked (ranked pods related) else pods)

  unfoldable pub delete_pods : List Pod → c.State → List Error × c.State
  delete_pods [] s = ([], s)
  delete_pods (pod ∷ rest) s = elim (c.delete pod.name s) [
    | done u t ↦ delete_pods rest t
    | fail e t ↦
        let later = delete_pods rest t in if c.is_not_found e then later else (e ∷ later.0, later.1)
  ]

  abbrev first_of : List Error → Option Error
  first_of [] = none
  first_of (e ∷ rest) = some e

  -- `related` is empty where the related pods cannot be listed; `initial` is the first batch's size.
  unfoldable pub manage_replicas :
      (initial burst : ℕ) → List Pod → List Pod → ℕ → c.State → Option Error × c.State
  unfolding create_pod get_pods_to_delete delete_pods slow_start_batch
  manage_replicas initial burst pods related replicas s =
      if ltb (length pods) replicas
      then (let r =
            slow_start_batch create_pod (int_min (replicas - length pods) burst) initial s in
          (r.0.1, r.1))
      else if ltb replicas (length pods)
      then (let r =
            delete_pods (get_pods_to_delete pods related (int_min (length pods - replicas) burst))
              s in
          (first_of r.0, r.1))
      else (none, s)
