-- ===== src/Examples/Pods.antt =====
-- In-place sets at concrete inputs.
use extended_deployment.Base.{
  ℕ, zero, suc, ◌≡◌, refl, true, false, ltb, if◌then◌else◌, List, [], ◌∷◌, some, api_error, arith,
}
use extended_deployment.Adapter.{Outcome, done, fail}
use extended_deployment.InplaceSet.{
  Pod, Control, run_batch, slow_start_batch, batch_loop, create_pod, manage_replicas,
}
use extended_deployment.InplaceSet.Batches.{Batched, slow_start_batch_lem}
use extended_deployment.InplaceSet.Approach.{Counts, OnTheWay, manage_replicas-OnTheWay}

-- A server with room for five pods; its state is the number of them.
abbrev create : ℕ → Outcome ℕ (Unit {0})
create n = if ltb n 5 then done tt (suc n) else fail api_error n

abbrev delete : ℕ → Outcome ℕ (Unit {0})
delete zero = fail api_error 0
delete (suc n) = done tt n

abbrev pods_of : List (Pod × ℕ) → List Pod
pods_of [] = []
pods_of ((pod, rank) ∷ rest) = pod ∷ pods_of rest

abbrev server : Control
server = record {
  State = ℕ;
  create = create;
  delete = λ name. delete;
  is_terminating = λ e. false;
  is_not_found = λ e. true;
  sort_ranked = pods_of;
}

abbrev server_counts : Counts server
server_counts = record {
  pods = λ n. n;
  create_grows = λ n. (ground arith, ground arith);
  delete_falls = λ name n. (ground arith, ground arith);
}

slow_start_batch_lem_example :
    Batched (create_pod server) 7 1 2 (slow_start_batch (create_pod server) 7 1 2)
slow_start_batch_lem_example =
    slow_start_batch_lem (create_pod server) 7 1 2 (omega arith) (omega arith)

-- The first batch of one succeeds, and of the second one both fail.
stopped : slow_start_batch create 7 1 4 ≡ ((1, some api_error), 5)
unfolding slow_start_batch batch_loop run_batch
stopped = refl

abbrev pod : Pod
pod = record { name = "web-1"; node_name = "n1"; is_active = true }

manage_replicas-OnTheWay_example :
    OnTheWay 200 2 7 (server_counts.pods (manage_replicas server 1 200 (pod ∷ pod ∷ []) [] 7 2).1)
manage_replicas-OnTheWay_example =
    manage_replicas-OnTheWay server server_counts 1 200 (pod ∷ pod ∷ []) [] 7 2 refl (omega arith)
      (omega arith)
