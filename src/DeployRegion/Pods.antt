-- ===== src/DeployRegion/Pods.antt =====
-- The pods of a node: what is allocated is the sum of what its running pods ask for.
use extended_deployment.Base.{
  ◌+◌, ◌-◌, ◌^◌, ◌<◌, ◌≡◌, sym, ◌∙◌, ap, true, false, Bool-cases, inl, inr, List, [], ◌∷◌, ◌++◌,
  All, All-append, Distinct, sum_of, lookup, put_key, delete_key, arith,
}
use extended_deployment.DeployRegion.Totals.{IsDemand}
use extended_deployment.DeployRegion.Cache.{
  Pod, NodeResourceCache, pod_key, is_finished, add_requests, sub_requests, on_pod_update,
}
use extended_deployment.DeployRegion.Requests.{
  Kind, amounts_at, amounts_at_eq, demand_of, add_requests_lem, sub_requests_lem,
}
use extended_deployment.DeployRegion.Tracking.{
  has_key, without, track, entries, keys_of, lookup-entries-none, lookup-entries-some,
  put_key-entries, delete_key-entries, sum_of-append, without_absent, sum_of-without, without-All,
  without-Distinct, append-Distinct,
}

-- A node keeps the running pods, and has allocated what they ask for.
pub record Accounts (node : NodeResourceCache) (live : List Pod) : Type 0 where
  pub keys : node.pods ≡ entries live
  pub distinct : Distinct (keys_of live)
  pub demands : All (λ p. All (All IsDemand) p.requests) live
  pub allocated : node.allocated ≡ amounts_at (λ k. sum_of (demand_of k) live)

-- The three ways in which an update of a pod can end.
update_end :
    (pod : Pod) (node : NodeResourceCache) (live : List Pod)
    → Accounts node live
    → is_finished pod ≡ true
    → has_key (pod_key pod) live ≡ true
    → All (All IsDemand) pod.requests
    → All (λ p. pod_key p ≡ pod_key pod → p.requests ≡ pod.requests) live
    → ((k : Kind) → sum_of (demand_of k) live < 2 ^ 63)
    → Accounts
        (record node {
          pods = delete_key (pod_key pod) node.pods;
          allocated = sub_requests node.allocated pod.requests;
        })
        (without (pod_key pod) live)
update_end pod node live a f h v same small =
    let sums : (k : Kind)
        → sum_of (demand_of k) live
          ≡ demand_of k pod + sum_of (demand_of k) (without (pod_key pod) live) =
      λ k. sum_of-without k pod live h a.distinct same in
    record {
      keys = ap (delete_key (pod_key pod)) a.keys ∙ delete_key-entries (pod_key pod) live;
      distinct = without-Distinct (pod_key pod) live a.distinct;
      demands = without-All (λ p. All (All IsDemand) p.requests) (pod_key pod) live a.demands;
      allocated =
          ap (λ r. sub_requests r pod.requests) a.allocated
          ∙ sub_requests_lem (λ k. sum_of (demand_of k) live) pod.requests v
              (λ k. omega (arith, sums k)) small
          ∙ amounts_at_eq (λ k. sum_of (demand_of k) live - demand_of k pod)
              (λ k. sum_of (demand_of k) (without (pod_key pod) live)) (λ k. omega (arith, sums k));
    }

update_start :
    (pod : Pod) (node : NodeResourceCache) (live : List Pod)
    → Accounts node live
    → has_key (pod_key pod) live ≡ false
    → All (All IsDemand) pod.requests
    → ((k : Kind) → sum_of (demand_of k) live + demand_of k pod < 2 ^ 63)
    → Accounts
        (record node {
          pods = put_key (pod_key pod) 0 node.pods;
          allocated = add_requests node.allocated pod.requests;
        })
        (live ++ pod ∷ [])
update_start pod node live a h v small = record {
  keys = ap (put_key (pod_key pod) 0) a.keys ∙ put_key-entries pod live h;
  distinct = append-Distinct live pod h a.distinct;
  demands = All-append (λ p. All (All IsDemand) p.requests) live (pod ∷ []) a.demands (v, tt);
  allocated =
      ap (λ r. add_requests r pod.requests) a.allocated
      ∙ add_requests_lem (λ k. sum_of (demand_of k) live) pod.requests v small
      ∙ amounts_at_eq (λ k. sum_of (demand_of k) live + demand_of k pod)
          (λ k. sum_of (demand_of k) (live ++ pod ∷ []))
          (λ k. sym (sum_of-append (demand_of k) live pod));
}

-- However the events of a pod come, once or again: where the requests of a pod never change, a
-- node keeps exactly the pods that run, and what it has allocated is the sum of what they ask for;
-- a pod that ends gives back all that it took.
pub on_pod_update-Accounts :
    (pod : Pod) (node : NodeResourceCache) (live : List Pod)
    → Accounts node live
    → All (All IsDemand) pod.requests
    → All (λ p. pod_key p ≡ pod_key pod → p.requests ≡ pod.requests) live
    → ((k : Kind) → sum_of (demand_of k) live + demand_of k pod < 2 ^ 63)
    → Accounts (on_pod_update pod node) (track pod live)
unfolding on_pod_update
on_pod_update-Accounts pod node live a v same small =
    elim (Bool-cases (has_key (pod_key pod) live)) [
      | inl h ↦
          let e = ap (lookup (pod_key pod)) a.keys ∙ lookup-entries-some (pod_key pod) live h in
          elim (Bool-cases (is_finished pod)) [
            | inl f ↦
                rw (e, f, on_pod_update)
                  (update_end pod node live a f h v same (λ k. omega (arith, small k)))
            | inr f ↦ rw (e, f, h, on_pod_update) a
          ]
      | inr h ↦
          let e = ap (lookup (pod_key pod)) a.keys ∙ lookup-entries-none (pod_key pod) live h in
          elim (Bool-cases (is_finished pod)) [
            | inl f ↦ rw (e, f, without_absent (pod_key pod) live h, on_pod_update) a
            | inr f ↦ rw (e, f, h, on_pod_update) (update_start pod node live a h v small)
          ]
    ]
