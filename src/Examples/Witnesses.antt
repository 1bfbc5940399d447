-- ===== src/Examples/Witnesses.antt =====
-- Each property at a concrete input.
use extended_deployment.Replicas.Decimal.{cut_percent, digits3, parse_int32}
use extended_deployment.Webhook.{add_percent, percent_of}
use Prim.Native.Nat.{min, max}
use extended_deployment.Rolling.{reconcile_old_subsets}
use extended_deployment.Rolling.Errors.{reconcile_old_subsets-done}
use extended_deployment.Adapter.{done}
use extended_deployment.Base.{
  api_error, ap, eq_iff, Bool, add32, sub32, wrap32, String, not_integer, ℕ, ◌+◌, ◌-◌, ◌*◌, ◌/◌,
  ◌≤◌, ◌≡◌, ◌≢◌, inr, refl, pos, pos_part, ok, err, some, none, nil_pointer, List, [], ◌∷◌, All,
  sum_of, length, false, arith,
}
use extended_deployment.Api.{
  Strategy, UpdateStrategy, RollingUpdate, int, str, Region, ExtendedDeploymentSpec, in_place_set,
  rolling_update, group_rollout, beta_rollout,
}
use extended_deployment.Adapter.{Subset, Workload, ObjectKey}
use extended_deployment.StepControl.{min32}
use extended_deployment.Adapter.Order.{sort, less_creation}
use extended_deployment.StepControl.Rounds.{rounds, rounds_converge, group_rounds}
use extended_deployment.Replicas.{parse_region_replicas}
use extended_deployment.Replicas.Percent.{percent_text, parse_region_replicas-percent_text}
use extended_deployment.Webhook.{any_int, compare_replicas}
use extended_deployment.Webhook.Totals.{
  compare_replicas-Parsed, compare_replicas_nil_first, Parsed, sum,
}
use extended_deployment.Scaling.{
  get_replicas_count, cleanup_loop, shrink, edit_loop, with_replicas, scale_subset, object_key,
  cleanup_unhealthy_replicas,
}
use extended_deployment.Scaling.Server.{scale_subset-HasScaled}
use extended_deployment.Scaling.Cleanup.{cleanup_unhealthy_replicas_lem}
use extended_deployment.Scaling.Left.{HasDeletes, DistinctKeys, Left, OthersStay}
use extended_deployment.Scaling.Counts.{IsConsistent, replicas_of, available_of}
use extended_deployment.Rolling.{
  scale_down_old_loop, GetValue, new_rs_new_replicas, scale_down_old_subsets_for_rolling_update,
}
use extended_deployment.Rolling.ScaleDown.{scale_down_old_subsets_limit}
use extended_deployment.Rolling.Limits.{new_rs_new_replicas_bounds}
use extended_deployment.Examples.Store.{Store, client, client-IsClient, key_eq_refl, put}

abbrev update : UpdateStrategy
update = record { type = rolling_update; grace_period_seconds = pos 0; rolling_update = none }

abbrev group : Strategy
group = record {
  batch_size = pos 3;
  min_ready_seconds = pos 0;
  need_waiting_for_confirm = false;
  need_first_confirm = false;
  sync_wait_timeout = pos 60;
  rollout_strategy = group_rollout;
  pause = false;
  auto_reschedule = none;
  update_strategy = some update;
}

abbrev beta : Strategy
beta = record group { rollout_strategy = beta_rollout }

rounds_converge_example : rounds beta (pos 10) 10 (pos 0) ≡ pos 10
rounds_converge_example =
    rounds_converge beta 10 3 10 0 (omega arith) (omega arith) (omega arith) (omega arith) refl
      (inr refl) (omega arith) (omega arith)

group_rounds_example :
    (1 ≤ 10 → rounds group (pos 10) 2 (pos 1) ≡ pos (min (1 + 2 * 3) 10))
    × (10 ≤ 1 → rounds group (pos 10) 2 (pos 1) ≡ pos (max (1 - 2 * 3) 10))
group_rounds_example =
    group_rounds group 10 3 2 1 (omega arith) (omega arith) (omega arith) refl refl

parse_region_replicas-percent_text_example :
    parse_region_replicas (pos 7) (str (percent_text 33)) ≡ ok (pos ((7 * 33 + 50) / 100))
parse_region_replicas-percent_text_example = parse_region_replicas-percent_text 7 33 (omega arith)

abbrev percent_region : String → ℕ → Region
percent_region name p = record { name = name; replicas = some (str (percent_text p)) }

abbrev two_regions : ExtendedDeploymentSpec
two_regions = record {
  history_limit = pos 10;
  subset_type = in_place_set;
  strategy = group;
  replicas = some (pos 7);
  regions = percent_region "east" 30 ∷ percent_region "west" 70 ∷ [];
}

compare_replicas-Parsed_example :
    (ns : List ℕ) × Parsed (pos 7) two_regions.regions ns
    × (2 * sum ns ≤ 2 * 7 + length two_regions.regions)
    × (2 * 7 ≤ 2 * sum ns + length two_regions.regions)
unfolding percent_text any_int compare_replicas add_percent percent_of cut_percent digits3
    parse_int32
compare_replicas-Parsed_example =
    compare_replicas-Parsed two_regions 7 refl (omega arith) ((_, refl), ((_, refl), tt)) refl
      (omega arith) refl

abbrev no_replicas : Region
no_replicas = record { name = "east"; replicas = none }

abbrev one_replica : Region
one_replica = record { name = "west"; replicas = some (int (pos 1)) }

abbrev nil_first : ExtendedDeploymentSpec
nil_first = record two_regions { regions = no_replicas ∷ one_replica ∷ [] }

compare_replicas_nil_first_example : compare_replicas nil_first ≡ err nil_pointer
unfolding any_int
compare_replicas_nil_first_example =
    compare_replicas_nil_first nil_first 7 no_replicas (one_replica ∷ []) refl (omega arith) refl
      refl refl

abbrev workload : String → ℕ → ℕ → ℕ → Subset
workload name time replicas available = record {
  namespace = "shop";
  name = name;
  creation_timestamp = time;
  annotations = [];
  containers = [];
  spec = record { replicas = pos replicas; min_ready_seconds = pos 0 };
  status = record {
    replicas = pos replicas;
    ready_replicas = pos available;
    available_replicas = pos available;
    inplace_update_status = none;
  };
}

abbrev web : Subset
web = workload "web" 1 4 2

abbrev cart : Subset
cart = workload "cart" 2 3 3

abbrev store : Store
store =
    put (object_key web) (some (pos 4, [], []))
      (put (object_key cart) (some (pos 3, [], [])) (λ _. none))

abbrev scaled : Store
scaled = put (object_key web) (some (pos 6, [], [])) store

scale_subset-HasScaled_example :
    (web.spec.replicas ≡ pos 6 → scaled ≡ store)
    × (web.spec.replicas ≢ pos 6
        → ((w : Workload) × (client.get (object_key web) scaled ≡ ok w) × (w.replicas ≡ pos 6))
          × ((j : ObjectKey) → j ≢ object_key web → client.get j scaled ≡ client.get j store))
unfolding scale_subset edit_loop
scale_subset-HasScaled_example =
    (scale_subset-HasScaled client client-IsClient web (pos 6) store scaled).0 refl

abbrev consistent : (name : String) (time r a : ℕ) → a ≤ r → IsConsistent (workload name time r a)
consistent name time r a h = record {
  replicas_nonneg = refl;
  available_nonneg = refl;
  available_le = h;
}

abbrev olds : List Subset
olds = web ∷ cart ∷ []

abbrev olds-IsConsistent : All IsConsistent olds
olds-IsConsistent =
    (consistent "web" 1 4 2 (omega arith), (consistent "cart" 2 3 3 (omega arith), tt))

abbrev smaller : Subset
smaller = with_replicas web (pos 2)

abbrev cleaned : Store
cleaned = put (object_key web) (some (pos 2, [], [])) store

client-HasDeletes : HasDeletes client
client-HasDeletes = record { get-delete = λ d s t h. (api_error, ground (arith, key_eq_refl d)) }

names_differ : object_key web ≢ object_key cart
names_differ e = absurd (ground (arith, (eq_iff "web" "cart").1 (ap (λ k. k.name) e)))

abbrev olds-DistinctKeys : DistinctKeys olds
olds-DistinctKeys = ((names_differ, tt), (tt, tt))

cleanup_unhealthy_replicas_lem_example :
    (pos 2 ≡ pos (min 5 (sum_of replicas_of olds - sum_of available_of olds)))
    × (sum_of replicas_of olds ≡ pos_part (pos 2) + sum_of replicas_of (smaller ∷ cart ∷ []))
    × (sum_of available_of (smaller ∷ cart ∷ []) ≡ sum_of available_of olds)
    × All IsConsistent (smaller ∷ cart ∷ [])
    × Left client store cleaned (sort less_creation (web ∷ cart ∷ [])) (smaller ∷ cart ∷ [])
    × OthersStay client olds store cleaned
unfolding cleanup_unhealthy_replicas cleanup_loop sort less_creation sub32 min32 shrink scale_subset
    edit_loop add32
cleanup_unhealthy_replicas_lem_example =
    (cleanup_unhealthy_replicas_lem client client-IsClient client-HasDeletes 5 (web ∷ cart ∷ [])
        store cleaned (omega arith) olds-IsConsistent olds-DistinctKeys (omega arith)).0
      (pos 2) (smaller ∷ cart ∷ []) refl

-- A GetValue that knows numbers only.
abbrev get_int : GetValue
get_int (some (int n)) total up = ok n
get_int (some (str s)) total up = err not_integer
get_int none total up = err not_integer

abbrev rolling : RollingUpdate
rolling = record { max_surge = some (int (pos 2)); max_unavailable = some (int (pos 1)) }

new_rs_new_replicas_bounds_example :
    (n : ℕ) × (new_rs_new_replicas get_int rolling (web ∷ cart ∷ []) web (pos 6) ≡ ok (pos n))
    × (n ≡ min 6 (replicas_of web + (6 + 2 - sum_of replicas_of (web ∷ cart ∷ []))))
    × (replicas_of web ≤ n)
    × (n + (sum_of replicas_of (web ∷ cart ∷ []) - replicas_of web)
        ≤ max (6 + 2) (sum_of replicas_of (web ∷ cart ∷ [])))
new_rs_new_replicas_bounds_example =
    new_rs_new_replicas_bounds get_int rolling olds web 6 2 olds-IsConsistent olds-IsConsistent.0
      (omega arith) (omega arith) (omega arith) (omega arith) refl

scale_down_old_subsets_limit_example :
    (pos 2 ≡ pos (min (sum_of replicas_of olds - (6 - 1)) (sum_of replicas_of (cart ∷ []))))
    × ((left : List Subset) × Left client store
          (put (object_key cart) (some (pos 1, [], [])) store)
          (cart ∷ [])
          left
        × OthersStay client (cart ∷ []) store (put (object_key cart) (some (pos 1, [], [])) store)
        × (length left ≡ 1)
        × (sum_of replicas_of (cart ∷ []) ≡ pos_part (pos 2) + sum_of replicas_of left)
        × (min (6 - 1) (sum_of replicas_of olds)
            ≤ sum_of replicas_of left + (sum_of replicas_of olds - sum_of replicas_of (cart ∷ []))))
unfolding scale_down_old_subsets_for_rolling_update wrap32 get_replicas_count add32 sub32
    scale_down_old_loop min32 scale_subset edit_loop
scale_down_old_subsets_limit_example =
    scale_down_old_subsets_limit get_int client client-IsClient rolling olds (cart ∷ []) 6 1 store
      (put (object_key cart) (some (pos 1, [], [])) store) (pos 2) (omega arith) (omega arith)
      olds-IsConsistent olds-IsConsistent.1 (tt, tt) (omega arith) (omega arith) refl refl

reconcile_old_subsets-done_example :
    (b : Bool) × (t : Store) × (reconcile_old_subsets get_int client rolling
        (web ∷ cart ∷ [])
        (cart ∷ [])
        web
        (pos 6)
        store
      ≡ done b t)
reconcile_old_subsets-done_example =
    reconcile_old_subsets-done get_int client rolling (web ∷ cart ∷ []) (cart ∷ []) web (pos 6)
      store
