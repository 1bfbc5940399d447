-- ===== src/Examples/Store.antt =====
-- A server that holds its workloads in a map: the client of the examples.
use mathlib.Core.Path.{ap₂}
use extended_deployment.Base.{
  ◌≡◌, ◌≢◌, refl, Bool, true, false, ◌&&◌, if◌then◌else◌, Bool-cases, inl, inr, String, str_eq,
  eq_iff, ℤ, List, Option, none, some, Result, ok, err, api_error, arith,
}
use extended_deployment.Adapter.{
  Container, ObjectKey, Workload, done, Client, IsClient, HasApiErrors,
}

abbrev pub key_eq : ObjectKey → ObjectKey → Bool
key_eq a b = str_eq a.namespace b.namespace && str_eq a.name b.name

abbrev pub Store : Type 0
Store = ObjectKey → Option (ℤ × List (String × String) × List Container)

abbrev pub get : ObjectKey → Store → Result Workload
get k s = elim (s k) [
  | none ↦ err api_error
  | some (n, a, cs) ↦ ok (record { key = k; replicas = n; annotations = a; containers = cs })
]

abbrev pub put : ObjectKey → Option (ℤ × List (String × String) × List Container) → Store → Store
put k x s j = if key_eq j k then x else s j

abbrev pub client : Client
client = record {
  Server = Store;
  get = get;
  update = λ w s. done tt (put w.key (some (w.replicas, w.annotations, w.containers)) s);
  delete = λ k s. done tt (put k none s);
}

pub key_eq_refl : (k : ObjectKey) → key_eq k k ≡ true
key_eq_refl k = rw ((eq_iff k.namespace k.namespace).1 refl, (eq_iff k.name k.name).1 refl) refl

pub key_eq_other : (j k : ObjectKey) → j ≢ k → key_eq j k ≡ false
key_eq_other j k d = elim (Bool-cases (key_eq j k)) [
  | inl e ↦ absurd (
      d (
        ap₂ (λ a b. record { namespace = a; name = b })
          ((eq_iff j.namespace k.namespace).0 (ground arith))
          ((eq_iff j.name k.name).0 (ground arith))))
  | inr e ↦ e
]

pub client-IsClient : IsClient client
client-IsClient = record {
  get_key = λ k s w h. ground arith;
  get-update = λ w s t h. ground (arith, key_eq_refl w.key);
  get-update_other = λ w s t k h d. ground (arith, key_eq_other k w.key d);
  get-update_fail = λ w s t e k h. absurd (ground arith);
  get-delete_other = λ d s t k h n. ground (arith, key_eq_other k d n);
  get-delete_fail = λ d s t e k h. absurd (ground arith);
}

pub client-HasApiErrors : HasApiErrors client
client-HasApiErrors = record {
  get_error = λ k s e h. ground arith;
  update_error = λ w s t e h. absurd (ground arith);
  delete_error = λ k s t e h. absurd (ground arith);
}
