-- ===== src/DeployRegion/Tracking.antt =====
-- The pods that run on a node, as a list: what is expected of the cache.
use extended_deployment.Base.{
  String, str_eq, str_eq_other, eq_iff, ℕ, ◌+◌, ◌≡◌, ◌≢◌, refl, sym, ap, subst, Bool, true, false,
  Bool-cases, if◌then◌else◌, inl, inr, List, [], ◌∷◌, ◌++◌, All, Distinct, sum_of, lookup, put_key,
  delete_key, none, some, arith,
}
use extended_deployment.DeployRegion.Cache.{Pod, pod_key, is_finished}
use extended_deployment.DeployRegion.Requests.{Kind, requested, demand_of}

-- The specification: the list of the pods that run on a node, in the order in which they came.
abbrev pub has_key : String → List Pod → Bool
has_key key [] = false
has_key key (p ∷ rest) = if str_eq key (pod_key p) then true else has_key key rest

abbrev pub without : String → List Pod → List Pod
without key [] = []
without key (p ∷ rest) = if str_eq key (pod_key p) then without key rest else p ∷ without key rest

abbrev pub track : Pod → List Pod → List Pod
track pod live =
    if is_finished pod
    then without (pod_key pod) live
    else if has_key (pod_key pod) live
    then live
    else live ++ pod ∷ []

abbrev pub entries : List Pod → List (String × ℕ)
entries [] = []
entries (p ∷ rest) = (pod_key p, 0) ∷ entries rest

abbrev pub keys_of : List Pod → List String
keys_of [] = []
keys_of (p ∷ rest) = pod_key p ∷ keys_of rest

pub lookup-entries-none :
    (key : String) (live : List Pod) → has_key key live ≡ false → lookup key (entries live) ≡ none
lookup-entries-none key [] h = refl
lookup-entries-none key (p ∷ rest) h = elim (Bool-cases (str_eq key (pod_key p))) [
  | inl e ↦ absurd (ground arith)
  | inr e ↦ ground (arith, e, lookup-entries-none key rest)
]

pub lookup-entries-some :
    (key : String) (live : List Pod) → has_key key live ≡ true → lookup key (entries live) ≡ some 0
lookup-entries-some key [] h = absurd (ground arith)
lookup-entries-some key (p ∷ rest) h = elim (Bool-cases (str_eq key (pod_key p))) [
  | inl e ↦ ground (arith, e)
  | inr e ↦ ground (arith, e, lookup-entries-some key rest)
]

pub put_key-entries :
    (pod : Pod) (live : List Pod)
    → has_key (pod_key pod) live ≡ false
    → put_key (pod_key pod) 0 (entries live) ≡ entries (live ++ pod ∷ [])
put_key-entries pod [] h = refl
put_key-entries pod (p ∷ rest) h = elim (Bool-cases (str_eq (pod_key pod) (pod_key p))) [
  | inl e ↦ absurd (ground arith)
  | inr e ↦ ground (arith, e, put_key-entries pod rest)
]

pub delete_key-entries :
    (key : String) (live : List Pod) → delete_key key (entries live) ≡ entries (without key live)
delete_key-entries key [] = refl
delete_key-entries key (p ∷ rest) = elim (Bool-cases (str_eq key (pod_key p))) [
  | inl e ↦ ground (arith, e, delete_key-entries key rest)
  | inr e ↦ ground (arith, e, delete_key-entries key rest)
]

pub sum_of-append :
    (f : Pod → ℕ) (live : List Pod) (pod : Pod)
    → sum_of f (live ++ pod ∷ []) ≡ sum_of f live + f pod
sum_of-append f [] pod = omega arith
sum_of-append f (p ∷ rest) pod = omega (arith, sum_of-append f rest pod)

pub without_absent :
    (key : String) (live : List Pod) → has_key key live ≡ false → without key live ≡ live
without_absent key [] h = refl
without_absent key (p ∷ rest) h = elim (Bool-cases (str_eq key (pod_key p))) [
  | inl e ↦ absurd (ground arith)
  | inr e ↦ ground (arith, e, without_absent key rest)
]

absent :
    (key : String) (live : List Pod) → All (λ y. y ≢ key) (keys_of live) → has_key key live ≡ false
absent key [] d = refl
absent key (p ∷ rest) d =
    ground (arith, str_eq_other key (pod_key p) (λ e. d.0 (sym e)), absent key rest d.1)

pub sum_of-without :
    (k : Kind) (pod : Pod) (live : List Pod)
    → has_key (pod_key pod) live ≡ true
    → Distinct (keys_of live)
    → All (λ p. pod_key p ≡ pod_key pod → p.requests ≡ pod.requests) live
    → sum_of (demand_of k) live
      ≡ demand_of k pod + sum_of (demand_of k) (without (pod_key pod) live)
sum_of-without k pod [] h d same = absurd (ground arith)
sum_of-without k pod (p ∷ rest) h d same = elim (Bool-cases (str_eq (pod_key pod) (pod_key p))) [
  | inl e ↦
      let q : pod_key pod ≡ pod_key p = (eq_iff (pod_key pod) (pod_key p)).0 e in
      let none =
        absent (pod_key pod) rest (subst (λ z. All (λ y. y ≢ z) (keys_of rest)) (sym q) d.0) in
      let r : p.requests ≡ pod.requests = same.0 (sym q) in
      let s : demand_of k p ≡ demand_of k pod = ap (requested k) r in
      rw (e, without_absent (pod_key pod) rest none) (omega (arith, s))
  | inr e ↦ rw e (omega (arith, sum_of-without k pod rest (ground arith) d.1 same.1))
]

pub without-All :
    (P : Pod → Type 0) (key : String) (live : List Pod) → All P live → All P (without key live)
without-All P key [] h = tt
without-All P key (p ∷ rest) h = elim (Bool-cases (str_eq key (pod_key p))) [
  | inl e ↦ rw e (without-All P key rest h.1)
  | inr e ↦ rw e (h.0, without-All P key rest h.1)
]

keys_of-without :
    (x key : String) (live : List Pod)
    → All (λ y. y ≢ x) (keys_of live)
    → All (λ y. y ≢ x) (keys_of (without key live))
keys_of-without x key [] h = tt
keys_of-without x key (p ∷ rest) h = elim (Bool-cases (str_eq key (pod_key p))) [
  | inl e ↦ rw e (keys_of-without x key rest h.1)
  | inr e ↦ rw e (h.0, keys_of-without x key rest h.1)
]

pub without-Distinct :
    (key : String) (live : List Pod)
    → Distinct (keys_of live)
    → Distinct (keys_of (without key live))
without-Distinct key [] d = tt
without-Distinct key (p ∷ rest) d = elim (Bool-cases (str_eq key (pod_key p))) [
  | inl e ↦ rw e (without-Distinct key rest d.1)
  | inr e ↦ rw e (keys_of-without (pod_key p) key rest d.0, without-Distinct key rest d.1)
]

keys_of-append :
    (x : String) (live : List Pod) (pod : Pod)
    → All (λ y. y ≢ x) (keys_of live)
    → pod_key pod ≢ x
    → All (λ y. y ≢ x) (keys_of (live ++ pod ∷ []))
keys_of-append x [] pod h n = (n, tt)
keys_of-append x (p ∷ rest) pod h n = (h.0, keys_of-append x rest pod h.1 n)

pub append-Distinct :
    (live : List Pod) (pod : Pod)
    → has_key (pod_key pod) live ≡ false
    → Distinct (keys_of live)
    → Distinct (keys_of (live ++ pod ∷ []))
append-Distinct [] pod h d = (tt, tt)
append-Distinct (p ∷ rest) pod h d = elim (Bool-cases (str_eq (pod_key pod) (pod_key p))) [
  | inl e ↦ absurd (ground arith)
  | inr e ↦ (
    keys_of-append (pod_key p) rest pod d.0
        (λ q. absurd (ground (arith, (eq_iff (pod_key pod) (pod_key p)).1 q))),
    append-Distinct rest pod (ground arith) d.1,
  )
]
