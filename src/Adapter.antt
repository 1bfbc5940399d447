-- ===== src/Adapter.antt =====
-- The workloads of one region, as the controller sees them whatever their kind is, and the calls
-- that change them (pkg/controllers/extendeddeployment/adapter/subset.go and the client of
-- sigs.k8s.io/controller-runtime, which is an interface here).
pub mod Order
use extended_deployment.Base.{
  err, api_error, ◌⊎◌, inl, inr, refl, arith, ℕ, ◌≡◌, ◌≢◌, String, ℤ, Bool, Option, List, Result,
  ok, Error,
}

pub record SubsetSpec : Type 0 where
  -- The pointer is never nil: the controller creates workloads with their replicas set.
  pub replicas : ℤ
  pub min_ready_seconds : ℤ

pub record InplaceUpdateStatus : Type 0 where
  pub available_replicas : ℤ
  pub pod_template_hash : String

pub record SubsetStatus : Type 0 where
  pub replicas : ℤ
  pub ready_replicas : ℤ
  pub available_replicas : ℤ
  pub inplace_update_status : Option InplaceUpdateStatus

-- A container of a template, by what an update in place can change.
pub record Container : Type 0 where
  pub name : String
  pub image : String

pub record Subset : Type 0 where
  pub namespace : String
  pub name : String
  pub creation_timestamp : ℕ
  pub annotations : List (String × String)
  pub containers : List Container
  pub spec : SubsetSpec
  pub status : SubsetStatus

pub record RegionInfo : Type 0 where
  pub new : Option Subset
  pub olds : List Subset
  pub replicas_desired : Bool
  pub available_desired : Bool
  pub desired_replicas : ℤ
  pub configured_replicas : ℤ

-- types.NamespacedName.
pub record ObjectKey : Type 0 where
  pub namespace : String
  pub name : String

-- A workload on the server, with the fields that the modelled calls write.
pub record Workload : Type 0 where
  pub key : ObjectKey
  pub replicas : ℤ
  pub annotations : List (String × String)
  pub containers : List Container

-- The end of a call that may change the server.
pub data Outcome (S A : Type 0) : Type 0 where
  done : A → S → Outcome S A
  fail : Error → S → Outcome S A

-- The state that a call leaves, with an error or without.
abbrev pub state_of : {S A : Type 0} → Outcome S A → S
state_of (done a s) = s
state_of (fail e s) = s

pub record Client : Type 1 where
  pub Server : Type 0
  pub get : ObjectKey → Server → Result Workload
  pub update : Workload → Server → Outcome Server (Unit {0})
  pub delete : ObjectKey → Server → Outcome Server (Unit {0})

-- What the code relies on: a call changes at most the object that it names, and a rejected call
-- changes nothing that a later read sees.
pub record IsClient (c : Client) : Type 0 where
  pub get_key : (k : ObjectKey) (s : c.Server) (w : Workload) → c.get k s ≡ ok w → w.key ≡ k
  pub get-update : (w : Workload) (s t : c.Server) → c.update w s ≡ done tt t → c.get w.key t ≡ ok w
  pub get-update_other :
      (w : Workload) (s t : c.Server) (k : ObjectKey)
      → c.update w s ≡ done tt t
      → k ≢ w.key
      → c.get k t ≡ c.get k s
  pub get-update_fail :
      (w : Workload) (s t : c.Server) (e : Error) (k : ObjectKey)
      → c.update w s ≡ fail e t
      → c.get k t ≡ c.get k s
  pub get-delete_other :
      (d : ObjectKey) (s t : c.Server) (k : ObjectKey)
      → c.delete d s ≡ done tt t
      → k ≢ d
      → c.get k t ≡ c.get k s
  pub get-delete_fail :
      (d : ObjectKey) (s t : c.Server) (e : Error) (k : ObjectKey)
      → c.delete d s ≡ fail e t
      → c.get k t ≡ c.get k s

-- The errors of a client are its own.
pub record HasApiErrors (c : Client) : Type 0 where
  pub get_error : (k : ObjectKey) (s : c.Server) (e : Error) → c.get k s ≡ err e → e ≡ api_error
  pub update_error :
      (w : Workload) (s t : c.Server) (e : Error) → c.update w s ≡ fail e t → e ≡ api_error
  pub delete_error :
      (k : ObjectKey) (s t : c.Server) (e : Error) → c.delete k s ≡ fail e t → e ≡ api_error

infixl 5 ◌>>=◌ ◌>>◌
abbrev pub ◌>>=◌ : {S A B : Type 0} → (S → Outcome S A) → (A → S → Outcome S B) → S → Outcome S B
◌>>=◌ m f s = elim (m s) [ done a t ↦ f a t | fail e t ↦ fail e t ]

abbrev pub ◌>>◌ : {S B : Type 0} → (S → Outcome S (Unit {0})) → (S → Outcome S B) → S → Outcome S B
m >> k = m >>= λ _. k

pub Outcome-cases :
    {S A : Type 0} (r : Outcome S A)
    → ((a : A) × (s : S) × (r ≡ done a s)) ⊎ ((e : Error) × (s : S) × (r ≡ fail e s))
Outcome-cases (done a s) = inl (a, s, refl)
Outcome-cases (fail e s) = inr (e, s, refl)

-- Inversion of a sequence that ends well.
pub >>=-eq-done :
    {S A B : Type 0} (m : S → Outcome S A) (f : A → S → Outcome S B) (s : S) {b : B} {u : S}
    → (m >>= f) s ≡ done b u
    → (a : A) × (t : S) × (m s ≡ done a t) × (f a t ≡ done b u)
>>=-eq-done m f s h = elim (Outcome-cases (m s)) [
  | inl (a, t, e) ↦ (a, t, e, ground arith)
  | inr (x, t, e) ↦ ground arith
]

pub >>=-eq-fail :
    {S A B : Type 0} (m : S → Outcome S A) (f : A → S → Outcome S B) (s : S) {x : Error} {u : S}
    → (m >>= f) s ≡ fail x u
    → (m s ≡ fail x u) ⊎ ((a : A) × (t : S) × (m s ≡ done a t) × (f a t ≡ fail x u))
>>=-eq-fail m f s h = elim (Outcome-cases (m s)) [
  | inl (a, t, e) ↦ inr (a, t, e, ground arith)
  | inr (y, t, e) ↦ inl (ground arith)
]
