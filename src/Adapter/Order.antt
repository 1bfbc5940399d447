-- ===== src/Adapter/Order.antt =====
-- SubSetsByCreationTimestamp of pkg/controllers/extendeddeployment/adapter/subset.go, and sort.Sort,
-- here as insertion sort: as the test orders any two workloads of one namespace, every sorting
-- algorithm gives this list.
use Prim.Native.String.{compare}
use text.Mathlib.Text.{is_lt}
use extended_deployment.Base.{
  ◌≡◌, sum_of, refl, arith, ℕ, ◌+◌, List, [], ◌∷◌, Bool, false, ◌||◌, ltb, ◌==◌, if◌then◌else◌, All,
  Bool-cases, inl, inr,
}
use extended_deployment.Adapter.{Subset}

unfoldable pub less_creation : Subset → Subset → Bool
less_creation a b =
    if a.creation_timestamp == b.creation_timestamp
    then is_lt (compare a.name b.name)
    else ltb a.creation_timestamp b.creation_timestamp

abbrev pub any {ℓ} : {A : Type ℓ} → (A → Bool) → List A → Bool
any f [] = false
any f (x ∷ xs) = f x || any f xs

module _ {ℓ} {A : Type ℓ} (less : A → A → Bool) where
  unfoldable pub insert : A → List A → List A
  insert x [] = x ∷ []
  insert x (y ∷ ys) = if less x y then x ∷ y ∷ ys else y ∷ insert x ys

  unfoldable pub sort : List A → List A
  unfolding insert
  sort [] = []
  sort (x ∷ xs) = insert x (sort xs)

  pub insert-All {κ} : (P : A → Type κ) (x : A) (xs : List A) → P x → All P xs → All P (insert x xs)
  unfolding insert
  insert-All P x [] p ps = (p, tt)
  insert-All P x (y ∷ ys) p ps = elim (Bool-cases (less x y)) [
    | inl e ↦ rw e (p, ps)
    | inr e ↦ rw e (ps.0, insert-All P x ys p ps.1)
  ]

  pub sort-All {κ} : (P : A → Type κ) (xs : List A) → All P xs → All P (sort xs)
  unfolding sort
  sort-All P [] ps = tt
  sort-All P (x ∷ xs) ps = insert-All P x (sort xs) ps.0 (sort-All P xs ps.1)

  any-insert : (f : A → Bool) (x : A) (xs : List A) → any f (insert x xs) ≡ (f x || any f xs)
  unfolding insert
  any-insert f x [] = refl
  any-insert f x (y ∷ ys) = ground (arith, any-insert f x ys)

  pub any-sort : (f : A → Bool) (xs : List A) → any f (sort xs) ≡ any f xs
  unfolding sort
  any-sort f [] = refl
  any-sort f (x ∷ xs) = rw (any-insert f x (sort xs), any-sort f xs) refl

  sum_of-insert : (f : A → ℕ) (x : A) (xs : List A) → sum_of f (insert x xs) ≡ f x + sum_of f xs
  unfolding insert
  sum_of-insert f x [] = refl
  sum_of-insert f x (y ∷ ys) = ground (arith, sum_of-insert f x ys)

  pub sum_of-sort : (f : A → ℕ) (xs : List A) → sum_of f (sort xs) ≡ sum_of f xs
  unfolding sort
  sum_of-sort f [] = refl
  sum_of-sort f (x ∷ xs) = omega (arith, sum_of-insert f x (sort xs), sum_of-sort f xs)
