-- ===== src/InplaceSet/Batches.antt =====
-- The batches of calls against the same calls in one row.
use Prim.Native.Nat.{min}
use extended_deployment.Base.{
  ℕ, zero, suc, ◌+◌, ◌-◌, ◌^◌, ◌≤◌, ◌<◌, ◌≡◌, sym, subst, refl, ◌∙◌, ap, ◌⊎◌, inl, inr, List, [],
  ◌∷◌, length, Option, none, some, Error, arith,
}
use extended_deployment.Adapter.{Outcome, Outcome-cases}
use extended_deployment.InplaceSet.{int_min, next_batch, run_batch, batch_loop, slow_start_batch}

no_more_calls :
    (n remaining : ℕ) → suc n < 2 ^ 62 → next_batch (suc n) remaining ≡ 0 → remaining ≡ 0
no_more_calls n remaining w h = ground (arith, h, w)

module _ {S : Type 0} (fn : S → Outcome S (Unit {0})) where
  -- A batch fails: all calls before it have succeeded. It has as many calls as these and the first
  -- size, or all that are left.
  pub record Stopped (count initial : ℕ) (s : S) (result : (ℕ × Option Error) × S) : Type 0 where
    pub before : ℕ
    pub size : ℕ
    pub between : S
    pub all_succeed : run_batch fn before s ≡ ([], between)
    pub first_error : Error
    pub more_errors : List Error
    pub left : S
    pub batch_fails : run_batch fn size between ≡ (first_error ∷ more_errors, left)
    pub size_of_batch : size ≡ min (initial + before) (count - before)
    pub count_limit : before + size ≤ count
    pub not_empty : 0 < size
    pub answer :
        result ≡ ((before + (size - length (first_error ∷ more_errors)), some first_error), left)

  abbrev pub Batched : ℕ → ℕ → S → (ℕ × Option Error) × S → Type 0
  Batched count initial s result =
      ((t : S) × (run_batch fn count s ≡ ([], t)) × (result ≡ ((count, none), t)))
      ⊎ Stopped count initial s result

  -- Calls after calls that all succeed.
  run_batch_add :
      (m n : ℕ) (s t : S) → run_batch fn m s ≡ ([], t) → run_batch fn (m + n) s ≡ run_batch fn n t
  unfolding run_batch
  run_batch_add zero n s t h =
      let same : s ≡ t = ap (λ r. r.1) h in
      let none_more : 0 + n ≡ n = omega arith in
      ap (λ k. run_batch fn k s) none_more ∙ ap (λ x. run_batch fn n x) same
  run_batch_add (suc m) n s t h = elim (Outcome-cases (fn s)) [
    | inl (u, s', e) ↦
        let step : run_batch fn m s' ≡ ([], t) = ground (arith, h, e) in
        let one_more : suc m + n ≡ suc (m + n) = omega arith in
        ap (λ k. run_batch fn k s) one_more ∙ rw (e, run_batch) (run_batch_add m n s' t step)
    | inr (x, s', e) ↦ absurd (ground (arith, h, e))
  ]

  List-cases : (xs : List Error) → (xs ≡ []) ⊎ ((x : Error) × (rest : List Error) × (xs ≡ x ∷ rest))
  List-cases [] = inl refl
  List-cases (x ∷ rest) = inr (x, rest, refl)

  batch_loop_lem :
      (fuel size remaining successes initial : ℕ) (s0 s : S)
      → remaining < fuel
      → size ≤ remaining
      → (size ≡ 0 → remaining ≡ 0)
      → remaining + successes < 2 ^ 62
      → size ≡ min (initial + successes) remaining
      → run_batch fn successes s0 ≡ ([], s)
      → Batched (successes + remaining) initial s0 (batch_loop fn fuel size remaining successes s)
  unfolding batch_loop
  batch_loop_lem zero size remaining successes initial s0 s f b z w g h = absurd (omega (arith, f))
  batch_loop_lem (suc fuel) zero remaining successes initial s0 s f b z w g h =
      let none_left : successes ≡ successes + remaining = omega (arith, z refl) in
      inl (s, ap (λ k. run_batch fn k s0) (sym none_left) ∙ h, ap (λ k. ((k, none), s)) none_left)
  batch_loop_lem (suc fuel) (suc n) remaining successes initial s0 s f b z w g h =
      elim (List-cases ((run_batch fn (suc n) s).0)) [
        | inr (x, rest, e) ↦ inr (record {
          before = successes;
          size = suc n;
          between = s;
          all_succeed = h;
          first_error = x;
          more_errors = rest;
          left = (run_batch fn (suc n) s).1;
          batch_fails = ap (λ xs. (xs, (run_batch fn (suc n) s).1)) e;
          size_of_batch = omega (arith, g);
          count_limit = omega (arith, b);
          not_empty = omega arith;
          answer = rw (e, batch_loop) refl;
        })
        | inl e ↦
            let t = (run_batch fn (suc n) s).1 in
            let same : (successes + suc n) + (remaining - suc n) ≡ successes + remaining =
              omega (arith, b) in
            let later =
              batch_loop_lem fuel (next_batch (suc n) (remaining - suc n)) (remaining - suc n)
                (successes + suc n) initial s0 t (omega (arith, f)) (ground arith)
                (no_more_calls n (remaining - suc n) (omega (arith, w, b))) (omega (arith, w))
                (ground (arith, g, w, b))
                (run_batch_add successes (suc n) s0 s h ∙ ap (λ xs. (xs, t)) e) in
            rw (e, batch_loop)
              (subst
                (λ k. Batched k initial s0 (
                  batch_loop fn fuel (next_batch (suc n) (remaining - suc n)) (remaining - suc n)
                    (successes + suc n) t))
                same later)
      ]

  -- Of fewer than 2 ^ 62 calls in batches from a first size above 0: either all are made, and they
  -- succeed, and their number is the answer; or a batch fails, the answer is the number of all calls
  -- that succeeded with the first error, all calls before have succeeded, the failing batch has as many
  -- calls as these and the first size together, or all that are left, and no call is made after it.
  pub slow_start_batch_lem :
      (count initial : ℕ) (s : S)
      → count < 2 ^ 62
      → 0 < initial
      → Batched count initial s (slow_start_batch fn count initial s)
  unfolding slow_start_batch run_batch
  slow_start_batch_lem count initial s w i =
      subst (λ k. Batched k initial s (batch_loop fn (suc count) (int_min count initial) count 0 s))
        (omega arith)
        (batch_loop_lem (suc count) (int_min count initial) count 0 initial s s (omega arith)
          (ground arith) (λ q. ground (arith, q, i)) (omega (arith, w)) (ground arith) refl)
