-- ===== src/Scaling/Removed.antt =====
-- What the rounds of the clean-up remove, and what they keep.
use Prim.Native.Nat.{min}
use extended_deployment.Base.{
  ℕ, zero, suc, ◌+◌, ◌-◌, ◌≤◌, ◌≡◌, refl, ◌∙◌, ap, ℤ, pos, inl, inr, ◌⊎◌, eqb_ℤ, leb_ℤ, ltb_ℤ,
  arith, false, add32, sub32, List, [], ◌∷◌, ◌++◌, All, sum_of,
}
use extended_deployment.Adapter.{Subset, Outcome, done, Client, Outcome-cases, ◌>>=◌}
use extended_deployment.Scaling.{
  scale_count, shrink, cleanup_loop, with_replicas, scale_subset, delete_subset,
}
use extended_deployment.Scaling.Counts.{IsConsistent, replicas_of, available_of, Round}

-- What holds of the result of the clean-up of a list, from a count of what was removed before.
pub record Cleaned (max total : ℕ) (all : List Subset) (result : ℤ) (left : List Subset)
    : Type 0 where
  pub removed : ℕ
  pub is_removed : result ≡ pos (total + removed)
  pub exact : removed ≡ min (max - total) (sum_of replicas_of all - sum_of available_of all)
  pub replicas_fall : sum_of replicas_of all ≡ removed + sum_of replicas_of left
  pub available_stay : sum_of available_of left ≡ sum_of available_of all
  pub consistent : All IsConsistent left

available_le_replicas :
    (all : List Subset) → All IsConsistent all → sum_of available_of all ≤ sum_of replicas_of all
available_le_replicas [] v = omega arith
available_le_replicas (ss ∷ rest) v =
    omega (arith, v.0.available_le, available_le_replicas rest v.1)

pub unchanged :
    (max total : ℕ) (all left : List Subset) (r : ℤ)
    → All IsConsistent all
    → (max ≤ total) ⊎ (all ≡ [])
    → r ≡ pos total
    → left ≡ all
    → Cleaned max total all r left
unchanged max total all left r v stop er el =
    rw (er, el)
      (record {
        removed = 0;
        is_removed = ap pos (omega arith);
        exact = ground arith;
        replicas_fall = omega arith;
        available_stay = refl;
        consistent = v;
      })

pub keep-Cleaned :
    (max total : ℕ) (ss : Subset) (all left left' : List Subset) (r r' : ℤ)
    → IsConsistent ss
    → All IsConsistent all
    → replicas_of ss ≡ available_of ss
    → Cleaned max total all r' left'
    → r ≡ r'
    → left ≡ ss ∷ left'
    → Cleaned max total (ss ∷ all) r left
keep-Cleaned max total ss all left left' r r' v vs q w er el =
    rw (er, el)
      (record {
        removed = w.removed;
        is_removed = w.is_removed;
        exact = omega (arith, w.exact, q);
        replicas_fall = omega (arith, w.replicas_fall);
        available_stay = omega (arith, w.available_stay);
        consistent = (v, w.consistent);
      })

-- What a round keeps of a workload that it scales to a number.
pub Kept : Subset → ℕ → List Subset → Type 0
Kept ss n kept = ((n ≡ 0) × (kept ≡ [])) ⊎ (kept ≡ with_replicas ss (pos n) ∷ [])

pub shrink-Kept :
    (c : Client) (ss : Subset) (n : ℕ) (s t : c.Server) (kept : List Subset)
    → shrink c ss (pos n) s ≡ done kept t
    → Kept ss n kept
unfolding shrink Kept
shrink-Kept c ss zero s t kept h = elim (Outcome-cases (delete_subset c ss s)) [
  | inl (u, t', e) ↦ inl (refl, ground arith)
  | inr (x, t', e) ↦ absurd (ground arith)
]
shrink-Kept c ss (suc n) s t kept h = elim (Outcome-cases (scale_subset c ss (pos (suc n)) s)) [
  | inl (u, t', e) ↦ inr (ground arith)
  | inr (x, t', e) ↦ absurd (ground arith)
]

pub cut-Cleaned :
    (max total : ℕ) (ss : Subset) (all kept left left' : List Subset) (r r' : ℤ)
    → IsConsistent ss
    → All IsConsistent all
    → (k : Round max total ss) → Kept ss (replicas_of ss - k.k) kept
    → Cleaned max (total + k.k) all r' left'
    → r ≡ r'
    → left ≡ kept ++ left'
    → Cleaned max total (ss ∷ all) r left
unfolding Kept
cut-Cleaned max total ss all kept left left' r r' v vs k (inl (z, ek)) w er el =
    rw (er, el, ek)
      (record {
        removed = k.k + w.removed;
        is_removed = w.is_removed ∙ ap pos (omega arith);
        exact =
            omega (
              arith,
              w.exact,
              k.exact,
              k.unavailable,
              available_le_replicas all vs,
              v.available_le,
            );
        replicas_fall = omega (arith, w.replicas_fall, k.unavailable, z);
        available_stay = omega (arith, w.available_stay, k.unavailable, z);
        consistent = w.consistent;
      })
cut-Cleaned max total ss all kept left left' r r' v vs k (inr ek) w er el =
    rw (er, el, ek)
      (record {
        removed = k.k + w.removed;
        is_removed = w.is_removed ∙ ap pos (omega arith);
        exact =
            omega (
              arith,
              w.exact,
              k.exact,
              k.unavailable,
              available_le_replicas all vs,
              v.available_le,
            );
        replicas_fall = omega (arith, w.replicas_fall, k.unavailable);
        available_stay = omega (arith, w.available_stay);
        consistent = (
          record {
            replicas_nonneg = refl;
            available_nonneg = v.available_nonneg;
            available_le = omega (arith, k.unavailable);
          },
          w.consistent,
        );
      })

abbrev pub rest_of :
    (c : Client) (max total : ℕ)
    → List Subset
    → List Subset
    → c.Server
    → Outcome c.Server (ℤ × List Subset)
rest_of c max total rest kept =
    cleanup_loop c (pos max) (pos total) rest >>= λ r. done (r.0, kept ++ r.1)

pub loop_cut :
    (c : Client) (max total n k m : ℕ) (ss : Subset) (rest : List Subset) (s : c.Server)
    → leb_ℤ (pos max) (pos total) ≡ false
    → eqb_ℤ ss.spec.replicas ss.status.available_replicas ≡ false
    → scale_count (pos max) (pos total) ss ≡ pos k
    → sub32 ss.spec.replicas (pos k) ≡ pos n
    → ltb_ℤ ss.spec.replicas (pos n) ≡ false
    → add32 (pos total) (pos k) ≡ pos m
    → cleanup_loop c (pos max) (pos total) (ss ∷ rest) s
      ≡ (shrink c ss (pos n) >>= rest_of c max m rest) s
unfolding cleanup_loop
loop_cut c max total n k m ss rest s e q a b l d = rw (e, q, a, b, l, d)
