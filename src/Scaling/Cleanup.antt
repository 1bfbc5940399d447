-- ===== src/Scaling/Cleanup.antt =====
-- The clean-up of unavailable replicas as a whole.
use Prim.Native.Nat.{min}
use extended_deployment.Base.{
  ◌≢◌, api_error, ℕ, ◌+◌, ◌-◌, ◌<◌, ◌^◌, ◌≡◌, refl, sym, ◌∙◌, ap, ℤ, pos, pos_part, Error, inl, inr,
  eqb_ℤ, leb_ℤ, arith, Bool-cases, add32_pos, List, [], ◌∷◌, ◌++◌, All, sum_of,
}
use extended_deployment.Adapter.{HasApiErrors, IsClient, Subset, done, fail, Client, >>=-eq-done}
use extended_deployment.Adapter.Order.{
  less_creation, insert, insert-All, sort, sort-All, sum_of-sort,
}
use extended_deployment.Scaling.{object_key, shrink, cleanup_loop, cleanup_unhealthy_replicas}
use extended_deployment.Scaling.Counts.{IsConsistent, replicas_of, available_of, replicas_of-Round}
use extended_deployment.Scaling.Removed.{
  Cleaned, unchanged, keep-Cleaned, cut-Cleaned, shrink-Kept, rest_of, loop_cut,
}
use extended_deployment.Scaling.Left.{HasDeletes, DistinctKeys, Left, OthersStay}
use extended_deployment.Scaling.Shrunk.{cleanup_loop-Left}
use extended_deployment.Scaling.Errors.{cleanup_loop_error}

module _ (c : Client) (max : ℕ) (hm : max < 2 ^ 31) where
  cleanup_loop-Cleaned :
      (total : ℕ) (all : List Subset) (s t : c.Server) (r : ℤ) (left : List Subset)
      → All IsConsistent all
      → sum_of replicas_of all < 2 ^ 31
      → cleanup_loop c (pos max) (pos total) all s ≡ done (r, left) t
      → Cleaned max total all r left
  unfolding cleanup_loop
  cleanup_loop-Cleaned total [] s t r left v small h =
      unchanged max total [] left r tt (inr refl) (ground arith) (ground arith)
  cleanup_loop-Cleaned total (ss ∷ rest) s t r left v small h =
      elim (Bool-cases (leb_ℤ (pos max) (pos total))) [
        | inl e ↦
            unchanged max total (ss ∷ rest) left r v (inl (ground arith)) (ground arith)
              (ground arith)
        | inr e ↦ elim (Bool-cases (eqb_ℤ ss.spec.replicas ss.status.available_replicas)) [
          | inl q ↦
              let (p, t', e1, e2) =
                >>=-eq-done {A = ℤ × List Subset} {B = ℤ × List Subset}
                  (cleanup_loop c (pos max) (pos total) rest) (λ r. done (r.0, ss ∷ r.1)) s
                  {b = (r, left)} {u = t} (ground arith) in
              keep-Cleaned max total ss rest left p.1 r p.0 v.0 v.1 (ground (arith, v.0))
                (cleanup_loop-Cleaned total rest s t' p.0 p.1 v.1 (omega arith) e1) (ground arith)
                (ground arith)
          | inr q ↦
              let k = replicas_of-Round max total ss v.0 (omega arith) hm (ground arith) q in
              let h' =
                sym (
                  loop_cut c max total (replicas_of ss - k.k) k.k (total + k.k) ss rest s e q
                    k.count k.left (ground (arith, v.0))
                    (add32_pos total k.k (omega (arith, k.within))))
                ∙ h in
              let (kept, t', e1, e2) =
                >>=-eq-done {A = List Subset} {B = ℤ × List Subset}
                  (shrink c ss (pos (replicas_of ss - k.k))) (rest_of c max (total + k.k) rest) s
                  h' in
              let (p, t'', e3, e4) =
                >>=-eq-done {A = ℤ × List Subset} {B = ℤ × List Subset}
                  (cleanup_loop c (pos max) (pos (total + k.k)) rest) (λ r. done (r.0, kept ++ r.1))
                  t' e2 in
              cut-Cleaned max total ss rest kept left p.1 r p.0 v.0 v.1 k
                (shrink-Kept c ss _ s t' kept e1)
                (cleanup_loop-Cleaned (total + k.k) rest t' t'' p.0 p.1 v.1 (omega arith) e3)
                (ground arith) (ground arith)
        ]
      ]

insert-DistinctKeys :
    (x : Subset) (xs : List Subset)
    → All (λ y. object_key x ≢ object_key y) xs
    → DistinctKeys xs
    → DistinctKeys (insert less_creation x xs)
unfolding insert
insert-DistinctKeys x [] h d = (tt, tt)
insert-DistinctKeys x (y ∷ ys) h d = elim (Bool-cases (less_creation x y)) [
  | inl e ↦ rw e (h, d)
  | inr e ↦ rw e (
    insert-All less_creation (λ z. object_key y ≢ object_key z) x ys (λ q. h.0 (sym q)) d.0,
    insert-DistinctKeys x ys h.1 d.1,
  )
]

sort-DistinctKeys : (xs : List Subset) → DistinctKeys xs → DistinctKeys (sort less_creation xs)
unfolding sort
sort-DistinctKeys [] d = tt
sort-DistinctKeys (x ∷ xs) d =
    insert-DistinctKeys x (sort less_creation xs)
      (sort-All less_creation (λ y. object_key x ≢ object_key y) xs d.0) (sort-DistinctKeys xs d.1)

-- The clean-up of old workloads with different keys, whose counts are not negative and which have at most
-- as many available replicas as replicas by their status. It removes as many replicas as the limit
-- allows and as are not available, whatever workloads they are in. For each old workload, in the
-- order of creation, the server holds what it held, or the number of replicas that it is left
-- with, or it is deleted; what is left has the old replicas less the number returned, all that
-- are available by the statuses, and in no workload fewer replicas than available ones; all
-- other objects are as before. It fails only where a call of the client fails, so its own guard
-- against a scale-up never fires.
pub cleanup_unhealthy_replicas_lem :
    (c : Client)
    → IsClient c
    → HasDeletes c
    → (max : ℕ) (olds : List Subset) (s t : c.Server) → max < 2 ^ 31
    → All IsConsistent olds
    → DistinctKeys olds
    → sum_of replicas_of olds < 2 ^ 31
    → ((r : ℤ) (left : List Subset)
        → cleanup_unhealthy_replicas c olds (pos max) s ≡ done (r, left) t
        → (r ≡ pos (min max (sum_of replicas_of olds - sum_of available_of olds)))
          × (sum_of replicas_of olds ≡ pos_part r + sum_of replicas_of left)
          × (sum_of available_of left ≡ sum_of available_of olds)
          × All IsConsistent left
          × Left c s t (sort less_creation olds) left
          × OthersStay c olds s t)
      × (HasApiErrors c
          → (x : Error) → cleanup_unhealthy_replicas c olds (pos max) s ≡ fail x t
          → x ≡ api_error)
unfolding cleanup_unhealthy_replicas
cleanup_unhealthy_replicas_lem c v deletes max olds s t hm ok_counts keys small =
    let vs = sort-All less_creation IsConsistent olds ok_counts in
    let er = sum_of-sort less_creation replicas_of olds in
    let ea = sum_of-sort less_creation available_of olds in
    (
      (λ r left h.
          let w =
            cleanup_loop-Cleaned c max hm 0 (sort less_creation olds) s t r left vs
              (omega (arith, er)) h in
          let (holds, others) =
            cleanup_loop-Left c v deletes (pos max) (pos 0) (sort less_creation olds) s t r left
              (sort-DistinctKeys olds keys) h in
          (
            w.is_removed ∙ ap pos (omega (arith, w.exact, er, ea)),
            rw w.is_removed (omega (arith, w.replicas_fall, er)),
            w.available_stay ∙ ea,
            w.consistent,
            holds,
            λ j x. others j (sort-All less_creation (λ ss. j ≢ object_key ss) olds x),
          )),
      (λ w x h.
          cleanup_loop_error c w max 0 (sort less_creation olds) s t x hm vs (omega (arith, er)) h),
    )
