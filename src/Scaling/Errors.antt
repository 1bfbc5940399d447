-- ===== src/Scaling/Errors.antt =====
-- A clean-up fails only where a call of the client fails.
use extended_deployment.Base.{
  api_error, Result-cases, ℕ, zero, suc, ◌+◌, ◌-◌, ◌<◌, ◌^◌, ◌≡◌, refl, sym, ◌∙◌, ℤ, pos, ok, err,
  Error, Result, inl, inr, eqb_ℤ, leb_ℤ, arith, Bool-cases, add32_pos, List, [], ◌∷◌, ◌++◌, All,
  sum_of,
}
use extended_deployment.Adapter.{
  HasApiErrors, >>=-eq-fail, Subset, ObjectKey, done, fail, Client, Outcome-cases,
}
use extended_deployment.Scaling.{
  scale_loop, edit_loop, set_replicas, object_key, shrink, cleanup_loop, scale_subset,
  delete_subset,
}
use extended_deployment.Scaling.Counts.{IsConsistent, replicas_of, replicas_of-Round}
use extended_deployment.Scaling.Removed.{rest_of, loop_cut}

module _ (c : Client) (w : HasApiErrors c) where
  scale_loop_error :
      (k : ObjectKey) (n : ℤ) (left : ℕ) (last : Result (Unit {0})) (s t : c.Server) (x : Error)
      → ((e : Error) → last ≡ err e → e ≡ api_error)
      → scale_loop c k n left last s ≡ fail x t
      → x ≡ api_error
  unfolding edit_loop
  scale_loop_error k n zero (ok u) s t x own h = absurd (ground arith)
  scale_loop_error k n zero (err e) s t x own h = ground (arith, own e refl)
  scale_loop_error k n (suc left) last s t x own h = elim (Result-cases (c.get k s)) [
    | inl (e, g) ↦ ground (arith, w.get_error k s e g)
    | inr (set, g) ↦ elim (Outcome-cases (c.update (set_replicas set n) s)) [
      | inl (u, t', f) ↦ absurd (ground arith)
      | inr (e, t', f) ↦
          scale_loop_error k n left (err e) t' t x
            (λ y q. ground (arith, w.update_error (set_replicas set n) s t' e f)) (ground arith)
    ]
  ]

  shrink_error :
      (ss : Subset) (n : ℤ) (s t : c.Server) (x : Error)
      → shrink c ss n s ≡ fail x t
      → x ≡ api_error
  unfolding shrink scale_subset delete_subset
  shrink_error ss n s t x h = elim (Bool-cases (eqb_ℤ n (pos 0))) [
    | inl e ↦ elim (Outcome-cases (c.delete (object_key ss) s)) [
      | inl (u, t', f) ↦ absurd (ground arith)
      | inr (y, t', f) ↦ ground (arith, w.delete_error (object_key ss) s t' y f)
    ]
    | inr e ↦ elim (Bool-cases (eqb_ℤ ss.spec.replicas n)) [
      | inl q ↦ absurd (ground arith)
      | inr q ↦ elim (Outcome-cases (scale_loop c (object_key ss) n 5 (ok tt) s)) [
        | inl (u, t', f) ↦ absurd (ground arith)
        | inr (y, t', f) ↦ ground (
          arith,
          scale_loop_error (object_key ss) n 5 (ok tt) s t' y (λ e q. absurd (ground arith)) f,
        )
      ]
    ]
  ]

  pub cleanup_loop_error :
      (max total : ℕ) (all : List Subset) (s t : c.Server) (x : Error)
      → max < 2 ^ 31
      → All IsConsistent all
      → sum_of replicas_of all < 2 ^ 31
      → cleanup_loop c (pos max) (pos total) all s ≡ fail x t
      → x ≡ api_error
  unfolding cleanup_loop
  cleanup_loop_error max total [] s t x hm v small h = absurd (ground arith)
  cleanup_loop_error max total (ss ∷ rest) s t x hm v small h =
      elim (Bool-cases (leb_ℤ (pos max) (pos total))) [
        | inl e ↦ absurd (ground arith)
        | inr e ↦ elim (Bool-cases (eqb_ℤ ss.spec.replicas ss.status.available_replicas)) [
          | inl q ↦
              elim (>>=-eq-fail {A = ℤ × List Subset} {B = ℤ × List Subset}
                (cleanup_loop c (pos max) (pos total) rest) (λ r. done (r.0, ss ∷ r.1)) s {x = x}
                {u = t} (ground arith)) [
                  | inl f ↦ cleanup_loop_error max total rest s t x hm v.1 (omega arith) f
                  | inr (p, t', e1, e2) ↦ absurd (ground arith)
                ]
          | inr q ↦
              let k = replicas_of-Round max total ss v.0 (omega arith) hm (ground arith) q in
              let h' =
                sym (
                  loop_cut c max total (replicas_of ss - k.k) k.k (total + k.k) ss rest s e q
                    k.count k.left (ground (arith, v.0))
                    (add32_pos total k.k (omega (arith, k.within))))
                ∙ h in
              elim (>>=-eq-fail {A = List Subset} {B = ℤ × List Subset}
                (shrink c ss (pos (replicas_of ss - k.k))) (rest_of c max (total + k.k) rest) s
                h') [
                  | inl f ↦ shrink_error ss _ s t x f
                  | inr (kept, t', e1, e2) ↦
                      elim (>>=-eq-fail {A = ℤ × List Subset} {B = ℤ × List Subset}
                        (cleanup_loop c (pos max) (pos (total + k.k)) rest)
                        (λ r. done (r.0, kept ++ r.1)) t' e2) [
                          | inl f ↦
                              cleanup_loop_error max (total + k.k) rest t' t x hm v.1 (omega arith)
                                f
                          | inr (p, t'', e3, e4) ↦ absurd (ground arith)
                        ]
                ]
        ]
      ]
