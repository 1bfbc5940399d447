-- ===== src/Scaling/Shrunk.antt =====
-- What the server holds of the workloads after the loop of cleanupUnhealthyReplicas.
use mathlib.Core.Logic.{◌≢◌}
use extended_deployment.Base.{
  leb_ℤ, ltb_ℤ, add32, sub32, ◌≡◌, sym, ◌∙◌, ap, subst, inl, inr, ℤ, pos, eqb_ℤ, Bool-cases, List,
  [], ◌∷◌, ◌++◌, All, arith,
}
use extended_deployment.Adapter.{
  Subset, ObjectKey, Client, IsClient, done, ◌>>◌, ◌>>=◌, >>=-eq-done,
}
use extended_deployment.Scaling.{
  object_key, with_replicas, scale_subset, delete_subset, shrink, M, cleanup_loop, scale_count,
}
use extended_deployment.Scaling.Left.{
  HasDeletes, DistinctKeys, Left, OthersStay, Left-refl, same_rest, scale_subset-Fate, Left-scaled,
  OthersStay-add,
}

module _ (c : Client) (v : IsClient c) where
  pub shrink-Left :
      HasDeletes c
      → (ss : Subset) (n : ℤ) (rest first left : List Subset) (s s' t : c.Server)
      → shrink c ss n s ≡ done first s'
      → All (λ y. object_key ss ≢ object_key y) rest
      → OthersStay c rest s' t
      → Left c s' t rest left
      → Left c s t (ss ∷ rest) (first ++ left) × OthersStay c (ss ∷ rest) s t
  unfolding shrink delete_subset
  shrink-Left deletes ss n rest first left s s' t h d others l =
      elim (Bool-cases (eqb_ℤ n (pos 0))) [
        | inl e ↦
            let run : (delete_subset c ss >> (λ s. done [] s)) s ≡ done first s' =
              ground (arith, h, e) in
            let (u, s2, e1, e2) = >>=-eq-done (delete_subset c ss) (λ _ s. done [] s) s run in
            let f : [] ≡ first = ground (arith, e2) in
            let e1' : c.delete (object_key ss) s ≡ done tt s' =
              e1 ∙ ap (done tt) (ground (arith, e2)) in
            let (x, none_found) = deletes.get-delete (object_key ss) s s' e1' in
            let frame : (j : ObjectKey) → j ≢ object_key ss → c.get j s' ≡ c.get j s =
              λ j k. v.get-delete_other (object_key ss) s s' j e1' k in
            (
              subst (λ l. Left c s t (ss ∷ rest) (l ++ left)) f
                  (Left.gone ss x rest left (others (object_key ss) d ∙ none_found)
                    (same_rest c v ss rest left s s' t frame d l)),
              OthersStay-add c v ss rest s s' t frame others,
            )
        | inr e ↦
            let run : (scale_subset c ss n >> (λ s. done (with_replicas ss n ∷ []) s)) s
                ≡ done first s' =
              ground (arith, h, e) in
            let (u, s2, e1, e2) =
              >>=-eq-done (scale_subset c ss n) (λ _ s. done (with_replicas ss n ∷ []) s) s run in
            let f : with_replicas ss n ∷ [] ≡ first = ground (arith, e2) in
            let fate = scale_subset-Fate c v ss n s s' (e1 ∙ ap (done tt) (ground (arith, e2))) in
            (
              subst (λ l. Left c s t (ss ∷ rest) (l ++ left)) f
                  (Left-scaled c v ss n rest left s s' t fate d others l),
              OthersStay-add c v ss rest s s' t fate.1 others,
            )
      ]

  abbrev put_first : List Subset → ℤ × List Subset → M c (ℤ × List Subset)
  put_first first r = done (r.0, first ++ r.1)

  abbrev go_on : ℤ → ℤ → List Subset → List Subset → M c (ℤ × List Subset)
  go_on max more rest first = cleanup_loop c max more rest >>= put_first first

  pub cleanup_loop-Left :
      HasDeletes c
      → (max total : ℤ) (all : List Subset) (s t : c.Server) (r : ℤ) (left : List Subset)
      → DistinctKeys all
      → cleanup_loop c max total all s ≡ done (r, left) t
      → Left c s t all left × OthersStay c all s t
  unfolding cleanup_loop
  cleanup_loop-Left deletes max total [] s t r left d h =
      let f : [] ≡ left = ground (arith, h) in
      let q : s ≡ t = ground (arith, h) in
      (subst (λ l. Left c s t [] l) f Left.nothing, λ j x. ap (c.get j) (sym q))
  cleanup_loop-Left deletes max total (ss ∷ rest) s t r left d h =
      elim (Bool-cases (leb_ℤ max total)) [
        | inl e ↦
            let f : ss ∷ rest ≡ left = ground (arith, h, e) in
            let q : s ≡ t = ground (arith, h, e) in
            (
              subst (λ u. Left c s u (ss ∷ rest) left) q
                  (subst (λ l. Left c s s (ss ∷ rest) l) f (Left-refl c s (ss ∷ rest))),
              λ j x. ap (c.get j) (sym q),
            )
        | inr e ↦ elim (Bool-cases (eqb_ℤ ss.spec.replicas ss.status.available_replicas)) [
          | inl q ↦
              let run : (cleanup_loop c max total rest >>= put_first (ss ∷ [])) s
                  ≡ done (r, left) t =
                ground (arith, h, e, q) in
              let (p, t', e1, e2) =
                >>=-eq-done (cleanup_loop c max total rest) (put_first (ss ∷ [])) s run in
              let e1' : cleanup_loop c max total rest s ≡ done (p.0, p.1) t =
                e1 ∙ ap (done (p.0, p.1)) (ground (arith, e2)) in
              let (later, others) = cleanup_loop-Left deletes max total rest s t p.0 p.1 d.1 e1' in
              (
                subst (λ l. Left c s t (ss ∷ rest) l) (ground (arith, e2))
                    (Left.kept ss rest p.1 (others (object_key ss) d.0) later),
                λ j x. others j x.1,
              )
          | inr q ↦
              let n = sub32 ss.spec.replicas (scale_count max total ss) in
              elim (Bool-cases (ltb_ℤ ss.spec.replicas n)) [
                | inl b ↦ absurd (ground (arith, h, e, q, b))
                | inr b ↦
                    let more = add32 total (scale_count max total ss) in
                    let run : (shrink c ss n >>= go_on max more rest) s ≡ done (r, left) t =
                      ground (arith, h, e, q, b) in
                    let (first, s', e1, e2) =
                      >>=-eq-done (shrink c ss n) (go_on max more rest) s run in
                    let (p, t', e3, e4) =
                      >>=-eq-done (cleanup_loop c max more rest) (put_first first) s' e2 in
                    let e3' : cleanup_loop c max more rest s' ≡ done (p.0, p.1) t =
                      e3 ∙ ap (done (p.0, p.1)) (ground (arith, e4)) in
                    let (later, others) =
                      cleanup_loop-Left deletes max more rest s' t p.0 p.1 d.1 e3' in
                    let (now, all_others) =
                      shrink-Left deletes ss n rest first p.1 s s' t e1 d.0 others later in
                    (subst (λ l. Left c s t (ss ∷ rest) l) (ground (arith, e4)) now, all_others)
              ]
        ]
      ]
