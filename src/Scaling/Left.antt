-- ===== src/Scaling/Left.antt =====
-- What the server holds of the workloads after calls that scale some of them and delete others.
use mathlib.Core.Logic.{◌≢◌}
use extended_deployment.Base.{
  All-map, ◌≡◌, refl, sym, ◌∙◌, ap, subst, ◌⊎◌, inl, inr, ℤ, eqb_ℤ, eq_of_parts, pos_part, neg_part,
  Bool-cases, List, [], ◌∷◌, All, Error, ok, err, arith,
}
use extended_deployment.Adapter.{Subset, ObjectKey, Workload, Client, IsClient, done}
use extended_deployment.Scaling.{object_key, with_replicas, scale_subset}
use extended_deployment.Scaling.Server.{scale_subset-HasScaled}

-- A workload that is deleted is not found by a later read: it has no finalizers.
pub record HasDeletes (c : Client) : Type 0 where
  pub get-delete :
      (d : ObjectKey) (s t : c.Server)
      → c.delete d s ≡ done tt t
      → (e : Error) × (c.get d t ≡ err e)

abbrev pub DistinctKeys : List Subset → Type 0
DistinctKeys [] = Unit
DistinctKeys (x ∷ xs) = All (λ y. object_key x ≢ object_key y) xs × DistinctKeys xs

module _ (c : Client) where
  -- The workloads of a list, and those that are left of it: the server holds each as before, or with
  -- the number of replicas that it is left with, or not any more.
  pub data Left (s t : c.Server) : List Subset → List Subset → Type 0 where
    nothing : Left s t [] []
    kept :
        (ss : Subset) (rest left : List Subset)
        → c.get (object_key ss) t ≡ c.get (object_key ss) s
        → Left s t rest left
        → Left s t (ss ∷ rest) (ss ∷ left)
    scaled :
        (ss : Subset) (n : ℤ) (w : Workload) (rest left : List Subset)
        → c.get (object_key ss) t ≡ ok w
        → w.replicas ≡ n
        → Left s t rest left
        → Left s t (ss ∷ rest) (with_replicas ss n ∷ left)
    gone :
        (ss : Subset) (e : Error) (rest left : List Subset)
        → c.get (object_key ss) t ≡ err e
        → Left s t rest left
        → Left s t (ss ∷ rest) left

  -- Every object that is not in a list is as before.
  abbrev pub OthersStay : List Subset → c.Server → c.Server → Type 0
  OthersStay all s t = (j : ObjectKey) → All (λ ss. j ≢ object_key ss) all → c.get j t ≡ c.get j s

  pub Left-refl : (s : c.Server) (all : List Subset) → Left s s all all
  Left-refl s [] = nothing
  Left-refl s (ss ∷ rest) = kept ss rest rest refl (Left-refl s rest)

  -- From an earlier state, in which the server holds the same of these workloads.
  pub Left-earlier :
      (s s' t : c.Server) {all left : List Subset}
      → All (λ ss. c.get (object_key ss) s' ≡ c.get (object_key ss) s) all
      → Left s' t all left
      → Left s t all left
  Left-earlier s s' t same nothing = nothing
  Left-earlier s s' t same (kept ss rest left e l) =
      kept ss rest left (e ∙ same.0) (Left-earlier s s' t same.1 l)
  Left-earlier s s' t same (scaled ss n w rest left e r l) =
      scaled ss n w rest left e r (Left-earlier s s' t same.1 l)
  Left-earlier s s' t same (gone ss x rest left e l) =
      gone ss x rest left e (Left-earlier s s' t same.1 l)

  module _ (v : IsClient c) where
    -- One workload after a call that scales it.
    abbrev pub Fate : Subset → ℤ → c.Server → c.Server → Type 0
    Fate ss n s t =
        (((ss.spec.replicas ≡ n) × (c.get (object_key ss) t ≡ c.get (object_key ss) s))
          ⊎ ((w : Workload) × (c.get (object_key ss) t ≡ ok w) × (w.replicas ≡ n)))
        × ((j : ObjectKey) → j ≢ object_key ss → c.get j t ≡ c.get j s)

    pub scale_subset-Fate :
        (ss : Subset) (n : ℤ) (s t : c.Server) → scale_subset c ss n s ≡ done tt t → Fate ss n s t
    scale_subset-Fate ss n s t h =
        let (same, other) = (scale_subset-HasScaled c v ss n s t).0 h in
        elim (Bool-cases (eqb_ℤ ss.spec.replicas n)) [
          | inl e ↦
              let q = eq_of_parts ss.spec.replicas n (ground (arith, e)) in
              (inl (q, ap (c.get (object_key ss)) (same q)), λ j d. ap (c.get j) (same q))
          | inr e ↦
              let d : ss.spec.replicas ≢ n =
                λ q. absurd (ground (arith, e, ap pos_part q, ap neg_part q)) in
              let (holds, others) = other d in (inr holds, others)
        ]

    pub same_rest :
        (ss : Subset) (rest left : List Subset) (s s' t : c.Server)
        → ((j : ObjectKey) → j ≢ object_key ss → c.get j s' ≡ c.get j s)
        → All (λ y. object_key ss ≢ object_key y) rest
        → Left s' t rest left
        → Left s t rest left
    same_rest ss rest left s s' t frame d l =
        Left-earlier s s' t (All-map (λ y q. frame (object_key y) (λ e. q (sym e))) rest d) l

    pub Left-scaled :
        (ss : Subset) (n : ℤ) (rest left : List Subset) (s s' t : c.Server)
        → Fate ss n s s'
        → All (λ y. object_key ss ≢ object_key y) rest
        → OthersStay rest s' t
        → Left s' t rest left
        → Left s t (ss ∷ rest) (with_replicas ss n ∷ left)
    Left-scaled ss n rest left s s' t fate d others l =
        let stays = others (object_key ss) d in
        let before = same_rest ss rest left s s' t fate.1 d l in
        elim fate.0 [
          | inl (q, e) ↦
              subst (λ m. Left s t (ss ∷ rest) (with_replicas ss m ∷ left)) q
                (kept ss rest left (stays ∙ e) before)
          | inr (w, e, r) ↦ scaled ss n w rest left (stays ∙ e) r before
        ]

    pub OthersStay-add :
        (ss : Subset) (rest : List Subset) (s s' t : c.Server)
        → ((j : ObjectKey) → j ≢ object_key ss → c.get j s' ≡ c.get j s)
        → OthersStay rest s' t
        → OthersStay (ss ∷ rest) s t
    OthersStay-add ss rest s s' t first others j d = others j d.1 ∙ first j d.0
