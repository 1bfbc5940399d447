-- ===== src/Scaling/Server.antt =====
-- What a call that scales a workload leaves on the server.
use extended_deployment.Base.{
  ℕ, zero, suc, ◌≡◌, ◌≢◌, refl, sym, ◌∙◌, ap, ℤ, ok, err, Error, Result, Result-cases, inl, inr,
  ◌⊎◌, eqb_ℤ, arith, Bool-cases, eq_of_parts,
}
use extended_deployment.Adapter.{
  Subset, ObjectKey, Workload, done, fail, Client, IsClient, Outcome-cases,
}
use extended_deployment.Scaling.{object_key, set_replicas, edit_loop, scale_subset}

module _ (c : Client) (v : IsClient c) where
  -- The server holds the edit of this workload, and what it held for all others.
  abbrev pub HasEdited : (Workload → Workload) → ObjectKey → c.Server → c.Server → Type 0
  HasEdited edit k s t =
      ((set : Workload) × (c.get k t ≡ ok (edit set)))
      × ((j : ObjectKey) → j ≢ k → c.get j t ≡ c.get j s)

  module _ (edit : Workload → Workload) (same_key : (w : Workload) → (edit w).key ≡ w.key) where
    edit_once :
        (k : ObjectKey) (set : Workload) (s t : c.Server)
        → c.get k s ≡ ok set
        → c.update (edit set) s ≡ done tt t
        → HasEdited edit k s t
    edit_once k set s t g u =
        let key : (edit set).key ≡ k = same_key set ∙ v.get_key k s set g in
        (
          (set, rw (sym key) (v.get-update (edit set) s t u)),
          λ j d. v.get-update_other (edit set) s t j u (λ e. d (e ∙ key)),
        )

    -- The end of one round of the loop.
    edit_round :
        (k : ObjectKey) (left : ℕ) (last : Result (Unit {0})) (s t : c.Server)
        → edit_loop c edit k (suc left) last s ≡ done tt t
        → HasEdited edit k s t
          ⊎ ((e : Error) × (u : c.Server) × ((j : ObjectKey) → c.get j u ≡ c.get j s)
              × (edit_loop c edit k left (err e) u ≡ done tt t))
    unfolding edit_loop
    edit_round k left last s t h = elim (Result-cases (c.get k s)) [
      | inl (e, g) ↦ absurd (ground arith)
      | inr (set, g) ↦ elim (Outcome-cases (c.update (edit set) s)) [
        | inl (u, t', e) ↦
            let same : t' ≡ t = ground arith in inl (edit_once k set s t g (e ∙ ap (done tt) same))
        | inr (x, t', e) ↦ inr (x, t', (λ j. v.get-update_fail (edit set) s t' x j e), ground arith)
      ]
    ]

    pub edit_loop-HasEdited :
        (k : ObjectKey) (left : ℕ) (last : Result (Unit {0})) (s t : c.Server)
        → edit_loop c edit k (suc left) last s ≡ done tt t
        → HasEdited edit k s t
    unfolding edit_loop
    edit_loop-HasEdited k zero last s t h = elim (edit_round k zero last s t h) [
      | inl done_now ↦ done_now
      | inr (e, u, same, later) ↦ absurd (ground arith)
    ]
    edit_loop-HasEdited k (suc left) last s t h = elim (edit_round k (suc left) last s t h) [
      | inl done_now ↦ done_now
      | inr (e, u, same, later) ↦
          let (stored, others) = edit_loop-HasEdited k left (err e) u t later in
          (stored, λ j d. others j d ∙ same j)
    ]

    pub edit_loop_fail :
        (k : ObjectKey) (left : ℕ) (last : Result (Unit {0})) (s t : c.Server) (e : Error)
        → edit_loop c edit k left last s ≡ fail e t
        → (j : ObjectKey) → c.get j t ≡ c.get j s
    unfolding edit_loop
    edit_loop_fail k zero (ok u) s t e h j = absurd (ground arith)
    edit_loop_fail k zero (err x) s t e h j = ap (c.get j) (ground arith)
    edit_loop_fail k (suc left) last s t e h j = elim (Result-cases (c.get k s)) [
      | inl (x, g) ↦ ap (c.get j) (ground arith)
      | inr (set, g) ↦ elim (Outcome-cases (c.update (edit set) s)) [
        | inl (u, t', f) ↦ absurd (ground arith)
        | inr (x, t', f) ↦
            edit_loop_fail k left (err x) t' t e (ground arith) j
            ∙ v.get-update_fail (edit set) s t' x j f
      ]
    ]

  -- The server holds the number for this workload, and what it held for all others.
  abbrev pub HasScaled : ObjectKey → ℤ → c.Server → c.Server → Type 0
  HasScaled k n s t =
      ((w : Workload) × (c.get k t ≡ ok w) × (w.replicas ≡ n))
      × ((j : ObjectKey) → j ≢ k → c.get j t ≡ c.get j s)

  scaled :
      (k : ObjectKey) (n : ℤ) (s t : c.Server)
      → HasEdited (λ set. set_replicas set n) k s t
      → HasScaled k n s t
  scaled k n s t h = ((set_replicas h.0.0 n, h.0.1, refl), h.1)

-- A call of ScaleSubset that returns without an error has left the workload with the new number
-- on the server, or found that the number was the old one and sent nothing; other workloads are as
-- they were. A call that returns an error has changed no workload, however often it retried.
pub scale_subset-HasScaled :
    (c : Client)
    → IsClient c
    → (ss : Subset) (n : ℤ) (s t : c.Server)
    → (scale_subset c ss n s ≡ done tt t
        → (ss.spec.replicas ≡ n → t ≡ s)
          × (ss.spec.replicas ≢ n
              → ((w : Workload) × (c.get (object_key ss) t ≡ ok w) × (w.replicas ≡ n))
                × ((j : ObjectKey) → j ≢ object_key ss → c.get j t ≡ c.get j s)))
      × ((e : Error) → scale_subset c ss n s ≡ fail e t → (j : ObjectKey) → c.get j t ≡ c.get j s)
unfolding scale_subset
scale_subset-HasScaled c v ss n s t = elim (Bool-cases (eqb_ℤ ss.spec.replicas n)) [
  | inl e ↦ (
    (λ h. ((λ _. ground arith), (λ d. absurd (d (eq_of_parts _ _ (ground arith)))))),
    (λ x h j. absurd (ground arith)),
  )
  | inr e ↦ (
    (λ h. (
      (λ q. absurd (ground arith)),
      (λ d. scaled c v (object_key ss) n s t (
          edit_loop-HasEdited c v (λ set. set_replicas set n) (λ w. refl) (object_key ss) 4 (ok tt)
            s t (ground arith))),
    )),
    (λ x h j.
        edit_loop_fail c v (λ set. set_replicas set n) (λ w. refl) (object_key ss) 5 (ok tt) s t x
          (ground arith) j),
  )
]
