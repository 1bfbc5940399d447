-- ===== src/InplaceSet/Writes.antt =====
-- What a write of a pod leaves on the server, however often it was tried again.
use extended_deployment.Base.{
  ℕ, zero, suc, ◌≡◌, ◌≢◌, refl, sym, ap, ◌∙◌, Bool-cases, ok, Error, Result-cases, inl, inr, arith,
}
use extended_deployment.Adapter.{ObjectKey, Outcome, done, fail, state_of, Outcome-cases, ◌>>=◌}
use extended_deployment.InplaceSet.PodState.{Pod, Json}
use extended_deployment.InplaceSet.Update.{PodClient, retry_on_conflict, write_once}

-- A pod with the status of another: a write of one half leaves the other half.
abbrev pub with_status : Pod → Pod → Pod
with_status p status = record p {
  conditions = status.conditions;
  container_statuses = status.container_statuses;
}

-- What the code relies on: a call changes at most the pod that it names, the status only by a write of
-- the status, and all else only by the other write; a rejected call changes nothing.
pub record IsPodClient (c : PodClient) : Type 0 where
  pub get_key : (k : ObjectKey) (s : c.State) (p : Pod) → c.get k s ≡ ok p → p.key ≡ k
  pub get-update :
      (p old : Pod) (s t : c.State)
      → c.get p.key s ≡ ok old
      → c.update p s ≡ done tt t
      → c.get p.key t ≡ ok (with_status p old)
  pub get-update_status :
      (p old : Pod) (s t : c.State)
      → c.get p.key s ≡ ok old
      → c.update_status p s ≡ done tt t
      → c.get p.key t ≡ ok (with_status old p)
  pub get-update_other :
      (p : Pod) (s : c.State) (k : ObjectKey)
      → k ≢ p.key
      → c.get k (state_of (c.update p s)) ≡ c.get k s
  pub get-update_status_other :
      (p : Pod) (s : c.State) (k : ObjectKey)
      → k ≢ p.key
      → c.get k (state_of (c.update_status p s)) ≡ c.get k s
  pub get-update_fail :
      (p : Pod) (s t : c.State) (e : Error) (k : ObjectKey)
      → c.update p s ≡ fail e t
      → c.get k t ≡ c.get k s
  pub get-update_status_fail :
      (p : Pod) (s t : c.State) (e : Error) (k : ObjectKey)
      → c.update_status p s ≡ fail e t
      → c.get k t ≡ c.get k s

module _ (c : PodClient) where
  -- No read tells the two states apart.
  abbrev pub Same : c.State → c.State → Type 0
  Same s t = (k : ObjectKey) → c.get k t ≡ c.get k s

  -- Reads of all other pods are the same.
  abbrev pub OnlyAt : ObjectKey → c.State → c.State → Type 0
  OnlyAt k s t = (j : ObjectKey) → j ≢ k → c.get j t ≡ c.get j s

  pub >>=-OnlyAt :
      {A B : Type 0} (m : c.State → Outcome c.State A) (f : A → c.State → Outcome c.State B)
      (k : ObjectKey) (s : c.State)
      → OnlyAt k s (state_of (m s))
      → ((a : A) (t : c.State) → OnlyAt k t (state_of (f a t)))
      → OnlyAt k s (state_of ((m >>= f) s))
  >>=-OnlyAt m f k s first then j d = elim (Outcome-cases (m s)) [
    | inr (e, t, h) ↦ rw (h, ◌>>=◌) (ap (λ o. c.get j (state_of o)) (sym h) ∙ first j d)
    | inl (a, t, h) ↦
        rw (h, ◌>>=◌) (then a t j d ∙ ap (λ o. c.get j (state_of o)) (sym h) ∙ first j d)
  ]

  module _ {A : Type 0} (fn : c.State → Outcome c.State A)
      (fails : (s t : c.State) (e : Error) → fn s ≡ fail e t → Same s t) where
    pub retry_on_conflict-done :
        (n : ℕ) (a : A) (s t : c.State)
        → retry_on_conflict c.is_conflict n fn s ≡ done a t
        → (u : c.State) × Same s u × (fn u ≡ done a t)
    unfolding retry_on_conflict
    retry_on_conflict-done zero a s t h = (s, (λ k. refl), h)
    retry_on_conflict-done (suc n) a s t h = elim (Outcome-cases (fn s)) [
      | inl (b, u, e) ↦ (s, (λ k. refl), ground arith)
      | inr (x, u, e) ↦ elim (Bool-cases (c.is_conflict x)) [
        | inl y ↦
            let (v, same, last) = retry_on_conflict-done n a u t (ground arith) in
            (v, (λ k. same k ∙ fails s u x e k), last)
        | inr y ↦ absurd (ground arith)
      ]
    ]

    pub retry_on_conflict-fail :
        (n : ℕ) (e : Error) (s t : c.State)
        → retry_on_conflict c.is_conflict n fn s ≡ fail e t
        → Same s t
    unfolding retry_on_conflict
    retry_on_conflict-fail zero e s t h = fails s t e h
    retry_on_conflict-fail (suc n) e s t h = elim (Outcome-cases (fn s)) [
      | inl (b, u, q) ↦ absurd (ground arith)
      | inr (x, u, q) ↦ elim (Bool-cases (c.is_conflict x)) [
        | inl y ↦ λ k. retry_on_conflict-fail n e u t (ground arith) k ∙ fails s u x q k
        | inr y ↦ fails s t e (ground arith)
      ]
    ]

  -- A write, of a pod as it was read and then edited.
  module _ (json : Json) (write : Pod → c.State → Outcome c.State (Unit {0})) (edit : ℕ → Pod → Pod)
      (write_fail : (p : Pod) (s t : c.State) (e : Error) → write p s ≡ fail e t → Same s t) where
    write_once-fail :
        (k : ObjectKey) (s t : c.State) (e : Error)
        → write_once c json write edit k s ≡ fail e t
        → Same s t
    write_once-fail k s t e h = elim (Result-cases (c.get k s)) [
      | inl (x, g) ↦ λ j. ap (c.get j) (ground arith)
      | inr (p, g) ↦ write_fail (edit (c.now s) p) s t e (ground arith)
    ]

    -- What a write that ends well wrote, to a state that reads as the one before.
    pub written :
        (n : ℕ) (k : ObjectKey) (s t : c.State)
        → retry_on_conflict c.is_conflict n (write_once c json write edit k) s ≡ done tt t
        → (p : Pod) × (u : c.State) × Same s u
          × (c.get k u ≡ ok p)
          × (write (edit (c.now u) p) u ≡ done tt t)
    written n k s t h =
        let (u, same, last) =
          retry_on_conflict-done (write_once c json write edit k) (λ s t e. write_once-fail k s t e)
            n tt s t h in
        elim (Result-cases (c.get k u)) [
          | inl (x, g) ↦ absurd (ground arith)
          | inr (p, g) ↦ (p, u, same, g, ground arith)
        ]

    pub not_written :
        (n : ℕ) (k : ObjectKey) (s t : c.State) (e : Error)
        → retry_on_conflict c.is_conflict n (write_once c json write edit k) s ≡ fail e t
        → Same s t
    not_written n k s t e =
        retry_on_conflict-fail (write_once c json write edit k) (λ s t e. write_once-fail k s t e) n
          e s t

    pub written-OnlyAt :
        IsPodClient c
        → ((n : ℕ) (p : Pod) → (edit n p).key ≡ p.key)
        → ((p : Pod) (s : c.State) (k : ObjectKey)
            → k ≢ p.key
            → c.get k (state_of (write p s)) ≡ c.get k s)
        → (n : ℕ) (k : ObjectKey) (s : c.State)
        → OnlyAt k s
            (state_of (retry_on_conflict c.is_conflict n (write_once c json write edit k) s))
    written-OnlyAt v same_key other n k s j d =
        let run = retry_on_conflict c.is_conflict n (write_once c json write edit k) in
        elim (Outcome-cases (run s)) [
          | inr (e, t, h) ↦ rw h (not_written n k s t e h j)
          | inl (x, t, h) ↦
              let (p, u, same, g, w) = written n k s t h in
              let key : (edit (c.now u) p).key ≡ k = same_key (c.now u) p ∙ v.get_key k u p g in
              let kept = other (edit (c.now u) p) u j (λ q. d (q ∙ key)) in
              rw h (ap (λ o. c.get j (state_of o)) (sym w) ∙ kept ∙ same j)
        ]
