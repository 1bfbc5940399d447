-- ===== src/Labels/Sorting.antt =====
-- Two insertions into a list may change places, so that the order in which elements come does not matter for
-- a sorted list.
use extended_deployment.Base.{
  ◌≡◌, ◌⊎◌, ◌∙◌, ap, refl, sym, Bool, true, false, Bool-cases, inl, inr, List, [], ◌∷◌, arith,
}
use extended_deployment.Adapter.Order.{insert}

module _ {ℓ} {A : Type ℓ} (less : A → A → Bool) where
  -- One is less than the other, and not the other way round.
  abbrev pub Ordered : A → A → Type 0
  Ordered x y = ((less x y ≡ true) × (less y x ≡ false)) ⊎ ((less y x ≡ true) × (less x y ≡ false))

  alone : (x : A) → insert less x [] ≡ x ∷ []
  unfolding insert
  alone x = refl

  here : (x y : A) (l : List A) → less x y ≡ true → insert less x (y ∷ l) ≡ x ∷ y ∷ l
  unfolding insert
  here x y l h = rw h refl

  later : (x y : A) (l : List A) → less x y ≡ false → insert less x (y ∷ l) ≡ y ∷ insert less x l
  unfolding insert
  later x y l h = rw h refl

  module _ (trans : (x y z : A) → less x y ≡ true → less y z ≡ true → less x z ≡ true) where
    not_between : (x y z : A) → less y z ≡ true → less x z ≡ false → less x y ≡ false
    not_between x y z h k = elim (Bool-cases (less x y)) [
      | inl e ↦ absurd (ground (arith, trans x y z e h, k))
      | inr e ↦ e
    ]

    pub insert_comm :
        (x y : A) (l : List A)
        → Ordered x y
        → insert less x (insert less y l) ≡ insert less y (insert less x l)
    insert_comm x y [] (inl (h, k)) =
        rw (alone x, alone y) (here x y [] h ∙ sym (later y x [] k ∙ ap (λ r. x ∷ r) (alone y)))
    insert_comm x y [] (inr (h, k)) =
        rw (alone x, alone y) (later x y [] k ∙ ap (λ r. y ∷ r) (alone x) ∙ sym (here y x [] h))
    insert_comm x y (z ∷ l) o = elim (Bool-cases (less y z)) [
      | inl p ↦ elim (Bool-cases (less x z)) [
        | inl q ↦
            rw (here y z l p, here x z l q)
              (elim o [
                | inl (h, k) ↦
                    here x y (z ∷ l) h ∙ sym (later y x (z ∷ l) k ∙ ap (λ r. x ∷ r) (here y z l p))
                | inr (h, k) ↦
                    later x y (z ∷ l) k ∙ ap (λ r. y ∷ r) (here x z l q) ∙ sym (here y x (z ∷ l) h)
              ])
        | inr q ↦
            rw (here y z l p, later x z l q)
              (later x y (z ∷ l) (not_between x y z p q)
                ∙ ap (λ r. y ∷ r) (later x z l q)
                ∙ sym (here y z (insert less x l) p))
      ]
      | inr p ↦ elim (Bool-cases (less x z)) [
        | inl q ↦
            rw (later y z l p, here x z l q)
              (here x z (insert less y l) q
                ∙ sym (later y x (z ∷ l) (not_between y x z q p) ∙ ap (λ r. x ∷ r) (later y z l p)))
        | inr q ↦
            rw (later y z l p, later x z l q)
              (later x z (insert less y l) q
                ∙ ap (λ r. z ∷ r) (insert_comm x y l o)
                ∙ sym (later y z (insert less x l) p))
      ]
    ]
