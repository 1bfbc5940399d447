-- ===== src/Revisions/Target.antt =====
-- The revision that a number asks for (the choice in rollbackTo of
-- pkg/controllers/extendeddeployment/rollback.go).
use extended_deployment.Base.{
  ℤ, pos, pos_part, neg_part, false, eqb_ℤ, eq_of_parts, ◌≤◌, ◌≢◌, length, All, Memᴰ, Option, [],
  ◌∷◌, ◌++◌, ap, sym, ◌∙◌, ◌≡◌, inl, inr, ◌⊎◌, false, Bool-cases, List, none, some, arith,
}
use mathlib.Core.Option.{some-injective, none-ne-some}
use mathlib.Core.List.Memᴰ.{head, tail}
use extended_deployment.Revisions.{Specs, Revision, last_but_one, find_revision, target_revision}

numbers_differ : (m n : ℤ) → eqb_ℤ m n ≡ false → m ≢ n
numbers_differ m n e q = absurd (ground (arith, e, ap pos_part q, ap neg_part q))

module _ (x : Specs) where
  -- The revision that a number asks for in a sorted history: the last one before the newest for 0, and else
  -- one with that number.
  abbrev pub IsTarget : ℤ → List (Revision x) → Revision x → Type 0
  IsTarget number revisions rev =
      ((number ≡ pos 0)
        × (older : List (Revision x)) × (newest : Revision x) × (revisions
            ≡ older ++ (rev ∷ newest ∷ [])))
      ⊎ ((number ≢ pos 0) × (rev.revision ≡ number) × Memᴰ rev revisions)

  -- There is no such revision.
  abbrev pub HasNoTarget : ℤ → List (Revision x) → Type 0
  HasNoTarget number revisions =
      ((number ≡ pos 0) × (length revisions ≤ 1))
      ⊎ ((number ≢ pos 0) × All (λ rev. rev.revision ≢ number) revisions)

  last_but_one_lem :
      (revisions : List (Revision x)) (rev : Revision x)
      → last_but_one x revisions ≡ some rev
      → (older : List (Revision x)) × (newest : Revision x) × (revisions
          ≡ older ++ (rev ∷ newest ∷ []))
  last_but_one_lem [] rev h = absurd (ground (arith, h))
  last_but_one_lem (a ∷ []) rev h = absurd (ground (arith, h))
  last_but_one_lem (a ∷ b ∷ []) rev h = ([], b, ap (λ r. r ∷ b ∷ []) (some-injective a rev h))
  last_but_one_lem (a ∷ b ∷ c ∷ rest) rev h =
      let (older, newest, e) = last_but_one_lem (b ∷ c ∷ rest) rev h in
      (a ∷ older, newest, ap (λ l. a ∷ l) e)

  last_but_one-none :
      (revisions : List (Revision x)) → last_but_one x revisions ≡ none → length revisions ≤ 1
  last_but_one-none [] h = omega arith
  last_but_one-none (a ∷ []) h = omega arith
  last_but_one-none (a ∷ b ∷ []) h = absurd (ground (arith, h))
  last_but_one-none (a ∷ b ∷ c ∷ rest) h =
      absurd (omega (arith, last_but_one-none (b ∷ c ∷ rest) h))

  find_revision_lem :
      (number : ℤ) (revisions : List (Revision x)) (found : Option (Revision x)) (rev : Revision x)
      → find_revision x number revisions found ≡ some rev
      → (found ≡ some rev) ⊎ ((rev.revision ≡ number) × Memᴰ rev revisions)
  unfolding find_revision
  find_revision_lem number [] found rev h = inl h
  find_revision_lem number (r ∷ rest) found rev h = elim (Bool-cases (eqb_ℤ r.revision number)) [
    | inl e ↦
        let k : find_revision x number rest (some r) ≡ some rev = ground (arith, h, e) in
        elim (find_revision_lem number rest (some r) rev k) [
          | inl q ↦
              let same = some-injective r rev q in
              inr (
                ap (λ v. v.revision) (sym same) ∙ eq_of_parts r.revision number (ground (arith, e)),
                head (sym same),
              )
          | inr (q, m) ↦ inr (q, tail m)
        ]
    | inr e ↦
        let k : find_revision x number rest found ≡ some rev = ground (arith, h, e) in
        elim (find_revision_lem number rest found rev k) [
          | inl q ↦ inl q
          | inr (q, m) ↦ inr (q, tail m)
        ]
  ]

  find_revision-none :
      (number : ℤ) (revisions : List (Revision x)) (found : Option (Revision x))
      → find_revision x number revisions found ≡ none
      → (found ≡ none) × All (λ rev. rev.revision ≢ number) revisions
  unfolding find_revision
  find_revision-none number [] found h = (h, tt)
  find_revision-none number (r ∷ rest) found h = elim (Bool-cases (eqb_ℤ r.revision number)) [
    | inl e ↦
        let k : find_revision x number rest (some r) ≡ none = ground (arith, h, e) in
        absurd (none-ne-some r (sym (find_revision-none number rest (some r) k).0))
    | inr e ↦
        let k : find_revision x number rest found ≡ none = ground (arith, h, e) in
        let (none_before, others) = find_revision-none number rest found k in
        (none_before, (numbers_differ r.revision number e, others))
  ]

  pub target_revision_lem :
      (number : ℤ) (revisions : List (Revision x)) (rev : Revision x)
      → target_revision x number revisions ≡ some rev
      → IsTarget number revisions rev
  unfolding target_revision
  target_revision_lem number revisions rev h = elim (Bool-cases (eqb_ℤ number (pos 0))) [
    | inl e ↦
        let k : last_but_one x revisions ≡ some rev = ground (arith, h, e) in
        let (older, newest, all) = last_but_one_lem revisions rev k in
        inl (eq_of_parts number (pos 0) (ground (arith, e)), older, newest, all)
    | inr e ↦
        let k : find_revision x number revisions none ≡ some rev = ground (arith, h, e) in
        elim (find_revision_lem number revisions none rev k) [
          | inl q ↦ absurd (none-ne-some rev q)
          | inr (same, listed) ↦ inr (numbers_differ number (pos 0) e, same, listed)
        ]
  ]

  pub target_revision-none :
      (number : ℤ) (revisions : List (Revision x))
      → target_revision x number revisions ≡ none
      → HasNoTarget number revisions
  unfolding target_revision
  target_revision-none number revisions h = elim (Bool-cases (eqb_ℤ number (pos 0))) [
    | inl e ↦
        let k : last_but_one x revisions ≡ none = ground (arith, h, e) in
        inl (eq_of_parts number (pos 0) (ground (arith, e)), last_but_one-none revisions k)
    | inr e ↦
        let k : find_revision x number revisions none ≡ none = ground (arith, h, e) in
        inr (numbers_differ number (pos 0) e, (find_revision-none number revisions none k).1)
  ]
