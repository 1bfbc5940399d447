-- ===== src/Labels/Texts.antt =====
-- The order of texts, which sorts the keys of labels.
use Prim.Native.Nat.{Ordering, compare as compare_ℕ}
use Prim.Native.Nat.Ordering.{lt, eq, gt}
use Prim.Native.Char.{code}
use Prim.Native.String.{compare, then}
use Prim.Native.String.compare.{nil-nil, nil-cons, cons-nil, cons-cons}
use text.Mathlib.Text.{is_lt}
use text.Mathlib.TextEquality.{path_by_compare}
use native.Mathlib.Omega.{compare-lt, compare-eq, compare-gt}
use mathlib.Core.Bool.{true≢false}
use extended_deployment.Base.{
  String, ℕ, Bool, subst, ◌<◌, ◌≡◌, ◌≢◌, ◌⊎◌, ◌∙◌, inl, inr, refl, sym, ap, true, false, arith,
}

Ordering-cases : (o : Ordering) → (o ≡ lt) ⊎ (o ≡ eq) ⊎ (o ≡ gt)
Ordering-cases lt = inl refl
Ordering-cases eq = inr (inl refl)
Ordering-cases gt = inr (inr refl)

less_number : (m n : ℕ) → m < n → compare_ℕ m n ≡ lt
less_number m n h = elim (Ordering-cases (compare_ℕ m n)) [
  | inl e ↦ e
  | inr (inl e) ↦ absurd (omega (arith, h, compare-eq m n e))
  | inr (inr e) ↦ absurd (omega (arith, h, compare-gt m n e))
]

equal_number : (m n : ℕ) → m ≡ n → compare_ℕ m n ≡ eq
equal_number m n h = elim (Ordering-cases (compare_ℕ m n)) [
  | inl e ↦ absurd (omega (arith, h, compare-lt m n e))
  | inr (inl e) ↦ e
  | inr (inr e) ↦ absurd (omega (arith, h, compare-gt m n e))
]

-- The two ways in which a text is less than another.
first_of : (o p : Ordering) → then o p ≡ lt → (o ≡ lt) ⊎ ((o ≡ eq) × (p ≡ lt))
first_of lt p h = inl refl
first_of eq p h = inr (refl, h)
first_of gt p h = absurd (ground (arith, h))

abbrev IsLess : Ordering → Type 0
IsLess lt = Unit
IsLess eq = ⊥
IsLess gt = ⊥

lt-IsLess : (o : Ordering) → o ≡ lt → IsLess o
lt-IsLess o h = subst IsLess (sym h) tt

pub compare_trans : (a b c : String) → compare a b ≡ lt → compare b c ≡ lt → compare a c ≡ lt
compare_trans a String.[] String.[] h k = absurd (lt-IsLess eq (sym nil-nil ∙ k))
compare_trans String.[] b (String.◌∷◌ z c) h k = nil-cons z c
compare_trans String.[] (String.◌∷◌ y b) String.[] h k =
    absurd (lt-IsLess gt (sym (cons-nil y b) ∙ k))
compare_trans (String.◌∷◌ x a) String.[] (String.◌∷◌ z c) h k =
    absurd (lt-IsLess gt (sym (cons-nil x a) ∙ h))
compare_trans (String.◌∷◌ x a) (String.◌∷◌ y b) String.[] h k =
    absurd (lt-IsLess gt (sym (cons-nil y b) ∙ k))
compare_trans (String.◌∷◌ x a) (String.◌∷◌ y b) (String.◌∷◌ z c) h k =
    let first =
      first_of (compare_ℕ (code x) (code y)) (compare a b) (sym (cons-cons x y a b) ∙ h) in
    let second =
      first_of (compare_ℕ (code y) (code z)) (compare b c) (sym (cons-cons y z b c) ∙ k) in
    cons-cons x z a c ∙ elim first [
      | inl l ↦
          let l' = compare-lt (code x) (code y) l in
          let n : code x < code z = elim second [
            | inl r ↦ omega (arith, l', compare-lt (code y) (code z) r)
            | inr (q, r) ↦ omega (arith, l', compare-eq (code y) (code z) q)
          ] in
          ap (λ o. then o (compare a c)) (less_number (code x) (code z) n)
      | inr (q, l) ↦ elim second [
        | inl r ↦
            let n : code x < code z =
              omega (arith, compare-eq (code x) (code y) q, compare-lt (code y) (code z) r) in
            ap (λ o. then o (compare a c)) (less_number (code x) (code z) n)
        | inr (w, r) ↦
            let n : code x ≡ code z =
              compare-eq (code x) (code y) q ∙ compare-eq (code y) (code z) w in
            ap (λ o. then o (compare a c)) (equal_number (code x) (code z) n)
            ∙ compare_trans a b c l r
      ]
    ]

pub compare_refl : (a : String) → compare a a ≡ eq
compare_refl String.[] = nil-nil
compare_refl (String.◌∷◌ x a) =
    cons-cons x x a a
    ∙ ap (λ o. then o (compare a a)) (equal_number (code x) (code x) refl)
    ∙ compare_refl a

-- Two texts that are not less are greater or the same.
pub compare_total : (a b : String) → (compare a b ≡ lt) ⊎ (compare a b ≡ eq) ⊎ (compare b a ≡ lt)
compare_total String.[] String.[] = inr (inl nil-nil)
compare_total String.[] (String.◌∷◌ y b) = inl (nil-cons y b)
compare_total (String.◌∷◌ x a) String.[] = inr (inr (nil-cons x a))
compare_total (String.◌∷◌ x a) (String.◌∷◌ y b) =
    elim (Ordering-cases (compare_ℕ (code x) (code y))) [
      | inl e ↦ inl (cons-cons x y a b ∙ ap (λ o. then o (compare a b)) e)
      | inr (inr e) ↦ inr (
          inr (
            cons-cons y x b a
            ∙ ap (λ o. then o (compare b a))
                (less_number (code y) (code x) (compare-gt (code x) (code y) e))))
      | inr (inl e) ↦
          let go = cons-cons x y a b ∙ ap (λ o. then o (compare a b)) e in
          let back =
            cons-cons y x b a
            ∙ ap (λ o. then o (compare b a))
                (equal_number (code y) (code x) (sym (compare-eq (code x) (code y) e))) in
          elim (compare_total a b) [
            | inl l ↦ inl (go ∙ l)
            | inr (inl l) ↦ inr (inl (go ∙ l))
            | inr (inr l) ↦ inr (inr (back ∙ l))
          ]
    ]

abbrev pub less_text : String → String → Bool
less_text a b = is_lt (compare a b)

is_lt-lt : (o : Ordering) → is_lt o ≡ true → o ≡ lt
is_lt-lt lt h = refl
is_lt-lt eq h = absurd (ground (arith, h))
is_lt-lt gt h = absurd (ground (arith, h))

pub less_text_trans :
    (a b c : String) → less_text a b ≡ true → less_text b c ≡ true → less_text a c ≡ true
less_text_trans a b c h k =
    ap is_lt (compare_trans a b c (is_lt-lt (compare a b) h) (is_lt-lt (compare b c) k))

pub less_text_irrefl : (a : String) → less_text a a ≡ false
less_text_irrefl a = ap is_lt (compare_refl a)

pub less_text_total : (a b : String) → a ≢ b → less_text a b ≡ false → less_text b a ≡ true
less_text_total a b d h = elim (compare_total a b) [
  | inl l ↦ absurd (true≢false (sym (ap is_lt l) ∙ h))
  | inr (inl l) ↦ absurd (d (path_by_compare a b l))
  | inr (inr l) ↦ ap is_lt l
]
