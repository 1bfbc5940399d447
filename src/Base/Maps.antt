-- ===== src/Base/Maps.antt =====
-- Go's maps with strings as keys: association lists, in the order of one iteration.
use Prim.Native.String.{String}
use mathlib.Core.Path.{◌≡◌, refl, sym, ◌∙◌}
use mathlib.Core.Logic.{◌≢◌}
use mathlib.Core.Bool.{true, false}
use mathlib.Core.Option.{Option, none, some}
use mathlib.Core.List.{List, [], ◌∷◌}
use mathlib.Core.Logic.{inl, inr}
use text.Mathlib.Text.{◌==◌ as str_eq}
use text.Mathlib.TextEquality.{eq_iff}
use native.Mathlib.Omega.{arith}
use extended_deployment.Base.Tests.{if◌then◌else◌, Bool-cases}

pub str_eq_refl : (s : String) → str_eq s s ≡ true
str_eq_refl s = (eq_iff s s).1 refl

pub str_eq_other : (s t : String) → s ≢ t → str_eq s t ≡ false
str_eq_other s t d = elim (Bool-cases (str_eq s t)) [
  | inl e ↦ absurd (d ((eq_iff s t).0 e))
  | inr e ↦ e
]

module _ {ℓ} {A : Type ℓ} where
  abbrev pub lookup : String → List (String × A) → Option A
  lookup key [] = none
  lookup key ((name, x) ∷ rest) = if str_eq key name then some x else lookup key rest

  -- Assignment: a key that is there keeps its place.
  abbrev pub put_key : String → A → List (String × A) → List (String × A)
  put_key key x [] = (key, x) ∷ []
  put_key key x ((name, y) ∷ rest) =
      if str_eq key name then (name, x) ∷ rest else (name, y) ∷ put_key key x rest

  abbrev pub delete_key : String → List (String × A) → List (String × A)
  delete_key key [] = []
  delete_key key ((name, x) ∷ rest) =
      if str_eq key name then delete_key key rest else (name, x) ∷ delete_key key rest

  pub lookup-put_key :
      (key : String) (x : A) (map : List (String × A)) → lookup key (put_key key x map) ≡ some x
  lookup-put_key key x [] = rw (str_eq_refl key) refl
  lookup-put_key key x ((name, y) ∷ rest) = elim (Bool-cases (str_eq key name)) [
    | inl e ↦ ground (arith, e)
    | inr e ↦ ground (arith, e, lookup-put_key key x rest)
  ]

  pub lookup-put_key_other :
      (key other : String) (x : A) (map : List (String × A))
      → other ≢ key
      → lookup other (put_key key x map) ≡ lookup other map
  lookup-put_key_other key other x [] d = rw (str_eq_other other key d) refl
  lookup-put_key_other key other x ((name, y) ∷ rest) d = elim (Bool-cases (str_eq key name)) [
    | inl e ↦
        let n = str_eq_other other name (λ q. d (q ∙ sym ((eq_iff key name).0 e))) in
        ground (arith, e, n)
    | inr e ↦ ground (arith, e, lookup-put_key_other key other x rest d)
  ]

  pub lookup-delete_key :
      (key : String) (map : List (String × A)) → lookup key (delete_key key map) ≡ none
  lookup-delete_key key [] = refl
  lookup-delete_key key ((name, y) ∷ rest) = elim (Bool-cases (str_eq key name)) [
    | inl e ↦ ground (arith, e, lookup-delete_key key rest)
    | inr e ↦ ground (arith, e, lookup-delete_key key rest)
  ]

  pub lookup-delete_key_other :
      (key other : String) (map : List (String × A))
      → other ≢ key
      → lookup other (delete_key key map) ≡ lookup other map
  lookup-delete_key_other key other [] d = refl
  lookup-delete_key_other key other ((name, y) ∷ rest) d = elim (Bool-cases (str_eq key name)) [
    | inl e ↦
        let n = str_eq_other other name (λ q. d (q ∙ sym ((eq_iff key name).0 e))) in
        ground (arith, e, n, lookup-delete_key_other key other rest d)
    | inr e ↦ ground (arith, e, lookup-delete_key_other key other rest d)
  ]
