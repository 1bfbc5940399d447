-- ===== src/Replicas/Percent.antt =====
-- The result of a percentage: the nearest integer, and the round trip through its text.
use extended_deployment.Base.{
  ◌∙◌, ap, ℕ, ◌+◌, ◌*◌, ◌/◌, ◌≤◌, ◌≡◌, refl, ℤ, pos, ok, List, [], ◌∷◌, ◌++◌, arith, some,
  Option-cases, inl, inr,
}
use extended_deployment.Api.{str}
use extended_deployment.Replicas.{parse_region_replicas, checked_percent}
use extended_deployment.Replicas.Decimal.{
  cut_percent, parse_int32, cut_percent-append, digits3, parse_int32-digits3,
}

-- The text of a percentage.
unfoldable pub percent_text : ℕ → List ℕ
percent_text p = digits3 p ++ b'%' ∷ []

checked_percent_eq :
    (t p : ℕ) → p ≤ 100 → checked_percent (pos t) (pos p) ≡ ok (pos ((t * p + 50) / 100))
unfolding checked_percent
checked_percent_eq t p h = ground arith

-- The text of any percentage from 0 to 100 is read back as that percentage of the total, rounded
-- to the nearest integer.
pub parse_region_replicas-percent_text :
    (t p : ℕ)
    → p ≤ 100
    → parse_region_replicas (pos t) (str (percent_text p)) ≡ ok (pos ((t * p + 50) / 100))
unfolding parse_region_replicas percent_text
parse_region_replicas-percent_text t p h =
    rw (cut_percent-append (digits3 p), parse_int32-digits3 p (omega arith))
      (ground (arith, checked_percent_eq t p h))

-- What a text has to be, to be read as a percentage.
pub record IsPercent (s : List ℕ) (p : ℕ) : Type 0 where
  pub digits : List ℕ
  pub cut : cut_percent s ≡ some digits
  pub parsed : parse_int32 digits ≡ some (pos p)
  pub bounded : p ≤ 100

pub parse_region_replicas-IsPercent :
    (t p : ℕ) (s : List ℕ)
    → IsPercent s p
    → parse_region_replicas (pos t) (str s) ≡ ok (pos ((t * p + 50) / 100))
unfolding parse_region_replicas
parse_region_replicas-IsPercent t p s v =
    rw (v.cut, v.parsed) (ground (arith, checked_percent_eq t p v.bounded))

checked_percent_ok :
    (t : ℕ) (p : ℤ) (n : ℤ) → checked_percent (pos t) p ≡ ok n → (k : ℕ) × (p ≡ pos k) × (k ≤ 100)
unfolding checked_percent
checked_percent_ok t (pos k) n e = (k, refl, ground arith)
checked_percent_ok t (ℤ.negsuc k) n e = ground arith

-- A text is accepted exactly if it is a percentage from 0 to 100, whatever the total is.
pub parse_region_replicas_ok :
    (t : ℕ) (s : List ℕ) (n : ℤ)
    → parse_region_replicas (pos t) (str s) ≡ ok n
    → (p : ℕ) × IsPercent s p
unfolding parse_region_replicas
parse_region_replicas_ok t s n e = elim (Option-cases (cut_percent s)) [
  | inl c ↦ ground arith
  | inr (d, c) ↦ elim (Option-cases (parse_int32 d)) [
    | inl x ↦ ground arith
    | inr (p, x) ↦
        let (k, pk, small) = checked_percent_ok t p n (ground arith) in
        (k, record { digits = d; cut = c; parsed = x ∙ ap some pk; bounded = small })
  ]
]
