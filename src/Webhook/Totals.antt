-- ===== src/Webhook/Totals.antt =====
-- What admission guarantees to the controller that reads the replicas later.
use extended_deployment.Base.{
  true, none, nil_pointer, ap, Error, Result-cases, ℕ, ◌+◌, ◌*◌, ◌/◌, ◌≤◌, ◌<◌, ◌^◌, ◌≡◌, ℤ, pos,
  negsuc, ok, err, List, [], ◌∷◌, arith, some, Option-cases, false, inl, inr, length, All,
}
use extended_deployment.Api.{IntOrString, int, str, Region, ExtendedDeploymentSpec}
use extended_deployment.Replicas.{parse_region_replicas}
use extended_deployment.Replicas.Decimal.{cut_percent, parse_int32}
use extended_deployment.Replicas.Percent.{IsPercent, parse_region_replicas-IsPercent}
use extended_deployment.Webhook.{any_int, percent_of, add_percent, sum_percents, compare_replicas}

-- Each region's replicas are set to a percentage; the percentages are listed.
pub data Percents : List Region → List ℕ → Type 0 where
  nil : Percents [] []
  cons :
      {r : Region} {rs : List Region} {p : ℕ} {ps : List ℕ} (s : List ℕ)
      → r.replicas ≡ some (str s)
      → IsPercent s p
      → Percents rs ps
      → Percents (r ∷ rs) (p ∷ ps)

abbrev pub sum : List ℕ → ℕ
sum [] = 0
sum (x ∷ xs) = x + sum xs

add_percent_err :
    (s : List ℕ) (total : ℕ) (x : Error)
    → percent_of s ≡ err x
    → add_percent total (some (str s)) ≡ err x
unfolding add_percent
add_percent_err s total x f = rw (f, add_percent)

add_percent_ok :
    (s : List ℕ) (total p : ℕ)
    → percent_of s ≡ ok p
    → total + p < 2 ^ 64
    → add_percent total (some (str s)) ≡ ok (total + p)
unfolding add_percent
add_percent_ok s total p f h = rw (f, add_percent) (ap ok (omega arith))

percent_of_ok : (s : List ℕ) (p : ℕ) → percent_of s ≡ ok p → IsPercent s p
unfolding percent_of
percent_of_ok s p e = elim (Option-cases (cut_percent s)) [
  | inl c ↦ ground arith
  | inr (d, c) ↦ elim (Option-cases (parse_int32 d)) [
    | inl x ↦ ground arith
    | inr (pos k, x) ↦ record { digits = d; cut = c; parsed = ground arith; bounded = ground arith }
    | inr (negsuc k, x) ↦ ground arith
  ]
]

-- Each region's replicas are read as the number listed for it.
pub data Parsed (total : ℤ) : List Region → List ℕ → Type 0 where
  nil : Parsed total [] []
  cons :
      {r : Region} {rs : List Region} {n : ℕ} {ns : List ℕ} (v : IntOrString)
      → r.replicas ≡ some v
      → parse_region_replicas total v ≡ ok (pos n)
      → Parsed total rs ns
      → Parsed total (r ∷ rs) (n ∷ ns)

abbrev pub HasReplicas : Region → Type 0
HasReplicas r = (v : IntOrString) × (r.replicas ≡ some v)

sum_percents_ok :
    (rs : List Region) (total result : ℕ)
    → All HasReplicas rs
    → any_int rs ≡ false
    → total + 100 * length rs < 2 ^ 63
    → sum_percents total rs ≡ ok result
    → (ps : List ℕ) × Percents rs ps × (result ≡ total + sum ps)
unfolding sum_percents any_int
sum_percents_ok [] total result set text small e = ([], nil, ground arith)
sum_percents_ok (r ∷ rs) total result ((int v, er), set) text small e = ground arith
sum_percents_ok (r ∷ rs) total result ((str s, er), set) text small e =
    elim (Result-cases (percent_of s)) [
      | inl (x, f) ↦ ground (arith, add_percent_err s total x f)
      | inr (p, f) ↦
          let v = percent_of_ok s p f in
          let (ps, all, eq) =
            sum_percents_ok rs (total + p) result set (ground arith) (omega (arith, v.bounded))
              (ground (arith, add_percent_ok s total p f (omega (arith, v.bounded)))) in
          (p ∷ ps, cons s er v all, omega (arith, eq))
    ]

half_rounding :
    (t : ℕ) (rs : List Region) (ps : List ℕ)
    → Percents rs ps
    → (ns : List ℕ) × Parsed (pos t) rs ns
      × (100 * sum ns ≤ t * sum ps + 50 * length rs)
      × (t * sum ps ≤ 100 * sum ns + 50 * length rs)
half_rounding t rs ps nil = ([], nil, omega arith, omega arith)
half_rounding t rs ps (cons {p = p} {ps = qs} s er v all) =
    let (ns, parsed, up, down) = half_rounding t _ _ all in
    (
      (t * p + 50) / 100 ∷ ns,
      cons (str s) er (parse_region_replicas-IsPercent t p s v) parsed,
      omega arith,
      omega arith,
    )

-- Where a positive total and a percentage for each region pass admission, the controller reads
-- replicas for every region, and these sum up to the total, up to one half for each region.
pub compare_replicas-Parsed :
    (spec : ExtendedDeploymentSpec) (t : ℕ)
    → spec.replicas ≡ some (pos t)
    → 0 < t
    → All HasReplicas spec.regions
    → any_int spec.regions ≡ false
    → 100 * length spec.regions < 2 ^ 63
    → compare_replicas spec ≡ ok tt
    → (ns : List ℕ) × Parsed (pos t) spec.regions ns
      × (2 * sum ns ≤ 2 * t + length spec.regions)
      × (2 * t ≤ 2 * sum ns + length spec.regions)
unfolding compare_replicas
compare_replicas-Parsed spec t et pt set text small e =
    elim (Result-cases (sum_percents 0 spec.regions)) [
      | inl (x, f) ↦ ground arith
      | inr (total, f) ↦
          let (ps, all, eq) = sum_percents_ok spec.regions 0 total set text (omega arith) f in
          let h : total ≡ 100 = ground arith in
          let (ns, parsed, up, down) = half_rounding t spec.regions ps all in
          let k : sum ps ≡ 100 = omega (arith, eq, h) in
          let m : t * sum ps ≡ t * 100 = ap (λ x. t * x) k in
          (ns, parsed, omega (arith, up, m), omega (arith, down, m))
    ]

-- Where the total is positive, the first region has no replicas and a later one has an int,
-- admission reads the type behind a nil pointer.
pub compare_replicas_nil_first :
    (spec : ExtendedDeploymentSpec) (t : ℕ) (r : Region) (rs : List Region)
    → spec.replicas ≡ some (pos t)
    → 0 < t
    → spec.regions ≡ r ∷ rs
    → r.replicas ≡ none
    → any_int rs ≡ true
    → compare_replicas spec ≡ err nil_pointer
unfolding compare_replicas
compare_replicas_nil_first spec t r rs et pt er nr some_int = ground arith
