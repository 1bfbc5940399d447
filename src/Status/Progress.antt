-- ===== src/Status/Progress.antt =====
-- What the status of a deployment says of its round and of its regions.
use extended_deployment.Base.{
  ltb_ℤ, err, eq_iff, Bool, ℤ, pos, pos_part, neg_part, add32, sub64, eqb_ℤ, eq_of_parts, ◌+◌, ◌<◌,
  ◌⊎◌, ◌↔◌, true, false, All, Result-cases, ok, arith, ◌≡◌, ◌≢◌, refl, sym, ◌∙◌, ap, inl, inr,
  String, ◌||◌, Bool-cases, if◌then◌else◌, List, [], ◌∷◌, some,
}
use mathlib.Core.Path.{ap₂}
use mathlib.Core.Bool.{true≢false}
use extended_deployment.Adapter.{RegionInfo}
use extended_deployment.Grouping.{RegionInfos}
use extended_deployment.InplaceSet.Conditions.{Condition, get_condition, set_condition_lem}
use extended_deployment.Status.{
  RegionStatus, Observed, Reading, region_status_of, region_statuses, sum_replicas, all_synced,
  term_timeout, is_timed_out, progress_condition, calculate_status,
}

-- The sum of the replicas of regions, as an int32.
abbrev pub total_of : ℤ → List RegionStatus → ℤ
total_of total [] = total
total_of total (r ∷ rest) = total_of (add32 total r.replicas) rest

sum_replicas_lem :
    (total : ℤ) (infos : RegionInfos)
    → sum_replicas total infos ≡ total_of total (region_statuses infos)
unfolding sum_replicas region_statuses
sum_replicas_lem total [] = refl
sum_replicas_lem total ((name, info) ∷ rest) =
    sum_replicas_lem (add32 total (region_status_of name info).replicas) rest

-- A region has what it should.
abbrev pub InSync : String × RegionInfo → Type 0
InSync (name, info) = (info.replicas_desired ≡ true) × (info.available_desired ≡ true)

-- The seconds that a round may take: those of the strategy, or five minutes where it has none.
abbrev pub IsLimit : Observed → ℤ → Type 0
IsLimit d limit =
    ((d.strategy.sync_wait_timeout ≡ pos 0) × (limit ≡ pos 300))
    ⊎ ((d.strategy.sync_wait_timeout ≢ pos 0) × (limit ≡ d.strategy.sync_wait_timeout))

-- The round has a start, and more seconds than its limit have passed since then.
pub record IsLate (x : Reading) (d : Observed) : Type 0 where
  pub start : ℤ
  pub start_read : x.text.parse d.status.last_term_start_time ≡ ok start
  pub has_started : start ≢ pos 0
  pub limit : ℤ
  pub limit_of : IsLimit d limit
  pub passed :
      pos_part limit + neg_part (sub64 x.now start) < pos_part (sub64 x.now start) + neg_part limit

all_synced_lem : (infos : RegionInfos) → (all_synced infos ≡ true) ↔ All InSync infos
unfolding all_synced
all_synced_lem [] = ((λ h. tt), (λ h. refl))
all_synced_lem ((name, info) ∷ rest) =
    let iff = all_synced_lem rest in
    elim (Bool-cases info.replicas_desired) [
      | inr e ↦ ((λ h. absurd (ground (arith, h, e))), (λ h. absurd (ground (arith, e, h.0.0))))
      | inl e ↦ elim (Bool-cases info.available_desired) [
        | inr q ↦
            ((λ h. absurd (ground (arith, h, e, q))), (λ h. absurd (ground (arith, q, h.0.1))))
        | inl q ↦ (
          (λ h. ((e, q), iff.0 (ground (arith, h, e, q)))),
          (λ h. ground (arith, e, q, iff.1 h.1)),
        )
      ]
    ]

not_zero : (n : ℤ) → eqb_ℤ n (pos 0) ≡ false → n ≢ pos 0
not_zero n e q = absurd (true≢false (sym (ap (λ m. eqb_ℤ m (pos 0)) q) ∙ e))

zero_or_not : (n : ℤ) → (n ≡ pos 0) ⊎ ((n ≢ pos 0) × (eqb_ℤ n (pos 0) ≡ false))
zero_or_not n = elim (Bool-cases (eqb_ℤ n (pos 0))) [
  | inl e ↦ inl (eq_of_parts n (pos 0) (ground (arith, e)))
  | inr e ↦ inr (not_zero n e, e)
]

term_timeout-IsLimit : (d : Observed) → IsLimit d (term_timeout d.strategy)
term_timeout-IsLimit d = elim (zero_or_not d.strategy.sync_wait_timeout) [
  | inl e ↦ inl (e, rw (e, term_timeout) refl)
  | inr (n, e) ↦ inr (n, rw (e, term_timeout) refl)
]

IsLimit-term_timeout :
    (d : Observed) (limit : ℤ) → IsLimit d limit → limit ≡ term_timeout d.strategy
IsLimit-term_timeout d limit l = elim (zero_or_not d.strategy.sync_wait_timeout) [
  | inl e ↦ elim l [ inl (q, k) ↦ k ∙ sym (rw (e, term_timeout) refl) | inr (q, k) ↦ absurd (q e) ]
  | inr (n, e) ↦ elim l [ inl (q, k) ↦ absurd (n q) | inr (q, k) ↦ rw (e, term_timeout) k ]
]

same_start :
    (x : Reading) (d : Observed) (start : ℤ) (l : IsLate x d)
    → x.text.parse d.status.last_term_start_time ≡ ok start
    → l.start ≡ start
same_start x d start l p = ap (λ r. elim r [ err e ↦ pos 0 | ok n ↦ n ]) (sym l.start_read ∙ p)

not_started :
    (x : Reading) (d : Observed)
    → x.text.parse d.status.last_term_start_time ≡ ok (pos 0)
    → is_timed_out x d ≡ false
unfolding is_timed_out
not_started x d p = rw (p, is_timed_out) refl

when_started :
    (x : Reading) (d : Observed) (start : ℤ)
    → x.text.parse d.status.last_term_start_time ≡ ok start
    → eqb_ℤ start (pos 0) ≡ false
    → is_timed_out x d ≡ ltb_ℤ (term_timeout d.strategy) (sub64 x.now start)
unfolding is_timed_out
when_started x d start p z = rw (p, is_timed_out, z) refl

less-IsLess : (a b : ℤ) → (ltb_ℤ a b ≡ true) ↔ (pos_part a + neg_part b < pos_part b + neg_part a)
less-IsLess a b = ((λ h. ground (arith, h)), (λ h. ground (arith, h)))

is_timed_out_lem : (x : Reading) (d : Observed) → (is_timed_out x d ≡ true) ↔ IsLate x d
unfolding is_timed_out
is_timed_out_lem x d = elim (Result-cases (x.text.parse d.status.last_term_start_time)) [
  | inl (y, p) ↦
      ((λ h. absurd (ground (arith, h, p))), (λ h. absurd (ground (arith, p, h.start_read))))
  | inr (start, p) ↦ elim (zero_or_not start) [
    | inl z ↦ (
      (λ h. absurd (true≢false (sym h ∙ not_started x d (p ∙ ap ok z)))),
      (λ h. absurd (h.has_started (same_start x d start h p ∙ z))),
    )
    | inr (n, z) ↦
        let less = less-IsLess (term_timeout d.strategy) (sub64 x.now start) in
        let when = when_started x d start p z in
        (
          (λ h. record {
            start = start;
            start_read = p;
            has_started = n;
            limit = term_timeout d.strategy;
            limit_of = term_timeout-IsLimit d;
            passed = less.0 (sym when ∙ h);
          }),
          (λ h.
              let begin = same_start x d start h p in
              let limit = IsLimit-term_timeout d h.limit h.limit_of in
              when
              ∙ ap₂ (λ l b. ltb_ℤ l (sub64 x.now b)) (sym limit) (sym begin)
              ∙ (less-IsLess h.limit (sub64 x.now h.start)).1 h.passed),
        )
  ]
]

texts_differ : ◌≢◌ {A = String} "False" "True"
texts_differ e = true≢false (sym ((eq_iff "False" "True").1 e))

status_iff :
    (x : Reading) (d : Observed) (infos : RegionInfos) (status : String)
    → status ≡ (if all_synced infos || is_timed_out x d then "False" else "True")
    → (status ≡ "False") ↔ (All InSync infos ⊎ IsLate x d)
status_iff x d infos status h = elim (Bool-cases (all_synced infos)) [
  | inl e ↦ ((λ q. inl ((all_synced_lem infos).0 e)), (λ q. ground (arith, h, e)))
  | inr e ↦ elim (Bool-cases (is_timed_out x d)) [
    | inl f ↦ ((λ q. inr ((is_timed_out_lem x d).0 f)), (λ q. ground (arith, h, e, f)))
    | inr f ↦
        let other : status ≡ "True" = h ∙ rw (e, f) refl in
        (
          (λ q. absurd (texts_differ (sym q ∙ other))),
          (λ q. elim q [
            | inl l ↦ absurd (true≢false (sym ((all_synced_lem infos).1 l) ∙ e))
            | inr l ↦ absurd (true≢false (sym ((is_timed_out_lem x d).1 l) ∙ f))
          ]),
        )
  ]
]

status_either :
    (b : Bool) (status : String)
    → status ≡ (if b then "False" else "True")
    → (status ≡ "False") ⊎ (status ≡ "True")
status_either true status h = inl h
status_either false status h = inr h

progress_condition_lem :
    (x : Reading) (d : Observed) (infos : RegionInfos)
    → ((progress_condition x d infos).kind ≡ "Progressing")
      × ((progress_condition x d infos).status
          ≡ (if all_synced infos || is_timed_out x d then "False" else "True"))
unfolding progress_condition
progress_condition_lem x d infos = elim (Bool-cases (all_synced infos)) [
  | inl e ↦ rw (e, progress_condition) (refl, refl)
  | inr e ↦ elim (Bool-cases (is_timed_out x d)) [
    | inl f ↦ rw (e, f, progress_condition) (refl, refl)
    | inr f ↦ rw (e, f, progress_condition) (refl, refl)
  ]
]

-- The status has a condition of progress, which is "False" exactly where every region has its replicas and
-- has them available by its flags, or where the round has a start that can be read and more
-- seconds have passed since then than the strategy allows, 300 where it sets none; else it is
-- "True". All other conditions are as they were, and the replicas are the sum over the regions' own.
pub calculate_status-Progress :
    (x : Reading) (d : Observed) (infos : RegionInfos)
    → let new = calculate_status x d infos in
      ((found : Condition) × (get_condition new.conditions "Progressing" ≡ some found)
        × ((found.status ≡ "False") ↔ (All InSync infos ⊎ IsLate x d))
        × ((found.status ≡ "False") ⊎ (found.status ≡ "True")))
      × ((other : String)
          → other ≢ "Progressing"
          → get_condition new.conditions other ≡ get_condition d.status.conditions other)
      × (new.replicas ≡ total_of (pos 0) new.regions)
unfolding calculate_status
calculate_status-Progress x d infos =
    let (kind, status) = progress_condition_lem x d infos in
    let (found, others) = set_condition_lem d.status.conditions (progress_condition x d infos) in
    let new = calculate_status x d infos in
    let says = found.2 ∙ status in
    (
      (
        found.0,
        ap (get_condition new.conditions) (sym kind) ∙ found.1,
        status_iff x d infos (found.0).status says,
        status_either (all_synced infos || is_timed_out x d) (found.0).status says,
      ),
      λ other n. others other (λ e. n (e ∙ kind)),
      sum_replicas_lem (pos 0) infos,
    )
