-- ===== src/Reschedule/Kept.antt =====
-- The regions that have not failed.
use extended_deployment.Base.{
  String, ℕ, ◌+◌, ◌≡◌, ◌≢◌, inl, inr, refl, Bool, true, false, if◌then◌else◌, Bool-cases, List, [],
  ◌∷◌, Memᴰ, All, All-Memᴰ, Distinct, sum_of, arith,
}
use extended_deployment.Reschedule.{Infos, failed_in}
use extended_deployment.Reschedule.Choice.{IsRegion, planned_of}

-- A region before rescheduling: what is planned is what is configured.
pub record IsConfigured (m : Infos) (name : String) : Type 0 where
  pub is_region : IsRegion m name
  pub planned_config : is_region.region.reschedule_replicas ≡ is_region.region.config_replicas

module _ (regions : List (String × Bool)) where
  -- The regions that have not failed, and the replicas of one that has.
  abbrev pub kept : List String → List String
  kept [] = []
  kept (t ∷ rest) = if failed_in regions t then kept rest else t ∷ kept rest

  abbrev pub lost_of : Infos → String → ℕ
  lost_of m t = if failed_in regions t then planned_of m t else 0

  pub kept-All : (P : String → Type 0) (names : List String) → All P names → All P (kept names)
  kept-All P [] h = tt
  kept-All P (t ∷ rest) h = elim (Bool-cases (failed_in regions t)) [
    | inl e ↦ rw e (kept-All P rest h.1)
    | inr e ↦ rw e (h.0, kept-All P rest h.1)
  ]

  pub kept-Distinct : (names : List String) → Distinct names → Distinct (kept names)
  kept-Distinct [] h = tt
  kept-Distinct (t ∷ rest) h = elim (Bool-cases (failed_in regions t)) [
    | inl e ↦ rw e (kept-Distinct rest h.1)
    | inr e ↦ rw e (kept-All (λ y. y ≢ t) rest h.0, kept-Distinct rest h.1)
  ]

  pub kept_sum :
      (f : String → ℕ) (names : List String)
      → sum_of f names
        ≡ sum_of (λ t. if failed_in regions t then f t else 0) names + sum_of f (kept names)
  kept_sum f [] = refl
  kept_sum f (t ∷ rest) = elim (Bool-cases (failed_in regions t)) [
    | inl e ↦ rw e (omega (arith, kept_sum f rest))
    | inr e ↦ rw e (omega (arith, kept_sum f rest))
  ]

  pub kept_alive : (names : List String) → All (λ t. failed_in regions t ≡ false) (kept names)
  kept_alive [] = tt
  kept_alive (t ∷ rest) = elim (Bool-cases (failed_in regions t)) [
    | inl e ↦ rw e (kept_alive rest)
    | inr e ↦ rw e (e, kept_alive rest)
  ]

  pub kept_not_failed :
      (t : String) (names : List String) → failed_in regions t ≡ true → ¬ Memᴰ t (kept names)
  kept_not_failed t names e h =
      let a = All-Memᴰ (λ t. failed_in regions t ≡ false) t (kept names) (kept_alive names) h in
      absurd (ground arith)
