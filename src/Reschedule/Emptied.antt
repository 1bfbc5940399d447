-- ===== src/Reschedule/Emptied.antt =====
-- The loop over the regions, some of which have failed.
use mathlib.Core.List.Memᴰ.{head, tail}
use extended_deployment.Base.{
  String, str_eq, eq_iff, ℕ, ◌+◌, ◌^◌, ◌<◌, ◌≡◌, ◌≢◌, inl, inr, refl, sym, ◌∙◌, ap, ℤ, pos, add32,
  add32_pos, Bool, true, false, Bool-cases, List, [], ◌∷◌, Memᴰ, All, All-Memᴰ, Distinct, sum_of,
  sum_of_same, some, Result, ok, arith, eq_of_parts,
}
use extended_deployment.Reschedule.{ScheduleRegionInfo, Infos, set_region, failed_in, failed_loop}
use extended_deployment.Reschedule.Choice.{planned_of}
use extended_deployment.Reschedule.Kept.{IsConfigured, kept, lost_of}

abbrev emptied : ScheduleRegionInfo → ScheduleRegionInfo
emptied r = record r { reschedule_replicas = pos 0 }

set_region-at :
    (m : Infos) (r : ScheduleRegionInfo) (t : String) → r.name ≡ t → set_region r m t ≡ some r
set_region-at m r t e = rw ((eq_iff t r.name).1 (sym e), set_region) refl

set_region-other :
    (m : Infos) (r : ScheduleRegionInfo) (t : String) → t ≢ r.name → set_region r m t ≡ m t
set_region-other m r t d = elim (Bool-cases (str_eq t r.name)) [
  | inl e ↦ absurd (d ((eq_iff t r.name).0 e))
  | inr e ↦ ground arith
]

module _ (regions : List (String × Bool)) where
  lost_same :
      (m m' : Infos) (x : String) (names : List String)
      → All (λ y. y ≢ x) names
      → ((y : String) → y ≢ x → m' y ≡ m y)
      → sum_of (lost_of regions m') names ≡ sum_of (lost_of regions m) names
  lost_same m m' x names d h =
      sum_of_same (lost_of regions m) (lost_of regions m') x names d (λ y n. ground (arith, h y n))

  pub config_same : (m m' : Infos) (y : String) → m' y ≡ m y → IsConfigured m y → IsConfigured m' y
  config_same m m' y e v = record {
    is_region = record {
      region = v.is_region.region;
      found = e ∙ v.is_region.found;
      named = v.is_region.named;
      room_small = v.is_region.room_small;
      planned_nonneg = v.is_region.planned_nonneg;
    };
    planned_config = v.planned_config;
  }

  -- What the loop leaves in the map.
  pub record Emptied (m m' : Infos) (names : List String) : Type 0 where
    pub alive : (t : String) → failed_in regions t ≡ false → m' t ≡ m t
    pub failed : (t : String) → Memᴰ t names → failed_in regions t ≡ true → planned_of m' t ≡ 0
    pub others : (t : String) → ¬ Memᴰ t names → m' t ≡ m t

  config_rest :
      (m m' : Infos) (x : String) (names : List String)
      → All (λ y. y ≢ x) names
      → ((y : String) → y ≢ x → m' y ≡ m y)
      → All (IsConfigured m) names
      → All (IsConfigured m') names
  config_rest m m' x [] d h v = tt
  config_rest m m' x (y ∷ rest) d h v =
      (config_same m m' y (h y d.0) v.0, config_rest m m' x rest d.1 h v.1)

  loop_out :
      (m : Infos) (t : String) (rest : List String) (num num' : ℤ) (r : ScheduleRegionInfo)
      → m t ≡ some r
      → failed_in regions t ≡ true
      → add32 num r.config_replicas ≡ num'
      → failed_loop regions (t ∷ rest) num m
        ≡ failed_loop regions rest num' (set_region (emptied r) m)
  unfolding failed_loop
  loop_out m t rest num num' r f e a = rw (f, e, a, failed_loop) refl

  loop_stay :
      (m m' : Infos) (t : String) (rest ts : List String) (num num' : ℤ) (r : ScheduleRegionInfo)
      → m t ≡ some r
      → failed_in regions t ≡ false
      → failed_loop regions rest num m ≡ ok (num', ts, m')
      → failed_loop regions (t ∷ rest) num m ≡ ok (num', t ∷ ts, m')
  unfolding failed_loop
  loop_stay m m' t rest ts num num' r f e h = rw (f, e, h, failed_loop) refl

  emptied-Emptied :
      (m m' : Infos) (t : String) (rest : List String) (r : ScheduleRegionInfo)
      → r.name ≡ t
      → failed_in regions t ≡ true
      → All (λ y. y ≢ t) rest
      → Emptied (set_region (emptied r) m) m' rest
      → Emptied m m' (t ∷ rest)
  emptied-Emptied m m' t rest r n e d w = record {
    alive = λ y h.
        w.alive y h
        ∙ set_region-other m (emptied r) y
            (λ q. absurd (ground (arith, ap (failed_in regions) (q ∙ n))));
    failed = λ y h q. first y h q;
    others = λ y h.
        w.others y (λ k. h (tail k)) ∙ set_region-other m (emptied r) y (λ q. h (head (q ∙ n)));
  }
    where
      at : m' t ≡ some (emptied r)
      at = w.others t (λ k. All-Memᴰ (λ y. y ≢ t) t rest d k refl) ∙ set_region-at m (emptied r) t n

      first : (y : String) → Memᴰ y (t ∷ rest) → failed_in regions y ≡ true → planned_of m' y ≡ 0
      first y (head q) h = rw q (ground (arith, at))
      first y (tail k) h = w.failed y k h

  out_eq :
      (m' : Infos) (t : String) (rest : List String) (a b : ℕ)
      → failed_in regions t ≡ true
      → a ≡ b
      → ◌≡◌ {A = Result (ℤ × List String × Infos)}
          (ok (pos a, kept regions rest, m'))
          (ok (pos b, kept regions (t ∷ rest), m'))
  out_eq m' t rest a b e h = rw (e, h) refl

  stay_eq :
      (m' : Infos) (t : String) (rest : List String) (a b : ℕ)
      → failed_in regions t ≡ false
      → a ≡ b
      → ◌≡◌ {A = Result (ℤ × List String × Infos)}
          (ok (pos a, t ∷ kept regions rest, m'))
          (ok (pos b, kept regions (t ∷ rest), m'))
  stay_eq m' t rest a b e h = rw (e, h) refl

  alive_first :
      (m m' : Infos) (t : String) (rest : List String)
      → failed_in regions t ≡ false
      → ((y : String) → Memᴰ y rest → failed_in regions y ≡ true → planned_of m' y ≡ 0)
      → (y : String) → Memᴰ y (t ∷ rest)
      → failed_in regions y ≡ true
      → planned_of m' y ≡ 0
  alive_first m m' t rest e h y (head q) f = absurd (ground (arith, ap (failed_in regions) q))
  alive_first m m' t rest e h y (tail k) f = h y k f

  pub failed_loop_lem :
      (m : Infos) (names : List String) (num : ℕ)
      → All (IsConfigured m) names
      → Distinct names
      → num + sum_of (lost_of regions m) names < 2 ^ 31
      → (m' : Infos) × (failed_loop regions names (pos num) m
          ≡ ok (pos (num + sum_of (lost_of regions m) names), kept regions names, m'))
        × Emptied m m' names
  unfolding failed_loop
  failed_loop_lem m [] num v d small = (
    m,
    ap (λ n. ok (pos n, [], m)) (omega arith),
    record { alive = λ t e. refl; failed = λ t h. elim h [ ]; others = λ t h. refl },
  )
  failed_loop_lem m (t ∷ rest) num v d small = elim (Bool-cases (failed_in regions t)) [
    | inl e ↦
        let r = v.0.is_region.region in
        let n : r.config_replicas ≡ pos (planned_of m t) =
          eq_of_parts _ _ (
            ground
              (arith, v.0.is_region.found, v.0.planned_config, v.0.is_region.planned_nonneg)) in
        let other : (y : String) → y ≢ t → set_region (emptied r) m y ≡ m y =
          λ y k. set_region-other m (emptied r) y (λ q. k (q ∙ v.0.is_region.named)) in
        let same = lost_same m (set_region (emptied r) m) t rest d.0 other in
        let lost : lost_of regions m t ≡ planned_of m t = rw e refl in
        let (m', run, w) =
          failed_loop_lem (set_region (emptied r) m) rest (num + planned_of m t)
            (config_rest m (set_region (emptied r) m) t rest d.0 other v.1) d.1
            (omega (arith, same, lost)) in
        (
          m',
          loop_out m t rest (pos num) (pos (num + planned_of m t)) r v.0.is_region.found e
                (rw n (add32_pos num (planned_of m t) (omega (arith, lost))))
              ∙ run
              ∙ out_eq m' t rest
                  (num + planned_of m t + sum_of (lost_of regions (set_region (emptied r) m)) rest)
                  (num + sum_of (lost_of regions m) (t ∷ rest)) e (omega (arith, same, lost)),
          emptied-Emptied m m' t rest r v.0.is_region.named e d.0 w,
        )
    | inr e ↦
        let lost : lost_of regions m t ≡ 0 = rw e refl in
        let (m', run, w) = failed_loop_lem m rest num v.1 d.1 (omega arith) in
        (
          m',
          loop_stay m m' t rest (kept regions rest) (pos num) _ v.0.is_region.region
                v.0.is_region.found e run
              ∙ stay_eq m' t rest (num + sum_of (lost_of regions m) rest)
                  (num + sum_of (lost_of regions m) (t ∷ rest)) e (omega (arith, lost)),
          record {
            alive = w.alive;
            failed = λ y h q. alive_first m m' t rest e w.failed y h q;
            others = λ y h. w.others y (λ k. h (tail k));
          },
        )
  ]
