-- ===== src/Reschedule/Steps.antt =====
-- One replica that is placed.
use extended_deployment.Base.{
  String, str_eq, eq_iff, ◌+◌, ◌^◌, ◌≤◌, ◌<◌, ◌≡◌, ◌≢◌, inl, inr, refl, sym, ◌∙◌, subst, pos,
  pos_part, neg_part, add32, sub64, add32_parts, sub64_parts, true, Bool-cases, List, Memᴰ, All,
  All-Memᴰ, All-of_Memᴰ, Distinct, sum_of, sum_of_grow, some, arith,
}
use extended_deployment.Reschedule.{ScheduleRegionInfo, Infos, place}
use extended_deployment.Reschedule.Choice.{IsRegion, room_of, planned_of}

str_eq_refl : (s : String) → str_eq s s ≡ true
str_eq_refl s = (eq_iff s s).1 refl

place-at :
    (m : Infos) (r : ScheduleRegionInfo)
    → place r m r.name
      ≡ some (record r {
        reschedule_replicas = add32 r.reschedule_replicas (pos 1);
        allocatable_pod = sub64 r.allocatable_pod (pos 1);
      })
unfolding place
place-at m r = rw (str_eq_refl r.name, place) refl

place-other :
    (m : Infos) (r : ScheduleRegionInfo) (name : String) → name ≢ r.name → place r m name ≡ m name
unfolding place
place-other m r name d = elim (Bool-cases (str_eq name r.name)) [
  | inl e ↦ absurd (d ((eq_iff name r.name).0 e))
  | inr e ↦ ground arith
]

-- One round, where some target has room.
pub record Step (m m' : Infos) (targets : List String) : Type 0 where
  pub regions : All (IsRegion m') targets
  pub room : sum_of (room_of m) targets ≡ sum_of (room_of m') targets + 1
  pub planned : sum_of (planned_of m') targets ≡ sum_of (planned_of m) targets + 1
  pub each :
      (t : String)
      → (planned_of m' t + room_of m' t ≡ planned_of m t + room_of m t)
        × (planned_of m t ≤ planned_of m' t)
  pub others : (t : String) → ¬ Memᴰ t targets → m' t ≡ m t

module _ (m : Infos) (r : ScheduleRegionInfo) (e : m r.name ≡ some r)
    (room : 0 < pos_part r.allocatable_pod) (bound : pos_part r.allocatable_pod < 2 ^ 63)
    (nonneg : neg_part r.reschedule_replicas ≡ 0)
    (small : pos_part r.reschedule_replicas + 1 < 2 ^ 31) where
  room-at : room_of m r.name ≡ room_of (place r m) r.name + 1
  room-at = rw (place-at m r, e, room_of) (ground (arith, sub64_parts r.allocatable_pod (pos 1)))

  planned-at : planned_of (place r m) r.name ≡ planned_of m r.name + 1
  planned-at =
      rw (place-at m r, e, planned_of) (ground (arith, add32_parts r.reschedule_replicas (pos 1)))

  room-other : (t : String) → t ≢ r.name → room_of (place r m) t ≡ room_of m t
  room-other t d = rw (place-other m r t d, room_of) refl

  planned-other : (t : String) → t ≢ r.name → planned_of (place r m) t ≡ planned_of m t
  planned-other t d = rw (place-other m r t d, planned_of) refl

  place-each :
      (t : String)
      → (planned_of (place r m) t + room_of (place r m) t ≡ planned_of m t + room_of m t)
        × (planned_of m t ≤ planned_of (place r m) t)
  place-each t = elim (Bool-cases (str_eq t r.name)) [
    | inl h ↦
        let q : t ≡ r.name = (eq_iff t r.name).0 h in
        rw q (omega (arith, room-at, planned-at), omega (arith, planned-at))
    | inr h ↦
        let d : t ≢ r.name = λ q. absurd (ground (arith, (eq_iff t r.name).1 q)) in
        (omega (arith, room-other t d, planned-other t d), omega (arith, planned-other t d))
  ]

  place-IsRegion : (t : String) → IsRegion m t → IsRegion (place r m) t
  place-IsRegion t v = elim (Bool-cases (str_eq t r.name)) [
    | inl h ↦
        let q : t ≡ r.name = (eq_iff t r.name).0 h in
        record {
          region = record r {
            reschedule_replicas = add32 r.reschedule_replicas (pos 1);
            allocatable_pod = sub64 r.allocatable_pod (pos 1);
          };
          found = rw q (place-at m r);
          named = sym q;
          room_small = ground (arith, sub64_parts r.allocatable_pod (pos 1));
          planned_nonneg = ground (arith, add32_parts r.reschedule_replicas (pos 1));
        }
    | inr h ↦
        let d : t ≢ r.name = λ q. absurd (ground (arith, (eq_iff t r.name).1 q)) in
        record {
          region = v.region;
          found = place-other m r t d ∙ v.found;
          named = v.named;
          room_small = v.room_small;
          planned_nonneg = v.planned_nonneg;
        }
  ]

  pub place-Step :
      (targets : List String)
      → All (IsRegion m) targets
      → Distinct targets
      → Memᴰ r.name targets
      → Step m (place r m) targets
  place-Step targets v d mem = record {
    regions =
        All-of_Memᴰ (IsRegion (place r m)) targets
          (λ t q. place-IsRegion t (All-Memᴰ (IsRegion m) t targets v q));
    room =
        sum_of_grow (room_of (place r m)) (room_of m) r.name targets mem d room-at
          (λ y h. sym (room-other y h));
    planned =
        sum_of_grow (planned_of m) (planned_of (place r m)) r.name targets mem d planned-at
          planned-other;
    each = place-each;
    others = λ t n. place-other m r t (λ q. n (subst (λ z. Memᴰ z targets) (sym q) mem));
  }
