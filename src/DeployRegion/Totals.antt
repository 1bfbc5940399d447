-- ===== src/DeployRegion/Totals.antt =====
-- Resources as sums of what is asked for: what Add adds, Sub takes away again, in any order.
use mathlib.Core.List.{Permᴰ}
use extended_deployment.Base.{
  ℕ, ◌+◌, ◌-◌, ◌^◌, ◌≤◌, ◌<◌, ◌≡◌, refl, ◌∙◌, ap, ℤ, pos, pos_part, neg_part, ltb_ℤ, add64, sub64,
  add64_parts, sub64_parts, false, [], ◌∷◌, All, sum_of, arith, some, eq_of_parts,
}
use extended_deployment.DeployRegion.Resource.{
  Resource, ResourceName, Quantity, ResourceList, cpu, memory, pods, ephemeral_storage, other,
  add_one, add, sub_one, sub,
}

abbrev pub Entry : Type 0
Entry = ResourceName × Quantity

-- What one entry asks for, of each kind.
abbrev pub cpu_of : Entry → ℕ
cpu_of (cpu, q) = pos_part q.milli_value
cpu_of (memory, q) = 0
cpu_of (pods, q) = 0
cpu_of (ephemeral_storage, q) = 0
cpu_of (other s, q) = 0

abbrev pub memory_of : Entry → ℕ
memory_of (cpu, q) = 0
memory_of (memory, q) = pos_part q.value
memory_of (pods, q) = 0
memory_of (ephemeral_storage, q) = 0
memory_of (other s, q) = 0

abbrev pub pods_of : Entry → ℕ
pods_of (cpu, q) = 0
pods_of (memory, q) = 0
pods_of (pods, q) = pos_part q.value
pods_of (ephemeral_storage, q) = 0
pods_of (other s, q) = 0

abbrev pub storage_of : Entry → ℕ
storage_of (cpu, q) = 0
storage_of (memory, q) = 0
storage_of (pods, q) = 0
storage_of (ephemeral_storage, q) = pos_part q.value
storage_of (other s, q) = 0

-- No entry asks for less than nothing.
abbrev pub IsDemand : Entry → Type 0
IsDemand (name, q) = (neg_part q.milli_value ≡ 0) × (neg_part q.value ≡ 0)

-- The resource with these amounts.
abbrev pub amounts : ℕ → ℕ → ℕ → ℕ → Resource
amounts c m s p = record {
  milli_cpu = pos c;
  memory = pos m;
  ephemeral_storage = pos s;
  allowed_pod_number = pos p;
}

add64_amount :
    (a : ℕ) (x : ℤ)
    → neg_part x ≡ 0
    → a + pos_part x < 2 ^ 63
    → add64 (pos a) x ≡ pos (a + pos_part x)
add64_amount a x n h = eq_of_parts _ _ (omega (arith, add64_parts (pos a) x))

sub64_amount :
    (a : ℕ) (x : ℤ)
    → neg_part x ≡ 0
    → pos_part x ≤ a
    → a < 2 ^ 63
    → sub64 (pos a) x ≡ pos (a - pos_part x)
sub64_amount a x n h k = eq_of_parts _ _ (omega (arith, sub64_parts (pos a) x))

pub amounts_eq :
    {c c' m m' s s' p p' : ℤ}
    → c ≡ c'
    → m ≡ m'
    → s ≡ s'
    → p ≡ p'
    → ◌≡◌ {A = Resource}
        (record { milli_cpu = c; memory = m; ephemeral_storage = s; allowed_pod_number = p })
        (record { milli_cpu = c'; memory = m'; ephemeral_storage = s'; allowed_pod_number = p' })
amounts_eq ec em es ep = rw (ec, em, es, ep) refl

zero_more : (n : ℕ) → pos n ≡ pos (n + 0)
zero_more n = ap pos (omega arith)

zero_less : (n : ℕ) → pos n ≡ pos (n - 0)
zero_less n = ap pos (omega arith)

module _ (c m s p : ℕ) where
  add_one_lem :
      (e : Entry)
      → IsDemand e
      → c + cpu_of e < 2 ^ 63
      → m + memory_of e < 2 ^ 63
      → s + storage_of e < 2 ^ 63
      → p + pods_of e < 2 ^ 63
      → add_one (amounts c m s p) e.0 e.1
        ≡ amounts (c + cpu_of e) (m + memory_of e) (s + storage_of e) (p + pods_of e)
  unfolding add_one
  add_one_lem (cpu, q) v hc hm hs hp =
      amounts_eq (add64_amount c q.milli_value v.0 hc) (zero_more m) (zero_more s) (zero_more p)
  add_one_lem (memory, q) v hc hm hs hp =
      amounts_eq (zero_more c) (add64_amount m q.value v.1 hm) (zero_more s) (zero_more p)
  add_one_lem (pods, q) v hc hm hs hp =
      amounts_eq (zero_more c) (zero_more m) (zero_more s) (add64_amount p q.value v.1 hp)
  add_one_lem (ephemeral_storage, q) v hc hm hs hp =
      amounts_eq (zero_more c) (zero_more m) (add64_amount s q.value v.1 hs) (zero_more p)
  add_one_lem (other x, q) v hc hm hs hp =
      amounts_eq (zero_more c) (zero_more m) (zero_more s) (zero_more p)

  sub_one_lem :
      (e : Entry)
      → IsDemand e
      → cpu_of e ≤ c
      → memory_of e ≤ m
      → storage_of e ≤ s
      → pods_of e ≤ p
      → c < 2 ^ 63
      → m < 2 ^ 63
      → s < 2 ^ 63
      → p < 2 ^ 63
      → sub_one (amounts c m s p) e.0 e.1
        ≡ some (amounts (c - cpu_of e) (m - memory_of e) (s - storage_of e) (p - pods_of e))
  unfolding sub_one
  sub_one_lem (cpu, q) v hc hm hs hp kc km ks kp =
      let e : ltb_ℤ (pos c) q.milli_value ≡ false = ground arith in
      rw e (
        ap some (
          amounts_eq (sub64_amount c q.milli_value v.0 hc kc) (zero_less m) (zero_less s)
            (zero_less p)))
  sub_one_lem (memory, q) v hc hm hs hp kc km ks kp =
      let e : ltb_ℤ (pos m) q.value ≡ false = ground arith in
      rw e (
        ap some
          (amounts_eq (zero_less c) (sub64_amount m q.value v.1 hm km) (zero_less s) (zero_less p)))
  sub_one_lem (pods, q) v hc hm hs hp kc km ks kp =
      let e : ltb_ℤ (pos p) q.value ≡ false = ground arith in
      rw e (
        ap some
          (amounts_eq (zero_less c) (zero_less m) (zero_less s) (sub64_amount p q.value v.1 hp kp)))
  sub_one_lem (ephemeral_storage, q) v hc hm hs hp kc km ks kp =
      let e : ltb_ℤ (pos s) q.value ≡ false = ground arith in
      rw e (
        ap some
          (amounts_eq (zero_less c) (zero_less m) (sub64_amount s q.value v.1 hs ks) (zero_less p)))
  sub_one_lem (other x, q) v hc hm hs hp kc km ks kp =
      ap some (amounts_eq (zero_less c) (zero_less m) (zero_less s) (zero_less p))

pub add_lem :
    (c m s p : ℕ) (rl : ResourceList)
    → All IsDemand rl
    → c + sum_of cpu_of rl < 2 ^ 63
    → m + sum_of memory_of rl < 2 ^ 63
    → s + sum_of storage_of rl < 2 ^ 63
    → p + sum_of pods_of rl < 2 ^ 63
    → add (amounts c m s p) rl
      ≡ amounts
          (c + sum_of cpu_of rl)
          (m + sum_of memory_of rl)
          (s + sum_of storage_of rl)
          (p + sum_of pods_of rl)
unfolding add
add_lem c m s p [] v hc hm hs hp =
    amounts_eq (zero_more c) (zero_more m) (zero_more s) (zero_more p)
add_lem c m s p (e ∷ rest) v hc hm hs hp =
    rw (add_one_lem c m s p e v.0 (omega arith) (omega arith) (omega arith) (omega arith)) (
      add_lem (c + cpu_of e) (m + memory_of e) (s + storage_of e) (p + pods_of e) rest v.1
        (omega arith) (omega arith) (omega arith) (omega arith)
      ∙ amounts_eq (ap pos (omega arith)) (ap pos (omega arith)) (ap pos (omega arith))
          (ap pos (omega arith)))

pub sub_lem :
    (c m s p : ℕ) (rl : ResourceList)
    → All IsDemand rl
    → sum_of cpu_of rl ≤ c
    → sum_of memory_of rl ≤ m
    → sum_of storage_of rl ≤ s
    → sum_of pods_of rl ≤ p
    → c < 2 ^ 63
    → m < 2 ^ 63
    → s < 2 ^ 63
    → p < 2 ^ 63
    → sub (amounts c m s p) rl ≡ (
      amounts
          (c - sum_of cpu_of rl)
          (m - sum_of memory_of rl)
          (s - sum_of storage_of rl)
          (p - sum_of pods_of rl),
      false,
    )
unfolding sub
sub_lem c m s p [] v hc hm hs hp kc km ks kp =
    ap (λ r. (r, false)) (amounts_eq (zero_less c) (zero_less m) (zero_less s) (zero_less p))
sub_lem c m s p (e ∷ rest) v hc hm hs hp kc km ks kp =
    rw
      (
        sub_one_lem c m s p e v.0 (omega arith) (omega arith) (omega arith) (omega arith) kc km ks
            kp,
        sub,
      )
      (sub_lem (c - cpu_of e) (m - memory_of e) (s - storage_of e) (p - pods_of e) rest v.1
          (omega arith) (omega arith) (omega arith) (omega arith) (omega arith) (omega arith)
          (omega arith) (omega arith)
        ∙ ap (λ r. (r, false))
            (amounts_eq (ap pos (omega arith)) (ap pos (omega arith)) (ap pos (omega arith))
              (ap pos (omega arith))))

pub sum_of-Permᴰ : (f : Entry → ℕ) (xs ys : ResourceList) → Permᴰ xs ys → sum_of f ys ≡ sum_of f xs
sum_of-Permᴰ f xs ys Permᴰ.nil = refl
sum_of-Permᴰ f (a ∷ xs) (b ∷ ys) (Permᴰ.cons e h) = omega (arith, ap f e, sum_of-Permᴰ f xs ys h)
sum_of-Permᴰ f xs ys (Permᴰ.swap e h) = omega (arith, ap f e, ap f h)
sum_of-Permᴰ f xs zs (Permᴰ.trans {l₂ = ys} h k) = sum_of-Permᴰ f ys zs k ∙ sum_of-Permᴰ f xs ys h

-- Sub takes away what Add has added, whatever the orders are in which the two iterate over the
-- entries, and does not fail.
pub sub-add :
    (c m s p : ℕ) (rl rl' : ResourceList)
    → All IsDemand rl
    → All IsDemand rl'
    → Permᴰ rl rl'
    → c + sum_of cpu_of rl < 2 ^ 63
    → m + sum_of memory_of rl < 2 ^ 63
    → s + sum_of storage_of rl < 2 ^ 63
    → p + sum_of pods_of rl < 2 ^ 63
    → sub (add (amounts c m s p) rl) rl' ≡ (amounts c m s p, false)
sub-add c m s p rl rl' v w h hc hm hs hp =
    let ec = sum_of-Permᴰ cpu_of rl rl' h in
    let em = sum_of-Permᴰ memory_of rl rl' h in
    let es = sum_of-Permᴰ storage_of rl rl' h in
    let ep = sum_of-Permᴰ pods_of rl rl' h in
    rw (add_lem c m s p rl v hc hm hs hp) (
      sub_lem (c + sum_of cpu_of rl) (m + sum_of memory_of rl) (s + sum_of storage_of rl)
        (p + sum_of pods_of rl) rl' w (omega arith) (omega arith) (omega arith) (omega arith) hc hm
        hs hp
      ∙ ap (λ r. (r, false))
          (amounts_eq (ap pos (omega arith)) (ap pos (omega arith)) (ap pos (omega arith))
            (ap pos (omega arith))))
