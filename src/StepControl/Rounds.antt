-- ===== src/StepControl/Rounds.antt =====
-- Step control over a whole rollout: bounds of one step, and the rounds to the end.
use Prim.Native.Nat.{min, max}
use native.Mathlib.Decide.{dec_le}
use extended_deployment.Base.{
  ◌⊎◌, inl, inr, ◌∙◌, ap, if◌then◌else◌, ◌==◌, ℕ, zero, suc, ◌+◌, ◌-◌, ◌*◌, ◌≤◌, ◌<◌, ◌^◌, ◌≡◌,
  refl, ℤ, pos, sub_ℕ, add32, arith,
}
use extended_deployment.Api.{
  Strategy, RolloutStrategyType, beta_rollout, group_rollout, other_rollout,
}
use extended_deployment.StepControl.{batch_step, calculate_step_size}

-- The replicas after one more round.
pub next_replicas : Strategy → ℤ → ℤ → ℤ
next_replicas strategy desired replicas =
    add32 replicas (calculate_step_size strategy desired replicas)

module _ (strategy : Strategy) (d r b : ℕ) (hd : d < 2 ^ 31) (hr : r < 2 ^ 31) (hb : b < 2 ^ 31)
    (e : batch_step strategy.rollout_strategy strategy.batch_size (pos r) ≡ pos b) where
  pub step_up : r ≤ d → calculate_step_size strategy (pos d) (pos r) ≡ pos (min b (d - r))
  unfolding calculate_step_size
  step_up h = rw e (ground arith)

  step_down : d < r → calculate_step_size strategy (pos d) (pos r) ≡ sub_ℕ 0 (min b (r - d))
  unfolding calculate_step_size
  step_down h = rw e (ground arith)

  next_up : r ≤ d → next_replicas strategy (pos d) (pos r) ≡ pos (min (r + b) d)
  unfolding next_replicas add32
  next_up h = rw (step_up h) (ground arith)

  next_down : d < r → next_replicas strategy (pos d) (pos r) ≡ pos (max (r - b) d)
  unfolding next_replicas add32
  next_down h = rw (step_down h) (ground arith)

-- The replicas after a number of rounds, each of which finds the last one completed.
pub rounds : Strategy → ℤ → ℕ → ℤ → ℤ
rounds strategy desired zero replicas = replicas
rounds strategy desired (suc n) replicas =
    rounds strategy desired n (next_replicas strategy desired replicas)

pub batch_step-count :
    (t : RolloutStrategyType) (b r : ℕ)
    → (n : ℕ) × (batch_step t (pos b) (pos r) ≡ pos n) × (n ≤ max b 1)
unfolding batch_step
batch_step-count group_rollout b r = (b, refl, omega arith)
batch_step-count beta_rollout zero r = (if r == 0 then 1 else 0, ground arith, ground arith)
batch_step-count beta_rollout (suc b) r = (if r == 0 then 1 else suc b, ground arith, ground arith)
batch_step-count (other_rollout s) b r = (0, refl, omega arith)

-- One round never passes the desired replicas, never moves away from them, and changes the
-- replicas by at most one batch (by one where the batch size is 0).
next_replicas_bounds :
    (strategy : Strategy) (d r b : ℕ)
    → d < 2 ^ 31
    → r < 2 ^ 31
    → b < 2 ^ 31
    → strategy.batch_size ≡ pos b
    → (n : ℕ) × (next_replicas strategy (pos d) (pos r) ≡ pos n)
      × (min r d ≤ n)
      × (n ≤ max r d)
      × (n ≤ r + max b 1)
      × (r ≤ n + max b 1)
next_replicas_bounds strategy d r b hd hr hb e = elim (dec_le r d) [
  | yes h ↦ (
    min (r + s) d,
    next_up strategy d r s hd hr hs e' h,
    omega arith,
    omega arith,
    omega (arith, small),
    omega (arith, small),
  )
  | no h ↦ (
    max (r - s) d,
    next_down strategy d r s hd hr hs e' (omega arith),
    omega arith,
    omega arith,
    omega (arith, small),
    omega (arith, small),
  )
]
  where
    s : ℕ
    s = (batch_step-count strategy.rollout_strategy b r).0

    small : s ≤ max b 1
    small = (batch_step-count strategy.rollout_strategy b r).2

    hs : s < 2 ^ 31
    hs = omega (arith, small)

    e' : batch_step strategy.rollout_strategy strategy.batch_size (pos r) ≡ pos s
    e' = rw e (batch_step-count strategy.rollout_strategy b r).1

module _ (strategy : Strategy) (b : ℕ) (hb : b < 2 ^ 31) (e : strategy.batch_size ≡ pos b) where
  group_step :
      strategy.rollout_strategy ≡ group_rollout
      → (r : ℕ) → batch_step strategy.rollout_strategy strategy.batch_size (pos r) ≡ pos b
  unfolding batch_step
  group_step g r = rw (g, e)

  beta_step :
      strategy.rollout_strategy ≡ beta_rollout
      → (r : ℕ) → batch_step strategy.rollout_strategy strategy.batch_size (pos (suc r)) ≡ pos b
  unfolding batch_step
  beta_step g r = rw (g, e) (ground arith)

  beta_first :
      strategy.rollout_strategy ≡ beta_rollout
      → batch_step strategy.rollout_strategy strategy.batch_size (pos 0) ≡ pos 1
  unfolding batch_step
  beta_first g = rw g (ground arith)

  group_up :
      strategy.rollout_strategy ≡ group_rollout
      → (d : ℕ) → d < 2 ^ 31
      → (n r : ℕ) → r ≤ d
      → rounds strategy (pos d) n (pos r) ≡ pos (min (r + n * b) d)
  unfolding rounds
  group_up g d hd zero r h = ground arith
  group_up g d hd (suc n) r h =
      rw (next_up strategy d r b hd (omega arith) hb (group_step g r) h)
        (group_up g d hd n (min (r + b) d) (omega arith) ∙ ap pos (grind arith))

  group_down :
      strategy.rollout_strategy ≡ group_rollout
      → (d : ℕ) → d < 2 ^ 31
      → (n r : ℕ) → r < 2 ^ 31
      → d ≤ r
      → rounds strategy (pos d) n (pos r) ≡ pos (max (r - n * b) d)
  unfolding rounds
  group_down g d hd zero r hr h = ground arith
  group_down g d hd (suc n) r hr h = elim (dec_le r d) [
    | yes k ↦
        rw (next_up strategy d r b hd hr hb (group_step g r) k)
          (group_down g d hd n (min (r + b) d) (omega arith) (omega arith) ∙ ap pos (grind arith))
    | no k ↦
        rw (next_down strategy d r b hd hr hb (group_step g r) (omega arith))
          (group_down g d hd n (max (r - b) d) (omega arith) (omega arith) ∙ ap pos (grind arith))
  ]

  beta_up :
      strategy.rollout_strategy ≡ beta_rollout
      → (d : ℕ) → d < 2 ^ 31
      → (n r : ℕ) → suc r ≤ d
      → rounds strategy (pos d) n (pos (suc r)) ≡ pos (min (suc r + n * b) d)
  unfolding rounds
  beta_up g d hd zero r h = ground arith
  beta_up g d hd (suc n) r h =
      let e : min (suc r + b) d ≡ suc (min (r + b) (d - 1)) = omega arith in
      rw (next_up strategy d (suc r) b hd (omega arith) hb (beta_step g r) h, e)
        (beta_up g d hd n (min (r + b) (d - 1)) (omega arith) ∙ ap pos (grind arith))

batch_step-positive :
    (strategy : Strategy) (b r : ℕ)
    → b < 2 ^ 31
    → 0 < b
    → strategy.batch_size ≡ pos b
    → (strategy.rollout_strategy ≡ group_rollout) ⊎ (strategy.rollout_strategy ≡ beta_rollout)
    → (s : ℕ) × (batch_step strategy.rollout_strategy strategy.batch_size (pos r) ≡ pos s)
      × (0 < s)
      × (s ≤ b)
batch_step-positive strategy b r hb p e (inl g) =
    (b, group_step strategy b hb e g r, p, omega arith)
batch_step-positive strategy b zero hb p e (inr g) =
    (1, beta_first strategy b hb e g, omega arith, p)
batch_step-positive strategy b (suc r) hb p e (inr g) =
    (b, beta_step strategy b hb e g r, p, omega arith)

-- Under the Group and the Beta strategy, with a batch size of at least 1, a rollout ends: once
-- there have been as many rounds as replicas to add or to remove, the replicas are the desired ones.
pub rounds_converge :
    (strategy : Strategy) (d b n r : ℕ)
    → d < 2 ^ 31
    → r < 2 ^ 31
    → b < 2 ^ 31
    → 0 < b
    → strategy.batch_size ≡ pos b
    → (strategy.rollout_strategy ≡ group_rollout) ⊎ (strategy.rollout_strategy ≡ beta_rollout)
    → d ≤ r + n
    → r ≤ d + n
    → rounds strategy (pos d) n (pos r) ≡ pos d
unfolding rounds
rounds_converge strategy d b zero r hd hr hb p e g up down = ap pos (omega arith)
rounds_converge strategy d b (suc n) r hd hr hb p e g up down =
    let (s, es, sp, sb) = batch_step-positive strategy b r hb p e g in
    elim (dec_le r d) [
      | yes k ↦ rw (next_up strategy d r s hd hr (omega arith) es k) (
          rounds_converge strategy d b n (min (r + s) d) hd (omega arith) hb p e g (omega arith)
            (omega arith))
      | no k ↦ rw (next_down strategy d r s hd hr (omega arith) es (omega arith)) (
          rounds_converge strategy d b n (max (r - s) d) hd (omega arith) hb p e g (omega arith)
            (omega arith))
    ]

-- Under the Group strategy n rounds add n batches, or remove them, up to the desired replicas.
pub group_rounds :
    (strategy : Strategy) (d b n r : ℕ)
    → d < 2 ^ 31
    → r < 2 ^ 31
    → b < 2 ^ 31
    → strategy.batch_size ≡ pos b
    → strategy.rollout_strategy ≡ group_rollout
    → (r ≤ d → rounds strategy (pos d) n (pos r) ≡ pos (min (r + n * b) d))
      × (d ≤ r → rounds strategy (pos d) n (pos r) ≡ pos (max (r - n * b) d))
group_rounds strategy d b n r hd hr hb e g =
    (group_up strategy b hb e g d hd n r, group_down strategy b hb e g d hd n r hr)

-- Under the Beta strategy a first rollout places one replica in its first round, and each round
-- after that adds one batch, up to the desired replicas.
pub beta_rounds :
    (strategy : Strategy) (d b n : ℕ)
    → 0 < d
    → d < 2 ^ 31
    → b < 2 ^ 31
    → strategy.batch_size ≡ pos b
    → strategy.rollout_strategy ≡ beta_rollout
    → rounds strategy (pos d) (suc n) (pos 0) ≡ pos (min (1 + n * b) d)
unfolding rounds
beta_rounds strategy d b n h hd hb e g =
    let one : min (0 + 1) d ≡ 1 = omega arith in
    rw
      (
        next_up strategy d 0 1 hd (omega arith) (omega arith) (beta_first strategy b hb e g)
            (omega arith),
        one,
      )
      (beta_up strategy b hb e g d hd n 0 h)
