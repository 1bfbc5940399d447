-- ===== src/Confirm/Rounds.antt =====
-- A run of checks and confirmations: each check that lets the rollout go on has its own confirmation.
use extended_deployment.Base.{
  String, str_eq, ℕ, suc, ◌+◌, ◌≤◌, ◌≡◌, refl, Bool, true, false, Bool-cases, Option-cases, inl,
  inr, if◌then◌else◌, List, [], ◌∷◌, Option, none, some, lookup, put_key, delete_key,
  lookup-put_key, lookup-delete_key, arith,
}
use extended_deployment.Api.{Strategy}
use extended_deployment.Adapter.{Outcome, done, fail}
use extended_deployment.Grouping.{Annotations}
use extended_deployment.Confirm.{
  annotation_upgrade_confirm, confirm_true, confirm_false, check_upgrade_confirm,
}

-- The controller finds a round ended and checks, or a user confirms.
pub data Event : Type 0 where
  check confirm : Event

-- A server that holds the annotations.
abbrev pub store : Annotations → Annotations → Outcome Annotations (Unit {0})
store new old = done tt new

abbrev pub checked : Strategy → Annotations → Outcome Annotations Bool
checked strategy anno = check_upgrade_confirm store strategy anno anno

abbrev pub state_after : Outcome Annotations Bool → Annotations
state_after (done wait s) = s
state_after (fail e s) = s

-- Whether the check lets the rollout go on.
abbrev pub goes_on : Outcome Annotations Bool → Bool
goes_on (done wait s) = if wait then false else true
goes_on (fail e s) = false

-- The checks of a run that let the rollout go on.
pub rounds_started : Strategy → Annotations → List Event → ℕ
rounds_started strategy anno [] = 0
rounds_started strategy anno (confirm ∷ rest) =
    rounds_started strategy (put_key annotation_upgrade_confirm confirm_true anno) rest
rounds_started strategy anno (check ∷ rest) =
    (if goes_on (checked strategy anno) then 1 else 0)
    + rounds_started strategy (state_after (checked strategy anno)) rest

abbrev pub confirmations : List Event → ℕ
confirmations [] = 0
confirmations (confirm ∷ rest) = suc (confirmations rest)
confirmations (check ∷ rest) = confirmations rest

-- A confirmation that no round has used yet.
abbrev is_true : Option String → Bool
is_true none = false
is_true (some s) = str_eq s confirm_true

abbrev pub pending : Annotations → ℕ
pending anno = if is_true (lookup annotation_upgrade_confirm anno) then 1 else 0

module _ (strategy : Strategy) (w : strategy.need_waiting_for_confirm ≡ true)
    (f : strategy.need_first_confirm ≡ false) where
  check_first :
      (anno : Annotations)
      → lookup annotation_upgrade_confirm anno ≡ none
      → checked strategy anno ≡ done true (put_key annotation_upgrade_confirm confirm_false anno)
  unfolding check_upgrade_confirm
  check_first anno e = rw (w, e, check_upgrade_confirm) refl

  check_confirmed :
      (anno : Annotations) (text : String)
      → lookup annotation_upgrade_confirm anno ≡ some text
      → str_eq text confirm_true ≡ true
      → checked strategy anno ≡ done false (delete_key annotation_upgrade_confirm anno)
  unfolding check_upgrade_confirm
  check_confirmed anno text e q = rw (w, e, q, f, check_upgrade_confirm) refl

  check_waiting :
      (anno : Annotations) (text : String)
      → lookup annotation_upgrade_confirm anno ≡ some text
      → str_eq text confirm_true ≡ false
      → checked strategy anno ≡ done true anno
  unfolding check_upgrade_confirm
  check_waiting anno text e q = rw (w, e, q, check_upgrade_confirm) refl

  check_step :
      (anno : Annotations)
      → (if goes_on (checked strategy anno) then 1 else 0)
          + pending (state_after (checked strategy anno))
        ≤ pending anno
  check_step anno = elim (Option-cases (lookup annotation_upgrade_confirm anno)) [
    | inl e ↦
        rw (check_first anno e, e, lookup-put_key annotation_upgrade_confirm confirm_false anno)
          (omega arith)
    | inr (text, e) ↦ elim (Bool-cases (str_eq text confirm_true)) [
      | inl q ↦
          rw
            (check_confirmed anno text e q, e, q, lookup-delete_key annotation_upgrade_confirm anno)
            (omega arith)
      | inr q ↦ rw (check_waiting anno text e q, e, q) (omega arith)
    ]
  ]

  confirmed_pending :
      (anno : Annotations) → pending (put_key annotation_upgrade_confirm confirm_true anno) ≡ 1
  confirmed_pending anno = rw (lookup-put_key annotation_upgrade_confirm confirm_true anno) refl

-- Where a strategy asks for a confirmation each time, and not only for the first, the checks of a run
-- that let the rollout go on are at most as many as the confirmations in it, and one more where a
-- confirmation was pending before; and a check that comes next after a confirmation does. A check
-- without the annotation waits, too. Rounds that start without a check are not counted.
pub rounds_started-confirmations :
    (strategy : Strategy) (anno : Annotations) (events : List Event)
    → strategy.need_waiting_for_confirm ≡ true
    → strategy.need_first_confirm ≡ false
    → (rounds_started strategy anno events ≤ confirmations events + pending anno)
      × (rounds_started strategy anno (confirm ∷ check ∷ []) ≡ 1)
      × (rounds_started strategy (delete_key annotation_upgrade_confirm anno) (check ∷ []) ≡ 0)
unfolding rounds_started
rounds_started-confirmations strategy anno events w f = (at_most anno events, one, none_without)
  where
    at_most :
        (anno : Annotations) (events : List Event)
        → rounds_started strategy anno events ≤ confirmations events + pending anno
    at_most anno [] = omega arith
    at_most anno (confirm ∷ rest) = omega (
      arith,
      confirmed_pending strategy w f anno,
      at_most (put_key annotation_upgrade_confirm confirm_true anno) rest,
    )
    at_most anno (check ∷ rest) =
        omega
          (arith, check_step strategy w f anno, at_most (state_after (checked strategy anno)) rest)

    one : rounds_started strategy anno (confirm ∷ check ∷ []) ≡ 1
    one =
        rw
          (check_confirmed strategy w f (put_key annotation_upgrade_confirm confirm_true anno)
            confirm_true (lookup-put_key annotation_upgrade_confirm confirm_true anno) refl)
          refl

    none_without :
        rounds_started strategy (delete_key annotation_upgrade_confirm anno) (check ∷ []) ≡ 0
    none_without =
        rw
          (check_first strategy w f (delete_key annotation_upgrade_confirm anno)
            (lookup-delete_key annotation_upgrade_confirm anno))
          refl
