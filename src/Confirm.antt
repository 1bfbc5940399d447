-- ===== src/Confirm.antt =====
-- The confirmation between the rounds of a rollout (checkUpgradeConfirm in
-- pkg/controllers/extendeddeployment/controller.go). The call that writes the annotations to the API
-- server, with its retries on a conflict, is a parameter.
pub mod Rounds
use extended_deployment.Base.{
  String, str_eq, Bool, true, false, if◌then◌else◌, List, Option, none, some, lookup, put_key,
  delete_key, Error,
}
use extended_deployment.Api.{Strategy}
use extended_deployment.Adapter.{Outcome, done, fail}
use extended_deployment.Grouping.{Annotations}

abbrev pub annotation_upgrade_confirm : String
annotation_upgrade_confirm = "deployment.extendeddeployment.io/upgrade-confirm"

abbrev pub confirm_true : String
confirm_true = "true"

abbrev pub confirm_false : String
confirm_false = "false"

module _ {S : Type 0} (write : Annotations → S → Outcome S (Unit {0})) where
  -- Writes the annotations and answers whether to wait.
  abbrev answer : Bool → Annotations → S → Outcome S Bool
  answer wait anno s = elim (write anno s) [ done u t ↦ done wait t | fail e t ↦ fail e t ]

  unfoldable pub confirmed : Strategy → Annotations → S → Outcome S Bool
  confirmed strategy anno s =
      if strategy.need_first_confirm
      then done false s
      else answer false (delete_key annotation_upgrade_confirm anno) s

  unfoldable pub check_upgrade_confirm : Strategy → Annotations → S → Outcome S Bool
  unfolding confirmed
  check_upgrade_confirm strategy anno s =
      if strategy.need_waiting_for_confirm
      then elim (lookup annotation_upgrade_confirm anno) [
        | none ↦ answer true (put_key annotation_upgrade_confirm confirm_false anno) s
        | some confirm ↦
            if str_eq confirm confirm_true then confirmed strategy anno s else done true s
      ]
      else elim (lookup annotation_upgrade_confirm anno) [
        | none ↦ done false s
        | some confirm ↦ answer false (delete_key annotation_upgrade_confirm anno) s
      ]
