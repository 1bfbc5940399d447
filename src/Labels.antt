-- ===== src/Labels.antt =====
-- Labels, selectors and the affinity of nodes (pkg/utils/label_utils.go). A map is an association list in the
-- order of one iteration, and a copy is the list itself. The list of requirements is sorted by
-- its keys, which differ, so that every sorting algorithm gives the list of the insertion sort.
pub mod Texts
pub mod Sorting
pub mod Affinity
use Prim.Native.String.{compare}
use text.Mathlib.Text.{is_lt}
use extended_deployment.Base.{
  String, str_eq, Bool, if◌then◌else◌, List, [], ◌∷◌, ◌++◌, Option, none, some, put_key, delete_key,
}
use extended_deployment.Adapter.Order.{sort}

abbrev pub Labels : Type 0
Labels = List (String × String)

unfoldable pub clone_and_add_label : Labels → String → String → Labels
clone_and_add_label labels key value = if str_eq key "" then labels else put_key key value labels

unfoldable pub clone_and_remove_label : Labels → String → Labels
clone_and_remove_label labels key = if str_eq key "" then labels else delete_key key labels

-- A requirement of a selector, or of a node.
pub record Requirement : Type 0 where
  pub key : String
  pub operator : String
  pub values : List String

pub record LabelSelector : Type 0 where
  pub match_labels : Labels
  pub match_expressions : List Requirement

unfoldable pub clone_selector_and_add_label : LabelSelector → String → String → LabelSelector
clone_selector_and_add_label selector key value =
    if str_eq key ""
    then selector
    else record selector { match_labels = put_key key value selector.match_labels }

-- The terms that a node must match one of, and the preferences, which stay.
pub record NodeAffinity : Type 0 where
  pub required : Option (List (List Requirement))
  pub preferred : List String

abbrev pub empty_affinity : NodeAffinity
empty_affinity = record { required = none; preferred = [] }

abbrev pub is_in : String × String → Requirement
is_in (key, value) = record { key = key; operator = "In"; values = value ∷ [] }

abbrev pub requirements : Labels → List Requirement
requirements [] = []
requirements (label ∷ rest) = is_in label ∷ requirements rest

abbrev pub less_key : Requirement → Requirement → Bool
less_key a b = is_lt (compare a.key b.key)

abbrev pub terms : Option (List (List Requirement)) → List (List Requirement)
terms none = []
terms (some found) = found

abbrev pub given : Option NodeAffinity → NodeAffinity
given none = empty_affinity
given (some affinity) = affinity

unfoldable pub clone_node_affinity_and_add : Option NodeAffinity → Labels → NodeAffinity
clone_node_affinity_and_add affinity [] = given affinity
clone_node_affinity_and_add affinity (label ∷ rest) = record (given affinity) {
  required =
      some (terms (given affinity).required ++ (sort less_key (requirements (label ∷ rest)) ∷ []));
}
