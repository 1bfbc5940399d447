-- ===== src/InplaceSet/Conditions.antt =====
-- The conditions in the status of an in-place set (GetCondition, SetCondition, RemoveCondition and
-- filterOutCondition of pkg/controllers/inplaceset/controller.go).
use extended_deployment.Base.{
  String, str_eq, str_eq_refl, str_eq_other, eq_iff, ◌≡◌, ◌≢◌, sym, refl, ◌∙◌, ap, inl, inr, Bool,
  true, false, ◌&&◌, Bool-cases, Option-cases, if◌then◌else◌, List, [], ◌∷◌, ◌++◌, Option, none,
  some, arith,
}

pub record Condition : Type 0 where
  pub kind : String
  pub status : String
  pub reason : String
  pub message : String

unfoldable pub get_condition : List Condition → String → Option Condition
get_condition [] kind = none
get_condition (c ∷ rest) kind = if str_eq c.kind kind then some c else get_condition rest kind

unfoldable pub filter_out_condition : List Condition → String → List Condition
filter_out_condition [] kind = []
filter_out_condition (c ∷ rest) kind =
    if str_eq c.kind kind
    then filter_out_condition rest kind
    else c ∷ filter_out_condition rest kind

abbrev pub remove_condition : List Condition → String → List Condition
remove_condition conditions kind = filter_out_condition conditions kind

abbrev is_same : Option Condition → Condition → Bool
is_same none c = false
is_same (some old) c = str_eq old.status c.status && str_eq old.reason c.reason

unfoldable pub set_condition : List Condition → Condition → List Condition
unfolding get_condition filter_out_condition
set_condition conditions c =
    if is_same (get_condition conditions c.kind) c
    then conditions
    else filter_out_condition conditions c.kind ++ (c ∷ [])

get_condition-filter_other :
    (conditions : List Condition) (kind other : String) (tail : List Condition)
    → other ≢ kind
    → get_condition (filter_out_condition conditions kind ++ tail) other
      ≡ get_condition (conditions ++ tail) other
unfolding get_condition filter_out_condition
get_condition-filter_other [] kind other tail d = refl
get_condition-filter_other (c ∷ rest) kind other tail d = elim (Bool-cases (str_eq c.kind kind)) [
  | inl e ↦
      let n = str_eq_other c.kind other (λ q. d (sym q ∙ (eq_iff c.kind kind).0 e)) in
      ground (arith, e, n, get_condition-filter_other rest kind other tail d)
  | inr e ↦ ground (arith, e, get_condition-filter_other rest kind other tail d)
]

get_condition-filter :
    (conditions : List Condition) (kind : String) (tail : List Condition)
    → get_condition (filter_out_condition conditions kind ++ tail) kind ≡ get_condition tail kind
unfolding get_condition filter_out_condition
get_condition-filter [] kind tail = refl
get_condition-filter (c ∷ rest) kind tail = elim (Bool-cases (str_eq c.kind kind)) [
  | inl e ↦ ground (arith, e, get_condition-filter rest kind tail)
  | inr e ↦ ground (arith, e, get_condition-filter rest kind tail)
]

get_condition-append_other :
    (conditions : List Condition) (c : Condition) (other : String)
    → other ≢ c.kind
    → get_condition (conditions ++ (c ∷ [])) other ≡ get_condition conditions other
unfolding get_condition
get_condition-append_other [] c other d = rw (str_eq_other c.kind other (λ q. d (sym q))) refl
get_condition-append_other (x ∷ rest) c other d =
    ground (arith, get_condition-append_other rest c other d)

-- A condition that is set is found, with its status and reason, though with the old message where
-- these are as they were; and every other kind of condition is found as before.
pub set_condition_lem :
    (conditions : List Condition) (c : Condition)
    → ((found : Condition) × (get_condition (set_condition conditions c) c.kind ≡ some found)
        × (found.status ≡ c.status)
        × (found.reason ≡ c.reason))
      × ((other : String)
          → other ≢ c.kind
          → get_condition (set_condition conditions c) other ≡ get_condition conditions other)
unfolding set_condition get_condition
set_condition_lem conditions c =
    let changed : is_same (get_condition conditions c.kind) c ≡ false
        → set_condition conditions c ≡ filter_out_condition conditions c.kind ++ (c ∷ []) =
      λ e. rw (e, set_condition) refl in
    elim (Bool-cases (is_same (get_condition conditions c.kind) c)) [
      | inl e ↦ elim (Option-cases (get_condition conditions c.kind)) [
        | inl n ↦ absurd (ground (arith, e, n))
        | inr (old, n) ↦
            let s : str_eq old.status c.status ≡ true = ground (arith, e, n) in
            let r : str_eq old.reason c.reason ≡ true = ground (arith, e, n) in
            rw (e, set_condition)
              (
                (old, n, (eq_iff old.status c.status).0 s, (eq_iff old.reason c.reason).0 r),
                λ other d. refl,
              )
      ]
      | inr e ↦ (
        (
          c,
          ap (λ xs. get_condition xs c.kind) (changed e)
              ∙ get_condition-filter conditions c.kind (c ∷ [])
              ∙ rw (str_eq_refl c.kind) refl,
          refl,
          refl,
        ),
        λ other d.
            ap (λ xs. get_condition xs other) (changed e)
            ∙ get_condition-filter_other conditions c.kind other (c ∷ []) d
            ∙ get_condition-append_other conditions c other d,
      )
    ]

pub remove_condition_lem :
    (conditions : List Condition) (kind : String)
    → (get_condition (remove_condition conditions kind) kind ≡ none)
      × ((other : String)
          → other ≢ kind
          → get_condition (remove_condition conditions kind) other ≡ get_condition conditions other)
unfolding get_condition filter_out_condition
remove_condition_lem [] kind = (refl, λ other d. refl)
remove_condition_lem (c ∷ rest) kind =
    let (gone, kept) = remove_condition_lem rest kind in
    elim (Bool-cases (str_eq c.kind kind)) [
      | inl e ↦ (
        ground (arith, e, gone),
        λ other d.
            let n = str_eq_other c.kind other (λ q. d (sym q ∙ (eq_iff c.kind kind).0 e)) in
            ground (arith, e, n, kept other d),
      )
      | inr e ↦ (ground (arith, e, gone), λ other d. ground (arith, e, kept other d))
    ]
