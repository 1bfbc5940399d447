-- ===== src/Reschedule/Flagged.antt =====
-- The annotation of failures, which one controller writes (setFailureAnnotation in
-- pkg/controllers/deployregion/failure.go) and another reads (GetFailedRegions in
-- pkg/controllers/reschedule/deployment.go).
use extended_deployment.Base.{
  String, str_eq, ◌≡◌, ◌∙◌, refl, sym, ap, Bool, true, false, ◌||◌, Bool-cases, Option-cases, inl,
  inr, ◌⊎◌, List, [], ◌∷◌, none, lookup, put_key, All, eq_iff, arith,
}
use mathlib.Core.Bool.{true≢false, or-false}
use extended_deployment.Adapter.{done}
use extended_deployment.Adapter.Order.{sort, sort-All, any, any-sort}
use extended_deployment.Api.{Region}
use extended_deployment.Grouping.{Annotations, or_empty}
use extended_deployment.DeployRegion.Failure.{
  Deployment, World, annotation_failed_flag, less_string, join_with, set_failure_annotation,
}
use extended_deployment.DeployRegion.Flags.{wanted, set_failure_annotation_lem}
use extended_deployment.Reschedule.{failed_in}
use extended_deployment.Reschedule.Deployment.{all_failed, add_regions, get_failed_regions}
use extended_deployment.Reschedule.Split.{IsPlain, split-join, join-some}

abbrev pub named : String → List String → Bool
named name xs = any (λ x. str_eq x name) xs

module _ (name : String) where
  same-or : (x y : String) → str_eq x y ≡ true → str_eq x name ≡ str_eq y name
  same-or x y e = ap (λ z. str_eq z name) ((eq_iff x y).0 e)

  same-as_other : (x y : String) → str_eq y name ≡ true → str_eq x name ≡ str_eq x y
  same-as_other x y e = ap (str_eq x) (sym ((eq_iff y name).0 e))

  failed_in-put_true :
      (x : String) (m : List (String × Bool))
      → failed_in (put_key x true m) name ≡ (str_eq x name || failed_in m name)
  failed_in-put_true x [] = ground (arith)
  failed_in-put_true x ((y, b) ∷ rest) = elim (Bool-cases (str_eq x y)) [
    | inl e ↦ ground (arith, e, same-or x y e)
    | inr e ↦ elim (Bool-cases (str_eq y name)) [
      | inl q ↦ ground (arith, e, q, same-as_other x y q)
      | inr q ↦ ground (arith, e, q, failed_in-put_true x rest)
    ]
  ]

  failed_in-put_false :
      (x : String) (m : List (String × Bool))
      → lookup x m ≡ none
      → failed_in (put_key x false m) name ≡ failed_in m name
  failed_in-put_false x [] h = ground (arith)
  failed_in-put_false x ((y, b) ∷ rest) h = elim (Bool-cases (str_eq x y)) [
    | inl e ↦ absurd (ground (arith, e, h))
    | inr e ↦
        let k : lookup x rest ≡ none = ground (arith, e, h) in
        ground (arith, e, failed_in-put_false x rest k)
  ]

  failed_in-all_failed :
      (xs : List String) (m : List (String × Bool))
      → failed_in (all_failed xs m) name ≡ (named name xs || failed_in m name)
  failed_in-all_failed [] m = refl
  failed_in-all_failed (x ∷ xs) m =
      ground (arith, failed_in-all_failed xs (put_key x true m), failed_in-put_true x m)

  failed_in-add_regions :
      (rs : List Region) (m : List (String × Bool))
      → failed_in (add_regions rs m) name ≡ failed_in m name
  failed_in-add_regions [] m = refl
  failed_in-add_regions (r ∷ rs) m = elim (Option-cases (lookup r.name m)) [
    | inl e ↦
        rw e (failed_in-add_regions rs (put_key r.name false m) ∙ failed_in-put_false r.name m e)
    | inr (b, e) ↦ rw e (failed_in-add_regions rs m)
  ]

abbrev pub has_any : List String → Bool
has_any = any (λ name. true)

-- What is read back for a deployment whose failed regions are these.
pub record ReadsBack (names : List String) (found : List (String × Bool) × Bool) : Type 0 where
  pub some_failed : found.1 ≡ has_any names
  pub which : (name : String) → failed_in found.0 name ≡ named name names

abbrev found_for : List Region → List String → List (String × Bool) × Bool
found_for regions names = (add_regions regions (all_failed names []), has_any names)

read-join :
    (anno : Annotations) (regions : List Region) (names : List String)
    → All IsPlain names
    → or_empty (lookup annotation_failed_flag anno) ≡ join_with "," names
    → get_failed_regions anno regions ≡ found_for regions names
unfolding get_failed_regions join_with
read-join anno regions [] h e = elim (Option-cases (lookup annotation_failed_flag anno)) [
  | inl q ↦ rw (q, get_failed_regions) refl
  | inr (text, q) ↦
      let t : text ≡ "" = sym (ap or_empty q) ∙ e in rw (q, get_failed_regions, t) refl
]
read-join anno regions (x ∷ xs) h e =
    let long = join-some x xs h.0.some_text in
    elim (Option-cases (lookup annotation_failed_flag anno)) [
      | inl q ↦
          let t : join_with "," (x ∷ xs) ≡ "" = sym e ∙ ap or_empty q in
          absurd (true≢false (sym (ap (λ y. str_eq y "") t) ∙ long))
      | inr (text, q) ↦
          let t : text ≡ join_with "," (x ∷ xs) = sym (ap or_empty q) ∙ e in
          rw (q, get_failed_regions, t, long, split-join x xs h) refl
    ]

found_for-ReadsBack :
    (regions : List Region) (names : List String)
    → ReadsBack names (found_for regions (sort less_string names))
found_for-ReadsBack regions names = record {
  some_failed = any-sort less_string (λ name. true) names;
  which = λ name.
      rw
        (
          failed_in-add_regions name regions (all_failed (sort less_string names) []),
          failed_in-all_failed name (sort less_string names) [],
          any-sort less_string (λ x. str_eq x name) names,
        )
        (or-false (named name names));
}

read-wanted :
    (anno : Annotations) (regions : List Region) (names : List String)
    → All IsPlain names
    → or_empty (lookup annotation_failed_flag anno) ≡ or_empty (wanted names)
    → ReadsBack names (get_failed_regions anno regions)
unfolding join_with sort
read-wanted anno regions [] h e =
    rw (read-join anno regions [] h e) (found_for-ReadsBack regions [])
read-wanted anno regions (x ∷ xs) h e =
    let sorted = sort-All less_string IsPlain (x ∷ xs) h in
    rw (read-join anno regions (sort less_string (x ∷ xs)) sorted e)
      (found_for-ReadsBack regions (x ∷ xs))

-- Where no failed region's name is empty or has a comma, setFailureAnnotation either leaves a deployment
-- as it is without a call of the API server, or is the update to another deployment. In both
-- cases GetFailedRegions finds in the resulting annotations just the regions whose names were given as
-- failed, in any list of regions, and reports a failed one just where one was given.
pub get_failed_regions-set_failure_annotation :
    (w : World) (key : String) (deploy : Deployment) (names : List String) (s : w.State)
    → All IsPlain names
    → (deploy' : Deployment) × (((deploy' ≡ deploy)
          × (set_failure_annotation w key deploy names s ≡ done tt s))
        ⊎ (set_failure_annotation w key deploy names s ≡ w.update key deploy' s))
      × ((regions : List Region) → ReadsBack names (get_failed_regions deploy'.annotations regions))
get_failed_regions-set_failure_annotation w key deploy names s h =
    elim (set_failure_annotation_lem w key deploy names s) [
      | inl (e, q) ↦
          (deploy, inl (refl, q), λ regions. read-wanted deploy.annotations regions names h e)
      | inr (deploy', q, k) ↦ (
        deploy',
        inr q,
        λ regions. read-wanted deploy'.annotations regions names h (ap or_empty k.flag),
      )
    ]
