-- ===== src/DeployRegion/Flags.antt =====
-- What the annotation of failures says, and the status of a region once it is checked.
use mathlib.Core.Logic.{◌⊎◌}
use extended_deployment.Base.{
  String, str_eq, eq_iff, ◌≡◌, ◌≢◌, refl, sym, ◌∙◌, ap, true, Bool-cases, Option-cases,
  Result-cases, inl, inr, List, [], ◌∷◌, Option, none, some, lookup, put_key, delete_key,
  lookup-put_key, lookup-put_key_other, lookup-delete_key, lookup-delete_key_other, arith,
}
use extended_deployment.Adapter.{Outcome-cases, done}
use extended_deployment.Adapter.Order.{sort}
use extended_deployment.Grouping.{or_empty}
use extended_deployment.DeployRegion.Cache.{
  RegionStatus, status_unknown, status_ok, status_failed, RegionResourceCache, AllResourceCache,
  region_status,
}
use extended_deployment.DeployRegion.Failure.{
  Deployment, World, annotation_failed_flag, less_string, join_with, set_failure_annotation,
  flag_all, status_eq, check_region_status, flagged,
}
use extended_deployment.DeployRegion.Links.{AllLinked, equal_or_not}

-- What the annotation is to say of the failed regions.
abbrev pub wanted : List String → Option String
wanted [] = none
wanted (r ∷ rs) = some (join_with "," (sort less_string (r ∷ rs)))

abbrev pub flag_of : Deployment → Option String
flag_of deploy = lookup annotation_failed_flag deploy.annotations

-- A deployment that differs from another in its flag only.
pub record IsFlagged (deploy : Deployment) (names : List String) (deploy' : Deployment)
    : Type 0 where
  pub flag : flag_of deploy' ≡ wanted names
  pub others :
      (key : String)
      → key ≢ annotation_failed_flag
      → lookup key deploy'.annotations ≡ lookup key deploy.annotations
  pub regions_stay : deploy'.regions ≡ deploy.regions

module _ (w : World) where
  -- Either the annotation of a deployment already reads as the sorted names of its failed regions,
  -- joined by commas, or as nothing without one, and the API server is not called; or the result is
  -- that of one update, by which the annotation is just that, or is gone without a failed region,
  -- and every other annotation and the regions are as before.
  pub set_failure_annotation_lem :
      (key : String) (deploy : Deployment) (names : List String) (s : w.State)
      → ((or_empty (flag_of deploy) ≡ or_empty (wanted names))
          × (set_failure_annotation w key deploy names s ≡ done tt s))
        ⊎ ((deploy' : Deployment) × (set_failure_annotation w key deploy names s
              ≡ w.update key deploy' s)
            × IsFlagged deploy names deploy')
  unfolding set_failure_annotation
  set_failure_annotation_lem key deploy [] s =
      elim (Option-cases (lookup annotation_failed_flag deploy.annotations)) [
        | inl e ↦ inl (ap or_empty e, rw (e, set_failure_annotation) refl)
        | inr (text, e) ↦ inr (
          flagged deploy (delete_key annotation_failed_flag deploy.annotations),
          rw (e, set_failure_annotation) refl,
          record {
            flag = lookup-delete_key annotation_failed_flag deploy.annotations;
            others = λ other d.
                lookup-delete_key_other annotation_failed_flag other deploy.annotations d;
            regions_stay = refl;
          },
        )
      ]
  set_failure_annotation_lem key deploy (r ∷ rs) s =
      let value = join_with "," (sort less_string (r ∷ rs)) in
      elim (Bool-cases (str_eq value (or_empty (flag_of deploy)))) [
        | inl e ↦ inl (
          sym ((eq_iff value (or_empty (flag_of deploy))).0 e),
          rw (e, set_failure_annotation) refl,
        )
        | inr e ↦ inr (
          flagged deploy (put_key annotation_failed_flag value deploy.annotations),
          rw (e, set_failure_annotation) refl,
          record {
            flag = lookup-put_key annotation_failed_flag value deploy.annotations;
            others = λ other d.
                lookup-put_key_other annotation_failed_flag other value deploy.annotations d;
            regions_stay = refl;
          },
        )
      ]

status_eq-eq : (a b : RegionStatus) → status_eq a b ≡ true → a ≡ b
status_eq-eq status_unknown status_unknown h = refl
status_eq-eq status_ok status_ok h = refl
status_eq-eq status_failed status_failed h = refl
status_eq-eq status_unknown status_ok h = absurd (ground (arith, h))
status_eq-eq status_unknown status_failed h = absurd (ground (arith, h))
status_eq-eq status_ok status_unknown h = absurd (ground (arith, h))
status_eq-eq status_ok status_failed h = absurd (ground (arith, h))
status_eq-eq status_failed status_unknown h = absurd (ground (arith, h))
status_eq-eq status_failed status_ok h = absurd (ground (arith, h))

-- The cache after the status of one region is checked.
pub record IsChecked (region : String) (c c' : AllResourceCache) : Type 0 where
  pub before : RegionResourceCache
  pub before_found : lookup region c.regions ≡ some before
  pub found :
      lookup region c'.regions ≡ some (record before { status = region_status before.nodes })
  pub others : (other : String) → other ≢ region → lookup other c'.regions ≡ lookup other c.regions
  pub links_stay : c'.node_to_region ≡ c.node_to_region

pub IsChecked-AllLinked :
    (region : String) (c c' : AllResourceCache) → IsChecked region c c' → AllLinked c → AllLinked c'
IsChecked-AllLinked region c c' k v name at h =
    let l = v name at (sym (ap (λ m. lookup name m) k.links_stay) ∙ h) in
    elim (equal_or_not at region) [
      | inr d ↦ record {
        cache = l.cache;
        region_found = k.others at d ∙ l.region_found;
        node = l.node;
        node_found = l.node_found;
      }
      | inl q ↦
          let same : k.before ≡ l.cache =
            ground (arith, l.region_found, ap (λ x. lookup x c.regions) q, k.before_found) in
          record {
            cache = record (k.before) { status = region_status k.before.nodes };
            region_found = rw q k.found;
            node = l.node;
            node_found = ap (λ r. lookup name r.nodes) same ∙ l.node_found;
          }
    ]

module _ (w : World) where
  pub check_region_status-IsChecked :
      (region : String) (c c' : AllResourceCache) (s t : w.State)
      → check_region_status w region c s ≡ done c' t
      → IsChecked region c c'
  unfolding check_region_status
  check_region_status-IsChecked region c c' s t h = elim (Option-cases (lookup region c.regions)) [
    | inl e ↦ absurd (ground (arith, h, e))
    | inr (r, e) ↦ elim (Bool-cases (status_eq r.status (region_status r.nodes))) [
      | inl q ↦
          let same : c ≡ c' = ground (arith, h, e, q) in
          let current = status_eq-eq r.status (region_status r.nodes) q in
          record {
            before = r;
            before_found = e;
            found = rw (sym same, sym current) e;
            others = λ other d. rw (sym same) refl;
            links_stay = rw (sym same) refl;
          }
      | inr q ↦
          let new : AllResourceCache = record c {
            regions = put_key region (record r { status = region_status r.nodes }) c.regions;
          } in
          let same : new ≡ c' = elim (Result-cases (w.in_region region s)) [
            | inl (x, k) ↦ absurd (ground (arith, h, e, q, k))
            | inr (keys, k) ↦
                elim (Outcome-cases (flag_all w region (region_status r.nodes) c keys s)) [
                  | inl (u, s', f) ↦ ground (arith, h, e, q, k, f)
                  | inr (x, s', f) ↦ absurd (ground (arith, h, e, q, k, f))
                ]
          ] in
          record {
            before = r;
            before_found = e;
            found =
                rw (sym same)
                  (lookup-put_key region (record r { status = region_status r.nodes }) c.regions);
            others = λ other d. rw (sym same) (
                lookup-put_key_other region other (record r { status = region_status r.nodes })
                  c.regions d);
            links_stay = rw (sym same) refl;
          }
    ]
  ]
