-- ===== src/InplaceSet/Images.antt =====
-- The images that a pod records are those of the update that recorded them.
use extended_deployment.Base.{
  ◌≡◌, ◌≢◌, refl, ap, ◌∙◌, inl, inr, String, str_eq, str_eq_refl, eq_iff, true, Bool-cases, List,
  [], ◌∷◌, All, none, some, ok, lookup, put_key, lookup-put_key, lookup-put_key_other,
  lookup-delete_key_other, arith, leb_ℤ, pos, ℕ,
}
use extended_deployment.InplaceSet.PodState.{
  Pod, Container, Json, UpdateState, PodUpdateSpec, in_place_update_state_key,
  in_place_update_grace_key, get_pod_in_place_update_state, patch_update_spec_to_pod, patched_state,
  set_state, remove_in_place_update_grace, new_images,
}
use extended_deployment.InplaceSet.Batch.{
  UpdateSpec, images_match, images_of, images_from, state_matches, check_pod_in_place_update_tried,
}
use extended_deployment.InplaceSet.Update.{updated_pod, new_state, set_grace}

-- No key occurs twice, as in a Go map.
abbrev pub UniqueKeys : List (String × String) → Type 0
UniqueKeys [] = Unit
UniqueKeys ((name, x) ∷ rest) = (lookup name rest ≡ none) × UniqueKeys rest

abbrev Recorded : List (String × String) → List (String × String) → Type 0
Recorded whole part = All (λ x. lookup x.0 whole ≡ some x.1) part

Recorded-later :
    (name x : String) (rest part : List (String × String))
    → lookup name rest ≡ none
    → Recorded rest part
    → Recorded ((name, x) ∷ rest) part
Recorded-later name x rest [] fresh h = tt
Recorded-later name x rest ((n, v) ∷ part) fresh h = elim (Bool-cases (str_eq n name)) [
  | inl e ↦
      let same : lookup n rest ≡ none = ap (λ k. lookup k rest) ((eq_iff n name).0 e) ∙ fresh in
      absurd (ground (arith, same, h.0))
  | inr e ↦ (rw e h.0, Recorded-later name x rest part fresh h.1)
]

Recorded-self : (images : List (String × String)) → UniqueKeys images → Recorded images images
Recorded-self [] u = tt
Recorded-self ((name, x) ∷ rest) u =
    (rw (str_eq_refl name) refl, Recorded-later name x rest rest u.0 (Recorded-self rest u.1))

images_match-Recorded :
    (part whole : List (String × String)) → Recorded whole part → images_match part whole ≡ true
unfolding images_match
images_match-Recorded [] whole h = refl
images_match-Recorded ((name, x) ∷ rest) whole h =
    rw (h.0, images_match) (rw (str_eq_refl x) (images_match-Recorded rest whole h.1))

pub images_match_refl :
    (images : List (String × String)) → UniqueKeys images → images_match images images ≡ true
images_match_refl images u = images_match-Recorded images images (Recorded-self images u)

put_key-UniqueKeys :
    (name x : String) (images : List (String × String))
    → UniqueKeys images
    → UniqueKeys (put_key name x images)
put_key-UniqueKeys name x [] u = (refl, tt)
put_key-UniqueKeys name x ((n, v) ∷ rest) u = elim (Bool-cases (str_eq name n)) [
  | inl e ↦ rw e u
  | inr e ↦
      let d : n ≢ name = λ q. ground (arith, e, str_eq_refl name, q) in
      rw e (lookup-put_key_other name n x rest d ∙ u.0, put_key-UniqueKeys name x rest u.1)
]

images_from-UniqueKeys :
    (containers : List Container) (images : List (String × String))
    → UniqueKeys images
    → UniqueKeys (images_from containers images)
images_from-UniqueKeys [] images u = u
images_from-UniqueKeys (c ∷ rest) images u =
    images_from-UniqueKeys rest (put_key c.name c.image images)
      (put_key-UniqueKeys c.name c.image images u)

pub images_of-UniqueKeys : (containers : List Container) → UniqueKeys (images_of containers)
images_of-UniqueKeys containers = images_from-UniqueKeys containers [] tt

-- JSON gives back what the test of a tried update reads of a record of this update.
pub record Keeps (json : Json) (spec : UpdateSpec) : Type 0 where
  pub decode :
      (st : UpdateState)
      → st.pod_template_hash ≡ spec.pod_template_hash
      → st.spec_container_images ≡ spec.new_images
      → (r : UpdateState) × (json.unmarshal_state (json.marshal_state st) ≡ ok r)
        × (r.pod_template_hash ≡ spec.pod_template_hash)
        × (r.spec_container_images ≡ spec.new_images)

-- The record of an update is in these annotations.
abbrev pub Records : Json → UpdateSpec → List (String × String) → Type 0
Records json spec annotations =
    (st : UpdateState) × (lookup in_place_update_state_key annotations
      ≡ some (json.marshal_state st))
    × (st.pod_template_hash ≡ spec.pod_template_hash)
    × (st.spec_container_images ≡ spec.new_images)

keys_differ : in_place_update_state_key ≢ in_place_update_grace_key
keys_differ q = ground (arith, (eq_iff in_place_update_state_key in_place_update_grace_key).1 q)

module _ (json : Json) (spec : UpdateSpec) where
  set_state-Records :
      (st : UpdateState) (pod : Pod)
      → st.pod_template_hash ≡ spec.pod_template_hash
      → st.spec_container_images ≡ spec.new_images
      → Records json spec (set_state json st pod).annotations
  set_state-Records st pod hash images = (
    st,
    lookup-put_key in_place_update_state_key (json.marshal_state st) pod.annotations,
    hash,
    images,
  )

  remove_grace-Records :
      (pod : Pod)
      → Records json spec pod.annotations
      → Records json spec (remove_in_place_update_grace pod).annotations
  remove_grace-Records pod (st, there, hash, images) = (
    st,
    lookup-delete_key_other in_place_update_grace_key in_place_update_state_key pod.annotations
          keys_differ
        ∙ there,
    hash,
    images,
  )

  set_grace-Records :
      (u : PodUpdateSpec) (pod : Pod)
      → Records json spec pod.annotations
      → Records json spec (set_grace json u pod).annotations
  set_grace-Records u pod (st, there, hash, images) = (
    st,
    lookup-put_key_other in_place_update_grace_key in_place_update_state_key (json.marshal_grace u)
          pod.annotations keys_differ
        ∙ there,
    hash,
    images,
  )

  pub updated_pod-Records :
      (u : PodUpdateSpec) (now : ℕ) (clone : Pod)
      → u.pod_template_hash ≡ spec.pod_template_hash
      → u.container_images ≡ spec.new_images
      → Records json spec (updated_pod json u now clone).annotations
  unfolding updated_pod patch_update_spec_to_pod patched_state
  updated_pod-Records u now clone hash images =
      let state = new_state now u in
      let set = set_state json state clone in
      elim (Bool-cases (leb_ℤ u.grace_seconds (pos 0))) [
        | inl e ↦
            rw (e, updated_pod)
              (remove_grace-Records (patch_update_spec_to_pod json u state set) (
                set_state-Records (patched_state u set state)
                  (record set { containers = new_images u.container_images set.containers }) hash
                  images))
        | inr e ↦
            rw (e, updated_pod)
              (set_grace-Records u set (set_state-Records state clone hash images))
      ]

pub updated_pod-key :
    (json : Json) (u : PodUpdateSpec) (now : ℕ) (clone : Pod)
    → (updated_pod json u now clone).key ≡ clone.key
unfolding updated_pod patch_update_spec_to_pod
updated_pod-key json u now clone = elim (Bool-cases (leb_ℤ u.grace_seconds (pos 0))) [
  | inl e ↦ rw (e, updated_pod) refl
  | inr e ↦ rw (e, updated_pod) refl
]

matches :
    (spec : UpdateSpec) (r : UpdateState)
    → UniqueKeys spec.new_images
    → r.pod_template_hash ≡ spec.pod_template_hash
    → r.spec_container_images ≡ spec.new_images
    → state_matches spec (some r) ≡ true
matches spec r u hash images =
    rw (hash, images)
      (rw (str_eq_refl spec.pod_template_hash) (images_match_refl spec.new_images u))

-- A pod with the record counts as tried.
pub Records-tried :
    (json : Json) (spec : UpdateSpec) (pod : Pod)
    → UniqueKeys spec.new_images
    → Keeps json spec
    → Records json spec pod.annotations
    → check_pod_in_place_update_tried json pod spec ≡ ok true
unfolding check_pod_in_place_update_tried get_pod_in_place_update_state
Records-tried json spec pod u keeps (st, there, hash, images) =
    let (r, back, hash', images') = keeps.decode st hash images in
    rw (there, check_pod_in_place_update_tried, get_pod_in_place_update_state)
      (rw back (ap ok (matches spec r u hash' images')))
