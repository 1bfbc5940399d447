-- ===== src/Reschedule/Split.antt =====
-- Texts that are joined by commas, and split again (strings.Split in GetFailedRegions of
-- pkg/controllers/reschedule/deployment.go).
use Prim.Native.String.{◌++◌ as concat}
use Prim.Native.String.append.{nil, cons}
use Prim.Native.String.compare.{cons-nil}
use extended_deployment.Base.{
  String, str_eq, ◌≡◌, ◌∙◌, refl, ap, Bool, true, false, Bool-cases, inl, inr, List, [], ◌∷◌,
  if◌then◌else◌, All, arith,
}
use extended_deployment.DeployRegion.Failure.{join_with}
use extended_deployment.Reschedule.Deployment.{is_comma, split_comma}

abbrev pub no_comma : String → Bool
no_comma String.[] = true
no_comma (String.◌∷◌ c rest) = if is_comma c then false else no_comma rest

pub record IsPlain (name : String) : Type 0 where
  pub some_text : str_eq name "" ≡ false
  pub comma_free : no_comma name ≡ true

split_one : (s : String) → no_comma s ≡ true → split_comma s ≡ s ∷ []
unfolding split_comma
split_one String.[] h = refl
split_one (String.◌∷◌ c rest) h = elim (Bool-cases (is_comma c)) [
  | inl e ↦ absurd (ground (arith, h, e))
  | inr e ↦ let k : no_comma rest ≡ true = ground (arith, h, e) in rw (e, split_one rest k) refl
]

comma-concat : (t : String) → concat "," t ≡ String.◌∷◌ "," t
comma-concat t = cons "," "" t ∙ ap (String.◌∷◌ ",") (nil t)

split_concat :
    (s t : String) → no_comma s ≡ true → split_comma (concat s (concat "," t)) ≡ s ∷ split_comma t
unfolding split_comma
split_concat String.[] t h = rw (nil (concat "," t), comma-concat t) refl
split_concat (String.◌∷◌ c rest) t h = elim (Bool-cases (is_comma c)) [
  | inl e ↦ absurd (ground (arith, h, e))
  | inr e ↦
      let k : no_comma rest ≡ true = ground (arith, h, e) in
      rw (cons c rest (concat "," t), e, split_concat rest t k) refl
]

pub split-join :
    (x : String) (xs : List String)
    → All IsPlain (x ∷ xs)
    → split_comma (join_with "," (x ∷ xs)) ≡ x ∷ xs
unfolding join_with
split-join x [] h = split_one x h.0.comma_free
split-join x (y ∷ ys) h =
    rw (split_concat x (join_with "," (y ∷ ys)) h.0.comma_free, split-join y ys h.1) refl

concat-some : (x t : String) → str_eq x "" ≡ false → str_eq (concat x t) "" ≡ false
concat-some String.[] t h = absurd (ground (arith, h))
concat-some (String.◌∷◌ c s) t h = rw (cons c s t, cons-nil c (concat s t)) refl

pub join-some :
    (x : String) (xs : List String)
    → str_eq x "" ≡ false
    → str_eq (join_with "," (x ∷ xs)) "" ≡ false
unfolding join_with
join-some x [] h = h
join-some x (y ∷ ys) h = concat-some x (concat "," (join_with "," (y ∷ ys))) h
