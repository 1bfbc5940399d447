-- ===== src/Revisions/Rollback.antt =====
-- What a call of checkRollback that asks for a return to a revision leaves.
use extended_deployment.Base.{
  ℤ, pos, str_eq, eq_iff, false, err, Error, ◌≢◌, ap, sym, ◌∙◌, ◌≡◌, refl, subst, inl, inr, ◌⊎◌,
  String, true, false, Bool-cases, Option-cases, List, none, some, ok, Result-cases, lookup,
  lookup-delete_key, arith,
}
use mathlib.Core.Bool.{true≢false}
use extended_deployment.Adapter.{done, ◌>>◌, >>=-eq-done}
use extended_deployment.Rollout.{IntText, annotation_rollback_to}
use extended_deployment.Revisions.{
  Specs, Deployment, Revision, History, clear_rollback_to, set_from_template,
  set_deployment_annotations_to, update_deployment_and_clear_rollback_to, target_revision,
  rollback_to_revision, rollback_to, version_num, check_rollback,
}
use extended_deployment.Revisions.Target.{
  IsTarget, HasNoTarget, target_revision_lem, target_revision-none,
}

module _ (x : Specs) (h : History x) (text : IntText) (trim : String → String) where
  -- The number that the annotation asks for; an empty text asks for 0.
  abbrev pub Asks : Deployment x → ℤ → Type 0
  Asks d number =
      (v : String) × (lookup annotation_rollback_to d.annotations ≡ some v)
      × (((trim v ≡ "") × (number ≡ pos 0)) ⊎ ((trim v ≢ "") × (text.parse (trim v) ≡ ok number)))

  -- The annotation has a text that is no number.
  abbrev pub CannotAsk : Deployment x → Type 0
  CannotAsk d =
      (v : String) × (lookup annotation_rollback_to d.annotations ≡ some v)
      × (trim v ≢ "")
      × ((e : Error) × (text.parse (trim v) ≡ err e))

  -- The deployment is written with this specification and without the wish to return.
  abbrev pub WrittenWith : x.Spec → h.State → h.State → Type 0
  WrittenWith spec s t =
      (new : Deployment x) × (h.update new s ≡ done tt t)
      × (new.spec ≡ spec)
      × (lookup annotation_rollback_to new.annotations ≡ none)

  -- What is done for the revision to return to.
  abbrev pub Returned : Deployment x → Revision x → h.State → h.State → Type 0
  Returned d rev s t =
      (spec : x.Spec) × (rev.spec ≡ ok spec)
      × (((x.equal_ignore_hash d.spec spec ≡ true)
            × (t ≡ s)
            × (check_rollback x h text trim d t ≡ done true t))
          ⊎ ((x.equal_ignore_hash d.spec spec ≡ false) × WrittenWith (x.without_hash spec) s t))

  abbrev pub Answered : Deployment x → ℤ → h.State → h.State → Type 0
  Answered d number s t =
      (revisions : List (Revision x)) × (h.list s ≡ ok revisions)
      × ((HasNoTarget x number (h.sort revisions) × WrittenWith d.spec s t)
          ⊎ ((rev : Revision x) × IsTarget x number (h.sort revisions) rev × Returned d rev s t))

  cleared-WrittenWith :
      (d : Deployment x) (s t : h.State)
      → update_deployment_and_clear_rollback_to x h d s ≡ done tt t
      → WrittenWith d.spec s t
  unfolding update_deployment_and_clear_rollback_to
  cleared-WrittenWith d s t u =
      (clear_rollback_to x d, u, refl, lookup-delete_key annotation_rollback_to d.annotations)

  to_revision-Returned :
      (rev : Revision x) (d : Deployment x) (s t : h.State)
      → check_rollback x h text trim d s ≡ done true t
      → rollback_to_revision x h d rev s ≡ done tt t
      → Returned d rev s t
  unfolding rollback_to_revision update_deployment_and_clear_rollback_to
      set_deployment_annotations_to
  to_revision-Returned rev d s t again e = elim (Result-cases rev.spec) [
    | inl (y, r) ↦ absurd (ground arith)
    | inr (spec, r) ↦ elim (Bool-cases (x.equal_ignore_hash d.spec spec)) [
      | inl q ↦
          let same : t ≡ s = ground arith in
          (
            spec,
            r,
            inl (
              q,
              same,
              subst (λ u. check_rollback x h text trim d u ≡ done true t) (sym same) again,
            ),
          )
      | inr q ↦
          let new = set_deployment_annotations_to x (set_from_template x d spec) rev in
          (
            spec,
            r,
            inr (
              q,
              (
                clear_rollback_to x new,
                ground arith,
                refl,
                lookup-delete_key annotation_rollback_to new.annotations,
              ),
            ),
          )
    ]
  ]

  rollback_to-Answered :
      (number : ℤ) (d : Deployment x) (s t : h.State)
      → check_rollback x h text trim d s ≡ done true t
      → rollback_to x h number d s ≡ done tt t
      → Answered d number s t
  unfolding rollback_to
  rollback_to-Answered number d s t again e = elim (Result-cases (h.list s)) [
    | inl (y, l) ↦ absurd (ground arith)
    | inr (revisions, l) ↦ elim (Option-cases (target_revision x number (h.sort revisions))) [
      | inl n ↦ (
        revisions,
        l,
        inl (
          target_revision-none x number (h.sort revisions) n,
          cleared-WrittenWith d s t (ground arith),
        ),
      )
      | inr (rev, n) ↦ (
        revisions,
        l,
        inr (
          rev,
          target_revision_lem x number (h.sort revisions) rev n,
          to_revision-Returned rev d s t again (ground arith),
        ),
      )
    ]
  ]

  asked :
      (v : String) (number : ℤ)
      → version_num x h text (trim v) ≡ ok number
      → ((trim v ≡ "") × (number ≡ pos 0)) ⊎ ((trim v ≢ "") × (text.parse (trim v) ≡ ok number))
  asked v number p = elim (Bool-cases (str_eq (trim v) "")) [
    | inl e ↦ inl ((eq_iff (trim v) "").0 e, ground (arith, p, e))
    | inr e ↦ inr ((λ q. true≢false (sym ((eq_iff (trim v) "").1 q) ∙ e)), ground (arith, p, e))
  ]

  not_asked :
      (v : String) (y : Error)
      → version_num x h text (trim v) ≡ err y
      → (trim v ≢ "") × (text.parse (trim v) ≡ err y)
  not_asked v y p = elim (Bool-cases (str_eq (trim v) "")) [
    | inl e ↦ absurd (ground (arith, p, e))
    | inr e ↦ ((λ q. true≢false (sym ((eq_iff (trim v) "").1 q) ∙ e)), ground (arith, p, e))
  ]

  -- A call of checkRollback that answers true, so that Reconcile ends. Where the annotation is no number,
  -- or no revision has the number, the deployment was written with its own specification and without
  -- the wish to return. Else there is the revision with that number, or for 0 the last one before
  -- the newest: the deployment was written with its specification and without the wish; or
  -- nothing was written, where it has that specification already, and the next call answers
  -- the same.
  pub check_rollback-Written :
      (d : Deployment x) (s t : h.State)
      → check_rollback x h text trim d s ≡ done true t
      → (CannotAsk d × WrittenWith d.spec s t)
        ⊎ ((number : ℤ) × Asks d number × Answered d number s t)
  unfolding check_rollback
  check_rollback-Written d s t e =
      elim (Option-cases (lookup annotation_rollback_to d.annotations)) [
        | inl n ↦ absurd (ground arith)
        | inr (v, n) ↦ elim (Result-cases (version_num x h text (trim v))) [
          | inl (y, p) ↦
              let run : (update_deployment_and_clear_rollback_to x h d >> done true) s
                  ≡ done true t =
                ground (arith, e, n, p) in
              let (u, w, first, last) =
                >>=-eq-done (update_deployment_and_clear_rollback_to x h d) (λ u. done true) s
                  run in
              let (some_text, no_number) = not_asked v y p in
              inl (
                (v, n, some_text, (y, no_number)),
                subst (WrittenWith d.spec s) (ground (arith, last))
                    (cleared-WrittenWith d s w first),
              )
          | inr (number, p) ↦
              let run : (rollback_to x h number d >> done true) s ≡ done true t =
                ground (arith, e, n, p) in
              let (u, w, first, last) =
                >>=-eq-done (rollback_to x h number d) (λ u. done true) s run in
              let same : w ≡ t = ground (arith, last) in
              let first' : rollback_to x h number d s ≡ done tt t = first ∙ ap (done tt) same in
              inr (number, (v, n, asked v number p), rollback_to-Answered number d s t e first')
        ]
      ]
