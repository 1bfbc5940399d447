-- ===== src/Rollout/Saturated.antt =====
-- What follows once every region has what it should (cleanOldSubsets and cleanAfterSaturated in
-- pkg/controllers/extendeddeployment/update.go, SubSetsByRevision in adapter/subset.go). The write of the
-- deployment's annotations and that of its status are parameters.
use extended_deployment.Base.{
  ℕ, ◌-◌, leb, ℤ, pos, eqb_ℤ, ltb_ℤ, String, Bool, true, false, ◌&&◌, if◌then◌else◌, List, [], ◌∷◌,
  Option, none, some, Result, ok, err, Error, nil_pointer, lookup, delete_key, length, take,
}
use extended_deployment.Adapter.{Subset, Client, Outcome, done, fail, ◌>>◌}
use extended_deployment.Adapter.Order.{less_creation}
use extended_deployment.Grouping.{Annotations, RegionInfos, annotation_update_spec}
use extended_deployment.Confirm.{annotation_upgrade_confirm}
use extended_deployment.Scaling.{M, scale_subset, delete_subset}
use extended_deployment.Rollout.{
  IntText, revision_to_int64, update_subset_annotations, clear_unused,
}

abbrev pub by_revision : Subset → Subset → Result ℤ → Result ℤ → Bool
by_revision a b (err e) r = less_creation a b
by_revision a b (ok m) (err e) = less_creation a b
by_revision a b (ok m) (ok n) = if eqb_ℤ m n then less_creation a b else ltb_ℤ m n

unfoldable pub less_revision : IntText → Subset → Subset → Bool
unfolding revision_to_int64
less_revision text a b =
    by_revision a b (revision_to_int64 text a.annotations) (revision_to_int64 text b.annotations)

-- A workload of the history: nothing runs in it. One that is being deleted is not listed.
abbrev pub is_unused : Subset → Bool
is_unused ss = eqb_ℤ ss.spec.replicas (pos 0) && eqb_ℤ ss.status.available_replicas (pos 0)

-- Whether the annotation is there, and the annotations without it.
abbrev pub has_key : String → Annotations → Bool
has_key key anno = elim (lookup key anno) [ none ↦ false | some v ↦ true ]

-- sort.Sort of the standard library, with the test of two elements.
abbrev pub Sorting : Type 0
Sorting = (Subset → Subset → Bool) → List Subset → List Subset

module _ (c : Client) where
  -- The loop over the oldest workloads: an error is kept, and the loop goes on.
  unfoldable pub delete_unused : Option Error → List Subset → M c (Unit {0})
  delete_unused none [] s = done tt s
  delete_unused (some e) [] s = fail e s
  delete_unused errs (ss ∷ rest) s =
      let skip : Outcome c.Server (Unit {0}) = delete_unused errs rest s in
      let cut : Outcome c.Server (Unit {0}) = elim (delete_subset c ss s) [
        | done u t ↦ delete_unused errs rest t
        | fail e t ↦ delete_unused (some e) rest t
      ] in
      if is_unused ss then cut else skip

  unfoldable pub clean_old_subsets : Sorting → IntText → ℕ → List Subset → M c (Unit {0})
  unfolding delete_unused
  clean_old_subsets sort text history_limit olds s =
      if leb (length olds) history_limit
      then done tt s
      else delete_unused none (take (length olds - history_limit) (sort (less_revision text) olds))
          s

  unfoldable pub scale_to_zero : List Subset → M c (Unit {0})
  scale_to_zero [] s = done tt s
  scale_to_zero (ss ∷ rest) s =
      let skip : Outcome c.Server (Unit {0}) = scale_to_zero rest s in
      let cut : Outcome c.Server (Unit {0}) = (scale_subset c ss (pos 0) >> scale_to_zero rest) s in
      if eqb_ℤ ss.spec.replicas (pos 0) then skip else cut

  -- The annotation of an update in place goes.
  abbrev without_spec : Subset → Subset
  without_spec ss = record ss { annotations = delete_key annotation_update_spec ss.annotations }

  unfoldable pub drop_update_spec : Option Subset → M c (Unit {0})
  drop_update_spec none s = fail nil_pointer s
  drop_update_spec (some ss) s =
      if has_key annotation_update_spec ss.annotations
      then update_subset_annotations c false (without_spec ss) s
      else done tt s

  unfoldable pub clean_regions : Sorting → IntText → ℕ → RegionInfos → M c (Unit {0})
  unfolding drop_update_spec scale_to_zero clean_old_subsets
  clean_regions sort text history_limit [] s = done tt s
  clean_regions sort text history_limit ((name, ri) ∷ rest) s =
      (drop_update_spec ri.new
          >> scale_to_zero ri.olds
          >> clean_old_subsets sort text history_limit ri.olds
          >> clean_regions sort text history_limit rest)
        s

  -- `write` is updateAnnotations, and `sync_status` the call of SyncStatusOnly.
  unfoldable pub clean_after_saturated :
      Sorting
      → IntText
      → ℕ
      → (Annotations → M c (Unit {0}))
      → M c (Unit {0})
      → Annotations
      → RegionInfos
      → List Subset
      → M c (Unit {0})
  unfolding clean_regions clear_unused
  clean_after_saturated sort text history_limit write sync_status anno infos unused =
      (if has_key annotation_upgrade_confirm anno
        then write (delete_key annotation_upgrade_confirm anno)
        else sync_status)
      >> clean_regions sort text history_limit infos
      >> clear_unused c unused
