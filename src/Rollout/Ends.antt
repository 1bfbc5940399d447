-- ===== src/Rollout/Ends.antt =====
-- How many batches an update in place can have.
use extended_deployment.Base.{
  ℕ, zero, suc, ◌+◌, ◌≤◌, ◌<◌, ◌^◌, ◌≡◌, sym, ◌∙◌, subst, String, ℤ, pos, true, some, ok, lookup,
  arith,
}
use extended_deployment.Api.{Strategy}
use extended_deployment.Adapter.{Subset, RegionInfo, ObjectKey, Workload, Client, IsClient, done}
use extended_deployment.Grouping.{
  Annotations, InplaceSetUpdateSpec, annotation_update_spec, get_inplace_set_update_spec,
}
use extended_deployment.Scaling.{object_key}
use extended_deployment.Rollout.Inplace.{
  InplaceTemplates, inplace_candidate, or_no_spec, check_inplace_update,
}
use extended_deployment.Rollout.Batches.{HasBatch, check_inplace_update-HasBatch}

-- The pods that an annotation counts.
abbrev pub number_of : InplaceTemplates → Annotations → ℤ
number_of t anno = (or_no_spec (get_inplace_set_update_spec t.unmarshal anno)).update_pod_num

-- JSON gives back the number of pods, up to a bound.
pub record Reads (t : InplaceTemplates) (d : ℕ) : Type 0 where
  pub decode :
      (n : ℕ) (hash : String)
      → n ≤ d
      → (r : InplaceSetUpdateSpec) × (t.unmarshal
            (t.marshal (record { update_pod_num = pos n; pod_template_hash = hash }))
          ≡ ok r)
        × (r.update_pod_num ≡ pos n)

module _ (c : Client) (t : InplaceTemplates) (strategy : Strategy) (region : String) (d : ℕ) where
  -- Calls of CheckInplaceUpdate that each start a batch on the same workload, for `d` desired replicas.
  -- Each call finds the number that the server holds after the call before; what else the server
  -- holds may change between them.
  pub data BatchRounds : ℕ → ObjectKey → ℕ → c.Server → Type 0 where
    stop : (k : ObjectKey) (n : ℕ) (s : c.Server) → BatchRounds zero k n s
    more :
        (info info' : RegionInfo) (found : Subset) (stored : Workload) (r n m : ℕ)
        (s u w : c.Server)
        → info.desired_replicas ≡ pos d
        → inplace_candidate info ≡ some found
        → number_of t found.annotations ≡ pos n
        → check_inplace_update c t strategy region info s ≡ done (true, info') u
        → c.get (object_key found) u ≡ ok stored
        → number_of t stored.annotations ≡ pos m
        → c.get (object_key found) w ≡ ok stored
        → BatchRounds r (object_key found) m w
        → BatchRounds (suc r) (object_key found) n s

  module _ (v : IsClient c) (reads : Reads t d) where
    -- The number that a batch has left is the one that is read.
    stored_number :
        (k : ObjectKey) (n m : ℕ) (s u : c.Server) (stored : Workload)
        → n ≤ d
        → HasBatch c v t region k n s u
        → c.get k u ≡ ok stored
        → number_of t stored.annotations ≡ pos m
        → m ≡ n
    unfolding get_inplace_set_update_spec
    stored_number k n m s u stored l batch got read =
        let same : batch.stored ≡ stored = ground (arith, batch.stored_found, got) in
        let (r, back, number) = reads.decode n batch.hash l in
        let text = t.marshal (record { update_pod_num = pos n; pod_template_hash = batch.hash }) in
        let there =
          subst (λ w. lookup annotation_update_spec w.annotations ≡ some text) same batch.batch in
        let here : number_of t stored.annotations ≡ pos n =
          rw (there, number_of, get_inplace_set_update_spec) (rw back number) in
        ground (arith, sym read ∙ here)

    -- An update in place of `d` replicas that starts from an annotation of `n` pods ends after at most
    -- `d - n` batches.
    pub BatchRounds-end :
        (b : ℕ) {r : ℕ} {k : ObjectKey} {n : ℕ} {s : c.Server}
        → strategy.batch_size ≡ pos b
        → b < 2 ^ 30
        → d < 2 ^ 31
        → n ≤ d
        → BatchRounds r k n s
        → r + n ≤ d
    BatchRounds-end b e l m h (stop k n s) = omega (arith, h)
    BatchRounds-end b e l m h
          (more info info' found stored r n j s u w desired candidate number run got read kept
            rest) =
        let (i, batch, grows, bounded, part) =
          check_inplace_update-HasBatch c v t strategy region info info' found b n d s u e l h m
            desired candidate number run in
        let same : j ≡ i = stored_number (object_key found) i j s u stored bounded batch got read in
        let later = BatchRounds-end b e l m (omega (arith, same, bounded)) rest in
        omega (arith, later, same, grows)
