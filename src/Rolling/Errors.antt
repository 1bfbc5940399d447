-- ===== src/Rolling/Errors.antt =====
-- What becomes of the errors of a rolling update.
use extended_deployment.Base.{if◌then◌else◌, ℤ, pos, ◌≡◌, refl, Bool, true, false, eqb_ℤ, List}
use extended_deployment.Api.{RollingUpdate}
use extended_deployment.Adapter.{Subset, Client, done, fail, Outcome}
use extended_deployment.Scaling.{get_replicas_count, cleanup_unhealthy_replicas}
use extended_deployment.Rolling.{
  GetValue, scale_down_old_subsets_for_rolling_update, reconcile_old_subsets,
}

abbrev IsDone : {S : Type 0} → Outcome S Bool → Type 0
IsDone {S = S} o = (b : Bool) × (t : S) × (o ≡ done b t)

if-IsDone :
    {S : Type 0} (b : Bool) (x y : Outcome S Bool)
    → IsDone x
    → IsDone y
    → IsDone (if b then x else y)
if-IsDone true x y h k = h
if-IsDone false x y h k = k

recovered-IsDone :
    {S A : Type 0} (o : Outcome S A) (f : A → S → Outcome S Bool)
    → ((a : A) (t : S) → IsDone (f a t))
    → IsDone (elim o [ fail e t ↦ done false t | done a t ↦ f a t ])
recovered-IsDone (done a t) f h = h a t
recovered-IsDone (fail e t) f h = (false, t, refl)

-- The reconciliation of the old workloads never returns an error, whatever the calls of the client
-- do.
pub reconcile_old_subsets-done :
    (g : GetValue) (c : Client) (rolling : RollingUpdate) (all olds : List Subset) (new : Subset)
    (desired : ℤ) (s : c.Server)
    → (b : Bool) × (t : c.Server) × (reconcile_old_subsets g c rolling all olds new desired s
        ≡ done b t)
unfolding reconcile_old_subsets
reconcile_old_subsets-done g c rolling all olds new desired s =
    if-IsDone (eqb_ℤ (get_replicas_count olds) (pos 0)) _ _ (false, s, refl)
      (if-IsDone _ _ _ (false, s, refl)
        (recovered-IsDone (cleanup_unhealthy_replicas c olds _ s) _ (λ r t.
          recovered-IsDone (scale_down_old_subsets_for_rolling_update g c rolling _ _ desired t) _
            (λ n u. (_, u, refl)))))
