-- ===== src/DeployRegion/Status.antt =====
-- When a region counts as failed.
use mathlib.Core.Logic.{◌↔◌}
use extended_deployment.Base.{
  String, ◌≤◌, ◌≡◌, ◌≢◌, refl, Bool, true, false, Bool-cases, inl, inr, List, [], ◌∷◌, All, length,
  arith,
}
use extended_deployment.DeployRegion.Cache.{
  NodeResourceCache, status_failed, status_ok, not_ready, region_status,
}

abbrev Nodes : Type 0
Nodes = List (String × NodeResourceCache)

abbrev pub AllReady : Bool → Nodes → Type 0
AllReady b nodes = All (λ (e : String × NodeResourceCache). e.1.is_ready ≡ b) nodes

not_ready_le : (nodes : Nodes) → not_ready nodes ≤ length nodes
not_ready_le [] = omega arith
not_ready_le ((name, n) ∷ rest) = elim (Bool-cases n.is_ready) [
  | inl e ↦ ground (arith, e, not_ready_le rest)
  | inr e ↦ ground (arith, e, not_ready_le rest)
]

none_ready : (nodes : Nodes) → (length nodes ≤ not_ready nodes) ↔ AllReady false nodes
none_ready [] = ((λ h. tt), (λ h. omega arith))
none_ready ((name, n) ∷ rest) =
    let iff = none_ready rest in
    elim (Bool-cases n.is_ready) [
      | inl e ↦ (
        (λ h. absurd (ground (arith, e, not_ready_le rest))),
        (λ h. absurd (ground (arith, e, h.0))),
      )
      | inr e ↦ ((λ h. (e, iff.0 (ground (arith, e)))), (λ h. ground (arith, e, iff.1 h.1)))
    ]

each_ready : (nodes : Nodes) → (not_ready nodes ≡ 0) ↔ AllReady true nodes
each_ready [] = ((λ h. tt), (λ h. refl))
each_ready ((name, n) ∷ rest) =
    let iff = each_ready rest in
    elim (Bool-cases n.is_ready) [
      | inl e ↦ ((λ h. (e, iff.0 (ground (arith, e)))), (λ h. ground (arith, e, iff.1 h.1)))
      | inr e ↦ ((λ h. absurd (ground (arith, e))), (λ h. absurd (ground (arith, e, h.0))))
    ]

-- A region counts as failed exactly if it has nodes and none of them is ready, and as recovered
-- exactly if it has nodes and all of them are ready; else its status is unknown.
pub region_status_lem :
    (nodes : Nodes)
    → ((region_status nodes ≡ status_failed) ↔ ((nodes ≢ []) × AllReady false nodes))
      × ((region_status nodes ≡ status_ok) ↔ ((nodes ≢ []) × AllReady true nodes))
unfolding region_status
region_status_lem [] = (
  ((λ h. absurd (ground arith)), (λ h. absurd (h.0 refl))),
  ((λ h. absurd (ground arith)), (λ h. absurd (h.0 refl))),
)
region_status_lem (n ∷ rest) =
    let failed = none_ready (n ∷ rest) in
    let fine = each_ready (n ∷ rest) in
    let nonempty : ◌≢◌ {A = Nodes} (n ∷ rest) [] = λ e. absurd (ground arith) in
    (
      ((λ h. (nonempty, failed.0 (ground arith))), (λ h. ground (arith, failed.1 h.1))),
      ((λ h. (nonempty, fine.0 (ground arith))), (λ h. ground (arith, fine.1 h.1))),
    )
