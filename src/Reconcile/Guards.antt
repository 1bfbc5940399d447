-- ===== src/Reconcile/Guards.antt =====
-- When a call of Reconcile changes workloads.
use mathlib.Core.List.Memᴰ.{head, tail}
use extended_deployment.Base.{
  String, Memᴰ, Option-cases, none, ◌≡◌, refl, ◌⊎◌, inl, inr, Bool, true, false, Bool-cases, [],
  ◌∷◌, All, arith,
}
use extended_deployment.Adapter.{Outcome, Outcome-cases, done, ◌>>=◌, ◌>>◌}
use extended_deployment.Adapter.{RegionInfo}
use extended_deployment.Grouping.{
  RegionInfos, Term, term_init, term_ready, term_not_ready, check_if_term_ready, check_saturated,
}
use extended_deployment.Grouping.Readiness.{IsReady, check_if_term_ready_lem}
use extended_deployment.Reconcile.{
  Steps, Found, absent, deleted, live, Requeue, is_progressing, after_confirm, by_term,
  after_groups, after_revisions, after_rollback, after_query, reconcile,
}

-- Sequences that differ in what follows are equal, or what follows is reached.
same_or :
    {S A B : Type 0} (P : Type 0) (m : S → Outcome S A) (f g : A → S → Outcome S B) (s : S)
    → ((a : A) (t : S) → m s ≡ done a t → (f a t ≡ g a t) ⊎ P)
    → ((m >>= f) s ≡ (m >>= g) s) ⊎ P
same_or P m f g s h = elim (Outcome-cases (m s)) [
  | inr (e, t, q) ↦ inl (rw (q, ◌>>=◌) refl)
  | inl (a, t, q) ↦ elim (h a t q) [ inl k ↦ inl (rw (q, ◌>>=◌) k) | inr p ↦ inr p ]
]

-- A region without a new workload.
abbrev pub Missing : RegionInfos → Type 0
Missing infos = (name : String) × (ri : RegionInfo) × Memᴰ (name, ri) infos × (ri.new ≡ none)

term_init-Missing : (infos : RegionInfos) → check_if_term_ready infos ≡ term_init → Missing infos
unfolding check_if_term_ready
term_init-Missing [] h = absurd (ground (arith, h))
term_init-Missing ((name, ri) ∷ rest) h = elim (Option-cases ri.new) [
  | inl e ↦ (name, ri, head refl, e)
  | inr (ss, e) ↦ elim (Bool-cases ri.available_desired) [
    | inl q ↦
        let more = term_init-Missing rest (ground (arith, h, e, q)) in
        (more.0, more.1, tail more.2, more.3)
    | inr q ↦ absurd (ground (arith, h, e, q))
  ]
]

-- The way of a call of Reconcile up to ManageSubsets.
pub record Allowed (x : Steps) (s : x.State) : Type 0 where
  pub queried : x.State
  pub is_live : x.query s ≡ done live queried
  pub not_back : x.State
  pub no_rollback : x.check_rollback queried ≡ done false not_back
  pub synced : x.State
  pub revisions_synced : x.sync_revisions not_back ≡ done false synced
  pub grouped : x.State
  pub infos : RegionInfos
  pub controlled : x.State
  pub groups : x.query_subsets controlled ≡ done infos grouped
  pub not_saturated : check_saturated infos ≡ false
  pub updated : x.State
  pub strategy_updated : x.update_subset_strategy grouped ≡ done tt updated
  pub round :
      Missing infos
      ⊎ (All IsReady infos
          × ((is_progressing (x.conditions updated) ≡ false)
              ⊎ ((w : x.State) × (x.check_upgrade_confirm updated ≡ done false w))))

module _ (x : Steps) (manage : x.State → Outcome x.State Bool) where
  -- The same steps with another ManageSubsets.
  abbrev pub other : Steps
  other = record x { manage_subsets = manage }

  abbrev SameOr :
      Type 0
      → (x.State → Outcome x.State Requeue)
      → (x.State → Outcome x.State Requeue)
      → x.State
      → Type 0
  SameOr P f g s = (f s ≡ g s) ⊎ P

  -- How a round may be due: by the term of the regions.
  abbrev Due : RegionInfos → x.State → Type 0
  Due infos s =
      Missing infos
      ⊎ (All IsReady infos
          × ((is_progressing (x.conditions s) ≡ false)
              ⊎ ((w : x.State) × (x.check_upgrade_confirm s ≡ done false w))))

  confirm-Due :
      (infos : RegionInfos) (s : x.State)
      → All IsReady infos
      → (wait : Bool) (t : x.State) → x.check_upgrade_confirm s ≡ done wait t
      → SameOr (Due infos s) (after_confirm x wait) (after_confirm other wait) t
  unfolding after_confirm
  confirm-Due infos s ready true t q = inl refl
  confirm-Due infos s ready false t q = inr (inr (ready, inr (t, q)))

  ready-Due :
      (infos : RegionInfos) (s : x.State)
      → All IsReady infos
      → SameOr (Due infos s) (by_term x term_ready) (by_term other term_ready) s
  unfolding by_term
  ready-Due infos s ready = elim (Bool-cases (is_progressing (x.conditions s))) [
    | inr e ↦ inr (inr (ready, inl e))
    | inl e ↦
        elim (same_or (Due infos s) x.check_upgrade_confirm (after_confirm x) (after_confirm other)
          s (confirm-Due infos s ready)) [ inl k ↦ inl (rw (e, by_term) k) | inr due ↦ inr due ]
  ]

  by_term-Due :
      (infos : RegionInfos) (s : x.State) (term : Term)
      → check_if_term_ready infos ≡ term
      → SameOr (Due infos s) (by_term x term) (by_term other term) s
  unfolding by_term
  by_term-Due infos s term_init e = inr (inl (term_init-Missing infos e))
  by_term-Due infos s term_not_ready e = inl refl
  by_term-Due infos s term_ready e = ready-Due infos s ((check_if_term_ready_lem infos).0 e)

  after_groups-Due :
      (infos : RegionInfos) (s : x.State)
      → SameOr
          ((check_saturated infos ≡ false)
            × ((t : x.State) × (x.update_subset_strategy s ≡ done tt t) × Due infos t))
          (after_groups x infos)
          (after_groups other infos)
          s
  unfolding after_groups
  after_groups-Due infos s = same_or _ x.update_subset_strategy _ _ s (λ u t q.
      elim (Bool-cases (check_saturated infos)) [
        | inl e ↦ inl (rw e refl)
        | inr e ↦ elim (by_term-Due infos t (check_if_term_ready infos) refl) [
          | inl k ↦ inl (rw e k)
          | inr due ↦ inr (e, (t, q, due))
        ]
      ])

  module _ (s a : x.State) (q1 : x.query s ≡ done live a) where
    groups-Allowed :
        (b d e : x.State)
        → x.check_rollback a ≡ done false b
        → x.sync_revisions b ≡ done false d
        → SameOr
            (Allowed x s)
            (x.query_subsets >>= after_groups x)
            (x.query_subsets >>= after_groups other)
            e
    groups-Allowed b d e q2 q3 =
        same_or (Allowed x s) x.query_subsets (after_groups x) (after_groups other) e (λ infos f q4.
          elim (after_groups-Due infos f) [
            | inl k ↦ inl k
            | inr (open_regions, (g, q5, due)) ↦ inr (record {
              queried = a;
              is_live = q1;
              not_back = b;
              no_rollback = q2;
              synced = d;
              revisions_synced = q3;
              grouped = f;
              infos = infos;
              controlled = e;
              groups = q4;
              not_saturated = open_regions;
              updated = g;
              strategy_updated = q5;
              round = due;
            })
          ])

    revisions-Allowed :
        (b : x.State)
        → x.check_rollback a ≡ done false b
        → (changed : Bool) (d : x.State) → x.sync_revisions b ≡ done changed d
        → SameOr (Allowed x s) (after_revisions x changed) (after_revisions other changed) d
    unfolding after_revisions
    revisions-Allowed b q2 true d q3 = inl refl
    revisions-Allowed b q2 false d q3 = elim (Outcome-cases (x.check_selector d)) [
      | inr (err, e, q) ↦ inl (rw (q, after_revisions) refl)
      | inl (u, e, q) ↦
          elim (same_or (Allowed x s) (x.check_regions >> x.get_subset_control) _ _ e
            (λ u1 g r1. groups-Allowed b d g q2 q3)) [
              | inl k ↦ inl (rw (q, after_revisions) k)
              | inr p ↦ inr p
            ]
    ]

    rollback-Allowed :
        (back : Bool) (b : x.State)
        → x.check_rollback a ≡ done back b
        → SameOr (Allowed x s) (after_rollback x back) (after_rollback other back) b
    unfolding after_rollback
    rollback-Allowed true b q2 = inl refl
    rollback-Allowed false b q2 =
        same_or (Allowed x s) x.sync_revisions (after_revisions x) (after_revisions other) b
          (revisions-Allowed b q2)

  query-Allowed :
      (s : x.State) (found : Found) (a : x.State)
      → x.query s ≡ done found a
      → SameOr (Allowed x s) (after_query x found) (after_query other found) a
  unfolding after_query
  query-Allowed s absent a q = inl refl
  query-Allowed s deleted a q = inl refl
  query-Allowed s live a q =
      same_or (Allowed x s) x.check_rollback (after_rollback x) (after_rollback other) a
        (rollback-Allowed s a q)

  -- A call of Reconcile runs ManageSubsets only for a deployment that is there and not being deleted,
  -- that is not rolled back and whose revisions are up to date, whose regions are not all saturated,
  -- and where some region has no new workload yet, or all have one with its replicas available and
  -- the deployment is not progressing or the round is confirmed. On any other way the result is the
  -- same whatever ManageSubsets does.
  pub reconcile-Allowed : (s : x.State) → (reconcile x s ≡ reconcile other s) ⊎ Allowed x s
  unfolding reconcile
  reconcile-Allowed s =
      same_or (Allowed x s) x.query (after_query x) (after_query other) s (query-Allowed s)
