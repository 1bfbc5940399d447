-- ===== src/Rolling/ScaleDown.antt =====
-- How far a rolling update scales the old workloads down.
use Prim.Native.Nat.{min}
use extended_deployment.Adapter.{Client, IsClient, done, ◌>>◌, >>=-eq-done}
use extended_deployment.Base.{
  suc, length, pos_part, sym, ℕ, ◌+◌, ◌-◌, ◌≤◌, ◌<◌, ◌^◌, ◌≡◌, refl, ◌∙◌, ap, ℤ, pos, add32_pos,
  sub32, sub32_pos, leb_ℤ, Bool-cases, All, false, inl, inr, arith, List, [], ◌∷◌, sum_of, eqb_ℤ,
  eq_of_parts,
}
use extended_deployment.Api.{RollingUpdate}
use extended_deployment.Adapter.{Subset}
use extended_deployment.StepControl.{min32}
use extended_deployment.Scaling.{object_key, with_replicas, scale_subset, get_replicas_count}
use extended_deployment.Scaling.Left.{
  DistinctKeys, Left, OthersStay, Left-refl, Left-scaled, OthersStay-add, scale_subset-Fate,
}
use extended_deployment.Scaling.Counts.{IsConsistent, replicas_of}
use extended_deployment.Rolling.{
  scale_down_old_loop, scale_down_old_subsets_for_rolling_update, max_unavailable, GetValue,
}
use extended_deployment.Rolling.Limits.{get_replicas_count_lem}

min32_smaller :
    (a m t : ℕ)
    → a < 2 ^ 31
    → t < m
    → m < 2 ^ 31
    → min32 (pos a) (sub32 (pos m) (pos t)) ≡ pos (min a (m - t))
unfolding min32
min32_smaller a m t ha ht hm = rw (sub32_pos m t (omega arith) hm) (ground arith)

-- One workload that is scaled down, with the numbers of its round.
loop_cut :
    (c : Client) (limit total r : ℕ) (ss : Subset) (rest : List Subset) (s : c.Server)
    → ss.spec.replicas ≡ pos r
    → 0 < r
    → r < 2 ^ 31
    → total < limit
    → limit < 2 ^ 31
    → scale_down_old_loop c (pos limit) (pos total) (ss ∷ rest) s
      ≡ (scale_subset c ss (pos (r - min r (limit - total)))
            >> scale_down_old_loop c (pos limit) (pos (total + min r (limit - total))) rest)
          s
unfolding scale_down_old_loop
loop_cut c limit total r ss rest s e p hr ht hl =
    rw
      (
        e,
        min32_smaller r limit total hr ht hl,
        sub32_pos r (min r (limit - total)) (omega arith) hr,
        add32_pos total (min r (limit - total)) (omega arith),
      )
      (ground arith)

scale_down_old_loop_result :
    (c : Client) (limit total : ℕ) (olds : List Subset) (s t : c.Server) (result : ℤ)
    → limit < 2 ^ 31
    → All IsConsistent olds
    → total ≤ limit
    → sum_of replicas_of olds < 2 ^ 31
    → scale_down_old_loop c (pos limit) (pos total) olds s ≡ done result t
    → result ≡ pos (min limit (total + sum_of replicas_of olds))
unfolding scale_down_old_loop
scale_down_old_loop_result c limit total [] s t result hl v le small h = ground arith
scale_down_old_loop_result c limit total (ss ∷ rest) s t result hl v le small h =
    elim (Bool-cases (leb_ℤ (pos limit) (pos total))) [
      | inl e ↦ ground arith
      | inr e ↦ elim (Bool-cases (eqb_ℤ ss.spec.replicas (pos 0))) [
        | inl q ↦ ground (
          arith,
          scale_down_old_loop_result c limit total rest s t result hl v.1 le (omega arith),
        )
        | inr q ↦
            let r : ss.spec.replicas ≡ pos (replicas_of ss) =
              eq_of_parts _ _ (omega (arith, v.0)) in
            let h' =
              sym (
                loop_cut c limit total (replicas_of ss) ss rest s r (ground (arith, v.0))
                  (omega arith) (ground arith) hl)
              ∙ h in
            let (u, t', e1, e2) =
              >>=-eq-done {A = Unit {0}} {B = ℤ}
                (scale_subset c ss (pos (replicas_of ss - min (replicas_of ss) (limit - total))))
                (λ _.
                  scale_down_old_loop c (pos limit)
                    (pos (total + min (replicas_of ss) (limit - total))) rest)
                s h' in
            scale_down_old_loop_result c limit (total + min (replicas_of ss) (limit - total)) rest
              t' t result hl v.1 (omega arith) (omega arith) e2
            ∙ ap pos (omega arith)
      ]
    ]

-- What the loop leaves of the old workloads, on the server and in number.
pub record ScaledDown (c : Client) (total : ℕ) (olds : List Subset) (s t : c.Server) (result : ℤ)
    : Type 0 where
  pub left : List Subset
  pub holds : Left c s t olds left
  pub others : OthersStay c olds s t
  pub none_gone : length left ≡ length olds
  pub number : pos_part result + sum_of replicas_of left ≡ total + sum_of replicas_of olds

unchanged :
    (c : Client) (total : ℕ) (olds : List Subset) (s t : c.Server) (result : ℤ)
    → result ≡ pos total
    → s ≡ t
    → ScaledDown c total olds s t result
unchanged c total olds s t result e q =
    rw (e, sym q)
      (record {
        left = olds;
        holds = Left-refl c s olds;
        others = λ j x. refl;
        none_gone = refl;
        number = refl;
      })

scale_down_old_loop-ScaledDown :
    (c : Client)
    → IsClient c
    → (limit total : ℕ) (olds : List Subset) (s t : c.Server) (result : ℤ) → limit < 2 ^ 31
    → All IsConsistent olds
    → DistinctKeys olds
    → total ≤ limit
    → sum_of replicas_of olds < 2 ^ 31
    → scale_down_old_loop c (pos limit) (pos total) olds s ≡ done result t
    → ScaledDown c total olds s t result
unfolding scale_down_old_loop
scale_down_old_loop-ScaledDown c w limit total [] s t result hl v d le small h =
    unchanged c total [] s t result (ground (arith, h)) (ground (arith, h))
scale_down_old_loop-ScaledDown c w limit total (ss ∷ rest) s t result hl v d le small h =
    elim (Bool-cases (leb_ℤ (pos limit) (pos total))) [
      | inl e ↦
          unchanged c total (ss ∷ rest) s t result (ground (arith, h, e)) (ground (arith, h, e))
      | inr e ↦ elim (Bool-cases (eqb_ℤ ss.spec.replicas (pos 0))) [
        | inl q ↦
            let run : scale_down_old_loop c (pos limit) (pos total) rest s ≡ done result t =
              ground (arith, h, e, q) in
            let later =
              scale_down_old_loop-ScaledDown c w limit total rest s t result hl v.1 d.1 le
                (omega arith) run in
            record {
              left = ss ∷ later.left;
              holds = Left.kept ss rest later.left (later.others (object_key ss) d.0) later.holds;
              others = λ j x. later.others j x.1;
              none_gone = ap suc later.none_gone;
              number = omega (arith, later.number);
            }
        | inr q ↦
            let k = min (replicas_of ss) (limit - total) in
            let r : ss.spec.replicas ≡ pos (replicas_of ss) =
              eq_of_parts _ _ (omega (arith, v.0)) in
            let h' =
              sym (
                loop_cut c limit total (replicas_of ss) ss rest s r (ground (arith, v.0))
                  (omega arith) (ground arith) hl)
              ∙ h in
            let (u, s', e1, e2) =
              >>=-eq-done {A = Unit {0}} {B = ℤ} (scale_subset c ss (pos (replicas_of ss - k)))
                (λ _. scale_down_old_loop c (pos limit) (pos (total + k)) rest) s h' in
            let fate = scale_subset-Fate c w ss (pos (replicas_of ss - k)) s s' e1 in
            let later =
              scale_down_old_loop-ScaledDown c w limit (total + k) rest s' t result hl v.1 d.1
                (omega arith) (omega arith) e2 in
            record {
              left = with_replicas ss (pos (replicas_of ss - k)) ∷ later.left;
              holds =
                  Left-scaled c w ss (pos (replicas_of ss - k)) rest later.left s s' t fate d.0
                    later.others later.holds;
              others = OthersStay-add c w ss rest s s' t fate.1 later.others;
              none_gone = ap suc later.none_gone;
              number = omega (arith, later.number);
            }
      ]
    ]

limit_run :
    (g : GetValue) (c : Client) (rolling : RollingUpdate) (all olds : List Subset) (d u n m : ℕ)
    (s : c.Server)
    → max_unavailable g rolling (pos d) ≡ pos u
    → sub32 (pos d) (pos u) ≡ pos m
    → get_replicas_count all ≡ pos n
    → leb_ℤ (pos n) (pos m) ≡ false
    → sub32 (pos n) (pos m) ≡ pos (n - m)
    → scale_down_old_subsets_for_rolling_update g c rolling all olds (pos d) s
      ≡ scale_down_old_loop c (pos (n - m)) (pos 0) olds s
unfolding scale_down_old_subsets_for_rolling_update
limit_run g c rolling all olds d u n m s e f h q l = rw (e, f, h, q, l)

-- A rolling update that succeeds takes from the old workloads as many replicas as all workloads have above
-- the desired number less the unavailable ones, or all that the old ones have. For each old workload
-- the server holds what it held, or the number of replicas that it is left with, and these numbers
-- are the old ones less what was taken; all other objects are as before. With what the others have,
-- the replicas do not fall below that number, if they were not below it. This is for old workloads with
-- different keys, for counts that are not negative, and for at most as many available replicas as replicas.
pub scale_down_old_subsets_limit :
    (g : GetValue) (c : Client)
    → IsClient c
    → (rolling : RollingUpdate) (all olds : List Subset) (d u : ℕ) (s t : c.Server) (result : ℤ)
    → d < 2 ^ 31
    → u ≤ d
    → All IsConsistent all
    → All IsConsistent olds
    → DistinctKeys olds
    → sum_of replicas_of all < 2 ^ 31
    → sum_of replicas_of olds ≤ sum_of replicas_of all
    → max_unavailable g rolling (pos d) ≡ pos u
    → scale_down_old_subsets_for_rolling_update g c rolling all olds (pos d) s ≡ done result t
    → (result ≡ pos (min (sum_of replicas_of all - (d - u)) (sum_of replicas_of olds)))
      × ((left : List Subset) × Left c s t olds left
          × OthersStay c olds s t
          × (length left ≡ length olds)
          × (sum_of replicas_of olds ≡ pos_part result + sum_of replicas_of left)
          × (min (d - u) (sum_of replicas_of all)
              ≤ sum_of replicas_of left + (sum_of replicas_of all - sum_of replicas_of olds)))
unfolding scale_down_old_subsets_for_rolling_update
scale_down_old_subsets_limit g c cl rolling all olds d u s t result hd le v w keys small part e h =
    let n = get_replicas_count_lem all v small in
    let m = sub32_pos d u le hd in
    let (number, down) : (result
          ≡ pos (min (sum_of replicas_of all - (d - u)) (sum_of replicas_of olds)))
        × ScaledDown c 0 olds s t result =
      elim (Bool-cases (leb_ℤ (pos (sum_of replicas_of all)) (pos (d - u)))) [
        | inl q ↦
            let none : result ≡ pos 0 = ground (arith, n, m) in
            (
              none ∙ ap pos (ground (arith, q)),
              unchanged c 0 olds s t result none (ground (arith, n, m)),
            )
        | inr q ↦
            let l = sub32_pos (sum_of replicas_of all) (d - u) (ground arith) small in
            let run = sym (limit_run g c rolling all olds d u _ (d - u) s e m n q l) ∙ h in
            (
              scale_down_old_loop_result c (sum_of replicas_of all - (d - u)) 0 olds s t result
                    (omega arith) w (omega arith) (omega arith) run
                  ∙ ap pos (omega arith),
              scale_down_old_loop-ScaledDown c cl (sum_of replicas_of all - (d - u)) 0 olds s t
                  result (omega arith) w keys (omega arith) (omega arith) run,
            )
      ] in
    (
      number,
      (
        down.left,
        down.holds,
        down.others,
        down.none_gone,
        omega (arith, down.number),
        omega (arith, down.number, ap pos_part number),
      ),
    )
