-- ===== src/Grouping/Partition.antt =====
-- Where each workload goes when the workloads are grouped.
use extended_deployment.Base.{
  String, str_eq, eq_iff, ◌≡◌, ◌≢◌, refl, sym, ◌∙◌, ap, Bool, true, false, Bool-cases, Option-cases,
  inl, inr, if◌then◌else◌, List, [], ◌∷◌, ◌++◌, Option, none, some, lookup, put_key, lookup-put_key,
  lookup-put_key_other, arith,
}
use extended_deployment.Adapter.{Subset, RegionInfo}
use extended_deployment.Grouping.{RegionInfos, get_subset_region_name, join, group_loop}

-- The workloads of one region, in their order.
abbrev pub in_region : String → List Subset → List Subset
in_region name [] = []
in_region name (ss ∷ rest) =
    if str_eq name (get_subset_region_name ss)
    then ss ∷ in_region name rest
    else in_region name rest

abbrev is_absent : Option RegionInfo → Bool
is_absent none = true
is_absent (some ri) = false

-- The workloads of regions that are not in the map.
abbrev pub outside : RegionInfos → List Subset → List Subset
outside infos [] = []
outside infos (ss ∷ rest) =
    if is_absent (lookup (get_subset_region_name ss) infos)
    then ss ∷ outside infos rest
    else outside infos rest

module _ (equal : Subset → Bool) where
  -- The first workload with the current template, and all the others.
  abbrev pub first_equal : List Subset → Option Subset
  first_equal [] = none
  first_equal (ss ∷ rest) = if equal ss then some ss else first_equal rest

  abbrev pub others : List Subset → List Subset
  others [] = []
  others (ss ∷ rest) = if equal ss then rest else ss ∷ others rest

  abbrev joined_new : Option Subset → List Subset → Option Subset
  joined_new none xs = first_equal xs
  joined_new (some n) xs = some n

  abbrev joined_olds : Option Subset → List Subset → List Subset → List Subset
  joined_olds none olds xs = olds ++ others xs
  joined_olds (some n) olds xs = olds ++ xs

  -- A region that takes in a list of workloads.
  abbrev joined : RegionInfo → List Subset → RegionInfo
  joined ri xs = record ri { new = joined_new ri.new xs; olds = joined_olds ri.new ri.olds xs }

  append_one : (xs ys : List Subset) (x : Subset) → (xs ++ x ∷ []) ++ ys ≡ xs ++ x ∷ ys
  append_one [] ys x = refl
  append_one (y ∷ xs) ys x = ap (λ zs. y ∷ zs) (append_one xs ys x)

  append_nil : (xs : List Subset) → xs ++ [] ≡ xs
  append_nil [] = refl
  append_nil (y ∷ xs) = ap (λ zs. y ∷ zs) (append_nil xs)

  join-some :
      (ss n : Subset) (ri : RegionInfo)
      → ri.new ≡ some n
      → join equal ss ri ≡ record ri { olds = ri.olds ++ ss ∷ [] }
  unfolding join
  join-some ss n ri e = rw (e, join) (ap (λ m. record ri { new = m; olds = ri.olds ++ ss ∷ [] }) e)

  join-equal :
      (ss : Subset) (ri : RegionInfo)
      → ri.new ≡ none
      → equal ss ≡ true
      → join equal ss ri ≡ record ri { new = some ss }
  unfolding join
  join-equal ss ri e q = rw (e, q, join) refl

  join-differs :
      (ss : Subset) (ri : RegionInfo)
      → ri.new ≡ none
      → equal ss ≡ false
      → join equal ss ri ≡ record ri { olds = ri.olds ++ ss ∷ [] }
  unfolding join
  join-differs ss ri e q =
      rw (e, q, join) (ap (λ m. record ri { new = m; olds = ri.olds ++ ss ∷ [] }) e)

  joined-join :
      (ss : Subset) (ri : RegionInfo) (xs : List Subset)
      → joined (join equal ss ri) xs ≡ joined ri (ss ∷ xs)
  joined-join ss ri xs = elim (Option-cases ri.new) [
    | inr (n, e) ↦ rw (join-some ss n ri e, e, append_one ri.olds xs ss, joined_olds) refl
    | inl e ↦ elim (Bool-cases (equal ss)) [
      | inl q ↦ rw (join-equal ss ri e q, e, q) refl
      | inr q ↦ rw (join-differs ss ri e q, e, q, append_one ri.olds (others xs) ss) refl
    ]
  ]

  joined_nil : (ri : RegionInfo) → joined ri [] ≡ ri
  joined_nil ri = elim (Option-cases ri.new) [
    | inr (n, e) ↦ rw (e, append_nil ri.olds) refl
    | inl e ↦ rw (e, append_nil ri.olds) refl
  ]

  loop_none :
      (infos : RegionInfos) (unused rest : List Subset) (ss : Subset)
      → lookup (get_subset_region_name ss) infos ≡ none
      → group_loop equal infos unused (ss ∷ rest) ≡ group_loop equal infos (unused ++ ss ∷ []) rest
  unfolding group_loop
  loop_none infos unused rest ss e = rw (e, group_loop) refl

  loop_some :
      (infos : RegionInfos) (unused rest : List Subset) (ss : Subset) (ri : RegionInfo)
      → lookup (get_subset_region_name ss) infos ≡ some ri
      → group_loop equal infos unused (ss ∷ rest)
        ≡ group_loop equal
            (put_key (get_subset_region_name ss) (join equal ss ri) infos)
            unused
            rest
  unfolding group_loop
  loop_some infos unused rest ss ri e = rw (e, group_loop) refl

  here :
      (name : String) (ss : Subset) (rest : List Subset)
      → str_eq name (get_subset_region_name ss) ≡ true
      → in_region name (ss ∷ rest) ≡ ss ∷ in_region name rest
  here name ss rest e = rw e refl

  elsewhere :
      (name : String) (ss : Subset) (rest : List Subset)
      → str_eq name (get_subset_region_name ss) ≡ false
      → in_region name (ss ∷ rest) ≡ in_region name rest
  elsewhere name ss rest e = rw e refl

  group_loop_region :
      (infos : RegionInfos) (unused all : List Subset) (name : String) (ri : RegionInfo)
      → lookup name infos ≡ some ri
      → lookup name (group_loop equal infos unused all).0 ≡ some (joined ri (in_region name all))
  unfolding group_loop
  group_loop_region infos unused [] name ri e = e ∙ ap some (sym (joined_nil ri))
  group_loop_region infos unused (ss ∷ rest) name ri e =
      elim (Bool-cases (str_eq name (get_subset_region_name ss))) [
        | inl q ↦
            let n : name ≡ get_subset_region_name ss =
              (eq_iff name (get_subset_region_name ss)).0 q in
            let a : lookup (get_subset_region_name ss) infos ≡ some ri =
              ap (λ x. lookup x infos) (sym n) ∙ e in
            ap (λ x. lookup name x.0) (loop_some infos unused rest ss ri a)
            ∙ group_loop_region (put_key (get_subset_region_name ss) (join equal ss ri) infos)
                unused rest name (join equal ss ri)
                (ap (λ x. lookup x (put_key (get_subset_region_name ss) (join equal ss ri) infos)) n
                  ∙ lookup-put_key (get_subset_region_name ss) (join equal ss ri) infos)
            ∙ ap some (
                joined-join ss ri (in_region name rest)
                ∙ ap (joined ri) (sym (here name ss rest q)))
        | inr q ↦
            let n : name ≢ get_subset_region_name ss =
              λ x. absurd (ground (arith, (eq_iff name (get_subset_region_name ss)).1 x)) in
            let end = ap (λ xs. some (joined ri xs)) (sym (elsewhere name ss rest q)) in
            elim (Option-cases (lookup (get_subset_region_name ss) infos)) [
              | inl a ↦
                  ap (λ x. lookup name x.0) (loop_none infos unused rest ss a)
                  ∙ group_loop_region infos (unused ++ ss ∷ []) rest name ri e
                  ∙ end
              | inr (r, a) ↦
                  ap (λ x. lookup name x.0) (loop_some infos unused rest ss r a)
                  ∙ group_loop_region (put_key (get_subset_region_name ss) (join equal ss r) infos)
                      unused rest name ri
                      (lookup-put_key_other (get_subset_region_name ss) name (join equal ss r) infos
                          n
                        ∙ e)
                  ∙ end
            ]
      ]

  absent_same :
      (infos : RegionInfos) (name other : String) (ri r : RegionInfo)
      → lookup name infos ≡ some r
      → is_absent (lookup other (put_key name ri infos)) ≡ is_absent (lookup other infos)
  absent_same infos name other ri r e = elim (Bool-cases (str_eq other name)) [
    | inl q ↦
        let n : other ≡ name = (eq_iff other name).0 q in
        rw (n, lookup-put_key name ri infos, e) refl
    | inr q ↦
        let n : other ≢ name = λ x. absurd (ground (arith, (eq_iff other name).1 x)) in
        ap is_absent (lookup-put_key_other name other ri infos n)
  ]

  outside_same :
      (infos : RegionInfos) (name : String) (ri r : RegionInfo) (all : List Subset)
      → lookup name infos ≡ some r
      → outside (put_key name ri infos) all ≡ outside infos all
  outside_same infos name ri r [] e = refl
  outside_same infos name ri r (ss ∷ rest) e =
      rw
        (
          absent_same infos name (get_subset_region_name ss) ri r e,
          outside_same infos name ri r rest e,
        )
        refl

  group_loop_unused :
      (infos : RegionInfos) (unused all : List Subset)
      → (group_loop equal infos unused all).1 ≡ unused ++ outside infos all
  unfolding group_loop
  group_loop_unused infos unused [] = sym (append_nil unused)
  group_loop_unused infos unused (ss ∷ rest) =
      elim (Option-cases (lookup (get_subset_region_name ss) infos)) [
        | inl a ↦
            ap (λ x. x.1) (loop_none infos unused rest ss a)
            ∙ group_loop_unused infos (unused ++ ss ∷ []) rest
            ∙ append_one unused (outside infos rest) ss
            ∙ rw (a, is_absent) refl
        | inr (r, a) ↦
            ap (λ x. x.1) (loop_some infos unused rest ss r a)
            ∙ group_loop_unused (put_key (get_subset_region_name ss) (join equal ss r) infos) unused
                rest
            ∙ ap (λ xs. unused ++ xs)
                (outside_same infos (get_subset_region_name ss) (join equal ss r) r rest a)
            ∙ rw (a, is_absent) refl
      ]

  -- Each workload ends up in one place: in its region, where the first one with the current
  -- template is the new one and all others are old, in their order, or, where its region is not
  -- listed, among the unused ones.
  pub group_loop_lem :
      (infos : RegionInfos) (all : List Subset) (name : String) (ri : RegionInfo)
      → lookup name infos ≡ some ri
      → ri.new ≡ none
      → ri.olds ≡ []
      → (lookup name (group_loop equal infos [] all).0
          ≡ some (record ri {
            new = first_equal (in_region name all);
            olds = others (in_region name all);
          }))
        × ((group_loop equal infos [] all).1 ≡ outside infos all)
  group_loop_lem infos all name ri e n o = (
    group_loop_region infos [] all name ri e ∙ ap some (rw (n, o) refl),
    group_loop_unused infos [] all,
  )
