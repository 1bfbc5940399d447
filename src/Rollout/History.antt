-- ===== src/Rollout/History.antt =====
-- What the clean-up of a saturated rollout takes away.
use mathlib.Core.Path.{ap₂}
use mathlib.Core.List.{Permᴰ}
use mathlib.Core.List.Memᴰ.{head, tail}
use extended_deployment.Base.{
  Bool, All, All-map, All-drop, take-drop, length-drop, Result, ok, err, ℤ, ltb_ℤ, drop, ◌++◌,
  subst, zero, suc, false, str_eq, eq_iff, ℕ, ◌-◌, ◌≡◌, ◌≢◌, refl, sym, ◌∙◌, ap, ◌⊎◌, inl, inr, leb,
  pos, eq_of_parts, Bool-cases, List, [], ◌∷◌, Memᴰ, Option, none, some, Error, length, take, arith,
}
use extended_deployment.Adapter.{Subset, ObjectKey, Client, IsClient, Outcome-cases, state_of}
use extended_deployment.Scaling.{object_key, delete_subset}
use extended_deployment.Rollout.{IntText, revision_to_int64}
use extended_deployment.Rollout.Saturated.{
  Sorting, by_revision, less_revision, is_unused, delete_unused, clean_old_subsets,
}

-- A workload of a list with this key, in which nothing runs.
pub record Unused (olds : List Subset) (j : ObjectKey) : Type 0 where
  pub subset : Subset
  pub listed : Memᴰ subset olds
  pub key : object_key subset ≡ j
  pub no_replicas : subset.spec.replicas ≡ pos 0
  pub none_available : subset.status.available_replicas ≡ pos 0

Unused-tail :
    (ss : Subset) (rest : List Subset) (j : ObjectKey) → Unused rest j → Unused (ss ∷ rest) j
Unused-tail ss rest j u = record {
  subset = u.subset;
  listed = tail u.listed;
  key = u.key;
  no_replicas = u.no_replicas;
  none_available = u.none_available;
}

-- The number of a revision is not the lower one, where both can be read.
abbrev pub NotBefore : Result ℤ → Result ℤ → Type 0
NotBefore (ok m) (ok n) = ltb_ℤ n m ≡ false
NotBefore (ok m) (err e) = Unit
NotBefore (err e) n = Unit

abbrev pub InOrder : (Subset → Subset → Bool) → List Subset → Type 0
InOrder less [] = Unit
InOrder less (x ∷ xs) = All (λ y. less y x ≡ false) xs × InOrder less xs

-- What sort.Sort promises of its result.
pub record IsSorting (less : Subset → Subset → Bool) (xs ys : List Subset) : Type 0 where
  pub same_elements : Permᴰ xs ys
  pub in_order : InOrder less ys

-- A workload in which nothing runs, with the newer ones that are kept.
pub record Old (text : IntText) (history_limit : ℕ) (olds : List Subset) (j : ObjectKey)
    : Type 0 where
  pub found : List Subset
  pub unused : Unused found j
  pub kept : List Subset
  pub all_listed : Permᴰ olds (found ++ kept)
  pub kept_count : length kept ≡ history_limit
  pub not_before :
      All
        (λ b.
          NotBefore
            (revision_to_int64 text unused.subset.annotations)
            (revision_to_int64 text b.annotations))
        kept

perm_length : {xs ys : List Subset} → Permᴰ xs ys → length xs ≡ length ys
perm_length Permᴰ.nil = refl
perm_length (Permᴰ.cons e d) = ap suc (perm_length d)
perm_length (Permᴰ.swap e k) = refl
perm_length (Permᴰ.trans d k) = perm_length d ∙ perm_length k

after_taken :
    (less : Subset → Subset → Bool) (n : ℕ) (xs : List Subset) (a : Subset)
    → Memᴰ a (take n xs)
    → InOrder less xs
    → All (λ b. less b a ≡ false) (drop n xs)
after_taken less zero xs a m h = elim m [ ]
after_taken less (suc n) [] a m h = elim m [ ]
after_taken less (suc n) (x ∷ xs) a (head e) h =
    All-drop (λ b. less b a ≡ false) n xs (subst (λ y. All (λ b. less b y ≡ false) xs) (sym e) h.0)
after_taken less (suc n) (x ∷ xs) a (tail m) h = after_taken less n xs a m h.1

not_less :
    (text : IntText) (a b : Subset)
    → less_revision text b a ≡ false
    → NotBefore (revision_to_int64 text a.annotations) (revision_to_int64 text b.annotations)
unfolding less_revision
not_less text a b h =
    by_cases (revision_to_int64 text a.annotations) (revision_to_int64 text b.annotations) h
  where
    by_cases : (m n : Result ℤ) → by_revision b a n m ≡ false → NotBefore m n
    by_cases (err e) n h = tt
    by_cases (ok m) (err e) h = tt
    by_cases (ok m) (ok n) h = ground (arith, h)

key_equal_or_not : (j k : ObjectKey) → (k ≡ j) ⊎ (j ≢ k)
key_equal_or_not j k = elim (Bool-cases (str_eq k.namespace j.namespace)) [
  | inr e ↦ inr (λ q.
      absurd
        (ground (arith, e, (eq_iff k.namespace j.namespace).1 (ap (λ x. x.namespace) (sym q)))))
  | inl e ↦ elim (Bool-cases (str_eq k.name j.name)) [
    | inr f ↦
        inr (λ q. absurd (ground (arith, f, (eq_iff k.name j.name).1 (ap (λ x. x.name) (sym q)))))
    | inl f ↦ inl (
        ap₂ (λ a b. record { namespace = a; name = b }) ((eq_iff k.namespace j.namespace).0 e)
          ((eq_iff k.name j.name).0 f))
  ]
]

module _ (c : Client) (v : IsClient c) where
  abbrev KeptOrUnused : List Subset → ObjectKey → c.Server → c.Server → Type 0
  KeptOrUnused olds j s t = (c.get j t ≡ c.get j s) ⊎ Unused olds j

  -- One workload less to look at, from a state in which the object is as before.
  later :
      (ss : Subset) (rest : List Subset) (j : ObjectKey) (s t u : c.Server)
      → c.get j t ≡ c.get j s
      → KeptOrUnused rest j t u
      → KeptOrUnused (ss ∷ rest) j s u
  later ss rest j s t u same (inl k) = inl (k ∙ same)
  later ss rest j s t u same (inr k) = inr (Unused-tail ss rest j k)

  delete_unused-KeptOrUnused :
      (errs : Option Error) (olds : List Subset) (j : ObjectKey) (s : c.Server)
      → KeptOrUnused olds j s (state_of (delete_unused c errs olds s))
  unfolding delete_unused delete_subset
  delete_unused-KeptOrUnused none [] j s = inl refl
  delete_unused-KeptOrUnused (some e) [] j s = inl refl
  delete_unused-KeptOrUnused errs (ss ∷ rest) j s = elim (Bool-cases (is_unused ss)) [
    | inr e ↦
        let skip : delete_unused c errs (ss ∷ rest) s ≡ delete_unused c errs rest s =
          ground (arith, e) in
        rw skip (later ss rest j s s _ refl (delete_unused-KeptOrUnused errs rest j s))
    | inl e ↦ elim (key_equal_or_not j (object_key ss)) [
      | inl q ↦ inr (record {
        subset = ss;
        listed = head refl;
        key = q;
        no_replicas = eq_of_parts _ _ (ground (arith, e));
        none_available = eq_of_parts _ _ (ground (arith, e));
      })
      | inr d ↦ elim (Outcome-cases (c.delete (object_key ss) s)) [
        | inl (u, t, f) ↦
            let next : delete_unused c errs (ss ∷ rest) s ≡ delete_unused c errs rest t =
              ground (arith, e, f) in
            rw next (
              later ss rest j s t _ (v.get-delete_other (object_key ss) s t j f d)
                (delete_unused-KeptOrUnused errs rest j t))
        | inr (x, t, f) ↦
            let next : delete_unused c errs (ss ∷ rest) s ≡ delete_unused c (some x) rest t =
              ground (arith, e, f) in
            rw next (
              later ss rest j s t _ (v.get-delete_fail (object_key ss) s t x j f)
                (delete_unused-KeptOrUnused (some x) rest j t))
      ]
    ]
  ]

  -- Every object of the server is as before the clean-up of the old workloads, also if some of the deletions
  -- fail; or it is one of them without replicas and available ones, and as many others as the history
  -- limit says are kept, none of which has a lower revision, where both numbers can be read. This is
  -- for a sort that gives the same workloads, none of them less than one before it.
  pub clean_old_subsets-KeptOrUnused :
      (sort : Sorting) (text : IntText) (history_limit : ℕ) (olds : List Subset) (j : ObjectKey)
      (s : c.Server)
      → IsSorting (less_revision text) olds (sort (less_revision text) olds)
      → (c.get j (state_of (clean_old_subsets c sort text history_limit olds s)) ≡ c.get j s)
        ⊎ Old text history_limit olds j
  unfolding clean_old_subsets
  clean_old_subsets-KeptOrUnused sort text history_limit olds j s h =
      elim (Bool-cases (leb (length olds) history_limit)) [
        | inl e ↦ inl (rw (e, clean_old_subsets) refl)
        | inr e ↦
            let sorted = sort (less_revision text) olds in
            let count = length olds - history_limit in
            elim (delete_unused-KeptOrUnused none (take count sorted) j s) [
              | inl k ↦ inl (rw (e, clean_old_subsets) k)
              | inr u ↦ inr (record {
                found = take count sorted;
                unused = u;
                kept = drop count sorted;
                all_listed =
                    subst (λ l. Permᴰ olds l) (sym (take-drop count sorted)) h.same_elements;
                kept_count =
                    length-drop count sorted ∙ ground (arith, e, perm_length h.same_elements);
                not_before =
                    All-map (λ b. not_less text u.subset b) (drop count sorted)
                      (after_taken (less_revision text) count sorted u.subset u.listed h.in_order);
              })
            ]
      ]
