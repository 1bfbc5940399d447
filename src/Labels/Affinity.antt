-- ===== src/Labels/Affinity.antt =====
-- The affinity of nodes does not depend on the order in which a map of labels is read
-- (CloneNodeAffinityAndAdd of pkg/utils/label_utils.go).
use mathlib.Core.Path.{ap₂}
use mathlib.Core.List.{Permᴰ}
use mathlib.Core.List.Permᴰ
use mathlib.Core.List.Memᴰ.{head, tail}
use mathlib.Core.Bool.{true≢false}
use extended_deployment.Base.{
  String, str_eq, eq_iff, ◌≡◌, ◌≢◌, ◌∙◌, ap, refl, sym, true, Bool-cases, inl, inr, List, [], ◌∷◌,
  ◌++◌, Option, some, Memᴰ, arith,
}
use extended_deployment.Adapter.Order.{insert, sort}
use extended_deployment.Labels.{
  Labels, Requirement, NodeAffinity, is_in, requirements, less_key, terms, given,
  clone_node_affinity_and_add,
}
use extended_deployment.Labels.Texts.{less_text_trans, less_text_irrefl, less_text_total}
use extended_deployment.Labels.Sorting.{Ordered, insert_comm}

-- A key has one value.
abbrev pub IsMap : Labels → Type 0
IsMap labels = (x y : String × String) → Memᴰ x labels → Memᴰ y labels → x.0 ≡ y.0 → x.1 ≡ y.1

perm_mem {ℓ} : {A : Type ℓ} {a : A} {xs ys : List A} → Permᴰ xs ys → Memᴰ a ys → Memᴰ a xs
perm_mem Permᴰ.nil m = m
perm_mem (Permᴰ.cons e d) (head q) = head (q ∙ sym e)
perm_mem (Permᴰ.cons e d) (tail m) = tail (perm_mem d m)
perm_mem (Permᴰ.swap e k) (head q) = tail (head (q ∙ sym k))
perm_mem (Permᴰ.swap e k) (tail (head q)) = head (q ∙ sym e)
perm_mem (Permᴰ.swap e k) (tail (tail m)) = tail (tail m)
perm_mem (Permᴰ.trans d k) m = perm_mem d (perm_mem k m)

key_trans : (x y z : Requirement) → less_key x y ≡ true → less_key y z ≡ true → less_key x z ≡ true
key_trans x y z h k = less_text_trans x.key y.key z.key h k

other-Ordered : (x y : Requirement) → x.key ≢ y.key → Ordered less_key x y
other-Ordered x y d = elim (Bool-cases (less_key x y)) [
  | inl e ↦ elim (Bool-cases (less_key y x)) [
    | inl q ↦ absurd (ground (arith, key_trans x y x e q, less_text_irrefl x.key))
    | inr q ↦ inl (e, q)
  ]
  | inr e ↦ inr (less_text_total x.key y.key d e, e)
]

insert_labels :
    (a b : String × String) (rest : Labels)
    → IsMap (a ∷ b ∷ rest)
    → (l : List Requirement)
    → insert less_key (is_in a) (insert less_key (is_in b) l)
      ≡ insert less_key (is_in b) (insert less_key (is_in a) l)
insert_labels a b rest m l = elim (Bool-cases (str_eq a.0 b.0)) [
  | inl e ↦
      let keys = (eq_iff a.0 b.0).0 e in
      let values = m a b (head refl) (tail (head refl)) keys in
      let same : a ≡ b = ap₂ (λ k v. (k, v)) keys values in
      ap₂ (λ x y. insert less_key (is_in x) (insert less_key (is_in y) l)) same (sym same)
  | inr e ↦
      let d : a.0 ≢ b.0 = λ q. true≢false (sym ((eq_iff a.0 b.0).1 q) ∙ e) in
      insert_comm less_key key_trans (is_in a) (is_in b) l (other-Ordered (is_in a) (is_in b) d)
]

sort_perm :
    {xs ys : Labels}
    → Permᴰ xs ys
    → IsMap xs
    → sort less_key (requirements xs) ≡ sort less_key (requirements ys)
unfolding sort
sort_perm Permᴰ.nil m = refl
sort_perm (Permᴰ.cons e d) m =
    ap₂ (λ x l. insert less_key (is_in x) l) e (sort_perm d (λ x y p q. m x y (tail p) (tail q)))
sort_perm (Permᴰ.swap {a} {b} {l = l} e k) m =
    insert_labels a b l m (sort less_key (requirements l))
    ∙ ap₂
        (λ x y.
          insert less_key (is_in x) (insert less_key (is_in y) (sort less_key (requirements l))))
        k e
sort_perm (Permᴰ.trans d k) m =
    sort_perm d m ∙ sort_perm k (λ x y p q. m x y (perm_mem d p) (perm_mem d q))

-- Where each key of a map has one value, the affinity with its labels added is the same for every order in which
-- the map is read, whatever the affinity was before.
pub clone_node_affinity_and_add_lem :
    (affinity : Option NodeAffinity) (labels labels' : Labels)
    → Permᴰ labels labels'
    → IsMap labels
    → clone_node_affinity_and_add affinity labels ≡ clone_node_affinity_and_add affinity labels'
unfolding clone_node_affinity_and_add
clone_node_affinity_and_add_lem affinity [] [] p m = refl
clone_node_affinity_and_add_lem affinity [] (x ∷ xs) p m = elim (perm_mem p (head refl)) [ ]
clone_node_affinity_and_add_lem affinity (x ∷ xs) [] p m =
    elim (perm_mem (Permᴰ.symm p) (head refl)) [ ]
clone_node_affinity_and_add_lem affinity (x ∷ xs) (y ∷ ys) p m =
    ap
      (λ l. record (given affinity) {
        required = some (terms (given affinity).required ++ (l ∷ []));
      })
      (sort_perm p m)
