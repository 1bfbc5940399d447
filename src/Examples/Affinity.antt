-- ===== src/Examples/Affinity.antt =====
-- Labels that a map gives in two orders.
use mathlib.Core.Bool.{true≢false}
use mathlib.Core.List.{Permᴰ}
use mathlib.Core.List.Memᴰ.{head, tail}
use extended_deployment.Base.{◌≡◌, ◌≢◌, ◌∙◌, refl, ap, sym, String, eq_iff, [], ◌∷◌, none}
use extended_deployment.Labels.{clone_node_affinity_and_add}
use extended_deployment.Labels.Affinity.{IsMap, clone_node_affinity_and_add_lem}

abbrev zone : String × String
zone = ("zone", "east")

abbrev arch : String × String
arch = ("arch", "arm64")

keys_differ : zone.0 ≢ arch.0
keys_differ e = true≢false (sym ((eq_iff "zone" "arch").1 e))

two-IsMap : IsMap (zone ∷ arch ∷ [])
two-IsMap x y (head p) (head q) e = ap (λ l. l.1) (p ∙ sym q)
two-IsMap x y (head p) (tail (head q)) e =
    absurd (keys_differ (sym (ap (λ l. l.0) p) ∙ e ∙ ap (λ l. l.0) q))
two-IsMap x y (tail (head p)) (head q) e =
    absurd (keys_differ (sym (ap (λ l. l.0) q) ∙ sym e ∙ ap (λ l. l.0) p))
two-IsMap x y (tail (head p)) (tail (head q)) e = ap (λ l. l.1) (p ∙ sym q)
two-IsMap x y (tail (tail m)) n e = elim m [ ]
two-IsMap x y (head p) (tail (tail n)) e = elim n [ ]
two-IsMap x y (tail (head p)) (tail (tail n)) e = elim n [ ]

clone_node_affinity_and_add_lem_example :
    clone_node_affinity_and_add none (zone ∷ arch ∷ [])
    ≡ clone_node_affinity_and_add none (arch ∷ zone ∷ [])
clone_node_affinity_and_add_lem_example =
    clone_node_affinity_and_add_lem none (zone ∷ arch ∷ []) (arch ∷ zone ∷ [])
      (Permᴰ.swap refl refl) two-IsMap
