-- ===== src/Payload/Tests.antt =====
-- Runs of `SelectPayloadTrees` and `CalculatePayloadWeight` on small inputs.
use atrox.Prelude.{
  ℕ, ◌≡◌, ◌≢◌, ◌↔◌, ◌⊎◌, refl, true, false, List, [], ◌∷◌, ok, All, any, contains, lookup, some,
}
use atrox.Examples.{cfg_example, li_example, order_example, payload_example}
use atrox.Payload.Weights.{Visit, weight_of, calculate_payload_weight}
use atrox.Payload.Weights.Sums.{calculate_payload_weight_lem}
use atrox.Payload.Trees.{Group, select_payload_trees}
use atrox.Payload.Trees.Loop.{here, step}
use atrox.Payload.Trees.Correct.{Covered}
use atrox.Payload.Trees.Groups.{roots, IsAscending}
use atrox.Payload.Trees.Roots.{bl, its, InnerOf, contains-blacklist}
use atrox.Payload.Trees.Forest.{
  HangsFrom, initial_blacklist, iterators, trees_return, tree_roots, tree_members, trees_cover,
}

abbrev groups_example : List Group
groups_example =
    record { root = 12; members = 12 ∷ 13 ∷ [] } ∷ record { root = 16; members = 16 ∷ [] } ∷ []

trees_run :
    select_payload_trees cfg_example li_example order_example 1 payload_example ≡ ok groups_example
unfolding select_payload_trees
trees_run = refl

trees_return_example :
    (gs : List Group) × (select_payload_trees cfg_example li_example order_example 1 payload_example
      ≡ ok gs)
trees_return_example = trees_return cfg_example li_example order_example 1 payload_example refl

tree_roots_example :
    IsAscending (roots groups_example)
    × ((r : ℕ)
        → (contains (roots groups_example) r ≡ true) ↔ (
            (contains payload_example r ≡ true)
            × (contains (initial_blacklist cfg_example li_example order_example 1 payload_example) r
                ≡ false)
            × (any
                  (contains (iterators cfg_example li_example order_example 1 payload_example))
                  (cfg_example.preds r)
                ≡ true)))
tree_roots_example = tree_roots cfg_example li_example order_example 1 payload_example trees_run

tree_members_example :
    All
      (λ g.
        (contains g.members g.root ≡ true)
        × ((x : ℕ)
            → contains g.members x ≡ true
            → HangsFrom cfg_example li_example order_example 1 payload_example g.root x
              × (contains payload_example x ≡ true)
              × ((x ≢ 10)
                  × (x ≢ 14)
                  × (contains (iterators cfg_example li_example order_example 1 payload_example) x
                      ≡ false))))
      groups_example
tree_members_example = tree_members cfg_example li_example order_example 1 payload_example trees_run

hangs_example : HangsFrom cfg_example li_example order_example 1 payload_example 12 13
unfolding select_payload_trees
hangs_example = step here refl refl refl

trees_cover_example : Covered groups_example 13
trees_cover_example =
    trees_cover cfg_example li_example order_example 1 payload_example trees_run 12 13 refl
      hangs_example

abbrev latch_example : ℕ
latch_example = 14

contains-blacklist_example :
    (contains (bl cfg_example li_example order_example 1 payload_example) latch_example ≡ true) ↔ (
      (latch_example ≡ 10)
      ⊎ (latch_example ≡ 14)
      ⊎ (contains (its cfg_example li_example order_example 1 payload_example) latch_example ≡ true)
      ⊎ InnerOf cfg_example li_example order_example 1 payload_example
          (its cfg_example li_example order_example 1 payload_example)
          latch_example)
contains-blacklist_example =
    contains-blacklist cfg_example li_example order_example 1 payload_example latch_example

abbrev visits_example : List Visit
visits_example = Visit.load ∷ Visit.call ∷ Visit.terminator true true ∷ []

calculate_payload_weight_lem_example :
    lookup (calculate_payload_weight (λ b. visits_example) (12 ∷ 13 ∷ 12 ∷ []) []) 12 ≡ some 55
unfolding weight_of
calculate_payload_weight_lem_example =
    calculate_payload_weight_lem (λ b. visits_example) (12 ∷ 13 ∷ 12 ∷ []) 12
