-- ===== src/Selection/Tests.antt =====
-- Runs of the selectors on the example loop.
use atrox.Prelude.{
  ℕ, ◌≡◌, refl, true, false, List, [], ◌∷◌, ok, insert_all, some, contains, assign, emplace, arith,
}
use atrox.Examples.{
  cfg_example, li_example, order_example, payload_example, infos_example, info_example,
}
use atrox.Recognition.{IteratorInfo, IteratorRecognitionInfo}
use atrox.Payload.Weights.{Visit, calculate_payload_weight}
use atrox.Payload.Trees.{Group, select_payload_trees}
use atrox.Selection.Iterator.{candidates, calculate}
use atrox.Selection.Iterator.Payload.{Selected, contains-candidates, iterator_selection}
use atrox.Selection.Weighted.{calculate as calculate_weighted}
use atrox.Selection.Weighted.Heaviest.{First, payload_weights, weighted_selection}

abbrev first_group : Group
first_group = record { root = 12; members = 12 ∷ 13 ∷ [] }

abbrev second_group : Group
second_group = record { root = 16; members = 16 ∷ [] }

abbrev instructions_example : ℕ → List Visit
instructions_example b = Visit.load ∷ []

trees_run :
    select_payload_trees cfg_example li_example order_example 1 payload_example
    ≡ ok (first_group ∷ second_group ∷ [])
unfolding select_payload_trees
trees_run = refl

weighted_run :
    calculate_weighted cfg_example li_example order_example infos_example instructions_example 1 []
    ≡ ok (12 ∷ 13 ∷ [])
unfolding calculate_weighted select_payload_trees assign calculate_payload_weight emplace
weighted_run = refl

weighted_selection_example :
    (f : First order_example
      (payload_weights cfg_example li_example order_example infos_example info_example
        instructions_example 1 refl)
      (first_group ∷ second_group ∷ []))
    × (calculate_weighted cfg_example li_example order_example infos_example instructions_example 1
          (11 ∷ [])
        ≡ ok (11 ∷ insert_all [] f.best.members))
weighted_selection_example =
    weighted_selection cfg_example li_example order_example infos_example info_example
      instructions_example 1 refl first_group (second_group ∷ []) (11 ∷ []) trees_run

-- No payload at all.
abbrev bare_info : IteratorInfo
bare_info = record {
  is_iterator = λ i. true;
  payload_only_blocks = λ l. [];
  has_payload_only_blocks = λ l. false;
}

abbrev bare_infos : IteratorRecognitionInfo
bare_infos = λ l. some bare_info

no_trees_run : select_payload_trees cfg_example li_example order_example 1 [] ≡ ok []
unfolding select_payload_trees
no_trees_run = refl

candidates_traversed :
    (b : ℕ)
    → contains (candidates li_example 1) b ≡ true
    → contains (li_example.rpo (li_example.loop_for b)) b ≡ true
candidates_traversed b h = ground (arith, contains-candidates li_example info_example 1 b)

iterator_run : calculate li_example infos_example 1 [] ≡ 12 ∷ 13 ∷ 16 ∷ []
unfolding calculate
iterator_run = refl

iterator_selection_example :
    Selected li_example info_example 1 []
      (candidates li_example 1)
      (calculate li_example infos_example 1 [])
iterator_selection_example =
    iterator_selection li_example info_example 1 infos_example refl candidates_traversed
