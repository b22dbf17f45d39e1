-- ===== src/Selection/Weighted.antt =====
-- `WeightedIteratorRecognitionSelector::calculate`. Its local `blocks` is filtered and never read,
-- and is left out. `weights[k]` adds a zero entry for a missing key, which no later read can tell
-- from its absence.
pub mod Heaviest
use atrox.Prelude.{
  ℕ, ◌+◌, ◌%◌, List, [], ◌∷◌, ◌++◌, Option, some, none, ltb, if◌then◌else◌, foldl, map, lookup,
  assign, insert_all, Result, Error, ok, err, ◌>>=◌,
}
use atrox.Llvm.{Cfg, LoopInfo, SetOrder}
use atrox.Recognition.{IteratorInfo, IteratorRecognitionInfo}
use atrox.Payload.Weights.{u32_mod, Visit, calculate_payload_weight}
use atrox.Payload.Trees.{Group, select_payload_trees}

-- `weights[k]`.
abbrev pub weight_at : List (ℕ × ℕ) → ℕ → ℕ
weight_at weights k = elim (lookup weights k) [ none ↦ 0 | some w ↦ w ]

-- The sum of a group's weights, in the order of the walk.
unfoldable pub group_weight : List (ℕ × ℕ) → List ℕ → ℕ
group_weight weights = foldl (λ sum k. (sum + weight_at weights k) % u32_mod) 0

-- `std::max_element`: the first of the entries with the greatest value.
unfoldable pub max_element : ℕ × ℕ → List (ℕ × ℕ) → ℕ × ℕ
max_element best [] = best
max_element best (e ∷ rest) = max_element (if ltb best.1 e.1 then e else best) rest

-- `trees[root]`.
unfoldable pub members_at : List Group → ℕ → List ℕ
members_at gs r = elim (lookup (map (λ (g : Group). (g.root, g.members)) gs) r) [
  | none ↦ []
  | some ms ↦ ms
]

-- The group of the heaviest root. With no entry `max_element` returns the end, which is read.
unfoldable pub heaviest : List Group → List (ℕ × ℕ) → Result (List ℕ)
unfolding max_element members_at
heaviest gs sums = elim sums [
  | [] ↦ err Error.undefined
  | e ∷ rest ↦ ok (members_at gs (max_element e rest).0)
]

-- The weights of the groups, by their roots.
unfoldable pub tree_weights : SetOrder → List (ℕ × ℕ) → List (ℕ × ℕ) → List Group → List (ℕ × ℕ)
unfolding group_weight
tree_weights order weights sums [] = sums
tree_weights order weights sums (g ∷ gs) =
    tree_weights order weights (assign sums g.root (group_weight weights (order.walk g.members))) gs

unfoldable pub calculate :
    Cfg
    → LoopInfo
    → SetOrder
    → IteratorRecognitionInfo
    → (ℕ → List Visit)
    → ℕ
    → List ℕ
    → Result (List ℕ)
unfolding tree_weights heaviest
calculate cfg li order info_for instructions l blocks = elim (info_for l) [
  | none ↦ ok blocks
  | some info ↦
      let payload = info.payload_only_blocks l in
      let weights = calculate_payload_weight instructions payload [] in
      select_payload_trees cfg li order l payload >>= λ trees.
      heaviest trees (tree_weights order weights [] trees) >>= λ members.
      ok (blocks ++ insert_all [] (order.walk members))
]
