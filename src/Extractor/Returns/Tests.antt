-- ===== src/Extractor/Returns/Tests.antt =====
-- A function of the blocks 1, 2 and 3, of which 2 and 3 return. A new block has a number above all others, and a
-- dominator tree is the list of the immediate dominators.
use mathlib.Core.List.{List}
use atrox.Prelude.{
  ℕ, suc, ◌≡◌, refl, Bool, true, false, if◌then◌else◌, [], ◌∷◌, map, contains, lookup, select,
  contains-select, Option, some, none, ◌==◌, arith, Option-cases, inl, inr,
}
use atrox.Extractor.Code.{Code}
use atrox.Extractor.Sever.Tests.{total, above}
use atrox.Extractor.Returns.{
  ReturnSplitter, DominatorTrees, split_return_blocks, split_return_blocks_lem,
}

abbrev next_block : Code → ℕ → ℕ
next_block c b = suc (total (b ∷ c.blocks))

abbrev pub return_splitter_example : ReturnSplitter
return_splitter_example = record {
  new_block = next_block;
  after = λ c b. record c {
    blocks = next_block c b ∷ c.blocks;
    returns =
        λ k. if k == next_block c b then c.returns b else if k == b then false else c.returns k;
    succs = λ k.
        if k == next_block c b
        then c.succs b
        else if k == b
        then next_block c b ∷ []
        else c.succs k;
  };
  new_block_fresh = λ c b. above (b ∷ c.blocks);
  blocks_after = λ c b k. refl;
  returns_after = λ c b k. refl;
  succs_after = λ c b k. refl;
}

abbrev dominated_by : List (ℕ × ℕ) → ℕ → ℕ → Bool
dominated_by t b k = elim (lookup t k) [ none ↦ false | some d ↦ d == b ]

keys-lookup :
    (t : List (ℕ × ℕ)) (k d : ℕ) → lookup t k ≡ some d → contains (map (λ e. e.0) t) k ≡ true
keys-lookup [] k d h = cc
keys-lookup ((j, w) ∷ t) k d h = ground (arith, keys-lookup t k d)

pub contains-dominated :
    (t : List (ℕ × ℕ)) (b k : ℕ)
    → contains (select (dominated_by t b) (map (λ e. e.0) t)) k
      ≡ elim (lookup t k) [ none ↦ false | some d ↦ d == b ]
contains-dominated t b k = elim (Option-cases (lookup t k)) [
  | inl e ↦ ground (arith, contains-select (dominated_by t b) (map (λ e. e.0) t) k, e)
  | inr (d, e) ↦
      ground
        (arith, contains-select (dominated_by t b) (map (λ e. e.0) t) k, e, keys-lookup t k d e)
]

abbrev pub trees_example : DominatorTrees
trees_example = record {
  Tree = List (ℕ × ℕ);
  idom = lookup;
  children = λ t b. select (dominated_by t b) (map (λ e. e.0) t);
  add_new_block = λ t n b. (n, b) ∷ t;
  change_immediate_dominator = λ t i n. (i, n) ∷ t;
  idom-children = contains-dominated;
  idom-add_new_block = λ t n b k. refl;
  idom-change_immediate_dominator = λ t i n k. refl;
}

abbrev returning : Code
returning = record {
  entry = 1;
  blocks = 1 ∷ 2 ∷ 3 ∷ [];
  phis = λ k. [];
  body = λ k. [];
  succs = λ k. if k == 1 then 2 ∷ 3 ∷ [] else [];
  returns = λ k. if k == 2 then true else k == 3;
}

abbrev dominators : Option (List (ℕ × ℕ))
dominators = some ((2, 1) ∷ (3, 1) ∷ [])

-- The block 2 gets a new block behind it.
split_run :
    (split_return_blocks return_splitter_example trees_example
      (1 ∷ 2 ∷ [])
      (returning, dominators)).1
    ≡ some ((9, 2) ∷ (2, 1) ∷ (3, 1) ∷ [])
unfolding split_return_blocks
split_run = refl

region_in_function : (j : ℕ) → contains (1 ∷ 2 ∷ []) j ≡ true → contains (1 ∷ 2 ∷ 3 ∷ []) j ≡ true
region_in_function j h = ground arith

split_return_blocks_lem_example :
    (n : ℕ) × ((split_return_blocks return_splitter_example trees_example
          (1 ∷ 2 ∷ [])
          (returning, dominators)).0.returns
        2
      ≡ false)
    × ((split_return_blocks return_splitter_example trees_example
            (1 ∷ 2 ∷ [])
            (returning, dominators)).0.succs
          2
        ≡ n ∷ [])
    × (contains (1 ∷ 2 ∷ 3 ∷ []) n ≡ false)
    × ((split_return_blocks return_splitter_example trees_example
            (1 ∷ 2 ∷ [])
            (returning, dominators)).0.returns
          n
        ≡ true)
split_return_blocks_lem_example =
    split_return_blocks_lem return_splitter_example trees_example (1 ∷ 2 ∷ []) returning dominators
      2 region_in_function refl refl
