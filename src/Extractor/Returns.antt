-- ===== src/Extractor/Returns.antt =====
-- `splitReturnBlocks`. `BasicBlock::splitBasicBlock` and `llvm::DominatorTree` are parameters.
pub mod Tests
use atrox.Prelude.{
  ℕ, ◌≡◌, ◌≢◌, refl, ap, sym, ◌∙◌, Bool, true, false, ◌&&◌, if◌then◌else◌, List, [], ◌∷◌, contains,
  Option, some, none, ◌==◌, ==→≡, ==_refl, arith, inl, inr, Bool-cases, All,
}
use atrox.Extractor.Code.{Code}

-- `Block->splitBasicBlock(RI)` at the return that ends a block: it moves to a new block, which the old one
-- branches to.
pub record ReturnSplitter : Type 0 where
  pub new_block : Code → ℕ → ℕ
  pub after : Code → ℕ → Code
  pub new_block_fresh : (c : Code) (b : ℕ) → contains (b ∷ c.blocks) (new_block c b) ≡ false
  pub blocks_after :
      (c : Code) (b k : ℕ)
      → contains (after c b).blocks k ≡ (if k == new_block c b then true else contains c.blocks k)
  pub returns_after :
      (c : Code) (b k : ℕ)
      → (after c b).returns k
        ≡ (if k == new_block c b then c.returns b else if k == b then false else c.returns k)
  pub succs_after :
      (c : Code) (b k : ℕ)
      → (after c b).succs k ≡ (
          if k == new_block c b
          then c.succs b
          else if k == b
          then new_block c b ∷ []
          else c.succs k)

-- The operations of the dominator tree that are called, with what they do to immediate dominators.
pub record DominatorTrees : Type 1 where
  pub Tree : Type 0
  pub idom : Tree → ℕ → Option ℕ
  pub children : Tree → ℕ → List ℕ
  pub add_new_block : Tree → ℕ → ℕ → Tree
  pub change_immediate_dominator : Tree → ℕ → ℕ → Tree
  pub idom-children :
      (t : Tree) (b k : ℕ)
      → contains (children t b) k ≡ elim (idom t k) [ none ↦ false | some d ↦ d == b ]
  pub idom-add_new_block :
      (t : Tree) (n b k : ℕ) → idom (add_new_block t n b) k ≡ (if k == n then some b else idom t k)
  pub idom-change_immediate_dominator :
      (t : Tree) (i n k : ℕ)
      → idom (change_immediate_dominator t i n) k ≡ (if k == i then some n else idom t k)

module _ (splitter : ReturnSplitter) (trees : DominatorTrees) where
  open splitter use {new_block, after}
  open trees use {Tree, idom, children, add_new_block, change_immediate_dominator}

  unfoldable pub change_all : Tree → List ℕ → ℕ → Tree
  change_all t [] n = t
  change_all t (i ∷ is') n = change_all (change_immediate_dominator t i n) is' n

  -- What is done to the dominator tree, if there is one.
  unfoldable pub update_tree : Option Tree → ℕ → ℕ → Option Tree
  unfolding change_all
  update_tree none b n = none
  update_tree (some t) b n = some (change_all (add_new_block t n b) (children t b) n)

  unfoldable pub split_return_blocks : List ℕ → Code × Option Tree → Code × Option Tree
  unfolding update_tree
  split_return_blocks [] s = s
  split_return_blocks (b ∷ bs) (c, t) =
      split_return_blocks bs
        (if c.returns b then (after c b, update_tree t b (new_block c b)) else (c, t))

  idom-change_all :
      (t : Tree) (is' : List ℕ) (n k : ℕ)
      → idom (change_all t is' n) k ≡ (if contains is' k then some n else idom t k)
  unfolding change_all
  idom-change_all t [] n k = refl
  idom-change_all t (i ∷ is') n k = ground (
    arith,
    idom-change_all (change_immediate_dominator t i n) is' n k,
    trees.idom-change_immediate_dominator t i n k,
  )

  -- The new block stands between the block and what it dominated.
  idom-update_tree :
      (t : Tree) (b n k : ℕ)
      → n ≢ b
      → idom t n ≡ none
      → idom (change_all (add_new_block t n b) (children t b) n) k ≡ (
          if k == n
          then some b
          else elim (idom t k) [ none ↦ none | some d ↦ if d == b then some n else some d ])
  idom-update_tree t b n k apart new = ground (
    arith,
    idom-change_all (add_new_block t n b) (children t b) n k,
    trees.idom-add_new_block t n b k,
    trees.idom-children t b k,
    ==→≡ k n,
  )

  -- A block that there was is not the new one.
  old_block : (c : Code) (b k : ℕ) → contains c.blocks k ≡ true → (k == new_block c b) ≡ false
  old_block c b k m = ground (arith, splitter.new_block_fresh c b, ==→≡ k (new_block c b))

  old_block-after :
      (c : Code) (b k : ℕ) → contains c.blocks k ≡ true → contains (after c b).blocks k ≡ true
  old_block-after c b k m = ground (arith, splitter.blocks_after c b k)

  returns-split_return_blocks :
      (bs : List ℕ) (c : Code) (t : Option Tree) (k : ℕ)
      → contains c.blocks k ≡ true
      → (split_return_blocks bs (c, t)).0.returns k ≡ (if contains bs k then false else c.returns k)
  unfolding split_return_blocks
  returns-split_return_blocks [] c t k m = refl
  returns-split_return_blocks (b ∷ bs) c t k m = elim (Bool-cases (c.returns b)) [
    | inl r ↦
        rw (r, split_return_blocks)
          (returns-split_return_blocks bs (after c b) (update_tree t b (new_block c b)) k
              (old_block-after c b k m)
            ∙ ground (arith, splitter.returns_after c b k, old_block c b k))
    | inr r ↦
        rw (r, split_return_blocks)
          (returns-split_return_blocks bs c t k m ∙ ground (arith, ==→≡ k b))
  ]

  -- A block that does not return, or is not among those that are split, branches where it did.
  succs-split_return_blocks :
      (bs : List ℕ) (c : Code) (t : Option Tree) (k : ℕ)
      → contains c.blocks k ≡ true
      → contains bs k && c.returns k ≡ false
      → (split_return_blocks bs (c, t)).0.succs k ≡ c.succs k
  unfolding split_return_blocks
  succs-split_return_blocks [] c t k m n = refl
  succs-split_return_blocks (b ∷ bs) c t k m n = elim (Bool-cases (c.returns b)) [
    | inl r ↦
        let apart : (k == b) ≡ false = ground (arith, ==→≡ k b) in
        rw (r, split_return_blocks)
          (succs-split_return_blocks bs (after c b) (update_tree t b (new_block c b)) k
              (old_block-after c b k m)
              (ground (arith, splitter.returns_after c b k, old_block c b k))
            ∙ ground (arith, splitter.succs_after c b k, old_block c b k))
    | inr r ↦ rw (r, split_return_blocks) (succs-split_return_blocks bs c t k m (ground arith))
  ]

  -- When the returns of some blocks are split off, given that the blocks are of the function, then none of them
  -- returns any more; each that did branches to a new block alone, which returns.
  pub split_return_blocks_lem :
      (bs : List ℕ) (c : Code) (t : Option Tree) (k : ℕ)
      → ((j : ℕ) → contains bs j ≡ true → contains c.blocks j ≡ true)
      → contains bs k ≡ true
      → c.returns k ≡ true
      → (n : ℕ) × ((split_return_blocks bs (c, t)).0.returns k ≡ false)
        × ((split_return_blocks bs (c, t)).0.succs k ≡ n ∷ [])
        × (contains c.blocks n ≡ false)
        × ((split_return_blocks bs (c, t)).0.returns n ≡ true)
  unfolding split_return_blocks
  split_return_blocks_lem [] c t k old h r = cc
  split_return_blocks_lem (b ∷ bs) c t k old h r = elim (Bool-cases (k == b)) [
    | inl here ↦
        let n = new_block c b in
        let at_b = ==→≡ k b here in
        let rb : c.returns b ≡ true = rw (← at_b) r in
        let kept = old_block-after c b k (old k h) in
        let n_new : contains c.blocks n ≡ false = ground (arith, splitter.new_block_fresh c b) in
        let n_other : contains bs n ≡ false = elim (Bool-cases (contains bs n)) [
          | inl e ↦ absurd (ground (arith, old n, e, n_new))
          | inr e ↦ e
        ] in
        let off = old_block c b k (old k h) in
        let off_n = old_block c b n in
        let now : (after c b).returns k ≡ false =
          ground (arith, splitter.returns_after c b k, off, here) in
        let n_here : contains (after c b).blocks n ≡ true =
          ground (arith, splitter.blocks_after c b n, ==_refl n) in
        let n_returns : (after c b).returns n ≡ true =
          ground (arith, splitter.returns_after c b n, ==_refl n, rb) in
        let tree = update_tree t b n in
        rw (rb, split_return_blocks)
          (
            n,
            returns-split_return_blocks bs (after c b) tree k kept ∙ rw now (ground arith),
            succs-split_return_blocks bs (after c b) tree k kept (rw now (ground arith))
                ∙ ground (arith, splitter.succs_after c b k, off, here),
            n_new,
            returns-split_return_blocks bs (after c b) tree n n_here ∙ rw n_other n_returns,
          )
    | inr away ↦
        let rest : contains bs k ≡ true = ground (arith, h, away) in
        elim (Bool-cases (c.returns b)) [
          | inl rb ↦
              let (n, x, y, z, w) =
                split_return_blocks_lem bs (after c b) (update_tree t b (new_block c b)) k
                  (λ j e. old_block-after c b j (old j (ground (arith, e)))) rest
                  (ground (arith, splitter.returns_after c b k, old_block c b k, old k h)) in
              rw (rb, split_return_blocks) (n, x, y, ground (arith, splitter.blocks_after c b n), w)
          | inr rb ↦
              rw (rb, split_return_blocks)
                (split_return_blocks_lem bs c t k (λ j e. old j (ground (arith, e))) rest r)
        ]
  ]
