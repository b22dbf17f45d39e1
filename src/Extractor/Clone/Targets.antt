-- ===== src/Extractor/Clone/Targets.antt =====
-- Where the clones branch to: the last loops of `cloneFunction` and `cloneCodeRegion` over terminators and phi nodes.
use atrox.Prelude.{ℕ, Bool, true, false, if◌then◌else◌, List, map, contains}

-- A block that a clone branches to, or that a phi node has a value from.
pub data Target : Type 0 where
  original_block clone_block : ℕ → Target
  new_root new_exit : Target

-- Whether the block is one of the new function.
unfoldable pub in_new_function : Target → Bool
in_new_function (original_block b) = false
in_new_function (clone_block b) = true
in_new_function new_root = true
in_new_function new_exit = true

module _ (blocks : List ℕ) where
  -- The loop that diverts the exiting branches, which still name blocks of the old function.
  unfoldable pub divert : ℕ → Target
  divert b = if contains blocks b then original_block b else new_exit

  unfoldable pub remap_target : Target → Target
  remap_target (original_block b) = if contains blocks b then clone_block b else original_block b
  remap_target (clone_block b) = clone_block b
  remap_target new_root = new_root
  remap_target new_exit = new_exit

  -- The successors of a clone, from those of its original.
  unfoldable pub clone_successors : List ℕ → List Target
  unfolding divert remap_target
  clone_successors bs = map remap_target (map divert bs)

  -- Where the clone of a phi node has its values from: a block outside of the region stays.
  unfoldable pub remap_incoming : List ℕ → List Target
  unfolding remap_target
  remap_incoming bs = map remap_target (map original_block bs)

  -- The loop over the phi nodes of the header: a block that is not in the new function gives way to its root.
  unfoldable pub header_incoming : List ℕ → List Target
  unfolding remap_incoming in_new_function
  header_incoming bs = map (λ t. if in_new_function t then t else new_root) (remap_incoming bs)
