-- ===== src/Selection/Iterator.antt =====
-- `IteratorRecognitionSelector::calculate`. The `break` of the loop over the blocks is `none`.
pub mod Payload
use atrox.Prelude.{
  ℕ, List, [], ◌∷◌, ◌++◌, Option, some, none, if◌then◌else◌, ◌==◌, contains, insert, insert_all,
  erase,
}
use atrox.Llvm.{LoopInfo}
use atrox.Recognition.{IteratorInfo, IteratorRecognitionInfo}

-- `blocks.erase(std::remove(...), ...)` for each of some blocks.
unfoldable pub remove_all : List ℕ → List ℕ → List ℕ
remove_all blocks [] = blocks
remove_all blocks (b ∷ bs) = remove_all (erase blocks b) bs

module _ (li : LoopInfo) where
  open li use {header, latches, rpo, is_loop_header, loop_for}

  -- One block of the loop.
  unfoldable pub consider : IteratorInfo → ℕ → List ℕ → ℕ → Option (List ℕ)
  consider info l selected bb =
      if contains selected bb
      then some selected
      else if bb == header l
      then some (insert selected bb)
      else if is_loop_header bb
      then (if info.has_payload_only_blocks (loop_for bb)
          then some (insert_all selected (rpo (loop_for bb)))
          else none)
      else if contains (info.payload_only_blocks l) bb
      then some (insert selected bb)
      else none

  unfoldable pub consider_all : IteratorInfo → ℕ → List ℕ → List ℕ → List ℕ
  unfolding consider
  consider_all info l selected [] = selected
  consider_all info l selected (bb ∷ rest) = elim (consider info l selected bb) [
    | none ↦ selected
    | some selected' ↦ consider_all info l selected' rest
  ]

  -- The blocks that are looked at.
  unfoldable pub candidates : ℕ → List ℕ
  unfolding remove_all
  candidates l = remove_all (erase (rpo l) (header l)) (latches l)

  unfoldable pub calculate : IteratorRecognitionInfo → ℕ → List ℕ → List ℕ
  unfolding candidates consider_all
  calculate info_for l blocks = elim (info_for l) [
    | none ↦ blocks
    | some info ↦ blocks ++ consider_all info l [] (candidates l)
  ]
