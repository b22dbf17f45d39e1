-- ===== src/Selection/Naive.antt =====
-- `NaiveSelector::calculate`.
use atrox.Prelude.{ℕ, List, ◌++◌, not, ◌||◌, ◌==◌, select, contains}
use atrox.Llvm.{LoopInfo}

module _ (li : LoopInfo) where
  open li use {header, latches, blocks}

  unfoldable pub calculate : ℕ → List ℕ → List ℕ
  calculate l selected =
      selected ++ select (λ e. not (e == header l || contains (latches l) e)) (blocks l)
