-- ===== src/Llvm.antt =====
-- What the code reads of LLVM 7: the control flow graph, the loops of a function and the order
-- in which a pointer set is walked. Nothing here is code of the repository; each record is a
-- parameter of the definitions that use it. Blocks, loops, values and instructions are pointers,
-- and the null pointer is 0.
use atrox.Prelude.{ℕ, ◌≡◌, Bool, List, contains}

-- `llvm::pred_begin`/`pred_end` and `llvm::succ_begin`/`succ_end`.
pub record Cfg : Type 0 where
  pub preds : ℕ → List ℕ
  pub succs : ℕ → List ℕ

-- `llvm::LoopInfo`, and the `llvm::Loop` objects by their pointer.
pub record LoopInfo : Type 0 where
  pub loop_for : ℕ → ℕ
  pub is_loop_header : ℕ → Bool
  pub block_depth : ℕ → ℕ
  pub header : ℕ → ℕ
  pub latch : ℕ → ℕ
  pub latches : ℕ → List ℕ
  pub blocks : ℕ → List ℕ
  pub depth : ℕ → ℕ
  pub rpo : ℕ → List ℕ

-- The order in which an `llvm::SmallPtrSet` is walked is not specified, but for that each element
-- is met.
pub record SetOrder : Type 0 where
  pub walk : List ℕ → List ℕ
  pub contains-walk : (xs : List ℕ) (a : ℕ) → contains (walk xs) a ≡ contains xs a

-- `llvm::PreservedAnalyses`, as the passes return it.
pub data PreservedAnalyses : Type 0 where
  all none dominators_and_loops cfg_analyses : PreservedAnalyses
