-- ===== src/Separator/Run.antt =====
-- `BlockSeparatorPass::run` of `lib/Transforms/Passes/BlockSeparatorPass.cpp`.
use Prim.Native.String.{String}
use atrox.Prelude.{
  ℕ, ◌≡◌, refl, ap, Bool, true, false, if◌then◌else◌, List, Option, Result, ok, ◌>>=◌,
}
use atrox.Llvm.{PreservedAnalyses}
use atrox.Recognition.{IteratorRecognitionInfo}
use atrox.Functions.{Function}
use atrox.Separator.Points.{Block}
use atrox.Separator.Split.{Layout, BlockSplitter}
use atrox.Separator.Pass.{perform, separator_returns}

-- What a run returns, by whether the function changed.
unfoldable pub preserved : Bool → PreservedAnalyses
preserved has_changed =
    if has_changed then PreservedAnalyses.dominators_and_loops else PreservedAnalyses.all

module _ (splitter : BlockSplitter) (blocks_of : Layout → ℕ → List Block)
    (info_for : IteratorRecognitionInfo) where
  unfoldable pub run :
      Option (List String) → Function → List ℕ → Layout → Result (Layout × PreservedAnalyses)
  unfolding preserved
  run white_list function loops f =
      perform splitter blocks_of info_for white_list function loops f >>= λ t.
      ok (t.0, preserved t.1)

  preserved-all : (b : Bool) → preserved b ≡ PreservedAnalyses.all → b ≡ false
  unfolding preserved
  preserved-all true h = absurd cc
  preserved-all false h = refl

  -- The pass returns for every function, so `lastMode` is set wherever it is read, and where it preserves all
  -- analyses the function is as it was.
  pub run_returns :
      (white_list : Option (List String)) (function : Function) (loops : List ℕ) (f : Layout)
      → (t : Layout × PreservedAnalyses) × (run white_list function loops f ≡ ok t)
        × (t.1 ≡ PreservedAnalyses.all → t.0 ≡ f)
  unfolding run
  run_returns white_list function loops f =
      let (t, e, same) =
        separator_returns splitter blocks_of info_for white_list function loops f in
      (
        (t.0, preserved t.1),
        ap (λ q. q >>= λ t. ok (t.0, preserved t.1)) e,
        (λ h. same (preserved-all t.1 h)),
      )
