-- ===== src/Arrays/Run.antt =====
-- `DecomposeMultiDimArrayRefsPass::run` of `lib/Transforms/Passes/DecomposeMultiDimArrayRefsPass.cpp`.
use Prim.Native.String.{String}
use atrox.Prelude.{
  ℕ, ◌≡◌, ◌↔◌, refl, sym, ap, ◌∙◌, Bool, if◌then◌else◌, List, [], ◌∷◌, Option, some, Result, ok,
  ◌>>=◌,
}
use atrox.Llvm.{PreservedAnalyses}
use atrox.Functions.{Function}
use atrox.Access.MemAccInst.{Inst}
use atrox.Args.Order.{IsDistinct, is_nonempty}
use atrox.Arrays.Flatten.{Gep}
use atrox.Arrays.Decompose.{Step, decompose}
use atrox.Arrays.Pass.{perform, rewrites_once}

unfoldable pub preserved : Bool → PreservedAnalyses
preserved has_changed =
    if has_changed then PreservedAnalyses.cfg_analyses else PreservedAnalyses.all

unfoldable pub run :
    (ℕ → Option Gep)
    → Option (List String)
    → Function
    → List Inst
    → Result (List ℕ × PreservedAnalyses)
unfolding preserved
run gep_of white_list function instructions =
    perform gep_of white_list function instructions >>= λ t. ok (t.1, preserved t.0)

nothing_rewritten : (ws : List ℕ) → (preserved (is_nonempty ws) ≡ PreservedAnalyses.all) ↔ (ws ≡ [])
unfolding preserved
nothing_rewritten [] = ((λ h. refl), (λ h. refl))
nothing_rewritten (w ∷ ws) = ((λ h. absurd cc), (λ h. absurd cc))

-- Where the rewriting of each element pointer returns, the pass returns for every function; it rewrites each
-- element pointer at most once, and preserves all analyses exactly if it rewrote none.
pub run_rewrites :
    (gep_of : ℕ → Option Gep)
    (total : (p : ℕ) (g : Gep)
      → gep_of p ≡ some g
      → (r : Option (List Step)) × (decompose (some g) ≡ ok r))
    (white_list : Option (List String)) (function : Function) (instructions : List Inst)
    → (t : List ℕ × PreservedAnalyses) × (run gep_of white_list function instructions ≡ ok t)
      × IsDistinct t.0
      × ((t.1 ≡ PreservedAnalyses.all) ↔ (t.0 ≡ []))
unfolding run
run_rewrites gep_of total white_list function instructions =
    let (t, e, d, n) = rewrites_once gep_of total white_list function instructions in
    let (there, back) = nothing_rewritten t.1 in
    (
      (t.1, preserved t.0),
      ap (λ q. q >>= λ t. ok (t.1, preserved t.0)) e,
      d,
      ((λ h. there (ap preserved (sym n) ∙ h)), (λ h. ap preserved n ∙ back h)),
    )
