-- ===== src/Functions.antt =====
-- The functions that the passes leave out: the test at the head of `perform` in
-- lib/Transforms/Passes/BlockSeparatorPass.cpp, DecomposeMultiDimArrayRefsPass.cpp and
-- LoopBodyClonerPass.cpp. The white list is the names of the file, if a file is given.
use Prim.Native.String.{String}
use text.Mathlib.Text.{◌==◌ as str_eq}
use atrox.Prelude.{Bool, true, false, ◌||◌, if◌then◌else◌, List, [], ◌∷◌, Option, some, none}

-- `not_in(C, E)`.
unfoldable pub not_in : List String → String → Bool
not_in [] e = true
not_in (c ∷ cs) e = if str_eq c e then false else not_in cs e

-- What the passes read of an `llvm::Function`.
pub record Function : Type 0 where
  pub name : String
  pub is_declaration : Bool

unfoldable pub is_skipped : Option (List String) → Function → Bool
unfolding not_in
is_skipped white_list f =
    f.is_declaration || elim white_list [ none ↦ false | some names ↦ not_in names f.name ]
