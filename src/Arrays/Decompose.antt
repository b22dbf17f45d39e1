-- ===== src/Arrays/Decompose.antt =====
-- `DecomposeMultiDimArrayRefs`: the instructions that are put in the place of a reference, each on
-- the pointer that the one before it leaves. `none` as a result means that nothing changed.
use atrox.Prelude.{
  ltb, ◌==◌, if◌then◌else◌, List, [], ◌∷◌, length, Option, some, none, Result, Error, ok, err,
  ◌>>=◌,
}
use atrox.Arrays.Types.{IrType, get_decomposed_type}
use atrox.Arrays.Flatten.{Expr, Gep, element_type}

pub data Step : Type 0 where
  ptr_cast : IrType → Step
  get_element : IrType → Expr → Step
  ptr_load : Step

-- No load behind the last element pointer.
unfoldable pub load_between : List Expr → List Step → List Step
load_between [] steps = steps
load_between (i ∷ is') steps = ptr_load ∷ steps

-- The loop over the indices.
unfoldable pub emit : List IrType → List Expr → Result (List Step)
unfolding element_type load_between
emit types [] = ok []
emit [] (i ∷ is') = err Error.undefined
emit (t ∷ types) (i ∷ is') = do
  elem ← element_type t
  steps ← emit types is'
  ok (get_element elem i ∷ load_between is' steps)

-- From `newTypes` on.
unfoldable pub emit_all : List IrType → List Expr → Result (Option (List Step))
unfolding emit
emit_all [] indices = ok none
emit_all (t ∷ types) indices =
    if length (t ∷ types) == length indices
    then (emit (t ∷ types) indices >>= λ steps. ok (some (ptr_cast t ∷ steps)))
    else ok none

unfoldable pub decompose : Option Gep → Result (Option (List Step))
unfolding get_decomposed_type emit_all
decompose none = err Error.assertion
decompose (some gep) =
    let indices = gep.first ∷ gep.rest in
    if ltb (length indices) 2
    then ok none
    else (get_decomposed_type gep.pointee >>= λ d. emit_all d.types indices)
