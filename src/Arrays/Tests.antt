-- ===== src/Arrays/Tests.antt =====
-- Runs on a reference into an array of 3 by 4 of a type 7.
use atrox.Prelude.{
  ◌↔◌, ℕ, ap, sym, ◌∙◌, Option, true, false, ◌*◌, ◌%◌, ◌≡◌, ◌↔◌, refl, List, [], ◌∷◌, length, some,
  none, ok, err, Error,
}
use atrox.Access.MemAccInst.{Inst, Ordering}
use atrox.Args.Order.{IsDistinct}
use atrox.Llvm.{PreservedAnalyses}
use atrox.Arrays.Run.{run, run_rewrites}
use atrox.Arrays.Types.{IrType, other, array, pointer}
use atrox.Arrays.Flatten.{u64_mod, Expr, value, Gep, Flattened, flatten_indices}
use atrox.Arrays.Dots.{gep_offset}
use atrox.Arrays.Offsets.{eval, flatten_offset, flatten_exact_iff}
use atrox.Arrays.Decompose.{Step, ptr_cast, decompose}
use atrox.Arrays.Chains.{Runs, alternates, indices_of, decompose_chain, decompose_undefined}

abbrev matrix : IrType
matrix = array 3 (array 4 (other 7))

-- The reference [first][i][j].
abbrev gep_example : Gep
gep_example = record { pointee = some matrix; first = value 0; rest = value 1 ∷ value 2 ∷ [] }

abbrev env_example : ℕ → ℕ
env_example k = k

flatten_offset_example :
    (f : Flattened) × (flatten_indices (some gep_example) ≡ ok (some f))
    × (f.cast ≡ pointer (other 7))
    × (f.elem_type ≡ other 7)
    × (eval env_example f.index ≡ 6)
unfolding eval
flatten_offset_example =
    flatten_offset env_example 3 4 [] (other 7) (value 0) (value 1 ∷ value 2 ∷ []) tt refl

abbrev flattened_example : Flattened
flattened_example = record {
  cast = pointer (other 7);
  elem_type = other 7;
  index = Expr.add (Expr.mul (value 2) (Expr.int64 1)) (Expr.mul (value 1) (Expr.int64 4));
}

flatten_run : flatten_indices (some gep_example) ≡ ok (some flattened_example)
unfolding flatten_indices
flatten_run = refl

flatten_exact_iff_example :
    (eval env_example flattened_example.index
      ≡ gep_offset (3 ∷ 4 ∷ []) (eval env_example (value 0)) (1 ∷ 2 ∷ []) % u64_mod)
    ↔ (eval env_example (value 0) * 12 % u64_mod ≡ 0)
unfolding eval
flatten_exact_iff_example =
    flatten_exact_iff env_example 3 4 [] (other 7) (value 0) (value 1 ∷ value 2 ∷ [])
      flattened_example tt refl flatten_run

decompose_chain_example :
    (u : IrType) × (ss : List Step) × (decompose (some gep_example) ≡ ok (some (ptr_cast u ∷ ss)))
    × Runs (pointer matrix) (ptr_cast u ∷ ss) (pointer (other 7))
    × (alternates ss ≡ true)
    × (indices_of ss ≡ value 0 ∷ value 1 ∷ value 2 ∷ [])
    × (length (ptr_cast u ∷ ss) ≡ 6)
decompose_chain_example =
    decompose_chain 3 (4 ∷ []) (other 7) (value 0) (value 1) (value 2 ∷ []) tt refl

decompose_undefined_example :
    decompose (some (record { pointee = some (other 7); first = value 0; rest = value 1 ∷ [] }))
    ≡ err Error.undefined
decompose_undefined_example = decompose_undefined (other 7) (value 0) (value 1) [] tt

abbrev load_of : ℕ → Inst
load_of p = record {
  id = 1;
  is_load = true;
  is_store = false;
  is_call = false;
  is_mem_intrinsic = false;
  is_mem_transfer = false;
  value_operand = 0;
  pointer_operand = p;
  raw_dest = 0;
  alignment = 8;
  dest_alignment = 0;
  source_alignment = 0;
  volatile = false;
  simple = true;
  unordered_access = true;
  ordering = Ordering.not_atomic;
}

-- Every operand is the reference above.
abbrev geps_example : ℕ → Option Gep
geps_example p = some gep_example

geps_decompose :
    (p : ℕ) (g : Gep)
    → geps_example p ≡ some g
    → (r : Option (List Step)) × (decompose (some g) ≡ ok r)
geps_decompose p g e =
    let (u, ss, run, _, _, _, _) =
      decompose_chain 3 (4 ∷ []) (other 7) (value 0) (value 1) (value 2 ∷ []) tt refl in
    (some (ptr_cast u ∷ ss), ap decompose (sym e) ∙ run)

run_rewrites_example :
    (t : List ℕ × PreservedAnalyses) × (run geps_example none
        (record { name = "f"; is_declaration = false })
        (load_of 7 ∷ load_of 7 ∷ load_of 9 ∷ [])
      ≡ ok t)
    × IsDistinct t.0
    × ((t.1 ≡ PreservedAnalyses.all) ↔ (t.0 ≡ []))
run_rewrites_example =
    run_rewrites geps_example geps_decompose none (record { name = "f"; is_declaration = false })
      (load_of 7 ∷ load_of 7 ∷ load_of 9 ∷ [])
