-- ===== src/Extractor/Run.antt =====
-- `cloneCodeRegion` as a whole: the checks, the split of the header and of the blocks that return, the flattening
-- of the accesses, the clone with what it branches to, its attributes, where the clones are put, and the erasure of ignored intrinsics. What the code
-- reads of a function in some state is a parameter.
pub mod Closed
pub mod Whole
pub mod Refused
pub mod Tests
use atrox.Prelude.{
  ℕ, Bool, true, false, ◌&&◌, not, if◌then◌else◌, List, [], ◌∷◌, map, any, contains, select, ◌==◌,
  Option, some, none, Result, ok, ◌>>=◌,
}
use atrox.Arrays.Flatten.{Gep}
use atrox.Extractor.Regions.{Ir}
use atrox.Extractor.Prepare.{Prepared}
use atrox.Extractor.Code.{Phi, Code}
use atrox.Extractor.Sever.{HeaderSplitter, PhiCreator, Severed, sever_split_phi_nodes}
use atrox.Extractor.Returns.{ReturnSplitter, DominatorTrees, split_return_blocks}
use atrox.Extractor.Attributes.{Attribute, new_attributes}
use atrox.Extractor.Move.{Functions, place_blocks}
use atrox.Extractor.Accesses.{flatten_accesses}
use atrox.Extractor.Clone.{CloneFunction, clone_code_region}
use atrox.Extractor.Clone.Targets.{Target, clone_successors, header_incoming, remap_incoming}
use atrox.Extractor.Erased.{erase_ignored}
use atrox.Cloner.Calls.{Visited}

-- The intrinsic that a call is of.
pub data Callee : Type 0 where
  va_start va_end other_callee : Callee

-- The options, and what the code reads of LLVM.
pub record Machine : Type 1 where
  pub aggregate : Bool
  pub allow_var_args : Bool
  pub flatten_array_accesses : Bool
  pub splitter : HeaderSplitter
  pub creator : PhiCreator
  pub return_splitter : ReturnSplitter
  pub trees : DominatorTrees
  pub ir_of : Code → Ir
  pub geps_of : Code → ℕ → Gep
  pub is_pointer : ℕ → Bool
  pub callee : ℕ → Option Callee
  pub visited : ℕ → Visited
  pub clone_of : ℕ → ℕ
  pub root : ℕ
  pub exit : ℕ

-- What is read of the old function beside its blocks.
pub record OldFunction : Type 0 where
  pub is_var_arg : Bool
  pub attributes : List Attribute
  pub personality : Option ℕ

-- The new function, and the old one after the call.
pub record Extracted : Type 0 where
  pub clone : CloneFunction
  pub geps : ℕ → Gep
  pub successors : List (ℕ × List Target)
  pub header_values_from : List (List Target)
  pub other_values_from : List (ℕ × List (List Target))
  pub functions : Functions
  pub attributes : List Attribute
  pub personality : Option ℕ
  pub code : Code

-- `isEligible`.
unfoldable pub is_eligible : List ℕ → Bool
is_eligible [] = false
is_eligible (b ∷ bs) = true

module _ (m : Machine) where
  open m use {
    aggregate, allow_var_args, flatten_array_accesses, splitter, creator, return_splitter, trees,
    ir_of, geps_of, is_pointer, callee, visited, clone_of, root, exit,
  }

  -- `containsVarArgIntrinsic`.
  unfoldable pub is_var_arg_intrinsic : ℕ → Bool
  is_var_arg_intrinsic i = elim (callee i) [
    | none ↦ false
    | some va_start ↦ true
    | some va_end ↦ true
    | some other_callee ↦ false
  ]

  -- Whether a block outside of the region handles variable arguments.
  unfoldable pub handles_outside : Code → List ℕ → Bool
  unfolding is_var_arg_intrinsic
  handles_outside c region =
      any (λ b. not (contains region b) && any is_var_arg_intrinsic ((ir_of c).instructions b))
        c.blocks

  unfoldable pub flatten_if : Bool → Code → List ℕ → List (Option ℕ) → Result (ℕ → Gep)
  flatten_if false c region accesses = ok (geps_of c)
  flatten_if true c region accesses = flatten_accesses (ir_of c) region accesses (geps_of c)

  -- `RemapInstruction` on the phi nodes of the other blocks.
  unfoldable pub other_values : Code → List ℕ → ℕ → List (ℕ × List (List Target))
  unfolding remap_incoming
  other_values c region header =
      map (λ b. (b, map (λ (e : Phi). remap_incoming region (map (λ q. q.0) e.1)) (c.phis b)))
        (select (λ b. not (b == header)) region)

  -- With the code as it is after the splits.
  unfoldable pub clone_split :
      OldFunction → Code → List ℕ → ℕ → List (Option ℕ) → Prepared → Result Extracted
  unfolding flatten_if other_values erase_ignored
  clone_split old c region header accesses p =
      flatten_if flatten_array_accesses c region accesses >>= λ geps.
      clone_code_region (ir_of c) is_pointer aggregate region p >>= λ f.
      erase_ignored visited f >>= λ f'. ok (record {
        clone = f';
        geps = geps;
        successors = map (λ b. (b, clone_successors region (c.succs b))) region;
        header_values_from =
            map (λ (e : Phi). header_incoming region (map (λ q. q.0) e.1)) (c.phis header);
        other_values_from = other_values c region header;
        functions = place_blocks clone_of root exit region c.blocks;
        attributes = new_attributes old.attributes;
        personality = old.personality;
        code = c;
      })

  -- From the severed header on.
  unfoldable pub clone_severed :
      OldFunction → Severed → Option trees.Tree → List (Option ℕ) → Prepared → Result Extracted
  unfolding clone_split
  clone_severed old s t accesses p =
      clone_split old (split_return_blocks return_splitter trees s.region (s.code, t)).0 s.region
        s.header accesses p

  -- `none` is the null pointer.
  unfoldable pub clone_region :
      OldFunction
      → Code
      → Option trees.Tree
      → List ℕ
      → List (Option ℕ)
      → Prepared
      → Result (Option Extracted)
  unfolding is_eligible handles_outside clone_severed
  clone_region old c t [] accesses p = ok none
  clone_region old c t (header ∷ rest) accesses p =
      if allow_var_args && old.is_var_arg && handles_outside c (header ∷ rest)
      then ok none
      else (sever_split_phi_nodes splitter creator c (header ∷ rest) header >>= λ s.
          clone_severed old s t accesses p >>= λ e. ok (some e))
