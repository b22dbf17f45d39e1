-- ===== src/Cloner/Outline.antt =====
-- What `cloneLoop` gets of the code extractor: its construction from the blocks, `prepare`, and `cloneCodeRegion`,
-- which runs only behind the check of the iterators.
pub mod Outlined
pub mod Tests
use Prim.Native.String.{String}
use atrox.Prelude.{
  ℕ, Bool, true, false, ◌&&◌, if◌then◌else◌, List, [], ◌∷◌, map, replicate, Option, some, none,
  Result, ok, ◌>>=◌,
}
use atrox.Recognition.{IteratorInfo}
use atrox.Bounds.Nests.{LoopNest}
use atrox.Bounds.Conditions.{Code}
use atrox.Bounds.Spaces.{Analyzer, ScalarEvolution}
use atrox.Extractor.Blocks.{BlockCode, build_extraction_block_set}
use atrox.Extractor.Stack.{Constants, no_slots}
use atrox.Extractor.Prepare.{Prepared, prepare, get_pure_inputs}
use atrox.Extractor.Code
use atrox.Extractor.Clone.{ArgName, params, arg_count, arg_names}
use atrox.Extractor.Run.{Machine, OldFunction, Extracted, clone_region}
use atrox.Cloner.Loops.{Extraction, Context}

-- The state in which a loop is met, and what is read of LLVM. `text` is the name of an argument, `pointer_to` the
-- pointer to a function that is made.
pub record Site : Type 1 where
  pub machine : Machine
  pub block_code : BlockCode
  pub function_code : Code.Code
  pub tree : Option machine.trees.Tree
  pub old : OldFunction
  pub nest : LoopNest
  pub condition_code : Code
  pub se : ScalarEvolution
  pub constants : Constants
  pub lba : ℕ → Analyzer
  pub accesses : List ℕ → List (Option ℕ)
  pub text : ArgName → String
  pub pointer_to : Extracted → ℕ

module _ (s : Site) where
  open s use {
    machine, block_code, function_code, tree, old, nest, condition_code, se, constants, lba,
    accesses, text, pointer_to,
  }

  -- The constructor, with no dominator tree.
  unfoldable pub region_of : List ℕ → Result (List ℕ)
  unfolding build_extraction_block_set
  region_of = build_extraction_block_set block_code false machine.allow_var_args false

  -- A struct argument has no name.
  unfoldable pub names_of : Bool → Prepared → List String
  unfolding arg_names params arg_count get_pure_inputs
  names_of false p = map text (arg_names (get_pure_inputs p) p.outputs)
  names_of true p =
      replicate (arg_count (params machine.is_pointer true (get_pure_inputs p) p.outputs)) ""

  unfoldable pub made_of : List ℕ → List ℕ → Prepared → Result (Option ℕ)
  unfolding clone_region
  made_of blocks region p =
      clone_region machine old function_code tree region (accesses blocks) p >>= λ made.
      ok (elim made [ none ↦ none | some e ↦ some (pointer_to e) ])

  unfoldable pub extract_from : (ℕ → Bool) → List ℕ → ℕ → IteratorInfo → Result Extraction
  unfolding region_of prepare get_pure_inputs names_of made_of
  extract_from is_instruction blocks l info = region_of blocks >>= λ region.
      prepare (machine.ir_of function_code) nest condition_code se constants
        (some (λ v. is_instruction v && info.is_iterator v)) (some (lba l)) l region no_slots
      >>= λ p. ok (record {
        pure_inputs = get_pure_inputs p;
        outputs = p.outputs;
        function = made_of blocks region p;
        arg_names = names_of machine.aggregate p;
      })

  -- The cloner with this extractor.
  abbrev pub connected : Context → Context
  connected c = record c { extract = extract_from c.is_instruction }
