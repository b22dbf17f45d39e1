-- ===== src/Extractor/Run/Tests.antt =====
-- The region of Clone/Tests, in a function of the blocks 10, 11 and 12: the loop of 11 and 12 is entered from 10, and 12
-- is outlined, as 112.
use atrox.Prelude.{
  ℕ, ◌+◌, ◌≡◌, ◌↔◌, refl, Bool, true, false, if◌then◌else◌, List, [], ◌∷◌, All, length, none, some,
  ok, err, Error, map, inl, inr, Bool-cases, ==→≡, arith, ◌==◌,
}
use atrox.Args.Order.{IsDistinct}
use atrox.Bounds.Tests.{nest_example, se_example, code_example}
use atrox.Arrays.Flatten.{Gep, int64}
use atrox.Extractor.Stack.{no_slots}
use atrox.Extractor.Prepare.{get_pure_inputs}
use atrox.Extractor.Code.{Code}
use atrox.Extractor.Move.{clones}
use atrox.Extractor.Sever.Tests.{splitter_example, creator_example}
use atrox.Extractor.Returns.Tests.{return_splitter_example, trees_example}
use atrox.Extractor.Attributes.{enum_attribute, string_attribute, cold, no_unwind, no_return}
use atrox.Cloner.Calls.{Visited, plain, intrinsic, Intrinsic, is_ignored_intrinsic, visit_to_remove}
use atrox.Extractor.Clone.{Operand, cloned, CloneFunction, each, arg_count}
use atrox.Extractor.Erased.{
  AreUnused, is_kept, erase_ignored, erase_clones, is_used, erase_clone, is_clone_of,
}
use atrox.Extractor.Clone.Targets.{Target}
use atrox.Extractor.Clone.Operands.{AllFine}
use atrox.Extractor.Clone.Remapped.{IsFree}
use atrox.Extractor.Clone.Complete.{IsScopedStore}
use atrox.Extractor.Clone.Tests.{
  clone_ir, constants_example, no_pointers, prepared_example, prepare_run, clone_laws,
  no_slots_left,
}
use atrox.Extractor.Run.{va_start, Machine, OldFunction, Extracted, clone_region}
use atrox.Extractor.Run.Closed.{IsClosed}
use atrox.Extractor.Run.Whole.{clone_region_lem}
use atrox.Extractor.Run.Refused.{IsRefused, clone_region_none_iff}

abbrev pub gep_example : Gep
gep_example = record { pointee = none; first = int64 0; rest = [] }

abbrev pub machine : Bool → Machine
machine var_args = record {
  aggregate = false;
  allow_var_args = var_args;
  flatten_array_accesses = false;
  splitter = splitter_example;
  creator = creator_example;
  return_splitter = return_splitter_example;
  trees = trees_example;
  ir_of = λ c. clone_ir;
  geps_of = λ c v. gep_example;
  is_pointer = no_pointers;
  callee = λ i. if i == 20 then some va_start else none;
  visited = λ i. if i == 30 then intrinsic Intrinsic.lifetime_start else plain;
  clone_of = λ b. b + 100;
  root = 200;
  exit = 201;
}

abbrev pub old_function : OldFunction
old_function = record {
  is_var_arg = true;
  attributes =
      enum_attribute cold
      ∷ enum_attribute no_unwind
      ∷ enum_attribute no_return
      ∷ string_attribute "thunk"
      ∷ [];
  personality = none;
}

abbrev pub function_code : Code
function_code = record {
  entry = 10;
  blocks = 10 ∷ 11 ∷ 12 ∷ [];
  phis = λ k. if k == 11 then (5, (10, 7) ∷ (12, 20) ∷ []) ∷ [] else [];
  body = λ k. [];
  succs = λ k. if k == 10 then 11 ∷ [] else if k == 11 then 12 ∷ [] else 11 ∷ 13 ∷ [];
  returns = λ k. false;
}

pub blocks-IsDistinct : IsDistinct (10 ∷ 11 ∷ 12 ∷ 112 ∷ [])
blocks-IsDistinct = (refl, (refl, (refl, (refl, tt))))

pub unused_example : AreUnused (machine false).visited clone_ir (12 ∷ []) (20 ∷ [])
unfolding is_ignored_intrinsic
unused_example v h = elim (Bool-cases (v == 30)) [
  | inl y ↦ let e = ==→≡ v 30 y in (rw e refl, rw e refl)
  | inr n ↦ absurd (ground (arith, h, n))
]

clone_region_lem_example :
    (e : Extracted) × (clone_region
        (machine false)
        old_function
        function_code
        none
        (12 ∷ [])
        []
        prepared_example
      ≡ ok (some e))
    × (arg_count e.clone.params ≡ length (get_pure_inputs prepared_example) + 1)
    × AllFine clone_ir
        (12 ∷ [])
        (length (get_pure_inputs prepared_example) + 1)
        0
        (IsFree clone_ir (12 ∷ []))
        e.clone.region
    × All
        (IsScopedStore clone_ir
          (12 ∷ [])
          prepared_example.outputs
          (length (get_pure_inputs prepared_example) + 1))
        e.clone.exit
    × All (λ (q : ℕ × List Target). IsClosed q.1) e.successors
    × All (λ i. is_kept (machine false).visited i ≡ true) e.clone.region
    × All IsClosed e.header_values_from
    × All (λ (q : ℕ × List (List Target)). All IsClosed q.1) e.other_values_from
    × (e.functions ≡ record { old_blocks = 10 ∷ 11 ∷ 12 ∷ []; new_blocks = 200 ∷ 201 ∷ 112 ∷ [] })
unfolding clones
clone_region_lem_example =
    clone_region_lem (machine false) refl refl old_function function_code none 12 [] [] nest_example
      code_example se_example constants_example none none 1 no_slots prepared_example refl refl refl
      blocks-IsDistinct refl clone_laws unused_example prepare_run no_slots_left

-- The intrinsic stands in 12, outside of the region 11.
clone_region_none_iff_example :
    (clone_region (machine true) old_function function_code none (11 ∷ []) [] prepared_example
      ≡ ok none)
    ↔ IsRefused (machine true) old_function function_code (11 ∷ [])
clone_region_none_iff_example =
    clone_region_none_iff (machine true) old_function function_code none (11 ∷ []) []
      prepared_example

va_start_run : IsRefused (machine true) old_function function_code (11 ∷ [])
va_start_run = inr (
  refl,
  refl,
  record {
    block = 12;
    instruction = 20;
    block_of = refl;
    away = refl;
    stands = refl;
    handles = inl refl;
  },
)

-- A marker of the region that nothing uses is erased, and one whose clone is used makes LLVM assert.
abbrev marked : List (List Operand) → CloneFunction
marked uses = record {
  params = each [];
  names = [];
  root = [];
  region =
      record { origin = 30; operands = [] }
      ∷ map (λ os. record { origin = 20; operands = os }) uses;
  exit = [];
}

marker_of : ℕ → Visited
marker_of i = if i == 30 then intrinsic Intrinsic.invariant_start else plain

erased_run :
    erase_ignored marker_of (marked ([] ∷ []))
    ≡ ok (record (marked ([] ∷ [])) { region = record { origin = 20; operands = [] } ∷ [] })
unfolding erase_ignored marker_of visit_to_remove erase_clones is_used erase_clone is_clone_of
erased_run = refl

used_run : erase_ignored marker_of (marked ((cloned 30 ∷ []) ∷ [])) ≡ err Error.assertion
unfolding erase_ignored marker_of visit_to_remove erase_clones is_used erase_clone is_clone_of
used_run = refl
