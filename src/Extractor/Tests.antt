-- ===== src/Extractor/Tests.antt =====
-- A region of the blocks 12 and 13: 20 adds the argument 7 to itself, 30 loads what the element pointer 31 of the
-- global 8 gives, and 32 and 33 are element pointers of arguments.
use atrox.Prelude.{
  ℕ, ◌+◌, ◌≤◌, ◌≡◌, ◌↔◌, refl, true, false, Bool, List, [], ◌∷◌, ◌==◌, Option, none, some, contains,
  length, select,
}
use atrox.Examples.{at}
use atrox.Extractor.Regions.{
  Ir, defined_in_caller, find_inputs_outputs, collect_geps, remove_if_erase,
}
use atrox.Extractor.Inputs.{find_inputs_outputs_lem}
use atrox.Extractor.Globals.{remove_if_erase_iff}

abbrev if_in : Bool → ℕ → Option ℕ → Option ℕ
if_in true b o = some b
if_in false b o = o

abbrev ir_example : Ir
ir_example = record {
  is_argument = contains (7 ∷ 9 ∷ []);
  parent =
      λ v. if_in (contains (20 ∷ 30 ∷ []) v) 12 (if_in (contains (31 ∷ 32 ∷ 33 ∷ []) v) 13 none);
  operands = at ((20, 7 ∷ []) ∷ (30, 31 ∷ []) ∷ (31, 8 ∷ []) ∷ (32, 9 ∷ []) ∷ (33, 9 ∷ []) ∷ []);
  users = at ((20, 40 ∷ []) ∷ (31, 30 ∷ []) ∷ []);
  instructions = at ((12, 20 ∷ 30 ∷ []) ∷ (13, 31 ∷ 32 ∷ 33 ∷ []) ∷ []);
  is_gep = contains (31 ∷ 32 ∷ 33 ∷ []);
  pointer_operand = λ v. 8;
  is_global = λ v. v == 8;
  is_load = λ v. v == 30;
  is_store = λ v. false;
  is_phi = λ v. false;
  incoming = λ v. [];
}

abbrev region_example : List ℕ
region_example = 12 ∷ 13 ∷ []

abbrev input_example : ℕ
input_example = 7

find_inputs_outputs_lem_example :
    (contains
        (find_inputs_outputs ir_example region_example
          (record { inputs = []; outputs = [] })).inputs
        input_example
      ≡ true)
    × (contains
          (find_inputs_outputs ir_example region_example
            (record { inputs = []; outputs = [] })).outputs
          input_example
        ≡ false)
unfolding defined_in_caller
find_inputs_outputs_lem_example = find_inputs_outputs_lem ir_example region_example input_example

remove_if_erase_iff_example :
    (remove_if_erase (contains (31 ∷ [])) (collect_geps ir_example region_example)
      ≡ select (contains (31 ∷ [])) (collect_geps ir_example region_example))
    ↔ (length (collect_geps ir_example region_example)
        ≤ length (select (contains (31 ∷ [])) (collect_geps ir_example region_example)) + 1)
remove_if_erase_iff_example = remove_if_erase_iff ir_example (contains (31 ∷ [])) region_example

remove_if_erase_run :
    remove_if_erase (contains (31 ∷ [])) (collect_geps ir_example region_example) ≡ 31 ∷ 33 ∷ []
unfolding remove_if_erase collect_geps
remove_if_erase_run = refl
