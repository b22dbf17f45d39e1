-- ===== src/Extractor/Clone/Tests.antt =====
-- A region of the block 12: 20 adds the argument 7 to the phi node 5 of the block 11, which has its value from 20, and 30
-- adds the constant 9 to 20.
use atrox.Prelude.{
  ℕ, ◌+◌, ◌<◌, ◌≤◌, ◌≡◌, refl, Bool, true, false, ◌||◌, if◌then◌else◌, List, [], ◌∷◌, ◌==◌, ==→≡,
  assign, lookup, length, contains, none, some, Error, ok, err, Bool-cases, inl, inr, arith,
}
use atrox.Examples.{at}
use atrox.Args.Directions.{is_bidirectional}
use atrox.Bounds.Tests.{nest_example, se_example, code_example}
use atrox.Extractor.Regions.{Ir, map_inputs_outputs}
use atrox.Extractor.Maps.{mapped_inputs_lem}
use atrox.Extractor.Stack.{Constants, no_slots}
use atrox.Extractor.Prepare.{Prepared, prepare, get_pure_inputs}
use atrox.Extractor.Clone.{
  original, argument, loaded_argument, cloned, load_argument, each, type_of, pointer_to_type_of,
  name_of, out_name_of, CloneFunction, clone_function, clone_code_region, index_at,
}
use atrox.Extractor.Clone.Scoped.{IsIr}
use atrox.Extractor.Clone.Aggregated.{aggregate_undefined}

abbrev pub clone_ir : Ir
clone_ir = record {
  is_argument = λ v. v == 7;
  parent = λ v. if v == 20 || v == 30 then some 12 else if v == 5 then some 11 else none;
  operands = at ((20, 5 ∷ 7 ∷ []) ∷ (30, 20 ∷ 9 ∷ []) ∷ []);
  users = at ((20, 5 ∷ 30 ∷ []) ∷ []);
  instructions = at ((12, 20 ∷ 30 ∷ []) ∷ []);
  is_gep = λ v. false;
  pointer_operand = λ v. 0;
  is_global = λ v. false;
  is_load = λ v. false;
  is_store = λ v. false;
  is_phi = λ v. v == 5;
  incoming = at ((5, 7 ∷ 20 ∷ []) ∷ []);
}

abbrev pub constants_example : Constants
constants_example = record { is_constant = λ e. true; value_of = λ e. e; constant_int = λ v k. k }

abbrev pub no_pointers : ℕ → Bool
no_pointers v = false

abbrev blocks_example : List ℕ
blocks_example = 12 ∷ []

abbrev pub prepared_example : Prepared
prepared_example = record {
  inputs = 5 ∷ 7 ∷ [];
  outputs = 20 ∷ [];
  input_to_output = (5, 0) ∷ [];
  output_to_input = (20, 5) ∷ [];
  slots = no_slots;
}

pub prepare_run :
    prepare clone_ir nest_example code_example se_example constants_example none none 1
      blocks_example no_slots
    ≡ ok prepared_example
unfolding prepare assign
prepare_run = refl

-- The one argument for 7, and one for 20, through which 5 comes in and 20 goes out.
abbrev clone_example : CloneFunction
clone_example = record {
  params = each (type_of 7 ∷ pointer_to_type_of 20 ∷ []);
  names = name_of 7 ∷ out_name_of 20 ∷ [];
  root = load_argument 1 ∷ [];
  region =
      record { origin = 20; operands = loaded_argument 1 ∷ argument 0 ∷ [] }
      ∷ record { origin = 30; operands = cloned 20 ∷ original 9 ∷ [] }
      ∷ [];
  exit = record { value = cloned 20; pointer = 1 } ∷ [];
}

clone_run :
    clone_code_region clone_ir no_pointers false blocks_example prepared_example ≡ ok clone_example
unfolding clone_code_region
clone_run = refl

mapped_inputs_lem_example :
    (i : ℕ) × (lookup
        (map_inputs_outputs clone_ir (record { inputs = 5 ∷ 7 ∷ []; outputs = 20 ∷ [] }) ([], [])).0
        5
      ≡ some i)
    × (i < 1)
unfolding map_inputs_outputs assign is_bidirectional
mapped_inputs_lem_example =
    mapped_inputs_lem clone_ir (record { inputs = 5 ∷ 7 ∷ []; outputs = 20 ∷ [] }) 5 refl refl

parents_example :
    (b i : ℕ) → contains (clone_ir.instructions b) i ≡ true → clone_ir.parent i ≡ some b
parents_example b i h = elim (Bool-cases (b == 12)) [
  | inl y ↦ elim (Bool-cases (i == 20)) [
    | inl z ↦ rw (z, ==→≡ b 12 y) refl
    | inr n ↦ elim (Bool-cases (i == 30)) [
      | inl z ↦ rw (n, z, ==→≡ b 12 y) refl
      | inr m ↦ absurd (ground arith)
    ]
  ]
  | inr n ↦ absurd (ground arith)
]

pub clone_laws : IsIr clone_ir no_pointers blocks_example
clone_laws = record { parents = parents_example; pointers = λ g h. absurd cc }

pub no_slots_left : 0 ≤ 0
no_slots_left = omega arith

one_before : 1 ≤ length (get_pure_inputs prepared_example) + 0
unfolding get_pure_inputs
one_before = omega arith

aggregate_undefined_example :
    clone_function clone_ir no_pointers true blocks_example prepared_example ≡ err Error.undefined
unfolding index_at is_bidirectional
aggregate_undefined_example =
    aggregate_undefined clone_ir no_pointers blocks_example prepared_example 5 refl refl one_before
