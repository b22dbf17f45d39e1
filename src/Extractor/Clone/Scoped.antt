-- ===== src/Extractor/Clone/Scoped.antt =====
-- The clone of a region uses values of the new function only.
use mathlib.Core.Path.{subst}
use atrox.Prelude.{
  bind-ok, ℕ, ◌<◌, ◌≡◌, refl, sym, ◌∙◌, Bool, true, false, List, [], ◌∷◌, ==_refl, length, lookup,
  any, contains, Option, some, Result, ok, ◌>>=◌, Bool-cases, inl, inr, arith,
}
use atrox.Args.Directions.{is_bidirectional}
use atrox.Bounds.Nests.{LoopNest}
use atrox.Bounds.Conditions.{Code}
use atrox.Bounds.Spaces.{Analyzer, ScalarEvolution}
use atrox.Extractor.Regions.{
  Ir, defined_in_region, defined_in_caller, find_inputs_outputs, find_global_inputs_outputs,
  map_inputs_outputs, remove_if_erase, collect_geps,
}
use atrox.Extractor.Inputs.{find_inputs_outputs_lem}
use atrox.Extractor.Maps.{mapped_inputs_lem}
use atrox.Extractor.Stack.{Slots, Constants, find_stack_allocatable}
use atrox.Extractor.Prepare.{Prepared, reorder_by, find_values, prepare}
use atrox.Extractor.Prepared.{
  contains-reorder_by, add_globals-inputs, add_globals-outputs, collect_geps-All,
  remove_if_erase-All,
}
use atrox.Extractor.Prepared.Slots.{IsInitialised, find_stack_allocatable-IsInitialised}

module _ (ir : Ir) (is_pointer : ℕ → Bool) (blocks : List ℕ) where
  open ir use {operands, instructions, is_gep, pointer_operand, parent}

  -- What the code relies on of LLVM: the instructions of a block have it as their parent, and the pointer operand of
  -- an element pointer has a pointer type.
  pub record IsIr : Type 0 where
    pub parents : (b i : ℕ) → contains (instructions b) i ≡ true → parent i ≡ some b
    pub pointers : (g : ℕ) → is_gep g ≡ true → is_pointer (pointer_operand g) ≡ true

  abbrev pub is_operand : ℕ → Bool
  is_operand v = any (λ b. any (λ i. contains (operands i) v) (instructions b)) blocks

  find_values-inputs :
      (v : ℕ)
      → is_operand v ≡ true
      → defined_in_caller ir blocks v ≡ true
      → contains (find_values ir blocks).inputs v ≡ true
  unfolding find_values find_global_inputs_outputs
  find_values-inputs v o c =
      add_globals-inputs ir (find_inputs_outputs ir blocks (record { inputs = []; outputs = [] }))
        (remove_if_erase (λ e. ir.is_global (pointer_operand e)) (collect_geps ir blocks)) v
        (let (h, _) = find_inputs_outputs_lem ir blocks v in h ∙ rw (o, c) refl)

  module _ (laws : IsIr) where
    any_instruction-parent :
        (bs : List ℕ) (w : ℕ)
        → any (λ b. contains (instructions b) w) bs ≡ true
        → (b : ℕ) × (contains bs b ≡ true) × (parent w ≡ some b)
    any_instruction-parent [] w h = absurd cc
    any_instruction-parent (b ∷ bs) w h = elim (Bool-cases (contains (instructions b) w)) [
      | inl y ↦ (b, ground (arith, ==_refl b), laws.parents b w y)
      | inr n ↦ let (c, i, e) = any_instruction-parent bs w (ground arith) in (c, ground arith, e)
    ]

    instruction-defined :
        (w b : ℕ)
        → contains blocks b ≡ true
        → parent w ≡ some b
        → defined_in_region ir blocks w ≡ true
    unfolding defined_in_region
    instruction-defined w b c e = rw (defined_in_region, e) c

    find_values-outputs :
        (w : ℕ)
        → contains (find_values ir blocks).outputs w ≡ true
        → is_pointer w ≡ false
        → defined_in_region ir blocks w ≡ true
    unfolding find_values find_global_inputs_outputs
    find_values-outputs w c =
        let geps =
          remove_if_erase (λ e. ir.is_global (pointer_operand e)) (collect_geps ir blocks) in
        let found = find_inputs_outputs ir blocks (record { inputs = []; outputs = [] }) in
        add_globals-outputs ir (λ u. is_pointer u ≡ false → defined_in_region ir blocks u ≡ true)
          found geps w (λ g y n. absurd (let p = laws.pointers g y in cc))
          (remove_if_erase-All ir (λ e. ir.is_global (pointer_operand e)) (λ g. is_gep g ≡ true)
            (collect_geps ir blocks) (collect_geps-All ir blocks))
          (λ d n.
            let (_, h) = find_inputs_outputs_lem ir blocks w in
            let (b, i, e) = any_instruction-parent blocks w (ground arith) in
            instruction-defined w b i e)
          c

  -- What the clone needs of what `prepare` set.
  pub record IsPrepared (p : Prepared) : Type 0 where
    pub covered :
        (v : ℕ)
        → is_operand v ≡ true
        → defined_in_caller ir blocks v ≡ true
        → contains p.inputs v ≡ true
    pub mapped :
        (v : ℕ)
        → contains p.inputs v ≡ true
        → is_bidirectional v p.output_to_input ≡ true
        → (i : ℕ) × (lookup p.input_to_output v ≡ some i) × (i < length p.outputs)
    pub stored :
        (w : ℕ)
        → contains p.outputs w ≡ true
        → is_pointer w ≡ false
        → defined_in_region ir blocks w ≡ true
    pub initialised : IsInitialised p.slots

  module _ (nest : LoopNest) (code : Code) (se : ScalarEvolution) (constants : Constants)
      (laws : IsIr) where
    pub prepare-IsPrepared :
        (is_iterator : Option (ℕ → Bool)) (lba : Option Analyzer) (l : ℕ) (slots : Slots)
        (p : Prepared)
        → prepare ir nest code se constants is_iterator lba l blocks slots ≡ ok p
        → IsInitialised slots
        → IsPrepared p
    unfolding prepare
    prepare-IsPrepared is_iterator lba l slots p e init =
        let found = find_values ir blocks in
        let maps = map_inputs_outputs ir found ([], []) in
        let made : List ℕ → Slots → Prepared = λ xs ss. record {
          inputs = xs;
          outputs = found.outputs;
          input_to_output = maps.0;
          output_to_input = maps.1;
          slots = ss;
        } in
        let slots_of : List ℕ → Result Slots =
          λ xs. find_stack_allocatable nest code se constants lba l blocks xs slots in
        let (xs, order, e1) =
          bind-ok (reorder_by is_iterator found.inputs)
            (λ xs. slots_of xs >>= λ ss. ok (made xs ss)) p e in
        let (ss, run, e2) = bind-ok (slots_of xs) (λ ss. ok (made xs ss)) p e1 in
        let same : made xs ss ≡ p = cc in
        subst IsPrepared same (record {
          covered = λ v o c.
              contains-reorder_by is_iterator found.inputs xs v order ∙ find_values-inputs v o c;
          mapped = λ v c b.
              mapped_inputs_lem ir found v
                (sym (contains-reorder_by is_iterator found.inputs xs v order) ∙ c) b;
          stored = find_values-outputs laws;
          initialised =
              find_stack_allocatable-IsInitialised nest code se constants lba l blocks xs slots ss
                run init;
        })
