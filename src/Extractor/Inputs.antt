-- ===== src/Extractor/Inputs.antt =====
-- What `findInputsOutputs` finds.
use atrox.Prelude.{
  ℕ, ◌≡◌, Bool, not, ◌&&◌, ◌||◌, if◌then◌else◌, List, [], ◌∷◌, ==→≡, any, contains, insert,
  contains-insert, arith,
}
use atrox.Extractor.Regions.{
  Ir, Values, defined_in_region, defined_in_caller, insert_inputs, find_in_block, find_in_blocks,
  find_inputs_outputs,
}

module _ (ir : Ir) (blocks : List ℕ) where
  open ir use {operands, users, instructions}

  contains-insert_inputs :
      (inputs vs : List ℕ) (v : ℕ)
      → contains (insert_inputs ir blocks inputs vs) v
        ≡ (contains inputs v || (contains vs v && defined_in_caller ir blocks v))
  unfolding insert_inputs
  contains-insert_inputs inputs [] v = ground arith
  contains-insert_inputs inputs (w ∷ vs) v = ground (
    arith,
    contains-insert_inputs inputs vs v,
    contains-insert_inputs (insert inputs w) vs v,
    contains-insert inputs w v,
    ==→≡ v w,
  )

  -- An instruction has a user outside the region.
  abbrev pub is_used_outside : ℕ → Bool
  is_used_outside v = any (λ u. not (defined_in_region ir blocks u)) (users v)

  find_in_block-inputs :
      (s : Values) (is' : List ℕ) (v : ℕ)
      → contains (find_in_block ir blocks s is').inputs v ≡ (
          contains s.inputs v
          || (any (λ i. contains (operands i) v) is' && defined_in_caller ir blocks v))
  unfolding find_in_block
  find_in_block-inputs s [] v = ground arith
  find_in_block-inputs s (i ∷ is') v = ground (
    arith,
    find_in_block-inputs
        (record {
          inputs = insert_inputs ir blocks s.inputs (operands i);
          outputs = if is_used_outside i then insert s.outputs i else s.outputs;
        })
        is' v,
    contains-insert_inputs s.inputs (operands i) v,
  )

  find_in_block-outputs :
      (s : Values) (is' : List ℕ) (v : ℕ)
      → contains (find_in_block ir blocks s is').outputs v
        ≡ (contains s.outputs v || (contains is' v && is_used_outside v))
  unfolding find_in_block
  find_in_block-outputs s [] v = ground arith
  find_in_block-outputs s (i ∷ is') v = ground (
    arith,
    find_in_block-outputs
        (record {
          inputs = insert_inputs ir blocks s.inputs (operands i);
          outputs = if is_used_outside i then insert s.outputs i else s.outputs;
        })
        is' v,
    contains-insert s.outputs i v,
    ==→≡ v i,
  )

  find_in_blocks-inputs :
      (s : Values) (bs : List ℕ) (v : ℕ)
      → contains (find_in_blocks ir blocks s bs).inputs v ≡ (
          contains s.inputs v
          || (any (λ b. any (λ i. contains (operands i) v) (instructions b)) bs
              && defined_in_caller ir blocks v))
  unfolding find_in_blocks
  find_in_blocks-inputs s [] v = ground arith
  find_in_blocks-inputs s (b ∷ bs) v = ground (
    arith,
    find_in_blocks-inputs (find_in_block ir blocks s (instructions b)) bs v,
    find_in_block-inputs s (instructions b) v,
  )

  find_in_blocks-outputs :
      (s : Values) (bs : List ℕ) (v : ℕ)
      → contains (find_in_blocks ir blocks s bs).outputs v
        ≡ (contains s.outputs v || (any (λ b. contains (instructions b) v) bs && is_used_outside v))
  unfolding find_in_blocks
  find_in_blocks-outputs s [] v = ground arith
  find_in_blocks-outputs s (b ∷ bs) v = ground (
    arith,
    find_in_blocks-outputs (find_in_block ir blocks s (instructions b)) bs v,
    find_in_block-outputs s (instructions b) v,
  )

  -- From empty sets, the inputs are the operands of the region's instructions that are defined in the caller, and
  -- the outputs the instructions of the region that have a user outside.
  pub find_inputs_outputs_lem :
      (v : ℕ)
      → (contains (find_inputs_outputs ir blocks (record { inputs = []; outputs = [] })).inputs v
          ≡ (any (λ b. any (λ i. contains (operands i) v) (instructions b)) blocks
              && defined_in_caller ir blocks v))
        × (contains (find_inputs_outputs ir blocks (record { inputs = []; outputs = [] })).outputs v
            ≡ (any (λ b. contains (instructions b) v) blocks && is_used_outside v))
  unfolding find_inputs_outputs
  find_inputs_outputs_lem v = (
    find_in_blocks-inputs (record { inputs = []; outputs = [] }) blocks v,
    find_in_blocks-outputs (record { inputs = []; outputs = [] }) blocks v,
  )
