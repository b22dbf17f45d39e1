-- ===== src/Extractor/Regions.antt =====
-- `definedInRegion`, `definedInCaller`, `findInputsOutputs`, `findGlobalInputsOutputs` and `mapInputsOutputs`.
-- What the code reads of LLVM's values is the parameter `ir`.
use atrox.Prelude.{
  ℕ, drop, suc, Bool, true, false, not, ◌&&◌, if◌then◌else◌, List, [], ◌∷◌, ◌++◌, Option, some,
  none, ◌==◌, length, any, select, contains, insert, assign,
}

-- What the code reads of an `llvm::Value`. The parent of an instruction is its block; other values have none.
pub record Ir : Type 0 where
  pub is_argument : ℕ → Bool
  pub parent : ℕ → Option ℕ
  pub operands : ℕ → List ℕ
  pub users : ℕ → List ℕ
  pub instructions : ℕ → List ℕ
  pub is_gep : ℕ → Bool
  pub pointer_operand : ℕ → ℕ
  pub is_global : ℕ → Bool
  pub is_load : ℕ → Bool
  pub is_store : ℕ → Bool
  pub is_phi : ℕ → Bool
  pub incoming : ℕ → List ℕ

-- The sets `Inputs` and `Outputs`, in the order of insertion.
pub record Values : Type 0 where
  pub inputs : List ℕ
  pub outputs : List ℕ

-- `std::vector::erase` behind `std::remove_if`, of one element: what fails the test and stands behind
-- the new end but one stays.
unfoldable pub remove_if_erase : (ℕ → Bool) → List ℕ → List ℕ
remove_if_erase keep xs = select keep xs ++ drop (suc (length (select keep xs))) xs

-- `std::distance(begin, std::find(...))` of an element that is there.
unfoldable pub index_of : List ℕ → ℕ → ℕ
index_of [] v = 0
index_of (x ∷ xs) v = if v == x then 0 else suc (index_of xs v)

module _ (ir : Ir) where
  open ir use {
    is_argument, parent, operands, users, instructions, is_gep, pointer_operand, is_global, is_load,
    is_store, is_phi, incoming,
  }

  unfoldable pub defined_in_region : List ℕ → ℕ → Bool
  defined_in_region blocks v = elim (parent v) [ none ↦ false | some b ↦ contains blocks b ]

  unfoldable pub defined_in_caller : List ℕ → ℕ → Bool
  defined_in_caller blocks v =
      if is_argument v
      then true
      else elim (parent v) [ none ↦ false | some b ↦ not (contains blocks b) ]

  -- The loop over the operands.
  unfoldable pub insert_inputs : List ℕ → List ℕ → List ℕ → List ℕ
  unfolding defined_in_caller
  insert_inputs blocks inputs [] = inputs
  insert_inputs blocks inputs (v ∷ vs) =
      insert_inputs blocks (if defined_in_caller blocks v then insert inputs v else inputs) vs

  -- The loops over the instructions of a block, and over the blocks.
  unfoldable pub find_in_block : List ℕ → Values → List ℕ → Values
  unfolding insert_inputs defined_in_region
  find_in_block blocks s [] = s
  find_in_block blocks s (i ∷ is') =
      find_in_block blocks
        (record {
          inputs = insert_inputs blocks s.inputs (operands i);
          outputs =
              if any (λ u. not (defined_in_region blocks u)) (users i)
              then insert s.outputs i
              else s.outputs;
        })
        is'

  unfoldable pub find_in_blocks : List ℕ → Values → List ℕ → Values
  unfolding find_in_block
  find_in_blocks blocks s [] = s
  find_in_blocks blocks s (b ∷ bs) =
      find_in_blocks blocks (find_in_block blocks s (instructions b)) bs

  unfoldable pub find_inputs_outputs : List ℕ → Values → Values
  unfolding find_in_blocks
  find_inputs_outputs blocks s = find_in_blocks blocks s blocks

  -- `geps` after the first loop.
  unfoldable pub collect_geps : List ℕ → List ℕ
  collect_geps [] = []
  collect_geps (b ∷ bs) = select is_gep (instructions b) ++ collect_geps bs

  -- One round of the loop over `geps`.
  unfoldable pub add_global : Values → ℕ → Values
  add_global s gep =
      let outputs' =
        if any is_store (users gep) then insert s.outputs (pointer_operand gep) else s.outputs in
      record {
        inputs =
            if not (contains outputs' gep) && any is_load (users gep)
            then insert s.inputs (pointer_operand gep)
            else s.inputs;
        outputs = outputs';
      }

  unfoldable pub add_globals : Values → List ℕ → Values
  unfolding add_global
  add_globals s [] = s
  add_globals s (gep ∷ geps) = add_globals (add_global s gep) geps

  unfoldable pub find_global_inputs_outputs : List ℕ → Values → Values
  unfolding collect_geps remove_if_erase add_globals
  find_global_inputs_outputs blocks s =
      add_globals s (remove_if_erase (λ e. is_global (pointer_operand e)) (collect_geps blocks))

  -- The loop over the incoming values of a phi node `v`, on `IOMap` and `OIMap`.
  unfoldable pub map_incoming :
      List ℕ → ℕ → List (ℕ × ℕ) × List (ℕ × ℕ) → List ℕ → List (ℕ × ℕ) × List (ℕ × ℕ)
  unfolding index_of
  map_incoming outputs v s [] = s
  map_incoming outputs v (io, oi) (w ∷ ws) =
      map_incoming outputs v
        (if contains outputs w then (assign io v (index_of outputs w), assign oi w v) else (io, oi))
        ws

  unfoldable pub map_phis :
      List ℕ → List (ℕ × ℕ) × List (ℕ × ℕ) → List ℕ → List (ℕ × ℕ) × List (ℕ × ℕ)
  unfolding map_incoming
  map_phis outputs s [] = s
  map_phis outputs s (v ∷ vs) =
      map_phis outputs (if is_phi v then map_incoming outputs v s (incoming v) else s) vs

  -- The loop over the outputs from an index on.
  unfoldable pub map_outputs :
      List ℕ → ℕ → List (ℕ × ℕ) × List (ℕ × ℕ) → List ℕ → List (ℕ × ℕ) × List (ℕ × ℕ)
  map_outputs inputs n s [] = s
  map_outputs inputs n (io, oi) (w ∷ ws) =
      map_outputs inputs (suc n)
        (if contains inputs w then (assign io w n, assign oi w w) else (io, oi)) ws

  unfoldable pub map_inputs_outputs :
      Values → List (ℕ × ℕ) × List (ℕ × ℕ) → List (ℕ × ℕ) × List (ℕ × ℕ)
  unfolding map_phis map_outputs
  map_inputs_outputs s maps = map_outputs s.inputs 0 (map_phis s.outputs maps s.inputs) s.outputs
