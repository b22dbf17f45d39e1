-- ===== src/Payload/Weights.antt =====
-- `CalculatePayloadWeight` of lib/Analysis/PayloadWeights.cpp. `llvm::InstVisitor` chooses the method
-- for an instruction; what it chooses, and what the method reads, is the argument `instructions`.
pub mod Sums
use atrox.Prelude.{ℕ, ◌+◌, ◌-◌, ◌%◌, ◌^◌, Bool, ◌&&◌, List, [], ◌∷◌, if◌then◌else◌, foldl, emplace}

-- `PayloadWeightTy` is a 32-bit `unsigned`.
abbrev pub u32_mod : ℕ
u32_mod = 2 ^ 32

-- The enumeration, and its underlying values.
pub data WeightedPayloadType : Type 0 where
  minimum cast debug_intrinsic instruction memory call maximum : WeightedPayloadType

abbrev pub to_weight : WeightedPayloadType → ℕ
to_weight WeightedPayloadType.minimum = 0
to_weight WeightedPayloadType.cast = 1
to_weight WeightedPayloadType.debug_intrinsic = 1
to_weight WeightedPayloadType.instruction = 2
to_weight WeightedPayloadType.memory = 20
to_weight WeightedPayloadType.call = 35
to_weight WeightedPayloadType.maximum = u32_mod - 1

-- The visitor's methods. A terminator is a `BranchInst` or not, and a branch is unconditional or not.
pub data Visit : Type 0 where
  load cast call store instruction dbg_info alloca get_element_ptr mem_intrinsic : Visit
  terminator : Bool → Bool → Visit

-- What a method adds to the weight.
unfoldable pub weight_of : Visit → WeightedPayloadType
weight_of Visit.load = WeightedPayloadType.memory
weight_of Visit.cast = WeightedPayloadType.cast
weight_of Visit.call = WeightedPayloadType.call
weight_of Visit.store = WeightedPayloadType.memory
weight_of Visit.instruction = WeightedPayloadType.instruction
weight_of Visit.dbg_info = WeightedPayloadType.debug_intrinsic
weight_of Visit.alloca = WeightedPayloadType.memory
weight_of Visit.get_element_ptr = WeightedPayloadType.memory
weight_of Visit.mem_intrinsic = WeightedPayloadType.memory
weight_of (Visit.terminator is_branch is_unconditional) =
    if is_branch && is_unconditional
    then WeightedPayloadType.minimum
    else WeightedPayloadType.instruction

-- `operator+=` of the `unsigned` weight.
unfoldable pub add_weight : ℕ → WeightedPayloadType → ℕ
add_weight lhs rhs = (lhs + to_weight rhs) % u32_mod

-- `visit` of an instruction and of a block, from a reset calculator.
unfoldable pub visit : ℕ → Visit → ℕ
unfolding weight_of add_weight
visit weight i = add_weight weight (weight_of i)

unfoldable pub block_weight : List Visit → ℕ
unfolding visit
block_weight = foldl visit 0

unfoldable pub calculate_payload_weight : (ℕ → List Visit) → List ℕ → List (ℕ × ℕ) → List (ℕ × ℕ)
unfolding block_weight
calculate_payload_weight instructions [] weights = weights
calculate_payload_weight instructions (e ∷ blocks) weights =
    calculate_payload_weight instructions blocks (emplace weights e (block_weight (instructions e)))
