-- ===== src/Extractor/Clone.antt =====
-- `cloneFunction` and what `cloneCodeRegion` does with it: the parameters of the new function, what the clones of the
-- region's instructions use, what the root and the exit block hold, and where the clones branch to.
pub mod Operands
pub mod Rewrites
pub mod Scoped
pub mod Remapped
pub mod Complete
pub mod Targets
pub mod Aggregated
pub mod Exits
pub mod Tests
use atrox.Prelude.{
  ℕ, suc, ◌+◌, Bool, true, false, not, ◌&&◌, if◌then◌else◌, List, [], ◌∷◌, ◌++◌, Option, some, none,
  ◌==◌, ltb, length, map, get_elem?, contains, lookup, Result, Error, ok, err, ◌>>=◌, ◌>>◌, guard,
}
use atrox.Args.Directions.{is_bidirectional}
use atrox.Extractor.Regions.{Ir, defined_in_region}
use atrox.Extractor.Stack.{Slots}
use atrox.Extractor.Prepare.{Prepared, get_pure_inputs}

-- What an instruction of the new function uses. The numbers of `argument` and `loaded_argument` are those of an
-- argument, of `loaded_field` that of a field of the struct, of `loaded_slot` that of a slot; `original` is what the
-- instruction of the region used, and `cloned` the clone of an instruction.
pub data Operand : Type 0 where
  original argument loaded_argument loaded_field loaded_slot cloned : ℕ → Operand

-- What stands in the root block.
pub data RootInst : Type 0 where
  load_argument field_pointer load_field : ℕ → RootInst
  alloca : ℕ → RootInst
  store_slot : ℕ → ℕ → RootInst
  load_slot : ℕ → RootInst

-- A type that is a parameter of its own, or a field of the struct.
pub data ParamType : Type 0 where
  type_of : ℕ → ParamType
  pointer_to_type_of : ℕ → ParamType

-- The parameters, each for itself, or in a struct that the one parameter points to.
pub data Params : Type 0 where
  each : List ParamType → Params
  pointer_to_struct : List ParamType → Params

-- The names of the arguments: that of a value, alone or with `.out`.
pub data ArgName : Type 0 where
  name_of : ℕ → ArgName
  out_name_of : ℕ → ArgName

-- The clone of an instruction.
pub record Instruction : Type 0 where
  pub origin : ℕ
  pub operands : List Operand

pub record Rewritten : Type 0 where
  pub root : List RootInst
  pub region : List Instruction

-- A store before the end of the exit block: of a value, to an argument.
pub record ExitStore : Type 0 where
  pub value : Operand
  pub pointer : ℕ

-- `CloneBasicBlock` for the blocks of the region.
unfoldable pub clone_instruction : Ir → ℕ → Instruction
clone_instruction ir i = record { origin = i; operands = map original (ir.operands i) }

unfoldable pub clone_blocks : Ir → List ℕ → List Instruction
unfolding clone_instruction
clone_blocks ir [] = []
clone_blocks ir (b ∷ bs) = map (clone_instruction ir) (ir.instructions b) ++ clone_blocks ir bs

-- `replaceUsesOfWith`, in every user of a value that is in a clone.
unfoldable pub replace_operand : ℕ → Operand → Operand → Operand
replace_operand v r (original w) = if w == v then r else original w
replace_operand v r (argument n) = argument n
replace_operand v r (loaded_argument n) = loaded_argument n
replace_operand v r (loaded_field n) = loaded_field n
replace_operand v r (loaded_slot n) = loaded_slot n
replace_operand v r (cloned w) = cloned w

unfoldable pub replace_uses : ℕ → Operand → Rewritten → Rewritten
unfolding replace_operand
replace_uses v r s = record {
  root = s.root;
  region =
      map (λ i. record { origin = i.origin; operands = map (replace_operand v r) i.operands })
        s.region;
}

unfoldable pub emit : List RootInst → Rewritten → Rewritten
emit is' s = record { root = s.root ++ is'; region = s.region }

-- The types of the parameters, where `is_pointer` tells the values of a pointer type.
unfoldable pub output_type : (ℕ → Bool) → Bool → ℕ → ParamType
output_type is_pointer true w = type_of w
output_type is_pointer false w = if is_pointer w then type_of w else pointer_to_type_of w

unfoldable pub param_types : (ℕ → Bool) → Bool → List ℕ → List ℕ → List ParamType
unfolding output_type
param_types is_pointer aggregate used outputs =
    map type_of used ++ map (output_type is_pointer aggregate) outputs

unfoldable pub params : (ℕ → Bool) → Bool → List ℕ → List ℕ → Params
unfolding param_types
params is_pointer aggregate used outputs =
    if aggregate && ltb 0 (length used + length outputs)
    then pointer_to_struct (param_types is_pointer aggregate used outputs)
    else each (param_types is_pointer aggregate used outputs)

unfoldable pub arg_count : Params → ℕ
arg_count (each ts) = length ts
arg_count (pointer_to_struct ts) = 1

unfoldable pub arg_names : List ℕ → List ℕ → List ArgName
arg_names used outputs = map name_of used ++ map out_name_of outputs

-- The loop over the inputs that have an argument of their own, from an index on.
unfoldable pub input_args : Bool → ℕ → List ℕ → Rewritten → Rewritten
unfolding replace_uses emit
input_args aggregate n [] s = s
input_args false n (v ∷ vs) s = input_args false (suc n) vs (replace_uses v (argument n) s)
input_args true n (v ∷ vs) s =
    input_args true (suc n) vs
      (replace_uses v (loaded_field n) (emit (field_pointer n ∷ load_field n ∷ []) s))

-- `operator[]` of the map, whose index for a missing key is 0.
unfoldable pub index_at : List (ℕ × ℕ) → ℕ → ℕ
index_at io v = elim (lookup io v) [ none ↦ 0 | some i ↦ i ]

-- The output of a bidirectional input with its argument; one that is not there is undefined.
unfoldable pub output_at : ℕ → Prepared → ℕ → Result (ℕ × ℕ)
unfolding get_pure_inputs
output_at count p i =
    let n = length (get_pure_inputs p) + i in
    elim (get_elem? p.outputs i) [
      | none ↦ err Error.undefined
      | some w ↦ if ltb n count then ok (w, n) else err Error.undefined
    ]

unfoldable pub out_argument : ℕ → Prepared → ℕ → Result (ℕ × ℕ)
unfolding index_at output_at
out_argument count p v = output_at count p (index_at p.input_to_output v)

module _ (is_pointer : ℕ → Bool) (count : ℕ) (p : Prepared) where
  unfoldable pub use_argument : ℕ → Rewritten → ℕ × ℕ → Rewritten
  unfolding replace_uses emit
  use_argument v s (w, n) =
      if is_pointer w
      then replace_uses v (argument n) s
      else replace_uses v (loaded_argument n) (emit (load_argument n ∷ []) s)

  -- The loop over the inputs, for those that are bidirectional.
  unfoldable pub bidirectional_args : List ℕ → Rewritten → Result Rewritten
  unfolding is_bidirectional out_argument use_argument
  bidirectional_args [] s = ok s
  bidirectional_args (v ∷ vs) s =
      (if is_bidirectional v p.output_to_input
        then (out_argument count p v >>= λ q. ok (use_argument v s q))
        else ok s)
      >>= λ t. bidirectional_args vs t

  -- The loop over the inputs that gives the exit block its stores.
  unfoldable pub store_of : ℕ × ℕ → List ExitStore
  store_of (w, n) = if is_pointer w then [] else record { value = original w; pointer = n } ∷ []

  unfoldable pub exit_stores : List ℕ → Result (List ExitStore)
  unfolding is_bidirectional out_argument store_of
  exit_stores [] = ok []
  exit_stores (v ∷ vs) =
      (if is_bidirectional v p.output_to_input
        then (out_argument count p v >>= λ q. ok (store_of q))
        else ok [])
      >>= λ ss. exit_stores vs >>= λ rest. ok (ss ++ rest)

-- `StackAllocaInits.size() && StackAllocaInits[i]`; a read behind the end is undefined.
unfoldable pub read_init : List (Option ℕ) → ℕ → Result (Option ℕ)
read_init [] i = ok none
read_init (x ∷ xs) i = elim (get_elem? (x ∷ xs) i) [ none ↦ err Error.undefined | some o ↦ ok o ]

unfoldable pub slot_init : Slots → ℕ → Result (Option ℕ)
unfolding read_init
slot_init slots i = read_init slots.stack_alloca_inits i

unfoldable pub slot_insts : ℕ → ℕ → Option ℕ → List RootInst
slot_insts v i none = alloca v ∷ load_slot i ∷ []
slot_insts v i (some c) = alloca v ∷ store_slot c i ∷ load_slot i ∷ []

-- The loop over the slots, from an index on.
unfoldable pub slot_args : Slots → ℕ → List ℕ → Rewritten → Result Rewritten
unfolding slot_init slot_insts replace_uses emit
slot_args slots i [] s = ok s
slot_args slots i (v ∷ vs) s = slot_init slots i >>= λ o.
    slot_args slots (suc i) vs (replace_uses v (loaded_slot i) (emit (slot_insts v i o) s))

-- What `cloneFunction` makes.
pub record CloneFunction : Type 0 where
  pub params : Params
  pub names : List ArgName
  pub root : List RootInst
  pub region : List Instruction
  pub exit : List ExitStore

module _ (ir : Ir) (blocks : List ℕ) where
  -- `RemapInstruction`: the value map holds the instructions of the region.
  unfoldable pub remap_operand : Operand → Operand
  unfolding defined_in_region
  remap_operand (original v) = if defined_in_region ir blocks v then cloned v else original v
  remap_operand (argument n) = argument n
  remap_operand (loaded_argument n) = loaded_argument n
  remap_operand (loaded_field n) = loaded_field n
  remap_operand (loaded_slot n) = loaded_slot n
  remap_operand (cloned v) = cloned v

  unfoldable pub remap_function : CloneFunction → CloneFunction
  unfolding remap_operand
  remap_function f = record {
    params = f.params;
    names = f.names;
    root = f.root;
    region =
        map (λ i. record { origin = i.origin; operands = map remap_operand i.operands }) f.region;
    exit = map (λ s. record { value = remap_operand s.value; pointer = s.pointer }) f.exit;
  }

module _ (ir : Ir) (is_pointer : ℕ → Bool) (aggregate : Bool) (blocks : List ℕ) where
  -- With the number of the arguments.
  unfoldable pub clone_with : Prepared → ℕ → Result CloneFunction
  unfolding get_pure_inputs params arg_names clone_blocks input_args bidirectional_args slot_args
      exit_stores
  clone_with p count =
      let used = get_pure_inputs p in
      let start : Rewritten = record { root = []; region = clone_blocks ir blocks } in
      bidirectional_args is_pointer count p p.inputs (input_args aggregate 0 used start) >>= λ s.
      slot_args p.slots 0 p.slots.stack_allocas s >>= λ t.
      exit_stores is_pointer count p p.inputs >>= λ stores. ok (record {
        params = params is_pointer aggregate used p.outputs;
        names = if aggregate then [] else arg_names used p.outputs;
        root = t.root;
        region = t.region;
        exit = stores;
      })

  unfoldable pub clone_function : Prepared → Result CloneFunction
  unfolding get_pure_inputs params arg_count clone_with
  clone_function p =
      clone_with p (arg_count (params is_pointer aggregate (get_pure_inputs p) p.outputs))

  -- What `cloneCodeRegion` gets, where the header needs no split and no block of the region returns.
  unfoldable pub clone_code_region : Prepared → Result CloneFunction
  unfolding clone_function remap_function
  clone_code_region p = clone_function p >>= λ f. ok (remap_function ir blocks f)
